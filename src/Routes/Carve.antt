-- ===== src/Routes/Carve.antt =====
-- subtractCIDR, carve and setBit of web/internal/corplink/wgconf.go, behind the parsing of the two
-- prefixes. A netip.Addr is the list of its bits from the most significant one, 32 or 128 of them.
use fu_corplink.Common.{
  ℕ, zero, suc, ◌+◌, ◌-◌, Bool, true, false, ◌&&◌, ◌||◌, not, List, [], ◌∷◌, length, ◌==◌, leb,
  if◌then◌else◌,
}

abbrev pub Addr : Type 0
Addr = List Bool

-- netip.Prefix
pub record Prefix : Type 0 where
  pub addr : Addr
  pub bits : ℕ

unfoldable pub bit : ℕ → Addr → Bool
bit i [] = false
bit zero (b ∷ a) = b
bit (suc i) (b ∷ a) = bit i a

unfoldable pub same_bit : Bool → Bool → Bool
same_bit true b = b
same_bit false b = not b

-- the first `n` bits are the same
unfoldable pub agrees : ℕ → Addr → Addr → Bool
agrees zero a x = true
agrees (suc n) a x = agrees n a x && same_bit (bit n a) (bit n x)

-- Prefix.Masked
unfoldable pub mask : ℕ → Addr → Addr
mask n [] = []
mask zero (b ∷ a) = false ∷ mask zero a
mask (suc n) (b ∷ a) = b ∷ mask n a

abbrev pub masked : Prefix → Prefix
masked p = record { addr = mask p.bits p.addr; bits = p.bits }

-- Prefix.Contains
unfoldable pub contains : Prefix → Addr → Bool
contains p x = length p.addr == length x && agrees p.bits p.addr x

-- setBit
unfoldable pub set_bit : ℕ → Addr → Addr
set_bit i [] = []
set_bit zero (b ∷ a) = true ∷ a
set_bit (suc i) (b ∷ a) = b ∷ set_bit i a

-- the two halves of a prefix
abbrev pub lower : Prefix → Prefix
lower p = masked (record { addr = p.addr; bits = p.bits + 1 })

abbrev pub upper : Prefix → Prefix
upper p = masked (record { addr = set_bit p.bits p.addr; bits = p.bits + 1 })

-- carve; a round halves the outer prefix, so `inner.bits - outer.bits` rounds are enough
unfoldable pub carve : ℕ → Prefix → Prefix → List Prefix
carve zero outer inner = []
carve (suc fuel) outer inner =
    let below = carve fuel (lower outer) inner in
    let above = carve fuel (upper outer) inner in
    if outer.bits == inner.bits
    then []
    else if contains (lower outer) inner.addr
    then upper outer ∷ below
    else lower outer ∷ above

-- subtractCIDR, where both strings are prefixes
unfoldable pub subtract_cidr : Prefix → Prefix → List Prefix
subtract_cidr outer inner =
    let op = masked outer in
    let ip = masked inner in
    if not (length op.addr == length ip.addr)
    then outer ∷ []
    else if leb ip.bits op.bits && contains ip op.addr
    then []
    else if not (contains op ip.addr)
    then outer ∷ []
    else carve (ip.bits - op.bits) op ip

-- whether an address is routed by one of the prefixes
unfoldable pub covers : List Prefix → Addr → Bool
unfolding contains
covers [] x = false
covers (p ∷ ps) x = contains p x || covers ps x
