-- ===== src/Routes/Left.antt =====
-- What subtractCIDR of web/internal/corplink/wgconf.go leaves, on strings: an address that is carved
-- out alone is not routed any more.
use fu_corplink.Common.{
  ℕ, zero, suc, ◌+◌, ◌-◌, ◌≡◌, ◌≢◌, ◌≤◌, ◌==◌, refl, ap, ◌∙◌, leb, length, Bool, true, false, not,
  ◌&&◌, none, some, Text, List, [], ◌∷◌, ◌++◌, map, if◌then◌else◌, All, inl, inr, arith, Bool-cases,
  Option-cases,
}
use fu_corplink.Routes.Carve.{
  Addr, Prefix, bit, same_bit, agrees, masked, set_bit, lower, upper, contains, carve,
  subtract_cidr, covers,
}
use fu_corplink.Routes.Cover.{length-mask}
use fu_corplink.Routes.Subtract.{subtract_cidr-covers}
use fu_corplink.Routes.Build.{NetIp, IsNetIp, subtract_prefix, subtract_text, host_prefix}

-- whether a route is one that an address goes through
unfoldable pub routed_by : NetIp → Text → Addr → Bool
routed_by net t x = elim (net.parse_prefix t) [ none ↦ false | some p ↦ contains p x ]

-- an address that goes through none of the routes
abbrev pub Unrouted : NetIp → Addr → List Text → Type 0
Unrouted net x ts = All (λ t. routed_by net t x ≡ false) ts

pub Unrouted-append :
    (net : NetIp) (x : Addr) (ss ts : List Text)
    → Unrouted net x ss
    → Unrouted net x ts
    → Unrouted net x (ss ++ ts)
Unrouted-append net x [] ts h k = k
Unrouted-append net x (s ∷ ss) ts h k = (h.0, Unrouted-append net x ss ts h.1 k)

abbrev Fits : Prefix → Type 0
Fits p = p.bits ≤ length p.addr

length-set_bit : (i : ℕ) (a : Addr) → length (set_bit i a) ≡ length a
unfolding set_bit
length-set_bit i [] = refl
length-set_bit zero (b ∷ a) = refl
length-set_bit (suc i) (b ∷ a) = ap suc (length-set_bit i a)

-- what carve makes has no more bits than the address
carve-Fits :
    (fuel : ℕ) (outer inner : Prefix)
    → outer.bits + fuel ≤ length outer.addr
    → All Fits (carve fuel outer inner)
unfolding carve
carve-Fits zero outer inner h = tt
carve-Fits (suc fuel) outer inner h =
    let low = length-mask (outer.bits + 1) outer.addr in
    let high = length-mask (outer.bits + 1) (set_bit outer.bits outer.addr) in
    let len = length-set_bit outer.bits outer.addr in
    elim (Bool-cases (outer.bits == inner.bits)) [
      | inl e ↦ rw (e, carve) tt
      | inr e ↦ elim (Bool-cases (contains (lower outer) inner.addr)) [
        | inl f ↦
            rw (e, f, carve)
              (
                omega (arith, h, high, len),
                carve-Fits fuel (lower outer) inner (omega (arith, h, low)),
              )
        | inr f ↦
            rw (e, f, carve)
              (
                omega (arith, h, low),
                carve-Fits fuel (upper outer) inner (omega (arith, h, high, len)),
              )
      ]
    ]

printed-Unrouted :
    (net : NetIp) (x : Addr) (ps : List Prefix)
    → IsNetIp net
    → All Fits ps
    → covers ps x ≡ false
    → Unrouted net x (map net.prefix_string ps)
unfolding covers routed_by
printed-Unrouted net x [] ok f c = tt
printed-Unrouted net x (p ∷ ps) ok f c = (
  rw (ok.reads p f.0, routed_by) (ground (arith, c)),
  printed-Unrouted net x ps ok f.1 (ground (arith, c)),
)

-- one property of the branches of a choice gives another of those of a parallel choice
branches :
    {A B : Type 0} (P : A → Type 0) (Q : B → Type 0) (b c d : Bool) (a a' a'' : A) (t t' t'' : B)
    → (P a → Q t)
    → Q t'
    → (b ≡ true → P a'' → Q t'')
    → P (if not b then a else if c then a' else if not d then a else a'')
    → Q (if not b then t else if c then t' else if not d then t else t'')
branches P Q false c d a a' a'' t t' t'' f g h p = f p
branches P Q true true d a a' a'' t t' t'' f g h p = g
branches P Q true false false a a' a'' t t' t'' f g h p = f p
branches P Q true false true a a' a'' t t' t'' f g h p = h refl p

pub routed_by-covers :
    (net : NetIp) (x : Addr) (t : Text) (p : Prefix)
    → net.parse_prefix t ≡ some p
    → covers (p ∷ []) x ≡ false
    → routed_by net t x ≡ false
unfolding covers routed_by
routed_by-covers net x t p e c = rw (e, routed_by) (ground (arith, c))

-- on strings, too, an address that the difference of two prefixes leaves out is left out
subtract_prefix-Unrouted :
    (net : NetIp) (x : Addr) (outer : Text) (op ip : Prefix)
    → IsNetIp net
    → net.parse_prefix outer ≡ some op
    → Fits op
    → Fits ip
    → covers (subtract_cidr op ip) x ≡ false
    → Unrouted net x (subtract_prefix net outer op ip)
unfolding subtract_prefix subtract_cidr
subtract_prefix-Unrouted net x outer op ip ok e f g c =
    let a = masked op in
    let b = masked ip in
    branches {A = List Prefix} {B = List Text} (λ ps. covers ps x ≡ false) (λ ts. Unrouted net x ts)
      (length a.addr == length b.addr) (leb b.bits a.bits && contains b a.addr) (contains a b.addr)
      (op ∷ []) [] (carve (b.bits - a.bits) a b) (outer ∷ []) []
      (map net.prefix_string (carve (b.bits - a.bits) a b))
      (λ q. (routed_by-covers net x outer op e q, tt)) tt
      (λ n q.
        printed-Unrouted net x (carve (b.bits - a.bits) a b) ok
          (carve-Fits (b.bits - a.bits) a b
            (ground (arith, n, f, g, length-mask op.bits op.addr, length-mask ip.bits ip.addr)))
          q)
      c

contains_other_family : (p : Prefix) (x : Addr) → length x ≢ length p.addr → contains p x ≡ false
unfolding contains
contains_other_family p x h = ground (arith, h)

agrees_refl : (n : ℕ) (a : Addr) → agrees n a a ≡ true
unfolding agrees same_bit
agrees_refl zero a = refl
agrees_refl (suc n) a = ground (arith, agrees_refl n a, same (bit n a))
  where
    same : (b : Bool) → same_bit b b ≡ true
    same true = refl
    same false = refl

contains-host : (x : Addr) → contains (host_prefix x) x ≡ true
unfolding contains
contains-host x = ground (arith, agrees_refl (length x) x)

other_family_kept :
    (op ip : Prefix) → (length op.addr == length ip.addr) ≡ false → subtract_cidr op ip ≡ op ∷ []
unfolding subtract_cidr
other_family_kept op ip h =
    let apart : (length (masked op).addr == length (masked ip).addr) ≡ false =
      ground (arith, h, length-mask op.bits op.addr, length-mask ip.bits ip.addr) in
    rw (apart, subtract_cidr) refl

pub covers_one : (p : Prefix) (x : Addr) → covers (p ∷ []) x ≡ contains p x
unfolding covers
covers_one p x = ground arith

-- an address alone, taken out of a prefix, is not covered any more
host_uncovered :
    (op : Prefix) (x : Addr) → Fits op → covers (subtract_cidr op (host_prefix x)) x ≡ false
host_uncovered op x f = elim (Bool-cases (length op.addr == length x)) [
  | inl e ↦
      subtract_cidr-covers op (host_prefix x) x f (omega arith) (ground (arith, e))
      ∙ ground (arith, contains-host x)
  | inr e ↦
      ap (λ ps. covers ps x) (other_family_kept op (host_prefix x) e)
      ∙ covers_one op x
      ∙ contains_other_family op x (λ q. absurd (ground (arith, e, q)))
]

-- what carves an address alone out of a route does not route it
pub subtract_text-Unrouted :
    (net : NetIp) (x : Addr) (outer : Text)
    → IsNetIp net
    → Unrouted net x (subtract_text net outer (net.prefix_string (host_prefix x)))
unfolding subtract_text routed_by
subtract_text-Unrouted net x outer ok = elim (Option-cases (net.parse_prefix outer)) [
  | inl e ↦ rw (e, subtract_text) (rw (e, routed_by) refl, tt)
  | inr (op, e) ↦
      rw (e, ok.reads (host_prefix x) (omega arith), subtract_text)
        (subtract_prefix-Unrouted net x outer op (host_prefix x) ok e (ok.fits outer op e)
          (omega arith) (host_uncovered op x (ok.fits outer op e)))
]
