-- ===== src/Routes/Cover.antt =====
-- The prefixes that subtractCIDR of web/internal/corplink/wgconf.go returns route the outer
-- addresses without the inner ones.
use fu_corplink.Common.{
  ℕ, zero, suc, ◌+◌, ◌≡◌, ◌≤◌, ◌<◌, refl, ap, sym, ◌∙◌, subst, Bool, true, false, ◌&&◌, ◌||◌, not,
  [], ◌∷◌, length, ◌==◌, leb, if◌then◌else◌, arith, Bool-cases, inl, inr,
}
use fu_corplink.Routes.Carve.{
  Addr, Prefix, bit, same_bit, agrees, mask, contains, set_bit, lower, upper, carve, covers,
}

pub bit-mask : (i n : ℕ) (a : Addr) → bit i (mask n a) ≡ (if leb (i + 1) n then bit i a else false)
unfolding bit mask
bit-mask i n [] = ground arith
bit-mask zero zero (b ∷ a) = ground arith
bit-mask (suc i) zero (b ∷ a) = ground (arith, bit-mask i zero a)
bit-mask zero (suc n) (b ∷ a) = ground arith
bit-mask (suc i) (suc n) (b ∷ a) = ground (arith, bit-mask i n a)

pub length-mask : (n : ℕ) (a : Addr) → length (mask n a) ≡ length a
unfolding mask
length-mask n [] = refl
length-mask zero (b ∷ a) = ground (arith, length-mask zero a)
length-mask (suc n) (b ∷ a) = ground (arith, length-mask n a)

length-set_bit : (i : ℕ) (a : Addr) → length (set_bit i a) ≡ length a
unfolding set_bit
length-set_bit i [] = refl
length-set_bit zero (b ∷ a) = ground arith
length-set_bit (suc i) (b ∷ a) = ground (arith, length-set_bit i a)

bit-set_bit :
    (i j : ℕ) (a : Addr) → j < length a → bit i (set_bit j a) ≡ (if i == j then true else bit i a)
unfolding bit set_bit
bit-set_bit i j [] lt = absurd (omega (arith, lt))
bit-set_bit zero zero (b ∷ a) lt = ground arith
bit-set_bit (suc i) zero (b ∷ a) lt = ground arith
bit-set_bit zero (suc j) (b ∷ a) lt = ground arith
bit-set_bit (suc i) (suc j) (b ∷ a) lt = ground (arith, bit-set_bit i j a (omega (arith, lt)))

-- agreement sees only the bits before it
pub agrees-cong :
    (n : ℕ) (a b x : Addr) → ((i : ℕ) → i < n → bit i a ≡ bit i b) → agrees n a x ≡ agrees n b x
unfolding agrees
agrees-cong zero a b x h = refl
agrees-cong (suc n) a b x h =
    ground (arith, agrees-cong n a b x (λ i lt. h i (omega (arith, lt))), h n (omega arith))

agrees_next :
    (n : ℕ) (a x : Addr) → agrees (n + 1) a x ≡ agrees n a x && same_bit (bit n a) (bit n x)
unfolding agrees
agrees_next n a x =
    subst (λ k. agrees k a x ≡ agrees n a x && same_bit (bit n a) (bit n x)) next refl
  where
    next : suc n ≡ n + 1
    next = omega arith

-- an address in a longer prefix is in a shorter one
pub agrees_mono : (n m : ℕ) (a x : Addr) → n ≤ m → agrees m a x ≡ true → agrees n a x ≡ true
unfolding agrees
agrees_mono zero zero a x le h = refl
agrees_mono (suc n) zero a x le h = absurd (omega (arith, le))
agrees_mono n (suc m) a x le h = elim (Bool-cases (n == suc m)) [
  | inl e ↦ subst (λ k. agrees k a x ≡ true) (sym (equal e)) h
  | inr ne ↦ agrees_mono n m a x (ground (arith, ne, le)) (ground (arith, h))
]
  where
    equal : (n == suc m) ≡ true → n ≡ suc m
    equal e = ground (arith, e)

same_bits : (p c d : Bool) → (p && same_bit c d) ≡ true → c ≡ d
unfolding same_bit
same_bits p true true e = refl
same_bits p true false e = ground (arith, e)
same_bits p false true e = ground (arith, e)
same_bits p false false e = refl

-- an address agrees with one of two that agree as it does with the other
pub agrees-swap : (n : ℕ) (a b x : Addr) → agrees n a b ≡ true → agrees n a x ≡ agrees n b x
unfolding agrees same_bit
agrees-swap zero a b x h = refl
agrees-swap (suc n) a b x h = ground (
  arith,
  agrees-swap n a b x (first (agrees n a b) _ h),
  same_bits (agrees n a b) (bit n a) (bit n b) h,
)
  where
    first : (p q : Bool) → (p && q) ≡ true → p ≡ true
    first p q e = ground (arith, e)

same_false : (a b : Bool) → (a && same_bit false b) ≡ (a && not b)
unfolding same_bit
same_false a b = refl

same_true : (n : ℕ) (c a b : Bool) → (a && same_bit (if n == n then true else c) b) ≡ (a && b)
unfolding same_bit
same_true n c a b = ground arith

module _ (p : Prefix) (x : Addr) (clear : bit p.bits p.addr ≡ false) where
  lower-agrees : agrees (p.bits + 1) (lower p).addr x ≡ agrees p.bits p.addr x && not (bit p.bits x)
  lower-agrees = agrees-cong (p.bits + 1) _ p.addr x kept ∙ last
    where
      kept : (i : ℕ) → i < p.bits + 1 → bit i (mask (p.bits + 1) p.addr) ≡ bit i p.addr
      kept i lt = bit-mask i (p.bits + 1) p.addr ∙ ground (arith, lt)

      last : agrees (p.bits + 1) p.addr x ≡ agrees p.bits p.addr x && not (bit p.bits x)
      last = agrees_next p.bits p.addr x ∙ rw clear (same_false _ (bit p.bits x))

  upper-agrees :
      p.bits < length p.addr
      → agrees (p.bits + 1) (upper p).addr x ≡ agrees p.bits p.addr x && bit p.bits x
  upper-agrees lt =
      agrees-cong (p.bits + 1) _ (set_bit p.bits p.addr) x kept
      ∙ agrees_next p.bits (set_bit p.bits p.addr) x
      ∙ rw (bit-set_bit p.bits p.bits p.addr lt, below) (same_true p.bits _ _ (bit p.bits x))
    where
      kept :
          (i : ℕ)
          → i < p.bits + 1
          → bit i (mask (p.bits + 1) (set_bit p.bits p.addr)) ≡ bit i (set_bit p.bits p.addr)
      kept i l = bit-mask i (p.bits + 1) (set_bit p.bits p.addr) ∙ ground (arith, l)

      below : agrees p.bits (set_bit p.bits p.addr) x ≡ agrees p.bits p.addr x
      below =
          agrees-cong p.bits (set_bit p.bits p.addr) p.addr x
            (λ i l. bit-set_bit i p.bits p.addr lt ∙ ground (arith, l))

pub contains-agrees :
    (p : Prefix) (x : Addr) → length p.addr ≡ length x → contains p x ≡ agrees p.bits p.addr x
unfolding contains
contains-agrees p x e = ground (arith, e)

-- an address of the inner prefix has its next bit
next_bit :
    (n : ℕ) (q : Prefix) (x : Addr)
    → n < q.bits
    → agrees q.bits q.addr x ≡ true
    → bit n q.addr ≡ bit n x
next_bit n q x lt h =
    same_bits (agrees n q.addr x) _ _
      (sym (agrees_next n q.addr x) ∙ agrees_mono (n + 1) q.bits q.addr x (omega (arith, lt)) h)

halves-apart :
    (a bx bq i : Bool)
    → (i ≡ true → bq ≡ bx)
    → ((bq ≡ false) → ((a && bx) || ((a && not bx) && not i)) ≡ (a && not i))
      × ((bq ≡ true) → ((a && not bx) || ((a && bx) && not i)) ≡ (a && not i))
halves-apart a bx bq true h = ((λ e. ground (arith, e, h refl)), (λ e. ground (arith, e, h refl)))
halves-apart a bx bq false h = ((λ e. ground arith), (λ e. ground arith))

-- carve returns the outer prefix without the inner one, which stands in it.
pub carve-covers :
    (fuel : ℕ) (p q : Prefix) (x : Addr)
    → q.bits ≡ p.bits + fuel
    → q.bits ≤ length p.addr
    → length x ≡ length p.addr
    → length q.addr ≡ length p.addr
    → bit p.bits p.addr ≡ false
    → agrees p.bits p.addr q.addr ≡ true
    → covers (carve fuel p q) x ≡ (agrees p.bits p.addr x && not (agrees q.bits q.addr x))
unfolding carve covers
carve-covers zero p q x bits fits lx lq clear inside =
    nothing_left _ _ (
      agrees-swap p.bits p.addr q.addr x inside ∙ ap (λ n. agrees n q.addr x) (omega (arith, bits)))
  where
    nothing_left : (a b : Bool) → a ≡ b → false ≡ (a && not b)
    nothing_left a b e = ground (arith, e)
carve-covers (suc fuel) p q x bits fits lx lq clear inside = elim (Bool-cases (bit p.bits q.addr)) [
  | inr zero_bit ↦
      rw (longer, in_lower zero_bit)
        (rw
          (
            upper_x,
            carve-covers fuel (lower p) q x (omega (arith, bits)) (omega (arith, fits, lower_len))
                (omega (arith, lx, lower_len)) (omega (arith, lq, lower_len))
                (cleared (p.bits + 1) p.addr) (lower_q ∙ rw (inside, zero_bit) refl),
            lower_x,
          )
          (apart.0 zero_bit))
  | inl one_bit ↦
      rw (longer, out_of_lower one_bit)
        (rw
          (
            contains_lower_x,
            carve-covers fuel (upper p) q x (omega (arith, bits)) (omega (arith, fits, upper_len))
                (omega (arith, lx, upper_len)) (omega (arith, lq, upper_len))
                (cleared (p.bits + 1) (set_bit p.bits p.addr))
                (upper_q ∙ rw (inside, one_bit) refl),
            upper_agrees_x,
          )
          (apart.1 one_bit))
]
  where
    short : p.bits < length p.addr
    short = omega (arith, bits, fits)

    longer : (p.bits == q.bits) ≡ false
    longer = ground (arith, bits)

    lower_len : length (lower p).addr ≡ length p.addr
    lower_len = length-mask (p.bits + 1) p.addr

    upper_len : length (upper p).addr ≡ length p.addr
    upper_len = length-mask (p.bits + 1) _ ∙ length-set_bit p.bits p.addr

    lower_q :
        agrees (p.bits + 1) (lower p).addr q.addr
        ≡ (agrees p.bits p.addr q.addr && not (bit p.bits q.addr))
    lower_q = lower-agrees p q.addr clear

    upper_q :
        agrees (p.bits + 1) (upper p).addr q.addr
        ≡ (agrees p.bits p.addr q.addr && bit p.bits q.addr)
    upper_q = upper-agrees p q.addr clear short

    lower_x : agrees (p.bits + 1) (lower p).addr x ≡ (agrees p.bits p.addr x && not (bit p.bits x))
    lower_x = lower-agrees p x clear

    contains_lower_x : contains (lower p) x ≡ (agrees p.bits p.addr x && not (bit p.bits x))
    contains_lower_x = contains-agrees (lower p) x (lower_len ∙ sym lx) ∙ lower_x

    upper_agrees_x : agrees (p.bits + 1) (upper p).addr x ≡ (agrees p.bits p.addr x && bit p.bits x)
    upper_agrees_x = upper-agrees p x clear short

    upper_x : contains (upper p) x ≡ (agrees p.bits p.addr x && bit p.bits x)
    upper_x = contains-agrees (upper p) x (upper_len ∙ sym lx) ∙ upper_agrees_x

    in_lower : bit p.bits q.addr ≡ false → contains (lower p) q.addr ≡ true
    in_lower e =
        contains-agrees (lower p) q.addr (lower_len ∙ sym lq) ∙ lower_q ∙ rw (inside, e) refl

    out_of_lower : bit p.bits q.addr ≡ true → contains (lower p) q.addr ≡ false
    out_of_lower e =
        contains-agrees (lower p) q.addr (lower_len ∙ sym lq) ∙ lower_q ∙ rw (inside, e) refl

    cleared : (n : ℕ) (a : Addr) → bit n (mask n a) ≡ false
    cleared n a = bit-mask n n a ∙ ground arith

    apart :
        ((bit p.bits q.addr ≡ false)
          → ((agrees p.bits p.addr x && bit p.bits x)
              || ((agrees p.bits p.addr x && not (bit p.bits x)) && not (agrees q.bits q.addr x)))
            ≡ (agrees p.bits p.addr x && not (agrees q.bits q.addr x)))
        × ((bit p.bits q.addr ≡ true)
            → ((agrees p.bits p.addr x && not (bit p.bits x))
                || ((agrees p.bits p.addr x && bit p.bits x) && not (agrees q.bits q.addr x)))
              ≡ (agrees p.bits p.addr x && not (agrees q.bits q.addr x)))
    apart =
        halves-apart (agrees p.bits p.addr x) (bit p.bits x) (bit p.bits q.addr)
          (agrees q.bits q.addr x) (next_bit p.bits q x (omega (arith, bits)))
