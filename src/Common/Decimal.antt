-- ===== src/Common/Decimal.antt =====
-- strconv.Itoa and strconv.ParseInt in base 10, on the numbers that the sources print and read.
use Prim.Native.Nat.{ℕ, zero, suc, ◌+◌, ◌-◌, ◌*◌, ◌/◌, ◌%◌, ◌^◌, ◌≤◌, ◌<◌}
use mathlib.Core.Path.{◌≡◌, refl, ap, ◌∙◌}
use mathlib.Core.Logic.{inl, inr}
use mathlib.Core.Bool.{Bool, true, false, ◌&&◌}
use mathlib.Core.List.{[], ◌∷◌, ◌++◌}
use mathlib.Core.Option.{Option, none, some}
use native.Mathlib.Omega.{arith}
use fu_corplink.Common.Tests.{leb, ltb, ltb→le, if◌then◌else◌, Bool-cases}
use fu_corplink.Common.Lists.{length, length-append}
use fu_corplink.Common.Texts.{Text}

itoa_fuel : ℕ → ℕ → Text
itoa_fuel zero n = (b'0' + n) ∷ []
itoa_fuel (suc f) n =
    let high = itoa_fuel f (n / 10) in
    if ltb n 10 then (b'0' + n) ∷ [] else high ++ ((b'0' + n % 10) ∷ [])

-- strconv.Itoa: a round takes a digit off, so as many rounds as the number itself are enough
unfoldable pub itoa : ℕ → Text
unfolding itoa_fuel
itoa n = itoa_fuel n n

abbrev pub is_decimal : ℕ → Bool
is_decimal c = leb b'0' c && leb c b'9'

-- the value of a run of digits, behind the value of those to its left
unfoldable pub digits_value : ℕ → Text → Option ℕ
digits_value acc [] = some acc
digits_value acc (c ∷ s) =
    let rest = digits_value (acc * 10 + (c - b'0')) s in if is_decimal c then rest else none

-- strconv.ParseInt(s, 10, 64) without a sign
unfoldable pub parse_digits : Text → Option ℕ
parse_digits [] = none
parse_digits (c ∷ s) = elim (digits_value 0 (c ∷ s)) [
  | none ↦ none
  | some n ↦ if ltb n (2 ^ 63) then some n else none
]

digits_value-append :
    (acc d : ℕ) (s : Text) {n : ℕ}
    → digits_value acc s ≡ some n
    → d < 10
    → digits_value acc (s ++ ((b'0' + d) ∷ [])) ≡ some (n * 10 + d)
unfolding digits_value
digits_value-append acc d [] {n} h lt = ground arith
digits_value-append acc d (c ∷ s) {n} h lt =
    ground (arith, digits_value-append (acc * 10 + (c - b'0')) d s {n = n})

digits_value-itoa_fuel : (f n : ℕ) → n ≤ f → digits_value 0 (itoa_fuel f n) ≡ some n
unfolding itoa_fuel digits_value
digits_value-itoa_fuel zero n h = ground arith
digits_value-itoa_fuel (suc f) n h = elim (Bool-cases (ltb n 10)) [
  | inl small ↦ rw (small, itoa_fuel) (ground arith)
  | inr big ↦
      rw (big, itoa_fuel)
        (digits_value-append 0 (n % 10) (itoa_fuel f (n / 10))
            (digits_value-itoa_fuel f (n / 10) (ground arith)) (omega arith)
          ∙ ap some (omega arith))
]

-- What is printed reads back.
pub digits_value-itoa : (n : ℕ) → digits_value 0 (itoa n) ≡ some n
unfolding itoa
digits_value-itoa n = digits_value-itoa_fuel n n (omega arith)

-- A number in front of a byte that is no digit is read off alone.
digits_value_unique :
    (acc d : ℕ) (s t u v : Text) {n m : ℕ}
    → digits_value acc s ≡ some n
    → digits_value acc t ≡ some m
    → is_decimal d ≡ false
    → s ++ d ∷ u ≡ t ++ d ∷ v
    → n ≡ m
unfolding digits_value
digits_value_unique acc d [] [] u v p q e h = cc
digits_value_unique acc d [] (c ∷ t) u v {n} {m} p q e h = absurd (ground arith)
digits_value_unique acc d (c ∷ s) [] u v {n} {m} p q e h = absurd (ground arith)
digits_value_unique acc d (c ∷ s) (b ∷ t) u v {n} {m} p q e h =
    ground (arith, digits_value_unique (acc * 10 + (c - b'0')) d s t u v {n = n} {m = m})

pub itoa_unique :
    (n m d : ℕ) (u v : Text) → is_decimal d ≡ false → itoa n ++ d ∷ u ≡ itoa m ++ d ∷ v → n ≡ m
itoa_unique n m d u v e h =
    digits_value_unique 0 d (itoa n) (itoa m) u v (digits_value-itoa n) (digits_value-itoa m) e h

-- A printed number starts with a digit.
itoa_fuel-head :
    (f n : ℕ) → n ≤ f → (c : ℕ) × (s : Text) × (itoa_fuel f n ≡ c ∷ s) × (is_decimal c ≡ true)
unfolding itoa_fuel
itoa_fuel-head zero n h = (b'0' + n, [], refl, ground (arith, h))
itoa_fuel-head (suc f) n h = elim (Bool-cases (ltb n 10)) [
  | inl small ↦ (b'0' + n, [], rw (small, itoa_fuel) refl, ground (arith, small))
  | inr big ↦
      let (c, s, e, d) = itoa_fuel-head f (n / 10) (ground (arith, h, big)) in
      (c, s ++ ((b'0' + n % 10) ∷ []), rw (big, itoa_fuel, e) refl, d)
]

pub itoa-head : (n : ℕ) → (c : ℕ) × (s : Text) × (itoa n ≡ c ∷ s) × (is_decimal c ≡ true)
unfolding itoa
itoa-head n = itoa_fuel-head n n (omega arith)

digit_off : (n k : ℕ) → 10 ≤ n → n < 10 ^ suc k → (1 ≤ k) × (n / 10 < 10 ^ k)
digit_off n zero h q = absurd (omega (arith, h, q))
digit_off n (suc k) h q = (omega arith, omega (arith, q))

length-itoa_fuel-le : (f n k : ℕ) → n ≤ f → 1 ≤ k → n < 10 ^ k → length (itoa_fuel f n) ≤ k
unfolding itoa_fuel
length-itoa_fuel-le zero n k h p q = omega (arith, p)
length-itoa_fuel-le (suc f) n zero h p q = absurd (omega (arith, p))
length-itoa_fuel-le (suc f) n (suc k) h p q = elim (Bool-cases (ltb n 10)) [
  | inl small ↦ rw (small, itoa_fuel) (omega arith)
  | inr big ↦
      let lt = digit_off n k (ltb→le n 10 big) q in
      rw (big, itoa_fuel)
        (omega (
          arith,
          length-append (itoa_fuel f (n / 10)) ((b'0' + n % 10) ∷ []),
          length-itoa_fuel-le f (n / 10) k (omega (arith, h, ltb→le n 10 big)) lt.0 lt.1,
        ))
]

-- A number below 10^k prints with at most k digits.
pub length-itoa-le : (n k : ℕ) → 1 ≤ k → n < 10 ^ k → length (itoa n) ≤ k
unfolding itoa
length-itoa-le n k p h = length-itoa_fuel-le n n k (omega arith) p h
