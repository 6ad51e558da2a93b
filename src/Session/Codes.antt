-- ===== src/Session/Codes.antt =====
-- The one-time passwords of web/internal/corplink/totp.go, and the padding of
-- web/internal/corplink/crypto.go.
use fu_corplink.Common.{
  ℕ, zero, suc, ◌+◌, ◌-◌, ◌%◌, ◌^◌, ◌≡◌, ◌≤◌, ◌<◌, refl, ap, sym, subst, ◌∙◌, Text, [], ◌∷◌, ◌++◌,
  length, length-append, take, take-append, arith,
}
use native.Mathlib.Nat.{mod-lt, mod_self, mod-add-mod}
use fu_corplink.Common.Decimal.{itoa, length-itoa-le}
use fu_corplink.Session.Totp.{
  hotp, modulus, last_byte, Skew, slot, totp_offset, zeros, six_digits, repeat, pkcs7_pad,
}

length-zeros : (n : ℕ) → length (zeros n) ≡ n
unfolding zeros
length-zeros zero = refl
length-zeros (suc n) = ap suc (length-zeros n)

six_modulus : modulus 6 ≡ 1000000
unfolding modulus
six_modulus = refl

below : (a m : ℕ) → m ≡ 1000000 → a % m < 1000000
below a m h = subst (λ k. a % m < k) h (mod-lt a (subst (λ k. 0 < k) (sym h) (omega arith)))

hotp-lt : (hmac : Text → Text → Text) (key : Text) (counter : ℕ) → hotp hmac key counter 6 < 1000000
unfolding hotp
hotp-lt hmac key counter = below _ (modulus 6) six_modulus

length-six_digits : (code : ℕ) → code < 1000000 → length (six_digits code) ≡ 6
unfolding six_digits
length-six_digits code h =
    length-append (zeros (6 - length (itoa code))) (itoa code)
    ∙ omega (arith, length-zeros (6 - length (itoa code)), length-itoa-le code 6 (omega arith) h)

-- Whatever the key, the clock and its skew, the one-time password is below 10^6 and is printed with
-- exactly six digits, and its window has from one second to thirty left.
pub totp_offset_bounds :
    (hmac : Text → Text → Text) (key : Text) (now : ℕ) (skew : Skew)
    → ((totp_offset hmac key now skew).0 < 10 ^ 6)
      × (length (six_digits (totp_offset hmac key now skew).0) ≡ 6)
      × (1 ≤ (totp_offset hmac key now skew).1)
      × ((totp_offset hmac key now skew).1 ≤ 30)
unfolding totp_offset
totp_offset_bounds hmac key now skew = (
  hotp-lt hmac key (slot now skew),
  length-six_digits (hotp hmac key (slot now skew) 6) (hotp-lt hmac key (slot now skew)),
  omega arith,
  omega arith,
)

length-repeat : (n b : ℕ) → length (repeat n b) ≡ n
length-repeat zero b = refl
length-repeat (suc n) b = ap suc (length-repeat n b)

last_byte-append : (s : Text) (n b : ℕ) → last_byte (s ++ repeat (suc n) b) ≡ b
last_byte-append [] zero b = refl
last_byte-append [] (suc n) b = last_byte-append [] n b
last_byte-append (c ∷ []) n b = last_byte-append [] n b
last_byte-append (c ∷ d ∷ s) n b = last_byte-append (d ∷ s) n b

-- PKCS 7: what is padded is cut off again by its last byte
abbrev pub unpad : Text → Text
unpad s = take (length s - last_byte s) s

-- the padding of a text of that length
abbrev pad_of : ℕ → ℕ → ℕ
pad_of n l = n - l % n

pad_of-fills : (n l : ℕ) → 0 < n → (l + pad_of n l) % n ≡ 0
pad_of-fills n l pos =
    sym (mod-add-mod l n (pad_of n l))
    ∙ ap (λ k. k % n) (omega (arith, mod-lt l {m = n} pos))
    ∙ mod_self n

-- what is padded by some bytes that say how many they are
unpad-repeat : (s : Text) (p : ℕ) → unpad (s ++ repeat (suc p) (suc p)) ≡ s
unpad-repeat s p =
    ap (λ k. take k (s ++ repeat (suc p) (suc p)))
      (omega (
        arith,
        length-append s (repeat (suc p) (suc p)),
        length-repeat (suc p) (suc p),
        last_byte-append s p (suc p),
      ))
    ∙ take-append s (repeat (suc p) (suc p))

unpad-pad : (s : Text) (p : ℕ) → 0 < p → p < 256 → unpad (s ++ repeat p (p % 256)) ≡ s
unpad-pad s zero pos small = absurd (omega (arith, pos))
unpad-pad s (suc p) pos small =
    subst (λ k. unpad (s ++ repeat (suc p) k) ≡ s) (omega (arith, small)) (unpad-repeat s p)

-- For blocks of one to 255 bytes, what is padded has full blocks, and the last byte says how much of
-- it is padding: cutting that off gives the data back.
pub pkcs7_pad-unpad :
    (n : ℕ) (s : Text)
    → 0 < n
    → n < 256
    → (length (pkcs7_pad n s) % n ≡ 0) × (unpad (pkcs7_pad n s) ≡ s)
unfolding pkcs7_pad
pkcs7_pad-unpad n s pos small = (
  ap (λ k. k % n)
        (length-append s (repeat (pad_of n (length s)) (pad_of n (length s) % 256))
          ∙ ap (λ k. length s + k)
              (length-repeat (pad_of n (length s)) (pad_of n (length s) % 256)))
      ∙ pad_of-fills n (length s) pos,
  unpad-pad s (pad_of n (length s)) (omega (arith, mod-lt (length s) {m = n} pos))
      (omega (arith, small)),
)
