-- ===== src/Forward/Pieces.antt =====
-- Cutting a body and putting the pieces together again, for the loops of
-- web/internal/corplink/proxy_http.go.
use Prim.Native.Nat.{min}
use fu_corplink.Common.{
  ℕ, zero, suc, ◌+◌, ◌-◌, ◌≡◌, refl, ap, sym, ◌∙◌, List, [], ◌∷◌, ◌++◌, arith, take, drop, length,
  length-drop, drop_all,
}

module _ {ℓ} {A : Type ℓ} where
  pub take_add : (a b : ℕ) (xs : List A) → take (a + b) xs ≡ take a xs ++ take b (drop a xs)
  take_add zero b xs = ap (λ n. take n xs) (omega arith)
  take_add (suc a) b [] = ap (λ n. take n []) e ∙ take_nil b
    where
      e : suc a + b ≡ suc (a + b)
      e = omega arith

      take_nil : (b : ℕ) → [] ≡ take {A = A} b []
      take_nil zero = refl
      take_nil (suc b) = refl
  take_add (suc a) b (x ∷ xs) = ap (λ n. take n (x ∷ xs)) e ∙ ap (◌∷◌ x) (take_add a b xs)
    where
      e : suc a + b ≡ suc (a + b)
      e = omega arith

  pub drop_add : (a b : ℕ) (xs : List A) → drop (a + b) xs ≡ drop b (drop a xs)
  drop_add zero b xs = ap (λ n. drop n xs) (omega arith)
  drop_add (suc a) b [] = drop_all (suc a + b) [] (omega arith) ∙ sym (drop_all b [] (omega arith))
  drop_add (suc a) b (x ∷ xs) = ap (λ n. drop n (x ∷ xs)) e ∙ drop_add a b xs
    where
      e : suc a + b ≡ suc (a + b)
      e = omega arith

  pub drop-take : (s n : ℕ) (xs : List A) → drop s (take n xs) ≡ take (n - s) (drop s xs)
  drop-take zero n xs = ap (λ m. take m xs) (omega arith)
  drop-take (suc s) zero xs = ap (λ m. take m (drop (suc s) xs)) e
    where
      e : zero ≡ zero - suc s
      e = omega arith
  drop-take (suc s) (suc n) [] = nil (suc n - suc s)
    where
      nil : (m : ℕ) → [] ≡ take {A = A} m []
      nil zero = refl
      nil (suc m) = refl
  drop-take (suc s) (suc n) (x ∷ xs) = drop-take s n xs ∙ ap (λ m. take m (drop s xs)) e
    where
      e : n - s ≡ suc n - suc s
      e = omega arith

  -- What stands behind `r` bytes of a body, read from `skip` bytes before them.
  pub splice_piece :
      (body bytes : List A) (p skip r : ℕ)
      → bytes ≡ take (length bytes) (drop p body)
      → p + skip ≡ r
      → take r body ++ drop skip bytes ≡ take (r + length (drop skip bytes)) body
  splice_piece body bytes p skip r h e =
      sym (take_add r (length (drop skip bytes)) body ∙ ap (λ x. take r body ++ x) (sym piece))
    where
      piece : drop skip bytes ≡ take (length (drop skip bytes)) (drop r body)
      piece =
          ap (drop skip) h
          ∙ drop-take skip (length bytes) (drop p body)
          ∙ ap (take (length bytes - skip)) (sym (drop_add p skip body))
          ∙ rw (e, length-drop skip bytes)

  pub take-take : (a b : ℕ) (xs : List A) → take a (take b xs) ≡ take (min a b) xs
  take-take zero b xs = ap (λ n. take n xs) e
    where
      e : zero ≡ min zero b
      e = omega arith
  take-take (suc a) zero xs = ap (λ n. take n xs) e
    where
      e : zero ≡ min (suc a) zero
      e = omega arith
  take-take (suc a) (suc b) [] = ap (λ n. take n []) e
    where
      e : suc (min a b) ≡ min (suc a) (suc b)
      e = omega arith
  take-take (suc a) (suc b) (x ∷ xs) = ap (◌∷◌ x) (take-take a b xs) ∙ ap (λ n. take n (x ∷ xs)) e
    where
      e : suc (min a b) ≡ min (suc a) (suc b)
      e = omega arith

  pub append-take : (k : ℕ) (xs ys : List A) → xs ++ take k ys ≡ take (length xs + k) (xs ++ ys)
  append-take k [] ys = ap (λ n. take n ys) (omega arith)
  append-take k (x ∷ xs) ys = ap (◌∷◌ x) (append-take k xs ys) ∙ ap (λ n. take n (x ∷ xs ++ ys)) e
    where
      e : suc (length xs + k) ≡ suc (length xs) + k
      e = omega arith

  -- A cut piece behind the first `r` bytes leaves a prefix too.
  pub cut_piece :
      (body chunk : List A) (r n k : ℕ)
      → take r body ++ chunk ≡ take n body
      → (m : ℕ) × (take r body ++ take k chunk ≡ take m body)
  cut_piece body chunk r n k e = (
    min (length (take r body) + k) n,
    append-take k (take r body) chunk
        ∙ ap (take (length (take r body) + k)) e
        ∙ take-take (length (take r body) + k) n body,
  )
