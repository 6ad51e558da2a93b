-- ===== src/Common/Table.antt =====
-- Go's maps with string keys: association lists, a key at most once. A key is overwritten in place
-- and a new key comes last; what ranges over a map takes its order, or a choice, as an argument.
use Prim.Native.Nat.{ℕ, zero, suc, ◌+◌, ◌≤◌}
use mathlib.Core.Path.{◌≡◌, refl}
use mathlib.Core.Bool.{true}
use mathlib.Core.List.{List, [], ◌∷◌}
use mathlib.Core.Option.{Option, none, some}
use native.Mathlib.Omega.{arith}
use fu_corplink.Common.Tests.{if◌then◌else◌, is_some}
use fu_corplink.Common.Lists.{length}
use fu_corplink.Common.Texts.{Text, text_eq, text_eq_iff}

module _ {ℓ} {V : Type ℓ} where
  -- `v, ok := m[k]`
  unfoldable pub lookup : Text → List (Text × V) → Option V
  lookup k [] = none
  lookup k ((j, v) ∷ m) = if text_eq j k then some v else lookup k m

  -- `m[k] = v`
  unfoldable pub insert : Text → V → List (Text × V) → List (Text × V)
  insert k v [] = (k, v) ∷ []
  insert k v ((j, w) ∷ m) = if text_eq j k then (k, v) ∷ m else (j, w) ∷ insert k v m

  -- `delete(m, k)`
  unfoldable pub remove : Text → List (Text × V) → List (Text × V)
  remove k [] = []
  remove k ((j, w) ∷ m) = let rest = remove k m in if text_eq j k then rest else (j, w) ∷ rest

  -- the key that stands at a position of an iteration
  unfoldable pub key_at : ℕ → List (Text × V) → Option Text
  key_at n [] = none
  key_at zero ((j, w) ∷ m) = some j
  key_at (suc n) ((j, w) ∷ m) = key_at n m

  pub lookup-insert :
      (k j : Text) (v : V) (m : List (Text × V))
      → lookup j (insert k v m) ≡ (if text_eq k j then some v else lookup j m)
  unfolding lookup insert
  lookup-insert k j v [] = refl
  lookup-insert k j v ((i, w) ∷ m) =
      ground (arith, text_eq_iff k j, text_eq_iff i k, text_eq_iff i j, lookup-insert k j v m)

  pub lookup-remove :
      (k j : Text) (m : List (Text × V))
      → lookup j (remove k m) ≡ (if text_eq k j then none else lookup j m)
  unfolding lookup remove
  lookup-remove k j [] = ground arith
  lookup-remove k j ((i, w) ∷ m) =
      ground (arith, text_eq_iff k j, text_eq_iff i k, text_eq_iff i j, lookup-remove k j m)

  pub length-insert-le :
      (k : Text) (v : V) (m : List (Text × V)) → length (insert k v m) ≤ length m + 1
  unfolding insert
  length-insert-le k v [] = omega arith
  length-insert-le k v ((i, w) ∷ m) = ground (arith, length-insert-le k v m)

  pub length-insert_hit :
      (k : Text) (v : V) (m : List (Text × V))
      → is_some (lookup k m) ≡ true
      → length (insert k v m) ≡ length m
  unfolding insert lookup
  length-insert_hit k v [] h = cc
  length-insert_hit k v ((i, w) ∷ m) h = ground (arith, length-insert_hit k v m)

  pub length-remove-le : (k : Text) (m : List (Text × V)) → length (remove k m) ≤ length m
  unfolding remove
  length-remove-le k [] = omega arith
  length-remove-le k ((i, w) ∷ m) = ground (arith, length-remove-le k m)

  pub length-remove_hit :
      (k : Text) (m : List (Text × V))
      → is_some (lookup k m) ≡ true
      → length (remove k m) + 1 ≤ length m
  unfolding remove lookup
  length-remove_hit k [] h = absurd (ground arith)
  length-remove_hit k ((i, w) ∷ m) h = ground (arith, length-remove_hit k m, length-remove-le k m)

  pub lookup-key_at :
      (n : ℕ) (m : List (Text × V)) (k : Text) → key_at n m ≡ some k → is_some (lookup k m) ≡ true
  unfolding lookup key_at
  lookup-key_at n [] k h = absurd (ground arith)
  lookup-key_at zero ((j, w) ∷ m) k h = ground (arith, text_eq_iff j k)
  lookup-key_at (suc n) ((j, w) ∷ m) k h = ground (arith, lookup-key_at n m k)
