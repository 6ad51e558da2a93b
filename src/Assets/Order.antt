-- ===== src/Assets/Order.antt =====
-- The recency list of web/internal/corplink/proxy_cache.go: pointers and keys stand in it once.
use fu_corplink.Common.{
  ℕ, suc, ◌+◌, ◌<◌, ◌≤◌, ◌≡◌, refl, List, [], ◌∷◌, Option, none, some, Text, length, arith, ◌==◌,
  if◌then◌else◌, text_eq, text_eq_iff, text_eq_refl, Bool-cases, inl, inr, false,
}
use fu_corplink.Assets.Cache.{Element, size, find_elem, remove_elem, back}

abbrev pub total : List Element → ℕ
total [] = 0
total (e ∷ l) = size e.resp + total l

-- the pointer that the map should hold for a key
unfoldable pub id_of : Text → List Element → Option ℕ
id_of k [] = none
id_of k (e ∷ l) = if text_eq e.key k then some e.id else id_of k l

-- every pointer below `n`, no pointer twice and no key twice
abbrev pub Distinct : ℕ → List Element → Type 0
Distinct n [] = Unit {0}
Distinct n (e ∷ l) = (e.id < n) × (find_elem e.id l ≡ none) × (id_of e.key l ≡ none) × Distinct n l

pub find_elem-remove_none :
    (i j : ℕ) (l : List Element) → find_elem j l ≡ none → find_elem j (remove_elem i l) ≡ none
unfolding find_elem remove_elem
find_elem-remove_none i j [] h = refl
find_elem-remove_none i j (e ∷ l) h = ground (arith, find_elem-remove_none i j l)

pub id_of-remove_none :
    (i : ℕ) (k : Text) (l : List Element) → id_of k l ≡ none → id_of k (remove_elem i l) ≡ none
unfolding id_of remove_elem
id_of-remove_none i k [] h = refl
id_of-remove_none i k (e ∷ l) h = ground (arith, id_of-remove_none i k l)

pub remove_elem-Distinct :
    (i n : ℕ) (l : List Element) → Distinct n l → Distinct n (remove_elem i l)
unfolding remove_elem
remove_elem-Distinct i n [] d = tt
remove_elem-Distinct i n (e ∷ l) d = elim (Bool-cases (e.id == i)) [
  | inl p ↦ rw p (d.3)
  | inr p ↦ rw p (
    d.0,
    find_elem-remove_none i e.id l d.1,
    id_of-remove_none i e.key l d.2,
    remove_elem-Distinct i n l d.3,
  )
]

pub id_of_fresh : (n : ℕ) (k : Text) (l : List Element) → Distinct n l → find_elem n l ≡ none
unfolding find_elem
id_of_fresh n k [] d = refl
id_of_fresh n k (e ∷ l) d = ground (arith, id_of_fresh n k l d.3)

pub Distinct-mono : (n m : ℕ) (l : List Element) → n ≤ m → Distinct n l → Distinct m l
Distinct-mono n m [] h d = tt
Distinct-mono n m (e ∷ l) h d = (omega arith, d.1, d.2, Distinct-mono n m l h d.3)

-- the pointer of a key leads to an element with that key
pub find_elem_of_id_of :
    (n i : ℕ) (k : Text) (l : List Element)
    → Distinct n l
    → id_of k l ≡ some i
    → (e : Element) × (find_elem i l ≡ some e) × (e.key ≡ k) × (e.id ≡ i)
unfolding find_elem id_of
find_elem_of_id_of n i k [] d h = cc
find_elem_of_id_of n i k (e ∷ l) d h = elim (Bool-cases (text_eq e.key k)) [
  | inl p ↦ (e, ground arith, (text_eq_iff e.key k).0 p, ground arith)
  | inr p ↦
      let (x, found, key_eq, id_eq) = find_elem_of_id_of n i k l d.3 (ground arith) in
      (x, ground arith, key_eq, id_eq)
]

pub find_elem-id : (i : ℕ) (l : List Element) {e : Element} → find_elem i l ≡ some e → e.id ≡ i
unfolding find_elem
find_elem-id i [] h = cc
find_elem-id i (x ∷ l) {e} h = ground (arith, find_elem-id i l {e = e})

pub id_of_found :
    (n i : ℕ) (l : List Element) (e : Element)
    → Distinct n l
    → find_elem i l ≡ some e
    → id_of e.key l ≡ some i
unfolding find_elem id_of
id_of_found n i [] e d h = cc
id_of_found n i (x ∷ l) e d h = elim (Bool-cases (x.id == i)) [
  | inl p ↦ ground (arith, text_eq_refl e.key)
  | inr p ↦ ground (arith, id_of_found n i l e d.3, text_eq_iff x.key e.key)
]

-- taking an element off the list hides its key and no other
pub id_of-remove_elem :
    (n i : ℕ) (k : Text) (l : List Element) (e : Element)
    → Distinct n l
    → find_elem i l ≡ some e
    → id_of k (remove_elem i l) ≡ (if text_eq e.key k then none else id_of k l)
unfolding find_elem id_of remove_elem
id_of-remove_elem n i k [] e d h = cc
id_of-remove_elem n i k (x ∷ l) e d h = elim (Bool-cases (x.id == i)) [
  | inl p ↦ ground (arith, text_eq_iff e.key k, d.2)
  | inr p ↦ ground (
    arith,
    id_of-remove_elem n i k l e d.3,
    id_of_found n i l e d.3,
    text_eq_iff x.key k,
    text_eq_iff e.key k,
  )
]

pub total-remove_elem :
    (i : ℕ) (l : List Element) (e : Element)
    → find_elem i l ≡ some e
    → total l ≡ total (remove_elem i l) + size e.resp
unfolding find_elem remove_elem
total-remove_elem i [] e h = cc
total-remove_elem i (x ∷ l) e h = ground (arith, total-remove_elem i l e)

pub length-remove_elem :
    (i : ℕ) (l : List Element) (e : Element)
    → find_elem i l ≡ some e
    → length l ≡ suc (length (remove_elem i l))
unfolding find_elem remove_elem
length-remove_elem i [] e h = cc
length-remove_elem i (x ∷ l) e h = ground (arith, length-remove_elem i l e)

pub find_elem-back-ne :
    (i : ℕ) (l : List Element) (e : Element)
    → find_elem i l ≡ none
    → back l ≡ some e
    → (e.id == i) ≡ false
unfolding find_elem back
find_elem-back-ne i [] e h b = cc
find_elem-back-ne i (x ∷ []) e h b = ground arith
find_elem-back-ne i (x ∷ y ∷ l) e h b = find_elem-back-ne i (y ∷ l) e (ground arith) b

pub find_elem-back :
    (n : ℕ) (l : List Element) (e : Element)
    → Distinct n l
    → back l ≡ some e
    → find_elem e.id l ≡ some e
unfolding back
find_elem-back n [] e d b = cc
find_elem-back n (x ∷ []) e d b = unfold find_elem in ground arith
find_elem-back n (x ∷ y ∷ l) e d b = ground (
  arith,
  find_elem-back n (y ∷ l) e d.3 b,
  find_elem-back-ne x.id (y ∷ l) e d.1 b,
  find_elem_cons x (y ∷ l) e.id,
)
  where
    find_elem_cons :
        (x : Element) (l : List Element) (i : ℕ)
        → find_elem i (x ∷ l) ≡ (if x.id == i then some x else find_elem i l)
    find_elem_cons x l i = unfold find_elem in refl

pub below_of_found :
    (n i : ℕ) (l : List Element) (e : Element) → Distinct n l → find_elem i l ≡ some e → e.id < n
unfolding find_elem
below_of_found n i [] e d h = cc
below_of_found n i (x ∷ l) e d h = ground (arith, below_of_found n i l e d.3)

pub find_elem-removed :
    (n i : ℕ) (l : List Element) → Distinct n l → find_elem i (remove_elem i l) ≡ none
unfolding find_elem remove_elem
find_elem-removed n i [] d = refl
find_elem-removed n i (x ∷ l) d = ground (arith, find_elem-removed n i l d.3, d.1)

pub back-ne-none : (x : Element) (l : List Element) → back (x ∷ l) ≡ none → ⊥
unfolding back
back-ne-none x [] b = cc
back-ne-none x (y ∷ l) b = back-ne-none y l b
