-- ===== src/Assets/Recency.antt =====
-- What web/internal/corplink/proxy_cache.go's get and put promise: an abstract cache that is a list
-- of entries, most recently used first, cut where the byte budget ends.
use fu_corplink.Common.{
  ℕ, zero, suc, ◌+◌, ◌-◌, ◌<◌, ◌≤◌, ◌≡◌, refl, ap, subst, sym, ◌∙◌, List, [], ◌∷◌, none, some, Text,
  length, arith, ◌==◌, leb, ltb, ltb→lt, ltb→le, if◌then◌else◌, text_eq_iff, text_eq_refl,
  Bool-cases, Option-cases, inl, inr, map,
}
use fu_corplink.Common.Table.{lookup, remove}
use fu_corplink.Assets.Cache.{
  AssetCache, CachedResponse, Element, size, find_elem, remove_elem, back, element_of, get, forget,
  forget_key, evict, push, put,
}
use fu_corplink.Assets.Order.{
  total, id_of, Distinct, find_elem-back, find_elem-back-ne, length-remove_elem, back-ne-none,
}
use fu_corplink.Assets.Invariant.{
  Inv, element_of_found, element_of_missing, forget-Inv, forget_key-Inv, forget_key_frame,
}

abbrev pub Entries : Type 0
Entries = List (Text × CachedResponse)

-- the list without its pointers
abbrev pub view : AssetCache → Entries
view c = map (λ e. (e.key, e.resp)) c.order

-- the most recent entries, up to the first that no longer fits
pub fit : ℕ → Entries → Entries
fit room [] = []
fit room ((k, r) ∷ l) =
    let rest = fit (room - size r) l in if leb (size r) room then (k, r) ∷ rest else []

abbrev entries : List Element → Entries
entries = map (λ e. (e.key, e.resp))

lookup_absent : (k : Text) (l : List Element) → id_of k l ≡ none → lookup k (entries l) ≡ none
unfolding id_of lookup
lookup_absent k [] h = refl
lookup_absent k (e ∷ l) h = ground (arith, lookup_absent k l)

remove_absent : (k : Text) (l : List Element) → id_of k l ≡ none → remove k (entries l) ≡ entries l
unfolding id_of remove
remove_absent k [] h = refl
remove_absent k (e ∷ l) h = ground (arith, remove_absent k l)

lookup_found :
    (n i : ℕ) (l : List Element) (e : Element)
    → Distinct n l
    → find_elem i l ≡ some e
    → lookup e.key (entries l) ≡ some e.resp
unfolding lookup find_elem
lookup_found n i [] e d h = cc
lookup_found n i (x ∷ l) e d h = elim (Bool-cases (x.id == i)) [
  | inl p ↦ ground (arith, text_eq_refl e.key)
  | inr p ↦
      ground (arith, lookup_found n i l e d.3, lookup_absent x.key l d.2, text_eq_iff x.key e.key)
]

entries-remove_elem :
    (n i : ℕ) (l : List Element) (e : Element)
    → Distinct n l
    → find_elem i l ≡ some e
    → entries (remove_elem i l) ≡ remove e.key (entries l)
unfolding find_elem remove_elem remove
entries-remove_elem n i [] e d h = cc
entries-remove_elem n i (x ∷ l) e d h = elim (Bool-cases (x.id == i)) [
  | inl p ↦ ground (arith, text_eq_refl e.key, remove_absent x.key l d.2)
  | inr p ↦ ground (
    arith,
    entries-remove_elem n i l e d.3,
    lookup_absent x.key l d.2,
    lookup_found n i l e d.3,
    text_eq_iff x.key e.key,
  )
]

fit_all : (room : ℕ) (l : List Element) → total l ≤ room → fit room (entries l) ≡ entries l
unfolding fit
fit_all room [] h = refl
fit_all room (e ∷ l) h = ground (arith, fit_all (room - size e.resp) l)

-- Where the list does not fit, its last element makes no difference.
fit-remove_back :
    (n room : ℕ) (l : List Element) (e : Element)
    → Distinct n l
    → back l ≡ some e
    → room < total l
    → fit room (entries (remove_elem e.id l)) ≡ fit room (entries l)
unfolding fit back remove_elem
fit-remove_back n room [] e d b h = cc
fit-remove_back n room (x ∷ []) e d b h = ground arith
fit-remove_back n room (x ∷ y ∷ l) e d b h = ground (
  arith,
  find_elem-back-ne x.id (y ∷ l) e d.1 b,
  fit-remove_back n (room - size x.resp) (y ∷ l) e d.3 b,
)

forget_key-view : (c : AssetCache) (k : Text) → Inv c → view (forget_key c k) ≡ remove k (view c)
unfolding forget_key forget
forget_key-view c k v = elim (Option-cases (element_of c k)) [
  | inl e ↦ rw (e, forget_key) (sym (remove_absent k c.order (element_of_missing c k v e)))
  | inr (x, e) ↦
      let (found, key_eq) = element_of_found c k x v e in
      rw (e, forget_key, ← key_eq) (entries-remove_elem c.next_id x.id c.order x v.distinct found)
]

evict-view :
    (fuel n : ℕ) (c : AssetCache)
    → Inv c
    → n ≤ c.budget
    → length c.order ≤ fuel
    → view (evict fuel n c) ≡ fit (c.budget - n) (view c)
unfolding evict forget
evict-view zero n c v h f = sym (fit_all (c.budget - n) c.order (no_elements c.order refl))
  where
    no_elements : (l : List Element) → c.order ≡ l → total c.order ≤ c.budget - n
    no_elements [] e = omega (arith, ap total e)
    no_elements (x ∷ l) e = absurd (omega (arith, ap length e, f))
evict-view (suc fuel) n c v h f = elim (Bool-cases (ltb c.budget (c.used + n))) [
  | inr fits ↦
      rw (fits, evict)
        (sym (fit_all (c.budget - n) c.order (omega (arith, v.counted, ltb→le _ _ fits))))
  | inl over ↦ elim (Option-cases (back c.order)) [
    | inl e ↦ rw (over, e, evict) (sym (fit_all (c.budget - n) c.order (empty_fits c.order refl e)))
    | inr (x, e) ↦
        let found = find_elem-back c.next_id c.order x v.distinct e in
        rw (over, e, evict)
          (evict-view fuel n (forget c x) (forget-Inv c x v found) h
              (omega (arith, length-remove_elem x.id c.order x found))
            ∙ fit-remove_back c.next_id (c.budget - n) c.order x v.distinct e
                (omega (arith, v.counted, ltb→lt _ _ over)))
  ]
]
  where
    empty_fits : (l : List Element) → c.order ≡ l → back l ≡ none → total c.order ≤ c.budget - n
    empty_fits [] e b = omega (arith, ap total e)
    empty_fits (x ∷ l) e b = absurd (back-ne-none x l b)

-- On a cache that satisfies the invariant, storing a response that fits the budget puts it in front
-- of the most recently used others, as many as fit beside it; one that exceeds the budget changes
-- nothing.
pub put-view :
    (c : AssetCache) (k : Text) (r : CachedResponse)
    → Inv c
    → view (put c k r) ≡ (
        if ltb c.budget (size r)
        then view c
        else (k, r) ∷ fit (c.budget - size r) (remove k (view c)))
unfolding put push
put-view c k r v = elim (Bool-cases (ltb c.budget (size r))) [
  | inl big ↦ rw big
  | inr fits ↦
      let (budget_eq, _, _) = forget_key_frame c k in
      rw fits (
        ap (◌∷◌ (k, r)) (
          evict-view (length (forget_key c k).order) (size r) (forget_key c k)
            (forget_key-Inv c k v) (omega (arith, budget_eq, ltb→le _ _ fits)) (omega arith)
          ∙ rw (budget_eq, forget_key-view c k v)))
]

-- On a cache that satisfies the invariant, a read returns what the entries hold under the key and
-- moves a hit to the front; a miss changes nothing.
pub get-view :
    (c : AssetCache) (k : Text)
    → Inv c
    → ((get c k).1 ≡ lookup k (view c))
      × (view (get c k).0
          ≡ (elim (lookup k (view c)) [ none ↦ view c | some r ↦ (k, r) ∷ remove k (view c) ]))
unfolding get
get-view c k v = elim (Option-cases (element_of c k)) [
  | inl e ↦
      let miss = lookup_absent k c.order (element_of_missing c k v e) in
      rw (e, get, miss) (refl, refl)
  | inr (x, e) ↦
      let (found, key_eq) = element_of_found c k x v e in
      let hit =
        subst (λ j. lookup j (view c) ≡ some x.resp) key_eq
          (lookup_found c.next_id x.id c.order x v.distinct found) in
      rw (e, get, hit) (refl, cc (entries-remove_elem c.next_id x.id c.order x v.distinct found))
]
