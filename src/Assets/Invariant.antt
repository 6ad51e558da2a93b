-- ===== src/Assets/Invariant.antt =====
-- The invariant of web/internal/corplink/proxy_cache.go's assetCache, through every method.
use fu_corplink.Common.{
  ℕ, zero, suc, ◌+◌, ◌≤◌, ◌≡◌, refl, ap, List, [], ◌∷◌, Option, none, some, Text, length, arith,
  leb, leb→le, ltb, ltb→le, text_eq_iff, text_eq_refl, Bool-cases, Option-cases, inl, inr,
}
use fu_corplink.Common.Table.{
  lookup, key_at, lookup-insert, lookup-remove, length-insert-le, length-remove-le,
  length-remove_hit, lookup-key_at,
}
use fu_corplink.Assets.Cache.{
  AssetCache, new_asset_cache, CachedResponse, PartialAsset, Element, size, find_elem, remove_elem,
  back, element_of, get, forget, forget_key, evict, push, put, drop_any, store_partial, put_partial,
  max_partials,
}
use fu_corplink.Assets.Order.{
  total, id_of, Distinct, remove_elem-Distinct, id_of_fresh, Distinct-mono, find_elem_of_id_of,
  id_of-remove_elem, id_of-remove_none, id_of_found, below_of_found, back-ne-none,
  find_elem-removed, total-remove_elem, length-remove_elem, find_elem-back,
}

-- the byte count is that of the list and within the budget, the map points into the list and misses
-- nothing of it, and the prefixes are at most `max_partials`
pub record Inv (c : AssetCache) : Type 0 where
  pub counted : c.used ≡ total c.order
  pub within : c.used ≤ c.budget
  pub synced : (k : Text) → lookup k c.items ≡ id_of k c.order
  pub distinct : Distinct c.next_id c.order
  pub few : length c.partials ≤ max_partials

-- what `element_of` finds stands in the list, under the key
pub element_of_found :
    (c : AssetCache) (k : Text) (e : Element)
    → Inv c
    → element_of c k ≡ some e
    → (find_elem e.id c.order ≡ some e) × (e.key ≡ k)
unfolding element_of
element_of_found c k e v h = elim (Option-cases (lookup k c.items)) [
  | inl miss ↦ absurd (ground arith)
  | inr (i, hit) ↦
      let (x, found, key_eq, id_eq) =
        find_elem_of_id_of c.next_id i k c.order v.distinct (sym' (v.synced k) hit) in
      ground arith
]
  where
    sym' : {a b d : Option ℕ} → a ≡ b → a ≡ d → b ≡ d
    sym' p q = cc

pub element_of_missing :
    (c : AssetCache) (k : Text) → Inv c → element_of c k ≡ none → id_of k c.order ≡ none
unfolding element_of
element_of_missing c k v h = elim (Option-cases (lookup k c.items)) [
  | inl miss ↦ ground (arith, v.synced k)
  | inr (i, hit) ↦ ground (arith, v.synced k, find_elem_of_id_of c.next_id i k c.order v.distinct)
]

pub forget-Inv :
    (c : AssetCache) (e : Element) → Inv c → find_elem e.id c.order ≡ some e → Inv (forget c e)
unfolding forget
forget-Inv c e v h = record {
  counted = omega (arith, v.counted, total-remove_elem e.id c.order e h);
  within = omega (arith, v.within);
  synced = λ k. ground (
    arith,
    v.synced k,
    lookup-remove e.key k c.items,
    id_of-remove_elem c.next_id e.id k c.order e v.distinct h,
  );
  distinct = remove_elem-Distinct e.id c.next_id c.order v.distinct;
  few = v.few;
}

pub forget_key-Inv : (c : AssetCache) (k : Text) → Inv c → Inv (forget_key c k)
unfolding forget_key
forget_key-Inv c k v = elim (Option-cases (element_of c k)) [
  | inl e ↦ rw (e, forget_key) v
  | inr (x, e) ↦ rw (e, forget_key) (forget-Inv c x v (element_of_found c k x v e).0)
]

pub forget_key_gone : (c : AssetCache) (k : Text) → Inv c → id_of k (forget_key c k).order ≡ none
unfolding forget_key forget
forget_key_gone c k v = elim (Option-cases (element_of c k)) [
  | inl e ↦ rw (e, forget_key) (element_of_missing c k v e)
  | inr (x, e) ↦
      let (found, key_eq) = element_of_found c k x v e in
      rw (e, forget_key)
        (ground (
          arith,
          id_of-remove_elem c.next_id x.id k c.order x v.distinct found,
          text_eq_iff x.key k,
        ))
]

-- The loop keeps the invariant and everything but the byte count, the list and the map, and a key
-- that is not there stays away.
pub evict-Inv : (fuel n : ℕ) (c : AssetCache) → Inv c → Inv (evict fuel n c)
unfolding evict
evict-Inv zero n c v = v
evict-Inv (suc fuel) n c v = elim (Bool-cases (ltb c.budget (c.used + n))) [
  | inr fits ↦ rw (fits, evict) v
  | inl over ↦ elim (Option-cases (back c.order)) [
    | inl e ↦ rw (over, e, evict) v
    | inr (x, e) ↦
        rw (over, e, evict)
          (evict-Inv fuel n (forget c x)
            (forget-Inv c x v (find_elem-back c.next_id c.order x v.distinct e)))
  ]
]

-- The loop changes no other field of the cache.
pub evict_frame :
    (fuel n : ℕ) (c : AssetCache)
    → ((evict fuel n c).budget ≡ c.budget)
      × ((evict fuel n c).partials ≡ c.partials)
      × ((evict fuel n c).next_id ≡ c.next_id)
unfolding evict forget
evict_frame zero n c = (refl, refl, refl)
evict_frame (suc fuel) n c = elim (Bool-cases (ltb c.budget (c.used + n))) [
  | inr fits ↦ rw (fits, evict) (refl, refl, refl)
  | inl over ↦ elim (Option-cases (back c.order)) [
    | inl e ↦ rw (over, e, evict) (refl, refl, refl)
    | inr (x, e) ↦ rw (over, e, evict) (evict_frame fuel n (forget c x))
  ]
]

pub forget_key_frame :
    (c : AssetCache) (k : Text)
    → ((forget_key c k).budget ≡ c.budget)
      × ((forget_key c k).partials ≡ c.partials)
      × ((forget_key c k).next_id ≡ c.next_id)
unfolding forget_key forget
forget_key_frame c k = ground arith

evict_absent :
    (fuel n : ℕ) (c : AssetCache) (k : Text)
    → Inv c
    → id_of k c.order ≡ none
    → id_of k (evict fuel n c).order ≡ none
unfolding evict forget
evict_absent zero n c k v h = h
evict_absent (suc fuel) n c k v h = elim (Bool-cases (ltb c.budget (c.used + n))) [
  | inr fits ↦ rw (fits, evict) h
  | inl over ↦ elim (Option-cases (back c.order)) [
    | inl e ↦ rw (over, e, evict) h
    | inr (x, e) ↦
        let found = find_elem-back c.next_id c.order x v.distinct e in
        rw (over, e, evict)
          (evict_absent fuel n (forget c x) k (forget-Inv c x v found)
            (id_of-remove_none x.id k c.order h))
  ]
]

-- With a round for each element the loop makes the room that was asked for.
evict_room :
    (fuel n : ℕ) (c : AssetCache)
    → Inv c
    → n ≤ c.budget
    → length c.order ≤ fuel
    → (evict fuel n c).used + n ≤ c.budget
unfolding evict forget
evict_room zero n c v h f = rw_empty c.order refl
  where
    rw_empty : (l : List Element) → c.order ≡ l → c.used + n ≤ c.budget
    rw_empty [] e = omega (arith, v.counted, ap total e, h)
    rw_empty (x ∷ l) e = absurd (omega (arith, ap length e, f))
evict_room (suc fuel) n c v h f = elim (Bool-cases (ltb c.budget (c.used + n))) [
  | inr fits ↦ rw (fits, evict) (ltb→le _ _ fits)
  | inl over ↦ elim (Option-cases (back c.order)) [
    | inl e ↦ rw (over, e, evict) (empty_room c.order refl e)
    | inr (x, e) ↦
        let found = find_elem-back c.next_id c.order x v.distinct e in
        rw (over, e, evict)
          (evict_room fuel n (forget c x) (forget-Inv c x v found) h
            (omega (arith, length-remove_elem x.id c.order x found)))
  ]
]
  where
    empty_room : (l : List Element) → c.order ≡ l → back l ≡ none → c.used + n ≤ c.budget
    empty_room [] e b = omega (arith, v.counted, ap total e, h)
    empty_room (x ∷ l) e b = absurd (back-ne-none x l b)

push-Inv :
    (c : AssetCache) (k : Text) (r : CachedResponse)
    → Inv c
    → id_of k c.order ≡ none
    → c.used + size r ≤ c.budget
    → Inv (push c k r)
unfolding push
push-Inv c k r v absent h = record {
  counted = omega (arith, v.counted);
  within = h;
  synced = λ j. unfold id_of in ground (arith, v.synced j, lookup-insert k j c.next_id c.items);
  distinct = (
    omega arith,
    id_of_fresh c.next_id k c.order v.distinct,
    absent,
    Distinct-mono c.next_id (c.next_id + 1) c.order (omega arith) v.distinct,
  );
  few = omega (arith, v.few, length-remove-le k c.partials);
}

-- Storing a response keeps the invariant: the byte count stays exact and within the budget.
pub put-Inv : (c : AssetCache) (k : Text) (r : CachedResponse) → Inv c → Inv (put c k r)
unfolding put
put-Inv c k r v = elim (Bool-cases (ltb c.budget (size r))) [
  | inl big ↦ rw big v
  | inr fits ↦ rw fits (
      push-Inv c'' k r (evict-Inv rounds (size r) c' v')
        (evict_absent rounds (size r) c' k v' (forget_key_gone c k v))
        (rw (evict_frame rounds (size r) c').0 (
          evict_room rounds (size r) c' v' (rw (forget_key_frame c k).0 (ltb→le _ _ fits))
            (omega arith))))
]
  where
    c' : AssetCache
    c' = forget_key c k

    rounds : ℕ
    rounds = length c'.order

    c'' : AssetCache
    c'' = evict rounds (size r) c'

    v' : Inv c'
    v' = forget_key-Inv c k v

-- A read keeps the invariant.
pub get-Inv : (c : AssetCache) (k : Text) → Inv c → Inv (get c k).0
unfolding get
get-Inv c k v = elim (Option-cases (element_of c k)) [
  | inl e ↦ rw (e, get) v
  | inr (x, e) ↦
      let found = (element_of_found c k x v e).0 in
      rw (e, get)
        (record {
          counted = omega (arith, v.counted, total-remove_elem x.id c.order x found);
          within = v.within;
          synced = λ j.
              unfold id_of in
              ground (
                arith,
                v.synced j,
                id_of-remove_elem c.next_id x.id j c.order x v.distinct found,
                id_of_found c.next_id x.id c.order x v.distinct found,
                text_eq_iff x.key j,
              );
          distinct = (
            below_of_found c.next_id x.id c.order x v.distinct found,
            find_elem-removed c.next_id x.id c.order v.distinct,
            id_of_gone x found,
            remove_elem-Distinct x.id c.next_id c.order v.distinct,
          );
          few = v.few;
        })
]
  where
    id_of_gone :
        (x : Element)
        → find_elem x.id c.order ≡ some x
        → id_of x.key (remove_elem x.id c.order) ≡ none
    id_of_gone x found = ground (
      arith,
      id_of-remove_elem c.next_id x.id x.key c.order x v.distinct found,
      text_eq_refl x.key,
    )

drop_any_le :
    (pick : ℕ) (m : List (Text × PartialAsset))
    → max_partials ≤ length m
    → length (drop_any pick m) + 1 ≤ length m
unfolding drop_any
drop_any_le pick [] h = absurd (omega arith)
drop_any_le pick ((j, w) ∷ m) h = elim (Option-cases (key_at pick ((j, w) ∷ m))) [
  | inr (k, e) ↦
      rw (e, drop_any) (length-remove_hit k ((j, w) ∷ m) (lookup-key_at pick ((j, w) ∷ m) k e))
  | inl e ↦
      rw (e, drop_any) (length-remove_hit j ((j, w) ∷ m) (lookup-key_at 0 ((j, w) ∷ m) j first))
]
  where
    first : key_at 0 ((j, w) ∷ m) ≡ some j
    first = unfold key_at in refl

store_partial-Inv :
    (pick : ℕ) (c : AssetCache) (k : Text) (pa : PartialAsset)
    → Inv c
    → Inv (store_partial pick c k pa)
unfolding store_partial
store_partial-Inv pick c k pa v = record {
  counted = v.counted;
  within = v.within;
  synced = v.synced;
  distinct = v.distinct;
  few = elim (Bool-cases (leb max_partials (length c.partials))) [
    | inl full ↦ rw full (
        omega (
          arith,
          v.few,
          drop_any_le pick c.partials (leb→le _ _ full),
          length-insert-le k pa (drop_any pick c.partials),
        ))
    | inr room ↦ rw room (ground (arith, length-insert-le k pa c.partials))
  ];
}

-- Storing a prefix keeps the invariant: never more than `max_partials` of them.
pub put_partial-Inv :
    (pick : ℕ) (c : AssetCache) (k : Text) (pa : PartialAsset)
    → Inv c
    → Inv (put_partial pick c k pa)
unfolding put_partial
put_partial-Inv pick c k pa v = ground (arith, store_partial-Inv pick c k pa v)

pub new_asset_cache-Inv : (budget : ℕ) → Inv (new_asset_cache budget)
unfolding id_of lookup
new_asset_cache-Inv budget = record {
  counted = refl;
  within = omega arith;
  synced = λ k. refl;
  distinct = tt;
  few = omega arith;
}
