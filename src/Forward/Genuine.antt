-- ===== src/Forward/Genuine.antt =====
-- The asset cache under web/internal/corplink/proxy_http.go holds representations and prefixes of
-- them, and nothing else, as long as that is all that is put into it.
use fu_corplink.Common.{
  ℕ, zero, suc, ◌+◌, ◌≡◌, ◌≤◌, true, some, List, [], ◌∷◌, arith, Text, length, take, inl, inr, All,
  Bool-cases, Option-cases, ◌==◌, ltb, leb, text_eq, subst, sym, ap, ◌∙◌,
}
use fu_corplink.Common.Table.{insert, remove, lookup, key_at}
use fu_corplink.Assets.Cache.{
  AssetCache, Element, PartialAsset, CachedResponse, find_elem, remove_elem, back, element_of, get,
  forget, forget_key, evict, push, put, drop_any, store_partial, put_partial, size, max_partials,
}
use fu_corplink.Assets.Invariant.{Inv, element_of_found}
use fu_corplink.Forward.Origin.{IsGenuine}

module _ {κ} (P : Element → Type κ) where
  All-remove_elem : (i : ℕ) (l : List Element) → All P l → All P (remove_elem i l)
  unfolding remove_elem
  All-remove_elem i [] a = tt
  All-remove_elem i (e ∷ l) a = elim (Bool-cases (e.id == i)) [
    | inl p ↦ rw p a.1
    | inr p ↦ rw p (a.0, All-remove_elem i l a.1)
  ]

  All-find_elem : (i : ℕ) (l : List Element) (e : Element) → All P l → find_elem i l ≡ some e → P e
  unfolding find_elem
  All-find_elem i [] e a h = absurd (ground arith)
  All-find_elem i (x ∷ l) e a h = elim (Bool-cases (x.id == i)) [
    | inl p ↦ subst P (some-inj (rw p at h)) a.0
    | inr p ↦ All-find_elem i l e a.1 (rw p at h)
  ]
    where
      some-inj : {a b : Element} → some a ≡ some b → a ≡ b
      some-inj q = cc

module _ {κ} {V : Type 0} (P : Text × V → Type κ) where
  All-remove : (k : Text) (m : List (Text × V)) → All P m → All P (remove k m)
  unfolding remove
  All-remove k [] a = tt
  All-remove k ((j, w) ∷ m) a = elim (Bool-cases (text_eq j k)) [
    | inl p ↦ rw p (All-remove k m a.1)
    | inr p ↦ rw p (a.0, All-remove k m a.1)
  ]

  All-insert : (k : Text) (v : V) (m : List (Text × V)) → P (k, v) → All P m → All P (insert k v m)
  unfolding insert
  All-insert k v [] p a = (p, tt)
  All-insert k v ((j, w) ∷ m) p a = elim (Bool-cases (text_eq j k)) [
    | inl e ↦ rw e (p, a.1)
    | inr e ↦ rw e (a.0, All-insert k v m p a.1)
  ]

module _ {κ} {V : Type 0} (P : Text × V → Type κ) where
  pub All-lookup :
      (k : Text) (m : List (Text × V)) (v : V)
      → All P m
      → lookup k m ≡ some v
      → (j : Text) × (text_eq j k ≡ true) × P (j, v)
  unfolding lookup
  All-lookup k [] v a h = absurd (ground arith)
  All-lookup k ((j, w) ∷ m) v a h = elim (Bool-cases (text_eq j k)) [
    | inl e ↦ (j, e, subst (λ x. P (j, x)) (some-inj (rw e at h)) a.0)
    | inr e ↦ All-lookup k m v a.1 (rw e at h)
  ]
    where
      some-inj : {a b : V} → some a ≡ some b → a ≡ b
      some-inj q = cc

module _ (origin : Text → Text) where
  forget-IsGenuine :
      (c : AssetCache) (e : Element) → IsGenuine origin c → IsGenuine origin (forget c e)
  unfolding forget
  forget-IsGenuine c e g = record {
    complete = All-remove_elem _ e.id c.order g.complete;
    prefixes = g.prefixes;
  }

  evict-IsGenuine :
      (fuel n : ℕ) (c : AssetCache) → IsGenuine origin c → IsGenuine origin (evict fuel n c)
  unfolding evict
  evict-IsGenuine zero n c g = g
  evict-IsGenuine (suc fuel) n c g = elim (Bool-cases (ltb c.budget (c.used + n))) [
    | inr fits ↦ rw (fits, evict) g
    | inl over ↦ elim (Option-cases (back c.order)) [
      | inl e ↦ rw (over, e, evict) g
      | inr (x, e) ↦
          rw (over, e, evict) (evict-IsGenuine fuel n (forget c x) (forget-IsGenuine c x g))
    ]
  ]

  forget_key-IsGenuine :
      (c : AssetCache) (k : Text) → IsGenuine origin c → IsGenuine origin (forget_key c k)
  unfolding forget_key
  forget_key-IsGenuine c k g = elim (Option-cases (element_of c k)) [
    | inl e ↦ rw (e, forget_key) g
    | inr (x, e) ↦ rw (e, forget_key) (forget-IsGenuine c x g)
  ]

  push-IsGenuine :
      (c : AssetCache) (k : Text) (r : CachedResponse)
      → r.body ≡ origin k
      → IsGenuine origin c
      → IsGenuine origin (push c k r)
  unfolding push
  push-IsGenuine c k r h g = record {
    complete = (h, g.complete);
    prefixes = All-remove _ k c.partials g.prefixes;
  }

  -- Storing the representation of a key keeps a cache that holds only representations and prefixes
  -- of them.
  pub put-IsGenuine :
      (c : AssetCache) (k : Text) (r : CachedResponse)
      → r.body ≡ origin k
      → IsGenuine origin c
      → IsGenuine origin (put c k r)
  unfolding put
  put-IsGenuine c k r h g = elim (Bool-cases (ltb c.budget (size r))) [
    | inl big ↦ rw big g
    | inr fits ↦ rw fits (
        push-IsGenuine _ k r h
          (evict-IsGenuine (length (forget_key c k).order) (size r) _ (forget_key-IsGenuine c k g)))
  ]

  drop_any-All :
      (P : Text × PartialAsset → Type 0) (pick : ℕ) (m : List (Text × PartialAsset))
      → All P m
      → All P (drop_any pick m)
  unfolding drop_any
  drop_any-All P pick [] a = tt
  drop_any-All P pick ((j, w) ∷ m) a = elim (Option-cases (key_at pick ((j, w) ∷ m))) [
    | inl e ↦ rw (e, drop_any) (All-remove P j ((j, w) ∷ m) a)
    | inr (k, e) ↦ rw (e, drop_any) (All-remove P k ((j, w) ∷ m) a)
  ]

  store_partial-IsGenuine :
      (pick : ℕ) (c : AssetCache) (k : Text) (pa : PartialAsset)
      → (pa.body ≡ take (length pa.body) (origin k))
        × (length pa.body ≤ length (origin k))
        × (pa.total ≡ some (length (origin k)))
      → IsGenuine origin c
      → IsGenuine origin (store_partial pick c k pa)
  unfolding store_partial
  store_partial-IsGenuine pick c k pa h g = record {
    complete = g.complete;
    prefixes = elim (Bool-cases (leb max_partials (length c.partials))) [
      | inl full ↦ rw full (All-insert _ k pa _ h (drop_any-All _ pick c.partials g.prefixes))
      | inr room ↦ rw room (All-insert _ k pa _ h g.prefixes)
    ];
  }

  pub put_partial-IsGenuine :
      (pick : ℕ) (c : AssetCache) (k : Text) (pa : PartialAsset)
      → (pa.body ≡ take (length pa.body) (origin k))
        × (length pa.body ≤ length (origin k))
        × (pa.total ≡ some (length (origin k)))
      → IsGenuine origin c
      → IsGenuine origin (put_partial pick c k pa)
  unfolding put_partial
  put_partial-IsGenuine pick c k pa h g = ground (arith, store_partial-IsGenuine pick c k pa h g)

  -- From a well-formed cache that holds only representations and prefixes of them, a read returns
  -- the representation of its key and leaves such a cache.
  pub get-IsGenuine :
      (c : AssetCache) (k : Text)
      → Inv c
      → IsGenuine origin c
      → IsGenuine origin (get c k).0
        × ((r : CachedResponse) → (get c k).1 ≡ some r → r.body ≡ origin k)
  unfolding get
  get-IsGenuine c k v g = elim (Option-cases (element_of c k)) [
    | inl e ↦ rw (e, get) (g, λ r h. cc)
    | inr (x, e) ↦
        let (found, key_eq) = element_of_found c k x v e in
        let body_eq = All-find_elem _ x.id c.order x g.complete found in
        rw (e, get)
          (
            record {
              complete = (body_eq, All-remove_elem _ x.id c.order g.complete);
              prefixes = g.prefixes;
            },
            λ r h.
                ap (λ (y : CachedResponse). y.body) (some-inj (sym h)) ∙ body_eq ∙ ap origin key_eq,
          )
  ]
    where
      some-inj : {a b : CachedResponse} → some a ≡ some b → a ≡ b
      some-inj q = cc
