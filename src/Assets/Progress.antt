-- ===== src/Assets/Progress.antt =====
-- The partial prefixes of web/internal/corplink/proxy_cache.go: progress is never lost on its key.
use fu_corplink.Common.{
  ℕ, ◌≡◌, none, some, Text, length, arith, ltb, leb, if◌then◌else◌, text_eq_refl, Bool-cases,
  Option-cases, inl, inr,
}
use fu_corplink.Common.Table.{lookup, lookup-insert}
use fu_corplink.Assets.Cache.{
  AssetCache, PartialAsset, put_partial, store_partial, no_shorter, drop_any, get_partial,
  asset_cache_max_object,
}

-- the length of the prefix that is held for a key
abbrev pub held : AssetCache → Text → ℕ
held c k = elim (get_partial c k) [ none ↦ 0 | some pa ↦ length pa.body ]

stored :
    (pick : ℕ) (c : AssetCache) (k : Text) (pa : PartialAsset)
    → get_partial (store_partial pick c k pa) k ≡ some pa
unfolding store_partial
stored pick c k pa = elim (Bool-cases (leb 32 (length c.partials))) [
  | inl full ↦
      rw full (ground (arith, lookup-insert k k pa (drop_any pick c.partials), text_eq_refl k))
  | inr room ↦ rw room (ground (arith, lookup-insert k k pa c.partials, text_eq_refl k))
]

-- For a key with no complete copy, whichever entry the runtime evicts, an offered prefix of at most
-- `asset_cache_max_object` bytes leaves the longer of it and the old one behind, and a longer one
-- leaves the old one.
pub held-put_partial :
    (pick : ℕ) (c : AssetCache) (k : Text) (pa : PartialAsset)
    → lookup k c.items ≡ none
    → held (put_partial pick c k pa) k ≡ (
        if ltb asset_cache_max_object (length pa.body)
        then held c k
        else if leb (length pa.body) (held c k)
        then held c k
        else length pa.body)
unfolding put_partial no_shorter
held-put_partial pick c k pa h = elim (Option-cases (get_partial c k)) [
  | inl e ↦ ground (arith, stored pick c k pa)
  | inr (old, e) ↦ ground (arith, stored pick c k pa)
]
