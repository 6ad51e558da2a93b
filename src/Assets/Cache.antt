-- ===== src/Assets/Cache.antt =====
-- assetCache of web/internal/corplink/proxy_cache.go. A pointer into container/list is the number
-- `id` of its element, and `items` maps a key to that number as the Go map does to the pointer.
-- The mutex makes each method one step, so a method is a function on the whole state.
use fu_corplink.Common.{
  ℕ, zero, suc, ◌+◌, ◌-◌, ◌*◌, ◌^◌, Bool, true, false, ◌||◌, List, [], ◌∷◌, Option, none, some,
  Text, length, ltb, leb, ◌==◌, if◌then◌else◌, is_some,
}
use fu_corplink.Common.Table.{lookup, insert, remove, key_at}

-- assetCacheBudget
abbrev pub asset_cache_budget : ℕ
asset_cache_budget = 64 * 2 ^ 20

-- assetCacheMaxObject
abbrev pub asset_cache_max_object : ℕ
asset_cache_max_object = 8 * 2 ^ 20

-- maxPartials
abbrev pub max_partials : ℕ
max_partials = 32

pub record CachedResponse : Type 0 where
  pub header : Text
  pub body : Text
  pub close : Bool

-- `total` is `none` for the source's -1.
pub record PartialAsset : Type 0 where
  pub header : Text
  pub body : Text
  pub total : Option ℕ
  pub close_after : Bool

-- *list.Element with its *cacheEntry
pub record Element : Type 0 where
  pub id : ℕ
  pub key : Text
  pub resp : CachedResponse

-- `order` has the most recent element first; `next_id` is the next fresh pointer.
pub record AssetCache : Type 0 where
  pub budget : ℕ
  pub used : ℕ
  pub order : List Element
  pub items : List (Text × ℕ)
  pub partials : List (Text × PartialAsset)
  pub next_id : ℕ

abbrev pub new_asset_cache : ℕ → AssetCache
new_asset_cache budget = record {
  budget = budget;
  used = 0;
  order = [];
  items = [];
  partials = [];
  next_id = 0;
}

abbrev pub size : CachedResponse → ℕ
size r = length r.body + length r.header

-- the element behind a pointer
unfoldable pub find_elem : ℕ → List Element → Option Element
find_elem i [] = none
find_elem i (e ∷ l) = if e.id == i then some e else find_elem i l

-- c.order.Remove(el)
unfoldable pub remove_elem : ℕ → List Element → List Element
remove_elem i [] = []
remove_elem i (e ∷ l) = if e.id == i then l else e ∷ remove_elem i l

-- c.order.Back()
unfoldable pub back : List Element → Option Element
back [] = none
back (e ∷ []) = some e
back (e ∷ f ∷ l) = back (f ∷ l)

-- the element of a key: a pointer that the map holds is never dangling (Assets/Invariant)
unfoldable pub element_of : AssetCache → Text → Option Element
element_of c key = elim (lookup key c.items) [ none ↦ none | some i ↦ find_elem i c.order ]

unfoldable pub get : AssetCache → Text → AssetCache × Option CachedResponse
unfolding element_of
get c key = elim (element_of c key) [
  | none ↦ (c, none)
  | some e ↦ (record c { order = e ∷ remove_elem e.id c.order }, some e.resp)
]

-- the three statements that forget an element: the byte count, the list and the map
unfoldable pub forget : AssetCache → Element → AssetCache
forget c e = record c {
  used = c.used - size e.resp;
  order = remove_elem e.id c.order;
  items = remove e.key c.items;
}

-- the first `if` of `put`: an entry that the key had goes
unfoldable pub forget_key : AssetCache → Text → AssetCache
forget_key c key = elim (element_of c key) [ none ↦ c | some e ↦ forget c e ]

-- the loop of `put`; a round takes one element off, so as many rounds as elements are enough
unfoldable pub evict : ℕ → ℕ → AssetCache → AssetCache
evict zero room_for c = c
evict (suc fuel) room_for c = elim (ltb c.budget (c.used + room_for)) [
  | false ↦ c
  | true ↦ elim (back c.order) [ none ↦ c | some ev ↦ evict fuel room_for (forget c ev) ]
]

-- the end of `put`: the new element in front, and no partial prefix left
unfoldable pub push : AssetCache → Text → CachedResponse → AssetCache
push c key resp = record c {
  used = c.used + size resp;
  order = record { id = c.next_id; key = key; resp = resp } ∷ c.order;
  items = insert key c.next_id c.items;
  partials = remove key c.partials;
  next_id = c.next_id + 1;
}

unfoldable pub put : AssetCache → Text → CachedResponse → AssetCache
put c key resp =
    if ltb c.budget (size resp)
    then c
    else (let c' = forget_key c key in push (evict (length c'.order) (size resp) c') key resp)

-- `for k := range c.partials { delete(c.partials, k); break }`: the runtime picks where the
-- iteration starts, which is `pick`
unfoldable pub drop_any : ℕ → List (Text × PartialAsset) → List (Text × PartialAsset)
drop_any pick [] = []
drop_any pick ((j, w) ∷ m) = elim (key_at pick ((j, w) ∷ m)) [
  | none ↦ remove j ((j, w) ∷ m)
  | some k ↦ remove k ((j, w) ∷ m)
]

-- the last two statements of `putPartial`
unfoldable pub store_partial : ℕ → AssetCache → Text → PartialAsset → AssetCache
store_partial pick c key pa =
    let kept =
      if leb max_partials (length c.partials) then drop_any pick c.partials else c.partials in
    record c { partials = insert key pa kept }

-- the test against a longer prefix
unfoldable pub no_shorter : Option PartialAsset → PartialAsset → Bool
no_shorter none pa = false
no_shorter (some old) pa = leb (length pa.body) (length old.body)

unfoldable pub put_partial : ℕ → AssetCache → Text → PartialAsset → AssetCache
unfolding no_shorter
put_partial pick c key pa =
    if ltb asset_cache_max_object (length pa.body) || (length pa.body == 0)
    then c
    else if is_some (lookup key c.items)
    then c
    else if no_shorter (lookup key c.partials) pa
    then c
    else store_partial pick c key pa

abbrev pub get_partial : AssetCache → Text → Option PartialAsset
get_partial c key = lookup key c.partials
