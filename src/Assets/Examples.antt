-- ===== src/Assets/Examples.antt =====
-- Runs of web/internal/corplink/proxy_cache.go on small inputs: a cache of 40 bytes.
use fu_corplink.Common.{
  ◌≡◌, refl, ◌∷◌, none, some, Text, codes, ltb, if◌then◌else◌, leb, ◌-◌, true, false, is_some,
}
use fu_corplink.Common.Table.{lookup, remove}
use fu_corplink.Assets.Cache.{
  AssetCache, CachedResponse, PartialAsset, new_asset_cache, put, get, put_partial, size,
  asset_cache_max_object,
}
use fu_corplink.Assets.Invariant.{Inv, new_asset_cache-Inv, put-Inv}
use fu_corplink.Assets.Recency.{view, fit, put-view, get-view}
use fu_corplink.Assets.Progress.{held, held-put_partial}
use fu_corplink.Assets.Names.{Matches, find_segment, find_segment_complete}

abbrev page : Text → CachedResponse
page body = record { header = codes "HTTP/1.1 200"; body = body; close = false }

abbrev part : Text → PartialAsset
part body = record {
  header = codes "HTTP/1.1 200";
  body = body;
  total = some 9;
  close_after = false;
}

abbrev one_page : AssetCache
one_page = put (new_asset_cache 40) (codes "h/a.js") (page (codes "alpha"))

abbrev two_pages : AssetCache
two_pages = put one_page (codes "h/b.js") (page (codes "beta"))

one_page-Inv : Inv one_page
one_page-Inv = put-Inv _ (codes "h/a.js") (page (codes "alpha")) (new_asset_cache-Inv 40)

two_pages-Inv : Inv two_pages
two_pages-Inv = put-Inv _ (codes "h/b.js") (page (codes "beta")) one_page-Inv

put-Inv_example : Inv (put two_pages (codes "h/c.js") (page (codes "gamma")))
put-Inv_example = put-Inv two_pages (codes "h/c.js") (page (codes "gamma")) two_pages-Inv

put-view_example : view (put two_pages (codes "h/c.js") (page (codes "gamma"))) ≡ (
    if ltb two_pages.budget (size (page (codes "gamma")))
    then view two_pages
    else (codes "h/c.js", page (codes "gamma"))
      ∷ fit
          (two_pages.budget - size (page (codes "gamma")))
          (remove (codes "h/c.js") (view two_pages)))
put-view_example = put-view two_pages (codes "h/c.js") (page (codes "gamma")) two_pages-Inv

get-view_example :
    ((get two_pages (codes "h/a.js")).1 ≡ lookup (codes "h/a.js") (view two_pages))
    × (view (get two_pages (codes "h/a.js")).0 ≡ (elim (lookup (codes "h/a.js") (view two_pages)) [
      | none ↦ view two_pages
      | some r ↦ (codes "h/a.js", r) ∷ remove (codes "h/a.js") (view two_pages)
    ]))
get-view_example = get-view two_pages (codes "h/a.js") two_pages-Inv

held-put_partial_example :
    held (put_partial 0 (new_asset_cache 40) (codes "h/d.js") (part (codes "del"))) (codes "h/d.js")
    ≡ (if ltb asset_cache_max_object 3
        then held (new_asset_cache 40) (codes "h/d.js")
        else if leb 3 (held (new_asset_cache 40) (codes "h/d.js"))
        then held (new_asset_cache 40) (codes "h/d.js")
        else 3)
unfolding lookup
held-put_partial_example =
    held-put_partial 0 (new_asset_cache 40) (codes "h/d.js") (part (codes "del")) refl

find_segment_complete_example :
    ((seg : Text)
      → find_segment (codes "index-Dk3f9a.js") ≡ some seg
      → Matches (codes "index-Dk3f9a.js") seg)
    × ((seg : Text)
        → Matches (codes "index-Dk3f9a.js") seg
        → is_some (find_segment (codes "index-Dk3f9a.js")) ≡ true)
find_segment_complete_example = find_segment_complete (codes "index-Dk3f9a.js")
