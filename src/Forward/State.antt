-- ===== src/Forward/State.antt =====
-- forwardState of web/internal/corplink/proxy_http.go, and its two ways into the asset cache.
use fu_corplink.Common.{
  ℕ, Bool, false, ◌||◌, Option, none, some, [], leb, if◌then◌else◌, Text, is_empty, length,
}
use fu_corplink.Assets.Cache.{AssetCache, put, put_partial}
use fu_corplink.Forward.Wire.{Client, normalize_cached_header}

-- `total` is `none` for the source's -1, and "" stands for no cache key as in the source.
pub record ForwardState : Type 0 where
  pub header_sent : Bool
  pub relayed : ℕ
  pub total : Option ℕ
  pub close_after : Bool
  pub pending : Text
  pub cache_key : Text
  pub header : Text
  pub buf : Text

abbrev pub fresh_state : Text → ForwardState
fresh_state key = record {
  header_sent = false;
  relayed = 0;
  total = none;
  close_after = false;
  pending = [];
  cache_key = key;
  header = [];
  buf = [];
}

-- forwardOnce outcomes
pub data Outcome : Type 0 where
  fwd_done fwd_retry fwd_abort : Outcome

-- what one attempt reads and changes: the request's state, the client and the shared cache
pub record Flow : Type 0 where
  pub st : ForwardState
  pub client : Client
  pub assets : AssetCache

-- commitAssetCache
unfoldable pub commit_asset_cache : Flow → Flow
commit_asset_cache f = if is_empty f.st.cache_key || is_empty f.st.header then f else record f {
  st = record f.st { cache_key = []; buf = [] };
  assets = put f.assets f.st.cache_key (record {
    header = normalize_cached_header f.st.header (length f.st.buf);
    body = f.st.buf;
    close = false;
  });
}

-- savePartial; `pick` is the runtime's choice in put_partial
unfoldable pub save_partial : ℕ → Flow → Flow
save_partial pick f =
    if is_empty f.st.cache_key || is_empty f.st.header || is_empty f.st.buf then f else record f {
      assets = put_partial pick f.assets f.st.cache_key (record {
        header = f.st.header;
        body = f.st.buf;
        total = f.st.total;
        close_after = f.st.close_after;
      });
    }

-- `st.total >= 0 && n >= st.total`
abbrev pub reached : Option ℕ → ℕ → Bool
reached none n = false
reached (some total) n = leb total n
