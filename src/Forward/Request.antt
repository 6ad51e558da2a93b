-- ===== src/Forward/Request.antt =====
-- handleForward of web/internal/corplink/proxy_http.go: the loop over attempts, and what stands
-- before it. The environment answers attempt after attempt, each time to the Range header that the
-- request carries; while a request waits for a fresh tunnel it says how many swaps happen.
use fu_corplink.Common.{
  ℕ, zero, suc, ◌+◌, Bool, true, false, ◌||◌, ◌&&◌, not, Option, none, some, [], ◌++◌, leb, ltb,
  if◌then◌else◌, Text, is_empty, length, codes, text_eq,
}
use fu_corplink.Assets.Cache.{AssetCache, PartialAsset, CachedResponse, get, get_partial}
use fu_corplink.Assets.Names.{is_immutable_asset_path}
use fu_corplink.Tunnel.Kicks.{Tunnel, kick_refresh, wait_tunnel_swap}
use fu_corplink.Forward.Wire.{Client, write, HttpText}
use fu_corplink.Forward.State.{
  ForwardState, fresh_state, fwd_done, fwd_retry, fwd_abort, Flow, save_partial,
}
use fu_corplink.Forward.Once.{Attempt, bad_gateway, range_header, forward_once}

-- forwardResumeAttempts
abbrev pub forward_resume_attempts : ℕ
forward_resume_attempts = 8

-- forwardMaxAttempts
abbrev pub forward_max_attempts : ℕ
forward_max_attempts = 64

-- What the world does in a round: the attempt, whether the host dialed recently (hostWasLive), how
-- many tunnel swaps the wait sees, and the runtime's choice in the cache.
pub record Round : Type 0 where
  pub attempt : Attempt
  pub host_was_live : Bool
  pub swaps : ℕ
  pub pick : ℕ

-- The parts of http.Request that handleForward reads. `body` is `none` where reading it fails.
pub record Request : Type 0 where
  pub method : Text
  pub host : Text
  pub url_host : Text
  pub url_path : Text
  pub upgrade : Text
  pub range : Text
  pub body : Option Text

-- bytes that the request has gained so far
abbrev pub progress : ForwardState → ℕ
progress st = st.relayed + length st.pending

-- the 502 that is sent while the client has seen no header
unfoldable pub give_up : Flow → Flow
give_up f = if f.st.header_sent then f else record f { client = (write f.client bad_gateway).0 }

-- kickRefresh under its gate, then waitTunnelSwap
unfoldable pub after_stall : Round → ℕ → Flow → Tunnel → Tunnel
after_stall r gen f t =
    let kicked = if ltb 0 (progress f.st) || r.host_was_live then kick_refresh t else t in
    (wait_tunnel_swap gen r.swaps kicked).0

-- The result says whether the client connection can serve another request.
pub record Served : Type 0 where
  pub keep : Bool
  pub flow : Flow
  pub tunnel : Tunnel

abbrev pub served : Bool → Flow → Tunnel → Served
served keep flow tunnel = record { keep = keep; flow = flow; tunnel = tunnel }

-- The loop, with the attempts that are left; `zero_progress` counts fruitless rounds in a row.
unfoldable pub attempts :
    HttpText → Bool → Bool → (ℕ → Option Text → Round) → ℕ → ℕ → Flow → Tunnel → Served
unfolding give_up after_stall
attempts http is_head can_retry world zero zero_progress f t =
    served false (save_partial (world 0 (range_header f.st)).pick (give_up f)) t
attempts http is_head can_retry world (suc left) zero_progress f t =
    let r = world (suc left) (range_header f.st) in
    let (outcome, f') = forward_once http is_head r.attempt f in
    elim outcome [
      | fwd_done ↦ served (not f'.st.close_after) f' t
      | fwd_abort ↦ served false (save_partial r.pick f') t
      | fwd_retry ↦ elim can_retry [
        | false ↦ served false (give_up f') t
        | true ↦ elim (ltb (progress f.st) (progress f'.st)) [
          | true ↦ attempts http is_head can_retry world left 0 f' (after_stall r t.gen f' t)
          | false ↦ elim (leb forward_resume_attempts (zero_progress + 1)) [
            | true ↦ served false (save_partial r.pick (give_up f')) t
            | false ↦
                attempts http is_head can_retry world left (zero_progress + 1) f'
                  (after_stall r t.gen f' t)
          ]
        ]
      ]
    ]

-- idempotent, and no Range header of its own
unfoldable pub can_retry : Request → Bool
can_retry req =
    (text_eq req.method (codes "GET") || text_eq req.method (codes "HEAD")) && is_empty req.range

-- req.Host, or that of the URL
abbrev pub host_of : Request → Text
host_of req = if is_empty req.host then req.url_host else req.host

-- cacheKey: "" for what is not an immutable asset
unfoldable pub cache_key : Request → Text → Text
unfolding can_retry
cache_key req host =
    if text_eq req.method (codes "GET") && can_retry req && is_immutable_asset_path req.url_path
    then host ++ req.url_path
    else []

-- a cached response is replayed
unfoldable pub replay : CachedResponse → Flow → Bool × Flow
replay cached f =
    let (c1, sent1) = write f.client cached.header in
    if sent1
    then (let (c2, sent2) = write c1 cached.body in
        (if sent2 then not cached.close else false, record f { client = c2 }))
    else (false, record f { client = c1 })

-- a stored prefix is replayed, and the request goes on behind it; `false` is a failed write
unfoldable pub resume_partial : PartialAsset → Flow → Bool × Flow
resume_partial pa f =
    let (c1, sent1) = write f.client pa.header in
    if sent1
    then (let (c2, sent2) = write c1 pa.body in
        if sent2
        then (
          true,
          record f {
            st = record f.st {
              header_sent = true;
              header = pa.header;
              buf = pa.body;
              relayed = length pa.body;
              total = pa.total;
              close_after = pa.close_after;
            };
            client = c2;
          },
        )
        else (false, record f { client = c2 }))
    else (false, record f { client = c1 })

-- behind the cache: the stored prefix, then the loop
unfoldable pub fetch :
    HttpText
    → Bool
    → Bool
    → (ℕ → Option Text → Round)
    → Text
    → Client
    → AssetCache
    → Tunnel
    → Served
unfolding resume_partial
fetch http is_head retryable world key client assets t =
    let f : Flow = record { st = fresh_state key; client = client; assets = assets } in
    elim (if is_empty key then none else get_partial assets key) [
      | none ↦ attempts http is_head retryable world forward_max_attempts 0 f t
      | some pa ↦
          let (sent, f') = resume_partial pa f in
          if sent
          then attempts http is_head retryable world forward_max_attempts 0 f' t
          else served false f' t
    ]

-- the cache, or a fetch
unfoldable pub look_up :
    HttpText
    → Bool
    → Bool
    → (ℕ → Option Text → Round)
    → Text
    → Client
    → AssetCache
    → Tunnel
    → Served
look_up http is_head retryable world key client assets t =
    let looked = if is_empty key then (assets, none) else get assets key in
    elim looked.1 [
      | some cached ↦
          let hit =
            replay cached (record { st = fresh_state []; client = client; assets = looked.0 }) in
          served hit.0 hit.1 t
      | none ↦ fetch http is_head retryable world key client looked.0 t
    ]

abbrev pub bad_request : Text
bad_request = codes "HTTP/1.1 400 Bad Request\r\nContent-Length: 0\r\n\r\n"

-- handleForward. `upgraded` is forwardRaw's pipe, on the client's side.
unfoldable pub handle_forward :
    HttpText
    → (Client → Client)
    → (ℕ → Option Text → Round)
    → Request
    → Client
    → AssetCache
    → Tunnel
    → Served
handle_forward http upgraded world req client assets t =
    let idle : Client → Flow = λ c. record { st = fresh_state []; client = c; assets = assets } in
    if is_empty (host_of req)
    then served false (idle (write client bad_request).0) t
    else (elim req.body [
      | none ↦ served false (idle client) t
      | some body ↦
          if not (is_empty req.upgrade)
          then served false (idle (upgraded client)) t
          else look_up http (text_eq req.method (codes "HEAD")) (can_retry req) world
              (cache_key req (host_of req)) client assets t
    ])
