-- ===== src/Forward/Handled.antt =====
-- handleForward of web/internal/corplink/proxy_http.go from the request to its end: the cache, the
-- stored prefix and the loop over attempts.
use fu_corplink.Common.{
  ℕ, ◌≡◌, ◌≢◌, ◌≤◌, refl, Bool, true, false, Option, none, some, [], arith, Text, length, take, ◌⊎◌,
  inl, inr, Option-cases, if◌then◌else◌, subst, sym, ap, ◌∙◌, is_empty, codes, text_eq,
}
use fu_corplink.Common.Table.{lookup}
use fu_corplink.Assets.Cache.{
  AssetCache, element_of, CachedResponse, PartialAsset, get, get_partial,
}
use fu_corplink.Assets.Invariant.{Inv}
use fu_corplink.Tunnel.Kicks.{Tunnel}
use fu_corplink.Forward.Wire.{Client, Response, HttpText}
use fu_corplink.Forward.State.{fresh_state, Flow}
use fu_corplink.Forward.Request.{
  Round, Served, served, attempts, forward_max_attempts, replay, resume_partial, fetch, look_up,
  handle_forward, Request, host_of, can_retry, cache_key,
}
use fu_corplink.Forward.Origin.{Answers, IsGenuine, BlockOf}
use fu_corplink.Forward.Genuine.{get-IsGenuine}
use fu_corplink.Forward.Attempts.{Between}
use fu_corplink.Forward.Seamless.{Ended, attempts-Ended}
use fu_corplink.Forward.Replays.{genuine_prefix, fresh-Collects, replay-Ended, resume-Ended}

some_is_not_empty : (s : Text) → is_empty s ≡ false → s ≢ []
unfolding is_empty
some_is_not_empty s e q = absurd (ground (arith, e, q))

get-partials : (c : AssetCache) (k : Text) → (get c k).0.partials ≡ c.partials
unfolding get
get-partials c k = elim (Option-cases (element_of c k)) [
  | inl e ↦ rw (e, get) refl
  | inr (x, e) ↦ rw (e, get) refl
]

reaches :
    (http : HttpText) (upgraded : Client → Client) (world : ℕ → Option Text → Round) (req : Request)
    (sent : Text) (client : Client) (assets : AssetCache) (t : Tunnel)
    → is_empty (host_of req) ≡ false
    → req.body ≡ some sent
    → is_empty req.upgrade ≡ true
    → text_eq req.method (codes "HEAD") ≡ false
    → handle_forward http upgraded world req client assets t
      ≡ look_up http false (can_retry req) world (cache_key req (host_of req)) client assets t
unfolding handle_forward
reaches http upgraded world req sent client assets t a b c d =
    simp (a, b, c, d, handle_forward) refl

module _ (origin : Text → Text) (body start : Text) (H : Text → Type 0) (http : HttpText)
    (t : Tunnel) where
  module _ (retryable : Bool) (world : ℕ → Option Text → Round)
      (honest : (i : ℕ) (range : Option Text) (resp : Response)
        → (world i range).attempt.response ≡ some resp
        → Answers body range resp × ((h : Text) → BlockOf http resp h → H h)) where
    fetch-Ended :
        (key : Text) (client : Client) (assets : AssetCache)
        → (key ≡ []) ⊎ (origin key ≡ body)
        → client.written ≡ start
        → IsGenuine origin assets
        → ((pa : PartialAsset) → get_partial assets key ≡ some pa → H pa.header)
        → Ended origin body start H http (fetch http false retryable world key client assets t)
    unfolding fetch
    fetch-Ended key client assets k w g stored = on_partial (is_empty key) refl
      where
        f : Flow
        f = record { st = fresh_state key; client = client; assets = assets }

        from : Flow → Served
        from f' = attempts http false retryable world forward_max_attempts 0 f' t

        from-Ended :
            (f' : Flow)
            → Between origin body start H http f'
            → Ended origin body start H http (from f')
        from-Ended f' b =
            attempts-Ended origin body start H http retryable world honest forward_max_attempts 0 f'
              t b

        anew : Ended origin body start H http (from f)
        anew =
            from-Ended f (inl (fresh-Collects origin body start H http t key client assets k w g))

        keyed : is_empty key ≡ false → origin key ≡ body
        keyed e = elim k [ inl q ↦ absurd (some_is_not_empty key e q) | inr q ↦ q ]

        on_stored :
            (found : Option PartialAsset)
            → get_partial assets key ≡ found
            → is_empty key ≡ false
            → Ended origin body start H http (elim found [
              | none ↦ from f
              | some pa ↦
                  if (resume_partial pa f).0
                  then from (resume_partial pa f).1
                  else served false (resume_partial pa f).1 t
            ])
        on_stored none e ne = anew
        on_stored (some pa) e ne =
            let q = keyed ne in
            let (prefix, le, total) = genuine_prefix origin assets key pa g e in
            resume-Ended origin body start H http t from pa f from-Ended (stored pa e)
              (prefix ∙ ap (take (length pa.body)) q) (subst (λ x. length pa.body ≤ length x) q le)
              (total ∙ ap (λ x. some (length x)) q) q w g

        on_partial :
            (b : Bool)
            → is_empty key ≡ b
            → Ended origin body start H http (elim (if b then none else get_partial assets key) [
              | none ↦ from f
              | some pa ↦
                  if (resume_partial pa f).0
                  then from (resume_partial pa f).1
                  else served false (resume_partial pa f).1 t
            ])
        on_partial true e = anew
        on_partial false e = on_stored (get_partial assets key) refl e

    look_up-Ended :
        (key : Text) (client : Client) (assets : AssetCache)
        → (key ≡ []) ⊎ (origin key ≡ body)
        → client.written ≡ start
        → Inv assets
        → IsGenuine origin assets
        → ((r : CachedResponse) → (get assets key).1 ≡ some r → H r.header)
        → ((pa : PartialAsset) → get_partial assets key ≡ some pa → H pa.header)
        → Ended origin body start H http (look_up http false retryable world key client assets t)
    unfolding look_up
    look_up-Ended key client assets k w v g hits stored = on_key (is_empty key) refl
      where
        shown : AssetCache × Option CachedResponse → Served
        shown looked = elim looked.1 [
          | some cached ↦
              let hit =
                replay cached
                  (record { st = fresh_state []; client = client; assets = looked.0 }) in
              served hit.0 hit.1 t
          | none ↦ fetch http false retryable world key client looked.0 t
        ]

        keyed : is_empty key ≡ false → origin key ≡ body
        keyed e = elim k [ inl q ↦ absurd (some_is_not_empty key e q) | inr q ↦ q ]

        on_hit :
            (found : AssetCache × Option CachedResponse)
            → get assets key ≡ found
            → is_empty key ≡ false
            → Ended origin body start H http (shown found)
        on_hit (c, none) e ne =
            fetch-Ended key client c k w
              (subst (λ x. IsGenuine origin x.0) e (get-IsGenuine origin assets key v g).0)
              (λ pa q. stored pa (
                ap (λ m. lookup key m) (sym (get-partials assets key) ∙ ap (λ x. x.0.partials) e)
                ∙ q))
        on_hit (c, some r) e ne =
            let (g', bodies) = get-IsGenuine origin assets key v g in
            replay-Ended origin body start H http t r _ (hits r (ap (λ x. x.1) e))
              (bodies r (ap (λ x. x.1) e) ∙ keyed ne) w (subst (λ x. IsGenuine origin x.0) e g')

        on_key :
            (b : Bool)
            → is_empty key ≡ b
            → Ended origin body start H http (shown (if b then (assets, none) else get assets key))
        on_key true e = fetch-Ended key client assets k w g stored
        on_key false e = on_hit (get assets key) refl e

-- A request of the plain kind, which is neither malformed nor an upgrade nor a HEAD, ends as its
-- origin has it: against answers that carry one representation, a connection that stays open has
-- exactly that representation behind one header block, every other has a first part of it or of
-- the proxy's 502, and the asset cache goes on to hold representations and prefixes of them only.
pub handle_forward-Ended :
    (origin : Text → Text) (body start : Text) (H : Text → Type 0) (http : HttpText)
    (upgraded : Client → Client) (world : ℕ → Option Text → Round) (req : Request) (sent : Text)
    (client : Client) (assets : AssetCache) (t : Tunnel)
    → ((i : ℕ) (range : Option Text) (resp : Response)
        → (world i range).attempt.response ≡ some resp
        → Answers body range resp × ((h : Text) → BlockOf http resp h → H h))
    → ((r : CachedResponse) → (get assets (cache_key req (host_of req))).1 ≡ some r → H r.header)
    → ((pa : PartialAsset)
        → get_partial assets (cache_key req (host_of req)) ≡ some pa
        → H pa.header)
    → (cache_key req (host_of req) ≡ []) ⊎ (origin (cache_key req (host_of req)) ≡ body)
    → is_empty (host_of req) ≡ false
    → req.body ≡ some sent
    → is_empty req.upgrade ≡ true
    → text_eq req.method (codes "HEAD") ≡ false
    → client.written ≡ start
    → Inv assets
    → IsGenuine origin assets
    → Ended origin body start H http (handle_forward http upgraded world req client assets t)
handle_forward-Ended origin body start H http upgraded world req sent client assets t honest hits
      stored key host_ok body_ok plain not_head w v g =
    subst (Ended origin body start H http)
      (sym (reaches http upgraded world req sent client assets t host_ok body_ok plain not_head))
      (look_up-Ended origin body start H http t (can_retry req) world honest
        (cache_key req (host_of req)) client assets key w v g hits stored)
