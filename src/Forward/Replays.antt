-- ===== src/Forward/Replays.antt =====
-- The two replays of handleForward in web/internal/corplink/proxy_http.go: a cached response, and a
-- stored prefix that the request goes on behind.
use fu_corplink.Common.{
  ℕ, ◌≡◌, ◌≤◌, refl, true, false, some, [], ◌++◌, arith, Text, length, take, ◌⊎◌, inl, inr,
  Bool-cases, if◌then◌else◌, subst, sym, ap, ◌∙◌, append_assoc, append-nil, take_all, text_eq_iff,
}
use fu_corplink.Assets.Cache.{AssetCache, CachedResponse, PartialAsset, get_partial}
use fu_corplink.Tunnel.Kicks.{Tunnel}
use fu_corplink.Forward.Wire.{Client, write, HttpText}
use fu_corplink.Forward.State.{fresh_state, Flow}
use fu_corplink.Forward.Request.{Served, served, replay, resume_partial}
use fu_corplink.Forward.Writes.{write_all, write_some, write_piece}
use fu_corplink.Forward.Origin.{IsGenuine}
use fu_corplink.Forward.Genuine.{All-lookup}
use fu_corplink.Forward.Buffered.{Collects, Partly, Partly-header, Partly-body}
use fu_corplink.Forward.Attempts.{Between}
use fu_corplink.Forward.Seamless.{Ended}

pub genuine_prefix :
    (origin : Text → Text) (c : AssetCache) (key : Text) (pa : PartialAsset)
    → IsGenuine origin c
    → get_partial c key ≡ some pa
    → (pa.body ≡ take (length pa.body) (origin key))
      × (length pa.body ≤ length (origin key))
      × (pa.total ≡ some (length (origin key)))
genuine_prefix origin c key pa g h =
    let (j, same, p) = All-lookup _ key c.partials pa g.prefixes h in
    subst
      (λ k.
        (pa.body ≡ take (length pa.body) (origin k))
        × (length pa.body ≤ length (origin k))
        × (pa.total ≡ some (length (origin k))))
      ((text_eq_iff j key).0 same) p

module _ (origin : Text → Text) (body start : Text) (H : Text → Type 0) (http : HttpText)
    (t : Tunnel) where
  pub fresh-Collects :
      (key : Text) (client : Client) (assets : AssetCache)
      → (key ≡ []) ⊎ (origin key ≡ body)
      → client.written ≡ start
      → IsGenuine origin assets
      → Collects origin body start H
          (record { st = fresh_state key; client = client; assets = assets })
  fresh-Collects key client assets k w g = record {
    unsent = refl;
    nothing = refl;
    held = refl;
    within = omega arith;
    states = inl refl;
    key = k;
    blank = refl;
    unbuffered = refl;
    untouched = w;
    genuine = g;
  }

  pub Ended-early :
      (f : Flow)
      → Partly origin body start H f.client.written
      → IsGenuine origin f.assets
      → Ended origin body start H http (served false f t)
  Ended-early f p g = record { whole = inl refl; partly = p; genuine = g }

  -- a header block and a body that are written one after the other
  cut_header :
      (client : Client) (h : Text)
      → H h
      → client.written ≡ start
      → Partly origin body start H (write client h).0.written
  cut_header client h hh w =
      let (k, e) = write_some client h in
      Partly-header origin body start H h k hh (e ∙ ap (λ x. x ++ take k h) w)

  after_header :
      (client : Client) (h b : Text)
      → b ≡ take (length b) body
      → client.written ≡ start
      → (write client h).1 ≡ true
      → ((write (write client h).0 b).1 ≡ true
          → (write (write client h).0 b).0.written ≡ (start ++ h) ++ take (length b) body)
        × ((m : ℕ) × ((write (write client h).0 b).0.written ≡ (start ++ h) ++ take m body))
  after_header client h b e w ok =
      write_piece body (start ++ h) (write client h).0 b 0 (length b)
        (write_all client h ok ∙ ap (λ x. x ++ h) w ∙ sym (append-nil (start ++ h))) e

  cut_body :
      (client : Client) (h b : Text)
      → H h
      → b ≡ take (length b) body
      → client.written ≡ start
      → (write client h).1 ≡ true
      → Partly origin body start H (write (write client h).0 b).0.written
  cut_body client h b hh e w ok =
      let (m, x) = (after_header client h b e w ok).1 in Partly-body origin body start H h m hh x

  pub replay-Ended :
      (cached : CachedResponse) (f : Flow)
      → H cached.header
      → cached.body ≡ body
      → f.client.written ≡ start
      → IsGenuine origin f.assets
      → Ended origin body start H http (served (replay cached f).0 (replay cached f).1 t)
  unfolding replay
  replay-Ended cached f hh same w g = elim (Bool-cases ((write f.client cached.header).1)) [
    | inr cut ↦
        simp (cut, replay)
          (Ended-early (record f { client = (write f.client cached.header).0 })
            (cut_header f.client cached.header hh w) g)
    | inl ok ↦ elim (Bool-cases ((write (write f.client cached.header).0 cached.body).1)) [
      | inr cut ↦
          simp (ok, cut, replay)
            (Ended-early
              (record f { client = (write (write f.client cached.header).0 cached.body).0 })
              (cut_body f.client cached.header cached.body hh prefix w ok) g)
      | inl ok' ↦
          simp (ok, ok', replay)
            (record {
              whole = inr (
                cached.header,
                hh,
                (after_header f.client cached.header cached.body prefix w ok).0 ok'
                    ∙ ap (λ x. (start ++ cached.header) ++ x) (sym prefix ∙ same)
                    ∙ append_assoc start cached.header body,
              );
              partly = cut_body f.client cached.header cached.body hh prefix w ok;
              genuine = g;
            })
    ]
  ]
    where
      prefix : cached.body ≡ take (length cached.body) body
      prefix = same ∙ sym (take_all _ body (omega (arith, ap length same)))

  pub resume-Ended :
      (world : Flow → Served) (pa : PartialAsset) (f : Flow)
      → ((f' : Flow)
          → Between origin body start H http f'
          → Ended origin body start H http (world f'))
      → H pa.header
      → pa.body ≡ take (length pa.body) body
      → length pa.body ≤ length body
      → pa.total ≡ some (length body)
      → origin f.st.cache_key ≡ body
      → f.client.written ≡ start
      → IsGenuine origin f.assets
      → Ended origin body start H http (
          if (resume_partial pa f).0
          then world (resume_partial pa f).1
          else served false (resume_partial pa f).1 t)
  unfolding resume_partial
  resume-Ended world pa f ih hh prefix le total key w g =
      elim (Bool-cases ((write f.client pa.header).1)) [
        | inr cut ↦
            simp (cut, resume_partial)
              (Ended-early (record f { client = (write f.client pa.header).0 })
                (cut_header f.client pa.header hh w) g)
        | inl ok ↦ elim (Bool-cases ((write (write f.client pa.header).0 pa.body).1)) [
          | inr cut ↦
              simp (ok, cut, resume_partial)
                (Ended-early (record f { client = (write (write f.client pa.header).0 pa.body).0 })
                  (cut_body f.client pa.header pa.body hh prefix w ok) g)
          | inl ok' ↦
              simp (ok, ok', resume_partial)
                (ih _ (
                  inr (
                    pa.header,
                    hh,
                    record {
                      sent = refl;
                      within = le;
                      total = total;
                      captured = inr (key, prefix);
                      genuine = g;
                    },
                    (after_header f.client pa.header pa.body prefix w ok).0 ok',
                  )))
        ]
      ]
