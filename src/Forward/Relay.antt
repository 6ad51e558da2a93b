-- ===== src/Forward/Relay.antt =====
-- relayForwardBody of web/internal/corplink/proxy_http.go against an origin that serves one
-- representation: what reaches the client behind the header block is that representation, in order.
use fu_corplink.Common.{
  ℕ, ◌+◌, ◌-◌, ◌≡◌, ◌≤◌, Bool, true, false, some, List, [], ◌∷◌, ◌++◌, arith, Text, length, take,
  drop, ◌⊎◌, inl, inr, Bool-cases, Option-cases, leb, leb→le, sym, ap, ◌∙◌, length-take,
  length-drop, take_all, is_empty, append_assoc,
}
use fu_corplink.Forward.Wire.{
  Client, write, Chunk, ReadError, unexpected_eof, eof, timeout, other, normalize_cached_header,
}
use fu_corplink.Forward.State.{
  ForwardState, Outcome, fwd_done, fwd_retry, fwd_abort, Flow, commit_asset_cache, save_partial,
  reached,
}
use fu_corplink.Forward.Body.{capture, relay_chunk, end_relay, relay_forward_body}
use fu_corplink.Forward.Pieces.{splice_piece, cut_piece}
use fu_corplink.Forward.Writes.{write_all, write_some}
use fu_corplink.Forward.Origin.{Feeds, IsGenuine}
use fu_corplink.Forward.Genuine.{put-IsGenuine, put_partial-IsGenuine}

module _ (origin : Text → Text) (body h : Text) where
  -- A request in the middle of a body: what is captured for the cache is what was relayed.
  pub record Tracks (f : Flow) : Type 0 where
    pub sent : f.st.header_sent ≡ true
    pub within : f.st.relayed ≤ length body
    pub total : f.st.total ≡ some (length body)
    pub captured :
        (f.st.cache_key ≡ [])
        ⊎ ((origin f.st.cache_key ≡ body) × (f.st.buf ≡ take f.st.relayed body))
    pub genuine : IsGenuine origin f.assets

  -- The client has the header block and the first bytes of the body, as many as are relayed.
  abbrev pub Shows : Flow → Type 0
  Shows f = f.client.written ≡ h ++ take f.st.relayed body

  abbrev pub Delivered : Outcome × Flow → Type 0
  Delivered (fwd_done, f) = (f.client.written ≡ h ++ body) × IsGenuine origin f.assets
  Delivered (fwd_retry, f) = Tracks f × Shows f
  Delivered (fwd_abort, f) = Tracks f × ((k : ℕ) × (f.client.written ≡ h ++ take k body))

  commit-IsGenuine :
      (f : Flow)
      → Tracks f
      → length body ≤ f.st.relayed
      → IsGenuine origin (commit_asset_cache f).assets
  unfolding commit_asset_cache is_empty
  commit-IsGenuine f t le = elim t.captured [
    | inl e ↦ ground (arith, t.genuine)
    | inr (key_eq, buf_eq) ↦ ground (
      arith,
      t.genuine,
      put-IsGenuine origin f.assets f.st.cache_key
          (record {
            header = normalize_cached_header f.st.header (length f.st.buf);
            body = f.st.buf;
            close = false;
          })
          (buf_eq ∙ take_all f.st.relayed body le ∙ sym key_eq) t.genuine,
    )
  ]

  commit-written : (f : Flow) → (commit_asset_cache f).client.written ≡ f.client.written
  unfolding commit_asset_cache
  commit-written f = ground arith

  commit-Delivered :
      (f : Flow)
      → Tracks f
      → Shows f
      → length body ≤ f.st.relayed
      → Delivered (fwd_done, commit_asset_cache f)
  commit-Delivered f t s le = (
    commit-written f ∙ s ∙ ap (λ x. h ++ x) (take_all f.st.relayed body le),
    commit-IsGenuine f t le,
  )

  -- Saving the prefix of an interrupted request keeps the cache genuine.
  pub save_partial-IsGenuine :
      (pick : ℕ) (f : Flow) → Tracks f → IsGenuine origin (save_partial pick f).assets
  unfolding save_partial is_empty
  save_partial-IsGenuine pick f t = elim t.captured [
    | inl e ↦ ground (arith, t.genuine)
    | inr (key_eq, buf_eq) ↦
        let len : length f.st.buf ≡ f.st.relayed =
          ap length buf_eq ∙ omega (arith, length-take f.st.relayed body, t.within) in
        ground (
          arith,
          t.genuine,
          put_partial-IsGenuine origin pick f.assets f.st.cache_key
              (record {
                header = f.st.header;
                body = f.st.buf;
                total = f.st.total;
                close_after = f.st.close_after;
              })
              (buf_eq ∙ rw (len, key_eq), rw (len, key_eq) t.within, t.total ∙ rw key_eq) t.genuine,
        )
  ]

  capture-Tracks :
      (f : Flow) (chunk : Text) (client : Client)
      → Tracks f
      → f.st.relayed + length chunk ≤ length body
      → take f.st.relayed body ++ chunk ≡ take (f.st.relayed + length chunk) body
      → Tracks (record f {
        st = capture (record f.st { relayed = f.st.relayed + length chunk }) chunk;
        client = client;
      })
  unfolding capture is_empty
  capture-Tracks f chunk client t le e = record {
    sent = ground (arith, t.sent);
    within = ground (arith, le);
    total = ground (arith, t.total);
    captured = elim t.captured [
      | inl key ↦ inl (ground (arith, key))
      | inr (key_eq, buf_eq) ↦ captured_by key_eq (ap (λ x. x ++ chunk) buf_eq ∙ e)
    ];
    genuine = t.genuine;
  }
    where
      next : ForwardState
      next = capture (record f.st { relayed = f.st.relayed + length chunk }) chunk

      captured_by :
          origin f.st.cache_key ≡ body
          → f.st.buf ++ chunk ≡ take (f.st.relayed + length chunk) body
          → (next.cache_key ≡ [])
            ⊎ ((origin next.cache_key ≡ body) × (next.buf ≡ take next.relayed body))
      captured_by p q = ground arith

  relay_chunk-Tracks :
      (f : Flow) (chunk : Text)
      → Tracks f
      → Shows f
      → f.st.relayed + length chunk ≤ length body
      → take f.st.relayed body ++ chunk ≡ take (f.st.relayed + length chunk) body
      → Tracks (relay_chunk f chunk).0
        × ((relay_chunk f chunk).1 ≡ true
            → Shows (relay_chunk f chunk).0
              × ((relay_chunk f chunk).0.st.relayed ≡ f.st.relayed + length chunk))
        × ((k : ℕ) × ((relay_chunk f chunk).0.client.written ≡ h ++ take k body))
  unfolding relay_chunk
  relay_chunk-Tracks f [] t s le e =
      unfold is_empty in (t, λ _. (s, omega arith), (f.st.relayed, s))
  relay_chunk-Tracks f (b ∷ bs) t s le e =
      unfold is_empty in
      elim (Bool-cases ((write f.client chunk).1)) [
        | inl ok ↦
            let shown : (write f.client chunk).0.written
                ≡ h ++ take (f.st.relayed + length chunk) body =
              write_all f.client chunk ok ∙ rw (s, append_assoc) (ap (◌++◌ h) e) in
            rw ok (
              capture-Tracks f chunk (write f.client chunk).0 t le e,
              λ _. (rw (capture_relayed chunk) shown, capture_relayed chunk),
              (f.st.relayed + length chunk, shown),
            )
        | inr failed ↦
            let (k, cut) = write_some f.client chunk in
            let (m, prefix) = cut_piece body chunk f.st.relayed (f.st.relayed + length chunk) k e in
            rw failed (
              record {
                sent = t.sent;
                within = t.within;
                total = t.total;
                captured = t.captured;
                genuine = t.genuine;
              },
              λ q. absurd (ground arith),
              (m, cut ∙ ap (λ w. w ++ take k chunk) s ∙ append_assoc h _ _ ∙ ap (◌++◌ h) prefix),
            )
      ]
    where
      chunk : Text
      chunk = b ∷ bs

      capture_relayed :
          (c : Text)
          → (capture (record f.st { relayed = f.st.relayed + length c }) c).relayed
            ≡ f.st.relayed + length c
      capture_relayed c = unfold capture in ground arith

  end_relay-Delivered : (f : Flow) (e : ReadError) → Tracks f → Shows f → Delivered (end_relay f e)
  unfolding end_relay
  end_relay-Delivered f unexpected_eof t s = (t, s)
  end_relay-Delivered f timeout t s = (t, s)
  end_relay-Delivered f other t s = (t, (f.st.relayed, s))
  end_relay-Delivered f eof t s =
      rw (t.total, end_relay)
        (elim (Bool-cases (leb (length body) f.st.relayed)) [
          | inl full ↦ rw full (commit-Delivered f t s (leb→le _ _ full))
          | inr short ↦ rw short (t, s)
        ])

  -- A relayed body, from a state in the middle of it and a source that starts `skip` bytes before
  -- that, ends with the whole representation on the client and a genuine cache, or leaves a state in
  -- the middle of it, or ends with a first part of it.
  pub relay_forward_body-Delivered :
      (f : Flow) (skip p : ℕ) (cs : List Chunk)
      → Tracks f
      → Shows f
      → p + skip ≡ f.st.relayed
      → Feeds body p cs
      → Delivered (relay_forward_body f skip cs)
  unfolding relay_forward_body
  relay_forward_body-Delivered f skip p [] t s e fd =
      elim (Bool-cases (reached f.st.total f.st.relayed)) [
        | inl full ↦ rw full (commit-Delivered f t s (leb→le _ _ (rw t.total at full)))
        | inr short ↦ rw short (t, s)
      ]
  relay_forward_body-Delivered f skip p (c ∷ cs) t s e fd =
      elim (Bool-cases (reached f.st.total f.st.relayed)) [
        | inl full ↦
            rw (full, relay_forward_body) (commit-Delivered f t s (leb→le _ _ (rw t.total at full)))
        | inr short ↦
            rw (short, relay_forward_body)
              (elim (Bool-cases (next.1)) [
                | inr failed ↦ rw (failed, relay_forward_body) (step.0, step.2)
                | inl ok ↦
                    rw (ok, relay_forward_body)
                      (elim (Option-cases c.err) [
                        | inr (x, err) ↦
                            rw (err, relay_forward_body)
                              (end_relay-Delivered next.0 x step.0 (step.1 ok).0)
                        | inl err ↦
                            rw (err, relay_forward_body)
                              (relay_forward_body-Delivered next.0 (skip - length c.bytes)
                                (p + length c.bytes) cs step.0 (step.1 ok).0
                                (omega (arith, (step.1 ok).1, length-drop skip c.bytes, e)) fd.3)
                      ])
              ])
      ]
    where
      next : Flow × Bool
      next = relay_chunk f (drop skip c.bytes)

      step :
          Tracks next.0
          × (next.1 ≡ true
              → Shows next.0 × (next.0.st.relayed ≡ f.st.relayed + length (drop skip c.bytes)))
          × ((k : ℕ) × (next.0.client.written ≡ h ++ take k body))
      step =
          relay_chunk-Tracks f (drop skip c.bytes) t s
            (omega (arith, length-drop skip c.bytes, e, fd.1, t.within))
            (splice_piece body c.bytes p skip f.st.relayed fd.0 e)
