-- ===== src/Forward/Buffered.antt =====
-- forwardBuffered of web/internal/corplink/proxy_http.go and its two ends, against an origin that
-- serves one representation.
use Prim.Native.Nat.{min}
use fu_corplink.Common.{
  ℕ, ◌+◌, ◌≡◌, ◌≤◌, refl, Bool, true, false, List, [], ◌∷◌, ◌++◌, arith, Text, length, take, ◌⊎◌,
  inl, inr, Bool-cases, Option-cases, ◌==◌, if◌then◌else◌, sym, ap, ◌∙◌, take_all, take-append,
  is_empty, append_assoc, append-nil,
}
use fu_corplink.Forward.Wire.{
  Client, write, Chunk, unexpected_eof, eof, timeout, other, Response, HttpText, forward_header,
  buffered_header, normalize_cached_header,
}
use fu_corplink.Forward.State.{
  Outcome, fwd_done, fwd_retry, fwd_abort, Flow, commit_asset_cache, save_partial,
}
use fu_corplink.Forward.Body.{
  buffered_body, finished, finish_buffered, copy_rest, stream_overflow_buffered,
}
use fu_corplink.Forward.Once.{bad_gateway}
use fu_corplink.Forward.Pieces.{splice_piece, append-take, take-take}
use fu_corplink.Forward.Writes.{write_all, write_some, write_piece}
use fu_corplink.Forward.Origin.{Feeds, States, IsGenuine, BlockOf}
use fu_corplink.Forward.Genuine.{put-IsGenuine}
use fu_corplink.Forward.Relay.{Tracks, Shows}

length_of_empty : (s : Text) → is_empty s ≡ true → length s ≡ 0
unfolding is_empty
length_of_empty [] h = refl
length_of_empty (c ∷ s) h = absurd (ground arith)

-- `start` is what the client has before the answer, and `H` the header blocks that may follow it.
module _ (origin : Text → Text) (body start : Text) (H : Text → Type 0) where
  -- A request whose header is not sent: what is pending is the first part of the body.
  pub record Collects (f : Flow) : Type 0 where
    pub unsent : f.st.header_sent ≡ false
    pub nothing : f.st.relayed ≡ 0
    pub held : f.st.pending ≡ take (length f.st.pending) body
    pub within : length f.st.pending ≤ length body
    pub states : States body f.st.total
    pub key : (f.st.cache_key ≡ []) ⊎ (origin f.st.cache_key ≡ body)
    pub blank : f.st.header ≡ []
    pub unbuffered : f.st.buf ≡ []
    pub untouched : f.client.written ≡ start
    pub genuine : IsGenuine origin f.assets

  -- What the client has is a header block and part of the body, or part of the proxy's 502.
  pub data Partly (w : Text) : Type 0 where
    of_answer : (h : Text) (k : ℕ) → H h → w ≡ start ++ take k (h ++ body) → Partly w
    of_gateway : (k : ℕ) → w ≡ start ++ take k bad_gateway → Partly w

  -- Whatever is saved of the request keeps the cache genuine.
  pub record Savable (f : Flow) : Type 0 where
    pub saved : (pick : ℕ) → IsGenuine origin (save_partial pick f).assets

  -- What one attempt leaves behind.
  abbrev pub Went : Outcome × Flow → Type 0
  Went (fwd_done, f) =
      ((h : Text) × H h × (f.client.written ≡ start ++ (h ++ body))) × IsGenuine origin f.assets
  Went (fwd_retry, f) =
      Collects f
      ⊎ ((h : Text) × H h × Tracks origin body (start ++ h) f × Shows origin body (start ++ h) f)
  Went (fwd_abort, f) = Savable f × Partly f.client.written

  pub Partly-header : {w : Text} (h : Text) (k : ℕ) → H h → w ≡ start ++ take k h → Partly w
  Partly-header h k hh w = of_answer h (min k (length h)) hh (
      w
      ∙ ap (λ x. start ++ take k x) (sym (take-append h body))
      ∙ ap (◌++◌ start) (take-take k (length h) (h ++ body)))

  pub Partly-body : {w : Text} (h : Text) (k : ℕ) → H h → w ≡ (start ++ h) ++ take k body → Partly w
  Partly-body h k hh w =
      of_answer h (length h + k) hh
        (w ∙ append_assoc start h _ ∙ ap (◌++◌ start) (append-take k h body))

  pub Savable-blank : {f : Flow} → IsGenuine origin f.assets → f.st.header ≡ [] → Savable f
  unfolding save_partial is_empty
  Savable-blank g e = record { saved = λ pick. ground arith }

  pub Savable-no_key : {f : Flow} → IsGenuine origin f.assets → f.st.cache_key ≡ [] → Savable f
  unfolding save_partial is_empty
  Savable-no_key g e = record { saved = λ pick. ground arith }

  -- io.Copy of the rest of a body: all of it on a clean end, part of it otherwise.
  copy_rest-Partly :
      (base : Text) (c : Client) (p : ℕ) (cs : List Chunk)
      → Feeds body p cs
      → p ≤ length body
      → c.written ≡ base ++ take p body
      → ((copy_rest c cs).1 ≡ true → (copy_rest c cs).0.written ≡ base ++ body)
        × ((k : ℕ) × ((copy_rest c cs).0.written ≡ base ++ take k body))
  unfolding copy_rest
  copy_rest-Partly base c p [] fd le w = (λ q. absurd (ground arith), (p, w))
  copy_rest-Partly base c p (x ∷ cs) fd le w = elim (Bool-cases (next.1)) [
    | inr failed ↦ rw (failed, copy_rest) (λ q. absurd (ground arith), cut)
    | inl ok ↦
        rw (ok, copy_rest)
          (elim (Option-cases x.err) [
            | inl e ↦
                rw (e, copy_rest)
                  (copy_rest-Partly base next.0 (p + length x.bytes) cs fd.3 fd.1 (all ok))
            | inr (unexpected_eof, e) ↦ rw (e, copy_rest) (λ q. absurd (ground arith), cut)
            | inr (timeout, e) ↦ rw (e, copy_rest) (λ q. absurd (ground arith), cut)
            | inr (other, e) ↦ rw (e, copy_rest) (λ q. absurd (ground arith), cut)
            | inr (eof, e) ↦
                rw (e, copy_rest)
                  (
                    λ q.
                        all ok
                        ∙ ap (λ y. base ++ y)
                            (take_all (p + length x.bytes) body (omega (arith, fd.2 e))),
                    cut,
                  )
          ])
  ]
    where
      next : Client × Bool
      next = if is_empty x.bytes then (c, true) else write c x.bytes

      p_same : length x.bytes ≡ 0 → p ≡ p + length x.bytes
      p_same q = omega arith

      piece : take p body ++ x.bytes ≡ take (p + length x.bytes) body
      piece = splice_piece body x.bytes p 0 p fd.0 (omega arith)

      written :
          ((write c x.bytes).1 ≡ true
            → (write c x.bytes).0.written ≡ base ++ take (p + length x.bytes) body)
          × ((m : ℕ) × ((write c x.bytes).0.written ≡ base ++ take m body))
      written = write_piece body base c x.bytes p (p + length x.bytes) w piece

      all : next.1 ≡ true → next.0.written ≡ base ++ take (p + length x.bytes) body
      all ok = elim (Bool-cases (is_empty x.bytes)) [
        | inl e ↦ rw e (w ∙ ap (λ n. base ++ take n body) (p_same (length_of_empty x.bytes e)))
        | inr e ↦ rw e (written.0 (rw e at ok))
      ]

      cut : (k : ℕ) × (next.0.written ≡ base ++ take k body)
      cut = elim (Bool-cases (is_empty x.bytes)) [
        | inl e ↦ (p, rw e w)
        | inr e ↦ (written.1.0, rw e written.1.1)
      ]

  module _ (http : HttpText) (resp : Response)
      (blocks : (h : Text) → BlockOf http resp h → H h) where
    finished-IsGenuine :
        (f : Flow) (client : Client) (status : ℕ) (hdr : Text)
        → Collects f
        → IsGenuine origin (finished f client status hdr body).assets
    unfolding finished commit_asset_cache is_empty
    finished-IsGenuine f client status hdr c = elim c.key [
      | inl e ↦ ground (arith, c.genuine)
      | inr e ↦ ground (
        arith,
        c.genuine,
        put-IsGenuine origin f.assets f.st.cache_key
            (record {
              header = normalize_cached_header hdr (length body);
              body = body;
              close = false;
            })
            (sym e) c.genuine,
      )
    ]

    finished-written :
        (f : Flow) (client : Client) (status : ℕ) (hdr b : Text)
        → (finished f client status hdr b).client.written ≡ client.written
    unfolding finished commit_asset_cache
    finished-written f client status hdr b = ground arith

    pending_all :
        (f : Flow) → Collects f → length f.st.pending ≡ length body → buffered_body f.st ≡ body
    unfolding buffered_body
    pending_all f c full = elim c.states [
      | inl e ↦ rw (e, buffered_body) whole
      | inr e ↦ rw (e, buffered_body) (ground (arith, whole, full))
    ]
      where
        whole : f.st.pending ≡ body
        whole = c.held ∙ take_all (length f.st.pending) body (omega arith)

    -- The whole body is pending: it goes out behind one header block.
    pub finish_buffered-Went :
        (f : Flow)
        → Collects f
        → length f.st.pending ≡ length body
        → Went (finish_buffered http resp f)
    unfolding finish_buffered
    finish_buffered-Went f c full =
        rw (body_eq, finish_buffered)
          (elim (Bool-cases ((write f.client hdr).1)) [
            | inr failed ↦
                let (k, cut) = write_some f.client hdr in
                rw (failed, finish_buffered)
                  (
                    Savable-blank c.genuine c.blank,
                    Partly-header hdr k is_block (cut ∙ ap (λ w. w ++ take k hdr) c.untouched),
                  )
            | inl ok1 ↦
                let headed = write_all f.client hdr ok1 ∙ ap (λ w. w ++ hdr) c.untouched in
                rw (ok1, finish_buffered)
                  (elim (Bool-cases ((write c1 body).1)) [
                    | inr failed ↦
                        let (k, cut) = write_some c1 body in
                        rw (failed, finish_buffered)
                          (
                            Savable-blank c.genuine c.blank,
                            Partly-body hdr k is_block (cut ∙ ap (λ w. w ++ take k body) headed),
                          )
                    | inl ok2 ↦
                        rw (ok2, finish_buffered)
                          (
                            (
                              hdr,
                              is_block,
                              finished-written f _ status hdr body
                                  ∙ write_all c1 body ok2
                                  ∙ ap (λ w. w ++ body) headed
                                  ∙ append_assoc start hdr body,
                            ),
                            finished-IsGenuine f _ status hdr c,
                          )
                  ])
          ])
      where
        body_eq : buffered_body f.st ≡ body
        body_eq = pending_all f c full

        status : ℕ
        status = if resp.status_code == 206 then 200 else resp.status_code

        hdr : Text
        hdr = buffered_header http resp status (length body)

        c1 : Client
        c1 = (write f.client hdr).0

        is_block : H hdr
        is_block = blocks hdr (inr (inr (status, length body, refl)))

    -- The part that is pending, an overflowing chunk and what follows it go out behind one header.
    pub overflow-Went :
        (f : Flow) (chunk : Text) (q : ℕ) (rest : List Chunk)
        → Collects f
        → f.st.pending ++ chunk ≡ take q body
        → q ≤ length body
        → Feeds body q rest
        → Went (stream_overflow_buffered http resp f chunk rest)
    unfolding stream_overflow_buffered
    overflow-Went f chunk q rest c pieces le fd = elim (Bool-cases ((write f.client hdr).1)) [
      | inr failed ↦
          let (k, cut) = write_some f.client hdr in
          rw (failed, stream_overflow_buffered)
            (
              Savable-no_key c.genuine refl,
              Partly-header hdr k is_block (cut ∙ ap (λ w. w ++ take k hdr) c.untouched),
            )
      | inl ok1 ↦
          let w1 = write_all f.client hdr ok1 ∙ ap (λ w. w ++ hdr) c.untouched in
          let (all2, (m2, cut2)) =
            write_piece body (start ++ hdr) c1 f.st.pending 0 (length f.st.pending)
              (w1 ∙ sym (append-nil _)) c.held in
          rw (ok1, stream_overflow_buffered)
            (elim (Bool-cases ((write c1 f.st.pending).1)) [
              | inr failed ↦
                  rw (failed, stream_overflow_buffered)
                    (Savable-no_key c.genuine refl, Partly-body hdr m2 is_block cut2)
              | inl ok2 ↦
                  let (all3, (m3, cut3)) =
                    write_piece body (start ++ hdr) c2 chunk (length f.st.pending) q (all2 ok2)
                      (ap (λ x. x ++ chunk) (sym c.held) ∙ pieces) in
                  rw (ok2, stream_overflow_buffered)
                    (elim (Bool-cases ((write c2 chunk).1)) [
                      | inr failed ↦
                          rw (failed, stream_overflow_buffered)
                            (Savable-no_key c.genuine refl, Partly-body hdr m3 is_block cut3)
                      | inl ok3 ↦
                          let (clean, (m, cut)) =
                            copy_rest-Partly (start ++ hdr) (write c2 chunk).0 q rest fd le
                              (all3 ok3) in
                          rw (ok3, stream_overflow_buffered)
                            (elim (Bool-cases ((copy_rest (write c2 chunk).0 rest).1)) [
                              | inl e ↦ rw e (
                                (hdr, is_block, clean e ∙ append_assoc start hdr body),
                                c.genuine,
                              )
                              | inr e ↦
                                  rw e
                                    (Savable-no_key c.genuine refl, Partly-body hdr m is_block cut)
                            ])
                    ])
            ])
    ]
      where
        hdr : Text
        hdr = forward_header http resp true

        c1 : Client
        c1 = (write f.client hdr).0

        c2 : Client
        c2 = (write c1 f.st.pending).0

        is_block : H hdr
        is_block = blocks hdr (inl refl)
