-- ===== src/Forward/Attempts.antt =====
-- forwardOnce of web/internal/corplink/proxy_http.go, against an origin that serves one
-- representation: an attempt resumes where the ones before it stopped.
use fu_corplink.Common.{
  ℕ, ◌+◌, ◌≡◌, refl, Bool, true, false, Option, none, some, [], ◌∷◌, ◌++◌, arith, Text, length,
  take, ◌⊎◌, inl, inr, Bool-cases, ◌||◌, subst, sym, ap, ◌∙◌, is_empty, append_assoc, append-nil,
  codes, has_prefix, has_prefix_split,
}
use fu_corplink.Common.Decimal.{itoa, itoa_unique}
use fu_corplink.Forward.Wire.{Client, write, Response, HttpText, forward_header}
use fu_corplink.Forward.State.{ForwardState, Outcome, fwd_done, fwd_retry, fwd_abort, Flow}
use fu_corplink.Forward.Body.{relay_forward_body, forward_buffered}
use fu_corplink.Forward.Once.{
  learn_total, is_bodiless, opened, send_header, known_total, with_total, answer, deliver,
}
use fu_corplink.Forward.Writes.{write_all, write_some}
use fu_corplink.Forward.Origin.{States, IsFull, IsPart, Feeds, BlockOf}
use fu_corplink.Forward.Relay.{
  save_partial-IsGenuine, Tracks, Shows, Delivered, relay_forward_body-Delivered,
}
use fu_corplink.Forward.Buffered.{Collects, Went, Savable-blank, Partly-header, Partly-body}
use fu_corplink.Forward.Collect.{forward_buffered-Went}

-- A 206 that passes the test of its Content-Range starts where the request stopped.
pub offset_checked :
    (body : Text) (offset : ℕ) (resp : Response) (part : IsPart body resp)
    → has_prefix resp.content_range (codes "bytes " ++ (itoa offset ++ codes "-")) ≡ true
    → part.offset ≡ offset
offset_checked body offset resp part h =
    let (t, e) = has_prefix_split resp.content_range _ h in
    itoa_unique part.offset offset b'-' part.behind t refl (
      drop_bytes (itoa part.offset ++ b'-' ∷ part.behind) (itoa offset ++ b'-' ∷ t)
        (sym part.content_range ∙ e ∙ regroup (codes "bytes ") (itoa offset) t))
  where
    regroup : (a b t : Text) → (a ++ (b ++ codes "-")) ++ t ≡ a ++ (b ++ b'-' ∷ t)
    regroup a b t = append_assoc a (b ++ codes "-") t ∙ ap (◌++◌ a) (append_assoc b (codes "-") t)

    drop_bytes : (x y : Text) → codes "bytes " ++ x ≡ codes "bytes " ++ y → x ≡ y
    drop_bytes x y q = cc

pub learned :
    (body : Text) (total : Option ℕ) (cr : Text)
    → States body total
    → States body (learn_total none cr)
    → States body (learn_total total cr)
unfolding learn_total
learned body total cr (inl e) s = rw e s
learned body total cr (inr e) s = inr (rw e)

pub deliver_sent :
    (http : HttpText) (is_head : Bool) (resp : Response) (f : Flow) (buffering : Bool) (skip : ℕ)
    → f.st.header_sent ≡ true
    → deliver http is_head resp f buffering skip ≡ relay_forward_body f skip resp.body
unfolding deliver
deliver_sent http is_head resp f buffering skip e = ground (arith, e)

deliver_unsent :
    (http : HttpText) (is_head : Bool) (resp : Response) (f : Flow) (buffering : Bool) (skip : ℕ)
    → f.st.header_sent ≡ false
    → deliver http is_head resp f buffering skip
      ≡ answer http resp (with_total f (known_total is_head resp f.st buffering)) buffering skip
unfolding deliver
deliver_unsent http is_head resp f buffering skip e = ground (arith, e)

or_true : (b : Bool) → (b || true) ≡ true
or_true b = ground arith

answer_buffering :
    (http : HttpText) (resp : Response) (f : Flow) (skip : ℕ)
    → answer http resp (with_total f (known_total false resp f.st true)) true skip
      ≡ forward_buffered http resp (with_total f f.st.total) skip resp.body
unfolding answer known_total with_total forward_buffered
answer_buffering http resp f skip =
    rw (or_true (elim f.st.total [ none ↦ true | some n ↦ false ])) refl

module _ (origin : Text → Text) (body start : Text) (H : Text → Type 0) (http : HttpText) where
  -- Between attempts: nothing is sent, or the header block and the first part of the body.
  abbrev pub Between : Flow → Type 0
  Between f =
      Collects origin body start H f
      ⊎ ((h : Text) × H h × Tracks origin body (start ++ h) f × Shows origin body (start ++ h) f)

  pub delivered :
      (h : Text) (r : Outcome × Flow)
      → H h
      → Delivered origin body (start ++ h) r
      → Went origin body start H r
  delivered h (fwd_done, f) hh (w, g) = ((h, hh, w ∙ append_assoc start h body), g)
  delivered h (fwd_retry, f) hh (t, s) = inr (h, hh, t, s)
  delivered h (fwd_abort, f) hh (t, (k, w)) = (
    record { saved = λ pick. save_partial-IsGenuine origin body (start ++ h) pick f t },
    Partly-body origin body start H h k hh w,
  )

  opened-Tracks :
      (resp : Response) (hdr h : Text) (f : Flow) (client : Client)
      → Collects origin body start H f
      → f.st.total ≡ some (length body)
      → Tracks origin body h
          (record f { st = opened (record f.st { close_after = false }) resp hdr; client = client })
  unfolding opened
  opened-Tracks resp hdr h f client c total = record {
    sent = ground arith;
    within = ground (arith, c.nothing);
    total = ground (arith, total);
    captured = elim c.key [
      | inl e ↦ inl (unfold is_empty in ground (arith, e))
      | inr e ↦ captured_by e
    ];
    genuine = c.genuine;
  }
    where
      next : ForwardState
      next = opened (record f.st { close_after = false }) resp hdr

      captured_by :
          origin f.st.cache_key ≡ body
          → (next.cache_key ≡ [])
            ⊎ ((origin next.cache_key ≡ body) × (next.buf ≡ take next.relayed body))
      captured_by e = ground (arith, c.nothing, c.unbuffered)

  module _ (resp : Response) (blocks : (h : Text) → BlockOf http resp h → H h) where
    send_header-Went :
        (f : Flow)
        → Collects origin body start H f
        → f.st.pending ≡ []
        → f.st.total ≡ some (length body)
        → IsFull body resp
        → Went origin body start H (send_header http resp f 0)
    unfolding send_header
    send_header-Went f c empty total full = elim (Bool-cases ((write f.client hdr).1)) [
      | inr failed ↦
          let (k, cut) = write_some f.client hdr in
          rw (failed, send_header)
            (
              Savable-blank origin body start H c.genuine c.blank,
              Partly-header origin body start H hdr k is_block
                  (cut ∙ ap (λ w. w ++ take k hdr) c.untouched),
            )
      | inl ok ↦
          rw (ok, send_header)
            (delivered hdr _ is_block (
              relay_forward_body-Delivered origin body (start ++ hdr) next 0 0 resp.body tracks
                (shows ok) position full.feeds))
    ]
      where
        hdr : Text
        hdr = forward_header http resp false

        is_block : H hdr
        is_block = blocks hdr (inr (inl refl))

        st : ForwardState
        st = record f.st { close_after = false }

        next : Flow
        next = record f { st = opened st resp hdr; client = (write f.client hdr).0 }

        relayed_eq : (opened st resp hdr).relayed ≡ 0
        relayed_eq = unfold opened in ground (arith, c.nothing)

        position : 0 + 0 ≡ next.st.relayed
        position = omega (arith, relayed_eq)

        tracks : Tracks origin body (start ++ hdr) next
        tracks = opened-Tracks resp hdr (start ++ hdr) f (write f.client hdr).0 c total

        shows : (write f.client hdr).1 ≡ true → Shows origin body (start ++ hdr) next
        shows ok =
            write_all f.client hdr ok
            ∙ ap (λ w. w ++ hdr) c.untouched
            ∙ sym (append-nil _)
            ∙ ap (λ n. (start ++ hdr) ++ take n body) (sym relayed_eq)

    full_total :
        (f : Flow) → IsFull body resp → known_total false resp f.st false ≡ resp.content_length
    unfolding known_total is_bodiless
    full_total f full = rw full.status

    with_total-Collects :
        (f : Flow) (total : Option ℕ)
        → States body total
        → Collects origin body start H f
        → Collects origin body start H (with_total f total)
    unfolding with_total
    with_total-Collects f total s c = record {
      unsent = c.unsent;
      nothing = c.nothing;
      held = c.held;
      within = c.within;
      states = s;
      key = c.key;
      blank = c.blank;
      unbuffered = c.unbuffered;
      untouched = c.untouched;
      genuine = c.genuine;
    }

    -- the first answer to a request, under either length
    first_answer :
        (f : Flow) (total : Option ℕ)
        → States body total
        → Collects origin body start H f
        → f.st.pending ≡ []
        → IsFull body resp
        → Went origin body start H (answer http resp (with_total f total) false 0)
    unfolding answer with_total
    first_answer f none s c empty full =
        forward_buffered-Went origin body start H http resp blocks (with_total f none) 0 0 resp.body
          (with_total-Collects f none s c) (sym (ap length empty)) full.feeds
    first_answer f (some n) s c empty full =
        send_header-Went (with_total f (some n)) (with_total-Collects f (some n) s c) empty
          (ground (arith, s)) full

    pub first-Went :
        (f : Flow)
        → Collects origin body start H f
        → f.st.pending ≡ []
        → IsFull body resp
        → Went origin body start H (deliver http false resp f false 0)
    unfolding deliver
    first-Went f c empty full =
        subst (Went origin body start H) (sym (deliver_unsent http false resp f false 0 c.unsent)) (
          subst (λ total. Went origin body start H (answer http resp (with_total f total) false 0))
            (sym (full_total f full))
            (first_answer f resp.content_length full.content_length c empty full))

    -- an answer to a request that has bytes pending
    pub more_answer :
        (f : Flow) (skip p : ℕ)
        → Collects origin body start H f
        → p + skip ≡ length f.st.pending
        → Feeds body p resp.body
        → Went origin body start H (deliver http false resp f true skip)
    more_answer f skip p c e fd =
        subst (Went origin body start H)
          (sym (
            deliver_unsent http false resp f true skip c.unsent
            ∙ answer_buffering http resp f skip))
          (forward_buffered-Went origin body start H http resp blocks (with_total f f.st.total) skip
            p resp.body (with_total-Collects f f.st.total c.states c) (unfold with_total in e) fd)
