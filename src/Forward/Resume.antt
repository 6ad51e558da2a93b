-- ===== src/Forward/Resume.antt =====
-- forwardOnce of web/internal/corplink/proxy_http.go as a whole, against an origin that serves one
-- representation: every outcome of an attempt, from every state between attempts.
use fu_corplink.Common.{
  ℕ, ◌+◌, ◌≡◌, refl, Bool, true, false, Option, none, some, [], ◌++◌, arith, Text, length, take,
  inl, inr, Bool-cases, Option-cases, subst, sym, ap, ◌∙◌, is_empty, append-nil, not, codes,
  has_prefix,
}
use fu_corplink.Common.Decimal.{itoa}
use fu_corplink.Forward.Wire.{Response, HttpText}
use fu_corplink.Forward.State.{ForwardState, fwd_retry, fwd_abort, Flow}
use fu_corplink.Forward.Once.{
  Dial, Attempt, dialed, refused, timed_out, bad_gateway, resume_offset, range_header, learn_total,
  splice, deliver, forward_response, dial_failed, forward_once,
}
use fu_corplink.Forward.Writes.{write_some}
use fu_corplink.Forward.Origin.{States, IsFull, Answers, Feeds, BlockOf}
use fu_corplink.Forward.Relay.{save_partial-IsGenuine, Tracks, Shows, relay_forward_body-Delivered}
use fu_corplink.Forward.Buffered.{Collects, Went, Savable, of_gateway, Savable-blank, Partly-body}
use fu_corplink.Forward.Attempts.{
  Between, delivered, offset_checked, learned, first-Went, more_answer, deliver_sent,
}

-- What a spliced answer brings: the state but for the total, and a body that is fed from `p` on.
abbrev Spliced : Text → ForwardState → ℕ → Response → ForwardState × ℕ → Type 0
Spliced body st offset resp r =
    (total : Option ℕ) × (p : ℕ) × (r.0 ≡ record st { total = total })
    × States body total
    × (st.total ≡ some (length body) → total ≡ some (length body))
    × (p + r.1 ≡ offset)
    × Feeds body p resp.body

some-inj : {A : Type 0} {a b : A} → some a ≡ some b → a ≡ b
some-inj e = cc

no_some : {A B : Type 0} {a : A} → none ≡ some a → B
no_some q = absurd (ground (arith, q))

known_stays :
    (n : ℕ) (total : Option ℕ) (cr : Text) → total ≡ some n → learn_total total cr ≡ some n
unfolding learn_total
known_stays n total cr e = rw e refl

splice_full :
    (body : Text) (st : ForwardState) (offset : ℕ) (resp : Response)
    → resp.status_code ≡ 200
    → splice st offset resp ≡ some (st, offset)
unfolding splice
splice_full body st offset resp e = rw e refl

splice_part :
    (st : ForwardState) (offset : ℕ) (resp : Response) (r : ForwardState × ℕ)
    → resp.status_code ≡ 206
    → splice st offset resp ≡ some r
    → (has_prefix resp.content_range (codes "bytes " ++ (itoa offset ++ codes "-")) ≡ true)
      × (r ≡ (record st { total = learn_total st.total resp.content_range }, 0))
unfolding splice
splice_part st offset resp r e h =
    elim (Bool-cases
      (has_prefix resp.content_range (codes "bytes " ++ (itoa offset ++ codes "-")))) [
        | inl ok ↦ (ok, sym (some-inj (rw (e, ok) at h)))
        | inr bad ↦ no_some (rw (e, bad) at h)
      ]

spliced :
    (body : Text) (range : Option Text) (st : ForwardState) (offset : ℕ) (resp : Response)
    (r : ForwardState × ℕ)
    → States body st.total
    → Answers body range resp
    → splice st offset resp ≡ some r
    → Spliced body st offset resp r
spliced body range st offset resp r s (inl full) h =
    subst (Spliced body st offset resp)
      (some-inj (sym (splice_full body st offset resp full.status) ∙ h))
      (st.total, 0, refl, s, (λ e. e), omega arith, full.feeds)
spliced body range st offset resp r s (inr (_, part)) h =
    let (ok, e) = splice_part st offset resp r part.status h in
    let at_offset = offset_checked body offset resp part ok in
    subst (Spliced body st offset resp) (sym e) (
      learn_total st.total resp.content_range,
      part.offset,
      refl,
      learned body st.total resp.content_range s part.states,
      known_stays (length body) st.total resp.content_range,
      omega (arith, at_offset),
      part.feeds,
    )

IsFull-without_range :
    (body : Text) (range : Option Text) (resp : Response)
    → range ≡ none
    → Answers body range resp
    → IsFull body resp
IsFull-without_range body range resp e (inl full) = full
IsFull-without_range body range resp e (inr (ne, _)) = absurd (ne e)

no_range : (st : ForwardState) → resume_offset st ≡ none → range_header st ≡ none
unfolding range_header
no_range st e = rw (e, range_header) refl

nothing_pending :
    (st : ForwardState) → st.header_sent ≡ false → resume_offset st ≡ none → st.pending ≡ []
unfolding resume_offset is_empty
nothing_pending st u e = ground (arith, u, e)

nothing_relayed :
    (st : ForwardState) → st.header_sent ≡ true → resume_offset st ≡ none → 0 + 0 ≡ st.relayed
unfolding resume_offset
nothing_relayed st u e = ground (arith, u, e)

pending_offset :
    (st : ForwardState) (n : ℕ)
    → st.header_sent ≡ false
    → resume_offset st ≡ some n
    → length st.pending ≡ n
unfolding resume_offset is_empty
pending_offset st n u e = ground (arith, u, e)

relayed_offset :
    (st : ForwardState) (n : ℕ) → st.header_sent ≡ true → resume_offset st ≡ some n → st.relayed ≡ n
unfolding resume_offset
relayed_offset st n u e = ground (arith, u, e)

module _ (origin : Text → Text) (body start : Text) (H : Text → Type 0) (http : HttpText) where
  saved : (h : Text) (f : Flow) → Tracks origin body (start ++ h) f → Savable origin body start H f
  saved h f t = record { saved = λ pick. save_partial-IsGenuine origin body (start ++ h) pick f t }

  -- A failed dial leaves the request as it was, or ends it with a 502.
  pub dial_failed-Went :
      (retryable : Bool) (f : Flow)
      → Between origin body start H http f
      → Went origin body start H (dial_failed retryable f)
  unfolding dial_failed
  dial_failed-Went retryable f (inr (h, hh, t, s)) =
      simp (t.sent, dial_failed) (saved h f t, Partly-body origin body start H h f.st.relayed hh s)
  dial_failed-Went true f (inl c) = simp (c.unsent, dial_failed) (inl c)
  dial_failed-Went false f (inl c) =
      let (k, cut) = write_some f.client bad_gateway in
      rw (c.unsent, dial_failed)
        (
          Savable-blank origin body start H c.genuine c.blank,
          of_gateway k (cut ∙ ap (λ w. w ++ take k bad_gateway) c.untouched),
        )

  -- An answer that cannot be spliced ends the request with what it has.
  refused-Went :
      (f : Flow) → Between origin body start H http f → Went origin body start H (fwd_abort, f)
  refused-Went f (inl c) = (
    Savable-blank origin body start H c.genuine c.blank,
    of_gateway 0 (c.untouched ∙ sym (append-nil start)),
  )
  refused-Went f (inr (h, hh, t, s)) =
      (saved h f t, Partly-body origin body start H h f.st.relayed hh s)

  module _ (resp : Response) (blocks : (h : Text) → BlockOf http resp h → H h) where
    relayed-Went :
        (h : Text) (f : Flow) (buffering : Bool) (skip p : ℕ)
        → H h
        → Tracks origin body (start ++ h) f
        → Shows origin body (start ++ h) f
        → p + skip ≡ f.st.relayed
        → Feeds body p resp.body
        → Went origin body start H (deliver http false resp f buffering skip)
    relayed-Went h f buffering skip p hh t s e fd =
        subst (Went origin body start H)
          (sym (deliver_sent http false resp f buffering skip t.sent))
          (delivered origin body start H http h _ hh
            (relay_forward_body-Delivered origin body (start ++ h) f skip p resp.body t s e fd))

    first_response :
        (f : Flow)
        → Between origin body start H http f
        → resume_offset f.st ≡ none
        → IsFull body resp
        → Went origin body start H (deliver http false resp f false 0)
    first_response f (inl c) e full =
        first-Went origin body start H http resp blocks f c (nothing_pending f.st c.unsent e) full
    first_response f (inr (h, hh, t, s)) e full =
        relayed-Went h f false 0 0 hh t s (nothing_relayed f.st t.sent e) full.feeds

    retotalled :
        (f : Flow) (total : Option ℕ)
        → States body total
        → Collects origin body start H f
        → Collects origin body start H (record f { st = record f.st { total = total } })
    retotalled f total s c = record {
      unsent = c.unsent;
      nothing = c.nothing;
      held = c.held;
      within = c.within;
      states = s;
      key = c.key;
      blank = c.blank;
      unbuffered = c.unbuffered;
      untouched = c.untouched;
      genuine = c.genuine;
    }

    next_response :
        (f : Flow) (offset : ℕ) (r : ForwardState × ℕ)
        → Between origin body start H http f
        → resume_offset f.st ≡ some offset
        → Spliced body f.st offset resp r
        → Went origin body start H
            (deliver http false resp (record f { st = r.0 }) (not r.0.header_sent) r.1)
    next_response f offset r (inl c) e (total, p, same, s, _, at, fd) =
        subst
          (λ (st : ForwardState).
            Went origin body start H
              (deliver http false resp (record f { st = st }) (not st.header_sent) r.1))
          (sym same)
          (subst
            (λ b. Went origin body start H (
              deliver http false resp (record f { st = record f.st { total = total } }) (not b)
                r.1))
            (sym c.unsent)
            (more_answer origin body start H http resp blocks _ r.1 p (retotalled f total s c)
              (at ∙ sym (pending_offset f.st offset c.unsent e)) fd))
    next_response f offset r (inr (h, hh, t, s)) e (total, p, same, _, known, at, fd) =
        subst
          (λ (st : ForwardState).
            Went origin body start H
              (deliver http false resp (record f { st = st }) (not st.header_sent) r.1))
          (sym same)
          (relayed-Went h (record f { st = record f.st { total = total } }) _ r.1 p hh
            (record {
              sent = t.sent;
              within = t.within;
              total = known t.total;
              captured = t.captured;
              genuine = t.genuine;
            })
            s (at ∙ sym (relayed_offset f.st offset t.sent e)) fd)

    Between-States : (f : Flow) → Between origin body start H http f → States body f.st.total
    Between-States f (inl c) = c.states
    Between-States f (inr (h, hh, t, s)) = inr t.total

    response-Went :
        (f : Flow)
        → Between origin body start H http f
        → Answers body (range_header f.st) resp
        → Went origin body start H (forward_response http false resp f)
    unfolding forward_response
    response-Went f b a = elim (Option-cases (resume_offset f.st)) [
      | inl e ↦
          rw (e, forward_response)
            (first_response f b e (IsFull-without_range body _ resp (no_range f.st e) a))
      | inr (offset, e) ↦ elim (Option-cases (splice f.st offset resp)) [
        | inl e' ↦ rw (e, e', forward_response) (refused-Went f b)
        | inr (r, e') ↦
            rw (e, e', forward_response)
              (next_response f offset r b e
                (spliced body (range_header f.st) f.st offset resp r (Between-States f b) a e'))
      ]
    ]

  -- One attempt: it ends with the representation behind one header block, goes on from a state that
  -- stands between attempts, or ends with a first part of that.
  pub forward_once-Went :
      (a : Attempt) (f : Flow)
      → Between origin body start H http f
      → ((resp : Response)
          → a.response ≡ some resp
          → Answers body (range_header f.st) resp × ((h : Text) → BlockOf http resp h → H h))
      → Went origin body start H (forward_once http false a f)
  unfolding forward_once
  forward_once-Went a f b honest = by_dial a.dial
    where
      answered :
          (r : Option Response)
          → a.response ≡ r
          → Went origin body start H
              (elim r [ none ↦ (fwd_retry, f) | some resp ↦ forward_response http false resp f ])
      answered none e = b
      answered (some resp) e = let (a', blocks) = honest resp e in response-Went resp blocks f b a'

      by_dial :
          (d : Dial)
          → Went origin body start H (elim d [
            | refused ↦ dial_failed false f
            | timed_out ↦ dial_failed true f
            | dialed ↦ elim a.response [
              | none ↦ (fwd_retry, f)
              | some resp ↦ forward_response http false resp f
            ]
          ])
      by_dial refused = dial_failed-Went false f b
      by_dial timed_out = dial_failed-Went true f b
      by_dial dialed = answered a.response refl
