-- ===== src/Forward/Collect.antt =====
-- The loop of forwardBuffered in web/internal/corplink/proxy_http.go, against an origin that serves
-- one representation.
use fu_corplink.Common.{
  ℕ, ◌+◌, ◌-◌, ◌≡◌, ◌≤◌, ◌<◌, refl, true, false, some, List, [], ◌∷◌, ◌++◌, arith, Text, length,
  take, drop, inl, inr, Bool-cases, Option-cases, ltb, leb, leb→le, ◌&&◌, subst, sym, ap, ◌∙◌,
  length-drop, length-append, is_empty, append-nil, not,
}
use fu_corplink.Forward.Wire.{
  Chunk, ReadError, unexpected_eof, eof, timeout, other, Response, HttpText,
}
use fu_corplink.Forward.State.{Flow, reached}
use fu_corplink.Forward.Body.{
  finish_buffered, end_buffered, pushed_back, forward_buffered, forward_buffered_max,
}
use fu_corplink.Forward.Pieces.{splice_piece}
use fu_corplink.Forward.Origin.{Feeds, BlockOf}
use fu_corplink.Forward.Buffered.{
  Collects, Went, of_gateway, Savable-blank, finish_buffered-Went, overflow-Went,
}

positive : (s : Text) → is_empty s ≡ false → 0 < length s
unfolding is_empty
positive [] h = absurd (ground arith)
positive (c ∷ s) h = omega arith

-- what follows an overflowing chunk, its own read error included, feeds the rest of the body
Feeds-pushed_back :
    (body : Text) (p q : ℕ) (x : Chunk) (cs : List Chunk)
    → q ≡ p + length x.bytes
    → Feeds body p (x ∷ cs)
    → Feeds body q (pushed_back x.err cs)
Feeds-pushed_back body p q x cs e fd = elim (Option-cases x.err) [
  | inl n ↦ rw n (subst (λ a. Feeds body a cs) (sym e) fd.3)
  | inr (y, n) ↦ rw n (refl, omega (arith, fd.1), λ h. omega (arith, fd.2 (n ∙ h)), tt)
]

module _ (origin : Text → Text) (body start : Text) (H : Text → Type 0) (http : HttpText)
    (resp : Response) (blocks : (h : Text) → BlockOf http resp h → H h) where
  Collects-full :
      (f : Flow)
      → Collects origin body start H f
      → reached f.st.total (length f.st.pending) ≡ true
      → length f.st.pending ≡ length body
  Collects-full f c full = elim c.states [
    | inl e ↦ absurd (ground arith)
    | inr e ↦ omega (arith, c.within, leb→le _ _ (rw e at full))
  ]

  finish :
      (f : Flow)
      → Collects origin body start H f
      → length f.st.pending ≡ length body
      → Went origin body start H (finish_buffered http resp f)
  finish = finish_buffered-Went origin body start H http resp blocks

  end_buffered-Went :
      (f : Flow) (e : ReadError)
      → Collects origin body start H f
      → (some e ≡ some eof → length f.st.pending ≡ length body)
      → Went origin body start H (end_buffered http resp f e)
  unfolding end_buffered
  end_buffered-Went f unexpected_eof c at_end = inl c
  end_buffered-Went f timeout c at_end = inl c
  end_buffered-Went f other c at_end = (
    Savable-blank origin body start H c.genuine c.blank,
    of_gateway 0 (c.untouched ∙ sym (append-nil start)),
  )
  end_buffered-Went f eof c at_end = elim c.states [
    | inl e ↦ rw (e, end_buffered) (finish f c (at_end refl))
    | inr e ↦
        rw (e, end_buffered)
          (elim (Bool-cases (leb (length body) (length f.st.pending))) [
            | inl full ↦ rw full (finish f c (at_end refl))
            | inr short ↦ rw short (inl c)
          ])
  ]

  grown :
      (f : Flow) (chunk : Text)
      → Collects origin body start H f
      → length f.st.pending + length chunk ≤ length body
      → f.st.pending ++ chunk ≡ take (length f.st.pending + length chunk) body
      → Collects origin body start H
          (record f { st = record f.st { pending = f.st.pending ++ chunk } })
  grown f chunk c le e = record {
    unsent = c.unsent;
    nothing = c.nothing;
    held = e ∙ ap (λ n. take n body) (sym (length-append f.st.pending chunk));
    within = rw (length-append f.st.pending chunk) le;
    states = c.states;
    key = c.key;
    blank = c.blank;
    unbuffered = c.unbuffered;
    untouched = c.untouched;
    genuine = c.genuine;
  }

  -- A body of unknown length, collected behind the bytes pending from a source that starts `skip`
  -- bytes before their end, ends with the representation behind one header block, or leaves a state
  -- between attempts, or ends with a first part of that.
  pub forward_buffered-Went :
      (f : Flow) (skip p : ℕ) (cs : List Chunk)
      → Collects origin body start H f
      → p + skip ≡ length f.st.pending
      → Feeds body p cs
      → Went origin body start H (forward_buffered http resp f skip cs)
  unfolding forward_buffered
  forward_buffered-Went f skip p [] c e fd =
      elim (Bool-cases (reached f.st.total (length f.st.pending))) [
        | inl full ↦ rw full (finish f c (Collects-full f c full))
        | inr short ↦ rw short (inl c)
      ]
  forward_buffered-Went f skip p (x ∷ cs) c e fd =
      elim (Bool-cases (reached f.st.total (length f.st.pending))) [
        | inl full ↦ rw (full, forward_buffered) (finish f c (Collects-full f c full))
        | inr short ↦
            rw (short, forward_buffered)
              (elim (Bool-cases (
                ltb forward_buffered_max (length f.st.pending + length chunk)
                && not (is_empty chunk))) [
                  | inl over ↦
                      rw (over, forward_buffered)
                        (overflow-Went origin body start H http resp blocks f chunk
                          (length f.st.pending + length chunk) (pushed_back x.err cs) c piece bound
                          (feeds_back over))
                  | inr fits ↦
                      rw (fits, forward_buffered)
                        (elim (Option-cases x.err) [
                          | inl err ↦
                              rw (err, forward_buffered)
                                (forward_buffered-Went next (skip - length x.bytes)
                                  (p + length x.bytes) cs more
                                  (omega (
                                    arith,
                                    length-append f.st.pending chunk,
                                    length-drop skip x.bytes,
                                    e,
                                  ))
                                  fd.3)
                          | inr (y, err) ↦
                              rw (err, forward_buffered)
                                (end_buffered-Went next y more (λ q. omega (
                                  arith,
                                  length-append f.st.pending chunk,
                                  length-drop skip x.bytes,
                                  e,
                                  c.within,
                                  fd.2 (err ∙ q),
                                )))
                        ])
                ])
      ]
    where
      chunk : Text
      chunk = drop skip x.bytes

      next : Flow
      next = record f { st = record f.st { pending = f.st.pending ++ chunk } }

      piece : f.st.pending ++ chunk ≡ take (length f.st.pending + length chunk) body
      piece =
          ap (λ y. y ++ chunk) c.held
          ∙ splice_piece body x.bytes p skip (length f.st.pending) fd.0 e

      bound : length f.st.pending + length chunk ≤ length body
      bound = omega (arith, length-drop skip x.bytes, e, fd.1, c.within)

      feeds_back :
          (ltb forward_buffered_max (length f.st.pending + length chunk) && not (is_empty chunk))
            ≡ true
          → Feeds body (length f.st.pending + length chunk) (pushed_back x.err cs)
      feeds_back over =
          Feeds-pushed_back body p (length f.st.pending + length chunk) x cs
            (omega (arith, length-drop skip x.bytes, e, positive chunk (ground arith))) fd

      more : Collects origin body start H next
      more = grown f chunk c (omega (arith, length-drop skip x.bytes, e, fd.1, c.within)) piece
