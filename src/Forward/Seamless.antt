-- ===== src/Forward/Seamless.antt =====
-- The loop over attempts of web/internal/corplink/proxy_http.go, against an origin that serves one
-- representation: the client sees one answer, however often the tunnel stalled under it.
use fu_corplink.Common.{
  ℕ, zero, suc, ◌+◌, ◌≡◌, refl, Bool, true, false, Option, some, ◌++◌, arith, Text, length, ◌⊎◌,
  inl, inr, ltb, leb, subst, sym, ap, ◌∙◌, not, take_all,
}
use fu_corplink.Tunnel.Kicks.{Tunnel}
use fu_corplink.Forward.Wire.{Client, Response, HttpText}
use fu_corplink.Forward.State.{Outcome, fwd_done, fwd_retry, fwd_abort, Flow, save_partial}
use fu_corplink.Forward.Once.{range_header, dial_failed, forward_once}
use fu_corplink.Forward.Request.{
  Round, give_up, after_stall, Served, served, attempts, progress, forward_resume_attempts,
}
use fu_corplink.Forward.Origin.{Answers, IsGenuine, BlockOf}
use fu_corplink.Forward.Buffered.{Went, Savable, Partly, of_answer}
use fu_corplink.Forward.Attempts.{Between}
use fu_corplink.Forward.Resume.{forward_once-Went, dial_failed-Went}

save_partial-client : (pick : ℕ) (f : Flow) → (save_partial pick f).client ≡ f.client
unfolding save_partial
save_partial-client pick f = ground arith

no_retry : (f : Flow) → dial_failed false f ≡ (fwd_abort, give_up f)
unfolding dial_failed give_up
no_retry f = ground arith

module _ (origin : Text → Text) (body start : Text) (H : Text → Type 0) (http : HttpText) where
  -- How a request ends: a connection that is kept has the whole representation, behind one header
  -- block; any other has a first part of that, or of the proxy's 502; the cache stays genuine.
  pub record Ended (r : Served) : Type 0 where
    pub whole :
        (r.keep ≡ false) ⊎ ((h : Text) × H h × (r.flow.client.written ≡ start ++ (h ++ body)))
    pub partly : Partly origin body start H r.flow.client.written
    pub genuine : IsGenuine origin r.flow.assets

  given_up :
      (f : Flow)
      → Between origin body start H http f
      → Savable origin body start H (give_up f)
        × Partly origin body start H (give_up f).client.written
  given_up f b =
      subst (Went origin body start H) (no_retry f)
        (dial_failed-Went origin body start H http false f b)

  give_up-IsGenuine :
      (f : Flow) → Between origin body start H http f → IsGenuine origin (give_up f).assets
  unfolding give_up
  give_up-IsGenuine f (inl c) = ground (arith, c.genuine)
  give_up-IsGenuine f (inr (h, hh, t, s)) = ground (arith, t.genuine)

  Ended-saved :
      (pick : ℕ) (f : Flow) (t : Tunnel)
      → Savable origin body start H f × Partly origin body start H f.client.written
      → Ended (served false (save_partial pick f) t)
  Ended-saved pick f t (s, p) = record {
    whole = inl refl;
    partly =
        subst (λ (c : Client). Partly origin body start H c.written)
          (sym (save_partial-client pick f)) p;
    genuine = s.saved pick;
  }

  Ended-done :
      (keep : Bool) (f : Flow) (t : Tunnel)
      → Went origin body start H (fwd_done, f)
      → Ended (served keep f t)
  Ended-done keep f t ((h, hh, w), g) = record {
    whole = inr (h, hh, w);
    partly =
        of_answer h (length (h ++ body)) hh
          (w ∙ ap (◌++◌ start) (sym (take_all _ (h ++ body) (omega arith))));
    genuine = g;
  }

  module _ (can_retry : Bool) (world : ℕ → Option Text → Round)
      (honest : (i : ℕ) (range : Option Text) (resp : Response)
        → (world i range).attempt.response ≡ some resp
        → Answers body range resp × ((h : Text) → BlockOf http resp h → H h)) where
    -- what follows an attempt that asks for another
    on_retry :
        (can gained spent : Bool) (pick : ℕ) (f : Flow) (t : Tunnel) (anew on : Served)
        → Between origin body start H http f
        → Ended anew
        → Ended on
        → Ended (elim can [
          | false ↦ served false (give_up f) t
          | true ↦ elim gained [
            | true ↦ anew
            | false ↦ elim spent [
              | true ↦ served false (save_partial pick (give_up f)) t
              | false ↦ on
            ]
          ]
        ])
    on_retry false gained spent pick f t anew on b h1 h2 = record {
      whole = inl refl;
      partly = (given_up f b).1;
      genuine = give_up-IsGenuine f b;
    }
    on_retry true true spent pick f t anew on b h1 h2 = h1
    on_retry true false true pick f t anew on b h1 h2 =
        Ended-saved pick (give_up f) t (given_up f b)
    on_retry true false false pick f t anew on b h1 h2 = h2

    -- The loop ends one request as it should, from any state between attempts.
    pub attempts-Ended :
        (left fruitless : ℕ) (f : Flow) (t : Tunnel)
        → Between origin body start H http f
        → Ended (attempts http false can_retry world left fruitless f t)
    unfolding attempts
    attempts-Ended zero fruitless f t b = Ended-saved _ (give_up f) t (given_up f b)
    attempts-Ended (suc left) fruitless f t b =
        by_outcome (attempts-Ended left) (forward_once http false r.attempt f) (
          forward_once-Went origin body start H http r.attempt f b
            (honest (suc left) (range_header f.st)))
      where
        r : Round
        r = world (suc left) (range_header f.st)

        next : ℕ → Flow → Served
        next fruitless' f' =
            attempts http false can_retry world left fruitless' f' (after_stall r t.gen f' t)

        by_outcome :
            ((fruitless' : ℕ) (f' : Flow) (t' : Tunnel)
              → Between origin body start H http f'
              → Ended (attempts http false can_retry world left fruitless' f' t'))
            → (x : Outcome × Flow) → Went origin body start H x
            → Ended (elim x.0 [
              | fwd_done ↦ served (not x.1.st.close_after) x.1 t
              | fwd_abort ↦ served false (save_partial r.pick x.1) t
              | fwd_retry ↦ elim can_retry [
                | false ↦ served false (give_up x.1) t
                | true ↦ elim (ltb (progress f.st) (progress x.1.st)) [
                  | true ↦ next 0 x.1
                  | false ↦ elim (leb forward_resume_attempts (fruitless + 1)) [
                    | true ↦ served false (save_partial r.pick (give_up x.1)) t
                    | false ↦ next (fruitless + 1) x.1
                  ]
                ]
              ]
            ])
        by_outcome ih (fwd_done, f') w = Ended-done _ f' t w
        by_outcome ih (fwd_abort, f') w = Ended-saved _ f' t w
        by_outcome ih (fwd_retry, f') w =
            on_retry can_retry _ _ r.pick f' t _ _ w (ih 0 f' _ w) (ih (fruitless + 1) f' _ w)
