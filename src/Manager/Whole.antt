-- ===== src/Manager/Whole.antt =====
-- The operations of web/internal/vpnmgr, run with nothing in between, as runs of locked sections.
use fu_corplink.Common.{
  ℕ, ◌≡◌, refl, ap, sym, ◌∙◌, Bool, Option, none, some, List, [], ◌∷◌, ◌++◌, Bool-cases,
  Option-cases, inl, inr, codes,
}
use fu_corplink.Manager.State.{
  logged_in, Failure, Build, failed, built, Listening, refused, listening, Manager, teardown,
  close_device,
}
use fu_corplink.Manager.Lifecycle.{
  build_tunnel, connect_real, connect_begin, connect_end, disconnect_begin, disconnect, logout,
  Candidate, build_live_tunnel, refresh_begin, refresh, Try, retry_reconnect, reconnect_begin,
  reconnect_end, reconnect,
}
use fu_corplink.Manager.Events.{
  Event, login, connect_starts, connect_ends, disconnects, logs_out, refreshes, reconnects, step,
}
use fu_corplink.Manager.Sections.{
  Section, sets_state, logs_in, connect_begins, build_fails, closes, commits, disconnect_begins,
  tears_down, logout_ends, reconnect_begins, refresh_ends, or_same, enter, interleave,
}

-- some list of sections leads from one manager to the other
abbrev pub Reaches : Manager → Manager → Type 0
Reaches m m' = (ss : List Section) × (m' ≡ interleave m ss)

stays : (m : Manager) → Reaches m m
unfolding interleave
stays m = ([], refl)

enters : (s : Section) (m : Manager) → Reaches m (enter m s)
unfolding interleave
enters s m = (s ∷ [], refl)

interleave-append :
    (ss ts : List Section) (m : Manager) → interleave m (ss ++ ts) ≡ interleave (interleave m ss) ts
unfolding interleave
interleave-append [] ts m = refl
interleave-append (s ∷ ss) ts m = interleave-append ss ts (enter m s)

Reaches-trans : (a b c : Manager) → Reaches a b → Reaches b c → Reaches a c
Reaches-trans a b c (ss, e) (ts, f) =
    (ss ++ ts, f ∙ ap (λ m. interleave m ts) e ∙ sym (interleave-append ss ts a))

closing : (d : ℕ) (m : Manager) → Reaches m (close_device d m)
unfolding enter
closing d m = enters (closes d) m

tearing : (m : Manager) → Reaches m (teardown m)
unfolding enter
tearing m = enters tears_down m

failing : (e : Failure) (m : Manager) → Reaches m (build_tunnel (failed e) m)
unfolding enter
failing e m = enters (build_fails e) m

connect_end-Reaches :
    (now : ℕ) (b : Build) (l : Listening) (m : Manager) → Reaches m (connect_end now b l m)
unfolding connect_end connect_real enter interleave
connect_end-Reaches now (failed e) l m =
    (build_fails e ∷ sets_state logged_in e.message ∷ tears_down ∷ [], refl)
connect_end-Reaches now (built b) (refused e) m =
    (closes b.device ∷ sets_state logged_in e.message ∷ tears_down ∷ [], refl)
connect_end-Reaches now (built b) (listening p) m = (commits now b p ∷ [], refl)

connect_starts-Reaches : (id : ℕ) (m : Manager) → Reaches m (step m (connect_starts id))
unfolding step enter or_same interleave
connect_starts-Reaches id m = elim (Option-cases (connect_begin id m)) [
  | inl e ↦ rw (e, step) (stays m)
  | inr (m', e) ↦ rw (e, step) (connect_begins id ∷ [], rw (e, enter) refl)
]

disconnect-Reaches : (m : Manager) → Reaches m (disconnect m)
unfolding disconnect enter or_same interleave
disconnect-Reaches m = elim (Option-cases (disconnect_begin m)) [
  | inl e ↦ rw (e, disconnect) (stays m)
  | inr (m', e) ↦
      rw (e, disconnect)
        (disconnect_begins ∷ tears_down ∷ sets_state logged_in [] ∷ [], rw (e, enter) refl)
]

logout-Reaches : (m : Manager) → Reaches m (logout m)
unfolding logout enter interleave
logout-Reaches m = (tears_down ∷ logout_ends ∷ [], refl)

build_live_tunnel-Reaches :
    (cs : List Candidate) (m : Manager) → Reaches m (build_live_tunnel cs m).1
unfolding build_live_tunnel
build_live_tunnel-Reaches [] m = stays m
build_live_tunnel-Reaches (c ∷ cs) m =
    by_build (λ m'. build_live_tunnel-Reaches cs m') c.tunnel refl
  where
    by_build :
        ((m' : Manager) → Reaches m' (build_live_tunnel cs m').1)
        → (b : Build) → c.tunnel ≡ b
        → Reaches m (build_live_tunnel (c ∷ cs) m).1
    by_build ih (failed e) q = rw (q, build_live_tunnel) (failing e m)
    by_build ih (built b) q = elim (Bool-cases c.alive) [
      | inl v ↦ rw (q, v, build_live_tunnel) (stays m)
      | inr v ↦
          rw (q, v, build_live_tunnel)
            (Reaches-trans m (close_device b.device m) _ (closing b.device m)
              (ih (close_device b.device m)))
    ]

refresh-Reaches :
    (now : ℕ) (kicked : Bool) (cs : List Candidate) (m : Manager)
    → Reaches m (refresh now kicked cs m)
unfolding refresh enter
refresh-Reaches now kicked cs m = elim (Option-cases (refresh_begin now kicked m)) [
  | inl e ↦ rw (e, refresh) (stays m)
  | inr (r, e) ↦ elim (Option-cases ((build_live_tunnel cs m).0)) [
    | inl e' ↦ rw (e, e', refresh) (build_live_tunnel-Reaches cs m)
    | inr (b, e') ↦
        rw (e, e', refresh)
          (Reaches-trans m (build_live_tunnel cs m).1 _ (build_live_tunnel-Reaches cs m)
            (enters (refresh_ends now r b) (build_live_tunnel cs m).1))
  ]
]

connect_real-Reaches :
    (now : ℕ) (b : Build) (l : Listening) (m : Manager) → Reaches m (connect_real now b l m).1
unfolding connect_real enter
connect_real-Reaches now (failed e) l m = failing e m
connect_real-Reaches now (built b) (refused e) m = closing b.device m
connect_real-Reaches now (built b) (listening p) m = enters (commits now b p) m

retry_reconnect-Reaches :
    (ts : List Try) (last : Option Failure) (m : Manager) → Reaches m (retry_reconnect ts last m).1
unfolding retry_reconnect
retry_reconnect-Reaches [] last m = stays m
retry_reconnect-Reaches (t ∷ ts) last m =
    let tried = connect_real-Reaches t.now t.tunnel t.listener m in
    elim (Option-cases ((connect_real t.now t.tunnel t.listener m).0)) [
      | inl q ↦ rw (q, retry_reconnect) tried
      | inr (f, q) ↦ elim (Bool-cases f.session_lost) [
        | inl lost ↦ rw (q, lost, retry_reconnect) tried
        | inr kept ↦
            simp (q, kept, retry_reconnect)
              (Reaches-trans m (connect_real t.now t.tunnel t.listener m).1 _ tried
                (retry_reconnect-Reaches ts (some f) (connect_real t.now t.tunnel t.listener m).1))
      ]
    ]

reconnect_end-Reaches : (ts : List Try) (m : Manager) → Reaches m (reconnect_end ts m)
unfolding reconnect_end enter interleave
reconnect_end-Reaches ts m =
    let tried : Reaches m (retry_reconnect ts none (teardown m)).1 =
      Reaches-trans m (teardown m) _ (tearing m) (retry_reconnect-Reaches ts none (teardown m)) in
    elim (Option-cases ((retry_reconnect ts none (teardown m)).0)) [
      | inl e ↦ rw (e, reconnect_end) tried
      | inr (f, e) ↦
          rw (e, reconnect_end)
            (Reaches-trans m (retry_reconnect ts none (teardown m)).1 _ tried (
              sets_state logged_in (codes "reconnect failed: " ++ f.message) ∷ tears_down ∷ [],
              refl,
            ))
    ]

reconnect-Reaches : (ts : List Try) (m : Manager) → Reaches m (reconnect ts m)
unfolding reconnect enter or_same interleave
reconnect-Reaches ts m = elim (Option-cases (reconnect_begin m)) [
  | inl e ↦ rw (e, reconnect) (stays m)
  | inr (m', e) ↦
      rw (e, reconnect)
        (Reaches-trans m m' _ (reconnect_begins ∷ [], rw (e, enter) refl)
          (reconnect_end-Reaches ts m'))
]

-- Each operation, run with nothing in between, is a run of locked sections, so what is kept by any
-- interleaving of sections is kept by any run of operations too.
pub step-Reaches : (e : Event) (m : Manager) → Reaches m (step m e)
unfolding step enter
step-Reaches login m = enters logs_in m
step-Reaches (connect_starts id) m = connect_starts-Reaches id m
step-Reaches (connect_ends now b l) m = connect_end-Reaches now b l m
step-Reaches disconnects m = disconnect-Reaches m
step-Reaches logs_out m = logout-Reaches m
step-Reaches (refreshes now kicked cs) m = refresh-Reaches now kicked cs m
step-Reaches (reconnects ts) m = reconnect-Reaches ts m
