-- ===== src/Manager/Coherence.antt =====
-- What the operations of web/internal/vpnmgr keep where none overlaps another, but for the two
-- halves of Connect: the connection state says whether a tunnel and a proxy are up.
use fu_corplink.Common.{
  ℕ, ◌≡◌, refl, ◌∙◌, Bool, true, false, Option, none, some, List, [], ◌∷◌, ◌++◌, arith, Bool-cases,
  Option-cases, inl, inr, codes,
}
use fu_corplink.Manager.State.{
  ConnState, logged_out, logged_in, connecting, connected, disconnecting, Failure, Built, Build,
  failed, built, Listening, refused, listening, Manager, set_state, set_logged_in, teardown,
  close_device,
}
use fu_corplink.Manager.Lifecycle.{
  build_tunnel, commit, connect_real, is_active, connect_begin, connect_end, disconnect, logout,
  Candidate, build_live_tunnel, Refreshing, is_connected, refresh_begin, refresh_end, refresh, Try,
  retry_reconnect, reconnect_begin, reconnect_end, reconnect,
}
use fu_corplink.Manager.Events.{
  coherent, Event, login, connect_starts, connect_ends, disconnects, logs_out, refreshes,
  reconnects, step, run, keeps_session, KeepsSession, AllKeep,
}

teardown-coherent : (m : Manager) → is_connected m.state ≡ false → coherent (teardown m) ≡ true
unfolding coherent teardown
teardown-coherent m h = elim (Option-cases m.device) [
  | inl e ↦ ground (arith, h, e)
  | inr (d, e) ↦ ground (arith, h, e)
]

connect_end-coherent :
    (now : ℕ) (b : Build) (l : Listening) (m : Manager) → coherent (connect_end now b l m) ≡ true
unfolding connect_end connect_real set_state is_connected coherent commit
connect_end-coherent now (failed e) l m =
    teardown-coherent (set_state logged_in e.message (build_tunnel (failed e) m)) refl
connect_end-coherent now (built b) (refused e) m =
    teardown-coherent (set_state logged_in e.message (close_device b.device m)) refl
connect_end-coherent now (built b) (listening p) m = refl

connect_starts-coherent :
    (id : ℕ) (m : Manager) → coherent m ≡ true → coherent (step m (connect_starts id)) ≡ true
unfolding step connect_begin coherent is_active is_connected
connect_starts-coherent id m h = by_state m.state refl
  where
    by_state : (s : ConnState) → m.state ≡ s → coherent (step m (connect_starts id)) ≡ true
    by_state logged_out e = ground (arith, h, e)
    by_state logged_in e = ground (arith, h, e)
    by_state connecting e = ground (arith, h, e)
    by_state connected e = ground (arith, h, e)
    by_state disconnecting e = ground (arith, h, e)

login-coherent : (m : Manager) → coherent m ≡ true → coherent (set_logged_in m) ≡ true
unfolding set_logged_in coherent is_connected
login-coherent m h = by_state m.state refl
  where
    by_state : (s : ConnState) → m.state ≡ s → coherent (set_logged_in m) ≡ true
    by_state logged_out e = ground (arith, h, e)
    by_state logged_in e = ground (arith, h, e)
    by_state connecting e = ground (arith, h, e)
    by_state connected e = ground (arith, h, e)
    by_state disconnecting e = ground (arith, h, e)

disconnect-coherent : (m : Manager) → coherent m ≡ true → coherent (disconnect m) ≡ true
unfolding disconnect coherent is_connected set_state teardown
disconnect-coherent m h = elim (Bool-cases (is_active m.state)) [
  | inr e ↦ ground (arith, h, e)
  | inl e ↦ elim (Option-cases m.device) [
    | inl e' ↦ ground (arith, e, e')
    | inr (d, e') ↦ ground (arith, e, e')
  ]
]

logout-coherent : (m : Manager) → coherent (logout m) ≡ true
unfolding logout coherent is_connected teardown
logout-coherent m = elim (Option-cases m.device) [
  | inl e ↦ ground (arith, e)
  | inr (d, e) ↦ ground (arith, e)
]

-- the part of the state that coherence speaks of
abbrev SameShape : Manager → Manager → Type 0
SameShape m m' =
    (m.state ≡ m'.state) × (m.device ≡ m'.device) × (m.proxy ≡ m'.proxy) × (m.loops ≡ m'.loops)

shape-coherent : (m m' : Manager) → SameShape m m' → coherent m ≡ coherent m'
unfolding coherent
shape-coherent m m' (a, b, c, d) = rw (a, b, c, d) refl

build_live_tunnel-SameShape :
    (cs : List Candidate) (m : Manager)
    → keeps_session cs ≡ true
    → SameShape (build_live_tunnel cs m).1 m
unfolding build_live_tunnel keeps_session build_tunnel set_state
build_live_tunnel-SameShape [] m h = (refl, refl, refl, refl)
build_live_tunnel-SameShape (c ∷ cs) m h =
    by_build (λ m'. build_live_tunnel-SameShape cs m') c.tunnel refl
  where
    by_build :
        ((m' : Manager) → keeps_session cs ≡ true → SameShape (build_live_tunnel cs m').1 m')
        → (b : Build) → c.tunnel ≡ b
        → SameShape (build_live_tunnel (c ∷ cs) m).1 m
    by_build ih (failed e) q = ground (arith, q, h)
    by_build ih (built b) q = ground (arith, q, h, ih (close_device b.device m))

refresh_begin_connected :
    (now : ℕ) (kicked : Bool) (m : Manager) (r : Refreshing)
    → refresh_begin now kicked m ≡ some r
    → is_connected m.state ≡ true
unfolding refresh_begin
refresh_begin_connected now kicked m r h = ground (arith, h)

refresh_end-coherent :
    (now : ℕ) (r : Refreshing) (b : Built) (m : Manager)
    → coherent m ≡ true
    → coherent (refresh_end now r b m) ≡ true
unfolding refresh_end coherent
refresh_end-coherent now r b m h = ground (arith, h)

refresh-coherent :
    (now : ℕ) (kicked : Bool) (cs : List Candidate) (m : Manager)
    → keeps_session cs ≡ true
    → coherent m ≡ true
    → coherent (refresh now kicked cs m) ≡ true
unfolding refresh
refresh-coherent now kicked cs m k h = elim (Option-cases (refresh_begin now kicked m)) [
  | inl e ↦ rw (e, refresh) h
  | inr (r, e) ↦
      let same = shape-coherent _ _ (build_live_tunnel-SameShape cs m k) ∙ h in
      elim (Option-cases ((build_live_tunnel cs m).0)) [
        | inl e' ↦ rw (e, e', refresh) same
        | inr (b, e') ↦
            rw (e, e', refresh) (refresh_end-coherent now r b (build_live_tunnel cs m).1 same)
      ]
]

connect_real_ok :
    (now : ℕ) (b : Build) (l : Listening) (m : Manager)
    → (connect_real now b l m).0 ≡ none
    → coherent (connect_real now b l m).1 ≡ true
unfolding connect_real commit coherent is_connected
connect_real_ok now (failed e) l m h = absurd (ground (arith, h))
connect_real_ok now (built b) (refused e) m h = absurd (ground (arith, h))
connect_real_ok now (built b) (listening p) m h = refl

connect_real_transient :
    (now : ℕ) (b : Build) (l : Listening) (m : Manager) (e : Failure)
    → coherent m ≡ true
    → (connect_real now b l m).0 ≡ some e
    → e.session_lost ≡ false
    → coherent (connect_real now b l m).1 ≡ true
unfolding connect_real build_tunnel coherent
connect_real_transient now (failed f) l m e c h t = ground (arith, c, h, t)
connect_real_transient now (built b) (refused f) m e c h t = c
connect_real_transient now (built b) (listening p) m e c h t = absurd (ground (arith, h))

retry_reconnect-coherent :
    (ts : List Try) (last : Option Failure) (m : Manager)
    → coherent m ≡ true
    → (retry_reconnect ts last m).0 ≡ none
    → coherent (retry_reconnect ts last m).1 ≡ true
unfolding retry_reconnect
retry_reconnect-coherent [] last m h = λ e. h
retry_reconnect-coherent (t ∷ ts) last m h =
    elim (Option-cases ((connect_real t.now t.tunnel t.listener m).0)) [
      | inl q ↦ rw (q, retry_reconnect) (λ e. connect_real_ok t.now t.tunnel t.listener m q)
      | inr (f, q) ↦ elim (Bool-cases f.session_lost) [
        | inl lost ↦ rw (q, lost, retry_reconnect) (λ e. absurd (ground (arith, e)))
        | inr kept ↦
            simp (q, kept, retry_reconnect)
              (retry_reconnect-coherent ts (some f) (connect_real t.now t.tunnel t.listener m).1
                (connect_real_transient t.now t.tunnel t.listener m f h q kept))
      ]
    ]

reconnect_end-coherent :
    (ts : List Try) (m : Manager)
    → is_connected m.state ≡ false
    → coherent (reconnect_end ts m) ≡ true
unfolding reconnect_end
reconnect_end-coherent ts m h = elim (Option-cases ((retry_reconnect ts none (teardown m)).0)) [
  | inl e ↦
      rw (e, reconnect_end)
        (retry_reconnect-coherent ts none (teardown m) (teardown-coherent m h) e)
  | inr (f, e) ↦
      rw (e, reconnect_end)
        (teardown-coherent
          (set_state logged_in (codes "reconnect failed: " ++ f.message)
            (retry_reconnect ts none (teardown m)).1)
          (unfold set_state in unfold is_connected in refl))
]

reconnect-coherent :
    (ts : List Try) (m : Manager) → coherent m ≡ true → coherent (reconnect ts m) ≡ true
unfolding reconnect reconnect_begin
reconnect-coherent ts m h = elim (Bool-cases (is_connected m.state)) [
  | inr idle ↦ rw (idle, reconnect, reconnect_begin) h
  | inl busy ↦
      rw (busy, reconnect, reconnect_begin)
        (reconnect_end-coherent ts (record m { state = connecting }) (unfold is_connected in refl))
]

step-coherent :
    (e : Event) (m : Manager) → KeepsSession e → coherent m ≡ true → coherent (step m e) ≡ true
unfolding step
step-coherent login m k h = login-coherent m h
step-coherent (connect_starts id) m k h = connect_starts-coherent id m h
step-coherent (connect_ends now b l) m k h = connect_end-coherent now b l m
step-coherent disconnects m k h = disconnect-coherent m h
step-coherent logs_out m k h = logout-coherent m
step-coherent (refreshes now kicked cs) m k h = refresh-coherent now kicked cs m k h
step-coherent (reconnects ts) m k h = reconnect-coherent ts m h

-- In any run of operations that follow one another, each of them over before the next begins, with
-- the two halves of Connect anywhere among them, in which no refresh finds the session lost, a
-- coherent manager stays coherent: a tunnel, a proxy and the background loops are up in the state
-- connected, and none of them in any other state.
run-coherent :
    (es : List Event) (m : Manager) → AllKeep es → coherent m ≡ true → coherent (run m es) ≡ true
unfolding run
run-coherent [] m k h = h
run-coherent (e ∷ es) m k h = run-coherent es (step m e) k.1 (step-coherent e m k.0 h)
