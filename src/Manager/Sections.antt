-- ===== src/Manager/Sections.antt =====
-- What web/internal/vpnmgr does while it holds the mutex of Manager once: the sections that the
-- operations of connect.go and admin.go are made of. Operations run in goroutines of their own, so
-- a run is a list of sections in any order.
use fu_corplink.Common.{
  ℕ, ◌≡◌, refl, Option, none, some, Text, List, [], ◌∷◌, is_some, arith, Bool-cases, Option-cases,
  inl, inr,
}
use fu_corplink.Manager.State.{
  ConnState, logged_out, logged_in, connecting, connected, disconnecting, Failure, Built, failed,
  Manager, set_state, set_logged_in, teardown, close_device,
}
use fu_corplink.Manager.Lifecycle.{
  build_tunnel, commit, is_active, connect_begin, disconnect_begin, logout_end, Refreshing,
  is_connected, same_proxy, refresh_end, reconnect_begin,
}

-- setState, the end of buildTunnel where it fails, the last lock of connectReal (commits) and of
-- refreshTunnelKicked (refresh_ends), teardown, and the first locks and the last ones of the others;
-- `closes` is the closing of a device that no field of the manager holds
pub data Section : Type 0 where
  sets_state : ConnState → Text → Section
  logs_in : Section
  connect_begins : ℕ → Section
  build_fails : Failure → Section
  closes : ℕ → Section
  commits : ℕ → Built → ℕ → Section
  disconnect_begins : Section
  tears_down : Section
  logout_ends : Section
  reconnect_begins : Section
  refresh_ends : ℕ → Refreshing → Built → Section

-- where the first lock of an operation ends it, nothing changes
unfoldable pub or_same : Option Manager → Manager → Manager
or_same none m = m
or_same (some m') m = m'

unfoldable pub enter : Manager → Section → Manager
unfolding or_same
enter m (sets_state s err) = set_state s err m
enter m logs_in = set_logged_in m
enter m (connect_begins id) = or_same (connect_begin id m) m
enter m (build_fails e) = build_tunnel (failed e) m
enter m (closes d) = close_device d m
enter m (commits now b p) = commit now b p m
enter m disconnect_begins = or_same (disconnect_begin m) m
enter m tears_down = teardown m
enter m logout_ends = logout_end m
enter m reconnect_begins = or_same (reconnect_begin m) m
enter m (refresh_ends now r b) = refresh_end now r b m

unfoldable pub interleave : Manager → List Section → Manager
unfolding enter
interleave m [] = m
interleave m (s ∷ ss) = interleave (enter m s) ss

-- the tunnel, the proxy and the background loops are up all together, or none of them is
abbrev pub Together : Manager → Type 0
Together m = (is_some m.device ≡ is_some m.proxy) × (m.loops ≡ is_some m.proxy)

-- only the state and what it reports differ
abbrev SameUp : Manager → Manager → Type 0
SameUp m m' = (m'.device ≡ m.device) × (m'.proxy ≡ m.proxy) × (m'.loops ≡ m.loops)

SameUp-Together : (m m' : Manager) → SameUp m m' → Together m → Together m'
SameUp-Together m m' (d, p, l) h = rw (d, p, l) h

teardown-Together : (m : Manager) → Together (teardown m)
unfolding teardown
teardown-Together m = elim (Option-cases m.device) [
  | inl e ↦ rw (e, teardown) (refl, refl)
  | inr (d, e) ↦ rw (e, teardown) (refl, refl)
]

set_logged_in-SameUp : (m : Manager) → SameUp m (set_logged_in m)
unfolding set_logged_in
set_logged_in-SameUp m = by_state m.state refl
  where
    by_state : (s : ConnState) → m.state ≡ s → SameUp m (set_logged_in m)
    by_state logged_out e = rw (e, set_logged_in) (refl, refl, refl)
    by_state logged_in e = rw (e, set_logged_in) (refl, refl, refl)
    by_state connecting e = rw (e, set_logged_in) (refl, refl, refl)
    by_state connected e = rw (e, set_logged_in) (refl, refl, refl)
    by_state disconnecting e = rw (e, set_logged_in) (refl, refl, refl)

connect_begin-SameUp : (id : ℕ) (m : Manager) → SameUp m (or_same (connect_begin id m) m)
unfolding connect_begin or_same
connect_begin-SameUp id m = elim (Bool-cases (is_active m.state)) [
  | inl e ↦ rw (e, connect_begin) (refl, refl, refl)
  | inr e ↦ rw (e, connect_begin) (refl, refl, refl)
]

disconnect_begin-SameUp : (m : Manager) → SameUp m (or_same (disconnect_begin m) m)
unfolding disconnect_begin or_same
disconnect_begin-SameUp m = elim (Bool-cases (is_active m.state)) [
  | inl e ↦ rw (e, disconnect_begin) (refl, refl, refl)
  | inr e ↦ rw (e, disconnect_begin) (refl, refl, refl)
]

reconnect_begin-SameUp : (m : Manager) → SameUp m (or_same (reconnect_begin m) m)
unfolding reconnect_begin or_same
reconnect_begin-SameUp m = elim (Bool-cases (is_connected m.state)) [
  | inl e ↦ rw (e, reconnect_begin) (refl, refl, refl)
  | inr e ↦ rw (e, reconnect_begin) (refl, refl, refl)
]

build_fails-SameUp : (e : Failure) (m : Manager) → SameUp m (build_tunnel (failed e) m)
unfolding build_tunnel set_state
build_fails-SameUp e m = elim (Bool-cases e.session_lost) [
  | inl q ↦ rw (q, build_tunnel) (refl, refl, refl)
  | inr q ↦ rw (q, build_tunnel) (refl, refl, refl)
]

refresh_end-Together :
    (now : ℕ) (r : Refreshing) (b : Built) (m : Manager)
    → Together m
    → Together (refresh_end now r b m)
unfolding refresh_end same_proxy
refresh_end-Together now r b m h = elim (Option-cases m.proxy) [
  | inl e ↦ ground (arith, h, e)
  | inr (p, e) ↦ ground (arith, h, e)
]

enter-Together : (s : Section) (m : Manager) → Together m → Together (enter m s)
unfolding enter set_state commit logout_end
enter-Together (sets_state s err) m h = h
enter-Together logs_in m h = SameUp-Together m (enter m logs_in) (set_logged_in-SameUp m) h
enter-Together (connect_begins id) m h =
    SameUp-Together m (enter m (connect_begins id)) (connect_begin-SameUp id m) h
enter-Together (build_fails e) m h =
    SameUp-Together m (enter m (build_fails e)) (build_fails-SameUp e m) h
enter-Together (closes d) m h = h
enter-Together (commits now b p) m h = (refl, refl)
enter-Together disconnect_begins m h =
    SameUp-Together m (enter m disconnect_begins) (disconnect_begin-SameUp m) h
enter-Together tears_down m h = teardown-Together m
enter-Together logout_ends m h = h
enter-Together reconnect_begins m h =
    SameUp-Together m (enter m reconnect_begins) (reconnect_begin-SameUp m) h
enter-Together (refresh_ends now r b) m h = refresh_end-Together now r b m h

-- However the locked sections of Connect, Disconnect, Logout, the background refresh, reconnect and
-- teardown interleave, and whatever they build, from a manager whose tunnel, proxy and background
-- loops are up together or not at all they are up together or not at all.
pub interleave-Together :
    (ss : List Section) (m : Manager) → Together m → Together (interleave m ss)
unfolding interleave
interleave-Together [] m h = h
interleave-Together (s ∷ ss) m h = interleave-Together ss (enter m s) (enter-Together s m h)
