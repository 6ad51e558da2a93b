-- ===== src/Manager/Events.antt =====
-- Runs of whole operations of web/internal/vpnmgr, none of which begins before another is over, but
-- for the two halves of Connect.
use fu_corplink.Common.{
  ℕ, ◌≡◌, Bool, true, not, ◌||◌, ◌&&◌, none, some, List, [], ◌∷◌, if◌then◌else◌, is_some,
}
use fu_corplink.Manager.State.{Build, failed, built, Listening, Manager, set_logged_in}
use fu_corplink.Manager.Lifecycle.{
  connect_begin, connect_end, disconnect, logout, Candidate, is_connected, refresh, Try, reconnect,
}

-- a tunnel, a proxy and the loops are up in the state connected, and in no other
unfoldable pub coherent : Manager → Bool
unfolding is_connected
coherent m =
    if is_connected m.state
    then is_some m.device && is_some m.proxy && m.loops
    else not (is_some m.device || is_some m.proxy || m.loops)

-- the operations, and the two halves of Connect by themselves
pub data Event : Type 0 where
  login : Event
  connect_starts : ℕ → Event
  connect_ends : ℕ → Build → Listening → Event
  disconnects : Event
  logs_out : Event
  refreshes : ℕ → Bool → List Candidate → Event
  reconnects : List Try → Event

unfoldable pub step : Manager → Event → Manager
step m login = set_logged_in m
step m (connect_starts id) = elim (connect_begin id m) [ none ↦ m | some m' ↦ m' ]
step m (connect_ends now b l) = connect_end now b l m
step m disconnects = disconnect m
step m logs_out = logout m
step m (refreshes now kicked cs) = refresh now kicked cs m
step m (reconnects ts) = reconnect ts m

unfoldable pub run : Manager → List Event → Manager
unfolding step
run m [] = m
run m (e ∷ es) = run (step m e) es

-- no build of a refresh finds the session lost
unfoldable pub keeps_session : List Candidate → Bool
keeps_session [] = true
keeps_session (c ∷ cs) = elim c.tunnel [
  | failed e ↦ not e.session_lost && keeps_session cs
  | built b ↦ keeps_session cs
]

abbrev pub KeepsSession : Event → Type 0
KeepsSession login = Unit {0}
KeepsSession (connect_starts id) = Unit {0}
KeepsSession (connect_ends now b l) = Unit {0}
KeepsSession disconnects = Unit {0}
KeepsSession logs_out = Unit {0}
KeepsSession (refreshes now kicked cs) = keeps_session cs ≡ true
KeepsSession (reconnects ts) = Unit {0}

abbrev pub AllKeep : List Event → Type 0
AllKeep [] = Unit {0}
AllKeep (e ∷ es) = KeepsSession e × AllKeep es
