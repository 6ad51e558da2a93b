-- ===== src/Manager/Lifecycle.antt =====
-- Connect, Disconnect, Logout, refreshTunnelKicked and reconnect of web/internal/vpnmgr/connect.go
-- and admin.go. Each of them gives up the mutex in the middle. What one lock does is a definition by
-- itself, so that other operations can come between (Manager.Sections); the definitions named like
-- the methods compose them with nothing in between.
use fu_corplink.Common.{
  ℕ, ◌+◌, Bool, true, false, not, ◌||◌, ◌&&◌, Option, none, some, List, [], ◌∷◌, if◌then◌else◌, ltb,
  ◌==◌, codes, ◌++◌,
}
use fu_corplink.Manager.State.{
  ConnState, logged_out, logged_in, connecting, connected, disconnecting, Failure, Built, Build,
  failed, built, Listening, refused, listening, Manager, set_state, teardown, close_device,
}

-- buildTunnel, on what the service and the device answer
unfoldable pub build_tunnel : Build → Manager → Manager
unfolding set_state
build_tunnel (failed e) m = if e.session_lost then set_state logged_out e.message m else m
build_tunnel (built b) m = m

-- the last lock of connectReal: the tunnel becomes the current one
unfoldable pub commit : ℕ → Built → ℕ → Manager → Manager
commit now b proxy m = record m {
  device = some b.device;
  proxy = some proxy;
  since = some now;
  cur_id = b.node_id;
  cur_name = b.node_name;
  cur_address = b.address;
  tunnel_since = now;
  state = connected;
  last_err = [];
  loops = true;
}

-- connectReal: the error that it returns, and the state
unfoldable pub connect_real : ℕ → Build → Listening → Manager → Option Failure × Manager
unfolding build_tunnel commit
connect_real now (failed e) l m = (some e, build_tunnel (failed e) m)
connect_real now (built b) (refused e) m = (some e, close_device b.device m)
connect_real now (built b) (listening p) m = (none, commit now b p m)

unfoldable pub is_active : ConnState → Bool
is_active logged_out = false
is_active logged_in = false
is_active connecting = true
is_active connected = true
is_active disconnecting = false

-- Connect up to the unlock; `none` is the error "already connected"
unfoldable pub connect_begin : ℕ → Manager → Option Manager
connect_begin server_id m =
    if is_active m.state
    then none
    else some (record m {
      state = connecting;
      last_err = [];
      vpn_server_id = if server_id == 0 then m.vpn_server_id else server_id;
    })

-- Connect behind the unlock
unfoldable pub connect_end : ℕ → Build → Listening → Manager → Manager
connect_end now b l m =
    let r = connect_real now b l m in
    elim r.0 [ none ↦ r.1 | some e ↦ teardown (set_state logged_in e.message r.1) ]

unfoldable pub connect : ℕ → ℕ → Build → Listening → Manager → Manager
unfolding connect_end
connect now server_id b l m = elim (connect_begin server_id m) [
  | none ↦ m
  | some m' ↦ connect_end now b l m'
]

-- Disconnect up to its first unlock; `none` where there is nothing to disconnect
unfoldable pub disconnect_begin : Manager → Option Manager
unfolding is_active
disconnect_begin m = if is_active m.state then some (record m { state = disconnecting }) else none

-- Disconnect with nothing between its locks: the first, those of teardown and of setState
unfoldable pub disconnect : Manager → Manager
unfolding disconnect_begin
disconnect m = elim (disconnect_begin m) [
  | none ↦ m
  | some m' ↦ set_state logged_in [] (teardown m')
]

-- the last lock of Logout, behind teardown and the call of the service
unfoldable pub logout_end : Manager → Manager
logout_end m = record m { state = logged_out; cur_id = 0; cur_name = []; last_err = [] }

-- Logout with nothing between its locks
unfoldable pub logout : Manager → Manager
unfolding logout_end
logout m = logout_end (teardown m)

-- one round of buildLiveTunnel: what is built, and whether the probe of the data path passes
pub record Candidate : Type 0 where
  pub tunnel : Build
  pub alive : Bool

-- buildLiveTunnel over its attempts: a build error ends it, a dead tunnel is closed
unfoldable pub build_live_tunnel : List Candidate → Manager → Option Built × Manager
unfolding build_tunnel
build_live_tunnel [] m = (none, m)
build_live_tunnel (c ∷ cs) m = elim c.tunnel [
  | failed e ↦ (none, build_tunnel (failed e) m)
  | built b ↦ if c.alive then (some b, m) else build_live_tunnel cs (close_device b.device m)
]

-- what a refresh remembers across its unlocks
pub record Refreshing : Type 0 where
  pub proxy : ℕ
  pub old_device : ℕ

abbrev pub min_refresh_interval : ℕ
min_refresh_interval = 8

abbrev pub min_kick_refresh_interval : ℕ
min_kick_refresh_interval = 2

unfoldable pub is_connected : ConnState → Bool
is_connected logged_out = false
is_connected logged_in = false
is_connected connecting = false
is_connected connected = true
is_connected disconnecting = false

-- refreshTunnelKicked up to the build; `none` where it returns early
unfoldable pub refresh_begin : ℕ → Bool → Manager → Option Refreshing
refresh_begin now kicked m =
    let interval : ℕ = if kicked then min_kick_refresh_interval else min_refresh_interval in
    elim m.proxy [
      | none ↦ none
      | some p ↦ elim m.device [
        | none ↦ none
        | some d ↦
            if not (is_connected m.state) || ltb now (m.last_refresh_at + interval)
            then none
            else some (record { proxy = p; old_device = d })
      ]
    ]

-- m.proxy == proxy
unfoldable pub same_proxy : Option ℕ → ℕ → Bool
same_proxy none p = false
same_proxy (some q) p = q == p

-- the last lock of refreshTunnelKicked: the swap, unless another operation raced it
unfoldable pub refresh_end : ℕ → Refreshing → Built → Manager → Manager
refresh_end now r b m =
    if is_connected m.state && same_proxy m.proxy r.proxy
    then record m {
      device = some b.device;
      cur_id = b.node_id;
      cur_name = b.node_name;
      cur_address = b.address;
      tunnel_since = now;
      last_refresh_at = now;
      draining = r.old_device ∷ m.draining;
    }
    else close_device b.device m

-- refreshTunnelKicked with nothing in between
unfoldable pub refresh : ℕ → Bool → List Candidate → Manager → Manager
unfolding build_live_tunnel
refresh now kicked cs m = elim (refresh_begin now kicked m) [
  | none ↦ m
  | some r ↦
      let found = build_live_tunnel cs m in
      elim found.0 [ none ↦ found.1 | some b ↦ refresh_end now r b found.1 ]
]

-- a try of reconnect: what connectReal meets
pub record Try : Type 0 where
  pub now : ℕ
  pub tunnel : Build
  pub listener : Listening

-- retryReconnect: the tries that are made, and the last error
unfoldable pub retry_reconnect : List Try → Option Failure → Manager → Option Failure × Manager
retry_reconnect [] last m = (last, m)
retry_reconnect (t ∷ ts) last m =
    let r = connect_real t.now t.tunnel t.listener m in
    elim r.0 [
      | none ↦ (none, r.1)
      | some e ↦ if e.session_lost then (some e, r.1) else retry_reconnect ts (some e) r.1
    ]

-- reconnect up to its first unlock; `none` where another operation raced it
unfoldable pub reconnect_begin : Manager → Option Manager
unfolding is_connected
reconnect_begin m = if is_connected m.state then some (record m { state = connecting }) else none

-- reconnect behind its first unlock, with nothing between the locks of teardown and of the tries
unfoldable pub reconnect_end : List Try → Manager → Manager
unfolding retry_reconnect
reconnect_end ts m =
    let r = retry_reconnect ts none (teardown m) in
    elim r.0 [
      | none ↦ r.1
      | some e ↦ teardown (set_state logged_in (codes "reconnect failed: " ++ e.message) r.1)
    ]

-- reconnect with nothing between its locks
unfoldable pub reconnect : List Try → Manager → Manager
unfolding reconnect_begin reconnect_end
reconnect ts m = elim (reconnect_begin m) [ none ↦ m | some m' ↦ reconnect_end ts m' ]
