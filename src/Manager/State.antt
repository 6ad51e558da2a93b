-- ===== src/Manager/State.antt =====
-- The state of Manager in web/internal/vpnmgr/manager.go, and what its operations meet outside: the
-- tunnels that buildTunnel brings up and the listeners that the proxy opens.
use fu_corplink.Common.{ℕ, Bool, false, Option, none, some, Text, List, ◌∷◌}

pub data ConnState : Type 0 where
  logged_out logged_in connecting connected disconnecting : ConnState

-- an error; `session_lost` is what corplink.IsLoggedOut answers
pub record Failure : Type 0 where
  pub session_lost : Bool
  pub message : Text

-- a device that is up, with the node and the address it has
pub record Built : Type 0 where
  pub device : ℕ
  pub node_id : ℕ
  pub node_name : Text
  pub address : Text

pub data Build : Type 0 where
  failed : Failure → Build
  built : Built → Build

-- proxy.ListenAndServe of a new proxy
pub data Listening : Type 0 where
  refused : Failure → Listening
  listening : ℕ → Listening

-- The fields that the operations change. Times are seconds, and `none` is the zero time; `closed` is
-- the log of the devices that were closed, `draining` those that a refresh retires.
pub record Manager : Type 0 where
  pub state : ConnState
  pub last_err : Text
  pub device : Option ℕ
  pub proxy : Option ℕ
  pub since : Option ℕ
  pub cur_id : ℕ
  pub cur_name : Text
  pub cur_address : Text
  pub loops : Bool
  pub tunnel_since : ℕ
  pub last_refresh_at : ℕ
  pub vpn_server_id : ℕ
  pub draining : List ℕ
  pub closed : List ℕ

unfoldable pub set_state : ConnState → Text → Manager → Manager
set_state s err m = record m { state = s; last_err = err }

-- SetLoggedIn
unfoldable pub set_logged_in : Manager → Manager
set_logged_in m = elim m.state [
  | logged_out ↦ record m { state = logged_in }
  | logged_in ↦ m
  | connecting ↦ m
  | connected ↦ m
  | disconnecting ↦ m
]

abbrev pub close_device : ℕ → Manager → Manager
close_device d m = record m { closed = d ∷ m.closed }

-- teardown
unfoldable pub teardown : Manager → Manager
teardown m =
    let cleared = record m { device = none; proxy = none; since = none; loops = false } in
    elim m.device [ none ↦ cleared | some d ↦ close_device d cleared ]
