-- ===== src/Manager/Examples.antt =====
-- Runs of the manager of web/internal/vpnmgr.
use fu_corplink.Common.{
  ◌+◌, ◌≡◌, ◌*◌, refl, true, false, some, none, List, [], ◌∷◌, codes, inl, arith,
}
use fu_corplink.Manager.State.{
  logged_out, logged_in, connected, Failure, Built, failed, built, refused, Manager, set_state,
}
use fu_corplink.Manager.Lifecycle.{
  connect, disconnect, Candidate, Refreshing, refresh, refresh_begin, is_active, is_connected,
}
use fu_corplink.Manager.Sections.{
  Section, connect_begins, tears_down, commits, logout_ends, refresh_ends, Together, interleave,
  interleave-Together,
}
use fu_corplink.Manager.Tally.{tally, count, brought}
use fu_corplink.Manager.Ledger.{Replaced, refresh-tally, device_of, Ended, connect-tally}
use fu_corplink.Manager.Races.{refresh_lost}
use fu_corplink.Manager.Health.{ReconnectInputs, reconnect_reason, reconnect_reason_grace, second}

abbrev idle_manager : Manager
idle_manager = record {
  state = logged_in;
  last_err = [];
  device = none;
  proxy = none;
  since = none;
  cur_id = 0;
  cur_name = [];
  cur_address = [];
  loops = false;
  tunnel_since = 0;
  last_refresh_at = 0;
  vpn_server_id = 0;
  draining = [];
  closed = [];
}

abbrev first_tunnel : Built
first_tunnel = record {
  device = 1;
  node_id = 7;
  node_name = codes "sh";
  address = codes "10.0.0.2/24";
}

abbrev second_tunnel : Built
second_tunnel = record {
  device = 2;
  node_id = 7;
  node_name = codes "sh";
  address = codes "10.0.0.3/24";
}

abbrev busy_manager : Manager
busy_manager = record {
  state = connected;
  last_err = [];
  device = some 1;
  proxy = some 1;
  since = some 5;
  cur_id = 7;
  cur_name = codes "sh";
  cur_address = codes "10.0.0.2/24";
  loops = true;
  tunnel_since = 5;
  last_refresh_at = 0;
  vpn_server_id = 0;
  draining = [];
  closed = [];
}

abbrev lost : Failure
lost = record { session_lost = true; message = codes "logged out" }

-- the first candidate is dead on arrival
abbrev candidates : List Candidate
candidates =
    record { tunnel = built first_tunnel; alive = false }
    ∷ record { tunnel = built second_tunnel; alive = true }
    ∷ []

-- Logout tears down while a Connect builds, and sets the state once the Connect has its tunnel up;
-- a refresh that began before ends behind them
abbrev sections : List Section
sections =
    connect_begins 7
    ∷ tears_down
    ∷ commits 5 first_tunnel 1
    ∷ logout_ends
    ∷ refresh_ends 30 (record { proxy = 1; old_device = 1 }) second_tunnel
    ∷ []

interleave-Together_example : Together (interleave idle_manager sections)
interleave-Together_example = interleave-Together sections idle_manager (refl, refl)

abbrev begun : Refreshing
begun = record { proxy = 1; old_device = 1 }

refresh-tally_example :
    (tally 2 (refresh 30 false candidates busy_manager)
      ≡ tally 2 busy_manager + count 2 (brought candidates))
    × Replaced candidates begun busy_manager (refresh 30 false candidates busy_manager)
unfolding refresh_begin is_connected
refresh-tally_example = refresh-tally 2 30 false candidates busy_manager begun refl

connect-tally_example :
    (tally 1 (connect 5 7 (built first_tunnel) (refused lost) idle_manager)
      ≡ tally 1 idle_manager + count 1 (device_of (built first_tunnel)))
    × Ended (built first_tunnel) (connect 5 7 (built first_tunnel) (refused lost) idle_manager)
unfolding is_active
connect-tally_example =
    connect-tally 1 5 7 (built first_tunnel) (refused lost) idle_manager refl refl

refresh_lost_example :
    ((refresh 30 true (record { tunnel = failed lost; alive = false } ∷ []) busy_manager).proxy
      ≡ some 1)
    × ((refresh 30 true (record { tunnel = failed lost; alive = false } ∷ []) busy_manager).device
        ≡ some 1)
    × (disconnect
          (refresh 30 true (record { tunnel = failed lost; alive = false } ∷ []) busy_manager)
        ≡ set_state logged_out (codes "logged out") busy_manager)
unfolding refresh_begin is_connected
refresh_lost_example =
    refresh_lost 30 true lost false [] busy_manager (record { proxy = 1; old_device = 1 }) refl refl

abbrev young_tunnel : ReconnectInputs
young_tunnel = record {
  last_handshake = 0;
  started_at = 3 * second;
  app_tx_at = some (4 * second);
  app_rx_at = none;
  dial_at = some (4 * second);
  now = 9 * second;
}

reconnect_reason_grace_example : reconnect_reason young_tunnel ≡ none
reconnect_reason_grace_example =
    reconnect_reason_grace young_tunnel (omega arith) (inl refl) (inl refl)

abbrev idle_tunnel : ReconnectInputs
idle_tunnel = record {
  last_handshake = 100;
  started_at = 3 * second;
  app_tx_at = none;
  app_rx_at = none;
  dial_at = none;
  now = 200 * second;
}
