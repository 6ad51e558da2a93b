-- ===== src/Netstack/Examples.antt =====
-- A run of web/internal/corplink/netstack.go.
use fu_corplink.Common.{◌≡◌, refl, true, List, [], ◌∷◌, if◌then◌else◌}
use fu_corplink.Netstack.Device.{
  active_conns, Event, dialed, conn_closed, read, device_closed, step, run, dial, close_conn,
  is_open, set_closed, close_device,
}
use fu_corplink.Netstack.Counts.{new, open_conns, run-active_conns}

-- a connection that is closed twice, and one that stays open
abbrev events : List Event
events = dialed 5 true ∷ dialed 6 true ∷ read 9 ∷ conn_closed 0 ∷ conn_closed 0 ∷ device_closed ∷ []

run-active_conns_example :
    (active_conns (run events new).device ≡ open_conns (run events new).conns)
    × ((run events new).device.closes ≡ (if (run events new).device.closed then 1 else 0))
run-active_conns_example = run-active_conns events

-- one connection is left
one_left : active_conns (run events new).device ≡ 1
unfolding run step dial close_conn is_open set_closed close_device
one_left = refl
