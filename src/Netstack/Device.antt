-- ===== src/Netstack/Device.antt =====
-- NetstackDevice and countingConn of web/internal/corplink/netstack.go, in runs of what the
-- connections of one device do. The counter activeConns is how often it went up, and how often down.
use fu_corplink.Common.{
  ℕ, zero, suc, ◌+◌, ◌-◌, Bool, true, false, not, Option, none, some, List, [], ◌∷◌, ◌++◌,
  if◌then◌else◌, ◌==◌,
}

pub record Device : Type 0 where
  pub went_up : ℕ
  pub went_down : ℕ
  pub rx_bytes : ℕ
  pub tx_bytes : ℕ
  pub dial_activity_at : ℕ
  pub closed : Bool
  -- how often the WireGuard device was closed
  pub closes : ℕ

-- StartNetstackWithProxy at its end
abbrev pub new_device : Device
new_device = record {
  went_up = 0;
  went_down = 0;
  rx_bytes = 0;
  tx_bytes = 0;
  dial_activity_at = 0;
  closed = false;
  closes = 0;
}

-- the device, and for each connection so far whether it is closed
pub record Tunnelled : Type 0 where
  pub device : Device
  pub conns : List Bool

-- ActiveConns
abbrev pub active_conns : Device → ℕ
active_conns d = d.went_up - d.went_down

-- trackConn
abbrev pub track_conn : Device → Device
track_conn d = record d { went_up = suc d.went_up }

-- MarkDialActivity
abbrev pub mark_dial_activity : ℕ → Device → Device
mark_dial_activity now d = record d { dial_activity_at = now }

-- LastDialActivity, `none` the zero time
unfoldable pub last_dial_activity : Device → Option ℕ
last_dial_activity d = if d.dial_activity_at == 0 then none else some d.dial_activity_at

-- DialContext, with whether the dial succeeds
unfoldable pub dial : ℕ → Bool → Tunnelled → Tunnelled
dial now connects t =
    let d = mark_dial_activity now t.device in
    if connects
    then record { device = track_conn d; conns = t.conns ++ (false ∷ []) }
    else record { device = d; conns = t.conns }

-- the flag of a connection
unfoldable pub is_open : ℕ → List Bool → Bool
is_open i [] = false
is_open zero (c ∷ cs) = not c
is_open (suc i) (c ∷ cs) = is_open i cs

unfoldable pub set_closed : ℕ → List Bool → List Bool
set_closed i [] = []
set_closed zero (c ∷ cs) = true ∷ cs
set_closed (suc i) (c ∷ cs) = c ∷ set_closed i cs

-- Close of a connection
unfoldable pub close_conn : ℕ → Tunnelled → Tunnelled
unfolding is_open set_closed
close_conn i t =
    if is_open i t.conns
    then record {
      device = record t.device { went_down = suc t.device.went_down };
      conns = set_closed i t.conns;
    }
    else t

-- Read and Write of a connection, with the bytes that went through
abbrev pub read_conn : ℕ → Tunnelled → Tunnelled
read_conn n t = record t { device = record t.device { rx_bytes = t.device.rx_bytes + n } }

abbrev pub write_conn : ℕ → Tunnelled → Tunnelled
write_conn n t = record t { device = record t.device { tx_bytes = t.device.tx_bytes + n } }

-- Close of the device
unfoldable pub close_device : Device → Device
close_device d = if d.closed then d else record d { closed = true; closes = suc d.closes }

pub data Event : Type 0 where
  dialed : ℕ → Bool → Event
  conn_closed read wrote : ℕ → Event
  device_closed : Event

unfoldable pub step : Event → Tunnelled → Tunnelled
unfolding dial close_conn close_device
step (dialed now connects) t = dial now connects t
step (conn_closed i) t = close_conn i t
step (read n) t = read_conn n t
step (wrote n) t = write_conn n t
step device_closed t = record t { device = close_device t.device }

unfoldable pub run : List Event → Tunnelled → Tunnelled
unfolding step
run [] t = t
run (e ∷ es) t = run es (step e t)
