-- ===== src/Netstack/Counts.antt =====
-- The count of open connections of web/internal/corplink/netstack.go.
use fu_corplink.Common.{
  ℕ, zero, suc, ◌+◌, ◌≡◌, refl, Bool, true, false, List, [], ◌∷◌, ◌++◌, if◌then◌else◌, inl, inr,
  arith, Bool-cases,
}
use fu_corplink.Netstack.Device.{
  Tunnelled, new_device, active_conns, dial, is_open, set_closed, close_conn, close_device, Event,
  dialed, conn_closed, read, wrote, device_closed, step, run,
}

-- how many connections are open
unfoldable pub open_conns : List Bool → ℕ
open_conns [] = 0
open_conns (c ∷ cs) = (if c then 0 else 1) + open_conns cs

open_conns-append : (cs ds : List Bool) → open_conns (cs ++ ds) ≡ open_conns cs + open_conns ds
unfolding open_conns
open_conns-append [] ds = omega arith
open_conns-append (c ∷ cs) ds = omega (arith, open_conns-append cs ds)

open_conns-set_closed :
    (i : ℕ) (cs : List Bool)
    → is_open i cs ≡ true
    → open_conns cs ≡ suc (open_conns (set_closed i cs))
unfolding open_conns is_open set_closed
open_conns-set_closed i [] h = absurd (ground (arith, h))
open_conns-set_closed zero (c ∷ cs) h = ground (arith, h)
open_conns-set_closed (suc i) (c ∷ cs) h = ground (arith, open_conns-set_closed i cs h)

-- the counter went up once for each connection and down once for each that is closed; the device was
-- closed at most once
abbrev pub IsCounted : Tunnelled → Type 0
IsCounted t =
    (t.device.went_up ≡ t.device.went_down + open_conns t.conns)
    × (t.device.closes ≡ (if t.device.closed then 1 else 0))

step-IsCounted : (e : Event) (t : Tunnelled) → IsCounted t → IsCounted (step e t)
unfolding step dial close_device open_conns
step-IsCounted (dialed now true) t h =
    (omega (arith, h.0, open_conns-append t.conns (false ∷ [])), h.1)
step-IsCounted (dialed now false) t h = h
step-IsCounted (conn_closed i) t h = elim (Bool-cases (is_open i t.conns)) [
  | inl e ↦ rw (e, close_conn) (omega (arith, h.0, open_conns-set_closed i t.conns e), h.1)
  | inr e ↦ rw (e, close_conn) h
]
step-IsCounted (read n) t h = h
step-IsCounted (wrote n) t h = h
step-IsCounted device_closed t h = (ground (arith, h.0), ground (arith, h.1))

-- a device that no connection was dialed on
abbrev pub new : Tunnelled
new = record { device = new_device; conns = [] }

run-IsCounted : (es : List Event) (t : Tunnelled) → IsCounted t → IsCounted (run es t)
unfolding run
run-IsCounted [] t h = h
run-IsCounted (e ∷ es) t h = run-IsCounted es (step e t) (step-IsCounted e t h)

-- In any run of dials, closes, reads and writes on a new device, with connections closed any number
-- of times and in any order, ActiveConns is the number of connections that are open, and the WireGuard
-- device is closed once if the device is, and not otherwise.
pub run-active_conns :
    (es : List Event)
    → (active_conns (run es new).device ≡ open_conns (run es new).conns)
      × ((run es new).device.closes ≡ (if (run es new).device.closed then 1 else 0))
unfolding open_conns
run-active_conns es =
    let h : IsCounted (run es new) = run-IsCounted es new (omega arith, refl) in
    (omega (arith, h.0), h.1)
