-- ===== src/Tunnel/Examples.antt =====
-- Runs of the refresh signal of web/internal/corplink/proxy.go.
use fu_corplink.Common.{
  ◌≡◌, ◌≢◌, ◌+◌, ◌==◌, ◌&&◌, not, if◌then◌else◌, refl, false, some, List, [], ◌∷◌, arith,
}
use fu_corplink.Tunnel.Kicks.{
  Tunnel, Event, new_tunnel, run, received, waiting, has_kick, NoSwap, received-waiting,
  received_initial,
}

abbrev swapped : Tunnel
swapped = record { gen = 1; refresh_kick = some false; last_kick_gen = 0 }

abbrev two_kicks : List Event
two_kicks = Event.kick ∷ Event.take ∷ Event.kick ∷ []

two_kicks-NoSwap : NoSwap two_kicks
two_kicks-NoSwap = (kick-swap, (take-swap, (kick-swap, tt)))
  where
    kick-swap : Event.kick ≢ Event.swap
    kick-swap e = ground (arith, e)

    take-swap : Event.take ≢ Event.swap
    take-swap e = ground (arith, e)

received-waiting_example :
    received swapped two_kicks + waiting (run swapped two_kicks)
    ≡ (if has_kick two_kicks && not (swapped.last_kick_gen == swapped.gen) then 1 else 0)
received-waiting_example = received-waiting two_kicks swapped two_kicks-NoSwap refl

received_initial_example :
    (received new_tunnel (Event.subscribed ∷ two_kicks) ≡ 0)
    × (waiting (run new_tunnel (Event.subscribed ∷ two_kicks)) ≡ 0)
received_initial_example =
    received_initial (Event.subscribed ∷ two_kicks) ((λ e. ground (arith, e)), two_kicks-NoSwap)
