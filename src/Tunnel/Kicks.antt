-- ===== src/Tunnel/Kicks.antt =====
-- SetTunnel, RefreshKick, kickRefresh and waitTunnelSwap of web/internal/corplink/proxy.go. The
-- channel of capacity 1 is the flag that a kick is pending; `none` is the nil channel.
use fu_corplink.Common.{
  ℕ, zero, suc, ◌+◌, ◌%◌, ◌^◌, ◌≡◌, ◌≢◌, refl, Bool, true, false, not, Option, none, some, List, [],
  ◌∷◌, arith, ◌==◌, if◌then◌else◌, ◌&&◌,
}

pub record Tunnel : Type 0 where
  pub gen : ℕ
  pub refresh_kick : Option Bool
  pub last_kick_gen : ℕ

abbrev pub new_tunnel : Tunnel
new_tunnel = record { gen = 0; refresh_kick = none; last_kick_gen = 0 }

-- SetTunnel: the generation is a uint64
unfoldable pub set_tunnel : Tunnel → Tunnel
set_tunnel t = record t { gen = (t.gen + 1) % 2 ^ 64 }

-- RefreshKick, and what its caller then holds
unfoldable pub subscribe : Tunnel → Tunnel
subscribe t = elim t.refresh_kick [
  | none ↦ record t { refresh_kick = some false }
  | some pending ↦ t
]

-- the refresher takes a pending kick off the channel
unfoldable pub receive : Tunnel → Tunnel × Bool
receive t = elim t.refresh_kick [
  | none ↦ (t, false)
  | some pending ↦ (record t { refresh_kick = some false }, pending)
]

unfoldable pub kick_refresh : Tunnel → Tunnel
kick_refresh t = elim t.refresh_kick [
  | none ↦ t
  | some pending ↦
      if t.last_kick_gen == t.gen
      then t
      else record t { refresh_kick = some true; last_kick_gen = t.gen }
]

-- waitTunnelSwap: `swaps` SetTunnel calls happen before the timeout and before the proxy closes
unfoldable pub set_tunnels : ℕ → Tunnel → Tunnel
unfolding set_tunnel
set_tunnels zero t = t
set_tunnels (suc n) t = set_tunnels n (set_tunnel t)

unfoldable pub wait_tunnel_swap : ℕ → ℕ → Tunnel → Tunnel × Bool
wait_tunnel_swap gen swaps t =
    if t.gen == gen then (set_tunnels swaps t, not (swaps == 0)) else (t, true)

pub data Event : Type 0 where
  swap kick take subscribed : Event

unfoldable pub step : Tunnel → Event → Tunnel
step t Event.swap = set_tunnel t
step t Event.kick = kick_refresh t
step t Event.take = (receive t).0
step t Event.subscribed = subscribe t

unfoldable pub run : Tunnel → List Event → Tunnel
unfolding step
run t [] = t
run t (e ∷ es) = run (step t e) es

-- whether the refresher takes a kick off the channel in a step
unfoldable pub takes : Tunnel → Event → Bool
takes t Event.take = (receive t).1
takes t _ = false

-- how many kicks the refresher takes off the channel in a run
unfoldable pub received : Tunnel → List Event → ℕ
unfolding step takes
received t [] = 0
received t (e ∷ es) = (if takes t e then 1 else 0) + received (step t e) es

-- how many kicks wait on the channel
unfoldable pub waiting : Tunnel → ℕ
waiting t = elim t.refresh_kick [ none ↦ 0 | some pending ↦ if pending then 1 else 0 ]

-- whether a run has a kick at all
unfoldable pub has_kick : List Event → Bool
has_kick [] = false
has_kick (Event.kick ∷ es) = true
has_kick (_ ∷ es) = has_kick es

abbrev pub NoSwap : List Event → Type 0
NoSwap [] = Unit {0}
NoSwap (e ∷ es) = (e ≢ Event.swap) × NoSwap es

-- once the generation is the kicked one, only what waits already can be received
received_after :
    (es : List Event) (t : Tunnel)
    → NoSwap es
    → t.last_kick_gen ≡ t.gen
    → received t es + waiting (run t es) ≡ waiting t
unfolding received takes waiting run step kick_refresh receive subscribe
received_after [] t n h = omega arith
received_after (Event.swap ∷ es) t n h = absurd (n.0 refl)
received_after (Event.kick ∷ es) t n h = ground (arith, received_after es t n.1 h)
received_after (Event.take ∷ es) t n h = ground (arith, received_after es (receive t).0 n.1)
received_after (Event.subscribed ∷ es) t n h = ground (arith, received_after es (subscribe t) n.1)

-- For a refresher that has subscribed and has drained the channel, a run that swaps no tunnel, with
-- any kicks, receptions and subscriptions in any order, brings it exactly one kick, received or still
-- waiting at the end, if the run has a kick and the generation was not kicked before, and none
-- otherwise.
pub received-waiting :
    (es : List Event) (t : Tunnel)
    → NoSwap es
    → t.refresh_kick ≡ some false
    → received t es + waiting (run t es)
      ≡ (if has_kick es && not (t.last_kick_gen == t.gen) then 1 else 0)
unfolding received takes waiting run step kick_refresh receive subscribe has_kick
received-waiting [] t n h = ground (arith, h)
received-waiting (Event.swap ∷ es) t n h = absurd (n.0 refl)
received-waiting (Event.kick ∷ es) t n h = ground (arith, h, received_after es (kick_refresh t) n.1)
received-waiting (Event.take ∷ es) t n h = ground (arith, h, received-waiting es (receive t).0 n.1)
received-waiting (Event.subscribed ∷ es) t n h =
    ground (arith, h, received-waiting es (subscribe t) n.1)

-- On the tunnel that the proxy starts on no kick ever reaches the refresher, and none waits for it at
-- the end, in any run that swaps no tunnel: the last kicked generation and the generation both start
-- at 0, so every kick is taken for a repetition.
pub received_initial :
    (es : List Event) → NoSwap es → (received new_tunnel es ≡ 0) × (waiting (run new_tunnel es) ≡ 0)
unfolding waiting
received_initial es n = (
  omega (arith, received_after es new_tunnel n refl),
  omega (arith, received_after es new_tunnel n refl),
)
