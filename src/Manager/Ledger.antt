-- ===== src/Manager/Ledger.antt =====
-- refreshTunnelKicked and Connect of web/internal/vpnmgr/connect.go account for every device that they
-- bring up.
use fu_corplink.Common.{
  false, ℕ, ◌+◌, ◌≡◌, refl, ap, ◌∙◌, Bool, none, some, List, [], ◌∷◌, if◌then◌else◌, ◌==◌, arith,
  is_some, Option-cases, inl, inr, Bool-cases, true, ◌⊎◌, ◌&&◌,
}
use fu_corplink.Manager.State.{
  connecting, Listening, refused, listening, connected, logged_in, teardown, Built, Build, failed,
  built, Manager, set_state, close_device,
}
use fu_corplink.Manager.Lifecycle.{
  build_tunnel, Candidate, build_live_tunnel, Refreshing, refresh_begin, refresh_end, refresh,
  is_connected, same_proxy, connect, connect_begin, connect_end, connect_real, commit, is_active,
}
use fu_corplink.Manager.Tally.{
  count, current, tally, brought, build_live_tunnel-device, old_is_current, built-tally,
}

build_live_tunnel-draining :
    (cs : List Candidate) (m : Manager) → (build_live_tunnel cs m).1.draining ≡ m.draining
unfolding build_live_tunnel build_tunnel set_state
build_live_tunnel-draining [] m = refl
build_live_tunnel-draining (c ∷ cs) m =
    by_build (λ m'. build_live_tunnel-draining cs m') c.tunnel refl
  where
    by_build :
        ((m' : Manager) → (build_live_tunnel cs m').1.draining ≡ m'.draining)
        → (b : Build) → c.tunnel ≡ b
        → (build_live_tunnel (c ∷ cs) m).1.draining ≡ m.draining
    by_build ih (failed e) q = ground (arith, q)
    by_build ih (built b) q = ground (arith, q, ih (close_device b.device m))

-- the devices whose tunnels pass the probe
pub IsAlive : ℕ → List Candidate → Type 0
IsAlive d [] = ⊥
IsAlive d (c ∷ cs) = elim c.tunnel [
  | failed e ↦ ⊥
  | built b ↦ ((c.alive ≡ true) × (b.device ≡ d)) ⊎ IsAlive d cs
]

build_live_tunnel-IsAlive :
    (cs : List Candidate) (m : Manager) (b : Built)
    → (build_live_tunnel cs m).0 ≡ some b
    → IsAlive b.device cs
unfolding build_live_tunnel IsAlive
build_live_tunnel-IsAlive [] m b h = absurd (ground (arith, h))
build_live_tunnel-IsAlive (c ∷ cs) m b h =
    by_build (λ m'. build_live_tunnel-IsAlive cs m' b) c.tunnel refl
  where
    by_build :
        ((m' : Manager) → (build_live_tunnel cs m').0 ≡ some b → IsAlive b.device cs)
        → (t : Build) → c.tunnel ≡ t
        → IsAlive b.device (c ∷ cs)
    by_build ih (failed e) q = absurd (ground (arith, q, h))
    by_build ih (built u) q = elim (Bool-cases c.alive) [
      | inl v ↦ rw (q, IsAlive) (inl (v, ground (arith, q, v, h)))
      | inr v ↦ rw (q, IsAlive) (inr (ih (close_device u.device m) (ground (arith, q, v, h))))
    ]

-- what becomes of the device that a refresh found
pub Replaced : List Candidate → Refreshing → Manager → Manager → Type 0
Replaced cs r m m' =
    ((m'.device ≡ some r.old_device) × (m'.draining ≡ m.draining))
    ⊎ ((d : ℕ) × (m'.device ≡ some d) × IsAlive d cs × (m'.draining ≡ r.old_device ∷ m.draining))

refresh_end-Replaced :
    (now : ℕ) (cs : List Candidate) (r : Refreshing) (b : Built) (m m' : Manager)
    → IsAlive b.device cs
    → m'.device ≡ some r.old_device
    → m'.draining ≡ m.draining
    → Replaced cs r m (refresh_end now r b m')
unfolding refresh_end Replaced
refresh_end-Replaced now cs r b m m' a d g =
    elim (Bool-cases (is_connected m'.state && same_proxy m'.proxy r.proxy)) [
      | inl e ↦ rw (e, refresh_end) (inr (b.device, refl, a, ap (λ l. r.old_device ∷ l) g))
      | inr e ↦ rw (e, refresh_end) (inl (d, g))
    ]

refresh-Replaced :
    (now : ℕ) (kicked : Bool) (cs : List Candidate) (m : Manager) (r : Refreshing)
    → refresh_begin now kicked m ≡ some r
    → Replaced cs r m (refresh now kicked cs m)
unfolding refresh Replaced
refresh-Replaced now kicked cs m r e =
    let kept : (build_live_tunnel cs m).1.device ≡ some r.old_device =
      build_live_tunnel-device cs m ∙ old_is_current now kicked m r e in
    elim (Option-cases ((build_live_tunnel cs m).0)) [
      | inl e' ↦ rw (e, e', refresh) (inl (kept, build_live_tunnel-draining cs m))
      | inr (b, e') ↦
          rw (e, e', refresh)
            (refresh_end-Replaced now cs r b m (build_live_tunnel cs m).1
              (build_live_tunnel-IsAlive cs m b e') kept (build_live_tunnel-draining cs m))
    ]

-- A refresh that gets as far as building tunnels loses no device and closes none too early. Whatever
-- the builds and probes answer, counting the current, the draining and the closed devices, each
-- device stands there as often as before and once more for each time it was brought up; and either
-- the device that the refresh found is still the current one and no more are draining, or one whose
-- tunnel passed the probe is current and the one that the refresh found has been put to drain.
pub refresh-tally :
    (d now : ℕ) (kicked : Bool) (cs : List Candidate) (m : Manager) (r : Refreshing)
    → refresh_begin now kicked m ≡ some r
    → (tally d (refresh now kicked cs m) ≡ tally d m + count d (brought cs))
      × Replaced cs r m (refresh now kicked cs m)
refresh-tally d now kicked cs m r e =
    (built-tally d now kicked cs m r e, refresh-Replaced now kicked cs m r e)

-- the device that the build of a Connect brings up, if it does
abbrev pub device_of : Build → List ℕ
device_of (failed e) = []
device_of (built b) = b.device ∷ []

-- a Connect has ended: with the tunnel that it built, or with nothing up
abbrev pub Ended : Build → Manager → Type 0
Ended b m =
    ((d : ℕ) × (m.state ≡ connected)
      × (m.device ≡ some d)
      × (device_of b ≡ d ∷ [])
      × (is_some m.proxy ≡ true))
    ⊎ ((m.state ≡ logged_in) × (m.device ≡ none) × (m.proxy ≡ none))

connect_end-Ended :
    (now : ℕ) (b : Build) (l : Listening) (m : Manager)
    → m.device ≡ none
    → Ended b (connect_end now b l m)
unfolding connect_end connect_real commit teardown set_state build_tunnel
connect_end-Ended now (failed e) l m h = inr (ground (arith, h))
connect_end-Ended now (built b) (refused e) m h = inr (ground (arith, h))
connect_end-Ended now (built b) (listening p) m h = inl (b.device, refl, refl, refl, refl)

connect_end-tally :
    (d now : ℕ) (b : Build) (l : Listening) (m : Manager)
    → m.device ≡ none
    → tally d (connect_end now b l m) ≡ tally d m + count d (device_of b)
unfolding connect_end connect_real commit teardown set_state build_tunnel tally current count
connect_end-tally d now (failed e) l m h = ground (arith, h)
connect_end-tally d now (built b) (refused e) m h = ground (arith, h)
connect_end-tally d now (built b) (listening p) m h = ground (arith, h)

-- the manager once Connect has given up the mutex
abbrev started : ℕ → Manager → Manager
started id m = record m {
  state = connecting;
  last_err = [];
  vpn_server_id = if id == 0 then m.vpn_server_id else id;
}

connect_from_idle :
    (now id : ℕ) (b : Build) (l : Listening) (m : Manager)
    → is_active m.state ≡ false
    → connect now id b l m ≡ connect_end now b l (started id m)
unfolding connect connect_begin
connect_from_idle now id b l m h = rw (h, connect, connect_begin) refl

-- A Connect from an idle state in which no device is current loses no device, whatever its build and
-- its listener answer: counting the current, the draining and the closed devices, each device stands
-- there as often as before and once more if the Connect brought it up. It ends connected, with the
-- device that it brought up current and a proxy, or logged in, also where the session was lost, with
-- no device and no proxy.
pub connect-tally :
    (d now id : ℕ) (b : Build) (l : Listening) (m : Manager)
    → is_active m.state ≡ false
    → m.device ≡ none
    → (tally d (connect now id b l m) ≡ tally d m + count d (device_of b))
      × Ended b (connect now id b l m)
unfolding tally
connect-tally d now id b l m h n =
    rw (connect_from_idle now id b l m h)
      (connect_end-tally d now b l (started id m) n, connect_end-Ended now b l (started id m) n)
