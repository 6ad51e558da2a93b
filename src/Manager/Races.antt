-- ===== src/Manager/Races.antt =====
-- Orders of operations of web/internal/vpnmgr in which the connection state is overwritten.
use fu_corplink.Common.{ℕ, ◌≡◌, refl, Bool, true, some, List, ◌∷◌, arith}
use fu_corplink.Manager.State.{logged_out, Failure, failed, Manager, set_state}
use fu_corplink.Manager.Lifecycle.{
  build_tunnel, is_active, disconnect_begin, disconnect, Candidate, build_live_tunnel, Refreshing,
  refresh_begin, refresh,
}

lost_refresh :
    (now : ℕ) (kicked : Bool) (e : Failure) (alive : Bool) (cs : List Candidate) (m : Manager)
    (r : Refreshing)
    → refresh_begin now kicked m ≡ some r
    → e.session_lost ≡ true
    → refresh now kicked (record { tunnel = failed e; alive = alive } ∷ cs) m
      ≡ set_state logged_out e.message m
unfolding refresh build_live_tunnel build_tunnel
lost_refresh now kicked e alive cs m r h lost = ground (arith, h, lost)

begun_from :
    (now : ℕ) (kicked : Bool) (m : Manager) (r : Refreshing)
    → refresh_begin now kicked m ≡ some r
    → (m.proxy ≡ some r.proxy) × (m.device ≡ some r.old_device)
unfolding refresh_begin
begun_from now kicked m r h = ground (arith, h)

-- A refresh whose first build finds the session lost leaves the state logged out over a tunnel and
-- a proxy that go on running, and Disconnect does nothing then.
pub refresh_lost :
    (now : ℕ) (kicked : Bool) (e : Failure) (alive : Bool) (cs : List Candidate) (m : Manager)
    (r : Refreshing)
    → refresh_begin now kicked m ≡ some r
    → e.session_lost ≡ true
    → ((refresh now kicked (record { tunnel = failed e; alive = alive } ∷ cs) m).proxy
        ≡ some r.proxy)
      × ((refresh now kicked (record { tunnel = failed e; alive = alive } ∷ cs) m).device
          ≡ some r.old_device)
      × (disconnect (refresh now kicked (record { tunnel = failed e; alive = alive } ∷ cs) m)
          ≡ set_state logged_out e.message m)
unfolding set_state disconnect disconnect_begin is_active
refresh_lost now kicked e alive cs m r h lost =
    let gone = lost_refresh now kicked e alive cs m r h lost in
    let (p, d) = begun_from now kicked m r h in rw gone (p, d, refl)
