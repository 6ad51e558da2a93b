-- ===== src/Manager/Tally.antt =====
-- Counting the devices that web/internal/vpnmgr/connect.go has brought up: the current one, the
-- draining and the closed ones.
use fu_corplink.Common.{
  ℕ, ◌+◌, ◌≡◌, refl, ap, sym, ◌∙◌, Bool, Option, none, some, List, [], ◌∷◌, if◌then◌else◌, ◌==◌,
  arith, Option-cases, inl, inr,
}
use fu_corplink.Manager.State.{Built, Build, failed, built, Manager, set_state, close_device}
use fu_corplink.Manager.Lifecycle.{
  build_tunnel, Candidate, build_live_tunnel, Refreshing, refresh_begin, refresh_end, refresh,
}

unfoldable pub count : ℕ → List ℕ → ℕ
count d [] = 0
count d (x ∷ l) = (if x == d then 1 else 0) + count d l

unfoldable pub current : ℕ → Option ℕ → ℕ
current d none = 0
current d (some x) = if x == d then 1 else 0

-- how often a device is the current one, a draining one or a closed one
unfoldable pub tally : ℕ → Manager → ℕ
tally d m = current d m.device + count d m.draining + count d m.closed

-- the devices that the rounds of buildLiveTunnel bring up
pub brought : List Candidate → List ℕ
brought [] = []
brought (c ∷ cs) = elim c.tunnel [
  | failed e ↦ []
  | built b ↦ b.device ∷ (if c.alive then [] else brought cs)
]

-- the device that the rounds hand over is not in the tally yet
pub handed : ℕ → Option Built → ℕ
handed d none = 0
handed d (some b) = if b.device == d then 1 else 0

handed-none : (d : ℕ) → handed d none ≡ 0
unfolding handed
handed-none d = refl

build_live_tunnel-tally :
    (d : ℕ) (cs : List Candidate) (m : Manager)
    → tally d (build_live_tunnel cs m).1 + handed d (build_live_tunnel cs m).0
      ≡ tally d m + count d (brought cs)
unfolding build_live_tunnel tally brought handed count current build_tunnel set_state
build_live_tunnel-tally d [] m = omega arith
build_live_tunnel-tally d (c ∷ cs) m =
    by_build (λ m'. build_live_tunnel-tally d cs m') c.tunnel refl
  where
    by_build :
        ((m' : Manager)
          → tally d (build_live_tunnel cs m').1 + handed d (build_live_tunnel cs m').0
            ≡ tally d m' + count d (brought cs))
        → (b : Build) → c.tunnel ≡ b
        → tally d (build_live_tunnel (c ∷ cs) m).1 + handed d (build_live_tunnel (c ∷ cs) m).0
          ≡ tally d m + count d (brought (c ∷ cs))
    by_build ih (failed e) q = ground (arith, q)
    by_build ih (built b) q = ground (arith, q, ih (close_device b.device m))

pub build_live_tunnel-device :
    (cs : List Candidate) (m : Manager) → (build_live_tunnel cs m).1.device ≡ m.device
unfolding build_live_tunnel build_tunnel set_state
build_live_tunnel-device [] m = refl
build_live_tunnel-device (c ∷ cs) m = by_build (λ m'. build_live_tunnel-device cs m') c.tunnel refl
  where
    by_build :
        ((m' : Manager) → (build_live_tunnel cs m').1.device ≡ m'.device)
        → (b : Build) → c.tunnel ≡ b
        → (build_live_tunnel (c ∷ cs) m).1.device ≡ m.device
    by_build ih (failed e) q = ground (arith, q)
    by_build ih (built b) q = ground (arith, q, ih (close_device b.device m))

pub old_is_current :
    (now : ℕ) (kicked : Bool) (m : Manager) (r : Refreshing)
    → refresh_begin now kicked m ≡ some r
    → m.device ≡ some r.old_device
unfolding refresh_begin
old_is_current now kicked m r h = ground (arith, h)

refresh_end-tally :
    (d now : ℕ) (r : Refreshing) (b : Built) (m : Manager)
    → m.device ≡ some r.old_device
    → tally d (refresh_end now r b m) ≡ tally d m + handed d (some b)
unfolding refresh_end tally handed count current
refresh_end-tally d now r b m h = ground (arith, h)

pub built-tally :
    (d now : ℕ) (kicked : Bool) (cs : List Candidate) (m : Manager) (r : Refreshing)
    → refresh_begin now kicked m ≡ some r
    → tally d (refresh now kicked cs m) ≡ tally d m + count d (brought cs)
unfolding refresh
built-tally d now kicked cs m r e = elim (Option-cases ((build_live_tunnel cs m).0)) [
  | inl e' ↦ rw (e, e', refresh) (found_none e' (build_live_tunnel-tally d cs m))
  | inr (b, e') ↦
      rw (e, e', refresh)
        (refresh_end-tally d now r b _
            (build_live_tunnel-device cs m ∙ old_is_current now kicked m r e)
          ∙ sym (ap (λ o. tally d (build_live_tunnel cs m).1 + handed d o) e')
          ∙ build_live_tunnel-tally d cs m)
]
  where
    found_none :
        (build_live_tunnel cs m).0 ≡ none
        → tally d (build_live_tunnel cs m).1 + handed d (build_live_tunnel cs m).0
          ≡ tally d m + count d (brought cs)
        → tally d (build_live_tunnel cs m).1 ≡ tally d m + count d (brought cs)
    found_none q t = omega (arith, ap (handed d) q ∙ handed-none d, t)
