-- ===== src/Manager/Health.antt =====
-- reconnectReason, within and handshakeStalenessFromAge of web/internal/vpnmgr, and probeTunnel of
-- probe.go. Times are nanoseconds, `none` is the zero time.
use fu_corplink.Common.{
  ℕ, ◌+◌, ◌*◌, ◌^◌, ◌≡◌, ◌≤◌, refl, Bool, true, false, not, ◌||◌, Option, none, some, Text, List,
  [], ◌∷◌, if◌then◌else◌, ◌==◌, ltb, leb, arith, inl, inr, ◌⊎◌,
}

abbrev pub second : ℕ
second = 10 ^ 9

abbrev pub handshake_stale_after : ℕ
handshake_stale_after = 210 * second

abbrev pub rx_stall_after : ℕ
rx_stall_after = 20 * second

-- `last_handshake` is in seconds, 0 for never
pub record ReconnectInputs : Type 0 where
  pub last_handshake : ℕ
  pub started_at : ℕ
  pub app_tx_at : Option ℕ
  pub app_rx_at : Option ℕ
  pub dial_at : Option ℕ
  pub now : ℕ

-- the three reasons
pub data Reason : Type 0 where
  no_handshake handshake_stale dead_under_load : Reason

-- now.Sub(t) > d
abbrev pub older : ℕ → ℕ → ℕ → Bool
older t now d = ltb (t + d) now

unfoldable pub within : Option ℕ → ℕ → ℕ → Bool
within none now d = false
within (some t) now d = ltb now (t + d)

-- the second signal
unfoldable pub load_reason : ReconnectInputs → Option Reason
unfolding within
load_reason i =
    let heard_at : ℕ = elim i.app_rx_at [ none ↦ i.started_at | some t ↦ t ] in
    if within i.app_tx_at i.now rx_stall_after || within i.dial_at i.now rx_stall_after
    then if older heard_at i.now rx_stall_after then some dead_under_load else none
    else none

unfoldable pub reconnect_reason : ReconnectInputs → Option Reason
unfolding load_reason
reconnect_reason i =
    if i.last_handshake == 0
    then if older i.started_at i.now handshake_stale_after then some no_handshake else load_reason i
    else if older (i.last_handshake * second) i.now handshake_stale_after
    then some handshake_stale
    else load_reason i

-- handshakeStalenessFromAge; `none` is a negative age
unfoldable pub handshake_staleness_from_age : Option ℕ → ℕ
handshake_staleness_from_age none = 100
handshake_staleness_from_age (some age) = if leb 210 age then 100 else 0

load_reason_young :
    (i : ReconnectInputs)
    → i.now ≤ i.started_at + rx_stall_after
    → (i.app_rx_at ≡ none) ⊎ ((t : ℕ) × (i.app_rx_at ≡ some t) × (i.started_at ≤ t))
    → load_reason i ≡ none
unfolding load_reason
load_reason_young i young (inl e) = ground (arith, young, e)
load_reason_young i young (inr (t, e, le)) = ground (arith, young, e, le)

-- A tunnel is never condemned in its first twenty seconds by anything but a stale handshake: with no
-- handshake yet or one of the last 210 seconds, and bytes heard only since its start, there is no
-- reason to reconnect, whatever demand there is.
pub reconnect_reason_grace :
    (i : ReconnectInputs)
    → i.now ≤ i.started_at + rx_stall_after
    → (i.last_handshake ≡ 0) ⊎ (i.now ≤ i.last_handshake * second + handshake_stale_after)
    → (i.app_rx_at ≡ none) ⊎ ((t : ℕ) × (i.app_rx_at ≡ some t) × (i.started_at ≤ t))
    → reconnect_reason i ≡ none
unfolding reconnect_reason
reconnect_reason_grace i young (inl never) heard =
    ground (arith, young, never, load_reason_young i young heard)
reconnect_reason_grace i young (inr recent) heard =
    ground (arith, young, recent, load_reason_young i young heard)

-- A tunnel without demand for twenty seconds is condemned by its handshake alone.
pub reconnect_reason_idle :
    (i : ReconnectInputs)
    → within i.app_tx_at i.now rx_stall_after ≡ false
    → within i.dial_at i.now rx_stall_after ≡ false
    → reconnect_reason i ≡ (
        if i.last_handshake == 0
        then if older i.started_at i.now handshake_stale_after then some no_handshake else none
        else if older (i.last_handshake * second) i.now handshake_stale_after
        then some handshake_stale
        else none)
unfolding reconnect_reason load_reason
reconnect_reason_idle i tx dial = rw (tx, dial) refl

-- probeTunnel: whether the probes are passed, on what answers
unfoldable pub any_answers : (Text → Bool) → List Text → Bool
any_answers answers [] = false
any_answers answers (a ∷ l) = answers a || any_answers answers l

unfoldable pub probe_tunnel : (Text → Bool) → Text → List Text → Bool → Bool
unfolding any_answers
probe_tunnel answers dns_addr recent strict =
    if not (answers dns_addr)
    then false
    else elim recent [ [] ↦ true | a ∷ l ↦ any_answers answers (a ∷ l) || not strict ]
