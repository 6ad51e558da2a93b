-- ===== src/Dial/Recent.antt =====
-- recordRecentDial and RecentDialAddrs of web/internal/corplink/proxy.go. Times are nanoseconds.
use fu_corplink.Common.{
  ℕ, suc, ◌-◌, ◌*◌, ◌^◌, Bool, true, false, ◌||◌, none, some, Text, List, [], ◌∷◌, ltb, leb,
  text_eq,
}
use fu_corplink.Upstream.Address.{NetText}

-- recentDialTTL
abbrev pub recent_dial_ttl : ℕ
recent_dial_ttl = 10 * 60 * 10 ^ 9

-- recentDialCap
abbrev pub recent_dial_cap : ℕ
recent_dial_cap = 8

pub record RecentDial : Type 0 where
  pub addr : Text
  pub at : ℕ

abbrev pub is_stale : ℕ → RecentDial → Bool
is_stale now d = ltb recent_dial_ttl (now - d.at)

-- the loop over the old entries, with the length of `out`
unfoldable pub keep_dials : ℕ → Text → ℕ → List RecentDial → List RecentDial
keep_dials now addr out [] = []
keep_dials now addr out (d ∷ ds) =
    elim (text_eq d.addr addr || (is_stale now d || leb recent_dial_cap out)) [
      | true ↦ keep_dials now addr out ds
      | false ↦ d ∷ keep_dials now addr (suc out) ds
    ]

-- recordRecentDial
unfoldable pub record_recent_dial : NetText → ℕ → Text → List RecentDial → List RecentDial
unfolding keep_dials
record_recent_dial net now addr ds = elim (net.split_host_port addr) [
  | none ↦ ds
  | some _ ↦ record { addr = addr; at = now } ∷ keep_dials now addr 1 ds
]

-- the loop of RecentDialAddrs
unfoldable pub dial_addrs : ℕ → ℕ → ℕ → List RecentDial → List Text
dial_addrs now max out [] = []
dial_addrs now max out (d ∷ ds) = elim (is_stale now d) [
  | true ↦ dial_addrs now max out ds
  | false ↦
      d.addr ∷ (elim (leb max (suc out)) [ true ↦ [] | false ↦ dial_addrs now max (suc out) ds ])
]

-- RecentDialAddrs
unfoldable pub recent_dial_addrs : ℕ → ℕ → List RecentDial → List Text
unfolding dial_addrs
recent_dial_addrs now max ds = dial_addrs now max 0 ds
