-- ===== src/Dial/Live.antt =====
-- markHostLive and hostWasLive of web/internal/corplink/proxy.go. Times are nanoseconds.
use fu_corplink.Common.{
  ℕ, ◌-◌, Bool, false, none, some, Text, List, [], ◌∷◌, if◌then◌else◌, ltb, leb, length,
}
use fu_corplink.Common.Table.{lookup, insert}
use fu_corplink.Dial.Recent.{recent_dial_ttl}

-- the loop that deletes what is too old
unfoldable pub drop_stale : ℕ → List (Text × ℕ) → List (Text × ℕ)
drop_stale now [] = []
drop_stale now ((h, at) ∷ m) =
    let rest = drop_stale now m in if ltb recent_dial_ttl (now - at) then rest else (h, at) ∷ rest

-- markHostLive
unfoldable pub mark_host_live : ℕ → Text → List (Text × ℕ) → List (Text × ℕ)
unfolding drop_stale
mark_host_live now host m =
    let m' = insert host now m in if ltb 256 (length m') then drop_stale now m' else m'

-- hostWasLive
unfoldable pub host_was_live : ℕ → Text → List (Text × ℕ) → Bool
host_was_live now host m = elim (lookup host m) [
  | none ↦ false
  | some at ↦ leb (now - at) recent_dial_ttl
]
