-- ===== src/Admin/Sessions.antt =====
-- adminAuth of web/internal/vpnmgr/admin.go. Times are nanoseconds; `pick` is where the runtime
-- starts to range over a map, and a fresh token is what newSessionID draws.
use fu_corplink.Common.{
  ℕ, ◌+◌, ◌*◌, ◌^◌, Bool, true, false, not, ◌||◌, Option, none, some, Text, List, [], ◌∷◌, ◌++◌,
  if◌then◌else◌, ltb, leb, length, text_eq, is_empty, take, drop,
}
use fu_corplink.Common.Table.{lookup, insert, remove, key_at}

abbrev pub admin_session_ttl : ℕ
admin_session_ttl = 12 * 3600 * 10 ^ 9

abbrev pub admin_max_sessions : ℕ
admin_max_sessions = 64

abbrev pub admin_max_failures : ℕ
admin_max_failures = 16

abbrev pub admin_failure_window : ℕ
admin_failure_window = 15 * 60 * 10 ^ 9

abbrev pub admin_lock_threshold : ℕ
admin_lock_threshold = 5

-- adminAuth with the three fields of the configuration that it reads
pub record AdminAuth : Type 0 where
  pub enabled : Bool
  pub username : Text
  pub password : Text
  pub sessions : List (Text × ℕ)
  pub failures : List (Text × List ℕ)

-- CheckSession
unfoldable pub check_session : ℕ → Text → AdminAuth → Bool × AdminAuth
check_session now token a =
    if not a.enabled
    then (true, a)
    else if is_empty token
    then (false, a)
    else (elim (lookup token a.sessions) [
      | none ↦ (false, a)
      | some exp ↦
          if ltb exp now
          then (false, record a { sessions = remove token a.sessions })
          else (true, a)
    ])

-- the failures behind the cutoff
unfoldable pub recent : ℕ → List ℕ → List ℕ
recent now [] = []
recent now (t ∷ ts) =
    let rest = recent now ts in if ltb now (t + admin_failure_window) then t ∷ rest else rest

unfoldable pub failures_of : Text → AdminAuth → List ℕ
failures_of client a = elim (lookup client a.failures) [ none ↦ [] | some ts ↦ ts ]

-- cleanupFailuresLocked
unfoldable pub cleanup_failures : ℕ → Text → AdminAuth → AdminAuth
unfolding failures_of
cleanup_failures now client a = elim (recent now (failures_of client a)) [
  | [] ↦ record a { failures = remove client a.failures }
  | t ∷ ts ↦ record a { failures = insert client (t ∷ ts) a.failures }
]

-- lockedLocked
unfoldable pub locked : ℕ → Text → AdminAuth → Bool × AdminAuth
locked now client a =
    let cleaned = cleanup_failures now client a in
    (leb admin_lock_threshold (length (failures_of client cleaned)), cleaned)

-- ensureFailureCapacityLocked
unfoldable pub ensure_failure_capacity : ℕ → AdminAuth → AdminAuth
ensure_failure_capacity pick a =
    if ltb (length a.failures) admin_max_failures then a else (elim (key_at pick a.failures) [
      | none ↦ a
      | some k ↦ record a { failures = remove k a.failures }
    ])

-- recordFailureLocked
unfoldable pub record_failure : ℕ → ℕ → Text → AdminAuth → AdminAuth
record_failure pick now client a =
    let cleaned = cleanup_failures now client a in
    ensure_failure_capacity pick (record cleaned {
      failures = insert client (failures_of client cleaned ++ now ∷ []) cleaned.failures;
    })

-- the soonest-expiring session, the first of them in the order of the range
unfoldable pub soonest : List (Text × ℕ) → Text × ℕ → Text × ℕ
soonest [] best = best
soonest ((k, exp) ∷ m) best =
    let with_new = soonest m (k, exp) in
    let without = soonest m best in if is_empty best.0 || ltb exp best.1 then with_new else without

-- ensureSessionCapacityLocked
unfoldable pub ensure_session_capacity : ℕ → AdminAuth → AdminAuth
ensure_session_capacity pick a =
    if ltb (length a.sessions) admin_max_sessions then a else record a {
      sessions =
          remove (soonest (drop pick a.sessions ++ take pick a.sessions) ([], 0)).0 a.sessions;
    }

-- Login: the token, where the credentials pass
unfoldable pub login : ℕ → ℕ → Text → Text → Text → Text → AdminAuth → Option Text × AdminAuth
login pick now token client username password a =
    let gate = locked now client a in
    if gate.0
    then (none, gate.1)
    else if not (text_eq username a.username) || not (text_eq password a.password)
    then (none, record_failure pick now client gate.1)
    else (let cleared = record gate.1 { failures = remove client gate.1.failures } in
        let roomy = ensure_session_capacity pick cleared in
        (
          some token,
          record roomy { sessions = insert token (now + admin_session_ttl) roomy.sessions },
        ))

-- Logout of adminAuth
unfoldable pub end_session : Text → AdminAuth → AdminAuth
end_session token a = record a { sessions = remove token a.sessions }
