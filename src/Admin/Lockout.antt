-- ===== src/Admin/Lockout.antt =====
-- The lockout and the session lifetime of adminAuth in web/internal/vpnmgr/admin.go.
use fu_corplink.Common.{
  ℕ, ◌+◌, ◌≡◌, ◌≤◌, ◌<◌, refl, ap, sym, ◌∙◌, subst, Bool, true, false, not, ◌||◌, none, some, Text,
  List, [], ◌∷◌, if◌then◌else◌, leb, length, text_eq, text_eq_refl, is_empty, is_some, arith, All,
  Bool-cases, inl, inr,
}
use fu_corplink.Common.Table.{
  lookup, insert, remove, lookup-insert, lookup-remove, length-insert_hit, length-remove-le,
  length-remove_hit,
}
use fu_corplink.Admin.Sessions.{
  AdminAuth, admin_session_ttl, admin_failure_window, check_session, recent, failures_of,
  cleanup_failures, locked, record_failure, ensure_session_capacity, login,
}

unfoldable pub wrong : Text → Text → AdminAuth → Bool
wrong username password a = not (text_eq username a.username) || not (text_eq password a.password)

-- Login where the client is locked out
pub shut_out :
    (pick now : ℕ) (token client username password : Text) (a : AdminAuth)
    → (locked now client a).0 ≡ true
    → (login pick now token client username password a).0 ≡ none
unfolding login
shut_out pick now token client username password a e = rw (e, login) refl

-- Login with wrong credentials
pub bad_guess :
    (pick now : ℕ) (token client username password : Text) (a : AdminAuth)
    → (locked now client a).0 ≡ false
    → wrong username password a ≡ true
    → login pick now token client username password a
      ≡ (none, record_failure pick now client (locked now client a).1)
unfolding login wrong
bad_guess pick now token client username password a e bad = simp (e, bad, login) refl

-- the state in which a granted session is entered
roomy : ℕ → ℕ → Text → AdminAuth → AdminAuth
roomy pick now client a =
    let gate = locked now client a in
    ensure_session_capacity pick (record gate.1 { failures = remove client gate.1.failures })

-- Login with the right ones
opened :
    (pick now : ℕ) (token client username password : Text) (a : AdminAuth)
    → (locked now client a).0 ≡ false
    → wrong username password a ≡ false
    → login pick now token client username password a ≡ (
      some token,
      record (roomy pick now client a) {
        sessions = insert token (now + admin_session_ttl) (roomy pick now client a).sessions;
      },
    )
unfolding login wrong roomy
opened pick now token client username password a e good = simp (e, good, login) refl

cleanup_failures-enabled :
    (now : ℕ) (client : Text) (a : AdminAuth) → (cleanup_failures now client a).enabled ≡ a.enabled
unfolding cleanup_failures
cleanup_failures-enabled now client a = by_list (recent now (failures_of client a)) refl
  where
    by_list :
        (ts : List ℕ)
        → recent now (failures_of client a) ≡ ts
        → (cleanup_failures now client a).enabled ≡ a.enabled
    by_list [] e = rw (e, cleanup_failures) refl
    by_list (t ∷ ts) e = rw (e, cleanup_failures) refl

roomy-enabled :
    (pick now : ℕ) (client : Text) (a : AdminAuth) → (roomy pick now client a).enabled ≡ a.enabled
unfolding roomy ensure_session_capacity locked
roomy-enabled pick now client a = ground (arith, cleanup_failures-enabled now client a)

fresh_session :
    (later exp : ℕ) (token : Text) (a : AdminAuth)
    → a.enabled ≡ true
    → is_empty token ≡ false
    → (check_session later token (record a { sessions = insert token exp a.sessions })).0
      ≡ leb later exp
unfolding check_session
fresh_session later exp token a on named =
    ground (arith, on, named, lookup-insert token token exp a.sessions, text_eq_refl token)

-- A token that Login returns passes CheckSession up to the end of its lifetime and not after it.
pub check_session-login :
    (pick now later : ℕ) (token client username password : Text) (a : AdminAuth)
    → a.enabled ≡ true
    → is_empty token ≡ false
    → (login pick now token client username password a).0 ≡ some token
    → (check_session later token (login pick now token client username password a).1).0
      ≡ leb later (now + admin_session_ttl)
check_session-login pick now later token client username password a on named h =
    elim (Bool-cases ((locked now client a).0)) [
      | inl shut ↦ absurd (
          ground (
            arith,
            subst (λ x. x ≡ some token) (shut_out pick now token client username password a shut) h,
          ))
      | inr open' ↦ elim (Bool-cases (wrong username password a)) [
        | inl bad ↦ absurd (
            ground (
              arith,
              subst (λ x. x ≡ some token)
                  (ap (λ x. x.0) (bad_guess pick now token client username password a open' bad)) h,
            ))
        | inr good ↦
            subst (λ r. (check_session later token r.1).0 ≡ leb later (now + admin_session_ttl))
              (sym (opened pick now token client username password a open' good))
              (fresh_session later (now + admin_session_ttl) token (roomy pick now client a)
                (roomy-enabled pick now client a ∙ on) named)
      ]
    ]

-- entries of the table of failures once the client has one
unfoldable pub slots : Text → AdminAuth → ℕ
slots client a = length a.failures + (if is_some (lookup client a.failures) then 0 else 1)

pub recent-kept :
    (start now : ℕ) (ts : List ℕ)
    → All (λ t. start ≤ t) ts
    → now < start + admin_failure_window
    → recent now ts ≡ ts
unfolding recent
recent-kept start now [] a lt = refl
recent-kept start now (t ∷ ts) a lt = ground (arith, recent-kept start now ts a.1 lt, a.0)

pub cleanup_failures-kept :
    (now : ℕ) (client : Text) (a : AdminAuth)
    → recent now (failures_of client a) ≡ failures_of client a
    → (failures_of client (cleanup_failures now client a) ≡ failures_of client a)
      × (slots client (cleanup_failures now client a) ≤ slots client a)
unfolding cleanup_failures failures_of slots
cleanup_failures-kept now client a h = by_list (failures_of client a) refl
  where
    by_list :
        (ts : List ℕ)
        → failures_of client a ≡ ts
        → (failures_of client (cleanup_failures now client a) ≡ failures_of client a)
          × (slots client (cleanup_failures now client a) ≤ slots client a)
    by_list [] e = ground (
      arith,
      h,
      e,
      lookup-remove client client a.failures,
      text_eq_refl client,
      length-remove-le client a.failures,
      length-remove_hit client a.failures,
    )
    by_list (t ∷ ts) e = ground (
      arith,
      h,
      e,
      lookup-insert client client (t ∷ ts) a.failures,
      text_eq_refl client,
      length-insert_hit client (t ∷ ts) a.failures,
    )
