-- ===== src/Admin/Examples.antt =====
-- Runs of the gate of web/internal/vpnmgr/admin.go.
use fu_corplink.Common.{
  ℕ, ◌+◌, ◌≡◌, refl, true, none, List, [], ◌∷◌, codes, leb, arith, text_eq, is_empty,
}
use fu_corplink.Common.Table.{lookup, remove}
use fu_corplink.Admin.Sessions.{
  AdminAuth, admin_session_ttl, check_session, login, locked, cleanup_failures, failures_of, recent,
}
use fu_corplink.Admin.Lockout.{check_session-login, wrong, slots}
use fu_corplink.Admin.Guesses.{Guess, guess, login-locked}

abbrev gate : AdminAuth
gate = record {
  enabled = true;
  username = codes "admin";
  password = codes "pw";
  sessions = [];
  failures = [];
}

check_session-login_example :
    (check_session 900
      (codes "t1")
      (login 0 100 (codes "t1") (codes "c") (codes "admin") (codes "pw") gate).1).0
    ≡ leb 900 (100 + admin_session_ttl)
unfolding login locked cleanup_failures failures_of recent lookup remove text_eq is_empty
check_session-login_example =
    check_session-login 0 100 900 (codes "t1") (codes "c") (codes "admin") (codes "pw") gate refl
      refl refl

abbrev try_at : ℕ → Guess
try_at t = record { at = t; pick = 0; username = codes "admin"; password = codes "no" }

abbrev five_tries : List Guess
five_tries = try_at 1 ∷ try_at 2 ∷ try_at 3 ∷ try_at 4 ∷ try_at 5 ∷ []

login-locked_example :
    (login 0 9
      (codes "t1")
      (codes "c")
      (codes "admin")
      (codes "pw")
      (guess (codes "c") gate five_tries)).0
    ≡ none
unfolding failures_of lookup slots wrong text_eq
login-locked_example =
    login-locked 1 9 0 (codes "t1") (codes "c") (codes "admin") (codes "pw") five_tries gate refl
      (omega arith) refl
      (
        (omega arith, omega arith),
        (
          (omega arith, omega arith),
          (
            (omega arith, omega arith),
            ((omega arith, omega arith), ((omega arith, omega arith), tt)),
          ),
        ),
      )
      (refl, (refl, (refl, (refl, (refl, tt))))) (omega arith)
