-- ===== src/Admin/Guesses.antt =====
-- Runs of wrong passwords against adminAuth of web/internal/vpnmgr/admin.go.
use fu_corplink.Common.{
  ℕ, ◌+◌, ◌≡◌, ◌≤◌, ◌<◌, refl, ap, sym, ◌∙◌, subst, true, false, none, Text, List, [], ◌∷◌, ◌++◌,
  length, text_eq_refl, arith, All, length-append,
}
use fu_corplink.Common.Table.{insert, lookup-insert, length-insert-le, length-insert_hit}
use fu_corplink.Admin.Sessions.{
  AdminAuth, admin_max_failures, admin_failure_window, admin_lock_threshold, recent, failures_of,
  cleanup_failures, locked, ensure_failure_capacity, record_failure, login,
}
use fu_corplink.Admin.Lockout.{
  wrong, slots, shut_out, bad_guess, recent-kept, cleanup_failures-kept,
}

-- one try at a password, with the runtime's choice in the table of failures
pub record Guess : Type 0 where
  pub at : ℕ
  pub pick : ℕ
  pub username : Text
  pub password : Text

unfoldable pub guess : Text → AdminAuth → List Guess → AdminAuth
guess client a [] = a
guess client a (g ∷ gs) = guess client (login g.pick g.at [] client g.username g.password a).1 gs

abbrev SameNames : AdminAuth → AdminAuth → Type 0
SameNames a b = (a.username ≡ b.username) × (a.password ≡ b.password)

cleanup_failures-SameNames :
    (now : ℕ) (client : Text) (a : AdminAuth) → SameNames (cleanup_failures now client a) a
unfolding cleanup_failures
cleanup_failures-SameNames now client a = by_list (recent now (failures_of client a)) refl
  where
    by_list :
        (ts : List ℕ)
        → recent now (failures_of client a) ≡ ts
        → SameNames (cleanup_failures now client a) a
    by_list [] e = rw (e, cleanup_failures) (refl, refl)
    by_list (t ∷ ts) e = rw (e, cleanup_failures) (refl, refl)

-- the entry of a failure, in a table that has room
entered :
    (pick : ℕ) (client : Text) (ts : List ℕ) (a : AdminAuth)
    → slots client a < admin_max_failures
    → (failures_of client
          (ensure_failure_capacity pick (record a { failures = insert client ts a.failures }))
        ≡ ts)
      × (slots client
            (ensure_failure_capacity pick (record a { failures = insert client ts a.failures }))
          ≤ slots client a)
      × SameNames
          (ensure_failure_capacity pick (record a { failures = insert client ts a.failures }))
          a
unfolding ensure_failure_capacity failures_of slots
entered pick client ts a room = ground (
  arith,
  room,
  lookup-insert client client ts a.failures,
  text_eq_refl client,
  length-insert-le client ts a.failures,
  length-insert_hit client ts a.failures,
)

record_failure-kept :
    (pick now : ℕ) (client : Text) (a : AdminAuth)
    → recent now (failures_of client a) ≡ failures_of client a
    → slots client a < admin_max_failures
    → (failures_of client (record_failure pick now client a) ≡ failures_of client a ++ now ∷ [])
      × (slots client (record_failure pick now client a) ≤ slots client a)
      × SameNames (record_failure pick now client a) a
unfolding record_failure
record_failure-kept pick now client a kept room =
    let (same, few) = cleanup_failures-kept now client a kept in
    let (u, p) = cleanup_failures-SameNames now client a in
    let cleaned = cleanup_failures now client a in
    let (f, s, (u', p')) =
      entered pick client (failures_of client cleaned ++ now ∷ []) cleaned
        (omega (arith, few, room)) in
    (f ∙ ap (λ ts. ts ++ now ∷ []) same, omega (arith, s, few), (u' ∙ u, p' ∙ p))

not_locked :
    (now : ℕ) (client : Text) (a : AdminAuth)
    → length (failures_of client a) < admin_lock_threshold
    → failures_of client (cleanup_failures now client a) ≡ failures_of client a
    → (locked now client a).0 ≡ false
unfolding locked
not_locked now client a few same = ground (arith, ap length same, few)

locked_by :
    (now : ℕ) (client : Text) (b : AdminAuth)
    → admin_lock_threshold ≤ length (failures_of client (cleanup_failures now client b))
    → (locked now client b).0 ≡ true
unfolding locked
locked_by now client b le = ground (arith, le)

locked_cleaned :
    (now : ℕ) (client : Text) (a : AdminAuth)
    → (locked now client a).1 ≡ cleanup_failures now client a
unfolding locked
locked_cleaned now client a = refl

guessed :
    (g : Guess) (client : Text) (a : AdminAuth)
    → recent g.at (failures_of client a) ≡ failures_of client a
    → length (failures_of client a) < admin_lock_threshold
    → slots client a < admin_max_failures
    → wrong g.username g.password a ≡ true
    → (failures_of client (login g.pick g.at [] client g.username g.password a).1
        ≡ failures_of client a ++ g.at ∷ [])
      × (slots client (login g.pick g.at [] client g.username g.password a).1 ≤ slots client a)
      × SameNames (login g.pick g.at [] client g.username g.password a).1 a
guessed g client a kept few room bad =
    let (same, less) = cleanup_failures-kept g.at client a kept in
    let (u, p) = cleanup_failures-SameNames g.at client a in
    let cleaned = cleanup_failures g.at client a in
    let (f, s, (u', p')) =
      record_failure-kept g.pick g.at client cleaned
        (subst (λ ts. recent g.at ts ≡ ts) (sym same) kept) (omega (arith, less, room)) in
    subst
      (λ r.
        (failures_of client r.1 ≡ failures_of client a ++ g.at ∷ [])
        × (slots client r.1 ≤ slots client a)
        × SameNames r.1 a)
      (sym (
        bad_guess g.pick g.at [] client g.username g.password a (not_locked g.at client a few same)
          bad
        ∙ ap (λ c. (none, record_failure g.pick g.at client c)) (locked_cleaned g.at client a)))
      (f ∙ ap (λ ts. ts ++ g.at ∷ []) same, omega (arith, s, less), (u' ∙ u, p' ∙ p))

-- every guess is wrong and falls into one window, which opens at `start`
abbrev pub InWindow : ℕ → List Guess → Type 0
InWindow start gs = All (λ g. (start ≤ g.at) × (g.at < start + admin_failure_window)) gs

abbrev pub AllWrong : AdminAuth → List Guess → Type 0
AllWrong a gs = All (λ g. wrong g.username g.password a ≡ true) gs

still_wrong : (a b : AdminAuth) (gs : List Guess) → SameNames b a → AllWrong a gs → AllWrong b gs
unfolding wrong
still_wrong a b [] e w = tt
still_wrong a b (g ∷ gs) (u, p) w = (rw (u, p) w.0, still_wrong a b gs (u, p) w.1)

All-append : (P : ℕ → Type 0) (xs : List ℕ) (t : ℕ) → All P xs → P t → All P (xs ++ t ∷ [])
All-append P [] t a p = (p, tt)
All-append P (x ∷ xs) t a p = (a.0, All-append P xs t a.1 p)

guess-failures :
    (start : ℕ) (client : Text) (gs : List Guess) (a : AdminAuth)
    → All (λ t. start ≤ t) (failures_of client a)
    → length (failures_of client a) + length gs ≤ admin_lock_threshold
    → slots client a < admin_max_failures
    → InWindow start gs
    → AllWrong a gs
    → (length (failures_of client (guess client a gs)) ≡ length (failures_of client a) + length gs)
      × All (λ t. start ≤ t) (failures_of client (guess client a gs))
unfolding guess
guess-failures start client [] a old few room within bad = (omega arith, old)
guess-failures start client (g ∷ gs) a old few room within bad =
    let (f, s, names) =
      guessed g client a (recent-kept start g.at (failures_of client a) old within.0.1)
        (omega (arith, few)) room bad.0 in
    let next = (login g.pick g.at [] client g.username g.password a).1 in
    let one_more : length (failures_of client next) ≡ length (failures_of client a) + 1 =
      ap length f ∙ length-append (failures_of client a) (g.at ∷ []) in
    let (n, all) =
      guess-failures start client gs next
        (subst (All (λ t. start ≤ t)) (sym f)
          (All-append (λ t. start ≤ t) (failures_of client a) g.at old within.0.0))
        (omega (arith, few, one_more)) (omega (arith, s, room)) within.1
        (still_wrong a next gs names bad.1) in
    (omega (arith, n, one_more), all)

-- Five wrong guesses of one client within fifteen minutes lock it out: as long as the table of
-- failures has room for it, a client without failures before them cannot log in until the window
-- from the first of them is over, whatever it offers.
pub login-locked :
    (start now pick : ℕ) (token client username password : Text) (gs : List Guess) (a : AdminAuth)
    → failures_of client a ≡ []
    → slots client a < admin_max_failures
    → length gs ≡ admin_lock_threshold
    → InWindow start gs
    → AllWrong a gs
    → now < start + admin_failure_window
    → (login pick now token client username password (guess client a gs)).0 ≡ none
login-locked start now pick token client username password gs a none_yet room five within bad lt =
    let (n, all) =
      guess-failures start client gs a (subst (All (λ t. start ≤ t)) (sym none_yet) tt)
        (omega (arith, ap length none_yet, five)) room within bad in
    let b = guess client a gs in
    let kept =
      cleanup_failures-kept now client b (recent-kept start now (failures_of client b) all lt) in
    shut_out pick now token client username password b
      (locked_by now client b (omega (arith, n, five, ap length kept.0)))
