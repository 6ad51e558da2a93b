-- ===== src/Dial/Marks.antt =====
-- The table of live hosts of web/internal/corplink/proxy.go against the history of the dials.
use fu_corplink.Common.{
  ℕ, ◌-◌, ◌≡◌, ◌≤◌, ◌<◌, refl, ◌∙◌, subst, Bool, false, ◌||◌, ◌&&◌, none, Text, List, [], ◌∷◌,
  if◌then◌else◌, ltb, leb, text_eq, text_eq_iff, length, inl, inr, arith, Bool-cases,
}
use fu_corplink.Common.Table.{lookup, insert, lookup-insert}
use fu_corplink.Dial.Recent.{recent_dial_ttl}
use fu_corplink.Dial.Live.{drop_stale, mark_host_live, host_was_live}

-- each key once
abbrev Unique : List (Text × ℕ) → Type 0
Unique [] = Unit {0}
Unique (e ∷ m) = (lookup e.0 m ≡ none) × Unique m

lookup-drop_stale-none :
    (now : ℕ) (k : Text) (m : List (Text × ℕ))
    → lookup k m ≡ none
    → lookup k (drop_stale now m) ≡ none
unfolding drop_stale lookup
lookup-drop_stale-none now k [] h = refl
lookup-drop_stale-none now k ((j, t) ∷ m) h = ground (arith, lookup-drop_stale-none now k m)

Unique-insert : (k : Text) (v : ℕ) (m : List (Text × ℕ)) → Unique m → Unique (insert k v m)
unfolding insert lookup
Unique-insert k v [] u = (refl, tt)
Unique-insert k v ((j, t) ∷ m) u = elim (Bool-cases (text_eq j k)) [
  | inl e ↦ rw (e, insert) (subst (λ i. lookup i m ≡ none) ((text_eq_iff j k).0 e) u.0, u.1)
  | inr e ↦
      rw (e, insert)
        (
          lookup-insert k j v m ∙ ground (arith, e, u.0, text_eq_iff j k, text_eq_iff k j),
          Unique-insert k v m u.1,
        )
]

Unique-drop_stale : (now : ℕ) (m : List (Text × ℕ)) → Unique m → Unique (drop_stale now m)
unfolding drop_stale
Unique-drop_stale now [] u = tt
Unique-drop_stale now ((j, t) ∷ m) u = elim (Bool-cases (ltb recent_dial_ttl (now - t))) [
  | inl e ↦ rw (e, drop_stale) (Unique-drop_stale now m u.1)
  | inr e ↦ rw (e, drop_stale) (lookup-drop_stale-none now j m u.0, Unique-drop_stale now m u.1)
]

-- what drop_stale takes off is not live any more
host_was_live-drop_stale :
    (t now : ℕ) (h : Text) (m : List (Text × ℕ))
    → t ≤ now
    → Unique m
    → host_was_live now h (drop_stale t m) ≡ host_was_live now h m
unfolding host_was_live drop_stale lookup
host_was_live-drop_stale t now h [] le u = refl
host_was_live-drop_stale t now h ((j, at) ∷ m) le u = ground (
  arith,
  le,
  u.0,
  text_eq_iff j h,
  lookup-drop_stale-none t j m,
  host_was_live-drop_stale t now h m le u.1,
)

-- dials to hosts, the last one first, of at most that time and none later than the one before it
abbrev pub Dated : ℕ → List (Text × ℕ) → Type 0
Dated now [] = Unit {0}
Dated now (e ∷ es) = (e.1 ≤ now) × Dated e.1 es

-- the table behind those dials
abbrev pub marked : List (Text × ℕ) → List (Text × ℕ)
marked [] = []
marked (e ∷ es) = mark_host_live e.1 e.0 (marked es)

-- whether one of them was to the host and is not older than ten minutes
unfoldable pub was_dialed : ℕ → Text → List (Text × ℕ) → Bool
was_dialed now h [] = false
was_dialed now h (e ∷ es) =
    (text_eq e.0 h && leb (now - e.1) recent_dial_ttl) || was_dialed now h es

was_dialed_stale :
    (t now : ℕ) (h : Text) (es : List (Text × ℕ))
    → Dated t es
    → recent_dial_ttl < now - t
    → was_dialed now h es ≡ false
unfolding was_dialed
was_dialed_stale t now h [] d s = refl
was_dialed_stale t now h (e ∷ es) d s =
    ground (arith, d.0, s, was_dialed_stale e.1 now h es d.1 (omega (arith, d.0, s)))

Unique-marked : (es : List (Text × ℕ)) → Unique (marked es)
unfolding mark_host_live
Unique-marked [] = tt
Unique-marked (e ∷ es) =
    let u = Unique-insert e.0 e.1 (marked es) (Unique-marked es) in
    elim (Bool-cases (ltb 256 (length (insert e.0 e.1 (marked es))))) [
      | inl b ↦ rw (b, mark_host_live) (Unique-drop_stale e.1 (insert e.0 e.1 (marked es)) u)
      | inr b ↦ rw (b, mark_host_live) u
    ]

host_was_live-mark :
    (t now : ℕ) (j h : Text) (m : List (Text × ℕ))
    → t ≤ now
    → Unique m
    → host_was_live now h (mark_host_live t j m) ≡ host_was_live now h (insert j t m)
unfolding mark_host_live
host_was_live-mark t now j h m le u = elim (Bool-cases (ltb 256 (length (insert j t m)))) [
  | inl b ↦
      rw (b, mark_host_live)
        (host_was_live-drop_stale t now h (insert j t m) le (Unique-insert j t m u))
  | inr b ↦ rw (b, mark_host_live) refl
]

host_was_live-insert :
    (t now : ℕ) (j h : Text) (m : List (Text × ℕ))
    → host_was_live now h (insert j t m)
      ≡ (if text_eq j h then leb (now - t) recent_dial_ttl else host_was_live now h m)
unfolding host_was_live
host_was_live-insert t now j h m = ground (arith, lookup-insert j h t m)

host_was_live_empty : (now : ℕ) (h : Text) → host_was_live now h [] ≡ false
unfolding host_was_live lookup
host_was_live_empty now h = refl

Dated-le : (s t : ℕ) (es : List (Text × ℕ)) → s ≤ t → Dated s es → Dated t es
Dated-le s t [] le d = tt
Dated-le s t (e ∷ es) le d = (omega (arith, le, d.0), d.1)

-- As long as the clock does not go back, a host counts as live exactly if one of the dials so far was
-- to it and is not older than ten minutes: what is deleted to bound the table is never missed.
pub host_was_live-marked :
    (now : ℕ) (h : Text) (es : List (Text × ℕ))
    → Dated now es
    → host_was_live now h (marked es) ≡ was_dialed now h es
unfolding was_dialed
host_was_live-marked now h [] d = host_was_live_empty now h
host_was_live-marked now h (e ∷ es) d =
    host_was_live-mark e.1 now e.0 h (marked es) d.0 (Unique-marked es)
    ∙ host_was_live-insert e.1 now e.0 h (marked es)
    ∙ ground (
      arith,
      host_was_live-marked now h es (Dated-le e.1 now es d.0 d.1),
      was_dialed_stale e.1 now h es d.1,
    )
