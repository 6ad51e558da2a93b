-- ===== src/Dial/Order.antt =====
-- The list of recent dials of web/internal/corplink/proxy.go.
use fu_corplink.Common.{
  not, ◌&&◌, ◌*◌, ◌^◌, ◌<◌, ℕ, suc, ◌+◌, ◌≡◌, ◌≤◌, true, false, ◌||◌, Text, List, [], ◌∷◌, leb,
  text_eq, length, inl, inr, arith, Bool-cases, Option-cases, zero, refl, ap, if◌then◌else◌,
  is_some,
}
use fu_corplink.Upstream.Address.{NetText}
use fu_corplink.Dial.Recent.{recent_dial_cap, RecentDial, is_stale, keep_dials, record_recent_dial}

-- an address that no entry has
abbrev pub Absent : Text → List RecentDial → Type 0
Absent a [] = Unit {0}
Absent a (d ∷ ds) = (text_eq d.addr a ≡ false) × Absent a ds

abbrev pub Distinct : List RecentDial → Type 0
Distinct [] = Unit {0}
Distinct (d ∷ ds) = Absent d.addr ds × Distinct ds

-- entries of at most that time, the latest one first
abbrev pub Latest : ℕ → List RecentDial → Type 0
Latest t [] = Unit {0}
Latest t (d ∷ ds) = (d.at ≤ t) × Latest d.at ds

-- at most eight entries, no address twice, the latest dial first
abbrev pub IsRecent : ℕ → List RecentDial → Type 0
IsRecent now ds = (length ds ≤ recent_dial_cap) × (Distinct ds × Latest now ds)

keep_dials-Absent :
    (now : ℕ) (addr a : Text) (out : ℕ) (ds : List RecentDial)
    → Absent a ds
    → Absent a (keep_dials now addr out ds)
unfolding keep_dials
keep_dials-Absent now addr a out [] h = tt
keep_dials-Absent now addr a out (d ∷ ds) h =
    elim (text_eq d.addr addr || (is_stale now d || leb recent_dial_cap out))
      as (λ b. Absent a (elim b [
        | true ↦ keep_dials now addr out ds
        | false ↦ d ∷ keep_dials now addr (suc out) ds
      ])) [
        | true ↦ keep_dials-Absent now addr a out ds h.1
        | false ↦ (h.0, keep_dials-Absent now addr a (suc out) ds h.1)
      ]

Latest-le : (s t : ℕ) (ds : List RecentDial) → s ≤ t → Latest s ds → Latest t ds
Latest-le s t [] le h = tt
Latest-le s t (d ∷ ds) le h = (omega (arith, le, h.0), h.1)

-- what the loop keeps, by cases on its test
keep_dials-kept :
    (now : ℕ) (addr : Text) (out t : ℕ) (ds : List RecentDial)
    → Distinct ds
    → Latest t ds
    → out ≤ recent_dial_cap
    → (Absent addr (keep_dials now addr out ds)
        × (out + length (keep_dials now addr out ds) ≤ recent_dial_cap))
      × (Distinct (keep_dials now addr out ds) × Latest t (keep_dials now addr out ds))
unfolding keep_dials
keep_dials-kept now addr out t [] di la h = ((tt, omega (arith, h)), (tt, tt))
keep_dials-kept now addr out t (d ∷ ds) di la h =
    elim (Bool-cases (text_eq d.addr addr || (is_stale now d || leb recent_dial_cap out))) [
      | inl e ↦
          rw (e, keep_dials)
            (keep_dials-kept now addr out t ds di.1 (Latest-le d.at t ds la.0 la.1) h)
      | inr e ↦
          let kept = keep_dials-kept now addr (suc out) d.at ds di.1 la.1 (ground (arith, e, h)) in
          rw (e, keep_dials)
            (
              ((ground (arith, e), kept.0.0), omega (arith, kept.0.1)),
              ((keep_dials-Absent now addr d.addr (suc out) ds di.0, kept.1.0), (la.0, kept.1.1)),
            )
    ]

record_recent_dial-IsRecent :
    (net : NetText) (t now : ℕ) (addr : Text) (ds : List RecentDial)
    → t ≤ now
    → IsRecent t ds
    → IsRecent now (record_recent_dial net now addr ds)
unfolding record_recent_dial
record_recent_dial-IsRecent net t now addr ds le r =
    elim (Option-cases (net.split_host_port addr)) [
      | inl e ↦ rw (e, record_recent_dial) (r.0, (r.1.0, Latest-le t now ds le r.1.1))
      | inr (hp, e) ↦
          let kept =
            keep_dials-kept now addr 1 now ds r.1.0 (Latest-le t now ds le r.1.1) (omega arith) in
          rw (e, record_recent_dial)
            (omega (arith, kept.0.1), ((kept.0.0, kept.1.0), (omega arith, kept.1.1)))
    ]

-- successful dials, the last one first
abbrev pub recorded : NetText → List RecentDial → List RecentDial
recorded net [] = []
recorded net (d ∷ ds) = record_recent_dial net d.at d.addr (recorded net ds)

-- ten minutes in nanoseconds
abbrev pub ten_minutes : ℕ
ten_minutes = 600 * 10 ^ 9

-- the entries of a list with another address, and at most ten minutes before that dial
abbrev pub others : RecentDial → List RecentDial → List RecentDial
others d [] = []
others d (x ∷ xs) =
    if not (text_eq x.addr d.addr) && leb d.at (x.at + ten_minutes)
    then x ∷ others d xs
    else others d xs

-- the test of the loop, where there is room
is_kept :
    (d x : RecentDial) (out : ℕ)
    → out < recent_dial_cap
    → (text_eq x.addr d.addr || (is_stale d.at x || leb recent_dial_cap out))
      ≡ not (not (text_eq x.addr d.addr) && leb d.at (x.at + ten_minutes))
is_kept d x out h = ground arith

-- that many entries from the front
abbrev pub first : ℕ → List RecentDial → List RecentDial
first zero ds = []
first (suc n) [] = []
first (suc n) (d ∷ ds) = d ∷ first n ds

keep_dials-others :
    (d : RecentDial) (out left : ℕ) (ds : List RecentDial)
    → out + left ≡ recent_dial_cap
    → keep_dials d.at d.addr out ds ≡ first left (others d ds)
unfolding keep_dials
keep_dials-others d out zero [] h = refl
keep_dials-others d out (suc left) [] h = refl
keep_dials-others d out zero (x ∷ xs) h = ground (arith, h, keep_dials-others d out zero xs)
keep_dials-others d out (suc left) (x ∷ xs) h = ground (
  arith,
  h,
  is_kept d x out,
  keep_dials-others d out (suc left) xs,
  keep_dials-others d (suc out) left xs,
)

recorded_sorted :
    (net : NetText) (now : ℕ) (ds : List RecentDial)
    → Latest now ds
    → IsRecent now (recorded net ds)
recorded_sorted net now [] h = (omega arith, (tt, tt))
recorded_sorted net now (d ∷ ds) h =
    let r =
      record_recent_dial-IsRecent net d.at d.at d.addr (recorded net ds) (omega arith)
        (recorded_sorted net d.at ds h.1) in
    (
      r.0,
      (r.1.0, Latest-le d.at now (record_recent_dial net d.at d.addr (recorded net ds)) h.0 r.1.1),
    )

recorded-others :
    (net : NetText) (d : RecentDial) (ds : List RecentDial)
    → recorded net (d ∷ ds) ≡ (
        if is_some (net.split_host_port d.addr)
        then d ∷ first 7 (others d (recorded net ds))
        else recorded net ds)
unfolding record_recent_dial
recorded-others net d ds = elim (Option-cases (net.split_host_port d.addr)) [
  | inl e ↦ rw (e, record_recent_dial) refl
  | inr (hp, e) ↦
      simp (e, record_recent_dial)
        (ap (λ x. d ∷ x) (keep_dials-others d 1 7 (recorded net ds) refl))
]

-- Whatever dials were recorded, as long as the clock does not go back, the list of recent dials has
-- at most eight entries, no address twice, and the latest dial first. A dial to an address that
-- splits into host and port stands first, and behind it the first seven of the entries there were
-- that have another address and are at most ten minutes older; any other dial leaves the list as it was.
pub recorded-IsRecent :
    (net : NetText) (now : ℕ) (d : RecentDial) (ds : List RecentDial)
    → Latest now (d ∷ ds)
    → IsRecent now (recorded net (d ∷ ds))
      × (recorded net (d ∷ ds) ≡ (
          if is_some (net.split_host_port d.addr)
          then d ∷ first 7 (others d (recorded net ds))
          else recorded net ds))
recorded-IsRecent net now d ds h = (recorded_sorted net now (d ∷ ds) h, recorded-others net d ds)
