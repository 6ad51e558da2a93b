-- ===== src/Assets/Names.antt =====
-- isImmutableAssetPath of web/internal/corplink/proxy_cache.go. The expression's segment holds no
-- dot and a dot follows it, so it is the longest run of hash characters after the separator.
use fu_corplink.Common.{
  ℕ, ◌≤◌, ◌≡◌, refl, ap, subst, List, [], ◌∷◌, ◌++◌, Option, none, some, Text, length, arith, leb,
  ◌==◌, ◌||◌, ◌&&◌, if◌then◌else◌, text_eq, has_prefix, codes, drop, Bool, Bool-cases, Option-cases,
  inl, inr, is_some, true, false, All,
}

-- path[:i] for the first `?` or `#`
unfoldable pub cut_query : Text → Text
cut_query [] = []
cut_query (c ∷ s) = let rest = cut_query s in if c == b'?' || c == b'#' then [] else c ∷ rest

has_slash : Text → Bool
has_slash [] = false
has_slash (c ∷ s) = c == b'/' || has_slash s

-- path[strings.LastIndexByte(path, '/')+1:]
unfoldable pub base_name : Text → Text
unfolding has_slash
base_name [] = []
base_name (c ∷ s) =
    let rest = base_name s in if has_slash s then rest else if c == b'/' then s else c ∷ s

-- [-._]
abbrev pub is_separator : ℕ → Bool
is_separator c = c == b'-' || c == b'.' || c == b'_'

abbrev pub is_digit : ℕ → Bool
is_digit c = leb b'0' c && leb c b'9'

abbrev pub is_upper : ℕ → Bool
is_upper c = leb b'A' c && leb c b'Z'

abbrev pub is_lower : ℕ → Bool
is_lower c = leb b'a' c && leb c b'z'

-- [A-Za-z0-9_-]
abbrev pub is_hash_char : ℕ → Bool
is_hash_char c = is_upper c || is_lower c || is_digit c || c == b'_' || c == b'-'

-- the static extensions of the expression
abbrev pub extensions : List Text
extensions =
    codes "js"
    ∷ codes "mjs"
    ∷ codes "css"
    ∷ codes "woff"
    ∷ codes "woff2"
    ∷ codes "ttf"
    ∷ codes "otf"
    ∷ codes "eot"
    ∷ codes "svg"
    ∷ codes "png"
    ∷ codes "jpg"
    ∷ codes "jpeg"
    ∷ codes "gif"
    ∷ codes "webp"
    ∷ codes "avif"
    ∷ codes "ico"
    ∷ codes "wasm"
    ∷ codes "map"
    ∷ []

unfoldable pub one_of : Text → List Text → Bool
one_of s [] = false
one_of s (t ∷ ts) = text_eq s t || one_of s ts

-- \.(?:js|…)$
unfoldable pub is_extension : Text → Bool
is_extension [] = false
is_extension (c ∷ s) = c == b'.' && one_of s extensions

-- (?:\.chunk)?\.(?:js|…)$
unfoldable pub is_tail : Text → Bool
is_tail s = is_extension s || (has_prefix s (codes ".chunk") && is_extension (drop 6 s))

unfoldable pub span : (ℕ → Bool) → Text → Text × Text
span p [] = ([], [])
span p (c ∷ s) = let rest = span p s in if p c then (c ∷ rest.0, rest.1) else ([], c ∷ s)

-- the expression behind its separator
unfoldable pub match_after : Text → Option Text
match_after s =
    let run = span is_hash_char s in
    if leb 6 (length run.0) && is_tail run.1 then some run.0 else none

-- FindStringSubmatch: the leftmost match
unfoldable pub find_segment : Text → Option Text
unfolding match_after
find_segment [] = none
find_segment (c ∷ s) =
    let rest = find_segment s in
    if is_separator c then elim (match_after s) [ none ↦ rest | some seg ↦ some seg ] else rest

unfoldable pub any : (ℕ → Bool) → Text → Bool
any p [] = false
any p (c ∷ s) = p c || any p s

-- hasDigit || (hasUpper && hasLower)
unfoldable pub looks_hashed : Text → Bool
looks_hashed seg = any is_digit seg || (any is_upper seg && any is_lower seg)

unfoldable pub is_immutable_asset_path : Text → Bool
is_immutable_asset_path path = elim (find_segment (base_name (cut_query path))) [
  | none ↦ false
  | some seg ↦ looks_hashed seg
]

-- a name that has the form of the expression, with its segment
pub record Matches (name seg : Text) : Type 0 where
  pub before : Text
  pub separator : ℕ
  pub after : Text
  pub parts : name ≡ before ++ separator ∷ seg ++ after
  pub separates : is_separator separator ≡ true
  pub hash : All (λ c. is_hash_char c ≡ true) seg
  pub long : 6 ≤ length seg
  pub tail : is_tail after ≡ true

span_parts :
    (p : ℕ → Bool) (s : Text)
    → (s ≡ (span p s).0 ++ (span p s).1) × All (λ c. p c ≡ true) (span p s).0
unfolding span
span_parts p [] = (refl, tt)
span_parts p (c ∷ s) = elim (Bool-cases (p c)) [
  | inl e ↦ let (parts, holds) = span_parts p s in rw e (ap (◌∷◌ c) parts, (e, holds))
  | inr e ↦ rw e (refl, tt)
]

match_here :
    (c : ℕ) (s seg : Text) → is_separator c ≡ true → match_after s ≡ some seg → Matches (c ∷ s) seg
unfolding match_after
match_here c s seg sep h = record {
  before = [];
  separator = c;
  after = (span is_hash_char s).1;
  parts = ground (arith, (span_parts is_hash_char s).0);
  separates = sep;
  hash = subst (All (λ c. is_hash_char c ≡ true)) run_eq (span_parts is_hash_char s).1;
  long = ground arith;
  tail = ground arith;
}
  where
    run_eq : (span is_hash_char s).0 ≡ seg
    run_eq = ground arith

later : (c : ℕ) (s seg : Text) → Matches s seg → Matches (c ∷ s) seg
later c s seg m = record {
  before = c ∷ m.before;
  separator = m.separator;
  after = m.after;
  parts = ap (◌∷◌ c) m.parts;
  separates = m.separates;
  hash = m.hash;
  long = m.long;
  tail = m.tail;
}

-- Whatever the search finds is a segment of the expression.
find_segment-Matches : (s seg : Text) → find_segment s ≡ some seg → Matches s seg
unfolding find_segment
find_segment-Matches [] seg h = cc
find_segment-Matches (c ∷ s) seg h = elim (Bool-cases (is_separator c)) [
  | inr e ↦ later c s seg (find_segment-Matches s seg (rw e at h))
  | inl e ↦ elim (Option-cases (match_after s)) [
    | inl e' ↦ later c s seg (find_segment-Matches s seg (rw (e, e') at h))
    | inr (t, e') ↦ match_here c s seg e (ground arith)
  ]
]

tail_starts : (after : Text) → is_tail after ≡ true → span is_hash_char after ≡ ([], after)
unfolding is_tail is_extension span has_prefix
tail_starts [] h = refl
tail_starts (c ∷ s) h = ground arith

span-append :
    (seg after : Text)
    → All (λ c. is_hash_char c ≡ true) seg
    → is_tail after ≡ true
    → span is_hash_char (seg ++ after) ≡ (seg, after)
unfolding span
span-append [] after h t = tail_starts after t
span-append (c ∷ seg) after h t = rw (h.0, span-append seg after h.1 t)

find_segment_total :
    (before : Text) (separator : ℕ) (seg after : Text)
    → is_separator separator ≡ true
    → All (λ c. is_hash_char c ≡ true) seg
    → 6 ≤ length seg
    → is_tail after ≡ true
    → is_some (find_segment (before ++ separator ∷ seg ++ after)) ≡ true
unfolding find_segment match_after
find_segment_total [] separator seg after sep h l t = ground (arith, span-append seg after h t)
find_segment_total (c ∷ before) separator seg after sep h l t =
    ground (arith, find_segment_total before separator seg after sep h l t)

-- The search finds a segment exactly in the names that have the form of the expression: every
-- segment it returns is one, and it returns one wherever there is one.
pub find_segment_complete :
    (s : Text)
    → ((seg : Text) → find_segment s ≡ some seg → Matches s seg)
      × ((seg : Text) → Matches s seg → is_some (find_segment s) ≡ true)
find_segment_complete s = (
  find_segment-Matches s,
  λ seg m.
      rw m.parts
        (find_segment_total m.before m.separator seg m.after m.separates m.hash m.long m.tail),
)
