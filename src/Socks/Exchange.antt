-- ===== src/Socks/Exchange.antt =====
-- The exchange of a SOCKS5 client with web/internal/corplink/proxy.go.
use fu_corplink.Common.{
  ℕ, zero, suc, ◌+◌, ◌*◌, ◌≡◌, refl, ap, sym, ◌∙◌, subst, Bool, none, some, Text, [], ◌∷◌, ◌++◌,
  if◌then◌else◌, text_eq_iff, text_eq_refl, length, arith, Option-cases, inl, inr, Bool-cases,
  is_empty, true, false,
}
use fu_corplink.Socks.Handshake.{
  read_byte, read_full, read_counted, ProxyAuth, contains_byte, Turn, socks5_auth, required,
  negotiate, greet, read_socks_addr, socks5_reply, Result, dropped, relays, serve_request,
  handle_socks5,
}

-- a string behind its length
abbrev pub counted : Text → Text
counted s = length s ∷ s

pub read_full-append : (s t : Text) → read_full (length s) (s ++ t) ≡ some (s, t)
unfolding read_full
read_full-append [] t = refl
read_full-append (c ∷ s) t = rw (read_full-append s t) refl

pub read_counted-append : (s t : Text) → read_counted (counted s ++ t) ≡ some (s, t)
unfolding read_counted read_byte
read_counted-append s t = read_full-append s t

-- CONNECT to a domain name, and what follows it
abbrev pub connect_bytes : Text → ℕ → ℕ → Text → Text
connect_bytes host hi lo rest = 5 ∷ 1 ∷ 0 ∷ 3 ∷ counted host ++ (hi ∷ lo ∷ rest)

-- what a client sends: one method and its credentials where the user name is not empty, any methods
-- where it is, and CONNECT
unfoldable pub client_bytes : ProxyAuth → Text → Text → ℕ → ℕ → Text → Text
client_bytes auth methods host hi lo rest =
    if is_empty auth.username
    then 5 ∷ counted methods ++ connect_bytes host hi lo rest
    else 5 ∷ 1 ∷ 2 ∷ 1 ∷ counted auth.username
      ++ (counted auth.password ++ connect_bytes host hi lo rest)

-- what the client hears before the answer to its request
unfoldable pub answered : ProxyAuth → Text
answered auth = if is_empty auth.username then 5 ∷ 0 ∷ [] else 5 ∷ 2 ∷ 1 ∷ 0 ∷ []

-- socks5Auth accepts its own credentials
auth-accepts :
    (auth : ProxyAuth) (rest : Text)
    → socks5_auth auth (1 ∷ counted auth.username ++ (counted auth.password ++ rest))
      ≡ record { left = some rest; written = 1 ∷ 0 ∷ [] }
unfolding socks5_auth
auth-accepts auth rest =
    rw
      (
        read_counted-append auth.username (counted auth.password ++ rest),
        read_counted-append auth.password rest,
        text_eq_refl auth.username,
        text_eq_refl auth.password,
      )
      refl

greet-accepts :
    (auth : ProxyAuth) (rest : Text)
    → is_empty auth.username ≡ false
    → greet (some auth) (5 ∷ 1 ∷ 2 ∷ 1 ∷ counted auth.username ++ (counted auth.password ++ rest))
      ≡ record { left = some rest; written = 5 ∷ 2 ∷ 1 ∷ 0 ∷ [] }
unfolding greet negotiate required contains_byte read_counted read_byte read_full
greet-accepts auth rest h = rw (h, auth-accepts auth rest) refl

-- whatever a client offers, a proxy whose user name is empty asks for no credentials
greet-open :
    (auth : ProxyAuth) (methods rest : Text)
    → is_empty auth.username ≡ true
    → greet (some auth) (5 ∷ counted methods ++ rest)
      ≡ record { left = some rest; written = 5 ∷ 0 ∷ [] }
unfolding greet negotiate required
greet-open auth methods rest h = rw (read_counted-append methods rest, h) refl

serve_request-connects :
    (ip_string : Text → Text) (dial : Text → ℕ → Bool) (before host : Text) (hi lo : ℕ)
    (rest : Text)
    → serve_request ip_string dial before (5 ∷ 1 ∷ 0 ∷ 3 ∷ counted host ++ (hi ∷ lo ∷ rest)) ≡ (
        if dial host (256 * hi + lo)
        then (relays host (256 * hi + lo) rest, before ++ socks5_reply 0)
        else (dropped, before ++ socks5_reply 5))
unfolding serve_request read_socks_addr read_full
serve_request-connects ip_string dial before host hi lo rest =
    rw (read_counted-append host (hi ∷ lo ∷ rest)) refl

greeted :
    (ip_string : Text → Text) (dial : Text → ℕ → Bool) (auth : ProxyAuth) (s rest written : Text)
    → greet (some auth) s ≡ record { left = some rest; written = written }
    → handle_socks5 ip_string dial (some auth) s ≡ serve_request ip_string dial written rest
unfolding handle_socks5
greeted ip_string dial auth s rest written e = ap after e
  where
    after : Turn → Result × Text
    after t = elim t.left [
      | none ↦ (dropped, t.written)
      | some s1 ↦ serve_request ip_string dial t.written s1
    ]

-- To a proxy whose user name is not empty, a client that sends the proxy's credentials and CONNECT to
-- a domain name is relayed to exactly that name and port, with what it sends behind the request, if
-- the dial succeeds; it is refused and dropped otherwise. To a proxy whose user name is empty, a
-- client that offers any methods and sends the same CONNECT without credentials is served likewise.
pub handle_socks5-connects :
    (ip_string : Text → Text) (dial : Text → ℕ → Bool) (auth : ProxyAuth) (methods host : Text)
    (hi lo : ℕ) (rest : Text)
    → handle_socks5 ip_string dial (some auth) (client_bytes auth methods host hi lo rest) ≡ (
        if dial host (256 * hi + lo)
        then (relays host (256 * hi + lo) rest, answered auth ++ socks5_reply 0)
        else (dropped, answered auth ++ socks5_reply 5))
unfolding client_bytes answered
handle_socks5-connects ip_string dial auth methods host hi lo rest =
    elim (Bool-cases (is_empty auth.username)) [
      | inl e ↦
          simp (e, client_bytes, answered)
            (greeted ip_string dial auth (5 ∷ counted methods ++ connect_bytes host hi lo rest) _ _
                (greet-open auth methods (connect_bytes host hi lo rest) e)
              ∙ serve_request-connects ip_string dial (5 ∷ 0 ∷ []) host hi lo rest)
      | inr e ↦
          simp (e, client_bytes, answered)
            (greeted ip_string dial auth
                (5 ∷ 1 ∷ 2 ∷ 1 ∷ counted auth.username
                  ++ (counted auth.password ++ connect_bytes host hi lo rest))
                _ _ (greet-accepts auth (connect_bytes host hi lo rest) e)
              ∙ serve_request-connects ip_string dial (5 ∷ 2 ∷ 1 ∷ 0 ∷ []) host hi lo rest)
    ]

-- what readFull took stands in front of what it left
read_full-inverse :
    (n : ℕ) (s a b : Text) → read_full n s ≡ some (a, b) → (s ≡ a ++ b) × (length a ≡ n)
unfolding read_full
read_full-inverse zero s a b h = ground (arith, h)
read_full-inverse (suc n) [] a b h = absurd (ground (arith, h))
read_full-inverse (suc n) (c ∷ s) a b h = elim (Option-cases (read_full n s)) [
  | inl e ↦ absurd (ground (arith, h, e))
  | inr (r, e) ↦
      let (parts, len) = read_full-inverse n s r.0 r.1 e in
      subst (λ x. (c ∷ s ≡ x.0 ++ x.1) × (length x.0 ≡ suc n)) (some-inj (sym (step e) ∙ h))
        (ap (◌∷◌ c) parts, omega (arith, len))
]
  where
    some-inj : {x y : Text × Text} → some x ≡ some y → x ≡ y
    some-inj q = cc

    step :
        {r : Text × Text} → read_full n s ≡ some r → read_full (suc n) (c ∷ s) ≡ some (c ∷ r.0, r.1)
    step q = rw (q, read_full) refl

read_counted-inverse : (s a b : Text) → read_counted s ≡ some (a, b) → s ≡ counted a ++ b
unfolding read_counted read_byte
read_counted-inverse [] a b h = absurd (ground (arith, h))
read_counted-inverse (n ∷ s) a b h =
    let (parts, len) = read_full-inverse n s a b h in
    ap (◌∷◌ n) parts ∙ ap (λ k. k ∷ a ++ b) (sym len)

-- Nothing but the proxy's own credentials gets a client past the authentication: what it sent up to
-- there is the version, the username behind its length and the password behind its length.
pub socks5_auth-left :
    (auth : ProxyAuth) (s rest : Text)
    → (socks5_auth auth s).left ≡ some rest
    → s ≡ 1 ∷ counted auth.username ++ (counted auth.password ++ rest)
unfolding socks5_auth
socks5_auth-left auth [] rest h = absurd (ground (arith, h))
socks5_auth-left auth (ver ∷ s) rest h = elim (Option-cases (read_counted s)) [
  | inl e ↦ absurd (ground (arith, h, e))
  | inr ((u, s1), e) ↦ elim (Option-cases (read_counted s1)) [
    | inl e' ↦ absurd (ground (arith, h, e, e'))
    | inr ((p, s2), e') ↦
        let (version, user, pass, left) = accepted ver s u s1 p s2 e e' h in
        ap (λ v. v ∷ s) version
        ∙ ap (◌∷◌ 1) (
            read_counted-inverse s u s1 e
            ∙ ap (λ x. counted u ++ x) (read_counted-inverse s1 p s2 e')
            ∙ rw (user, pass, left) refl)
  ]
]
  where
    accepted :
        (ver : ℕ) (s u s1 p s2 : Text)
        → read_counted s ≡ some (u, s1)
        → read_counted s1 ≡ some (p, s2)
        → (socks5_auth auth (ver ∷ s)).left ≡ some rest
        → (ver ≡ 1) × (u ≡ auth.username) × (p ≡ auth.password) × (s2 ≡ rest)
    accepted ver s u s1 p s2 e e' h =
        ground (arith, e, e', h, text_eq_iff u auth.username, text_eq_iff p auth.password)
