-- ===== src/Socks/Handshake.antt =====
-- handleSocks5, socks5Auth and readSocksAddr of web/internal/corplink/proxy.go: what is read off the
-- client and written to it, up to the relay. Errors of the writes are ignored, as in the code.
use fu_corplink.Common.{
  ℕ, zero, suc, ◌+◌, ◌*◌, Bool, false, not, ◌&&◌, ◌||◌, Option, none, some, Text, List, [], ◌∷◌,
  ◌++◌, if◌then◌else◌, ◌==◌, text_eq, is_empty,
}

-- br.ReadByte
unfoldable pub read_byte : Text → Option (ℕ × Text)
read_byte [] = none
read_byte (c ∷ s) = some (c, s)

-- io.ReadFull
unfoldable pub read_full : ℕ → Text → Option (Text × Text)
read_full zero s = some ([], s)
read_full (suc n) [] = none
read_full (suc n) (c ∷ s) = elim (read_full n s) [ none ↦ none | some r ↦ some (c ∷ r.0, r.1) ]

-- a length byte and as many bytes
unfoldable pub read_counted : Text → Option (Text × Text)
unfolding read_byte
read_counted s = elim (read_byte s) [ none ↦ none | some r ↦ read_full r.0 r.1 ]

pub record ProxyAuth : Type 0 where
  pub username : Text
  pub password : Text

-- containsByte
unfoldable pub contains_byte : List ℕ → ℕ → Bool
contains_byte [] target = false
contains_byte (x ∷ l) target = x == target || contains_byte l target

-- what is left of the input, or `none` where the connection is given up, and what was written
pub record Turn : Type 0 where
  pub left : Option Text
  pub written : Text

-- socks5Auth
unfoldable pub socks5_auth : ProxyAuth → Text → Turn
unfolding read_counted
socks5_auth auth [] = record { left = none; written = [] }
socks5_auth auth (ver ∷ s) =
    if not (ver == 1) then record { left = none; written = [] } else (elim (read_counted s) [
      | none ↦ record { left = none; written = [] }
      | some u ↦ elim (read_counted u.1) [
        | none ↦ record { left = none; written = [] }
        | some p ↦
            if text_eq u.0 auth.username && text_eq p.0 auth.password
            then record { left = some p.1; written = 1 ∷ 0 ∷ [] }
            else record { left = none; written = 1 ∷ 1 ∷ [] }
      ]
    ])

-- required of ProxyAuth; `none` is the nil pointer
unfoldable pub required : Option ProxyAuth → Bool
required none = false
required (some a) = not (is_empty a.username)

-- what the proxy does with the methods that a client offers
unfoldable pub negotiate : Option ProxyAuth → Text → Text → Turn
unfolding required
negotiate none methods s = record { left = some s; written = 5 ∷ 0 ∷ [] }
negotiate (some a) methods s =
    if required (some a)
    then (if not (contains_byte methods 2)
        then record { left = none; written = 5 ∷ 255 ∷ [] }
        else (let t = socks5_auth a s in record { left = t.left; written = 5 ∷ 2 ∷ t.written }))
    else record { left = some s; written = 5 ∷ 0 ∷ [] }

-- the greeting
unfoldable pub greet : Option ProxyAuth → Text → Turn
unfolding read_counted negotiate
greet auth [] = record { left = none; written = [] }
greet auth (ver ∷ s) =
    if not (ver == 5) then record { left = none; written = [] } else (elim (read_counted s) [
      | none ↦ record { left = none; written = [] }
      | some r ↦ negotiate auth r.0 r.1
    ])

-- readSocksAddr; `ip_string` is net.IP.String
unfoldable pub read_socks_addr : (Text → Text) → ℕ → Text → Option (Text × Text)
read_socks_addr ip_string atyp s =
    if atyp == 1
    then elim (read_full 4 s) [ none ↦ none | some r ↦ some (ip_string r.0, r.1) ]
    else if atyp == 3
    then read_counted s
    else if atyp == 4
    then elim (read_full 16 s) [ none ↦ none | some r ↦ some (ip_string r.0, r.1) ]
    else none

-- socks5Reply
abbrev pub socks5_reply : ℕ → Text
socks5_reply code = 5 ∷ code ∷ 0 ∷ 1 ∷ 0 ∷ 0 ∷ 0 ∷ 0 ∷ 0 ∷ 0 ∷ []

-- the connection is closed, or relays to a host and port what is left of the input
pub data Result : Type 0 where
  dropped : Result
  relays : Text → ℕ → Text → Result

-- the request, with the dial's success; what was written before comes first
unfoldable pub serve_request : (Text → Text) → (Text → ℕ → Bool) → Text → Text → Result × Text
serve_request ip_string dial before s = elim (read_full 4 s) [
  | none ↦ (dropped, before)
  | some (ver ∷ cmd ∷ rsv ∷ atyp ∷ [], s1) ↦
      if not (ver == 5)
      then (dropped, before)
      else if not (cmd == 1)
      then (dropped, before ++ socks5_reply 7)
      else (elim (read_socks_addr ip_string atyp s1) [
        | none ↦ (dropped, before ++ socks5_reply 8)
        | some addr ↦ elim (read_full 2 addr.1) [
          | none ↦ (dropped, before)
          | some (hi ∷ lo ∷ [], s2) ↦
              if dial addr.0 (256 * hi + lo)
              then (relays addr.0 (256 * hi + lo) s2, before ++ socks5_reply 0)
              else (dropped, before ++ socks5_reply 5)
          | some _ ↦ (dropped, before)
        ]
      ])
  | some _ ↦ (dropped, before)
]

-- handleSocks5
unfoldable pub handle_socks5 :
    (Text → Text) → (Text → ℕ → Bool) → Option ProxyAuth → Text → Result × Text
handle_socks5 ip_string dial auth s =
    let t = greet auth s in
    elim t.left [
      | none ↦ (dropped, t.written)
      | some s1 ↦ serve_request ip_string dial t.written s1
    ]
