-- ===== src/Upstream/Address.antt =====
-- socks5Request and socks5ReadAddr of web/internal/corplink/upstream.go. The parts of package net
-- that they call are a parameter.
use fu_corplink.Common.{
  ℕ, ◌+◌, ◌-◌, ◌*◌, ◌/◌, ◌%◌, ◌^◌, ◌≡◌, Option, none, some, Text, [], ◌∷◌, ◌++◌, if◌then◌else◌,
  ◌==◌, leb, ltb, is_empty, length,
}
use fu_corplink.Common.Decimal.{digits_value, parse_digits}
use fu_corplink.Socks.Handshake.{read_full, read_counted}

-- what net.ParseIP answers, as To4 and To16 give its bytes
pub data Ip : Type 0 where
  v4 v6 : Text → Ip

-- net.SplitHostPort, net.JoinHostPort, net.ParseIP and net.IP.String
pub record NetText : Type 0 where
  pub split_host_port : Text → Option (Text × Text)
  pub join_host_port : Text → Text → Text
  pub parse_ip : Text → Option Ip
  pub ip_string : Text → Text

-- ParseIP answers with four bytes or sixteen
pub record IsNetText (net : NetText) : Type 0 where
  pub four : (h b : Text) → net.parse_ip h ≡ some (v4 b) → length b ≡ 4
  pub sixteen : (h b : Text) → net.parse_ip h ≡ some (v6 b) → length b ≡ 16

-- uint16 of what strconv.Atoi reads
unfoldable pub wire_port : Text → Option ℕ
wire_port [] = none
wire_port (c ∷ s) =
    if c == b'-'
    then if is_empty s then none else (elim (digits_value 0 s) [
      | none ↦ none
      | some n ↦ if leb n (2 ^ 63) then some ((2 ^ 16 - n % 2 ^ 16) % 2 ^ 16) else none
    ])
    else (elim (parse_digits (if c == b'+' then s else c ∷ s)) [
      | none ↦ none
      | some n ↦ some (n % 2 ^ 16)
    ])

-- the address type and the address, as they go over the wire
unfoldable pub wire_host : NetText → Text → Option Text
wire_host net host = elim (net.parse_ip host) [
  | some (v4 b) ↦ some (1 ∷ b)
  | some (v6 b) ↦ some (4 ∷ b)
  | none ↦ if ltb 255 (length host) then none else some (3 ∷ length host ∷ host)
]

-- binary.BigEndian.PutUint16
abbrev pub two_bytes : ℕ → Text
two_bytes n = n / 256 ∷ n % 256 ∷ []

-- socks5Request
unfoldable pub socks5_request : NetText → ℕ → Text → Option Text
unfolding wire_port wire_host
socks5_request net cmd addr = elim (net.split_host_port addr) [
  | none ↦ none
  | some (host, port_str) ↦ elim (wire_port port_str) [
    | none ↦ none
    | some port ↦ elim (wire_host net host) [
      | none ↦ none
      | some h ↦ some (5 ∷ cmd ∷ 0 ∷ h ++ two_bytes port)
    ]
  ]
]

-- the host that socks5ReadAddr reads
unfoldable pub read_host : NetText → ℕ → Text → Option (Text × Text)
read_host net atyp s =
    if atyp == 1
    then elim (read_full 4 s) [ none ↦ none | some r ↦ some (net.ip_string r.0, r.1) ]
    else if atyp == 3
    then read_counted s
    else if atyp == 4
    then elim (read_full 16 s) [ none ↦ none | some r ↦ some (net.ip_string r.0, r.1) ]
    else none

-- binary.BigEndian.Uint16, and what is left behind it
unfoldable pub read_port : Text → Option (ℕ × Text)
read_port s = elim (read_full 2 s) [
  | none ↦ none
  | some (hi ∷ lo ∷ [], rest) ↦ some (256 * hi + lo, rest)
  | some _ ↦ none
]

-- socks5ReadAddr: host, port, and what is left of the input
unfoldable pub socks5_read_addr : NetText → ℕ → Text → Option (Text × ℕ × Text)
unfolding read_host read_port
socks5_read_addr net atyp s = elim (read_host net atyp s) [
  | none ↦ none
  | some h ↦ elim (read_port h.1) [ none ↦ none | some p ↦ some (h.0, p.0, p.1) ]
]
