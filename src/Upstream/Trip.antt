-- ===== src/Upstream/Trip.antt =====
-- What socks5Request of web/internal/corplink/upstream.go sends, read by the SOCKS5 server of
-- web/internal/corplink/proxy.go.
use fu_corplink.Common.{
  ℕ, ◌^◌, ◌≡◌, ◌≤◌, ◌<◌, refl, ap, sym, ◌∙◌, subst, Bool, none, some, Text, ◌∷◌, ◌++◌,
  if◌then◌else◌, length, inl, inr, arith, Option-cases, append_assoc,
}
use fu_corplink.Common.Decimal.{itoa, digits_value, parse_digits, digits_value-itoa, itoa-head}
use fu_corplink.Socks.Handshake.{
  read_full, read_socks_addr, Result, relays, dropped, socks5_reply, serve_request,
}
use fu_corplink.Socks.Exchange.{read_full-append, read_counted-append}
use fu_corplink.Upstream.Address.{
  v4, v6, NetText, IsNetText, wire_port, wire_host, two_bytes, socks5_request, read_host,
}

wire_port-itoa : (p : ℕ) → p < 2 ^ 16 → wire_port (itoa p) ≡ some p
unfolding wire_port parse_digits
wire_port-itoa p h =
    let (c, s, e, dec) = itoa-head p in
    subst (λ t. wire_port t ≡ some p) (sym e)
      (ground (arith, dec, h, subst (λ t. digits_value 0 t ≡ some p) e (digits_value-itoa p)))

-- the host that is dialed for a host: an address in the form that net.IP.String gives it
unfoldable pub canonical : NetText → Text → Text
canonical net host = elim (net.parse_ip host) [
  | none ↦ host
  | some (v4 b) ↦ net.ip_string b
  | some (v6 b) ↦ net.ip_string b
]

-- a wire address is its type and what readSocksAddr reads the host from
record Sent (net : NetText) (host : Text) : Type 0 where
  atyp : ℕ
  body : Text
  wired : wire_host net host ≡ some (atyp ∷ body)
  reads :
      (rest : Text)
      → read_socks_addr net.ip_string atyp (body ++ rest) ≡ some (canonical net host, rest)

read_full-at : (n : ℕ) (s t : Text) → length s ≡ n → read_full n (s ++ t) ≡ some (s, t)
read_full-at n s t h = subst (λ k. read_full k (s ++ t) ≡ some (s, t)) h (read_full-append s t)

wire_host-Sent : (net : NetText) (host : Text) → IsNetText net → length host ≤ 255 → Sent net host
unfolding wire_host canonical read_socks_addr
wire_host-Sent net host ok h = elim (Option-cases (net.parse_ip host)) [
  | inl e ↦ record {
    atyp = 3;
    body = length host ∷ host;
    wired = rw (e, wire_host) (ground (arith, h));
    reads = λ rest. rw (e, canonical, read_counted-append host rest) refl;
  }
  | inr (v4 b, e) ↦ record {
    atyp = 1;
    body = b;
    wired = rw (e, wire_host) refl;
    reads = λ rest. rw (e, canonical, read_full-at 4 b rest (ok.four host b e)) refl;
  }
  | inr (v6 b, e) ↦ record {
    atyp = 4;
    body = b;
    wired = rw (e, wire_host) refl;
    reads = λ rest. rw (e, canonical, read_full-at 16 b rest (ok.sixteen host b e)) refl;
  }
]

serve_request-reads :
    (ip_string : Text → Text) (dial : Text → ℕ → Bool) (before host rest s : Text) (atyp p : ℕ)
    → p < 2 ^ 16
    → read_socks_addr ip_string atyp s ≡ some (host, two_bytes p ++ rest)
    → serve_request ip_string dial before (5 ∷ 1 ∷ 0 ∷ atyp ∷ s) ≡ (
        if dial host p
        then (relays host p rest, before ++ socks5_reply 0)
        else (dropped, before ++ socks5_reply 5))
unfolding serve_request read_full
serve_request-reads ip_string dial before host rest s atyp p h e =
    rw (e, serve_request, read_full) (ap answer (omega (arith, h)))
  where
    answer : ℕ → Result × Text
    answer q =
        if dial host q
        then (relays host q rest, before ++ socks5_reply 0)
        else (dropped, before ++ socks5_reply 5)

socks5_request-wired :
    (net : NetText) (addr host wire : Text) (p : ℕ)
    → net.split_host_port addr ≡ some (host, itoa p)
    → p < 2 ^ 16
    → wire_host net host ≡ some wire
    → socks5_request net 1 addr ≡ some (5 ∷ 1 ∷ 0 ∷ wire ++ two_bytes p)
unfolding socks5_request
socks5_request-wired net addr host wire p split small wired =
    simp (socks5_request, split, wire_port-itoa p small, wired)

-- With IP addresses of four bytes or sixteen: for a host of at most 255 bytes and a port below 2^16,
-- printed without leading zeros, the client makes a CONNECT request, and the proxy's own SOCKS5
-- server that reads it relays to exactly that port of that host, an IP address in its printed form,
-- and passes on what follows the request; it drops the client where its dial fails.
pub socks5_request-served :
    (net : NetText) (addr host : Text) (p : ℕ) (dial : Text → ℕ → Bool) (before rest : Text)
    → IsNetText net
    → net.split_host_port addr ≡ some (host, itoa p)
    → length host ≤ 255
    → p < 2 ^ 16
    → (req : Text) × (socks5_request net 1 addr ≡ some req)
      × (serve_request net.ip_string dial before (req ++ rest) ≡ (
          if dial (canonical net host) p
          then (relays (canonical net host) p rest, before ++ socks5_reply 0)
          else (dropped, before ++ socks5_reply 5)))
socks5_request-served net addr host p dial before rest ok split short small =
    let sent = wire_host-Sent net host ok short in
    (
      5 ∷ 1 ∷ 0 ∷ (sent.atyp ∷ sent.body) ++ two_bytes p,
      socks5_request-wired net addr host (sent.atyp ∷ sent.body) p split small sent.wired,
      ap (λ b. serve_request net.ip_string dial before (5 ∷ 1 ∷ 0 ∷ sent.atyp ∷ b))
            (append_assoc sent.body (two_bytes p) rest)
          ∙ serve_request-reads net.ip_string dial before (canonical net host) rest
              (sent.body ++ (two_bytes p ++ rest)) sent.atyp p small
              (sent.reads (two_bytes p ++ rest)),
    )

-- The reader of a reply and the server's reader of a request take the same host from the same bytes,
-- whatever the address type, and fail on the same ones.
pub read_host-read_socks_addr :
    (net : NetText) (atyp : ℕ) (s : Text)
    → read_host net atyp s ≡ read_socks_addr net.ip_string atyp s
unfolding read_host read_socks_addr
read_host-read_socks_addr net atyp s = refl
