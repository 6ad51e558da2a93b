-- ===== src/Upstream/Dial.antt =====
-- httpConnect, socks5Greet, socks5Connect and DialContext of web/internal/corplink/upstream.go, on a
-- proxy whose side of the connection is given: whether it is reached, which writes it takes, and what
-- it sends. The deadlines and the keepalive settings are left out.
use fu_corplink.Common.{
  ℕ, suc, Bool, not, ◌||◌, ◌&&◌, Option, none, some, Text, [], ◌∷◌, ◌++◌, if◌then◌else◌, ◌==◌,
  codes, length, is_empty, has_prefix,
}
use fu_corplink.Socks.Handshake.{read_full}
use fu_corplink.Upstream.Address.{NetText, socks5_request, socks5_read_addr}
use fu_corplink.Upstream.Parse.{UpstreamProxyConfig, enabled, is_socks5}
use fu_corplink.Upstream.Lines.{new_line_reader, read_string, skip_headers, LeftoverConn}

-- what the other side does: whether the dial and the writes succeed, and the bytes it sends
pub record Peer : Type 0 where
  pub reached : Bool
  pub takes_first : Bool
  pub takes_second : Bool
  pub sent : Text

-- an error, or the connection that is handed out; with what was written to the proxy
pub record Dialed : Type 0 where
  pub conn : Option LeftoverConn
  pub written : Text

abbrev pub failed : Text → Dialed
failed written = record { conn = none; written = written }

-- net.Dialer
unfoldable pub dialed_directly : Peer → Dialed
dialed_directly peer =
    if peer.reached
    then record { conn = some (record { buf = []; conn = peer.sent }); written = [] }
    else failed []

-- strings.Contains
unfoldable pub contains_text : Text → Text → Bool
contains_text [] p = is_empty p
contains_text (c ∷ s) p = let rest = contains_text s p in has_prefix (c ∷ s) p || rest

-- the CONNECT request; `base64` is base64.StdEncoding
unfoldable pub connect_request : (Text → Text) → Text → Text → Text → Text
connect_request base64 user pass addr =
    codes "CONNECT "
    ++ (addr
        ++ (codes " HTTP/1.1\r\nHost: "
            ++ (addr
                ++ (codes "\r\n"
                    ++ ((if is_empty user
                          then []
                          else codes "Proxy-Authorization: Basic "
                            ++ (base64 (user ++ (b':' ∷ pass)) ++ codes "\r\n"))
                        ++ codes "\r\n")))))

-- httpConnect; the fuel is one more than the bytes there are to read
unfoldable pub http_connect : (Text → Text) → Text → Text → Text → Peer → Dialed
unfolding connect_request contains_text
http_connect base64 user pass addr peer =
    let req = connect_request base64 user pass addr in
    let status = read_string b'\n' (new_line_reader peer.sent) in
    if not peer.reached
    then failed []
    else if not peer.takes_first
    then failed []
    else (elim status.0 [
      | none ↦ failed req
      | some line ↦
          if contains_text line (codes " 200 ")
          then (elim (skip_headers (suc (length peer.sent)) status.1) [
            | some (some l) ↦ record {
              conn = some (record { buf = l.buf; conn = l.conn });
              written = req;
            }
            | some none ↦ failed req
            | none ↦ failed req
          ])
          else failed req
    ])

-- the one method that socks5Greet offers
unfoldable pub offered : Text → ℕ
offered user = if is_empty user then 0 else 2

-- socks5Greet: what is left to read, or an error
unfoldable pub socks5_greet : Text → Option Text
socks5_greet sent = elim (read_full 2 sent) [
  | some (ver ∷ method ∷ [], rest) ↦ if ver == 5 && method == 0 then some rest else none
  | some _ ↦ none
  | none ↦ none
]

-- the reply to the request: what is left to read, or an error
unfoldable pub socks5_reply_read : NetText → Text → Option Text
socks5_reply_read net s = elim (read_full 4 s) [
  | some (ver ∷ rep ∷ rsv ∷ atyp ∷ [], rest) ↦
      if rep == 0
      then elim (socks5_read_addr net atyp rest) [ none ↦ none | some r ↦ some r.2 ]
      else none
  | some _ ↦ none
  | none ↦ none
]

-- socks5Connect; the first write is the greeting, the second the request
unfoldable pub socks5_connect : NetText → Text → Text → Peer → Dialed
unfolding offered socks5_greet
socks5_connect net user addr peer =
    let greeting = 5 ∷ 1 ∷ offered user ∷ [] in
    if not peer.reached
    then failed []
    else if not peer.takes_first
    then failed []
    else (elim (socks5_greet peer.sent) [
      | none ↦ failed greeting
      | some s1 ↦ elim (socks5_request net 1 addr) [
        | none ↦ failed greeting
        | some req ↦
            if not peer.takes_second then failed greeting else (elim (socks5_reply_read net s1) [
              | none ↦ failed (greeting ++ req)
              | some s2 ↦ record {
                conn = some (record { buf = []; conn = s2 });
                written = greeting ++ req;
              }
            ])
      ]
    ])

-- DialContext; without a proxy it dials the address itself, which sends what `direct` has
unfoldable pub dial_context :
    (Text → Text) → NetText → Option UpstreamProxyConfig → Text → Peer → Peer → Dialed
unfolding http_connect socks5_connect
dial_context base64 net none addr proxy direct = dialed_directly direct
dial_context base64 net (some p) addr proxy direct =
    if not (enabled (some p))
    then dialed_directly direct
    else if is_socks5 (some p)
    then socks5_connect net p.user addr proxy
    else http_connect base64 p.user p.pass addr proxy
