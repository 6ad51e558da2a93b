-- ===== src/Upstream/Examples.antt =====
-- Runs of web/internal/corplink/upstream.go.
use fu_corplink.Common.{
  ◌≡◌, refl, true, false, Option, none, some, Text, [], ◌∷◌, ◌++◌, if◌then◌else◌, codes, text_eq,
  arith, has_prefix, is_empty,
}
use fu_corplink.Common.Decimal.{itoa}
use fu_corplink.Socks.Handshake.{relays, dropped, socks5_reply, serve_request, contains_byte}
use fu_corplink.Upstream.Address.{NetText, IsNetText, socks5_request}
use fu_corplink.Upstream.Lines.{LineReader, skip_headers}
use fu_corplink.Upstream.Dial.{
  Peer, http_connect, connect_request, contains_text, failed, offered, socks5_greet, socks5_connect,
}
use fu_corplink.Upstream.Parse.{Url, UpstreamProxyConfig, http}
use fu_corplink.Upstream.Replies.{
  skip_headers-ends, header_bytes, http_connect-passes, socks5_connect_refused,
}
use fu_corplink.Upstream.Trip.{canonical, socks5_request-served}

-- names only, and the one port
abbrev names : NetText
names = record {
  split_host_port = λ addr. some (addr, itoa 443);
  join_host_port = λ h p. h ++ b':' ∷ p;
  parse_ip = λ h. none;
  ip_string = λ b. b;
}

names-IsNetText : IsNetText names
names-IsNetText = record {
  four = λ h b e. absurd (ground (arith, e));
  sixteen = λ h b e. absurd (ground (arith, e));
}

socks5_request-served_example :
    (req : Text) × (socks5_request names 1 (codes "host") ≡ some req)
    × (serve_request names.ip_string (λ h p. true) [] (req ++ codes "hello") ≡ (
        if true
        then (relays (canonical names (codes "host")) 443 (codes "hello"), [] ++ socks5_reply 0)
        else (dropped, [] ++ socks5_reply 5)))
socks5_request-served_example =
    socks5_request-served names (codes "host") (codes "host") 443 (λ h p. true) [] (codes "hello")
      names-IsNetText refl (omega arith) (omega arith)

abbrev reply : LineReader
reply = record { buf = []; conn = codes "A: b\r\n\r\n" }

skip_headers-ends_example : (r : Option LineReader) × (skip_headers 9 reply ≡ some r)
skip_headers-ends_example = skip_headers-ends 9 reply (omega arith)

abbrev status : Text
status = codes "HTTP/1.1 200 OK\r"

http_connect-passes_example :
    http_connect
      (λ t. t)
      []
      []
      (codes "a:1")
      (record {
        reached = true;
        takes_first = true;
        takes_second = true;
        sent = status ++ b'\n' ∷ header_bytes (codes "A: b\r" ∷ []) (codes "x");
      })
    ≡ record {
      conn = some (record { buf = []; conn = codes "x" });
      written = connect_request (λ t. t) [] [] (codes "a:1");
    }
unfolding contains_byte contains_text has_prefix text_eq
http_connect-passes_example =
    http_connect-passes (λ t. t) [] [] (codes "a:1") status (codes "x") (codes "A: b\r" ∷ []) true
      refl refl ((refl, refl, refl), tt)

abbrev polite : Peer
polite = record {
  reached = true;
  takes_first = true;
  takes_second = true;
  sent = 5 ∷ 2 ∷ codes "x";
}

socks5_connect_refused_example :
    (is_empty (codes "u") ≡ false
      → socks5_connect names (codes "u") (codes "a") polite ≡ failed (5 ∷ 1 ∷ 2 ∷ []))
    × (is_empty (codes "u") ≡ true → socks5_greet polite.sent ≡ some (codes "x"))
unfolding offered is_empty
socks5_connect_refused_example =
    socks5_connect_refused names (codes "u") (codes "a") (codes "x") polite refl refl refl

abbrev parse : Text → Option Url
parse t = some (record { scheme = codes "http"; host = codes "p:80"; user = []; pass = [] })

abbrev parsed : UpstreamProxyConfig
parsed = record {
  raw = codes "http://p:80";
  scheme = http;
  host = codes "p:80";
  user = [];
  pass = [];
}
