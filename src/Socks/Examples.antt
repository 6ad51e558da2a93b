-- ===== src/Socks/Examples.antt =====
-- A SOCKS5 exchange with web/internal/corplink/proxy.go.
use fu_corplink.Common.{
  ℕ, ◌+◌, ◌*◌, ◌≡◌, refl, Bool, true, some, ◌∷◌, ◌++◌, [], codes, Text, if◌then◌else◌, text_eq,
}
use fu_corplink.Socks.Handshake.{
  ProxyAuth, socks5_auth, socks5_reply, relays, dropped, handle_socks5, read_counted, read_full,
  read_byte,
}
use fu_corplink.Socks.Exchange.{
  counted, client_bytes, answered, handle_socks5-connects, socks5_auth-left,
}

abbrev owner : ProxyAuth
owner = record { username = codes "u"; password = codes "pw" }

abbrev reachable : Text → ℕ → Bool
reachable host port = true

handle_socks5-connects_example :
    handle_socks5
      (λ ip. ip)
      reachable
      (some owner)
      (client_bytes owner (0 ∷ 2 ∷ []) (codes "host") 1 187 (codes "hello"))
    ≡ (if reachable (codes "host") (256 * 1 + 187)
        then (
          relays (codes "host") (256 * 1 + 187) (codes "hello"),
          answered owner ++ socks5_reply 0,
        )
        else (dropped, answered owner ++ socks5_reply 5))
handle_socks5-connects_example =
    handle_socks5-connects (λ ip. ip) reachable owner (0 ∷ 2 ∷ []) (codes "host") 1 187
      (codes "hello")

abbrev sent : Text
sent = 1 ∷ counted (codes "u") ++ (counted (codes "pw") ++ codes "x")

socks5_auth-left_example :
    sent ≡ 1 ∷ counted owner.username ++ (counted owner.password ++ codes "x")
unfolding socks5_auth read_counted read_full read_byte text_eq
socks5_auth-left_example = socks5_auth-left owner sent (codes "x") refl
