-- ===== src/Session/Examples.antt =====
-- Runs of web/internal/corplink/client.go.
use fu_corplink.Common.{
  ◌%◌, arith, ◌⊎◌, ◌≡◌, ◌≤◌, ◌<◌, ◌^◌, refl, true, false, none, some, Text, [], ◌∷◌, ◌++◌, codes,
  text_eq, length,
}
use fu_corplink.Common.Table.{lookup}
use fu_corplink.Session.Jar.{StoredCookie, Jar, by_name, get, copy_host}
use fu_corplink.Session.Api.{disconnect_vpn, is_vpn_scoped}
use fu_corplink.Session.Totp.{Skew, totp_offset, six_digits, pkcs7_pad}
use fu_corplink.Session.Client.{Conf, World, Client, no_reply, VpnInfo, base_of}
use fu_corplink.Session.Nodes.{probe_latencies, select_vpn}
use fu_corplink.Session.Cookies.{get-copy_host}
use fu_corplink.Session.Codes.{totp_offset_bounds, unpad, pkcs7_pad-unpad}
use fu_corplink.Session.Choice.{In, HasId, SettledOn, node_base, select_vpn-SettledOn}
use fu_corplink.Session.Reports.{probe_latencies-base_of}

abbrev cookie : StoredCookie
cookie = record {
  name = codes "sid";
  value = codes "1";
  host = codes "s";
  path = codes "/";
  expires = none;
}

abbrev jar : Jar
jar = (codes "s", (codes "sid", cookie) ∷ []) ∷ []

get-copy_host_example :
    (get (codes "10.0.0.1") (codes "sid") (copy_host (codes "s") (codes "10.0.0.1") jar)
      ≡ (elim (get (codes "s") (codes "sid") jar) [
        | none ↦ get (codes "10.0.0.1") (codes "sid") jar
        | some v ↦ some v
      ]))
    × ((h : Text)
        → text_eq (codes "10.0.0.1") h ≡ false
        → get h (codes "sid") (copy_host (codes "s") (codes "10.0.0.1") jar)
          ≡ get h (codes "sid") jar)
unfolding by_name lookup text_eq
get-copy_host_example = get-copy_host (codes "s") (codes "10.0.0.1") (codes "sid") jar (refl, tt)

abbrev mac : Text → Text → Text
mac key message = key

totp_offset_bounds_example :
    ((totp_offset mac (codes "key") 59 (Skew.behind 31)).0 < 10 ^ 6)
    × (length (six_digits (totp_offset mac (codes "key") 59 (Skew.behind 31)).0) ≡ 6)
    × (1 ≤ (totp_offset mac (codes "key") 59 (Skew.behind 31)).1)
    × ((totp_offset mac (codes "key") 59 (Skew.behind 31)).1 ≤ 30)
totp_offset_bounds_example = totp_offset_bounds mac (codes "key") 59 (Skew.behind 31)

-- a service that answers nothing
abbrev world : World
world = record {
  hostname = λ url. some (codes "s");
  with_host = λ url host. host;
  join_host_port = λ h p. h ++ b':' ∷ p;
  envelope = λ body. none;
  send = λ sent call. no_reply;
  now = λ sent. 0;
  elapsed = λ sent. 0;
  saves = λ sent. true;
}

abbrev node1 : VpnInfo
node1 = record {
  api_port = 1;
  vpn_port = 2;
  ip = codes "a";
  protocol_mode = 1;
  id = 7;
  latency_ms = some 0;
}

abbrev node2 : VpnInfo
node2 = record node1 { ip = codes "b"; id = 8 }

abbrev conf : Conf
conf = record {
  server = codes "https://s";
  username = [];
  platform = [];
  code = [];
  device_id = [];
  device_name = [];
  public_key = [];
  vpn_server_id = 8;
  by_latency = false;
}

abbrev client : Client
client = record {
  conf = conf;
  jar = jar;
  time_offset = Skew.ahead 0;
  vpn_base = codes "a:1";
  upstream_proxy = none;
  sent = [];
}

select_vpn-SettledOn_example :
    (v : VpnInfo) × In v (node1 ∷ node2 ∷ [])
    × SettledOn world (codes "https://s") v (select_vpn world (node1 ∷ node2 ∷ []) client)
    × ((client.conf.vpn_server_id ≡ 0) ⊎ (v.id ≡ 8) ⊎ ¬ HasId 8 (node1 ∷ node2 ∷ []))
select_vpn-SettledOn_example = select_vpn-SettledOn world node1 (node2 ∷ []) client refl

probe_latencies-base_of_example :
    base_of disconnect_vpn (probe_latencies world (0 ∷ [] ++ 1 ∷ []) (node1 ∷ node2 ∷ []) client).1
    ≡ node_base world (codes "https://s") node2
unfolding is_vpn_scoped
probe_latencies-base_of_example =
    probe_latencies-base_of world (0 ∷ []) 1 (node1 ∷ node2 ∷ []) node2 client disconnect_vpn refl
      refl refl

pkcs7_pad-unpad_example :
    (length (pkcs7_pad 16 (codes "hello")) % 16 ≡ 0)
    × (unpad (pkcs7_pad 16 (codes "hello")) ≡ codes "hello")
pkcs7_pad-unpad_example = pkcs7_pad-unpad 16 (codes "hello") (omega arith) (omega arith)
