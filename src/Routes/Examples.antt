-- ===== src/Routes/Examples.antt =====
-- Runs of web/internal/corplink/wgconf.go on addresses of four bits.
use fu_corplink.Common.{
  ◌≡◌, ◌≤◌, ◌&&◌, ◌==◌, not, arith, ap, refl, true, false, Option, none, some, Text, [], ◌∷◌, ◌++◌,
  if◌then◌else◌, leb, length, is_empty,
}
use fu_corplink.Common.Decimal.{itoa}
use fu_corplink.Routes.Carve.{
  Addr, Prefix, contains, subtract_cidr, covers, agrees, bit, mask, set_bit, same_bit, carve,
}
use fu_corplink.Routes.Subtract.{subtract_cidr-covers}
use fu_corplink.Routes.Build.{
  NetIp, IsNetIp, Own, Node, WgInfo, WgConf, fields, split_fields, mode_routes, allowed_of,
  protocol_of, build_wg_conf,
}
use fu_corplink.Routes.Left.{Unrouted}
use fu_corplink.Routes.Endpoint.{build_wg_conf-Unrouted}

-- 10/2 and the host 1011
abbrev quarter : Prefix
quarter = record { addr = true ∷ false ∷ false ∷ false ∷ []; bits = 2 }

abbrev host_addr : Addr
host_addr = true ∷ false ∷ true ∷ true ∷ []

abbrev host : Prefix
host = record { addr = host_addr; bits = 4 }

subtract_cidr-covers_example :
    covers (subtract_cidr quarter host) host_addr
    ≡ (contains quarter host_addr && not (contains host host_addr))
subtract_cidr-covers_example =
    subtract_cidr-covers quarter host host_addr (omega arith) (omega arith) refl

-- the host is carved out into 100/3 and 1010/4
carved_host :
    subtract_cidr quarter host
    ≡ record { addr = true ∷ false ∷ false ∷ false ∷ []; bits = 3 }
      ∷ record { addr = true ∷ false ∷ true ∷ false ∷ []; bits = 4 }
      ∷ []
unfolding subtract_cidr carve contains agrees same_bit bit mask set_bit
carved_host = refl

-- prefixes and addresses written bit by bit
abbrev written : Addr → Text
written [] = []
written (true ∷ a) = 1 ∷ written a
written (false ∷ a) = 0 ∷ written a

abbrev bits_of : Text → Addr
bits_of [] = []
bits_of (c ∷ t) = (c == 1) ∷ bits_of t

abbrev read_prefix : Text → Option Prefix
read_prefix [] = none
read_prefix (n ∷ t) =
    if leb n (length (bits_of t)) then some (record { addr = bits_of t; bits = n }) else none

abbrev net : NetIp
net = record {
  parse_prefix = read_prefix;
  prefix_string = λ p. p.bits ∷ written p.addr;
  parse_addr = λ t. some (bits_of t);
}

bits_of-written : (a : Addr) → bits_of (written a) ≡ a
bits_of-written [] = refl
bits_of-written (true ∷ a) = ap (◌∷◌ true) (bits_of-written a)
bits_of-written (false ∷ a) = ap (◌∷◌ false) (bits_of-written a)

read_prefix-fits : (t : Text) (p : Prefix) → read_prefix t ≡ some p → p.bits ≤ length p.addr
read_prefix-fits [] p e = absurd (ground (arith, e))
read_prefix-fits (n ∷ t) p e = ground (arith, e)

net-IsNetIp : IsNetIp net
net-IsNetIp = record {
  fits = read_prefix-fits;
  reads = λ p h. rw (bits_of-written p.addr) (ground (arith, h));
}

-- the whole range, and a node at 1011
abbrev own : Own
own = record { split_mode = false; force_protocol = []; public_key = []; private_key = [] }

abbrev node : Node
node = record { ip = 1 ∷ 0 ∷ 1 ∷ 1 ∷ []; vpn_port = 1; protocol_mode = 1 }

abbrev info : WgInfo
info = record {
  ip = [];
  ipv6 = [];
  ip_mask = [];
  public_key = [];
  vpn_mtu = 0;
  vpn_dns = [];
  vpn_route_full = (0 ∷ 0 ∷ 0 ∷ 0 ∷ 0 ∷ []) ∷ [];
  vpn_route_split = [];
  v6_route_full = [];
  v6_route_split = [];
}

abbrev conf : WgConf
conf = record {
  address = b'/' ∷ [];
  address6 = [];
  peer_address = node.ip ++ (b':' ∷ itoa 1);
  mtu = 0;
  public_key = [];
  private_key = [];
  peer_key = [];
  allowed_ips = allowed_of net node.ip info info.vpn_route_full;
  routes = allowed_of net node.ip info info.vpn_route_full;
  dns = [];
  protocol = protocol_of [] 1;
}

build_wg_conf-Unrouted_example : Unrouted net host_addr conf.allowed_ips
unfolding fields split_fields build_wg_conf mode_routes is_empty
build_wg_conf-Unrouted_example =
    build_wg_conf-Unrouted net (λ t. some t) own node info host_addr conf net-IsNetIp refl tt refl
