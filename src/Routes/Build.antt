-- ===== src/Routes/Build.antt =====
-- BuildWgConf, ensureDNSAllowedIPs, filterIPv6Routes, normalizeCIDRs and eqFold of
-- web/internal/corplink/connect.go, with subtractCIDR and hostCIDR of
-- web/internal/corplink/wgconf.go on strings. Package net/netip is a parameter.
use fu_corplink.Common.{
  ℕ, ◌-◌, ◌≡◌, ◌≤◌, ◌==◌, leb, length, Bool, true, false, not, ◌||◌, ◌&&◌, Option, none, some, Text,
  List, [], ◌∷◌, ◌++◌, map, if◌then◌else◌, text_eq, is_empty, codes, lower_byte, is_some,
}
use fu_corplink.Common.Decimal.{itoa}
use fu_corplink.Upstream.Parse.{trim_space}
use fu_corplink.Routes.Carve.{Addr, Prefix, masked, contains, carve}

pub record NetIp : Type 0 where
  pub parse_prefix : Text → Option Prefix
  pub prefix_string : Prefix → Text
  pub parse_addr : Text → Option Addr

-- a prefix has no more bits than its address, and one that is printed reads back
pub record IsNetIp (net : NetIp) : Type 0 where
  pub fits : (t : Text) (p : Prefix) → net.parse_prefix t ≡ some p → p.bits ≤ length p.addr
  pub reads :
      (p : Prefix) → p.bits ≤ length p.addr → net.parse_prefix (net.prefix_string p) ≡ some p

-- subtractCIDR of two prefixes, the outer one with the string it was read from
unfoldable pub subtract_prefix : NetIp → Text → Prefix → Prefix → List Text
subtract_prefix net outer outer_prefix inner =
    let op = masked outer_prefix in
    let ip = masked inner in
    if not (length op.addr == length ip.addr)
    then outer ∷ []
    else if leb ip.bits op.bits && contains ip op.addr
    then []
    else if not (contains op ip.addr)
    then outer ∷ []
    else map net.prefix_string (carve (ip.bits - op.bits) op ip)

-- subtractCIDR
unfoldable pub subtract_text : NetIp → Text → Text → List Text
unfolding subtract_prefix
subtract_text net outer inner = elim (net.parse_prefix outer) [
  | none ↦ outer ∷ []
  | some op ↦ elim (net.parse_prefix inner) [
    | none ↦ outer ∷ []
    | some ip ↦ subtract_prefix net outer op ip
  ]
]

-- the prefix of an address alone
abbrev pub host_prefix : Addr → Prefix
host_prefix a = record { addr = a; bits = length a }

-- hostCIDR
unfoldable pub host_cidr : NetIp → Text → Option Text
host_cidr net ip = elim (net.parse_addr ip) [
  | none ↦ none
  | some a ↦ some (net.prefix_string (host_prefix a))
]

-- the carving of the peer out of the routes
unfoldable pub carve_all : NetIp → Text → List Text → List Text
unfolding subtract_text
carve_all net peer [] = []
carve_all net peer (a ∷ allowed) = subtract_text net a peer ++ carve_all net peer allowed

unfoldable pub carve_peer : NetIp → Text → List Text → List Text
unfolding host_cidr carve_all
carve_peer net ip allowed = elim (host_cidr net ip) [
  | none ↦ allowed
  | some peer ↦ carve_all net peer allowed
]

-- a field in front of those behind it
abbrev pub push : Text → List Text → List Text
push [] fields = fields
push (c ∷ s) fields = (c ∷ s) ∷ fields

-- strings.FieldsFunc at commas and blanks: the field that has begun, and those behind it
unfoldable pub split_fields : Text → Text × List Text
split_fields [] = ([], [])
split_fields (c ∷ s) =
    let r = split_fields s in if c == b',' || c == b' ' then ([], push r.0 r.1) else (c ∷ r.0, r.1)

unfoldable pub fields : Text → List Text
unfolding split_fields
fields s = let r = split_fields s in push r.0 r.1

-- whether a route has all of a prefix
unfoldable pub is_covered : NetIp → Text → List Text → Bool
unfolding subtract_text
is_covered net cidr [] = false
is_covered net cidr (route ∷ allowed) =
    let rest = is_covered net cidr allowed in
    elim (subtract_text net cidr route) [ [] ↦ true | _ ∷ _ ↦ rest ]

-- the loop of ensureDNSAllowedIPs
unfoldable pub add_dns : NetIp → List Text → List Text → List Text
unfolding is_covered
add_dns net [] allowed = allowed
add_dns net (f ∷ fs) allowed = elim (net.parse_addr (trim_space f)) [
  | none ↦ add_dns net fs allowed
  | some a ↦
      let cidr = net.prefix_string (host_prefix a) in
      add_dns net fs (if is_covered net cidr allowed then allowed else allowed ++ (cidr ∷ []))
]

-- ensureDNSAllowedIPs
unfoldable pub ensure_dns_allowed_ips : NetIp → List Text → Text → List Text
unfolding add_dns fields
ensure_dns_allowed_ips net allowed dns = add_dns net (fields dns) allowed

-- whether a route is one of IPv6
abbrev pub is_v6 : NetIp → Text → Bool
is_v6 net route = elim (net.parse_prefix route) [ none ↦ false | some p ↦ length p.addr == 128 ]

-- filterIPv6Routes
unfoldable pub filter_ipv6_routes : NetIp → List Text → List Text
filter_ipv6_routes net [] = []
filter_ipv6_routes net (r ∷ rs) =
    let rest = filter_ipv6_routes net rs in if is_v6 net r then rest else r ∷ rest

unfoldable pub mem : Text → List Text → Bool
mem t [] = false
mem t (s ∷ ss) = text_eq s t || mem t ss

-- normalizeCIDRs, behind the strings that were seen
unfoldable pub normalize_from : NetIp → List Text → List Text → List Text
unfolding mem
normalize_from net seen [] = []
normalize_from net seen (s ∷ ss) = elim (not (is_some (net.parse_prefix s)) || mem s seen) [
  | true ↦ normalize_from net seen ss
  | false ↦ s ∷ normalize_from net (s ∷ seen) ss
]

-- normalizeCIDRs
unfoldable pub normalize_cidrs : NetIp → List Text → List Text
unfolding normalize_from
normalize_cidrs net = normalize_from net []

-- eqFold: the loop over two strings of one length
unfoldable pub eq_fold_bytes : Text → Text → Bool
eq_fold_bytes [] t = true
eq_fold_bytes (a ∷ s) [] = true
eq_fold_bytes (a ∷ s) (b ∷ t) = lower_byte a == lower_byte b && eq_fold_bytes s t

unfoldable pub eq_fold : Text → Text → Bool
unfolding eq_fold_bytes
eq_fold a b = length a == length b && eq_fold_bytes a b

-- respWgInfo with its settings, as far as they are read
pub record WgInfo : Type 0 where
  pub ip : Text
  pub ipv6 : Text
  pub ip_mask : Text
  pub public_key : Text
  pub vpn_mtu : ℕ
  pub vpn_dns : Text
  pub vpn_route_full : List Text
  pub vpn_route_split : List Text
  pub v6_route_full : List Text
  pub v6_route_split : List Text

-- VPNInfo, as far as it is read
pub record Node : Type 0 where
  pub ip : Text
  pub vpn_port : ℕ
  pub protocol_mode : ℕ

-- Config, as far as it is read
pub record Own : Type 0 where
  pub split_mode : Bool
  pub force_protocol : Text
  pub public_key : Text
  pub private_key : Text

-- WgConf
pub record WgConf : Type 0 where
  pub address : Text
  pub address6 : Text
  pub peer_address : Text
  pub mtu : ℕ
  pub public_key : Text
  pub private_key : Text
  pub peer_key : Text
  pub allowed_ips : List Text
  pub routes : List Text
  pub dns : Text
  pub protocol : ℕ

-- the routes of the mode; `none` is the refusal to go without any
unfoldable pub mode_routes : Bool → WgInfo → Option (List Text)
mode_routes split info =
    if split
    then some (info.vpn_route_split ++ info.v6_route_split)
    else (elim (info.vpn_route_full ++ info.v6_route_full) [ [] ↦ none | r ∷ rs ↦ some (r ∷ rs) ])

-- the allowed IPs of the routes
unfoldable pub allowed_of : NetIp → Text → WgInfo → List Text → List Text
unfolding carve_peer ensure_dns_allowed_ips filter_ipv6_routes normalize_cidrs
allowed_of net peer_ip info routes =
    let dns = ensure_dns_allowed_ips net (carve_peer net peer_ip routes) info.vpn_dns in
    normalize_cidrs net (if is_empty info.ipv6 then filter_ipv6_routes net dns else dns)

-- the transport: 0 for UDP, 1 for TCP
unfoldable pub protocol_of : Text → ℕ → ℕ
unfolding eq_fold
protocol_of force mode =
    if eq_fold force (codes "udp")
    then 0
    else if eq_fold force (codes "tcp")
    then 1
    else if mode == 1
    then 1
    else 0

-- BuildWgConf; `atoi` is strconv.Atoi, printed again
unfoldable pub build_wg_conf : NetIp → (Text → Option Text) → Own → Node → WgInfo → Option WgConf
unfolding mode_routes allowed_of protocol_of
build_wg_conf net atoi own node info = elim (atoi info.ip_mask) [
  | none ↦ none
  | some ip_mask ↦ elim (mode_routes own.split_mode info) [
    | none ↦ none
    | some routes ↦
        let allowed = allowed_of net node.ip info routes in
        some (record {
          address = info.ip ++ (b'/' ∷ ip_mask);
          address6 = if is_empty info.ipv6 then [] else info.ipv6 ++ codes "/128";
          peer_address = node.ip ++ (b':' ∷ itoa node.vpn_port);
          mtu = info.vpn_mtu;
          public_key = own.public_key;
          private_key = own.private_key;
          peer_key = info.public_key;
          allowed_ips = allowed;
          routes = allowed;
          dns = info.vpn_dns;
          protocol = protocol_of own.force_protocol node.protocol_mode;
        })
  ]
]
