-- ===== src/Netstack/Setup.antt =====
-- parseAddrs, parseDNS, hasIPv6, LookupHost, newWireGuardBind, resolveEndpoint and buildUAPI of
-- web/internal/corplink/netstack.go. Package netip, the resolver and base64 are parameters.
use fu_corplink.Common.{
  ℕ, Bool, false, ◌||◌, Option, none, some, Text, List, [], ◌∷◌, ◌++◌, if◌then◌else◌, ◌==◌,
  is_empty, codes,
}
use fu_corplink.Routes.Build.{WgConf, fields}
use fu_corplink.Upstream.Address.{NetText}
use fu_corplink.Upstream.Dial.{contains_text}
use fu_corplink.Upstream.Parse.{UpstreamProxyConfig, trim_space, enabled}

-- netip.Addr, as far as it is looked at
pub record NetAddr : Type 0 where
  pub is6 : Bool
  pub bytes : Text

-- the part of an address in front of its first slash
unfoldable pub bare : Text → Text
bare [] = []
bare (c ∷ s) = let rest = bare s in if c == b'/' then [] else c ∷ rest

-- the loop of parseAddrs; `none` is its error
unfoldable pub parse_each : (Text → Option NetAddr) → List Text → Option (List NetAddr)
unfolding bare
parse_each parse [] = some []
parse_each parse (cidr ∷ cidrs) =
    let rest = parse_each parse cidrs in
    if is_empty cidr then rest else (elim (parse (bare cidr)) [
      | none ↦ none
      | some a ↦ elim rest [ none ↦ none | some as' ↦ some (a ∷ as') ]
    ])

-- parseAddrs
unfoldable pub parse_addrs : (Text → Option NetAddr) → WgConf → Option (List NetAddr)
unfolding parse_each
parse_addrs parse conf = elim (parse_each parse (conf.address ∷ conf.address6 ∷ [])) [
  | none ↦ none
  | some [] ↦ none
  | some (a ∷ as') ↦ some (a ∷ as')
]

-- the loop of parseDNS
unfoldable pub parse_fields : (Text → Option NetAddr) → List Text → List NetAddr
parse_fields parse [] = []
parse_fields parse (f ∷ fs) =
    let rest = parse_fields parse fs in
    elim (parse (trim_space f)) [ none ↦ rest | some a ↦ a ∷ rest ]

-- parseDNS, which falls back to 8.8.8.8
unfoldable pub parse_dns : (Text → Option NetAddr) → Text → List NetAddr
unfolding parse_fields fields
parse_dns parse dns = elim (parse_fields parse (fields dns)) [
  | [] ↦ record { is6 = false; bytes = 8 ∷ 8 ∷ 8 ∷ 8 ∷ [] } ∷ []
  | a ∷ as' ↦ a ∷ as'
]

-- hasIPv6
unfoldable pub has_ipv6 : List NetAddr → Bool
has_ipv6 [] = false
has_ipv6 (a ∷ as') = a.is6 || has_ipv6 as'

-- the loop of LookupHost on a device without IPv6
unfoldable pub without_ipv6 : (Text → Option NetAddr) → List Text → List Text
without_ipv6 parse [] = []
without_ipv6 parse (t ∷ ts) =
    let rest = without_ipv6 parse ts in
    elim (parse t) [ none ↦ t ∷ rest | some a ↦ if a.is6 then rest else t ∷ rest ]

-- LookupHost, with what the tunnel's resolver answers
unfoldable pub lookup_host :
    (Text → Option NetAddr) → Bool → Option (List Text) → Option (List Text)
unfolding without_ipv6
lookup_host parse has6 none = none
lookup_host parse has6 (some addrs) = some (if has6 then addrs else without_ipv6 parse addrs)

-- newWireGuardBind: UDP, or TCP with or without the upstream proxy
pub data Bind : Type 0 where
  udp tcp tcp_through_proxy : Bind

unfoldable pub new_wire_guard_bind : ℕ → Option UpstreamProxyConfig → Option Bind
new_wire_guard_bind protocol proxy =
    if protocol == 0
    then some udp
    else if protocol == 1
    then some (if enabled proxy then tcp_through_proxy else tcp)
    else none

-- resolveEndpoint; `lookup_ip` is net.LookupIP, printed
unfoldable pub resolve_endpoint : NetText → (Text → Option (List Text)) → Text → Option Text
resolve_endpoint net lookup_ip addr = elim (net.split_host_port addr) [
  | none ↦ none
  | some (host, port) ↦ elim (net.parse_ip host) [
    | some ip ↦ some addr
    | none ↦ elim (lookup_ip host) [
      | none ↦ none
      | some [] ↦ none
      | some (ip ∷ ips) ↦ some (net.join_host_port ip port)
    ]
  ]
]

-- the lines of the allowed IPs
unfoldable pub allowed_lines : List Text → Text
allowed_lines [] = []
allowed_lines (ip ∷ ips) =
    let rest = allowed_lines ips in
    (if contains_text ip (codes "/")
      then codes "allowed_ip=" ++ (ip ++ codes "\n")
      else codes "allowed_ip=" ++ (ip ++ codes "/32\n"))
    ++ rest

-- buildUAPI; `hex` is b64DecodeToHex
unfoldable pub build_uapi :
    NetText → (Text → Option (List Text)) → (Text → Option Text) → WgConf → Option Text
unfolding resolve_endpoint allowed_lines
build_uapi net lookup_ip hex conf = elim (hex conf.private_key) [
  | none ↦ none
  | some priv ↦ elim (hex conf.peer_key) [
    | none ↦ none
    | some peer ↦ elim (resolve_endpoint net lookup_ip conf.peer_address) [
      | none ↦ none
      | some endpoint ↦ some (
          codes "private_key="
          ++ (priv
              ++ (codes "\nreplace_peers=true\npublic_key="
                  ++ (peer
                      ++ (codes "\nreplace_allowed_ips=true\nendpoint="
                          ++ (endpoint
                              ++ (codes "\npersistent_keepalive_interval=10\n"
                                  ++ allowed_lines conf.allowed_ips)))))))
    ]
  ]
]
