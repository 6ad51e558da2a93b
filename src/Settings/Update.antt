-- ===== src/Settings/Update.antt =====
-- SetCompany, ConfigView and UpdateConfig of web/internal/vpnmgr/config_ops.go.
use fu_corplink.Common.{
  ℕ, Bool, true, false, ◌||◌, Option, none, some, Text, if◌then◌else◌, text_eq, is_empty, codes,
  to_lower,
}
use fu_corplink.Upstream.Parse.{Url, UpstreamProxyConfig, parse_upstream_proxy, trim_space}
use fu_corplink.Settings.Config.{Config, route_mode_or_default}

-- ConfigUpdate; `none` leaves a field unchanged
pub record ConfigUpdate : Type 0 where
  pub socks_listen : Option Text
  pub vpn_server_id : Option ℕ
  pub vpn_select_strategy : Option Text
  pub route_mode : Option Text
  pub force_protocol : Option Text
  pub upstream_proxy : Option Text

-- the manager's settings, the proxy that is in use, and what is on the disk
pub record Settings : Type 0 where
  pub config : Config
  pub upstream_proxy : Option UpstreamProxyConfig
  pub disk : Config

-- a value that is one of two
abbrev pub one_of : Text → Text → Text → Bool
one_of v a b = text_eq v a || text_eq v b

unfoldable pub new_socks_listen : Option Text → Text → Text
new_socks_listen none old = old
new_socks_listen (some v) old = if is_empty v then old else v

unfoldable pub new_strategy : Option Text → Text → Text
new_strategy none old = old
new_strategy (some v) old = if one_of v (codes "default") (codes "latency") then v else old

unfoldable pub new_route_mode : Option Text → Text → Text
new_route_mode none old = old
new_route_mode (some v) old = if one_of v (codes "full") (codes "split") then v else old

unfoldable pub new_force_protocol : Option Text → Text → Text
new_force_protocol none old = old
new_force_protocol (some v) old =
    let p = to_lower (trim_space v) in
    if is_empty p || one_of p (codes "udp") (codes "tcp") then p else old

-- the assignments of UpdateConfig
unfoldable pub updated : ConfigUpdate → Config → Config
unfolding new_socks_listen new_strategy new_route_mode new_force_protocol
updated u c = record c {
  socks_listen = new_socks_listen u.socks_listen c.socks_listen;
  vpn_server_id = elim u.vpn_server_id [ none ↦ c.vpn_server_id | some n ↦ n ];
  vpn_select_strategy = new_strategy u.vpn_select_strategy c.vpn_select_strategy;
  route_mode = new_route_mode u.route_mode c.route_mode;
  force_protocol = new_force_protocol u.force_protocol c.force_protocol;
  upstream_proxy = elim u.upstream_proxy [ none ↦ c.upstream_proxy | some v ↦ trim_space v ];
}

-- Save at the end of an operation
unfoldable pub save : Bool → Settings → Bool × Settings
save saves s = if saves then (true, record s { disk = s.config }) else (false, s)

-- the end of UpdateConfig for an upstream proxy, by what SetUpstreamProxy parses
unfoldable pub applied : Bool → Option (Option UpstreamProxyConfig) → Settings → Bool × Settings
unfolding save
applied saves none s = (false, s)
applied saves (some cfg) s = save saves (record s { upstream_proxy = cfg })

-- UpdateConfig; `false` is an error
unfoldable pub update_config :
    (Text → Option Url) → Bool → ConfigUpdate → Settings → Bool × Settings
unfolding updated applied
update_config url_parse saves u s =
    let s' = record s { config = updated u s.config } in
    elim u.upstream_proxy [
      | none ↦ save saves s'
      | some v ↦ applied saves (parse_upstream_proxy url_parse s'.config.upstream_proxy) s'
    ]

-- SetCompany, with what the lookup of the company gives: its server's domain
unfoldable pub set_company : Bool → Text → Option Text → Settings → Bool × Settings
unfolding save
set_company saves code none s = (false, s)
set_company saves code (some domain) s =
    let s' = record s { config = record s.config { company_name = code; server = domain } } in
    if is_empty domain then (false, s) else save saves s'

-- ConfigView
pub record ConfigView : Type 0 where
  pub socks_listen : Text
  pub vpn_server_id : ℕ
  pub vpn_select_strategy : Text
  pub route_mode : Text
  pub force_protocol : Text
  pub upstream_proxy : Text
  pub company_name : Text
  pub username : Text

unfoldable pub config_view : Config → ConfigView
unfolding route_mode_or_default
config_view c = record {
  socks_listen = c.socks_listen;
  vpn_server_id = c.vpn_server_id;
  vpn_select_strategy = c.vpn_select_strategy;
  route_mode = route_mode_or_default c;
  force_protocol = c.force_protocol;
  upstream_proxy = c.upstream_proxy;
  company_name = c.company_name;
  username = c.username;
}
