-- ===== src/Settings/Choices.antt =====
-- The settings that UpdateConfig of web/internal/vpnmgr/config_ops.go lets in.
use fu_corplink.Common.{
  ◌≡◌, sym, subst, Bool, true, false, ◌||◌, Option, none, some, Text, if◌then◌else◌, is_empty,
  codes, to_lower, inl, inr, arith, Bool-cases, Option-cases,
}
use fu_corplink.Upstream.Parse.{Url, UpstreamProxyConfig, parse_upstream_proxy, trim_space}
use fu_corplink.Settings.Config.{Config}
use fu_corplink.Settings.Update.{
  ConfigUpdate, Settings, one_of, new_socks_listen, new_strategy, new_route_mode,
  new_force_protocol, updated, save, applied, update_config,
}

-- the fields that are read have a value that the program knows
abbrev pub IsChoices : Config → Type 0
IsChoices c =
    (one_of c.vpn_select_strategy (codes "default") (codes "latency") ≡ true)
    × (one_of c.route_mode (codes "full") (codes "split") ≡ true)
    × ((is_empty c.force_protocol || one_of c.force_protocol (codes "udp") (codes "tcp")) ≡ true)
    × (is_empty c.socks_listen ≡ false)

-- a test that the new value passes where it is taken, and the old one has passed
taken :
    (test : Text → Bool) (v old : Text) → test old ≡ true → test (if test v then v else old) ≡ true
taken test v old h = elim (Bool-cases (test v)) [
  | inl e ↦ subst (λ b. test (if b then v else old) ≡ true) (sym e) e
  | inr e ↦ subst (λ b. test (if b then v else old) ≡ true) (sym e) h
]

new_strategy-one_of :
    (o : Option Text) (old : Text)
    → one_of old (codes "default") (codes "latency") ≡ true
    → one_of (new_strategy o old) (codes "default") (codes "latency") ≡ true
unfolding new_strategy
new_strategy-one_of none old h = h
new_strategy-one_of (some v) old h =
    taken (λ t. one_of t (codes "default") (codes "latency")) v old h

new_route_mode-one_of :
    (o : Option Text) (old : Text)
    → one_of old (codes "full") (codes "split") ≡ true
    → one_of (new_route_mode o old) (codes "full") (codes "split") ≡ true
unfolding new_route_mode
new_route_mode-one_of none old h = h
new_route_mode-one_of (some v) old h = taken (λ t. one_of t (codes "full") (codes "split")) v old h

abbrev is_protocol : Text → Bool
is_protocol t = is_empty t || one_of t (codes "udp") (codes "tcp")

new_force_protocol-one_of :
    (o : Option Text) (old : Text)
    → is_protocol old ≡ true
    → is_protocol (new_force_protocol o old) ≡ true
unfolding new_force_protocol
new_force_protocol-one_of none old h = h
new_force_protocol-one_of (some v) old h = taken is_protocol (to_lower (trim_space v)) old h

new_socks_listen-is_empty :
    (o : Option Text) (old : Text)
    → is_empty old ≡ false
    → is_empty (new_socks_listen o old) ≡ false
unfolding new_socks_listen
new_socks_listen-is_empty none old h = h
new_socks_listen-is_empty (some v) old h = ground (arith, h)

updated-IsChoices : (u : ConfigUpdate) (c : Config) → IsChoices c → IsChoices (updated u c)
unfolding updated
updated-IsChoices u c h = (
  new_strategy-one_of u.vpn_select_strategy c.vpn_select_strategy h.0,
  new_route_mode-one_of u.route_mode c.route_mode h.1,
  new_force_protocol-one_of u.force_protocol c.force_protocol h.2,
  new_socks_listen-is_empty u.socks_listen c.socks_listen h.3,
)

-- settings whose fields, in use and on the disk, have known values
abbrev pub AreChoices : Settings → Type 0
AreChoices s = IsChoices s.config × IsChoices s.disk

save-AreChoices : (saves : Bool) (s : Settings) → AreChoices s → AreChoices (save saves s).1
unfolding save
save-AreChoices true s h = (h.0, h.0)
save-AreChoices false s h = h

applied-AreChoices :
    (saves : Bool) (o : Option (Option UpstreamProxyConfig)) (s : Settings)
    → AreChoices s
    → AreChoices (applied saves o s).1
unfolding applied
applied-AreChoices saves none s h = h
applied-AreChoices saves (some cfg) s h =
    save-AreChoices saves (record s { upstream_proxy = cfg }) h

-- Whatever values an update carries, and whether it is saved, rejected for its upstream proxy or
-- fails to be written, the strategy, the route mode and the protocol stay among the values that the
-- program knows and the listen address is not empty, in use and on the disk.
pub update_config-AreChoices :
    (url_parse : Text → Option Url) (saves : Bool) (u : ConfigUpdate) (s : Settings)
    → AreChoices s
    → AreChoices (update_config url_parse saves u s).1
unfolding update_config
update_config-AreChoices url_parse saves u s h =
    let s' : Settings = record s { config = updated u s.config } in
    let h' : AreChoices s' = (updated-IsChoices u s.config h.0, h.1) in
    elim (Option-cases u.upstream_proxy) [
      | inl e ↦ rw (e, update_config) (save-AreChoices saves s' h')
      | inr (v, e) ↦
          rw (e, update_config)
            (applied-AreChoices saves
              (parse_upstream_proxy url_parse (updated u s.config).upstream_proxy) s' h')
    ]
