-- ===== src/Settings/Examples.antt =====
-- Runs of web/internal/corplink/config.go and web/internal/vpnmgr/config_ops.go.
use fu_corplink.Common.{
  ◌≡◌, refl, true, false, Option, none, some, Text, [], codes, arith, text_eq, is_empty,
}
use fu_corplink.Upstream.Parse.{Url}
use fu_corplink.Settings.Config.{
  Config, Keys, with_defaults, lacks_defaults, with_keys, with_outcome, ensure_defaults, validate,
}
use fu_corplink.Settings.Update.{ConfigUpdate, Settings, update_config}
use fu_corplink.Settings.Complete.{IsKeys, ensure_defaults-again}
use fu_corplink.Settings.Choices.{AreChoices, update_config-AreChoices}

abbrev keys : Keys
keys = record {
  md5_hex = λ t. codes "d41d";
  public_from_private = λ t. some (codes "pk");
  generated = some (codes "pk", codes "sk");
}

keys-IsKeys : IsKeys keys
unfolding is_empty
keys-IsKeys = record {
  sum = λ t. refl;
  derived = λ t pk e. ground (arith, e);
  made = λ pk sk e. ground (arith, e);
}

abbrev fresh : Config
fresh = record {
  company_name = [];
  username = [];
  server = [];
  device_name = [];
  device_id = [];
  android_release = [];
  security_patch = [];
  public_key = [];
  private_key = [];
  vpn_server_id = 0;
  vpn_select_strategy = [];
  route_mode = [];
  force_protocol = [];
  socks_listen = [];
  upstream_proxy = [];
}

abbrev full : Config
full = record {
  company_name = [];
  username = [];
  server = [];
  device_name = codes "DollarOS";
  device_id = codes "d41d";
  android_release = codes "14";
  security_patch = codes "2024-05-01";
  public_key = codes "pk";
  private_key = codes "sk";
  vpn_server_id = 0;
  vpn_select_strategy = codes "default";
  route_mode = codes "full";
  force_protocol = [];
  socks_listen = codes "0.0.0.0:8989";
  upstream_proxy = [];
}

ensure_defaults-again_example :
    (validate full ≡ true)
    × (lacks_defaults full ≡ false)
    × (ensure_defaults keys full ≡ (some false, full))
unfolding ensure_defaults with_defaults lacks_defaults with_keys with_outcome is_empty
ensure_defaults-again_example = ensure_defaults-again keys fresh full true keys-IsKeys refl

abbrev update : ConfigUpdate
update = record {
  socks_listen = some [];
  vpn_server_id = none;
  vpn_select_strategy = some (codes "fastest");
  route_mode = some (codes "split");
  force_protocol = some (codes " TCP");
  upstream_proxy = some (codes "ftp://p");
}

abbrev settings : Settings
settings = record { config = full; upstream_proxy = none; disk = full }

abbrev rejects : Text → Option Url
rejects t = none

update_config-AreChoices_example : AreChoices (update_config rejects true update settings).1
unfolding text_eq is_empty
update_config-AreChoices_example =
    update_config-AreChoices rejects true update settings
      ((refl, refl, refl, refl), (refl, refl, refl, refl))
