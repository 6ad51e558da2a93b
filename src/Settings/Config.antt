-- ===== src/Settings/Config.antt =====
-- Config, ensureDefaults and RouteModeOrDefault of web/internal/corplink/config.go. MD5, the keys'
-- functions and what the disk does are parameters; a Save that succeeds leaves the settings on disk.
use fu_corplink.Common.{
  ℕ, Bool, true, false, not, ◌||◌, ◌&&◌, Option, none, some, Text, if◌then◌else◌, text_eq, is_empty,
  codes,
}
use fu_corplink.Upstream.Parse.{Url, UpstreamProxyConfig, parse_upstream_proxy}

-- Config; the credentials of the login, the proxy and the panel are left out
pub record Config : Type 0 where
  pub company_name : Text
  pub username : Text
  pub server : Text
  pub device_name : Text
  pub device_id : Text
  pub android_release : Text
  pub security_patch : Text
  pub public_key : Text
  pub private_key : Text
  pub vpn_server_id : ℕ
  pub vpn_select_strategy : Text
  pub route_mode : Text
  pub force_protocol : Text
  pub socks_listen : Text
  pub upstream_proxy : Text

-- MD5 in hexadecimal, PublicKeyFromPrivate, and GenerateKeypair with the public key first
pub record Keys : Type 0 where
  pub md5_hex : Text → Text
  pub public_from_private : Text → Option Text
  pub generated : Option (Text × Text)

-- a field with its default, and whether it was missing
abbrev pub default : Text → Text → Text
default value def = if is_empty value then def else value

-- initAndroidDevice and the other fields of ensureDefaults that need no key
unfoldable pub with_defaults : Keys → Config → Config
with_defaults k c =
    let name = default c.device_name (codes "DollarOS") in
    record c {
      device_name = name;
      device_id = default c.device_id (k.md5_hex name);
      android_release = default c.android_release (codes "14");
      security_patch = default c.security_patch (codes "2024-05-01");
      socks_listen = default c.socks_listen (codes "0.0.0.0:8989");
      route_mode = default c.route_mode (codes "full");
      vpn_select_strategy = default c.vpn_select_strategy (codes "default");
    }

-- whether with_defaults changes anything
unfoldable pub lacks_defaults : Config → Bool
lacks_defaults c =
    is_empty c.device_name
    || (is_empty c.device_id
        || (is_empty c.android_release
            || (is_empty c.security_patch
                || (is_empty c.socks_listen
                    || (is_empty c.route_mode || is_empty c.vpn_select_strategy)))))

-- the pair of keys: whether it changed, and `none` for an error
unfoldable pub with_keys : Keys → Config → Option (Bool × Config)
with_keys k c =
    if is_empty c.private_key
    then (elim k.generated [
      | none ↦ none
      | some (pk, sk) ↦ some (true, record c { public_key = pk; private_key = sk })
    ])
    else if is_empty c.public_key
    then (elim (k.public_from_private c.private_key) [
      | none ↦ none
      | some pk ↦ some (true, record c { public_key = pk })
    ])
    else some (false, c)

-- the end of ensureDefaults; an error keeps what was filled in before it
unfoldable pub with_outcome : Bool → Config → Option (Bool × Config) → Option Bool × Config
with_outcome lacking c none = (none, c)
with_outcome lacking c (some r) = (some (lacking || r.0), r.1)

-- ensureDefaults
unfoldable pub ensure_defaults : Keys → Config → Option Bool × Config
unfolding with_defaults lacks_defaults with_keys with_outcome
ensure_defaults k c =
    with_outcome (lacks_defaults c) (with_defaults k c) (with_keys k (with_defaults k c))

-- RouteModeOrDefault
unfoldable pub route_mode_or_default : Config → Text
route_mode_or_default c =
    if text_eq c.route_mode (codes "split") then codes "split" else codes "full"

-- Validate; `true` is no error
unfoldable pub validate : Config → Bool
validate c = not (is_empty c.private_key || is_empty c.public_key)

-- what LoadConfig finds: a file that cannot be read, one that is missing or blank, one that is not
-- JSON, or settings
pub data File : Type 0 where
  unreadable blank malformed : File
  holds : Config → File

-- the settings, the upstream proxy they name, and whether they are on the disk behind LoadConfig
pub record Loaded : Type 0 where
  pub config : Config
  pub upstream_proxy : Option UpstreamProxyConfig
  pub saved : Bool

-- LoadConfig behind the reading
unfoldable pub load_from : Keys → (Text → Option Url) → Bool → Config → Option Loaded
unfolding ensure_defaults
load_from k url_parse saves c =
    let r = ensure_defaults k c in
    let proxy : Option UpstreamProxyConfig =
      if is_empty r.1.upstream_proxy
      then none
      else (elim (parse_upstream_proxy url_parse r.1.upstream_proxy) [
        | none ↦ none
        | some p ↦ p
      ]) in
    elim r.0 [
      | none ↦ none
      | some changed ↦
          if changed && not saves
          then none
          else some (record { config = r.1; upstream_proxy = proxy; saved = changed })
    ]

-- LoadConfig; `saves` is whether Save succeeds, `fresh` the zero Config
unfoldable pub load_config : Keys → (Text → Option Url) → Bool → Config → File → Option Loaded
unfolding load_from
load_config k url_parse saves fresh unreadable = none
load_config k url_parse saves fresh blank = load_from k url_parse saves fresh
load_config k url_parse saves fresh malformed = none
load_config k url_parse saves fresh (holds c) = load_from k url_parse saves c
