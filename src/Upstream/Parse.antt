-- ===== src/Upstream/Parse.antt =====
-- ParseUpstreamProxy, containsScheme and the queries of UpstreamProxyConfig of
-- web/internal/corplink/upstream.go. url.Parse is a parameter.
use fu_corplink.Common.{
  ℕ, Bool, true, false, not, ◌||◌, ◌&&◌, Option, none, some, Text, [], ◌∷◌, ◌++◌, if◌then◌else◌,
  ◌==◌, leb, text_eq, codes, is_empty, has_prefix,
}

-- url.URL, as far as it is read; an absent user or password is ""
pub record Url : Type 0 where
  pub scheme : Text
  pub host : Text
  pub user : Text
  pub pass : Text

pub data Scheme : Type 0 where
  http socks5 : Scheme

-- UpstreamProxyConfig
pub record UpstreamProxyConfig : Type 0 where
  pub raw : Text
  pub scheme : Scheme
  pub host : Text
  pub user : Text
  pub pass : Text

abbrev pub is_space : ℕ → Bool
is_space c = c == 32 || (leb 9 c && leb c 13)

unfoldable pub trim_left : Text → Text
trim_left [] = []
trim_left (c ∷ s) = let rest = trim_left s in if is_space c then rest else c ∷ s

unfoldable pub trim_right : Text → Text
trim_right [] = []
trim_right (c ∷ s) = let rest = trim_right s in if is_empty rest && is_space c then [] else c ∷ rest

-- strings.TrimSpace on ASCII
abbrev pub trim_space : Text → Text
trim_space s = trim_right (trim_left s)

-- a byte of a scheme
abbrev pub is_scheme_char : ℕ → Bool
is_scheme_char c =
    (leb b'a' c && leb c b'z')
    || (leb b'A' c && leb c b'Z')
    || (leb b'0' c && leb c b'9')
    || c == b'+'
    || c == b'-'
    || c == b'.'

-- containsScheme: a run of scheme bytes in front of the first "://"
unfoldable pub scheme_from : Bool → Text → Bool
scheme_from started [] = false
scheme_from started (c ∷ s) =
    let rest = scheme_from true s in
    if has_prefix (c ∷ s) (codes "://") then started else is_scheme_char c && rest

unfoldable pub contains_scheme : Text → Bool
unfolding scheme_from
contains_scheme s = scheme_from false s

-- the schemes that are known
unfoldable pub scheme_of : Text → Option Scheme
scheme_of s =
    if text_eq s (codes "http") || text_eq s (codes "https")
    then some http
    else if text_eq s (codes "socks5") || text_eq s (codes "socks5h")
    then some socks5
    else none

-- the checks of the URL that was parsed
unfoldable pub check_url : Text → Option Url → Option (Option UpstreamProxyConfig)
unfolding scheme_of
check_url raw none = none
check_url raw (some u) = elim (scheme_of u.scheme) [
  | none ↦ none
  | some s ↦
      if is_empty u.host
      then none
      else some
          (some (record { raw = raw; scheme = s; host = u.host; user = u.user; pass = u.pass }))
]

-- ParseUpstreamProxy: `none` is an error, `some none` is no proxy
unfoldable pub parse_upstream_proxy :
    (Text → Option Url) → Text → Option (Option UpstreamProxyConfig)
unfolding check_url
parse_upstream_proxy url_parse text =
    let trimmed = trim_space text in
    let raw = if contains_scheme trimmed then trimmed else codes "http://" ++ trimmed in
    if is_empty trimmed then some none else check_url raw (url_parse raw)

-- Enabled, IsSOCKS5 and IsHTTP, on a configuration that may be nil
unfoldable pub enabled : Option UpstreamProxyConfig → Bool
enabled none = false
enabled (some p) = not (is_empty p.host)

unfoldable pub is_socks5 : Option UpstreamProxyConfig → Bool
unfolding enabled
is_socks5 none = false
is_socks5 (some p) = enabled (some p) && (elim p.scheme [ http ↦ false | socks5 ↦ true ])

unfoldable pub is_http : Option UpstreamProxyConfig → Bool
unfolding enabled
is_http none = false
is_http (some p) = enabled (some p) && (elim p.scheme [ http ↦ true | socks5 ↦ false ])
