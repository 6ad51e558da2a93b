-- ===== src/Upstream/Kinds.antt =====
-- What ParseUpstreamProxy of web/internal/corplink/upstream.go hands out.
use fu_corplink.Common.{
  ◌≡◌, refl, true, false, not, Option, none, some, Text, ◌++◌, if◌then◌else◌, codes, is_empty, inl,
  inr, arith, Bool-cases, Option-cases,
}
use fu_corplink.Upstream.Parse.{
  Url, Scheme, UpstreamProxyConfig, http, socks5, parse_upstream_proxy, scheme_of, check_url,
  trim_space, contains_scheme, enabled, is_socks5, is_http,
}

one_kind :
    (p : UpstreamProxyConfig) (s : Scheme)
    → p.scheme ≡ s
    → is_empty p.host ≡ false
    → is_http (some p) ≡ not (is_socks5 (some p))
unfolding enabled is_http is_socks5
one_kind p http e h = simp (h, e)
one_kind p socks5 e h = simp (h, e)

abbrev raw_of : Text → Text
raw_of text =
    if contains_scheme (trim_space text)
    then trim_space text
    else codes "http://" ++ trim_space text

check_url-host :
    (raw : Text) (o : Option Url) (p : UpstreamProxyConfig)
    → check_url raw o ≡ some (some p)
    → is_empty p.host ≡ false
unfolding check_url
check_url-host raw none p h = absurd (ground (arith, h))
check_url-host raw (some u) p h = elim (Option-cases (scheme_of u.scheme)) [
  | inl e ↦ absurd (ground (arith, h, e))
  | inr (s, e) ↦ ground (arith, h, e)
]

parse_upstream_proxy-host :
    (url_parse : Text → Option Url) (text : Text) (p : UpstreamProxyConfig)
    → parse_upstream_proxy url_parse text ≡ some (some p)
    → is_empty p.host ≡ false
unfolding parse_upstream_proxy
parse_upstream_proxy-host url_parse text p h = elim (Bool-cases (is_empty (trim_space text))) [
  | inl e ↦ absurd (ground (arith, h, e))
  | inr e ↦ check_url-host (raw_of text) (url_parse (raw_of text)) p (ground (arith, h, e))
]

-- Whatever ParseUpstreamProxy hands out is enabled, and it is of exactly one of the kinds HTTP and
-- SOCKS5.
pub parse_upstream_proxy-enabled :
    (url_parse : Text → Option Url) (text : Text) (p : UpstreamProxyConfig)
    → parse_upstream_proxy url_parse text ≡ some (some p)
    → (enabled (some p) ≡ true) × (is_http (some p) ≡ not (is_socks5 (some p)))
unfolding enabled
parse_upstream_proxy-enabled url_parse text p h =
    let host = parse_upstream_proxy-host url_parse text p h in
    (rw (host, enabled) refl, one_kind p p.scheme refl host)
