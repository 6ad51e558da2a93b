-- ===== src/Session/Client.antt =====
-- Client, request and setVPNBase of web/internal/corplink/client.go. The server is a function of what
-- it was sent before; the HTTP transport, URLs and JSON are parameters. An error keeps no text.
use fu_corplink.Common.{
  ℕ, Bool, true, false, not, ◌&&◌, Option, none, some, Text, List, [], ◌∷◌, if◌then◌else◌, ◌==◌,
  leb, is_empty, codes,
}
use fu_corplink.Common.Decimal.{itoa}
use fu_corplink.Upstream.Parse.{UpstreamProxyConfig, Url, parse_upstream_proxy, trim_space}
use fu_corplink.Session.Jar.{Jar, StoredCookie, get, set, set_cookies, copy_host, cookies}
use fu_corplink.Session.Api.{ApiName, is_vpn_scoped, render_url, trim_slashes}
use fu_corplink.Session.Totp.{Skew}

-- the fields of Config that the client reads or writes
pub record Conf : Type 0 where
  pub server : Text
  pub username : Text
  pub platform : Text
  pub code : Text
  pub device_id : Text
  pub device_name : Text
  pub public_key : Text
  pub vpn_server_id : ℕ
  pub by_latency : Bool

pub data Value : Type 0 where
  text : Text → Value
  flag : Bool → Value

-- a request as it goes out
pub record Call : Type 0 where
  pub url : Text
  pub body : Option (List (Text × Value))
  pub csrf : Option Text
  pub cookies : List (Text × Text)

-- what comes back: nothing, or a response with its cookies, the clock skew that its Date header
-- shows, its status, and its body unless that cannot be read
pub data Reply : Type 0 where
  no_reply : Reply
  replied : List StoredCookie → Option Skew → ℕ → Option Text → Reply

pub data Code : Type 0 where
  nonneg negative : ℕ → Code

unfoldable pub is_code : ℕ → Code → Bool
is_code n (nonneg k) = k == n
is_code n (negative k) = false

-- rawResp; an absent data is ""
pub record RawResp : Type 0 where
  pub code : Code
  pub message : Text
  pub payload : Text

-- package net/url, encoding/json of the envelope, the server, and the times
pub record World : Type 0 where
  pub hostname : Text → Option Text
  pub with_host : Text → Text → Text
  pub join_host_port : Text → Text → Text
  pub envelope : Text → Option RawResp
  pub send : List Call → Call → Reply
  pub now : List Call → ℕ
  pub elapsed : List Call → ℕ
  pub saves : List Call → Bool

-- Client with the log of its requests, the last one first
pub record Client : Type 0 where
  pub conf : Conf
  pub jar : Jar
  pub time_offset : Skew
  pub vpn_base : Text
  pub upstream_proxy : Option UpstreamProxyConfig
  pub sent : List Call

pub data Error : Type 0 where
  logged_out failed : Error

pub data Answer {ℓ} (A : Type ℓ) : Type ℓ where
  err : Error → Answer A
  ok : A → Answer A

-- hostOf
unfoldable pub host_of : World → Text → Option Text
host_of w raw_url = elim (w.hostname raw_url) [
  | none ↦ none
  | some h ↦ if is_empty h then none else some h
]

-- seedDeviceCookies
unfoldable pub seed_device_cookies : World → Client → Client
unfolding host_of
seed_device_cookies w c = elim (host_of w c.conf.server) [
  | none ↦ c
  | some host ↦
      let j1 =
        if is_empty c.conf.device_id
        then c.jar
        else set host (codes "device_id") c.conf.device_id c.jar in
      let j2 =
        if is_empty c.conf.device_name
        then j1
        else set host (codes "device_name") c.conf.device_name j1 in
      record c { jar = j2 }
]

-- SetServer
unfoldable pub set_server : World → Text → Client → Client
unfolding seed_device_cookies
set_server w server c =
    seed_device_cookies w (record c { conf = record c.conf { server = server } })

-- SetUpstreamProxy; `false` is its error
unfoldable pub set_upstream_proxy : (Text → Option Url) → Text → Client → Bool × Client
set_upstream_proxy url_parse raw c = elim (parse_upstream_proxy url_parse raw) [
  | none ↦ (false, c)
  | some cfg ↦ (true, record c { upstream_proxy = cfg })
]

-- attachCSRF
unfoldable pub csrf_of : World → Text → Jar → Option Text
unfolding host_of
csrf_of w base j = elim (host_of w base) [
  | none ↦ none
  | some host ↦ get host (codes "csrf-token") j
]

-- the cookies that the transport takes from the jar
unfoldable pub cookies_for : World → Text → Client → List (Text × Text)
cookies_for w url c = elim (w.hostname url) [
  | none ↦ []
  | some host ↦ cookies (w.now c.sent) host c.jar
]

-- the envelope of a body: what `decode` reads of its data, or an error
unfoldable pub read_envelope {ℓ} :
    {A : Type ℓ} → World → (Text → Option A) → Text → Answer (RawResp × Option A)
read_envelope w decode body =
    if is_empty (trim_space body)
    then ok (record { code = nonneg 0; message = []; payload = [] }, none)
    else (elim (w.envelope body) [
      | none ↦ err failed
      | some raw ↦
          if is_code 0 raw.code && not (is_empty raw.payload)
          then elim (decode raw.payload) [ none ↦ err failed | some a ↦ ok (raw, some a) ]
          else ok (raw, none)
    ])

-- the base of an endpoint
unfoldable pub base_of : ApiName → Client → Text
base_of api c = if is_vpn_scoped api then c.vpn_base else c.conf.server

-- the request of a client
unfoldable pub call_of : World → ApiName → Option (List (Text × Value)) → Client → Call
unfolding base_of csrf_of cookies_for
call_of w api body c = record {
  url = render_url api (base_of api c);
  body = body;
  csrf = csrf_of w (base_of api c) c.jar;
  cookies = cookies_for w (render_url api (base_of api c)) c;
}

-- SetCookies files a response's cookies under the host of the URL
unfoldable pub at_host : Text → List StoredCookie → List StoredCookie
at_host host [] = []
at_host host (c ∷ cs) = record c { host = host } ∷ at_host host cs

-- what a response changes: the jar, and the clock skew
unfoldable pub absorb : Text → Reply → Call → Client → Client
unfolding at_host
absorb host no_reply call c = record c { sent = call ∷ c.sent }
absorb host (replied new_cookies skew status body) call c = record c {
  sent = call ∷ c.sent;
  jar = set_cookies (at_host host new_cookies) c.jar;
  time_offset = elim skew [ none ↦ c.time_offset | some s ↦ s ];
}

-- what a response says
unfoldable pub read_reply {ℓ} :
    {A : Type ℓ} → World → (Text → Option A) → Reply → Answer (RawResp × Option A)
unfolding read_envelope
read_reply w decode no_reply = err failed
read_reply w decode (replied new_cookies skew status body) =
    if leb 400 status
    then err logged_out
    else elim body [ none ↦ err failed | some b ↦ read_envelope w decode b ]

-- request
unfoldable pub request {ℓ} :
    {A : Type ℓ}
    → World
    → ApiName
    → Option (List (Text × Value))
    → (Text → Option A)
    → Client
    → Answer (RawResp × Option A) × Client
unfolding call_of absorb read_reply base_of
request w api body decode c =
    let call = call_of w api body c in
    let reply = w.send c.sent call in
    if is_empty (base_of api c) then (err failed, c) else (elim (w.hostname call.url) [
      | none ↦ (err failed, c)
      | some host ↦ (read_reply w decode reply, absorb host reply call c)
    ])

-- VPNInfo
pub record VpnInfo : Type 0 where
  pub api_port : ℕ
  pub vpn_port : ℕ
  pub ip : Text
  pub protocol_mode : ℕ
  pub id : ℕ
  pub latency_ms : Option ℕ

-- setVPNBase; `false` is its error
unfoldable pub set_vpn_base : World → Text → ℕ → Client → Bool × Client
set_vpn_base w ip api_port c = elim (w.hostname c.conf.server) [
  | none ↦ (false, c)
  | some src ↦ (
    true,
    record c {
      jar = copy_host src ip c.jar;
      vpn_base = trim_slashes (w.with_host c.conf.server (w.join_host_port ip (itoa api_port)));
    },
  )
]

-- NewClient
unfoldable pub new_client : World → Conf → Jar → Option UpstreamProxyConfig → Client
unfolding seed_device_cookies
new_client w conf jar proxy =
    let c : Client = record {
      conf = conf;
      jar = jar;
      time_offset = Skew.ahead 0;
      vpn_base = [];
      upstream_proxy = proxy;
      sent = [];
    } in
    if is_empty conf.server then c else seed_device_cookies w c
