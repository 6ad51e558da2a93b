-- ===== src/Dial/Attempt.antt =====
-- dialOnce and dialContext of web/internal/corplink/proxy.go. What happens around an attempt is
-- given: the tunnel it finds, and whether the context is over behind it. The mark of the attempt on
-- the tunnel's device is in Netstack.
use fu_corplink.Common.{ℕ, Bool, Option, none, some, Text, List, [], ◌∷◌, if◌then◌else◌, is_some}
use fu_corplink.Tunnel.Kicks.{Tunnel, kick_refresh}
use fu_corplink.Upstream.Address.{NetText}
use fu_corplink.Dial.Recent.{RecentDial, record_recent_dial}
use fu_corplink.Dial.Live.{mark_host_live, host_was_live}
use fu_corplink.Dial.Lookup.{
  DialError, Outcome, ok, err, no_addresses, is_retryable_dial_error, DnsCacheEntry, lookup_host,
}

-- a connection by its number and its remote address
pub record Conn : Type 0 where
  pub id : ℕ
  pub remote : Option Text

-- the parts of MixedProxy that a dial changes
pub record Proxy : Type 0 where
  pub tunnel : Tunnel
  pub recent_dials : List RecentDial
  pub live_hosts : List (Text × ℕ)
  pub dns_cache : List (Text × DnsCacheEntry)

-- one round of the loop: the dialer and the resolver of the tunnel, another goroutine's lookup of
-- the host, the time, whether the context is over behind the attempt, and in the pause
pub record Round : Type 0 where
  pub dialer : Text → Outcome Conn
  pub resolver : Option (ℕ → Outcome (List Text))
  pub flight : Option (Outcome (List Text))
  pub now : ℕ
  pub over : Bool
  pub over_in_pause : Bool

-- the loop over the addresses, with the last error
unfoldable pub try_addrs :
    NetText → (Text → Outcome Conn) → Text → DialError → List Text → Outcome Conn
try_addrs net dialer port last [] = err last
try_addrs net dialer port last (a ∷ others) = elim (dialer (net.join_host_port a port)) [
  | ok conn ↦ ok conn
  | err e ↦ try_addrs net dialer port e others
]

-- dialOnce
unfoldable pub dial_once : NetText → Text → Text → Round → Proxy → Outcome Conn × Proxy
unfolding try_addrs
dial_once net host port r p =
    let direct : Outcome Conn × Proxy = (r.dialer (net.join_host_port host port), p) in
    if is_some (net.parse_ip host) then direct else (elim r.resolver [
      | none ↦ direct
      | some resolver ↦
          let found = lookup_host net r.now host resolver r.flight p.dns_cache in
          let p' = record p { dns_cache = found.1 } in
          elim found.0 [
            | err e ↦ (err e, p')
            | ok addrs ↦ (try_addrs net r.dialer port (no_addresses host) addrs, p')
          ]
    ])

-- what dialContext notes of a connection
unfoldable pub note_dial : NetText → Text → Text → ℕ → Conn → Proxy → Proxy
note_dial net host port now conn p =
    let recent =
      if is_some (net.parse_ip host)
      then record_recent_dial net now (net.join_host_port host port) p.recent_dials
      else (elim conn.remote [
        | none ↦ p.recent_dials
        | some remote ↦ record_recent_dial net now remote p.recent_dials
      ]) in
    record p { recent_dials = recent; live_hosts = mark_host_live now host p.live_hosts }

-- the error that is returned when the context is over
unfoldable pub final_error : Option DialError → DialError → DialError
final_error none e = e
final_error (some last) e = if e.is_deadline then last else e

-- the kick of a failed attempt
unfoldable pub kick_if_live : ℕ → Text → Proxy → Proxy
kick_if_live now host p =
    if host_was_live now host p.live_hosts then record p { tunnel = kick_refresh p.tunnel } else p

-- the loop of dialContext; `none` where the rounds are used up
unfoldable pub dial_loop :
    NetText → Text → Text → Option DialError → List Round → Proxy → Option (Outcome Conn) × Proxy
unfolding dial_once note_dial final_error kick_if_live
dial_loop net host port last [] p = (none, p)
dial_loop net host port last (r ∷ rs) p =
    let attempt = dial_once net host port r p in
    elim attempt.0 [
      | ok conn ↦ (some (ok conn), note_dial net host port r.now conn attempt.1)
      | err e ↦
          if r.over
          then (some (err (final_error last e)), attempt.1)
          else if is_retryable_dial_error e
          then (let kicked = kick_if_live r.now host attempt.1 in
              let rest = dial_loop net host port (some e) rs kicked in
              if r.over_in_pause then (some (err e), kicked) else rest)
          else (some (err e), attempt.1)
    ]

-- dialContext
unfoldable pub dial_context :
    NetText → Text → Text → List Round → Proxy → Option (Outcome Conn) × Proxy
unfolding dial_loop
dial_context net host port rs p = dial_loop net host port none rs p
