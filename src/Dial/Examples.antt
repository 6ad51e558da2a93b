-- ===== src/Dial/Examples.antt =====
-- Dials of web/internal/corplink/proxy.go.
use fu_corplink.Common.{
  ℕ, ◌≡◌, refl, true, false, none, some, Option, subst, Text, List, [], ◌∷◌, ◌++◌, codes, arith,
  is_some, if◌then◌else◌,
}
use fu_corplink.Common.Table.{lookup}
use fu_corplink.Tunnel.Kicks.{new_tunnel}
use fu_corplink.Upstream.Address.{Ip, v4, NetText}
use fu_corplink.Dial.Recent.{RecentDial}
use fu_corplink.Dial.Live.{host_was_live}
use fu_corplink.Dial.Lookup.{
  DialError, Outcome, ok, err, is_retryable_dial_error, lookup_host, bytes_of,
}
use fu_corplink.Dial.Attempt.{Conn, Proxy, Round, dial_context}
use fu_corplink.Dial.Order.{IsRecent, recorded, first, others, recorded-IsRecent}
use fu_corplink.Dial.Marks.{marked, was_dialed, host_was_live-marked}
use fu_corplink.Dial.Genuine.{ReadsBack, Sound, SoundCache, lookup_host-Sound}
use fu_corplink.Dial.Kicks.{dial_context-Quiet, dial_context-rides}

-- every host is the address 10.0.0.1
abbrev net : NetText
net = record {
  split_host_port = λ addr. some (addr, addr);
  join_host_port = λ h p. h ++ b':' ∷ p;
  parse_ip = λ h. some (v4 (10 ∷ 0 ∷ 0 ∷ 1 ∷ []));
  ip_string = λ b. b;
}

abbrev last_dial : RecentDial
last_dial = record { addr = codes "a:1"; at = 5 }

abbrev dials : List RecentDial
dials = record { addr = codes "b:1"; at = 3 } ∷ record { addr = codes "a:1"; at = 3 } ∷ []

recorded-IsRecent_example :
    IsRecent 9 (recorded net (last_dial ∷ dials))
    × (recorded net (last_dial ∷ dials) ≡ (
        if is_some (net.split_host_port last_dial.addr)
        then last_dial ∷ first 7 (others last_dial (recorded net dials))
        else recorded net dials))
recorded-IsRecent_example =
    recorded-IsRecent net 9 last_dial dials (omega arith, (omega arith, (omega arith, tt)))

abbrev marks : List (Text × ℕ)
marks = (codes "a", 5) ∷ (codes "b", 3) ∷ []

host_was_live-marked_example :
    host_was_live 9 (codes "b") (marked marks) ≡ was_dialed 9 (codes "b") marks
host_was_live-marked_example =
    host_was_live-marked 9 (codes "b") marks (omega arith, (omega arith, tt))

-- an address is its four bytes
abbrev raw_ip : Text → Option Ip
raw_ip (a ∷ b ∷ c ∷ d ∷ []) = some (v4 (a ∷ b ∷ c ∷ d ∷ []))
raw_ip _ = none

abbrev raw_net : NetText
raw_net = record net { parse_ip = raw_ip }

raw_net-ReadsBack : ReadsBack raw_net
raw_net-ReadsBack [] ip h = absurd (ground (arith, h))
raw_net-ReadsBack (a ∷ []) ip h = absurd (ground (arith, h))
raw_net-ReadsBack (a ∷ b ∷ []) ip h = absurd (ground (arith, h))
raw_net-ReadsBack (a ∷ b ∷ c ∷ []) ip h = absurd (ground (arith, h))
raw_net-ReadsBack (a ∷ b ∷ c ∷ d ∷ []) ip h =
    subst (λ x. raw_ip (bytes_of x) ≡ some x) (some-inj h) refl
  where
    some-inj : {x y : Ip} → some x ≡ some y → x ≡ y
    some-inj q = cc
raw_net-ReadsBack (a ∷ b ∷ c ∷ d ∷ e ∷ s) ip h = absurd (ground (arith, h))

-- an address in the benchmark range, and one outside it
abbrev answers : ℕ → Outcome (List Text)
answers i = ok ((198 ∷ 18 ∷ 0 ∷ 1 ∷ []) ∷ (10 ∷ 0 ∷ 0 ∷ 1 ∷ []) ∷ [])

lookup_host-Sound_example :
    Sound raw_net (lookup_host raw_net 0 (codes "h") answers none []).0
    × SoundCache raw_net (lookup_host raw_net 0 (codes "h") answers none []).1
unfolding lookup
lookup_host-Sound_example =
    lookup_host-Sound raw_net 0 (codes "h") answers none [] raw_net-ReadsBack
      (λ h e q. absurd (ground (arith, q))) (λ o q. absurd (ground (arith, q)))

abbrev timeout : DialError
timeout = record { is_deadline = true; is_dns_timeout = false; message = [] }

-- a tunnel that answers nothing, and one that connects
abbrev dead : Round
dead = record {
  dialer = λ addr. err timeout;
  resolver = none;
  flight = none;
  now = 7;
  over = false;
  over_in_pause = false;
}

abbrev conn : Conn
conn = record { id = 1; remote = none }

abbrev alive : Round
alive = record dead { dialer = λ addr. ok conn }

abbrev proxy : Proxy
proxy = record { tunnel = new_tunnel; recent_dials = []; live_hosts = []; dns_cache = [] }

dial_context-Quiet_example :
    (dial_context net (codes "h") (codes "1") (dead ∷ dead ∷ []) proxy).1.tunnel ≡ new_tunnel
unfolding host_was_live lookup
dial_context-Quiet_example =
    dial_context-Quiet net (codes "h") (codes "1") (dead ∷ dead ∷ []) proxy (refl, (refl, tt))

dial_context-rides_example :
    (dial_context net (codes "h") (codes "1") (dead ∷ dead ∷ [] ++ alive ∷ []) proxy).0
    ≡ some (ok conn)
unfolding is_retryable_dial_error
dial_context-rides_example =
    dial_context-rides net (codes "h") (codes "1") (v4 (10 ∷ 0 ∷ 0 ∷ 1 ∷ [])) (dead ∷ dead ∷ [])
      alive [] conn proxy refl
      ((timeout, refl, refl, refl, refl), ((timeout, refl, refl, refl, refl), tt)) refl
