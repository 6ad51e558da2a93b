-- ===== src/Netstack/Stats.antt =====
-- PeerStats and LastHandshake of web/internal/corplink/netstack.go. fmt.Sscan is a parameter: the
-- number that it reads, 0 for an error; the counters of WireGuard are not negative.
use fu_corplink.Common.{
  ℕ, Option, none, some, Text, List, [], ◌∷◌, if◌then◌else◌, ◌==◌, ltb, has_prefix, codes, drop,
}
use fu_corplink.Upstream.Parse.{trim_space}

pub record PeerStats : Type 0 where
  pub last_handshake_sec : ℕ
  pub tx_bytes : ℕ
  pub rx_bytes : ℕ

abbrev pub no_stats : PeerStats
no_stats = record { last_handshake_sec = 0; tx_bytes = 0; rx_bytes = 0 }

-- strings.Split(out, "\n"): the line that has begun, and those behind it
unfoldable pub split_lines : Text → Text × List Text
split_lines [] = ([], [])
split_lines (c ∷ s) =
    let r = split_lines s in if c == b'\n' then ([], r.0 ∷ r.1) else (c ∷ r.0, r.1)

-- parseInt64
abbrev pub parse_int64 : (Text → ℕ) → Text → ℕ
parse_int64 sscan s = sscan (trim_space s)

-- one line of the counters
unfoldable pub count_line : (Text → ℕ) → Text → PeerStats → PeerStats
count_line sscan line stats =
    let sec = parse_int64 sscan (drop 24 line) in
    if has_prefix line (codes "tx_bytes=")
    then record stats { tx_bytes = parse_int64 sscan (drop 9 line) }
    else if has_prefix line (codes "rx_bytes=")
    then record stats { rx_bytes = parse_int64 sscan (drop 9 line) }
    else if has_prefix line (codes "last_handshake_time_sec=")
    then record stats {
      last_handshake_sec =
          if ltb stats.last_handshake_sec sec then sec else stats.last_handshake_sec;
    }
    else stats

unfoldable pub count_lines : (Text → ℕ) → List Text → PeerStats → PeerStats
unfolding count_line
count_lines sscan [] stats = stats
count_lines sscan (l ∷ ls) stats = count_lines sscan ls (count_line sscan l stats)

-- PeerStats, with what IpcGet answers
unfoldable pub peer_stats : (Text → ℕ) → Option Text → PeerStats
unfolding count_lines split_lines
peer_stats sscan none = no_stats
peer_stats sscan (some out) = let r = split_lines out in count_lines sscan (r.0 ∷ r.1) no_stats

-- LastHandshake
unfoldable pub last_handshake : (Text → ℕ) → Option Text → ℕ
unfolding peer_stats
last_handshake sscan out = (peer_stats sscan out).last_handshake_sec
