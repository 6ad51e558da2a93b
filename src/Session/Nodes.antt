-- ===== src/Session/Nodes.antt =====
-- The nodes of web/internal/corplink/client.go, and SelectVPN of web/internal/corplink/connect.go.
-- The answers' decoders are parameters.
use fu_corplink.Common.{
  ℕ, zero, suc, Bool, true, ◌||◌, Option, none, some, Text, List, [], ◌∷◌, if◌then◌else◌, ◌==◌, ltb,
  is_empty, codes, get_elem?, is_some, ◌-◌, ◌^◌,
}
use fu_corplink.Session.Api.{list_vpn, ping_vpn, connect_vpn, keep_alive_vpn, disconnect_vpn}
use fu_corplink.Session.Client.{
  text, RawResp, World, Client, Error, logged_out, failed, Answer, ok, err, is_code, request,
  VpnInfo, set_vpn_base,
}
use fu_corplink.Session.Login.{Crypto, gen_otp, ignore_data}

-- the error of a code that is not 0
unfoldable pub code_error : RawResp → Error
code_error raw = if is_code 101 raw.code then logged_out else failed

-- the loop of ListVPN
unfoldable pub supported : List VpnInfo → List VpnInfo
supported [] = []
supported (v ∷ vs) =
    let rest = supported vs in
    if v.protocol_mode == 1 || v.protocol_mode == 2
    then record v { latency_ms = some 0 } ∷ rest
    else rest

-- ListVPN
unfoldable pub list_nodes :
    World → (Text → Option (List VpnInfo)) → Client → Answer (List VpnInfo) × Client
unfolding supported code_error
list_nodes w decode c =
    let r = request w list_vpn none decode c in
    elim r.0 [
      | err e ↦ (err e, r.1)
      | ok (raw, vpns) ↦
          if is_code 0 raw.code
          then (ok (supported (elim vpns [ none ↦ [] | some vs ↦ vs ])), r.1)
          else (err (code_error raw), r.1)
    ]

-- pingNode: the latency in milliseconds
unfoldable pub ping_node : World → Text → ℕ → Client → Option ℕ × Client
ping_node w ip api_port c =
    let based = set_vpn_base w ip api_port c in
    let r = request w ping_vpn none ignore_data based.1 in
    let latency : Option ℕ = elim r.0 [
      | err e ↦ none
      | ok (raw, a) ↦ if is_code 0 raw.code then some (w.elapsed r.1.sent) else none
    ] in
    if based.0 then (latency, r.1) else (none, based.1)

-- `vpns[i].LatencyMS = latency`
unfoldable pub set_latency : ℕ → Option ℕ → List VpnInfo → List VpnInfo
set_latency i latency [] = []
set_latency zero latency (v ∷ vs) = record v { latency_ms = latency } ∷ vs
set_latency (suc i) latency (v ∷ vs) = v ∷ set_latency i latency vs

-- ProbeLatencies: the probes go one after the other, in the order in which they get the mutex
unfoldable pub probe_latencies : World → List ℕ → List VpnInfo → Client → List VpnInfo × Client
unfolding ping_node set_latency
probe_latencies w [] vpns c = (vpns, c)
probe_latencies w (i ∷ order) vpns c = elim (get_elem? vpns i) [
  | none ↦ probe_latencies w order vpns c
  | some v ↦
      let p = ping_node w v.ip v.api_port c in probe_latencies w order (set_latency i p.0 vpns) p.1
]

-- FetchPeerInfo; the answer's type is a parameter
unfoldable pub fetch_peer_info {ℓ} :
    {A : Type ℓ} → World → Crypto → ℕ → (Text → Option A) → A → Text → Client → Answer A × Client
unfolding code_error
fetch_peer_info w k now decode empty otp_override c =
    let otp = if is_empty otp_override then gen_otp k now c else ok otp_override in
    elim otp [
      | err e ↦ (err e, c)
      | ok o ↦
          let body = (codes "public_key", text c.conf.public_key) ∷ (codes "otp", text o) ∷ [] in
          let r = request w connect_vpn (some body) decode c in
          elim r.0 [
            | err e ↦ (err e, r.1)
            | ok (raw, info) ↦
                if is_code 0 raw.code
                then (ok (elim info [ none ↦ empty | some a ↦ a ]), r.1)
                else (err (code_error raw), r.1)
          ]
    ]

-- ReportDevice
unfoldable pub report_device : World → Text → Text → Bool → Client → Answer Bool × Client
report_device w address mode disconnect c =
    let api = if disconnect then disconnect_vpn else keep_alive_vpn in
    let body =
      (codes "ip", text address)
      ∷ (codes "public_key", text c.conf.public_key)
      ∷ (codes "mode", text mode)
      ∷ (codes "type", text (if disconnect then codes "101" else codes "100"))
      ∷ [] in
    let r = request w api (some body) ignore_data c in
    elim r.0 [
      | err e ↦ (err e, r.1)
      | ok (raw, a) ↦ if is_code 0 raw.code then (ok true, r.1) else (err failed, r.1)
    ]

-- activateNode, and the node that SelectVPN returns behind it
unfoldable pub activate : World → VpnInfo → Client → Option VpnInfo × Client
activate w v c =
    let based = set_vpn_base w v.ip v.api_port c in
    if based.0 then (some v, based.1) else (none, based.1)

-- the first node with that number
unfoldable pub find_id : ℕ → List VpnInfo → Option VpnInfo
find_id n [] = none
find_id n (v ∷ vs) = if v.id == n then some v else find_id n vs

-- the best node so far, behind one more probe
unfoldable pub better : Option (VpnInfo × ℕ) → VpnInfo → Option ℕ → Option (VpnInfo × ℕ)
better best v none = best
better none v (some latency) = if ltb latency (2 ^ 63 - 1) then some (v, latency) else none
better (some b) v (some latency) = if ltb latency b.1 then some (v, latency) else some b

-- the loop of the strategy "latency", with the best node so far and its latency
unfoldable pub fastest :
    World → Option (VpnInfo × ℕ) → List VpnInfo → Client → Option (VpnInfo × ℕ) × Client
unfolding ping_node better
fastest w best [] c = (best, c)
fastest w best (v ∷ vs) c =
    let p = ping_node w v.ip v.api_port c in fastest w (better best v p.0) vs p.1

-- the loop of the other strategy
unfoldable pub first_reachable : World → List VpnInfo → Client → Option VpnInfo × Client
unfolding ping_node
first_reachable w [] c = (none, c)
first_reachable w (v ∷ vs) c =
    let p = ping_node w v.ip v.api_port c in
    let rest = first_reachable w vs p.1 in if is_some p.0 then (some v, p.1) else rest

-- the node that the strategy picks of a list that starts with `v`
unfoldable pub picked : World → VpnInfo → List VpnInfo → Client → VpnInfo × Client
unfolding fastest first_reachable
picked w v vs c =
    let f = fastest w none (v ∷ vs) c in
    let r = first_reachable w (v ∷ vs) c in
    if c.conf.by_latency
    then (elim f.0 [ none ↦ v | some b ↦ b.0 ], f.1)
    else (elim r.0 [ none ↦ v | some u ↦ u ], r.1)

-- the node that is asked for by its number
unfoldable pub pinned : List VpnInfo → Client → Option VpnInfo
unfolding find_id
pinned vpns c = if c.conf.vpn_server_id == 0 then none else find_id c.conf.vpn_server_id vpns

-- SelectVPN; `none` is an error
unfoldable pub select_vpn : World → List VpnInfo → Client → Option VpnInfo × Client
unfolding picked pinned activate
select_vpn w [] c = (none, c)
select_vpn w (v ∷ vs) c =
    let p = picked w v vs c in
    elim (pinned (v ∷ vs) c) [ some u ↦ activate w u c | none ↦ activate w p.0 p.1 ]
