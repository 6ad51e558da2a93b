-- ===== src/Session/Reports.antt =====
-- Where the reports of web/internal/corplink/client.go go behind a round of probes.
use fu_corplink.Common.{
  ℕ, zero, suc, ◌≡◌, refl, ap, ◌∙◌, true, Option, none, some, Text, List, [], ◌∷◌, ◌++◌, inl, inr,
  arith, Bool-cases, Option-cases, is_some, is_empty, get_elem?,
}
use fu_corplink.Session.Api.{ApiName, ping_vpn, is_vpn_scoped}
use fu_corplink.Session.Client.{
  World, Client, VpnInfo, set_vpn_base, request, absorb, Reply, no_reply, replied, Call, Value,
  base_of, call_of,
}
use fu_corplink.Session.Login.{ignore_data}
use fu_corplink.Session.Nodes.{ping_node, set_latency, probe_latencies}
use fu_corplink.Session.Choice.{node_base, ping_node-conf}

absorb-vpn_base :
    (host : Text) (r : Reply) (call : Call) (c : Client)
    → (absorb host r call c).vpn_base ≡ c.vpn_base
unfolding absorb
absorb-vpn_base host no_reply call c = refl
absorb-vpn_base host (replied cs skew status body) call c = refl

-- a request leaves the base of the node calls alone
request-vpn_base :
    {A : Type 0} (w : World) (api : ApiName) (body : Option (List (Text × Value)))
    (decode : Text → Option A) (c : Client)
    → (request w api body decode c).1.vpn_base ≡ c.vpn_base
unfolding request
request-vpn_base w api body decode c = elim (Bool-cases (is_empty (base_of api c))) [
  | inl e ↦ rw (e, request) refl
  | inr e ↦ elim (Option-cases (w.hostname (call_of w api body c).url)) [
    | inl q ↦ rw (e, q, request) refl
    | inr (host, q) ↦
        simp (e, q, request)
          (absorb-vpn_base host (w.send c.sent (call_of w api body c)) (call_of w api body c) c)
  ]
]

-- a probe leaves the base at the node it was for
ping_node-vpn_base :
    (w : World) (v : VpnInfo) (c : Client)
    → is_some (w.hostname c.conf.server) ≡ true
    → (ping_node w v.ip v.api_port c).1.vpn_base ≡ node_base w c.conf.server v
unfolding ping_node set_vpn_base
ping_node-vpn_base w v c h = elim (Option-cases (w.hostname c.conf.server)) [
  | inl e ↦ absurd (ground (arith, h, e))
  | inr (src, e) ↦
      simp (ping_node, set_vpn_base, e) (request-vpn_base w ping_vpn none ignore_data _)
]

get_elem?-set_latency :
    (j : ℕ) (l : Option ℕ) (vpns : List VpnInfo) (i : ℕ) (v : VpnInfo)
    → get_elem? vpns i ≡ some v
    → (u : VpnInfo) × (get_elem? (set_latency j l vpns) i ≡ some u)
      × ((server : Text) (w : World) → node_base w server u ≡ node_base w server v)
unfolding set_latency
get_elem?-set_latency j l [] i v h = absurd (ground (arith, h))
get_elem?-set_latency zero l (x ∷ vpns) zero v h =
    (record x { latency_ms = l }, refl, λ server w. ap (node_base w server) (some-inj h))
  where
    some-inj : {x y : VpnInfo} → some x ≡ some y → x ≡ y
    some-inj q = cc
get_elem?-set_latency zero l (x ∷ vpns) (suc i) v h = (v, h, λ server w. refl)
get_elem?-set_latency (suc j) l (x ∷ vpns) zero v h = (v, h, λ server w. refl)
get_elem?-set_latency (suc j) l (x ∷ vpns) (suc i) v h = get_elem?-set_latency j l vpns i v h

probe_step :
    (w : World) (j : ℕ) (order : List ℕ) (vpns : List VpnInfo) (c : Client) (o : Option VpnInfo)
    → get_elem? vpns j ≡ o
    → probe_latencies w (j ∷ order) vpns c ≡ (elim o [
      | none ↦ probe_latencies w order vpns c
      | some v ↦
          probe_latencies w order
            (set_latency j (ping_node w v.ip v.api_port c).0 vpns)
            (ping_node w v.ip v.api_port c).1
    ])
unfolding probe_latencies
probe_step w j order vpns c o e =
    ap
      (λ x. elim x as (λ y. List VpnInfo × Client) [
        | none ↦ probe_latencies w order vpns c
        | some v ↦
            probe_latencies w order (set_latency j (ping_node w v.ip v.api_port c).0 vpns)
              (ping_node w v.ip v.api_port c).1
      ])
      e

probed-vpn_base :
    (w : World) (order : List ℕ) (i : ℕ) (vpns : List VpnInfo) (v : VpnInfo) (c : Client)
    → is_some (w.hostname c.conf.server) ≡ true
    → get_elem? vpns i ≡ some v
    → (probe_latencies w (order ++ i ∷ []) vpns c).1.vpn_base ≡ node_base w c.conf.server v
unfolding probe_latencies
probed-vpn_base w [] i vpns v c h e =
    ap (λ x. x.1.vpn_base) (probe_step w i [] vpns c (some v) e) ∙ ping_node-vpn_base w v c h
probed-vpn_base w (j ∷ order) i vpns v c h e = elim (Option-cases (get_elem? vpns j)) [
  | inl q ↦
      ap (λ x. x.1.vpn_base) (probe_step w j (order ++ i ∷ []) vpns c none q)
      ∙ probed-vpn_base w order i vpns v c h e
  | inr (x, q) ↦
      let p = ping_node w x.ip x.api_port c in
      let same = ping_node-conf w x.ip x.api_port c in
      let (u, e', base) = get_elem?-set_latency j p.0 vpns i v e in
      ap (λ y. y.1.vpn_base) (probe_step w j (order ++ i ∷ []) vpns c (some x) q)
      ∙ probed-vpn_base w order i (set_latency j p.0 vpns) u p.1
          (ap (λ k. is_some (w.hostname k.server)) same ∙ h) e'
      ∙ ap (λ k. node_base w k.server u) same
      ∙ base c.conf.server w
]

-- Whatever node a client was at, behind ProbeLatencies each call that is meant for its node, the
-- reports of a tunnel that is up included, goes to the node that was probed last.
pub probe_latencies-base_of :
    (w : World) (order : List ℕ) (i : ℕ) (vpns : List VpnInfo) (v : VpnInfo) (c : Client)
    (api : ApiName)
    → is_some (w.hostname c.conf.server) ≡ true
    → get_elem? vpns i ≡ some v
    → is_vpn_scoped api ≡ true
    → base_of api (probe_latencies w (order ++ i ∷ []) vpns c).1 ≡ node_base w c.conf.server v
unfolding base_of
probe_latencies-base_of w order i vpns v c api h e s =
    rw (s, base_of) (probed-vpn_base w order i vpns v c h e)
