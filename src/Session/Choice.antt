-- ===== src/Session/Choice.antt =====
-- The node that SelectVPN of web/internal/corplink/connect.go settles on.
use fu_corplink.Common.{
  ℕ, ◌≡◌, ◌≢◌, refl, ap, sym, ◌∙◌, subst, Bool, true, false, Option, none, some, Text, List, [],
  ◌∷◌, if◌then◌else◌, is_empty, ◌==◌, ==_iff, ◌⊎◌, inl, inr, arith, Bool-cases, Option-cases, ltb,
  ◌-◌, ◌^◌, is_some,
}
use fu_corplink.Common.Decimal.{itoa}
use fu_corplink.Session.Api.{ApiName, ping_vpn, trim_slashes}
use fu_corplink.Session.Client.{
  World, Client, VpnInfo, set_vpn_base, request, absorb, Reply, no_reply, replied, Call, Value,
  base_of, call_of,
}
use fu_corplink.Session.Login.{ignore_data}
use fu_corplink.Session.Nodes.{
  ping_node, activate, find_id, better, fastest, first_reachable, picked, pinned, select_vpn,
}

-- membership
abbrev pub In : VpnInfo → List VpnInfo → Type 0
In v [] = ⊥
In v (u ∷ us) = (v ≡ u) ⊎ In v us

-- some node of the list has that number
abbrev pub HasId : ℕ → List VpnInfo → Type 0
HasId n vs = (x : VpnInfo) × In x vs × (x.id ≡ n)

-- the base url of a node
abbrev pub node_base : World → Text → VpnInfo → Text
node_base w server v = trim_slashes (w.with_host server (w.join_host_port v.ip (itoa v.api_port)))

find_id-In :
    (n : ℕ) (vs : List VpnInfo) (v : VpnInfo) → find_id n vs ≡ some v → In v vs × (v.id ≡ n)
unfolding find_id
find_id-In n [] v h = absurd (ground (arith, h))
find_id-In n (u ∷ us) v h = elim (Bool-cases (u.id == n)) [
  | inl e ↦
      let same = some-inj (sym (ap (λ b. if b then some u else find_id n us) e) ∙ h) in
      (inl (sym same), ap (λ x. x.id) (sym same) ∙ (==_iff u.id n).0 e)
  | inr e ↦
      let (i, q) = find_id-In n us v (sym (ap (λ b. if b then some u else find_id n us) e) ∙ h) in
      (inr i, q)
]
  where
    some-inj : {x y : VpnInfo} → some x ≡ some y → x ≡ y
    some-inj q = cc

absorb-conf :
    (host : Text) (r : Reply) (call : Call) (c : Client) → (absorb host r call c).conf ≡ c.conf
unfolding absorb
absorb-conf host no_reply call c = refl
absorb-conf host (replied cs skew status body) call c = refl

-- a request leaves the configuration alone
request-conf :
    {A : Type 0} (w : World) (api : ApiName) (body : Option (List (Text × Value)))
    (decode : Text → Option A) (c : Client)
    → (request w api body decode c).1.conf ≡ c.conf
unfolding request
request-conf w api body decode c = elim (Bool-cases (is_empty (base_of api c))) [
  | inl e ↦ rw (e, request) refl
  | inr e ↦ elim (Option-cases (w.hostname (call_of w api body c).url)) [
    | inl q ↦ rw (e, q, request) refl
    | inr (host, q) ↦
        simp (e, q, request)
          (absorb-conf host (w.send c.sent (call_of w api body c)) (call_of w api body c) c)
  ]
]

set_vpn_base-conf :
    (w : World) (ip : Text) (port : ℕ) (c : Client) → (set_vpn_base w ip port c).1.conf ≡ c.conf
unfolding set_vpn_base
set_vpn_base-conf w ip port c = elim (Option-cases (w.hostname c.conf.server)) [
  | inl e ↦ rw (e, set_vpn_base) refl
  | inr (h, e) ↦ rw (e, set_vpn_base) refl
]

pub ping_node-conf :
    (w : World) (ip : Text) (port : ℕ) (c : Client) → (ping_node w ip port c).1.conf ≡ c.conf
unfolding ping_node
ping_node-conf w ip port c =
    let based = set_vpn_base w ip port c in
    elim (Bool-cases based.0) [
      | inl e ↦
          rw (e, ping_node)
            (request-conf w ping_vpn none ignore_data based.1 ∙ set_vpn_base-conf w ip port c)
      | inr e ↦ rw (e, ping_node) (set_vpn_base-conf w ip port c)
    ]

-- whether a best node so far is of the list
abbrev BestIn : Option (VpnInfo × ℕ) → List VpnInfo → Type 0
BestIn none vs = Unit {0}
BestIn (some b) vs = In b.0 vs

abbrev FoundIn : Option VpnInfo → List VpnInfo → Type 0
FoundIn none vs = Unit {0}
FoundIn (some v) vs = In v vs

-- a list that has all nodes of another
abbrev Within : List VpnInfo → List VpnInfo → Type 0
Within us vs = (v : VpnInfo) → In v us → In v vs

better-BestIn :
    (best : Option (VpnInfo × ℕ)) (v : VpnInfo) (l : Option ℕ) (vs : List VpnInfo)
    → BestIn best vs
    → In v vs
    → BestIn (better best v l) vs
unfolding better
better-BestIn best v none vs b i = b
better-BestIn none v (some l) vs b i = elim (Bool-cases (ltb l (2 ^ 63 - 1))) [
  | inl e ↦ rw (e, better) i
  | inr e ↦ rw (e, better) tt
]
better-BestIn (some u) v (some l) vs b i = elim (Bool-cases (ltb l u.1)) [
  | inl e ↦ rw (e, better) i
  | inr e ↦ rw (e, better) b
]

fastest-In :
    (w : World) (best : Option (VpnInfo × ℕ)) (us vs : List VpnInfo) (c : Client)
    → BestIn best vs
    → Within us vs
    → BestIn (fastest w best us c).0 vs × ((fastest w best us c).1.conf ≡ c.conf)
unfolding fastest
fastest-In w best [] vs c b i = (b, refl)
fastest-In w best (v ∷ us) vs c b i =
    let p = ping_node w v.ip v.api_port c in
    let rest =
      fastest-In w (better best v p.0) us vs p.1 (better-BestIn best v p.0 vs b (i v (inl refl)))
        (λ u h. i u (inr h)) in
    (rest.0, rest.1 ∙ ping_node-conf w v.ip v.api_port c)

first_reachable-In :
    (w : World) (us vs : List VpnInfo) (c : Client)
    → Within us vs
    → FoundIn (first_reachable w us c).0 vs × ((first_reachable w us c).1.conf ≡ c.conf)
unfolding first_reachable
first_reachable-In w [] vs c i = (tt, refl)
first_reachable-In w (v ∷ us) vs c i =
    let p = ping_node w v.ip v.api_port c in
    let rest = first_reachable-In w us vs p.1 (λ u h. i u (inr h)) in
    elim (Bool-cases (is_some p.0)) [
      | inl e ↦ rw (e, first_reachable) (i v (inl refl), ping_node-conf w v.ip v.api_port c)
      | inr e ↦ rw (e, first_reachable) (rest.0, rest.1 ∙ ping_node-conf w v.ip v.api_port c)
    ]

unpicked :
    (vs : List VpnInfo) (o : Option (VpnInfo × ℕ)) (v : VpnInfo)
    → BestIn o vs
    → In v vs
    → In (elim o as (λ x. VpnInfo) [ none ↦ v | some b ↦ b.0 ]) vs
unpicked vs none v b i = i
unpicked vs (some u) v b i = b

unfound :
    (vs : List VpnInfo) (o : Option VpnInfo) (v : VpnInfo)
    → FoundIn o vs
    → In v vs
    → In (elim o as (λ x. VpnInfo) [ none ↦ v | some u ↦ u ]) vs
unfound vs none v b i = i
unfound vs (some u) v b i = b

on_if : {A : Type 0} (P : A → Type 0) (b : Bool) (x y : A) → P x → P y → P (if b then x else y)
on_if P true x y p q = p
on_if P false x y p q = q

picked-In :
    (w : World) (v : VpnInfo) (vs : List VpnInfo) (c : Client)
    → In (picked w v vs c).0 (v ∷ vs) × ((picked w v vs c).1.conf ≡ c.conf)
unfolding picked
picked-In w v vs c =
    let f = fastest-In w none (v ∷ vs) (v ∷ vs) c tt (λ u h. h) in
    let r = first_reachable-In w (v ∷ vs) (v ∷ vs) c (λ u h. h) in
    on_if {A = VpnInfo × Client} (λ x. In x.0 (v ∷ vs) × (x.1.conf ≡ c.conf)) c.conf.by_latency _ _
      (unpicked (v ∷ vs) (fastest w none (v ∷ vs) c).0 v f.0 (inl refl), f.1)
      (unfound (v ∷ vs) (first_reachable w (v ∷ vs) c).0 v r.0 (inl refl), r.1)

-- where a client that has settled on a node sends what is meant for it
abbrev pub SettledOn : World → Text → VpnInfo → Option VpnInfo × Client → Type 0
SettledOn w server v r = (r.0 ≡ some v) × (r.1.vpn_base ≡ node_base w server v)

activate-SettledOn :
    (w : World) (server : Text) (v : VpnInfo) (c : Client)
    → is_some (w.hostname server) ≡ true
    → c.conf.server ≡ server
    → SettledOn w server v (activate w v c)
unfolding activate set_vpn_base
activate-SettledOn w server v c h e = elim (Option-cases (w.hostname c.conf.server)) [
  | inl q ↦ absurd (ground (arith, h, ap w.hostname e, q))
  | inr (src, q) ↦ simp (activate, set_vpn_base, q) (refl, ap (λ s. node_base w s v) e)
]

select_vpn-elim :
    (w : World) (u : VpnInfo) (us : List VpnInfo) (c : Client) (o : Option VpnInfo)
    → pinned (u ∷ us) c ≡ o
    → select_vpn w (u ∷ us) c ≡ (elim o [
      | some v ↦ activate w v c
      | none ↦ activate w (picked w u us c).0 (picked w u us c).1
    ])
unfolding select_vpn
select_vpn-elim w u us c o e =
    ap
      (λ x. elim x as (λ y. Option VpnInfo × Client) [
        | some v ↦ activate w v c
        | none ↦ activate w (picked w u us c).0 (picked w u us c).1
      ])
      e

pinned-find_id :
    (us : List VpnInfo) (c : Client) (v : VpnInfo)
    → pinned us c ≡ some v
    → find_id c.conf.vpn_server_id us ≡ some v
unfolding pinned
pinned-find_id us c v e = elim (Bool-cases (c.conf.vpn_server_id == 0)) [
  | inl z ↦ absurd (ground (arith, z, e))
  | inr z ↦ sym (ap (λ b. if b then none else find_id c.conf.vpn_server_id us) z) ∙ e
]

-- a number that a node has is found
find_id_complete :
    (n : ℕ) (vs : List VpnInfo) (x : VpnInfo) → In x vs → x.id ≡ n → find_id n vs ≢ none
unfolding find_id
find_id_complete n [] x i e q = i
find_id_complete n (u ∷ us) x (inl s) e q = ground (arith, q, ap (λ v. v.id) s, e, ==_iff u.id n)
find_id_complete n (u ∷ us) x (inr i) e q = elim (Bool-cases (u.id == n)) [
  | inl b ↦ ground (arith, q, b)
  | inr b ↦ find_id_complete n us x i e (sym (ap (λ t. if t then some u else find_id n us) b) ∙ q)
]

pinned_complete :
    (us : List VpnInfo) (c : Client) (x : VpnInfo)
    → In x us
    → x.id ≡ c.conf.vpn_server_id
    → c.conf.vpn_server_id ≢ 0
    → pinned us c ≢ none
unfolding pinned
pinned_complete us c x i e z q = elim (Bool-cases (c.conf.vpn_server_id == 0)) [
  | inl b ↦ z ((==_iff c.conf.vpn_server_id 0).0 b)
  | inr b ↦
      find_id_complete c.conf.vpn_server_id us x i e
        (sym (ap (λ t. if t then none else find_id c.conf.vpn_server_id us) b) ∙ q)
]

-- Given a server URL that parses and any nodes at all, SelectVPN returns one of them, whatever the
-- probes come to, and leaves the base of the node calls at that node.
select_vpn-In :
    (w : World) (u : VpnInfo) (us : List VpnInfo) (c : Client)
    → is_some (w.hostname c.conf.server) ≡ true
    → (v : VpnInfo) × In v (u ∷ us)
      × SettledOn w c.conf.server v (select_vpn w (u ∷ us) c)
      × ((pinned (u ∷ us) c ≡ none) ⊎ (v.id ≡ c.conf.vpn_server_id))
select_vpn-In w u us c h = elim (Option-cases (pinned (u ∷ us) c)) [
  | inl e ↦
      let p = picked-In w u us c in
      (
        (picked w u us c).0,
        p.0,
        subst (SettledOn w c.conf.server (picked w u us c).0)
            (sym (select_vpn-elim w u us c none e))
            (activate-SettledOn w c.conf.server (picked w u us c).0 (picked w u us c).1 h
              (ap (λ x. x.server) p.1)),
        inl e,
      )
  | inr (v, e) ↦
      let f = find_id-In c.conf.vpn_server_id (u ∷ us) v (pinned-find_id (u ∷ us) c v e) in
      (
        v,
        f.0,
        subst (SettledOn w c.conf.server v) (sym (select_vpn-elim w u us c (some v) e))
            (activate-SettledOn w c.conf.server v c h refl),
        inr f.1,
      )
]

-- Given a server URL that parses and a list with at least one node, SelectVPN returns a node of the
-- list, whatever the probes come to, and leaves the base of the node calls at that node. If a number
-- other than 0 is asked for, the node returned has that number, or no node of the list has it.
pub select_vpn-SettledOn :
    (w : World) (u : VpnInfo) (us : List VpnInfo) (c : Client)
    → is_some (w.hostname c.conf.server) ≡ true
    → (v : VpnInfo) × In v (u ∷ us)
      × SettledOn w c.conf.server v (select_vpn w (u ∷ us) c)
      × ((c.conf.vpn_server_id ≡ 0)
          ⊎ (v.id ≡ c.conf.vpn_server_id)
          ⊎ ¬ HasId c.conf.vpn_server_id (u ∷ us))
select_vpn-SettledOn w u us c h =
    let (v, i, s, asked) = select_vpn-In w u us c h in (v, i, s, by_number v asked)
  where
    by_number :
        (v : VpnInfo)
        → (pinned (u ∷ us) c ≡ none) ⊎ (v.id ≡ c.conf.vpn_server_id)
        → (c.conf.vpn_server_id ≡ 0)
          ⊎ (v.id ≡ c.conf.vpn_server_id)
          ⊎ ¬ HasId c.conf.vpn_server_id (u ∷ us)
    by_number v (inr e) = inr (inl e)
    by_number v (inl e) = elim (Bool-cases (c.conf.vpn_server_id == 0)) [
      | inl b ↦ inl ((==_iff c.conf.vpn_server_id 0).0 b)
      | inr b ↦ inr (
          inr (λ found.
            pinned_complete (u ∷ us) c found.0 found.1 found.2 (λ z. ground (arith, b, z)) e))
    ]
