-- ===== src/Routes/Endpoint.antt =====
-- The endpoint of the tunnel stays outside it: the allowed IPs of BuildWgConf of
-- web/internal/corplink/connect.go.
use fu_corplink.Common.{
  ℕ, zero, suc, ◌≡◌, ◌≢◌, ◌==◌, refl, ap, sym, ◌∙◌, subst, length, Bool, true, false, not, ◌||◌,
  ◌&&◌, Option, some, Text, List, [], ◌∷◌, ◌++◌, is_empty, is_some, All, inl, inr, arith,
  Bool-cases, Option-cases,
}
use fu_corplink.Upstream.Parse.{trim_space}
use fu_corplink.Routes.Carve.{Addr, bit, same_bit, agrees, contains}
use fu_corplink.Routes.Build.{
  NetIp, IsNetIp, subtract_text, host_prefix, host_cidr, carve_all, carve_peer, is_covered, add_dns,
  fields, ensure_dns_allowed_ips, is_v6, filter_ipv6_routes, mem, normalize_from, normalize_cidrs,
  WgInfo, Own, Node, WgConf, mode_routes, build_wg_conf, allowed_of,
}
use fu_corplink.Routes.Left.{
  routed_by, Unrouted, Unrouted-append, subtract_text-Unrouted, routed_by-covers, covers_one,
}

carve_all-Unrouted :
    (net : NetIp) (x : Addr) (ts : List Text)
    → IsNetIp net
    → Unrouted net x (carve_all net (net.prefix_string (host_prefix x)) ts)
unfolding carve_all
carve_all-Unrouted net x [] ok = tt
carve_all-Unrouted net x (t ∷ ts) ok =
    Unrouted-append net x (subtract_text net t (net.prefix_string (host_prefix x)))
      (carve_all net (net.prefix_string (host_prefix x)) ts) (subtract_text-Unrouted net x t ok)
      (carve_all-Unrouted net x ts ok)

carve_peer-Unrouted :
    (net : NetIp) (x : Addr) (ip : Text) (ts : List Text)
    → IsNetIp net
    → net.parse_addr ip ≡ some x
    → Unrouted net x (carve_peer net ip ts)
unfolding carve_peer host_cidr
carve_peer-Unrouted net x ip ts ok e =
    rw (e, carve_peer, host_cidr) (carve_all-Unrouted net x ts ok)

agrees-tail :
    (n : ℕ) (b c : Bool) (a x : Addr)
    → agrees (suc n) (b ∷ a) (c ∷ x) ≡ (same_bit b c && agrees n a x)
unfolding agrees bit
agrees-tail zero b c a x = ground arith
agrees-tail (suc n) b c a x = ground (arith, agrees-tail n b c a x)

same_bit-eq : (b c : Bool) → same_bit b c ≡ true → b ≡ c
unfolding same_bit
same_bit-eq true true h = refl
same_bit-eq true false h = sym h
same_bit-eq false true h = h
same_bit-eq false false h = refl

agrees-equal : (a x : Addr) → length a ≡ length x → agrees (length a) a x ≡ true → a ≡ x
agrees-equal [] [] l h = refl
agrees-equal [] (c ∷ x) l h = absurd (omega (arith, l))
agrees-equal (b ∷ a) [] l h = absurd (omega (arith, l))
agrees-equal (b ∷ a) (c ∷ x) l h =
    let both : (same_bit b c && agrees (length a) a x) ≡ true =
      sym (agrees-tail (length a) b c a x) ∙ h in
    let same : b ≡ c = same_bit-eq b c (ground (arith, both)) in
    let rest : a ≡ x = agrees-equal a x (omega (arith, l)) (ground (arith, both)) in
    ap (λ d. d ∷ a) same ∙ ap (◌∷◌ c) rest

contains-host_other : (a x : Addr) → a ≢ x → contains (host_prefix a) x ≡ false
unfolding contains
contains-host_other a x n = elim (Bool-cases (length a == length x && agrees (length a) a x)) [
  | inl e ↦ absurd (n (agrees-equal a x (ground (arith, e)) (ground (arith, e))))
  | inr e ↦ e
]

-- fields of which none is the address
abbrev pub NotAmong : NetIp → Addr → List Text → Type 0
NotAmong net x fs = All (λ f. (a : Addr) → net.parse_addr (trim_space f) ≡ some a → a ≢ x) fs

host-Unrouted :
    (net : NetIp) (a x : Addr)
    → IsNetIp net
    → a ≢ x
    → routed_by net (net.prefix_string (host_prefix a)) x ≡ false
host-Unrouted net a x ok n =
    routed_by-covers net x (net.prefix_string (host_prefix a)) (host_prefix a)
      (ok.reads (host_prefix a) (omega arith))
      (covers_one (host_prefix a) x ∙ contains-host_other a x n)

add_dns-Unrouted :
    (net : NetIp) (x : Addr) (fs ts : List Text)
    → IsNetIp net
    → NotAmong net x fs
    → Unrouted net x ts
    → Unrouted net x (add_dns net fs ts)
unfolding add_dns
add_dns-Unrouted net x [] ts ok n u = u
add_dns-Unrouted net x (f ∷ fs) ts ok n u = elim (Option-cases (net.parse_addr (trim_space f))) [
  | inl e ↦ rw (e, add_dns) (add_dns-Unrouted net x fs ts ok n.1 u)
  | inr (a, e) ↦
      let cidr = net.prefix_string (host_prefix a) in
      elim (Bool-cases (is_covered net cidr ts)) [
        | inl c ↦ rw (e, c, add_dns) (add_dns-Unrouted net x fs ts ok n.1 u)
        | inr c ↦
            rw (e, c, add_dns)
              (add_dns-Unrouted net x fs (ts ++ (cidr ∷ [])) ok n.1
                (Unrouted-append net x ts (cidr ∷ []) u (host-Unrouted net a x ok (n.0 a e), tt)))
      ]
]

filter_ipv6_routes-Unrouted :
    (net : NetIp) (x : Addr) (ts : List Text)
    → Unrouted net x ts
    → Unrouted net x (filter_ipv6_routes net ts)
unfolding filter_ipv6_routes
filter_ipv6_routes-Unrouted net x [] u = tt
filter_ipv6_routes-Unrouted net x (t ∷ ts) u = elim (Bool-cases (is_v6 net t)) [
  | inl e ↦ rw (e, filter_ipv6_routes) (filter_ipv6_routes-Unrouted net x ts u.1)
  | inr e ↦ rw (e, filter_ipv6_routes) (u.0, filter_ipv6_routes-Unrouted net x ts u.1)
]

normalize_from-Unrouted :
    (net : NetIp) (x : Addr) (seen ts : List Text)
    → Unrouted net x ts
    → Unrouted net x (normalize_from net seen ts)
unfolding normalize_from
normalize_from-Unrouted net x seen [] u = tt
normalize_from-Unrouted net x seen (t ∷ ts) u =
    elim (Bool-cases (not (is_some (net.parse_prefix t)) || mem t seen)) [
      | inl e ↦ rw (e, normalize_from) (normalize_from-Unrouted net x seen ts u.1)
      | inr e ↦ rw (e, normalize_from) (u.0, normalize_from-Unrouted net x (t ∷ seen) ts u.1)
    ]

allowed_of-Unrouted :
    (net : NetIp) (x : Addr) (ip : Text) (info : WgInfo) (ts : List Text)
    → IsNetIp net
    → net.parse_addr ip ≡ some x
    → NotAmong net x (fields info.vpn_dns)
    → Unrouted net x (allowed_of net ip info ts)
unfolding allowed_of ensure_dns_allowed_ips normalize_cidrs
allowed_of-Unrouted net x ip info ts ok e n =
    let dns = ensure_dns_allowed_ips net (carve_peer net ip ts) info.vpn_dns in
    let u : Unrouted net x dns =
      add_dns-Unrouted net x (fields info.vpn_dns) (carve_peer net ip ts) ok n
        (carve_peer-Unrouted net x ip ts ok e) in
    elim (Bool-cases (is_empty info.ipv6)) [
      | inl v ↦
          rw (v, allowed_of)
            (normalize_from-Unrouted net x [] (filter_ipv6_routes net dns)
              (filter_ipv6_routes-Unrouted net x dns u))
      | inr v ↦ rw (v, allowed_of) (normalize_from-Unrouted net x [] dns u)
    ]

-- With prefixes that read back as they are printed: in the configuration that BuildWgConf makes for a
-- node with an IP address, no allowed IP routes that address into the tunnel, whatever routes the
-- server gives, unless the server names the address as a DNS server.
pub build_wg_conf-Unrouted :
    (net : NetIp) (atoi : Text → Option Text) (own : Own) (node : Node) (info : WgInfo) (x : Addr)
    (conf : WgConf)
    → IsNetIp net
    → net.parse_addr node.ip ≡ some x
    → NotAmong net x (fields info.vpn_dns)
    → build_wg_conf net atoi own node info ≡ some conf
    → Unrouted net x conf.allowed_ips
unfolding build_wg_conf
build_wg_conf-Unrouted net atoi own node info x conf ok e n h =
    elim (Option-cases (atoi info.ip_mask)) [
      | inl m ↦ absurd (ground (arith, h, m))
      | inr (mask', m) ↦ elim (Option-cases (mode_routes own.split_mode info)) [
        | inl r ↦ absurd (ground (arith, h, m, r))
        | inr (routes, r) ↦
            subst (λ ts. Unrouted net x ts) (made mask' routes m r)
              (allowed_of-Unrouted net x node.ip info routes ok e n)
      ]
    ]
  where
    made :
        (mask' : Text) (routes : List Text)
        → atoi info.ip_mask ≡ some mask'
        → mode_routes own.split_mode info ≡ some routes
        → allowed_of net node.ip info routes ≡ conf.allowed_ips
    made mask' routes m r = ground (arith, h, m, r)
