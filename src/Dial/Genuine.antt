-- ===== src/Dial/Genuine.antt =====
-- The addresses that web/internal/corplink/proxy.go looks up for a host name.
use fu_corplink.Common.{
  ℕ, zero, suc, ◌≡◌, refl, sym, ◌∙◌, subst, text_eq, true, false, Option, none, some, Text, List,
  [], ◌∷◌, if◌then◌else◌, ltb, All, length, ◌<◌, inl, inr, arith, Bool-cases, Option-cases, ◌⊎◌,
}
use fu_corplink.Common.Table.{lookup, insert, lookup-insert}
use fu_corplink.Upstream.Address.{Ip, v4, v6, NetText}
use fu_corplink.Dial.Lookup.{
  DialError, Outcome, ok, err, Outcome-cases, no_addresses, is_benchmark_fake_ip, bytes_of,
  usable_ips, resolve_from, resolve_host, DnsCacheEntry, stored, join_or_resolve,
  dns_lookup_retries, lookup_host,
}

-- ParseIP reads what String prints of an address that ParseIP gave
abbrev pub ReadsBack : NetText → Type 0
ReadsBack net =
    (t : Text) (ip : Ip)
    → net.parse_ip t ≡ some ip
    → net.parse_ip (net.ip_string (bytes_of ip)) ≡ some ip

-- 198.18.0.0/15
abbrev pub InBenchmark : Ip → Type 0
InBenchmark (v6 b) = ⊥
InBenchmark (v4 b) = (rest : Text) × ((b ≡ 198 ∷ 18 ∷ rest) ⊎ (b ≡ 198 ∷ 19 ∷ rest))

-- the text is an IP address, and none of the benchmark range
abbrev pub Genuine : NetText → Text → Type 0
Genuine net a = (ip : Ip) × (net.parse_ip a ≡ some ip) × ¬ InBenchmark ip

genuine_ip : (ip : Ip) → is_benchmark_fake_ip ip ≡ false → ¬ InBenchmark ip
unfolding is_benchmark_fake_ip
genuine_ip (v6 b) f i = i
genuine_ip (v4 []) f (rest, inl e) = ground (arith, e)
genuine_ip (v4 []) f (rest, inr e) = ground (arith, e)
genuine_ip (v4 (a ∷ [])) f (rest, inl e) = ground (arith, e)
genuine_ip (v4 (a ∷ [])) f (rest, inr e) = ground (arith, e)
genuine_ip (v4 (a ∷ b ∷ s)) f (rest, inl e) = ground (arith, f, e)
genuine_ip (v4 (a ∷ b ∷ s)) f (rest, inr e) = ground (arith, f, e)

abbrev pub Usable : NetText → List Text → Type 0
Usable net addrs = All (Genuine net) addrs × (0 < length addrs)

-- an error, or addresses that can be dialed
abbrev pub Sound : NetText → Outcome (List Text) → Type 0
Sound net (ok addrs) = Usable net addrs
Sound net (err e) = Unit {0}

usable_ips-Genuine :
    (net : NetText) (addrs : List Text) → ReadsBack net → All (Genuine net) (usable_ips net addrs)
unfolding usable_ips
usable_ips-Genuine net [] l = tt
usable_ips-Genuine net (a ∷ rest) l = elim (Option-cases (net.parse_ip a)) [
  | inl e ↦ rw (e, usable_ips) (usable_ips-Genuine net rest l)
  | inr (ip, e) ↦ elim (Bool-cases (is_benchmark_fake_ip ip)) [
    | inl f ↦ rw (e, usable_ips, f) (usable_ips-Genuine net rest l)
    | inr f ↦ rw (e, usable_ips, f) ((ip, l a ip e, genuine_ip ip f), usable_ips-Genuine net rest l)
  ]
]

-- the choice that a round of the loop makes on the usable addresses
chosen :
    (net : NetText) (ips : List Text) (other : Outcome (List Text))
    → All (Genuine net) ips
    → Sound net other
    → Sound net (elim ips [ [] ↦ other | ip ∷ more ↦ ok (ip ∷ more) ])
chosen net [] other g s = s
chosen net (ip ∷ more) other g s = (g, omega arith)

resolve_from-Sound :
    (net : NetText) (host : Text) (resolver : ℕ → Outcome (List Text)) (left i : ℕ)
    (last : DialError)
    → ReadsBack net
    → Sound net (resolve_from net host resolver left i last)
unfolding resolve_from
resolve_from-Sound net host resolver zero i last l = tt
resolve_from-Sound net host resolver (suc left) i last l = elim (Outcome-cases (resolver i)) [
  | inr (e, o) ↦ rw (o, resolve_from) (resolve_from-Sound net host resolver left (suc i) e l)
  | inl (addrs, o) ↦
      rw (o, resolve_from)
        (chosen net (usable_ips net addrs)
          (resolve_from net host resolver left (suc i) (no_addresses host))
          (usable_ips-Genuine net addrs l)
          (resolve_from-Sound net host resolver left (suc i) (no_addresses host) l))
]

-- what the entry of a host in a cache holds can be dialed
abbrev pub SoundCache : NetText → List (Text × DnsCacheEntry) → Type 0
SoundCache net cache =
    (host : Text) (entry : DnsCacheEntry) → lookup host cache ≡ some entry → Usable net entry.addrs

insert-SoundCache :
    (net : NetText) (host : Text) (entry : DnsCacheEntry) (cache : List (Text × DnsCacheEntry))
    → Usable net entry.addrs
    → SoundCache net cache
    → SoundCache net (insert host entry cache)
insert-SoundCache net host entry cache u s h e q = elim (Bool-cases (text_eq host h)) [
  | inl b ↦ subst (λ x. Usable net x.addrs) (hit b (sym (lookup-insert host h entry cache) ∙ q)) u
  | inr b ↦ s h e (miss b (sym (lookup-insert host h entry cache) ∙ q))
]
  where
    hit :
        text_eq host h ≡ true
        → (if text_eq host h then some entry else lookup h cache) ≡ some e
        → entry ≡ e
    hit b r = ground (arith, b, r)

    miss :
        text_eq host h ≡ false
        → (if text_eq host h then some entry else lookup h cache) ≡ some e
        → lookup h cache ≡ some e
    miss b r = ground (arith, b, r)

own_lookup :
    (net : NetText) (now : ℕ) (host : Text) (cache : List (Text × DnsCacheEntry))
    (o : Outcome (List Text))
    → Sound net o
    → SoundCache net cache
    → Sound net (stored now host cache o).0 × SoundCache net (stored now host cache o).1
unfolding stored
own_lookup net now host cache (err e) s c = (tt, c)
own_lookup net now host cache (ok addrs) s c = (s, insert-SoundCache net host _ cache s c)

join_or_resolve-Sound :
    (net : NetText) (now : ℕ) (host : Text) (resolver : ℕ → Outcome (List Text))
    (flight : Option (Outcome (List Text))) (cache : List (Text × DnsCacheEntry))
    → ReadsBack net
    → SoundCache net cache
    → ((o : Outcome (List Text)) → flight ≡ some o → Sound net o)
    → Sound net (join_or_resolve net now host resolver flight cache).0
      × SoundCache net (join_or_resolve net now host resolver flight cache).1
unfolding join_or_resolve resolve_host
join_or_resolve-Sound net now host resolver (some outcome) cache l c f = (f outcome refl, c)
join_or_resolve-Sound net now host resolver none cache l c f =
    own_lookup net now host cache (resolve_host net host resolver)
      (resolve_from-Sound net host resolver dns_lookup_retries 0 (no_addresses host) l) c

-- Given that an address which is printed reads back as itself, a lookup that starts on a cache of
-- texts that are IP addresses outside 198.18.0.0/15, the benchmark range that TUN VPNs answer with,
-- and joins only lookups that end with such texts or an error, ends with an error or with at least
-- one such text, and leaves only such texts cached.
pub lookup_host-Sound :
    (net : NetText) (now : ℕ) (host : Text) (resolver : ℕ → Outcome (List Text))
    (flight : Option (Outcome (List Text))) (cache : List (Text × DnsCacheEntry))
    → ReadsBack net
    → SoundCache net cache
    → ((o : Outcome (List Text)) → flight ≡ some o → Sound net o)
    → Sound net (lookup_host net now host resolver flight cache).0
      × SoundCache net (lookup_host net now host resolver flight cache).1
unfolding lookup_host
lookup_host-Sound net now host resolver flight cache l c f =
    elim (Option-cases (lookup host cache)) [
      | inl e ↦ rw (e, lookup_host) joined
      | inr (entry, e) ↦ elim (Bool-cases (ltb now entry.expires)) [
        | inl b ↦ rw (e, lookup_host, b) (c host entry e, c)
        | inr b ↦ rw (e, lookup_host, b) joined
      ]
    ]
  where
    joined :
        Sound net (join_or_resolve net now host resolver flight cache).0
        × SoundCache net (join_or_resolve net now host resolver flight cache).1
    joined = join_or_resolve-Sound net now host resolver flight cache l c f
