-- ===== src/Dial/Lookup.antt =====
-- lookupHost, resolveHost, isBenchmarkFakeIP and isRetryableDialError of
-- web/internal/corplink/proxy.go. A resolver is what it answers to one attempt after the other.
use fu_corplink.Common.{
  ℕ, zero, suc, ◌+◌, ◌*◌, ◌^◌, ◌≡◌, refl, ◌⊎◌, inl, inr, Bool, false, ◌&&◌, ◌||◌, Option, none,
  some, Text, List, [], ◌∷◌, ◌++◌, if◌then◌else◌, ◌==◌, ltb, codes,
}
use fu_corplink.Common.Table.{lookup, insert}
use fu_corplink.Upstream.Address.{Ip, v4, v6, NetText}
use fu_corplink.Upstream.Dial.{contains_text}

-- an error, by what isRetryableDialError asks of it
pub record DialError : Type 0 where
  pub is_deadline : Bool
  pub is_dns_timeout : Bool
  pub message : Text

pub data Outcome {ℓ} (A : Type ℓ) : Type ℓ where
  ok : A → Outcome A
  err : DialError → Outcome A

pub Outcome-cases {ℓ} :
    {A : Type ℓ} (o : Outcome A) → ((a : A) × (o ≡ ok a)) ⊎ ((e : DialError) × (o ≡ err e))
Outcome-cases (ok a) = inl (a, refl)
Outcome-cases (err e) = inr (e, refl)

-- the net.DNSError for no addresses, with the text that it prints
abbrev pub no_addresses : Text → DialError
no_addresses host = record {
  is_deadline = false;
  is_dns_timeout = false;
  message = codes "lookup " ++ (host ++ codes ": no addresses found");
}

-- isRetryableDialError
unfoldable pub is_retryable_dial_error : DialError → Bool
is_retryable_dial_error e =
    e.is_deadline || (e.is_dns_timeout || contains_text e.message (codes "operation aborted"))

-- isBenchmarkFakeIP
unfoldable pub is_benchmark_fake_ip : Ip → Bool
is_benchmark_fake_ip (v6 b) = false
is_benchmark_fake_ip (v4 (a ∷ b ∷ s)) = a == 198 && (b == 18 || b == 19)
is_benchmark_fake_ip (v4 _) = false

abbrev pub bytes_of : Ip → Text
bytes_of (v4 b) = b
bytes_of (v6 b) = b

-- the loop over the addresses of an answer
unfoldable pub usable_ips : NetText → List Text → List Text
unfolding is_benchmark_fake_ip
usable_ips net [] = []
usable_ips net (a ∷ rest_addrs) =
    let rest = usable_ips net rest_addrs in
    elim (net.parse_ip a) [
      | none ↦ rest
      | some ip ↦ if is_benchmark_fake_ip ip then rest else net.ip_string (bytes_of ip) ∷ rest
    ]

abbrev pub dns_lookup_retries : ℕ
dns_lookup_retries = 4

-- the loop of resolveHost: how many attempts are left, which one is next, and the last error
unfoldable pub resolve_from :
    NetText → Text → (ℕ → Outcome (List Text)) → ℕ → ℕ → DialError → Outcome (List Text)
unfolding usable_ips
resolve_from net host resolver zero i last = err last
resolve_from net host resolver (suc left) i last = elim (resolver i) [
  | err e ↦ resolve_from net host resolver left (suc i) e
  | ok addrs ↦ elim (usable_ips net addrs) [
    | [] ↦ resolve_from net host resolver left (suc i) (no_addresses host)
    | ip ∷ ips ↦ ok (ip ∷ ips)
  ]
]

-- resolveHost; no round of the loop leaves the last error as it is at the start
unfoldable pub resolve_host : NetText → Text → (ℕ → Outcome (List Text)) → Outcome (List Text)
unfolding resolve_from
resolve_host net host resolver =
    resolve_from net host resolver dns_lookup_retries 0 (no_addresses host)

abbrev pub dns_cache_ttl : ℕ
dns_cache_ttl = 5 * 60 * 10 ^ 9

pub record DnsCacheEntry : Type 0 where
  pub addrs : List Text
  pub expires : ℕ

-- the end of a lookup: an answer goes into the cache
unfoldable pub stored :
    ℕ
    → Text
    → List (Text × DnsCacheEntry)
    → Outcome (List Text)
    → Outcome (List Text) × List (Text × DnsCacheEntry)
stored now host cache (err e) = (err e, cache)
stored now host cache (ok addrs) =
    (ok addrs, insert host (record { addrs = addrs; expires = now + dns_cache_ttl }) cache)

-- a lookup past the cache: it joins the one in flight, up to the end of its context, or resolves
-- itself
unfoldable pub join_or_resolve :
    NetText
    → ℕ
    → Text
    → (ℕ → Outcome (List Text))
    → Option (Outcome (List Text))
    → List (Text × DnsCacheEntry)
    → Outcome (List Text) × List (Text × DnsCacheEntry)
unfolding resolve_host stored
join_or_resolve net now host resolver (some outcome) cache = (outcome, cache)
join_or_resolve net now host resolver none cache =
    stored now host cache (resolve_host net host resolver)

-- lookupHost; `flight` is what another goroutine's call for the host in flight gives, if there is one
unfoldable pub lookup_host :
    NetText
    → ℕ
    → Text
    → (ℕ → Outcome (List Text))
    → Option (Outcome (List Text))
    → List (Text × DnsCacheEntry)
    → Outcome (List Text) × List (Text × DnsCacheEntry)
unfolding join_or_resolve
lookup_host net now host resolver flight cache =
    let own = join_or_resolve net now host resolver flight cache in
    elim (lookup host cache) [
      | none ↦ own
      | some entry ↦ if ltb now entry.expires then (ok entry.addrs, cache) else own
    ]
