-- ===== src/Dial/Kicks.antt =====
-- When a dial of web/internal/corplink/proxy.go asks for a new tunnel.
use fu_corplink.Common.{
  ℕ, ◌≡◌, refl, ap, sym, ◌∙◌, subst, true, false, Option, none, some, Text, List, [], ◌∷◌, ◌++◌,
  All, inl, inr, arith, Bool-cases,
}
use fu_corplink.Upstream.Address.{Ip, NetText}
use fu_corplink.Dial.Live.{host_was_live}
use fu_corplink.Dial.Lookup.{DialError, ok, err, Outcome-cases, is_retryable_dial_error}
use fu_corplink.Dial.Attempt.{
  Conn, Proxy, Round, dial_once, note_dial, kick_if_live, dial_loop, dial_context,
}

-- an attempt changes nothing but the cache of names
abbrev SameButCache : Proxy → Proxy → Type 0
SameButCache p q = (q.tunnel ≡ p.tunnel) × (q.live_hosts ≡ p.live_hosts)

dial_once-SameButCache :
    (net : NetText) (host port : Text) (r : Round) (p : Proxy)
    → SameButCache p (dial_once net host port r p).1
unfolding dial_once
dial_once-SameButCache net host port r p = (ground arith, ground arith)

kick_if_live_quiet :
    (now : ℕ) (host : Text) (p : Proxy)
    → host_was_live now host p.live_hosts ≡ false
    → kick_if_live now host p ≡ p
unfolding kick_if_live
kick_if_live_quiet now host p h = rw (h, kick_if_live) refl

abbrev pub Quiet : Text → List (Text × ℕ) → List Round → Type 0
Quiet host live rs = All (λ r. host_was_live r.now host live ≡ false) rs

dial_loop-tunnel :
    (net : NetText) (host port : Text) (last : Option DialError) (rs : List Round) (p : Proxy)
    → Quiet host p.live_hosts rs
    → (dial_loop net host port last rs p).1.tunnel ≡ p.tunnel
unfolding dial_loop note_dial
dial_loop-tunnel net host port last [] p q = refl
dial_loop-tunnel net host port last (r ∷ rs) p q =
    let same = dial_once-SameButCache net host port r p in
    let p' = (dial_once net host port r p).1 in
    let quiet = subst (λ m. host_was_live r.now host m ≡ false) (sym same.1) q.0 in
    elim (Outcome-cases (dial_once net host port r p).0) [
      | inl (conn, o) ↦ simp (dial_loop, o) same.0
      | inr (e, o) ↦ elim (Bool-cases r.over) [
        | inl b ↦ simp (dial_loop, o, b) same.0
        | inr b ↦ elim (Bool-cases (is_retryable_dial_error e)) [
          | inr c ↦ simp (dial_loop, o, b, c) same.0
          | inl c ↦ elim (Bool-cases r.over_in_pause) [
            | inl d ↦ simp (dial_loop, o, b, c, d, kick_if_live_quiet r.now host p' quiet) same.0
            | inr d ↦
                simp (dial_loop, o, b, c, d, kick_if_live_quiet r.now host p' quiet)
                  (dial_loop-tunnel net host port (some e) rs p'
                      (subst (λ m. Quiet host m rs) (sym same.1) q.1)
                    ∙ same.0)
          ]
        ]
      ]
    ]

-- A dial to a host that does not count as live at any of its attempts never asks for a new tunnel,
-- whatever the attempts come to and whenever the context ends: the generation, the pending kick and
-- the last kicked generation stay as they are.
pub dial_context-Quiet :
    (net : NetText) (host port : Text) (rs : List Round) (p : Proxy)
    → Quiet host p.live_hosts rs
    → (dial_context net host port rs p).1.tunnel ≡ p.tunnel
unfolding dial_context
dial_context-Quiet net host port rs p q = dial_loop-tunnel net host port none rs p q

-- an address that is dialed as it is, and a round that fails in a way that is worth another try
abbrev pub FailsOn : NetText → Text → Text → Round → Type 0
FailsOn net host port r =
    (e : DialError) × (r.dialer (net.join_host_port host port) ≡ err e)
    × (is_retryable_dial_error e ≡ true)
    × (r.over ≡ false)
    × (r.over_in_pause ≡ false)

dial_once_direct :
    (net : NetText) (host port : Text) (ip : Ip) (r : Round) (p : Proxy)
    → net.parse_ip host ≡ some ip
    → dial_once net host port r p ≡ (r.dialer (net.join_host_port host port), p)
unfolding dial_once
dial_once_direct net host port ip r p e = rw (e, dial_once) refl

dial_loop-ok :
    (net : NetText) (host port : Text) (last : Option DialError) (r : Round) (rs : List Round)
    (conn : Conn) (p : Proxy)
    → (dial_once net host port r p).0 ≡ ok conn
    → (dial_loop net host port last (r ∷ rs) p).0 ≡ some (ok conn)
unfolding dial_loop
dial_loop-ok net host port last r rs conn p o = simp (dial_loop, o)

dial_loop-err :
    (net : NetText) (host port : Text) (last : Option DialError) (r : Round) (rs : List Round)
    (e : DialError) (p : Proxy)
    → (dial_once net host port r p).0 ≡ err e
    → is_retryable_dial_error e ≡ true
    → r.over ≡ false
    → r.over_in_pause ≡ false
    → dial_loop net host port last (r ∷ rs) p
      ≡ dial_loop net host port
          (some e)
          rs
          (kick_if_live r.now host (dial_once net host port r p).1)
unfolding dial_loop
dial_loop-err net host port last r rs e p o c b d = simp (dial_loop, o, b, c, d)

dial_loop-rides :
    (net : NetText) (host port : Text) (ip : Ip) (last : Option DialError) (rs : List Round)
    (r : Round) (more : List Round) (conn : Conn) (p : Proxy)
    → net.parse_ip host ≡ some ip
    → All (FailsOn net host port) rs
    → r.dialer (net.join_host_port host port) ≡ ok conn
    → (dial_loop net host port last (rs ++ r ∷ more) p).0 ≡ some (ok conn)
dial_loop-rides net host port ip last [] r more conn p i f h =
    dial_loop-ok net host port last r more conn p
      (ap (λ x. x.0) (dial_once_direct net host port ip r p i) ∙ h)
dial_loop-rides net host port ip last (x ∷ rs) r more conn p i f h =
    let (e, o, re, b, d) = f.0 in
    ap (λ y. y.0)
      (dial_loop-err net host port last x (rs ++ r ∷ more) e p
        (ap (λ y. y.0) (dial_once_direct net host port ip x p i) ∙ o) re b d)
    ∙ dial_loop-rides net host port ip (some e) rs r more conn
        (kick_if_live x.now host (dial_once net host port x p).1) i f.1 h

-- A dial to an IP address rides out any number of attempts that fail with a retryable error before
-- the context is over: it returns the connection of the first attempt that succeeds.
pub dial_context-rides :
    (net : NetText) (host port : Text) (ip : Ip) (rs : List Round) (r : Round) (more : List Round)
    (conn : Conn) (p : Proxy)
    → net.parse_ip host ≡ some ip
    → All (FailsOn net host port) rs
    → r.dialer (net.join_host_port host port) ≡ ok conn
    → (dial_context net host port (rs ++ r ∷ more) p).0 ≡ some (ok conn)
unfolding dial_context
dial_context-rides net host port ip rs r more conn p i f h =
    dial_loop-rides net host port ip none rs r more conn p i f h
