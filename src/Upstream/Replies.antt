-- ===== src/Upstream/Replies.antt =====
-- What httpConnect and socks5Connect of web/internal/corplink/upstream.go make of a reply.
use fu_corplink.Common.{
  ℕ, zero, suc, ◌+◌, ◌<◌, ◌≡◌, refl, Bool, true, false, ◌||◌, Option, none, some, Text, List, [],
  ◌∷◌, ◌++◌, text_eq, codes, length, length-append, is_empty, inl, inr, arith, Bool-cases,
  Option-cases, All,
}
use fu_corplink.Socks.Handshake.{contains_byte, read_full}
use fu_corplink.Upstream.Address.{NetText}
use fu_corplink.Upstream.Lines.{LineReader, new_line_reader, cut_line, read_string, skip_headers}
use fu_corplink.Upstream.Dial.{
  Peer, failed, contains_text, connect_request, http_connect, offered, socks5_greet, socks5_connect,
}

abbrev pub unread : LineReader → ℕ
unread l = length l.buf + length l.conn

cut_line_shorter : (d : ℕ) (s : Text) → (cut_line d s).1 ≡ true → length (cut_line d s).2 < length s
unfolding cut_line
cut_line_shorter d [] h = absurd (ground arith)
cut_line_shorter d (c ∷ s) h = ground (arith, cut_line_shorter d s)

read_string_shorter :
    (d : ℕ) (l : LineReader) (line : Text)
    → (read_string d l).0 ≡ some line
    → unread (read_string d l).1 < unread l
unfolding read_string
read_string_shorter d l line h = ground (arith, cut_line_shorter d l.buf, cut_line_shorter d l.conn)

-- The loop over the header lines comes to an end: fuel beyond the bytes that are left to read gives
-- its result, the end of the headers or a read error.
pub skip_headers-ends :
    (fuel : ℕ) (l : LineReader)
    → unread l < fuel
    → (r : Option LineReader) × (skip_headers fuel l ≡ some r)
unfolding skip_headers
skip_headers-ends zero l h = absurd (omega arith)
skip_headers-ends (suc fuel) l h = elim (Option-cases (read_string b'\n' l).0) [
  | inl e ↦ (none, rw (e, skip_headers) refl)
  | inr (line, e) ↦ elim (Bool-cases (text_eq line (codes "\r\n") || text_eq line (codes "\n"))) [
    | inl end ↦ (some (read_string b'\n' l).1, rw (e, end, skip_headers) refl)
    | inr more ↦
        let (r, q) =
          skip_headers-ends fuel (read_string b'\n' l).1
            (omega (arith, h, read_string_shorter b'\n' l line e)) in
        (r, rw (e, more, skip_headers) q)
  ]
]

cut_line-append :
    (d : ℕ) (s t : Text)
    → contains_byte s d ≡ false
    → cut_line d (s ++ d ∷ t) ≡ (s ++ d ∷ [], true, t)
unfolding cut_line contains_byte
cut_line-append d [] t h = ground arith
cut_line-append d (c ∷ s) t h = ground (arith, cut_line-append d s t)

read_string-append :
    (d : ℕ) (s t : Text)
    → contains_byte s d ≡ false
    → read_string d (new_line_reader (s ++ d ∷ t)) ≡ (some (s ++ d ∷ []), new_line_reader t)
unfolding read_string cut_line
read_string-append d s t h = simp (cut_line-append d s t h)

-- a header line without its end
abbrev pub IsHeader : Text → Type 0
IsHeader h =
    (contains_byte h b'\n' ≡ false)
    × (text_eq (h ++ b'\n' ∷ []) (codes "\r\n") ≡ false)
    × (text_eq (h ++ b'\n' ∷ []) (codes "\n") ≡ false)

-- header lines and the blank line, in front of what follows
abbrev pub header_bytes : List Text → Text → Text
header_bytes [] payload = codes "\r\n" ++ payload
header_bytes (h ∷ hs) payload = h ++ b'\n' ∷ header_bytes hs payload

blank_line : contains_byte (b'\r' ∷ []) b'\n' ≡ false
unfolding contains_byte
blank_line = refl

is_blank : text_eq ((b'\r' ∷ []) ++ b'\n' ∷ []) (codes "\r\n") ≡ true
unfolding text_eq
is_blank = refl

skip_headers-header_bytes :
    (fuel : ℕ) (hs : List Text) (payload : Text)
    → All IsHeader hs
    → length hs < fuel
    → skip_headers fuel (new_line_reader (header_bytes hs payload))
      ≡ some (some (new_line_reader payload))
unfolding skip_headers
skip_headers-header_bytes zero hs payload a h = absurd (omega arith)
skip_headers-header_bytes (suc fuel) [] payload a h =
    simp (skip_headers, read_string-append b'\n' (b'\r' ∷ []) payload blank_line, is_blank)
skip_headers-header_bytes (suc fuel) (x ∷ hs) payload a h = simp (
  skip_headers,
  read_string-append b'\n' x (header_bytes hs payload) a.0.0,
  a.0.1,
  a.0.2,
  skip_headers-header_bytes fuel hs payload a.1 (omega (arith, h)),
)

length-header_bytes :
    (hs : List Text) (payload : Text) → length hs < length (header_bytes hs payload)
length-header_bytes [] payload = omega arith
length-header_bytes (h ∷ hs) payload =
    omega (arith, length-header_bytes hs payload, length-append h (b'\n' ∷ header_bytes hs payload))

-- An HTTP proxy that is reached, takes the request and answers with a status line that has " 200 ",
-- any header lines and a blank line is sent the CONNECT request and nothing else, and the connection
-- that comes back reads exactly what the proxy sends behind the blank line.
pub http_connect-passes :
    (base64 : Text → Text) (user pass addr status payload : Text) (hs : List Text) (more : Bool)
    → contains_byte status b'\n' ≡ false
    → contains_text (status ++ b'\n' ∷ []) (codes " 200 ") ≡ true
    → All IsHeader hs
    → http_connect base64 user pass addr (record {
      reached = true;
      takes_first = true;
      takes_second = more;
      sent = status ++ b'\n' ∷ header_bytes hs payload;
    })
      ≡ record {
        conn = some (record { buf = []; conn = payload });
        written = connect_request base64 user pass addr;
      }
unfolding http_connect
http_connect-passes base64 user pass addr status payload hs more one ok a = simp (
  http_connect,
  read_string-append b'\n' status (header_bytes hs payload) one,
  ok,
  skip_headers-header_bytes (suc (length (status ++ b'\n' ∷ header_bytes hs payload))) hs payload a
      (omega (
        arith,
        length-header_bytes hs payload,
        length-append status (b'\n' ∷ header_bytes hs payload),
      )),
)

offered_auth : (user : Text) → is_empty user ≡ false → offered user ≡ 2
unfolding offered
offered_auth user e = rw e refl

offered_open : (user : Text) → is_empty user ≡ true → offered user ≡ 0
unfolding offered
offered_open user e = rw e refl

-- With a user name configured, a SOCKS5 proxy that is reached, takes the greeting and picks the method
-- it is offered is turned down: the dial fails, behind the greeting alone. Without one the greeting
-- succeeds and leaves what the proxy sends behind its answer.
pub socks5_connect_refused :
    (net : NetText) (user addr rest : Text) (peer : Peer)
    → peer.reached ≡ true
    → peer.takes_first ≡ true
    → peer.sent ≡ 5 ∷ offered user ∷ rest
    → (is_empty user ≡ false → socks5_connect net user addr peer ≡ failed (5 ∷ 1 ∷ 2 ∷ []))
      × (is_empty user ≡ true → socks5_greet peer.sent ≡ some rest)
unfolding socks5_connect socks5_greet read_full
socks5_connect_refused net user addr rest peer r t s = (
  λ e. simp (socks5_connect, r, t, s, offered_auth user e, socks5_greet, read_full),
  λ e. simp (s, offered_open user e, socks5_greet, read_full),
)
