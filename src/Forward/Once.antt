-- ===== src/Forward/Once.antt =====
-- forwardOnce of web/internal/corplink/proxy_http.go: one attempt on a fresh upstream connection.
use fu_corplink.Common.{
  ℕ, zero, suc, Bool, true, false, ◌||◌, ◌&&◌, not, Option, none, some, [], ◌∷◌, ◌++◌, ◌==◌, leb,
  ltb, if◌then◌else◌, Text, is_empty, length, codes, has_prefix, text_eq,
}
use fu_corplink.Common.Decimal.{itoa, parse_digits}
use fu_corplink.Assets.Cache.{asset_cache_max_object}
use fu_corplink.Forward.Wire.{write, Response, HttpText, forward_header}
use fu_corplink.Forward.State.{ForwardState, Outcome, fwd_retry, fwd_abort, Flow}
use fu_corplink.Forward.Body.{relay_forward_body, forward_buffered}

-- dialContext's answer: the error that isRetryableDialError accepts, or another
pub data Dial : Type 0 where
  dialed refused timed_out : Dial

-- what an attempt meets: the dial, and the answer to the request, which is `none` where writing it
-- or reading the header of the response fails
pub record Attempt : Type 0 where
  pub dial : Dial
  pub response : Option Response

abbrev pub bad_gateway : Text
bad_gateway = codes "HTTP/1.1 502 Bad Gateway\r\nContent-Length: 0\r\n\r\n"

-- `resuming` and `buffering`, with the offset that the Range header asks for
unfoldable pub resume_offset : ForwardState → Option ℕ
resume_offset st =
    if st.header_sent
    then if ltb 0 st.relayed then some st.relayed else none
    else if is_empty st.pending
    then none
    else some (length st.pending)

-- the value of the Range header
unfoldable pub range_header : ForwardState → Option Text
unfolding resume_offset
range_header st = elim (resume_offset st) [
  | none ↦ none
  | some n ↦ some (codes "bytes=" ++ (itoa n ++ codes "-"))
]

-- strings.LastIndexByte(cr, '/') and the text behind it
unfoldable pub after_slash : Text → Option Text
after_slash [] = none
after_slash (c ∷ s) = elim (after_slash s) [
  | some t ↦ some t
  | none ↦ if c == b'/' then some s else none
]

-- strconv.ParseInt, where any negative value is `none` beside a success, as `total` has it
unfoldable pub parse_int : Text → Option (Option ℕ)
parse_int [] = none
parse_int (c ∷ s) =
    if c == b'-'
    then (elim (parse_digits s) [
      | none ↦ if text_eq s (codes "9223372036854775808") then some none else none
      | some zero ↦ some (some 0)
      | some (suc n) ↦ some none
    ])
    else (elim (parse_digits (if c == b'+' then s else c ∷ s)) [
      | none ↦ none
      | some n ↦ some (some n)
    ])

-- the complete length that a Content-Range states, where none is known yet
unfoldable pub learn_total : Option ℕ → Text → Option ℕ
unfolding after_slash parse_int
learn_total (some n) cr = some n
learn_total none cr = elim (after_slash cr) [
  | none ↦ none
  | some t ↦ elim (parse_int t) [ none ↦ none | some n ↦ n ]
]

-- how the answer to a resuming request is spliced: the new state and the bytes to skip, or `none`
-- where it cannot be
unfoldable pub splice : ForwardState → ℕ → Response → Option (ForwardState × ℕ)
splice st offset resp =
    if resp.status_code == 206
    then if has_prefix resp.content_range (codes "bytes " ++ (itoa offset ++ codes "-"))
      then some (record st { total = learn_total st.total resp.content_range }, 0)
      else none
    else if resp.status_code == 200
    then some (st, offset)
    else none

-- the answers that have no body
unfoldable pub is_bodiless : Bool → ℕ → Bool
is_bodiless is_head status = is_head || status == 204 || status == 304 || ltb status 200

-- the state behind a header that is sent: only plain 200s of bounded size are captured
unfoldable pub opened : ForwardState → Response → Text → ForwardState
opened st resp hdr =
    let fits : Bool = elim st.total [ none ↦ true | some n ↦ leb n asset_cache_max_object ] in
    if is_empty st.cache_key
    then record st { header_sent = true }
    else if resp.status_code == 200 && fits
    then record st { header_sent = true; header = hdr }
    else record st { header_sent = true; cache_key = [] }

-- the header of a response of known length, then its body
unfoldable pub send_header : HttpText → Response → Flow → ℕ → Outcome × Flow
send_header http resp f skip =
    let hdr = forward_header http resp false in
    let (client, sent) = write f.client hdr in
    let st = record f.st { close_after = false } in
    if sent
    then relay_forward_body (record f { st = opened st resp hdr; client = client }) skip resp.body
    else (fwd_abort, record f { st = st; client = client })

-- the length that is sent: `total`, or the one that the response states
unfoldable pub known_total : Bool → Response → ForwardState → Bool → Option ℕ
unfolding is_bodiless
known_total is_head resp st buffering =
    if buffering
    then st.total
    else if is_bodiless is_head resp.status_code
    then some 0
    else resp.content_length

-- an answer whose header is not sent yet, with its length known or not
unfoldable pub answer : HttpText → Response → Flow → Bool → ℕ → Outcome × Flow
answer http resp f buffering skip =
    let unknown : Bool = elim f.st.total [ none ↦ true | some n ↦ false ] in
    if unknown || buffering
    then forward_buffered http resp f skip resp.body
    else send_header http resp f skip

unfoldable pub with_total : Flow → Option ℕ → Flow
with_total f total = record f { st = record f.st { total = total } }

-- from `if !st.headerSent` on
unfoldable pub deliver : HttpText → Bool → Response → Flow → Bool → ℕ → Outcome × Flow
deliver http is_head resp f buffering skip =
    if f.st.header_sent
    then relay_forward_body f skip resp.body
    else answer http resp (with_total f (known_total is_head resp f.st buffering)) buffering skip

unfoldable pub forward_response : HttpText → Bool → Response → Flow → Outcome × Flow
forward_response http is_head resp f = elim (resume_offset f.st) [
  | none ↦ deliver http is_head resp f false 0
  | some offset ↦ elim (splice f.st offset resp) [
    | none ↦ (fwd_abort, f)
    | some (st, skip) ↦ deliver http is_head resp (record f { st = st }) (not st.header_sent) skip
  ]
]

-- the answer to a failed dial
unfoldable pub dial_failed : Bool → Flow → Outcome × Flow
dial_failed retryable f =
    if f.st.header_sent
    then (fwd_abort, f)
    else if retryable
    then (fwd_retry, f)
    else (fwd_abort, record f { client = (write f.client bad_gateway).0 })

unfoldable pub forward_once : HttpText → Bool → Attempt → Flow → Outcome × Flow
forward_once http is_head a f = elim a.dial [
  | refused ↦ dial_failed false f
  | timed_out ↦ dial_failed true f
  | dialed ↦ elim a.response [
    | none ↦ (fwd_retry, f)
    | some resp ↦ forward_response http is_head resp f
  ]
]
