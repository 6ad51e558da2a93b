-- ===== src/Forward/Wire.antt =====
-- What web/internal/corplink/proxy_http.go reads and writes: client writes, responses, headers.
use fu_corplink.Common.{
  ℕ, ◌-◌, Bool, true, false, ◌||◌, ◌&&◌, Option, none, some, List, [], ◌∷◌, ◌++◌, ◌==◌,
  if◌then◌else◌, Text, text_eq, codes, take, drop, length, has_prefix, to_lower,
}
use fu_corplink.Common.Decimal.{itoa}

-- The client side of a connection: the bytes that reached it, and what becomes of the writes to
-- come; `some k` is a write that fails after k bytes, and with no entry left writes succeed.
pub record Client : Type 0 where
  pub written : Text
  pub faults : List (Option ℕ)

write_by : Option ℕ → Client → Text → Client × Bool
write_by none c data' = (record c { written = c.written ++ data' }, true)
write_by (some k) c data' = (record c { written = c.written ++ take k data' }, false)

-- client.Write: the new client side, and whether the error was nil
unfoldable pub write : Client → Text → Client × Bool
unfolding write_by
write c data' = elim c.faults [
  | [] ↦ write_by none c data'
  | f ∷ fs ↦ write_by f (record c { faults = fs }) data'
]

-- the errors that the relay loops tell apart
pub data ReadError : Type 0 where
  unexpected_eof eof timeout other : ReadError

-- one Read of a response body
pub record Chunk : Type 0 where
  pub bytes : Text
  pub err : Option ReadError

abbrev pub Fields : Type 0
Fields = List (Text × Text)

-- http.Response; `content_length` is `none` for -1. A body is what its Reads return; behind the
-- last one the connection is silent until the read deadline.
pub record Response : Type 0 where
  pub status_code : ℕ
  pub status : Text
  pub content_length : Option ℕ
  pub content_range : Text
  pub fields : Fields
  pub body : List Chunk

-- http.Header.Write and http.StatusText
pub record HttpText : Type 0 where
  pub write_fields : Fields → Text
  pub status_text : ℕ → Text

-- Header.Del and Header.Set, on canonical names
unfoldable pub del : Text → Fields → Fields
del k [] = []
del k ((j, v) ∷ h) = let rest = del k h in if text_eq j k then rest else (j, v) ∷ rest

unfoldable pub set : Text → Text → Fields → Fields
unfolding del
set k v h = (k, v) ∷ del k h

abbrev pub hop_by_hop_resp_headers : List Text
hop_by_hop_resp_headers =
    codes "Connection"
    ∷ codes "Keep-Alive"
    ∷ codes "Proxy-Authenticate"
    ∷ codes "Proxy-Connection"
    ∷ codes "Te"
    ∷ codes "Trailer"
    ∷ codes "Transfer-Encoding"
    ∷ codes "Upgrade"
    ∷ []

unfoldable pub strip : List Text → Fields → Fields
unfolding del
strip [] h = h
strip (k ∷ ks) h = strip ks (del k h)

abbrev pub crlf : Text
crlf = 13 ∷ 10 ∷ []

-- the header block of writeForwardHeader
unfoldable pub forward_header : HttpText → Response → Bool → Text
unfolding strip set
forward_header http resp close_after =
    let h = strip hop_by_hop_resp_headers resp.fields in
    let kept : Fields =
      if close_after
      then set (codes "Connection") (codes "close") h
      else (let h' = set (codes "Connection") (codes "keep-alive") h in
          elim resp.content_length [
            | none ↦ h'
            | some n ↦ set (codes "Content-Length") (itoa n) h'
          ]) in
    (codes "HTTP/1.1 " ++ (resp.status ++ crlf)) ++ (http.write_fields kept ++ crlf)

-- the header block of finishBuffered
unfoldable pub buffered_header : HttpText → Response → ℕ → ℕ → Text
unfolding strip set
buffered_header http resp status body_len =
    let h = del (codes "Content-Range") (strip hop_by_hop_resp_headers resp.fields) in
    let kept =
      set (codes "Connection") (codes "keep-alive")
        (set (codes "Content-Length") (itoa body_len) h) in
    (codes "HTTP/1.1 " ++ (itoa status ++ (32 ∷ http.status_text status ++ crlf)))
    ++ (http.write_fields kept ++ crlf)

-- strings.Split(s, "\r\n")
cons_head : ℕ → List Text → List Text
cons_head c [] = (c ∷ []) ∷ []
cons_head c (l ∷ ls) = (c ∷ l) ∷ ls

unfoldable pub split_crlf : Text → List Text
unfolding cons_head
split_crlf [] = [] ∷ []
split_crlf (c ∷ []) = (c ∷ []) ∷ []
split_crlf (c ∷ d ∷ s) =
    let behind = split_crlf s in
    let more = split_crlf (d ∷ s) in if c == 13 && d == 10 then [] ∷ behind else cons_head c more

-- strings.TrimSuffix
unfoldable pub trim_suffix : Text → Text → Text
trim_suffix s end' =
    let n = length s - length end' in if text_eq (drop n s) end' then take n s else s

-- the fields that normalizeCachedHeader drops, and the ones that it writes anew
unfoldable pub is_framing : Text → Bool
is_framing line =
    let l = to_lower line in
    has_prefix l (codes "connection:")
    || has_prefix l (codes "content-length:")
    || has_prefix l (codes "keep-alive:")
    || has_prefix l (codes "proxy-connection:")
    || has_prefix l (codes "transfer-encoding:")

unfoldable pub keep_lines : List Text → Text
unfolding is_framing
keep_lines [] = []
keep_lines (l ∷ ls) = let rest = keep_lines ls in if is_framing l then rest else (l ++ crlf) ++ rest

unfoldable pub normalize_cached_header : Text → ℕ → Text
unfolding keep_lines split_crlf trim_suffix
normalize_cached_header header body_len =
    keep_lines (split_crlf (trim_suffix header (crlf ++ crlf)))
    ++ ((codes "Content-Length: " ++ (itoa body_len ++ crlf))
        ++ (codes "Connection: keep-alive" ++ (crlf ++ crlf)))
