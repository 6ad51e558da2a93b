-- ===== src/Upstream/Lines.antt =====
-- lineReader and leftoverConn of web/internal/corplink/upstream.go. A connection is the bytes that
-- the other side sends before it closes.
use fu_corplink.Common.{
  ℕ, zero, suc, Bool, true, false, ◌||◌, Option, none, some, Text, [], ◌∷◌, ◌++◌, if◌then◌else◌,
  ◌==◌, text_eq, codes, length, is_empty, take, drop,
}

-- lineReader: the bytes that were read ahead, and the connection
pub record LineReader : Type 0 where
  pub buf : Text
  pub conn : Text

abbrev pub new_line_reader : Text → LineReader
new_line_reader conn = record { buf = []; conn = conn }

-- the bytes up to and with a delimiter, and those behind it; `false` is the end before it
unfoldable pub cut_line : ℕ → Text → Text × Bool × Text
cut_line delim [] = ([], false, [])
cut_line delim (c ∷ s) =
    let rest = cut_line delim s in
    if c == delim then (c ∷ [], true, s) else (c ∷ rest.0, rest.1, rest.2)

-- ReadString: the buffer first, then the connection byte by byte; `none` is its error
unfoldable pub read_string : ℕ → LineReader → Option Text × LineReader
unfolding cut_line
read_string delim l =
    let ahead = cut_line delim l.buf in
    let behind = cut_line delim l.conn in
    if ahead.1
    then (some ahead.0, record { buf = ahead.2; conn = l.conn })
    else if behind.1
    then (some (ahead.0 ++ behind.0), record { buf = []; conn = behind.2 })
    else (none, record { buf = []; conn = [] })

-- the loop over the header lines: `none` where the fuel runs out, `some none` is a read error
unfoldable pub skip_headers : ℕ → LineReader → Option (Option LineReader)
skip_headers zero l = none
skip_headers (suc fuel) l =
    let r = read_string b'\n' l in
    let more = skip_headers fuel r.1 in
    elim r.0 [
      | none ↦ some none
      | some line ↦
          if text_eq line (codes "\r\n") || text_eq line (codes "\n") then some (some r.1) else more
    ]

-- leftoverConn
pub record LeftoverConn : Type 0 where
  pub buf : Text
  pub conn : Text

-- Read of up to `n` bytes; `m` is how many the connection has ready
unfoldable pub read : ℕ → ℕ → LeftoverConn → Text × LeftoverConn
read n m c =
    if is_empty c.buf
    then (take n (take m c.conn), record c { conn = drop (length (take n (take m c.conn))) c.conn })
    else (take n c.buf, record c { buf = drop n c.buf })
