-- ===== src/Forward/Body.antt =====
-- The body loops of web/internal/corplink/proxy_http.go: relayForwardBody, forwardBuffered,
-- finishBuffered and streamOverflowBuffered. A loop recurs on the Reads of the body; behind the last
-- one the read deadline passes, which is a stall.
use fu_corplink.Common.{
  ℕ, ◌+◌, ◌-◌, ◌*◌, ◌^◌, Bool, true, false, ◌||◌, ◌&&◌, not, Option, none, some, List, [], ◌∷◌,
  ◌++◌, ◌==◌, leb, ltb, if◌then◌else◌, Text, is_empty, length, take, drop,
}
use fu_corplink.Assets.Cache.{asset_cache_max_object}
use fu_corplink.Forward.Wire.{
  Client, write, Chunk, ReadError, unexpected_eof, eof, timeout, other, Response, HttpText,
  forward_header, buffered_header,
}
use fu_corplink.Forward.State.{
  ForwardState, Outcome, fwd_done, fwd_retry, fwd_abort, Flow, commit_asset_cache, reached,
}

-- forwardBufferedMax
abbrev pub forward_buffered_max : ℕ
forward_buffered_max = 8 * 2 ^ 20

-- the capture of a relayed chunk for the cache
unfoldable pub capture : ForwardState → Text → ForwardState
capture st chunk =
    if is_empty st.cache_key
    then st
    else if ltb asset_cache_max_object (length st.buf + length chunk)
    then record st { cache_key = []; buf = [] }
    else record st { buf = st.buf ++ chunk }

-- one non-empty chunk goes to the client: `none` is the failed write
unfoldable pub relay_chunk : Flow → Text → Flow × Bool
relay_chunk f chunk =
    if is_empty chunk
    then (f, true)
    else (let (client, sent) = write f.client chunk in
        if sent
        then (
          record f {
            st = capture (record f.st { relayed = f.st.relayed + length chunk }) chunk;
            client = client;
          },
          true,
        )
        else (record f { client = client }, false))

-- what relayForwardBody makes of a read error
unfoldable pub end_relay : Flow → ReadError → Outcome × Flow
end_relay f unexpected_eof = (fwd_retry, f)
end_relay f eof = elim f.st.total [
  | none ↦ (fwd_done, commit_asset_cache f)
  | some total ↦ if leb total f.st.relayed then (fwd_done, commit_asset_cache f) else (fwd_retry, f)
]
end_relay f timeout = (fwd_retry, f)
end_relay f other = (fwd_abort, f)

unfoldable pub relay_forward_body : Flow → ℕ → List Chunk → Outcome × Flow
relay_forward_body f skip [] =
    if reached f.st.total f.st.relayed then (fwd_done, commit_asset_cache f) else (fwd_retry, f)
relay_forward_body f skip (c ∷ cs) = elim (reached f.st.total f.st.relayed) [
  | true ↦ (fwd_done, commit_asset_cache f)
  | false ↦
      let next = relay_chunk f (drop skip c.bytes) in
      elim (next.1) [
        | false ↦ (fwd_abort, next.0)
        | true ↦ elim c.err [
          | none ↦ relay_forward_body next.0 (skip - length c.bytes) cs
          | some e ↦ end_relay next.0 e
        ]
      ]
]

-- the body that finishBuffered sends
unfoldable pub buffered_body : ForwardState → Text
buffered_body st = elim st.total [
  | none ↦ st.pending
  | some total ↦ if ltb total (length st.pending) then take total st.pending else st.pending
]

-- finishBuffered once both writes have succeeded
unfoldable pub finished : Flow → Client → ℕ → Text → Text → Flow
finished f client status hdr body =
    let st = record f.st {
      header_sent = true;
      relayed = length body;
      total = some (length body);
      close_after = false;
      pending = [];
    } in
    if is_empty st.cache_key || not (status == 200) || ltb asset_cache_max_object (length body)
    then record f { st = record st { cache_key = [] }; client = client }
    else commit_asset_cache
        (record f { st = record st { header = hdr; buf = body }; client = client })

unfoldable pub finish_buffered : HttpText → Response → Flow → Outcome × Flow
finish_buffered http resp f =
    let body = buffered_body f.st in
    let status = if resp.status_code == 206 then 200 else resp.status_code in
    let hdr = buffered_header http resp status (length body) in
    let (c1, sent1) = write f.client hdr in
    if sent1
    then (let (c2, sent2) = write c1 body in
        if sent2
        then (fwd_done, finished f c2 status hdr body)
        else (fwd_abort, record f { client = c2 }))
    else (fwd_abort, record f { client = c1 })

-- io.Copy(client, resp.Body): the rest of the body, and whether it ended by a clean end of file. No
-- deadline is set, so silence lasts until the connection is closed.
unfoldable pub copy_rest : Client → List Chunk → Client × Bool
copy_rest client [] = (client, false)
copy_rest client (c ∷ cs) =
    let next = if is_empty c.bytes then (client, true) else write client c.bytes in
    elim (next.1) [
      | false ↦ (next.0, false)
      | true ↦ elim c.err [
        | none ↦ copy_rest next.0 cs
        | some eof ↦ (next.0, true)
        | some _ ↦ (next.0, false)
      ]
    ]

-- streamOverflowBuffered, on a chunk that came with the read error `err`: io.Copy meets it again
unfoldable pub stream_overflow_buffered :
    HttpText → Response → Flow → Text → List Chunk → Outcome × Flow
stream_overflow_buffered http resp f chunk rest =
    let st = record f.st { close_after = true; cache_key = [] } in
    let (c1, sent1) = write f.client (forward_header http resp true) in
    if sent1
    then (let (c2, sent2) = write c1 st.pending in
        if sent2
        then (let (c3, sent3) = write c2 chunk in
            if sent3
            then (let (c4, clean) = copy_rest c3 rest in
                (
                  if clean then fwd_done else fwd_abort,
                  record f {
                    st = record st {
                      header_sent = true;
                      relayed = length st.pending + length chunk;
                      pending = [];
                      total = none;
                    };
                    client = c4;
                  },
                ))
            else (fwd_abort, record f { st = record st { header_sent = true }; client = c3 }))
        else (fwd_abort, record f { st = record st { header_sent = true }; client = c2 }))
    else (fwd_abort, record f { st = st; client = c1 })

-- what forwardBuffered makes of a read error
unfoldable pub end_buffered : HttpText → Response → Flow → ReadError → Outcome × Flow
end_buffered http resp f unexpected_eof = (fwd_retry, f)
end_buffered http resp f eof = elim f.st.total [
  | none ↦ finish_buffered http resp f
  | some total ↦
      if leb total (length f.st.pending) then finish_buffered http resp f else (fwd_retry, f)
]
end_buffered http resp f timeout = (fwd_retry, f)
end_buffered http resp f other = (fwd_abort, f)

-- the error that came with the overflowing chunk is what io.Copy reads next
abbrev pub pushed_back : Option ReadError → List Chunk → List Chunk
pushed_back none cs = cs
pushed_back (some e) cs = record { bytes = []; err = some e } ∷ []

unfoldable pub forward_buffered : HttpText → Response → Flow → ℕ → List Chunk → Outcome × Flow
forward_buffered http resp f skip [] =
    if reached f.st.total (length f.st.pending) then finish_buffered http resp f else (fwd_retry, f)
forward_buffered http resp f skip (c ∷ cs) = elim (reached f.st.total (length f.st.pending)) [
  | true ↦ finish_buffered http resp f
  | false ↦
      let chunk = drop skip c.bytes in
      elim (ltb forward_buffered_max (length f.st.pending + length chunk) && not (is_empty chunk)) [
        | true ↦ stream_overflow_buffered http resp f chunk (pushed_back c.err cs)
        | false ↦
            let f' = record f { st = record f.st { pending = f.st.pending ++ chunk } } in
            elim c.err [
              | none ↦ forward_buffered http resp f' (skip - length c.bytes) cs
              | some e ↦ end_buffered http resp f' e
            ]
      ]
]
