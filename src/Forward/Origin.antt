-- ===== src/Forward/Origin.antt =====
-- What the forward proxy of web/internal/corplink/proxy_http.go relies on in an origin: its answers
-- carry one representation, whole or from the offset that their Content-Range states.
use fu_corplink.Common.{
  ℕ, ◌+◌, ◌≡◌, ◌≢◌, ◌≤◌, true, false, Option, none, some, List, [], ◌∷◌, ◌++◌, Text, length, take,
  drop, codes, ◌⊎◌, All,
}
use fu_corplink.Common.Decimal.{itoa}
use fu_corplink.Assets.Cache.{AssetCache}
use fu_corplink.Forward.Wire.{Chunk, eof, Response, HttpText, forward_header, buffered_header}
use fu_corplink.Forward.Once.{learn_total}

-- the Reads return the bytes of `body` from `p` on, and a clean end of file stands at its end only
abbrev pub Feeds : Text → ℕ → List Chunk → Type 0
Feeds body p [] = Unit {0}
Feeds body p (c ∷ cs) =
    (c.bytes ≡ take (length c.bytes) (drop p body))
    × (p + length c.bytes ≤ length body)
    × (c.err ≡ some eof → p + length c.bytes ≡ length body)
    × Feeds body (p + length c.bytes) cs

-- a length that is not stated, or is that of the representation
abbrev pub States : Text → Option ℕ → Type 0
States body n = (n ≡ none) ⊎ (n ≡ some (length body))

-- 200 with the whole representation
pub record IsFull (body : Text) (resp : Response) : Type 0 where
  pub status : resp.status_code ≡ 200
  pub content_length : States body resp.content_length
  pub feeds : Feeds body 0 resp.body

-- 206 with the representation from the stated offset on
pub record IsPart (body : Text) (resp : Response) : Type 0 where
  pub status : resp.status_code ≡ 206
  pub offset : ℕ
  pub behind : Text
  pub content_range : resp.content_range ≡ codes "bytes " ++ (itoa offset ++ b'-' ∷ behind)
  pub states : States body (learn_total none resp.content_range)
  pub feeds : Feeds body offset resp.body

-- An answer to a request: a part only where the request has a Range header.
abbrev pub Answers : Text → Option Text → Response → Type 0
Answers body range resp = IsFull body resp ⊎ ((range ≢ none) × IsPart body resp)

-- the header blocks that the proxy makes of a response
abbrev pub BlockOf : HttpText → Response → Text → Type 0
BlockOf http resp h =
    (h ≡ forward_header http resp true)
    ⊎ (h ≡ forward_header http resp false)
    ⊎ ((status n : ℕ) × (h ≡ buffered_header http resp status n))

-- Every body in the cache is the representation of its key, and every prefix one of it, with its
-- length.
pub record IsGenuine (origin : Text → Text) (c : AssetCache) : Type 0 where
  pub complete : All (λ e. e.resp.body ≡ origin e.key) c.order
  pub prefixes :
      All
        (λ e.
          (e.1.body ≡ take (length e.1.body) (origin e.0))
          × (length e.1.body ≤ length (origin e.0))
          × (e.1.total ≡ some (length (origin e.0))))
        c.partials
