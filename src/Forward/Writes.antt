-- ===== src/Forward/Writes.antt =====
-- What a client write of web/internal/corplink/proxy_http.go leaves on the connection.
use fu_corplink.Common.{
  ℕ, ◌≡◌, refl, ap, ◌∙◌, append_assoc, true, Option, none, some, List, [], ◌∷◌, ◌++◌, arith, Text,
  length, take, take_all,
}
use fu_corplink.Forward.Pieces.{cut_piece}
use fu_corplink.Forward.Wire.{Client, write}

-- A write puts its bytes behind what was written, all of them or the first few of a failed write.
pub write_all :
    (c : Client) (s : Text) → (write c s).1 ≡ true → (write c s).0.written ≡ c.written ++ s
unfolding write
write_all c s h = elim_faults c.faults refl
  where
    elim_faults : (fs : List (Option ℕ)) → c.faults ≡ fs → (write c s).0.written ≡ c.written ++ s
    elim_faults [] e = rw (e, write)
    elim_faults (none ∷ fs) e = rw (e, write)
    elim_faults (some k ∷ fs) e = absurd (ground arith)

pub write_some : (c : Client) (s : Text) → (k : ℕ) × ((write c s).0.written ≡ c.written ++ take k s)
unfolding write
write_some c s = elim_faults c.faults refl
  where
    elim_faults :
        (fs : List (Option ℕ))
        → c.faults ≡ fs
        → (k : ℕ) × ((write c s).0.written ≡ c.written ++ take k s)
    elim_faults [] e = (length s, rw (e, write, take_all (length s) s (omega arith)))
    elim_faults (none ∷ fs) e = (length s, rw (e, write, take_all (length s) s (omega arith)))
    elim_faults (some k ∷ fs) e = (k, rw (e, write))

-- Behind the first `a` bytes of a body, a piece that extends them to `q` bytes.
pub write_piece :
    (body base : Text) (c : Client) (chunk : Text) (a q : ℕ)
    → c.written ≡ base ++ take a body
    → take a body ++ chunk ≡ take q body
    → ((write c chunk).1 ≡ true → (write c chunk).0.written ≡ base ++ take q body)
      × ((m : ℕ) × ((write c chunk).0.written ≡ base ++ take m body))
write_piece body base c chunk a q w e =
    let (k, some_written) = write_some c chunk in
    let (m, prefix) = cut_piece body chunk a q k e in
    (
      λ ok.
          write_all c chunk ok ∙ ap (λ y. y ++ chunk) w ∙ append_assoc base _ _ ∙ ap (◌++◌ base) e,
      (
        m,
        some_written
            ∙ ap (λ y. y ++ take k chunk) w
            ∙ append_assoc base _ _
            ∙ ap (◌++◌ base) prefix,
      ),
    )
