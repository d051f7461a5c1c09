-- ===== src/Process/Bounded.antt =====
-- `_read_bounded` against what it promises: the first `limit` bytes, and whether there were more.
use mathlib.Core.Path.{ap₂}
use pazuzu.Base.{
  zero, suc, ℕ, ◌-◌, ◌≡◌, refl, ◌∙◌, false, ◌||◌, List, [], ◌∷◌, ◌++◌, append-nil, append_assoc,
  arith, Bytes, length, take, ltb, length-append, length-take, take-append,
}
use pazuzu.Process.{read_chunks, read_bounded}

-- All that the stream gives before its end.
abbrev pub concat : List Bytes → Bytes
concat [] = []
concat (chunk ∷ chunks) = chunk ++ concat chunks

-- One round keeps the first `limit` bytes of what was read, and knows whether there were more.
output_step :
    (limit : ℕ) (seen chunk : Bytes)
    → take limit seen ++ take (limit - length (take limit seen)) chunk ≡ take limit (seen ++ chunk)
output_step limit seen chunk =
    let e : limit - length (take limit seen) ≡ limit - length seen =
      omega (arith, length-take limit seen) in
    rw (e, take-append) refl

truncated_step :
    (limit : ℕ) (seen chunk : Bytes)
    → (ltb limit (length seen) || ltb (limit - length (take limit seen)) (length chunk))
      ≡ ltb limit (length (seen ++ chunk))
truncated_step limit seen chunk = ground (arith, length-take limit seen, length-append seen chunk)

read_chunks_lem :
    (limit : ℕ) (chunks : List Bytes) (seen : Bytes)
    → read_chunks limit chunks (take limit seen) (ltb limit (length seen))
      ≡ (take limit (seen ++ concat chunks), ltb limit (length (seen ++ concat chunks)))
unfolding read_chunks
read_chunks_lem limit [] seen = rw append-nil
read_chunks_lem limit (chunk ∷ chunks) seen =
    ap₂ (read_chunks limit chunks) (output_step limit seen chunk) (truncated_step limit seen chunk)
    ∙ read_chunks_lem limit chunks (seen ++ chunk)
    ∙ rw append_assoc

no_output : (limit : ℕ) → ◌≡◌ {A = Bytes} [] (take limit [])
no_output zero = refl
no_output (suc limit) = refl

not_truncated : (limit : ℕ) → false ≡ ltb limit 0
not_truncated limit = ground arith

-- Whatever the sizes of the chunks, the reader keeps exactly the first `limit` bytes of the
-- stream, and reports a truncation exactly when the stream has more than `limit` bytes.
pub read_bounded_lem :
    (limit : ℕ) (chunks : List Bytes)
    → read_bounded limit chunks ≡ (take limit (concat chunks), ltb limit (length (concat chunks)))
unfolding read_bounded
read_bounded_lem limit chunks =
    ap₂ (read_chunks limit chunks) (no_output limit) (not_truncated limit)
    ∙ read_chunks_lem limit chunks []
