-- ===== src/Process.antt =====
-- process.py: the bounded reader of a subprocess's output.
pub mod Bounded
pub mod Running
pub mod Feeding
pub mod Stopping
use pazuzu.Base.{
  ℕ, ℤ, zero, suc, ◌+◌, ◌-◌, Bool, true, false, ◌||◌, List, [], ◌∷◌, ◌++◌, Bytes, length, take, ltb,
  if◌then◌else◌,
}

pub record ProcessResult : Type 0 where
  pub exit_code : ℤ
  pub stdout : Bytes
  pub stderr : Bytes
  pub stdout_truncated : Bool
  pub stderr_truncated : Bool

-- The loop of `_read_bounded` over the chunks that the stream gives until its end.
read_chunks : ℕ → List Bytes → Bytes → Bool → Bytes × Bool
read_chunks limit [] output truncated = (output, truncated)
read_chunks limit (chunk ∷ chunks) output truncated =
    let remaining = limit - length output in
    read_chunks limit chunks (output ++ take remaining chunk)
      (truncated || ltb remaining (length chunk))

unfoldable pub read_bounded : ℕ → List Bytes → Bytes × Bool
unfolding read_chunks
read_bounded limit chunks = read_chunks limit chunks [] false
