-- ===== src/Process/Feeding.antt =====
-- process.py: `_feed_stdin`, which writes the input of a process to its pipe.
use pazuzu.Base.{arith, ◌≡◌, Bool, true, false, Option, none, some, Bytes, if◌then◌else◌}
use pazuzu.Errors.{Kind, Result, ok, err}
use pazuzu.Exec.{Exec, pure, reraise, attempt, handle, finally, ◌>>=◌, ◌>>◌}

-- What asyncio's `StreamWriter` does; a write raises nothing, and a close returns at once.
pub record Writer (W : Type 0) : Type 0 where
  pub write : Bytes → W → W
  pub drain : W → Result (Unit {0}) × W
  pub close : W → W

-- `except (BrokenPipeError, ConnectionResetError)`
abbrev pub is_hangup : Kind → Bool
is_hangup Kind.broken_pipe_error = true
is_hangup Kind.connection_reset_error = true
is_hangup _ = false

-- What a drain that ended so makes of the task.
abbrev pub IsFed : Result (Unit {0}) → Result (Unit {0}) → Type 0
IsFed (ok _) r = r ≡ ok tt
IsFed (err e) r = r ≡ (if is_hangup e.kind then ok tt else err e)

module _ {W : Type 0} where
  unfoldable pub feed : Writer W → Bytes → Exec W (Unit {0})
  feed writer content =
      finally
        (do
          (λ w. (ok tt, writer.write content w))
          tried ← attempt writer.drain
          handle tried pure (λ e. if is_hangup e.kind then pure tt else reraise e))
        (λ w. (ok tt, writer.close w))

  unfoldable pub feed_stdin : Option (Writer W) → Bytes → Exec W (Unit {0})
  unfolding feed
  feed_stdin none content = pure tt
  feed_stdin (some writer) content = feed writer content

  -- The writer of a process gets the input once and is closed, however the drain ends; the task raises
  -- what the drain raised, but for a pipe that the process has closed.
  pub feed_stdin_lem :
      (writer : Writer W) (content : Bytes) (w : W)
      → let (drained, w') = writer.drain (writer.write content w) in
        let (r, w'') = feed_stdin (some writer) content w in
        IsFed drained r × (w'' ≡ writer.close w')
  unfolding feed_stdin feed finally ◌>>=◌ handle
  feed_stdin_lem writer content w = ground arith
