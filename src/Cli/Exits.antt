-- ===== src/Cli/Exits.antt =====
-- How `main` ends once the arguments are parsed.
use pazuzu.Base.{
  ℕ, ℤ, pos, ◌≡◌, refl, Option, none, some, List, ◌++◌, Text, codes, text_eq, if◌then◌else◌,
}
use pazuzu.Errors.{Kind, Exception, Result, ok, err, is_pazuzu_error}
use pazuzu.Exec.{Exec, pure, reraise, lift, modify, attempt, ◌>>=◌, ◌>>◌}
use pazuzu.Cli.{Environment, Namespace, text_at}
use pazuzu.Cli.Parser.{parser}
use pazuzu.Cli.Commands.{Program, exec_bridge}
use pazuzu.Cli.Main.{
  ParseArgs, parsed, is_caught, is_interrupt, conclude, guarded, perform, run, main,
}

-- What becomes of each kind of exception: 130 for an interrupt, 2 with a message for an OSError, a
-- PazuzuError, a RuntimeError, a TypeError or a ValueError, and nothing for the others, which leave
-- `main`.
unfoldable pub exit_code_of : Kind → Option ℕ
exit_code_of Kind.keyboard_interrupt = some 130
exit_code_of Kind.os_error = some 2
exit_code_of Kind.timeout_error = some 2
exit_code_of Kind.process_lookup_error = some 2
exit_code_of Kind.broken_pipe_error = some 2
exit_code_of Kind.connection_reset_error = some 2
exit_code_of Kind.pazuzu_error = some 2
exit_code_of Kind.connection_unavailable = some 2
exit_code_of Kind.command_timed_out = some 2
exit_code_of Kind.uncertain_execution = some 2
exit_code_of Kind.protocol_error = some 2
exit_code_of Kind.runtime_error = some 2
exit_code_of Kind.type_error = some 2
exit_code_of Kind.value_error = some 2
exit_code_of Kind.key_error = none
exit_code_of Kind.index_error = none
exit_code_of Kind.cancelled = none
exit_code_of Kind.timeout_expired = none
exit_code_of Kind.local_cancellation = none
exit_code_of Kind.assertion_error = none
exit_code_of Kind.module_not_found_error = none
exit_code_of Kind.overflow_error = none

abbrev pub EndsWith : Option ℕ → Exception → Result (Option ℤ) → Type 0
EndsWith (some code) e r = r ≡ ok (some (pos code))
EndsWith none e r = r ≡ err e

-- How `main` ends for the outcome of the operation.
abbrev pub Ends : Result (Option ℤ) → Result (Option ℤ) → Type 0
Ends (ok code) r = r ≡ ok code
Ends (err e) r = EndsWith (exit_code_of e.kind) e r

module _ {Line W : Type 0} (p : Program Line W) (rounds : ℕ) where
  -- The operation that the arguments name.
  abbrev pub operation : Namespace → Exec W (Option ℤ)
  operation ns =
      if text_eq (text_at ns (codes "operation")) (codes "bridge")
      then exec_bridge p rounds ns
      else run p rounds ns

  conclude-Ends : (r : Result (Option ℤ)) (w : W) → Ends r (conclude p rounds r w).0
  unfolding conclude pure reraise modify ◌>>=◌ is_caught is_pazuzu_error exit_code_of
  conclude-Ends (ok code) w = refl
  conclude-Ends (err e) w = go e.kind
    where
      go :
          (k : Kind)
          → EndsWith
              (exit_code_of k)
              e
              ((if is_interrupt k
                  then pure (some (pos 130))
                  else if is_caught k
                  then modify (p.write_stderr (codes "pazuzu: " ++ (e.message ++ codes "\n")))
                    >> pure (some (pos 2))
                  else reraise e)
                w).0
      go Kind.keyboard_interrupt = refl
      go Kind.os_error = refl
      go Kind.timeout_error = refl
      go Kind.process_lookup_error = refl
      go Kind.broken_pipe_error = refl
      go Kind.connection_reset_error = refl
      go Kind.pazuzu_error = refl
      go Kind.connection_unavailable = refl
      go Kind.command_timed_out = refl
      go Kind.uncertain_execution = refl
      go Kind.protocol_error = refl
      go Kind.runtime_error = refl
      go Kind.type_error = refl
      go Kind.value_error = refl
      go Kind.key_error = refl
      go Kind.index_error = refl
      go Kind.cancelled = refl
      go Kind.timeout_expired = refl
      go Kind.local_cancellation = refl
      go Kind.assertion_error = refl
      go Kind.module_not_found_error = refl
      go Kind.overflow_error = refl

  -- Once the arguments are parsed, `main` ends as the operation does: with its exit code, or as the
  -- table says for the kind of its exception, which is 130 for an interrupt, 2 for an OSError, a
  -- PazuzuError, a RuntimeError, a TypeError or a ValueError, and the exception itself for the others.
  pub main-Ends :
      (parse_args : ParseArgs) (env : Environment) (argv : List Text) (ns : Namespace) (w : W)
      → parse_args (parser env) argv ≡ ok (parsed ns)
      → Ends (operation ns w).0 (main p rounds parse_args env argv w).0
  unfolding main perform guarded attempt lift ◌>>=◌
  main-Ends parse_args env argv ns w h = rw h (conclude-Ends (operation ns w).0 (operation ns w).1)
