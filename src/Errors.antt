-- ===== src/Errors.antt =====
-- errors.py, and the built-in exceptions that the program raises or catches; results of fallible
-- code.
use pazuzu.Base.{Bool, true, false, ◌≡◌, refl, Text, if◌then◌else◌}

-- The class of an exception. Those of errors.py come first; all five are a `pazuzu_error`.
-- `local_cancellation` is `_LocalCancellation` of shell.py.
pub data Kind : Type 0 where
  pazuzu_error connection_unavailable command_timed_out uncertain_execution protocol_error : Kind
  value_error type_error key_error index_error os_error timeout_error runtime_error cancelled : Kind
  process_lookup_error timeout_expired local_cancellation keyboard_interrupt : Kind
  assertion_error module_not_found_error overflow_error broken_pipe_error connection_reset_error :
      Kind

pub record Exception : Type 0 where
  pub kind : Kind
  pub message : Text

-- `isinstance(exc, PazuzuError)`
unfoldable pub is_pazuzu_error : Kind → Bool
is_pazuzu_error Kind.pazuzu_error = true
is_pazuzu_error Kind.connection_unavailable = true
is_pazuzu_error Kind.command_timed_out = true
is_pazuzu_error Kind.uncertain_execution = true
is_pazuzu_error Kind.protocol_error = true
is_pazuzu_error _ = false

unfoldable pub is_connection_unavailable : Kind → Bool
is_connection_unavailable Kind.connection_unavailable = true
is_connection_unavailable _ = false

unfoldable pub is_timeout_error : Kind → Bool
is_timeout_error Kind.timeout_error = true
is_timeout_error _ = false

unfoldable pub is_local_cancellation : Kind → Bool
is_local_cancellation Kind.local_cancellation = true
is_local_cancellation _ = false

pub data Result {ℓ} (A : Type ℓ) : Type ℓ where
  ok : A → Result A
  err : Exception → Result A

infixl 5 ◌>>=◌ ◌>>◌
abbrev pub ◌>>=◌ {ℓ κ} : {A : Type ℓ} {B : Type κ} → Result A → (A → Result B) → Result B
ok a >>= f = f a
err e >>= f = err e

abbrev pub ◌>>◌ {ℓ} : {A : Type ℓ} → Result (Unit {0}) → Result A → Result A
checked >> rest = checked >>= λ _. rest

abbrev pub raise {ℓ} : {A : Type ℓ} → Kind → Text → Result A
raise k t = err (record { kind = k; message = t })

-- `if c: raise ...`
abbrev pub raise_if : Bool → Kind → Text → Result (Unit {0})
raise_if c k t = if c then raise k t else ok tt

-- Inversion of a successful bind.
pub >>=-eq-ok {ℓ κ} :
    {B : Type ℓ} {C : Type κ} (first : Result B) (next : B → Result C) {value : C}
    → (first >>= next) ≡ ok value
    → (b : B) × (first ≡ ok b) × (next b ≡ ok value)
>>=-eq-ok (ok b) next h = (b, refl, h)
>>=-eq-ok (err e) next h = cc

pub ok_injective {ℓ} : {A : Type ℓ} {a b : A} → ok a ≡ ok b → a ≡ b
ok_injective h = cc h
