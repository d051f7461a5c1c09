-- ===== src/Shell/Command.antt =====
-- The remote command of a session.
use pazuzu.Base.{
  ℕ, ◌≡◌, refl, sym, ◌∙◌, ap, Bool, true, false, starts_with, ◌||◌, [], ◌∷◌, ◌++◌, Text, codes,
  arith, all, has_char, is_empty, is_digit, ◌≤◌, length,
}
use pazuzu.Errors.{ok_injective, ok, >>=-eq-ok}
use pazuzu.Shlex.{is_safe, quote, join}
use pazuzu.Slurm.{is_alphanumeric}
use pazuzu.Shell.{is_session_name, validate_session_name, tmux_check, remote_tmux_command}

abbrev is_session_char : ℕ → Bool
is_session_char c = is_alphanumeric c || has_char c (codes "_.-")

is_safe-session_char : (c : ℕ) → is_session_char c ≡ true → is_safe c ≡ true
unfolding is_safe is_alphanumeric is_digit has_char
is_safe-session_char c h = ground arith

all_safe : (s : Text) → all is_session_char s ≡ true → all is_safe s ≡ true
all_safe [] h = refl
all_safe (c ∷ s) h = ground (arith, is_safe-session_char c, all_safe s)

quote_safe : (s : Text) → is_empty s ≡ false → all is_safe s ≡ true → quote s ≡ s
unfolding quote
quote_safe s e h = ground arith

join_tmux :
    (session : Text)
    → join (codes "tmux" ∷ codes "new-session" ∷ codes "-A" ∷ codes "-s" ∷ session ∷ [])
      ≡ codes "tmux new-session -A -s " ++ quote session
unfolding join
join_tmux session = refl

-- An accepted name.
abbrev pub IsName : Text → Type 0
IsName session =
    (all is_safe session ≡ true)
    × (length session ≤ 64)
    × (is_empty session ≡ false)
    × (starts_with session (codes "-") ≡ false)

IsName-is_session_name : (session : Text) → is_session_name session ≡ true → IsName session
unfolding is_session_name is_alphanumeric is_digit starts_with has_char
IsName-is_session_name [] h = absurd (cc h)
IsName-is_session_name (c ∷ session) h = ground (arith, is_safe-session_char c, all_safe session)

validate_session_name_ok :
    (given session : Text)
    → validate_session_name given ≡ ok session
    → (is_session_name given ≡ true) × (session ≡ given)
unfolding validate_session_name
validate_session_name_ok given session h = ground arith

-- The command of a name that needs no quotes.
abbrev tmux_command : Text → Text
tmux_command session = tmux_check ++ (codes "exec tmux new-session -A -s " ++ session)

made_command :
    (session command : Text)
    → is_empty session ≡ false
    → all is_safe session ≡ true
    → ok (
        tmux_check
        ++ (codes "exec "
            ++ join (codes "tmux" ∷ codes "new-session" ∷ codes "-A" ∷ codes "-s" ∷ session ∷ [])))
      ≡ ok command
    → command ≡ tmux_command session
made_command session command e safe made =
    let joined =
      join_tmux session
      ∙ ap (λ t. codes "tmux new-session -A -s " ++ t) (quote_safe session e safe) in
    let same = ap (λ t. tmux_check ++ (codes "exec " ++ t)) joined in sym (ok_injective made) ∙ same

-- The command for an accepted session name ends in the plain words of a tmux call with that name as
-- one word: it needs no quotes, it is 64 characters at most, and it does not look like an option.
pub remote_tmux_command_ok :
    (session command : Text)
    → remote_tmux_command session ≡ ok command
    → (command ≡ tmux_check ++ (codes "exec tmux new-session -A -s " ++ session)) × IsName session
unfolding remote_tmux_command
remote_tmux_command_ok given command h =
    let (session, accepted, made) = >>=-eq-ok (validate_session_name given) _ h in
    let (good, same) = validate_session_name_ok given session accepted in
    let name = IsName-is_session_name given good in
    (
      made_command session command (rw same name.2) (rw same name.0) made ∙ ap tmux_command same,
      name,
    )
