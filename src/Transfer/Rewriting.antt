-- ===== src/Transfer/Rewriting.antt =====
-- `_remote_arguments` against a description of each argument by itself.
use mathlib.Core.Path.{subst₂}
use pazuzu.Base.{
  ℕ, suc, ◌+◌, ◌≡◌, refl, ◌↔◌, ◌∙◌, sym, true, false, List, [], ◌∷◌, ◌++◌, append-nil, append_assoc,
  Text, inl, inr, arith, All, Bool-cases, ◌==◌, length, not,
}
use pazuzu.Errors.{Kind, ok, raise_if, ◌>>◌, >>=-eq-ok}
use pazuzu.Transfer.{
  Tool, tail, arguments, overrides_transport, reject_transport_overrides, is_remote, is_foreign,
  rewrite_arguments, remote_arguments,
}

-- An argument that scp or rsync gets as it is.
abbrev pub IsLocal : Text → Type 0
IsLocal argument = (is_remote argument ≡ false) × (is_foreign argument ≡ false)

module _ (host : Text) where
  -- Each given argument beside what becomes of it, and how many of them are remote paths.
  pub data Rewritten : List Text → List Text → ℕ → Type 0 where
    none_left : Rewritten [] [] 0
    local :
        {given rewritten : List Text} {n : ℕ} (argument : Text)
        → IsLocal argument
        → Rewritten given rewritten n
        → Rewritten (argument ∷ given) (argument ∷ rewritten) n
    remote :
        {given rewritten : List Text} {n : ℕ} (argument : Text)
        → is_remote argument ≡ true
        → (length argument == 1) ≡ false
        → Rewritten given rewritten n
        → Rewritten (argument ∷ given) ((host ++ (b':' ∷ tail argument)) ∷ rewritten) (suc n)

  -- What the loop adds to its two accumulators.
  record Adds (given before after : List Text) (m k : ℕ) : Type 0 where
    added : List Text
    count : ℕ
    rewrites : Rewritten given added count
    after_eq : after ≡ before ++ added
    count_eq : k ≡ m + count

  Adds-remote :
      {given after : List Text} {m k : ℕ} (a : Text) (before : List Text)
      → is_remote a ≡ true
      → (length a == 1) ≡ false
      → Adds given (before ++ ((host ++ (b':' ∷ tail a)) ∷ [])) after (m + 1) k
      → Adds (a ∷ given) before after m k
  Adds-remote a before r named w = record {
    added = (host ++ (b':' ∷ tail a)) ∷ w.added;
    count = suc w.count;
    rewrites = remote a r named w.rewrites;
    after_eq = w.after_eq ∙ append_assoc before _ _;
    count_eq = omega arith;
  }

  Adds-local :
      {given after : List Text} {m k : ℕ} (a : Text) (before : List Text)
      → IsLocal a
      → Adds given (before ++ (a ∷ [])) after m k
      → Adds (a ∷ given) before after m k
  Adds-local a before loc w = record {
    added = a ∷ w.added;
    count = w.count;
    rewrites = local a loc w.rewrites;
    after_eq = w.after_eq ∙ append_assoc before _ _;
    count_eq = w.count_eq;
  }

  rewrite_arguments-Adds :
      (given before : List Text) (m : ℕ) (after : List Text) (k : ℕ)
      → rewrite_arguments host given before m ≡ ok (after, k)
      → Adds given before after m k
  unfolding rewrite_arguments
  rewrite_arguments-Adds [] before m after k h = record {
    added = [];
    count = 0;
    rewrites = none_left;
    after_eq = rw append-nil (ground arith);
    count_eq = ground arith;
  }
  rewrite_arguments-Adds (a ∷ given) before m after k h = elim (Bool-cases (is_remote a)) [
    | inl r ↦ elim (Bool-cases (length a == 1)) [
      | inl empty ↦ absurd (cc (rw (r, empty) at h))
      | inr named ↦ Adds-remote a before r named (
          rewrite_arguments-Adds given (before ++ ((host ++ (b':' ∷ tail a)) ∷ [])) (m + 1) after k
            (rw (r, named) at h))
    ]
    | inr not_remote ↦ elim (Bool-cases (is_foreign a)) [
      | inl foreign ↦ absurd (cc (rw (not_remote, foreign) at h))
      | inr not_foreign ↦
          Adds-local a before (not_remote, not_foreign)
            (rewrite_arguments-Adds given (before ++ (a ∷ [])) m after k
              (rw (not_remote, not_foreign) at h))
    ]
  ]

  Rewritten-rewrite_arguments :
      (given added before : List Text) (m n : ℕ)
      → Rewritten given added n
      → rewrite_arguments host given before m ≡ ok (before ++ added, m + n)
  unfolding rewrite_arguments
  Rewritten-rewrite_arguments given added before m n none_left = rw append-nil (ground arith)
  Rewritten-rewrite_arguments given added before m n
        (local {given = given'} {rewritten = added'} a (r, f) w) =
      rw (r, f)
        (Rewritten-rewrite_arguments given' added' (before ++ (a ∷ [])) m n w ∙ rw append_assoc)
  Rewritten-rewrite_arguments given added before m n
        (remote {given = given'} {rewritten = added'} {n = n'} a r named w) =
      rw (r, named)
        (Rewritten-rewrite_arguments given' added' (before ++ ((host ++ (b':' ∷ tail a)) ∷ []))
            (m + 1) n' w
          ∙ rw append_assoc (ground arith))

  counted_once :
      {given out rewritten : List Text} {count : ℕ}
      → Adds given [] out 0 count
      → (count ≡ 1) × (out ≡ rewritten)
      → Rewritten given rewritten 1
  counted_once {given} w (one, e) =
      subst₂ (Rewritten given) (sym w.after_eq ∙ e) (omega arith) w.rewrites

-- The test after the loop.
one_path :
    {rewritten : List Text} (message : Text) (out : List Text) (count : ℕ)
    → (raise_if (not (count == 1)) Kind.value_error message >> ok out) ≡ ok rewritten
    → (count ≡ 1) × (out ≡ rewritten)
one_path message out count h = ground arith

-- Nothing among the arguments overrides the transport exactly when the check passes.
reject_transport_overrides_iff :
    (tool : Tool) (given : List Text)
    → (reject_transport_overrides tool given ≡ ok tt)
      ↔ All (λ a. overrides_transport tool a ≡ false) given
unfolding reject_transport_overrides
reject_transport_overrides_iff tool [] = (λ h. tt, λ h. refl)
reject_transport_overrides_iff tool (a ∷ given) =
    ground (arith, reject_transport_overrides_iff tool given)

-- What makes a transfer's arguments acceptable, and what they become.
pub record Accepted (host : Text) (tool : Tool) (values rewritten : List Text) : Type 0 where
  pub given : List Text
  pub given_eq : arguments values ≡ ok given
  pub no_override : All (λ a. overrides_transport tool a ≡ false) given
  pub one_remote : Rewritten host given rewritten 1

module _ (host : Text) (values : List Text) (tool : Tool) (rewritten : List Text) where
  accepts : remote_arguments host values tool ≡ ok rewritten → Accepted host tool values rewritten
  unfolding remote_arguments
  accepts h =
      let (given, e, h') = >>=-eq-ok (arguments values) _ h in
      let (passed, e', h'') = >>=-eq-ok (reject_transport_overrides tool given) _ h' in
      let ((out, count), e'', last) = >>=-eq-ok (rewrite_arguments host given [] 0) _ h'' in
      let adds = rewrite_arguments-Adds host given [] 0 out count e'' in
      record {
        given = given;
        given_eq = e;
        no_override = (reject_transport_overrides_iff tool given).0 e';
        one_remote = counted_once host adds (one_path _ out count last);
      }

  accepted : Accepted host tool values rewritten → remote_arguments host values tool ≡ ok rewritten
  unfolding remote_arguments
  accepted a =
      rw
        (
          a.given_eq,
          (reject_transport_overrides_iff tool a.given).1 a.no_override,
          Rewritten-rewrite_arguments host a.given rewritten [] 0 1 a.one_remote,
        )
        refl

  -- A transfer is accepted exactly when, after one leading `--` is dropped, no argument overrides
  -- the transport, each argument is a local one that is passed on unchanged or a `:path` that
  -- becomes `host:path`, and there is exactly one `:path`. No other rewriting takes place.
  pub remote_arguments_iff :
      (remote_arguments host values tool ≡ ok rewritten) ↔ Accepted host tool values rewritten
  remote_arguments_iff = (accepts, accepted)
