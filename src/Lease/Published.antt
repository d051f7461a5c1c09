-- ===== src/Lease/Published.antt =====
-- `SessionBudget.published` against `publish`.
use pazuzu.Base.{
  ℕ, ℤ, pos, zero, suc, ◌≤◌, ◌<◌, ◌≡◌, refl, ◌++◌, Bool, true, false, ◌&&◌, Option, some, Text,
  codes, arith, decimal, parse_int, ◌==◌,
}
use pazuzu.Errors.{ok}
use pazuzu.Lease.{SessionBudget, session_budget, published, publish}

-- Over a small range, every value is checked by evaluation.
every_below : ℕ → (ℕ → Bool) → Bool
every_below zero test = true
every_below (suc bound) test = test bound && every_below bound test

every_below_sound :
    (bound : ℕ) (test : ℕ → Bool) (value : ℕ)
    → every_below bound test ≡ true
    → value < bound
    → test value ≡ true
unfolding every_below
every_below_sound zero test value e below = absurd (omega arith)
every_below_sound (suc bound) test value e below =
    ground (arith, every_below_sound bound test value)

is_pos : Option ℤ → ℕ → Bool
is_pos (some (pos v)) n = v == n
is_pos _ n = false

is_pos_eq : (o : Option ℤ) (n : ℕ) → is_pos o n ≡ true → o ≡ some (pos n)
unfolding is_pos
is_pos_eq (some (pos v)) n h = ground arith
is_pos_eq o n h = ground arith

parses_back : every_below 65 (λ n. is_pos (parse_int (decimal n ++ codes "\n")) n) ≡ true
unfolding every_below is_pos parse_int decimal
parses_back = refl

-- A bridge that reads what a gateway published divides the budget as the gateway does, whatever
-- default it was given, if the gateway's `max_sessions` is between 2 and 64.
pub published-publish :
    (control_path : Text) (m default : ℕ) (budget : SessionBudget)
    → 2 ≤ m
    → m ≤ 64
    → session_budget control_path m ≡ ok budget
    → published control_path default (some (publish budget)) ≡ ok budget
unfolding published publish
published-publish control_path m default budget lo hi e = ground (
  arith,
  is_pos_eq (parse_int (decimal m ++ codes "\n")) m
      (every_below_sound 65 _ m parses_back (omega arith)),
)

-- Whatever the file holds, a published budget has between 2 and 64 sessions, if the default has.
pub published_bounds :
    (control_path : Text) (default : ℕ) (content : Option Text) (budget : SessionBudget)
    → 2 ≤ default
    → default ≤ 64
    → published control_path default content ≡ ok budget
    → (2 ≤ budget.max_sessions) × (budget.max_sessions ≤ 64)
unfolding published
published_bounds control_path default content budget lo hi e = ground arith
