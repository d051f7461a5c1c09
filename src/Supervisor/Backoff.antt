-- ===== src/Supervisor/Backoff.antt =====
-- `_bounded_backoff`: quiet, growing, and capped at a minute.
use native.Mathlib.Nat.{pow-suc}
use pazuzu.Base.{ℕ, zero, suc, ◌+◌, ◌-◌, ◌*◌, ◌^◌, ◌≤◌, ◌≡◌, refl, arith}
use pazuzu.Supervisor.{capped_backoff}

pow_pos : (n : ℕ) → 1 ≤ 2 ^ n
pow_pos zero = omega arith
pow_pos (suc n) = let e : 2 ^ suc n ≡ 2 ^ n * 2 = pow-suc 2 n in omega (arith, pow_pos n, e)

backoff_mono_suc : (n : ℕ) → capped_backoff n ≤ capped_backoff (suc n)
unfolding capped_backoff
backoff_mono_suc zero = omega arith
backoff_mono_suc (suc n) =
    let e : 2 ^ suc n ≡ 2 ^ n * 2 = pow-suc 2 n in
    let f : suc (suc n) - 1 ≡ suc n = omega arith in
    let g : suc n - 1 ≡ n = omega arith in rw (f, g, e) (omega arith)

backoff_mono_add : (n k : ℕ) → capped_backoff n ≤ capped_backoff (k + n)
backoff_mono_add n zero = let e : 0 + n ≡ n = omega arith in rw e (omega arith)
backoff_mono_add n (suc k) =
    let e : suc k + n ≡ suc (k + n) = omega arith in
    rw e (omega (arith, backoff_mono_add n k, backoff_mono_suc (k + n)))

-- The delay before the next attempt is between five seconds and a minute, does not shrink when
-- failures add up, and is the whole minute from the fifth failure on.
pub capped_backoff_lem :
    (n k : ℕ)
    → (5_000 ≤ capped_backoff n)
      × (capped_backoff n ≤ 60_000)
      × (capped_backoff n ≤ capped_backoff (k + n))
      × (capped_backoff (k + 5) ≡ 60_000)
capped_backoff_lem n k = (low n, high n, backoff_mono_add n k, capped)
  where
    low : (j : ℕ) → 5_000 ≤ capped_backoff j
    low j = unfold capped_backoff in omega (arith, pow_pos (j - 1))

    high : (j : ℕ) → capped_backoff j ≤ 60_000
    high j = unfold capped_backoff in omega arith

    five : capped_backoff 5 ≡ 60_000
    five = unfold capped_backoff in refl

    capped : capped_backoff (k + 5) ≡ 60_000
    capped = omega (arith, backoff_mono_add 5 k, high (k + 5), five)
