-- ===== src/Jobs/Lifecycle/Retries.antt =====
-- The retry schedule, over all attempts.
use generic_coding_agent.Prelude.{
  ℕ, zero, suc, ◌≤◌, ◌<◌, ◌⊎◌, ◌-◌, ◌≡◌, refl, arith, min, leb, ◌==◌, if◌then◌else◌,
}
use generic_coding_agent.Jobs.Lifecycle.{retry_delay_seconds}

retry_delay_seconds_lem :
    (n : ℕ) → retry_delay_seconds n ≡ (if leb n 1 then 30 else if n == 2 then 120 else 600)
unfolding retry_delay_seconds
retry_delay_seconds_lem zero = refl
retry_delay_seconds_lem (suc zero) = refl
retry_delay_seconds_lem (suc (suc zero)) = refl
retry_delay_seconds_lem (suc (suc (suc n))) =
    let last : min (suc (suc (suc n)) - 1) 2 ≡ 2 = omega arith in rw last (ground arith)

-- The delay never falls from one attempt to a later one, lies between half a minute and ten
-- minutes, and is ten minutes from the third attempt on.
pub retry_delay_seconds_bounds :
    (m n : ℕ)
    → m ≤ n
    → (retry_delay_seconds m ≤ retry_delay_seconds n)
      × (30 ≤ retry_delay_seconds m)
      × (retry_delay_seconds n ≤ 600)
      × ((n < 3) ⊎ (retry_delay_seconds n ≡ 600))
retry_delay_seconds_bounds m n h =
    rw (retry_delay_seconds_lem m, retry_delay_seconds_lem n)
      (ground arith, ground arith, ground arith, ground arith)
