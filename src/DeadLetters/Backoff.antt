-- ===== src/DeadLetters/Backoff.antt =====
-- The delay before a retry.
use telegram_br.Base.{ℕ, zero, suc, ◌≤◌, min, ◌≢◌, ◌⊎◌, arith}
use telegram_br.DeadLetters.{Error, power_of_two, flood_of, delay_of}

power_of_two-pos : (n : ℕ) → 1 ≤ power_of_two n
power_of_two-pos zero = omega arith
power_of_two-pos (suc n) = omega (arith, power_of_two-pos n)

-- A retry waits at least one second and at most fifteen minutes; it waits out a flood wait that is shorter, and without
-- one it waits at most a minute.
pub delay_of-bounds :
    (x : Error) (n : ℕ)
    → (1 ≤ delay_of x n)
      × (delay_of x n ≤ 900)
      × (min (flood_of x) 900 ≤ delay_of x n)
      × ((flood_of x ≢ 0) ⊎ (delay_of x n ≤ 60))
unfolding delay_of
delay_of-bounds x n = ground (arith, power_of_two-pos n)
