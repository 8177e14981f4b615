-- ===== src/RateLimit/Tests.antt =====
-- Calls of the rate limiter, and the witnesses of its theorems.
use telegram_br.Base.{◌+◌, ◌≤◌, ◌≡◌, refl, [], ◌∷◌, arith, seconds, count_window}
use telegram_br.RateLimit.{
  Limits, init, minute, hour, pop_old, prune, refill, grant, can_proceed, status,
}
use telegram_br.RateLimit.Windows.{Calls, grants, grants-limited}

abbrev lim : Limits
lim = record { max_per_minute = 2; max_per_hour = 20; burst_size = 5 }

-- Two accounts; the third call of the minute is refused, one after it granted.
abbrev calls : Calls
calls =
    (1, seconds 100)
    ∷ (2, seconds 101)
    ∷ (1, seconds 102)
    ∷ (2, seconds 160)
    ∷ (1, seconds 161)
    ∷ []

program : Unit {0}
unfolding init pop_old prune refill grant can_proceed status grants
program = tt

grants-calls :
    grants lim calls (init lim (seconds 100)) ≡ seconds 100 ∷ seconds 101 ∷ seconds 161 ∷ []
unfolding program
grants-calls = refl

status-calls : (status (seconds 200) (can_proceed lim 1 (seconds 100) (init lim 0)).0).1 ≡ (0, 1)
unfolding program
status-calls = refl

grants-limited_example :
    (count_window (minute + 1) (seconds 100) (grants lim calls (init lim (seconds 100))) ≤ 2)
    × (count_window (hour + 1) (seconds 100) (grants lim calls (init lim (seconds 100))) ≤ 20)
grants-limited_example =
    grants-limited lim (seconds 100) (seconds 100) calls
      (omega arith, (omega arith, (omega arith, (omega arith, (omega arith, tt)))))
