-- ===== src/Circuit/Flood.antt =====
-- The flood wait of `CircuitBreaker` (monitors.py): Telegram's order to wait is obeyed.
use telegram_br.Base.{
  ℕ, ◌+◌, ◌≤◌, ◌<◌, max, ◌≡◌, refl, true, false, Option, none, some, List, [], ◌∷◌, arith, ltb,
  Time, seconds, All,
}
use telegram_br.Circuit.{
  Limits, Breaker, Outcome, returned, raised, cancelled, flooded, Step, begins, ends, step_time,
  check, success, failure, flood_failure, finish, run,
}

-- The breaker waits at least until the given time.
pub WaitsUntil : Time → Breaker → Type 0
WaitsUntil u b = (v : Time) × (b.flood_wait_until ≡ some v) × (u ≤ v)

flood_failure-WaitsUntil :
    (now : Time) (wait : ℕ) (u : Time) (b : Breaker)
    → WaitsUntil u b
    → WaitsUntil u (flood_failure now wait b)
unfolding WaitsUntil flood_failure
flood_failure-WaitsUntil now wait u b (v, e, h) =
    (max v (now + seconds wait), rw e refl, ground arith)

success-WaitsUntil : (u : Time) (b : Breaker) → WaitsUntil u b → WaitsUntil u (success b)
unfolding WaitsUntil success
success-WaitsUntil u b (v, e, h) = (v, ground arith, h)

failure-WaitsUntil :
    (st : Limits) (now u : Time) (b : Breaker) → WaitsUntil u b → WaitsUntil u (failure st now b)
unfolding WaitsUntil failure
failure-WaitsUntil st now u b w = w

finish-WaitsUntil :
    (st : Limits) (now u : Time) (o : Outcome) (b : Breaker)
    → WaitsUntil u b
    → WaitsUntil u (finish st now o b)
unfolding finish
finish-WaitsUntil st now u returned b w = success-WaitsUntil u b w
finish-WaitsUntil st now u raised b w = failure-WaitsUntil st now u b w
finish-WaitsUntil st now u cancelled b w = w
finish-WaitsUntil st now u (flooded wait) b w = flood_failure-WaitsUntil now wait u b w

check-WaitsUntil :
    (st : Limits) (now u : Time) (b : Breaker)
    → WaitsUntil u b
    → now < u
    → check st now b ≡ (b, false)
unfolding WaitsUntil check
check-WaitsUntil st now u b (v, e, h) early =
    let test : ltb now v ≡ true = ground arith in rw e (rw test refl)

run-WaitsUntil :
    (st : Limits) (u : Time) (es : List Step) (b : Breaker)
    → WaitsUntil u b
    → All (λ e. step_time e < u) es
    → (run st es b).1 ≡ 0
unfolding run
run-WaitsUntil st u [] b w early = refl
run-WaitsUntil st u (begins t ∷ es) b w early =
    rw (check-WaitsUntil st t u b w early.0, run-WaitsUntil st u es b w early.1) refl
run-WaitsUntil st u (ends t o ∷ es) b w early =
    run-WaitsUntil st u es (finish st t o b) (finish-WaitsUntil st t u o b w) early.1

flood_failure-starts :
    (now : Time) (wait : ℕ) (o : Option Time) (b : Breaker)
    → b.flood_wait_until ≡ o
    → WaitsUntil (now + seconds wait) (flood_failure now wait b)
unfolding WaitsUntil flood_failure
flood_failure-starts now wait none b e = (now + seconds wait, rw e refl, ground arith)
flood_failure-starts now wait (some v) b e = (max v (now + seconds wait), rw e refl, ground arith)

-- Once a call has ended with a flood wait of so many seconds, no call is let through before the
-- wait is over, however the calls of the workers begin and end in the meantime: neither a success
-- of an older call, nor a failure, nor a shorter flood wait ends it. All the steps fall before the
-- end of the wait.
pub run-flooded :
    (st : Limits) (now : Time) (wait : ℕ) (es : List Step) (b : Breaker)
    → All (λ e. step_time e < now + seconds wait) es
    → (run st (ends now (flooded wait) ∷ es) b).1 ≡ 0
unfolding run finish
run-flooded st now wait es b early =
    run-WaitsUntil st (now + seconds wait) es (flood_failure now wait b)
      (flood_failure-starts now wait b.flood_wait_until b refl) early
