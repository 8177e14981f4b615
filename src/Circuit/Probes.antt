-- ===== src/Circuit/Probes.antt =====
-- The probes of `CircuitBreaker` (monitors.py): what the half-open state lets through.
use telegram_br.Base.{
  ◌+◌, ◌-◌, min, ◌≡◌, refl, Bool, true, false, none, List, [], ◌∷◌, arith, leb, Time, count_by, All,
}
use telegram_br.Circuit.{
  Limits, Breaker, returned, raised, cancelled, flooded, Step, begins, ends, check, finish, run,
  half_open,
}

-- A worker begins a call, or a call is cancelled.
abbrev pub begins_or_cancels : Step → Bool
begins_or_cancels (begins t) = true
begins_or_cancels (ends t returned) = false
begins_or_cancels (ends t raised) = false
begins_or_cancels (ends t cancelled) = true
begins_or_cancels (ends t (flooded wait)) = false

abbrev pub begins_call : Step → Bool
begins_call (begins t) = true
begins_call (ends t o) = false

-- Half-open, with no flood wait.
pub IsProbing : Breaker → Type 0
IsProbing b = (b.state ≡ half_open) × (b.flood_wait_until ≡ none)

check-IsProbing :
    (st : Limits) (now : Time) (b : Breaker)
    → IsProbing b
    → check st now b
      ≡ (record b { half_open_reqs = b.half_open_reqs + 1 }, leb (b.half_open_reqs + 1) 2)
unfolding IsProbing check
check-IsProbing st now b (half, calm) = rw calm (rw half refl)

-- While a half-open breaker learns of no result, it lets two calls through since it became half-open
-- and refuses all others, whenever they begin. So if the probes were cancelled, it refuses every
-- call from then on: no time that passes ends this.
pub run-probes :
    (st : Limits) (es : List Step) (b : Breaker)
    → b.state ≡ half_open
    → b.flood_wait_until ≡ none
    → All (λ e. begins_or_cancels e ≡ true) es
    → (run st es b).1 ≡ min (count_by begins_call es) (2 - b.half_open_reqs)
unfolding run finish IsProbing
run-probes st [] b half calm q = omega arith
run-probes st (begins t ∷ es) b half calm q =
    let rest =
      run-probes st es (record b { half_open_reqs = b.half_open_reqs + 1 }) half calm q.1 in
    rw (check-IsProbing st t b (half, calm)) (ground arith)
run-probes st (ends t cancelled ∷ es) b half calm q = run-probes st es b half calm q.1
run-probes st (ends t returned ∷ es) b half calm q = ground arith
run-probes st (ends t raised ∷ es) b half calm q = ground arith
run-probes st (ends t (flooded wait) ∷ es) b half calm q = ground arith
