-- ===== src/Circuit.antt =====
-- `CircuitBreaker` of monitors.py, which guards the calls to Telegram: every method that runs
-- under its lock is a function on its state, and a call is its check and, later, its end, so that
-- the calls of several workers may overlap. Times are of the monotonic clock.
pub mod Flood
pub mod Probes
pub mod Opening
mod Tests
use telegram_br.Base.{
  ℕ, zero, suc, ◌+◌, ◌-◌, ◌*◌, ◌/◌, ◌%◌, ◌≤◌, ◌<◌, min, max, ◌≡◌, refl, sym, ap, ◌∙◌, ◌≢◌, ◌↔◌, ◌⊎◌,
  inl, inr, Bool, true, false, not, ◌&&◌, ◌||◌, Option, none, some, List, [], ◌∷◌, ◌++◌, map, arith,
  ltb, leb, ◌==◌, if◌then◌else◌, is_some, Bool-cases, Option-cases, Time, seconds, length,
  get_elem?, take, drop, keep, any, count_by, All, length-append, length-drop, elem, distinct, Dict,
  lookup, insert, erase, insert_last, keep_last, lookup-insert, lookup-insert_self, lookup-erase,
  lookup-insert_last, length-insert-le, length-erase-le, ==_iff, ==_refl, leb_iff, ltb_iff,
  length-keep-le, lookup-append,
}

pub data CircuitState : Type 0 where
  closed opened half_open : CircuitState

pub record Limits : Type 0 where
  pub threshold : ℕ
  pub recovery : Time

pub record Breaker : Type 0 where
  pub failures : ℕ
  pub successes : ℕ
  pub last_fail : Option Time
  pub state : CircuitState
  pub half_open_reqs : ℕ
  pub flood_wait_until : Option Time
  pub flood_seconds_last : ℕ

abbrev pub init : Breaker
init = record {
  failures = 0;
  successes = 0;
  last_fail = none;
  state = closed;
  half_open_reqs = 0;
  flood_wait_until = none;
  flood_seconds_last = 0;
}

abbrev pub is_half_open : CircuitState → Bool
is_half_open half_open = true
is_half_open closed = false
is_half_open opened = false

abbrev pub is_opened : CircuitState → Bool
is_opened opened = true
is_opened closed = false
is_opened half_open = false

abbrev enter_half_open : Breaker → Breaker
enter_half_open b = record b { state = half_open; half_open_reqs = 0 }

abbrev last_fail_or_zero : Option Time → Time
last_fail_or_zero none = 0
last_fail_or_zero (some t) = t

-- The count of the probes: the third is refused.
check_half_open : Breaker → Breaker × Bool
check_half_open b =
    if is_half_open b.state
    then (record b { half_open_reqs = b.half_open_reqs + 1 }, leb (b.half_open_reqs + 1) 2)
    else (b, true)

check_opened : Limits → Time → Breaker → Breaker × Bool
unfolding check_half_open
check_opened st now b =
    if is_opened b.state
    then (if ltb st.recovery (now - last_fail_or_zero b.last_fail)
        then check_half_open (enter_half_open b)
        else (b, false))
    else check_half_open b

-- `_check`, with whether the call may go on (else it raises `CircuitBreakerOpen`).
check_flood : Limits → Time → Option Time → Breaker → Breaker × Bool
unfolding check_opened
check_flood st now none b = check_opened st now b
check_flood st now (some until) b =
    if ltb now until
    then (b, false)
    else check_opened st now (record (enter_half_open b) { flood_wait_until = none })

unfoldable pub check : Limits → Time → Breaker → Breaker × Bool
unfolding check_flood
check st now b = check_flood st now b.flood_wait_until b

unfoldable pub success : Breaker → Breaker
success b =
    if is_half_open b.state
    then record b { successes = b.successes + 1; state = closed; failures = 0; half_open_reqs = 0 }
    else record b { successes = b.successes + 1 }

-- The state after a failure, the count with this failure in it.
abbrev failed_state : Limits → ℕ → CircuitState → CircuitState
failed_state st n half_open = opened
failed_state st n closed = if leb st.threshold n then opened else closed
failed_state st n opened = opened

unfoldable pub failure : Limits → Time → Breaker → Breaker
failure st now b = record b {
  failures = b.failures + 1;
  last_fail = some now;
  state = failed_state st (b.failures + 1) b.state;
}

abbrev later_until : Option Time → Time → Time
later_until none until = until
later_until (some old) until = max old until

unfoldable pub flood_failure : Time → ℕ → Breaker → Breaker
flood_failure now wait b = record b {
  failures = b.failures + 1;
  last_fail = some now;
  flood_wait_until = some (later_until b.flood_wait_until (now + seconds wait));
  flood_seconds_last = wait;
  state = opened;
}

unfoldable pub flood_wait_remaining : Time → Breaker → Time
flood_wait_remaining now b = last_fail_or_zero b.flood_wait_until - now

-- How the guarded coroutine ends. A cancellation is no `Exception`, so that `call` lets it through.
pub data Outcome : Type 0 where
  returned raised cancelled : Outcome
  flooded : ℕ → Outcome

-- The `try` of `call`.
unfoldable pub finish : Limits → Time → Outcome → Breaker → Breaker
finish st now returned b = success b
finish st now raised b = failure st now b
finish st now cancelled b = b
finish st now (flooded wait) b = flood_failure now wait b

-- What the workers do with a breaker: a call begins, or a call that was let through ends.
pub data Step : Type 0 where
  begins : Time → Step
  ends : Time → Outcome → Step

abbrev pub step_time : Step → Time
step_time (begins t) = t
step_time (ends t o) = t

abbrev granted_count : Bool → ℕ
granted_count true = 1
granted_count false = 0

-- The state after the steps, and the number of calls that were let through.
unfoldable pub run : Limits → List Step → Breaker → Breaker × ℕ
run st [] b = (b, 0)
run st (begins t ∷ es) b =
    let (b', ok) = check st t b in let (b'', n) = run st es b' in (b'', granted_count ok + n)
run st (ends t o ∷ es) b = run st es (finish st t o b)
