-- ===== src/Policy/Age.antt =====
-- The age gate (unified_alerts/gate.py): what is dropped, and that it stays dropped.
use telegram_br.Base.{
  ◌+◌, ◌-◌, ◌*◌, ◌/◌, ◌≤◌, ◌<◌, ◌≡◌, refl, ◌↔◌, inl, inr, true, false, some, arith, ltb, ◌==◌,
  Bool-cases, Time, seconds,
}
use telegram_br.Policy.{Setting, Stage, age_limit_seconds, event_age, decide_age, evaluate_event}

age_limit_seconds-le : (setting : Setting) → age_limit_seconds setting ≤ 604800
unfolding age_limit_seconds
age_limit_seconds-le Setting.unreadable = omega arith
age_limit_seconds-le Setting.below_zero = omega arith
age_limit_seconds-le (Setting.number n) = omega arith

-- Where an event is dropped as too old, it is dropped at every later time and stage too, its stamp
-- being one in seconds: no event passes the send stage that the pipeline stage would have dropped
-- before.
pub evaluate_event-later :
    (setting : Setting) (now later ts : Time) (stage again : Stage)
    → ts ≤ now * 10
    → now ≤ later
    → (evaluate_event setting now (some ts) stage).0.allowed ≡ false
    → (evaluate_event setting later (some ts) again).0.allowed ≡ false
unfolding evaluate_event decide_age event_age
evaluate_event-later setting now later ts stage again real order dropped = ground arith

-- A stamp given in milliseconds leads to the decision that it leads to in seconds, and to the same
-- counter, when it is late enough that the two units cannot be taken for each other.
pub evaluate_event-milliseconds :
    (setting : Setting) (now ts : Time) (stage : Stage)
    → ts ≤ now * 10
    → now * 10 < ts * 1000
    → evaluate_event setting now (some (ts * 1000)) stage
      ≡ evaluate_event setting now (some ts) stage
unfolding evaluate_event event_age
evaluate_event-milliseconds setting now ts stage real late =
    let back : ts * 1000 / 1000 ≡ ts = omega arith in
    let in_ms : ltb (now * 10) (ts * 1000) ≡ true = ground arith in
    let in_s : ltb (now * 10) ts ≡ false = ground arith in
    elim (Bool-cases (ts == 0)) [
      | inl zero_stamp ↦ ground arith
      | inr some_stamp ↦
          let still_some : (ts * 1000 == 0) ≡ false = ground arith in
          rw (in_ms, in_s, back, some_stamp, still_some) refl
    ]

-- An event with a stamp in seconds is dropped exactly if the gate is on, the stamp is positive, and
-- more than the limit and the second of grace has gone by since; the limit is at most seven days.
pub evaluate_event-dropped :
    (setting : Setting) (now ts : Time) (stage : Stage)
    → ts ≤ now * 10
    → ((evaluate_event setting now (some ts) stage).0.allowed ≡ false
        ↔ (0 < age_limit_seconds setting)
          × (0 < ts)
          × (seconds (age_limit_seconds setting + 1) < now - ts))
      × (age_limit_seconds setting ≤ 604800)
unfolding evaluate_event decide_age event_age
evaluate_event-dropped setting now ts stage real = (ground arith, age_limit_seconds-le setting)
