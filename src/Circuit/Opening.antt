-- ===== src/Circuit/Opening.antt =====
-- When `CircuitBreaker` (monitors.py) opens, and when it closes again.
use telegram_br.Base.{
  suc, ◌+◌, ◌-◌, ◌<◌, ◌≡◌, refl, ap, ◌∙◌, inl, inr, Bool, true, false, none, some, List, [], ◌∷◌,
  arith, ltb, leb, if◌then◌else◌, Bool-cases, Time, count_by, All,
}
use telegram_br.Circuit.{
  Limits, Breaker, returned, raised, cancelled, flooded, Step, begins, ends, check, success,
  failure, finish, run, closed, opened,
}

-- The end of a call, without a flood wait.
abbrev pub ends_calmly : Step → Bool
ends_calmly (begins t) = false
ends_calmly (ends t returned) = true
ends_calmly (ends t raised) = true
ends_calmly (ends t cancelled) = true
ends_calmly (ends t (flooded wait)) = false

abbrev pub ends_raised : Step → Bool
ends_raised (begins t) = false
ends_raised (ends t returned) = false
ends_raised (ends t raised) = true
ends_raised (ends t cancelled) = false
ends_raised (ends t (flooded wait)) = false

run-opened :
    (st : Limits) (es : List Step) (b : Breaker)
    → b.state ≡ opened
    → All (λ e. ends_calmly e ≡ true) es
    → (run st es b).0.state ≡ opened
unfolding run finish success failure
run-opened st [] b o q = o
run-opened st (begins t ∷ es) b o q = ground arith
run-opened st (ends t returned ∷ es) b o q = run-opened st es (success b) (rw o refl) q.1
run-opened st (ends t raised ∷ es) b o q = run-opened st es (failure st t b) (rw o refl) q.1
run-opened st (ends t cancelled ∷ es) b o q = run-opened st es b o q.1
run-opened st (ends t (flooded wait) ∷ es) b o q = ground arith

-- A closed breaker, below its threshold, is open after the given ends of calls exactly if the
-- failures before and in them, together, reach the threshold: the successes between them do not
-- count, as they take no failure back.
pub run-opens :
    (st : Limits) (es : List Step) (b : Breaker)
    → b.state ≡ closed
    → b.failures < st.threshold
    → All (λ e. ends_calmly e ≡ true) es
    → (run st es b).0.state
      ≡ (if leb st.threshold (b.failures + count_by ends_raised es) then opened else closed)
unfolding run finish success failure
run-opens st [] b c below q = rw c (ground arith)
run-opens st (begins t ∷ es) b c below q = ground arith
run-opens st (ends t returned ∷ es) b c below q =
    let same : (success b).failures ≡ b.failures = rw c refl in
    run-opens st es (success b) (rw c refl) (rw c below) q.1
    ∙ ap (λ n. if leb st.threshold (n + count_by ends_raised es) then opened else closed) same
run-opens st (ends t raised ∷ es) b c below q =
    elim (Bool-cases (leb st.threshold (b.failures + 1))) [
      | inl reached ↦
          let whole : leb st.threshold (b.failures + suc (count_by ends_raised es)) ≡ true =
            ground arith in
          rw whole (run-opened st es (failure st t b) (rw (c, reached) refl) q.1)
      | inr under ↦
          rw (run-opens st es (failure st t b) (rw (c, under) refl) (ground arith) q.1)
            (ground arith)
    ]
run-opens st (ends t cancelled ∷ es) b c below q = run-opens st es b c below q.1
run-opens st (ends t (flooded wait) ∷ es) b c below q = ground arith

-- An open breaker, with no flood wait, whose last failure is longer ago than the recovery time, lets
-- a call through, and the success of that call closes it, with no failure on the count.
pub check-recovers :
    (st : Limits) (now at : Time) (b : Breaker)
    → b.state ≡ opened
    → b.flood_wait_until ≡ none
    → b.last_fail ≡ some at
    → st.recovery < now - at
    → ((check st now b).1 ≡ true)
      × ((success (check st now b).0).state ≡ closed)
      × ((success (check st now b).0).failures ≡ 0)
unfolding check success
check-recovers st now at b o calm fail late =
    let test : ltb st.recovery (now - at) ≡ true = ground arith in
    rw (calm, o, fail, test) (refl, refl, refl)
