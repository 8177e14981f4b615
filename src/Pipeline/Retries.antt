-- ===== src/Pipeline/Retries.antt =====
-- How long the retries of the dead letter queue (monitors.py) go on.
use telegram_br.Base.{
  ℕ, zero, suc, ◌+◌, ◌-◌, ◌≤◌, ◌<◌, ◌≡◌, refl, ap, ◌∙◌, ◌⊎◌, inl, inr, Bool, true, false, not,
  Option, none, some, List, [], ◌∷◌, ◌++◌, arith, leb, if-by, length, get_elem?, any, All, elem,
}
use mathlib.Core.Path.{subst}
use telegram_br.DeadLetters.{
  Event, Error, Task, Dlq, Outcome, returns, raises, is_cancelled, persist_dead_letter, event_key,
  same_key, schedule, push, remove_at, start_retry, end_retry,
}
use telegram_br.Pipeline.{
  Analysis, silent, alerted, failed, stopped, end_analysis, Answers, Monitor, Library, Drop,
  validate_event, insert_message, try_insert_message, store_message, analyze_and_alert,
  process_stored, process_valid, process_event_pipeline, settle, process_event_from_queue,
  retry_send_alert, dlq_reprocess, run_retry, fire_task, fire,
}

-- How many more times the events of the tasks can be tried.
abbrev pub tries_left : ℕ → List Task → ℕ
tries_left n [] = 0
tries_left n (t ∷ ts) = (n + 1 - t.retry_count) + tries_left n ts

-- The tasks stand at most at the last retry.
abbrev pub AreRetries : ℕ → List Task → Type 0
AreRetries n = All (λ t. t.retry_count ≤ n)

tries_left-append :
    (n : ℕ) (ts : List Task) (t : Task)
    → tries_left n (ts ++ t ∷ []) ≡ tries_left n ts + (n + 1 - t.retry_count)
tries_left-append n [] t = omega arith
tries_left-append n (u ∷ ts) t = omega (arith, tries_left-append n ts t)

AreRetries-append :
    (n : ℕ) (ts : List Task) (t : Task)
    → AreRetries n ts
    → t.retry_count ≤ n
    → AreRetries n (ts ++ t ∷ [])
AreRetries-append n [] t h k = (k, tt)
AreRetries-append n (u ∷ ts) t (a, h) k = (a, AreRetries-append n ts t h k)

AreRetries-remove : (n k : ℕ) (ts : List Task) → AreRetries n ts → AreRetries n (remove_at k ts)
AreRetries-remove n k [] h = tt
AreRetries-remove n zero (t ∷ ts) (a, h) = h
AreRetries-remove n (suc k) (t ∷ ts) (a, h) = (a, AreRetries-remove n k ts h)

tries_left-remove :
    (n k : ℕ) (ts : List Task) (t : Task)
    → get_elem? ts k ≡ some t
    → AreRetries n ts
    → (tries_left n (remove_at k ts) + (n + 1 - t.retry_count) ≡ tries_left n ts)
      × (t.retry_count ≤ n)
tries_left-remove n k [] t e h = absurd (ground arith)
tries_left-remove n zero (u ∷ ts) t e (a, h) =
    let same : u ≡ t = ground arith in rw (← same) (omega arith, a)
tries_left-remove n (suc k) (u ∷ ts) t e (a, h) =
    let rest = tries_left-remove n k ts t e h in (omega (arith, rest.0), rest.1)

-- The tasks after a step: those before it, or one more try of a task that has some left.
Grows : ℕ → ℕ → Dlq → Dlq → Type 0
Grows n tried d d' =
    (d'.max_retries ≡ d.max_retries)
    × ((d'.retry_tasks ≡ d.retry_tasks)
        ⊎ ((t : Task) × (d'.retry_tasks ≡ d.retry_tasks ++ t ∷ [])
            × (t.retry_count ≡ tried + 1)
            × (tried < n)))

persist-Grows :
    (works : Bool) (e : Event) (k tried : ℕ) (d : Dlq)
    → Grows d.max_retries tried d (persist_dead_letter works e k d)
unfolding Grows persist_dead_letter
persist-Grows works e k tried d = (refl, inl refl)

push-Grows :
    (works : Bool) (e : Event) (x : Error) (n : ℕ) (d : Dlq)
    → Grows d.max_retries n d (push works e x n d)
unfolding push schedule Grows
push-Grows works e x n d =
    if-by (Grows d.max_retries n d) d.stopping _ _ (λ h. persist-Grows works e n n d)
      (λ h.
        if-by (Grows d.max_retries n d) (leb d.max_retries n) _ _ (λ h. persist-Grows works e n n d)
          (λ early.
            if-by (Grows d.max_retries n d) (any (same_key (event_key e)) d.scheduled_keys) _ _
              (λ known. (refl, inl refl)) (λ new. (refl, inr (_, refl, refl, ground arith)))))

Grows-end :
    (n tried : ℕ) (d d' d'' : Dlq)
    → (d''.max_retries ≡ d'.max_retries) × (d''.retry_tasks ≡ d'.retry_tasks)
    → Grows n tried d d'
    → Grows n tried d d''
unfolding Grows
Grows-end n tried d d' d'' (e, e') (g, inl h) = (e ∙ g, inl (e' ∙ h))
Grows-end n tried d d' d'' (e, e') (g, inr (t, h, k, l)) = (e ∙ g, inr (t, e' ∙ h, k, l))

module _ (lib : Library) where
  abbrev Keeps : Dlq → Monitor × Outcome → Type 0
  Keeps d p = p.0.dlq ≡ d

  store_message-dlq :
      (a : Answers) (e : Event) (m : Monitor) → (store_message lib a e m).0.dlq ≡ m.dlq
  unfolding store_message try_insert_message insert_message
  store_message-dlq a e m = ground arith

  end_analysis-dlq :
      (r : Analysis) (e : Event) (m : Monitor) → (end_analysis lib r e m).0.dlq ≡ m.dlq
  unfolding end_analysis
  end_analysis-dlq silent e m = refl
  end_analysis-dlq alerted e m = refl
  end_analysis-dlq (failed x) e m = refl
  end_analysis-dlq stopped e m = refl

  process_stored-dlq :
      (a : Answers) (e : Event) (m : Monitor) (new : Bool)
      → (process_stored lib a e (m, new)).0.dlq ≡ m.dlq
  unfolding process_stored analyze_and_alert
  process_stored-dlq a e m true = end_analysis-dlq a.analysis e _
  process_stored-dlq a e m false =
      if-by (Keeps m.dlq) e.recovered _ _
        (λ again.
          if-by (Keeps m.dlq) (elem (lib.hash e) m.alerts) _ _ (λ known. refl)
            (λ lost. end_analysis-dlq a.analysis e _))
        (λ fresh. refl)

  process_valid-dlq :
      (a : Answers) (e : Event) (o : Option Drop) (m : Monitor)
      → (process_valid lib a e o m).0.dlq ≡ m.dlq
  unfolding process_valid
  process_valid-dlq a e (some why) m = refl
  process_valid-dlq a e none m =
      let p = store_message lib a e m in process_stored-dlq a e p.0 p.1 ∙ store_message-dlq a e m

  process_event_pipeline-dlq :
      (a : Answers) (e : Event) (m : Monitor) → (process_event_pipeline lib a e m).0.dlq ≡ m.dlq
  unfolding process_event_pipeline
  process_event_pipeline-dlq a e m =
      if-by (Keeps m.dlq) (not a.fresh) _ _ (λ stale. refl)
        (λ fresh. process_valid-dlq a e (validate_event a e) m)

  settle-Grows :
      (a : Answers) (e : Event) (n : ℕ) (m : Monitor) (o : Outcome)
      → Grows m.dlq.max_retries n m.dlq (settle lib a e n (m, o)).0.dlq
  unfolding settle Grows
  settle-Grows a e n m returns = (refl, inl refl)
  settle-Grows a e n m is_cancelled = (refl, inl refl)
  settle-Grows a e n m (raises x) = push-Grows a.letter_works e x n m.dlq

  process_event_from_queue-Grows :
      (a : Answers) (e : Event) (n : ℕ) (m : Monitor)
      → Grows m.dlq.max_retries n m.dlq (process_event_from_queue lib a e n m).0.dlq
  unfolding process_event_from_queue
  process_event_from_queue-Grows a e n m =
      let p = process_event_pipeline lib a e m in
      let same = process_event_pipeline-dlq a e m in
      let grown = settle-Grows a e n p.0 p.1 in
      subst (λ d. Grows d.max_retries n d (settle lib a e n p).0.dlq) same grown

  dlq_reprocess-Grows :
      (a : Answers) (e : Event) (n : ℕ) (m : Monitor)
      → Grows m.dlq.max_retries n m.dlq (dlq_reprocess lib a e n m).0.dlq
  unfolding dlq_reprocess retry_send_alert Grows
  dlq_reprocess-Grows a e n m =
      if-by {A = Monitor × Outcome} (λ p. Grows m.dlq.max_retries n m.dlq p.0.dlq) e.resend _ _
        (λ alert.
          if-by {A = Monitor × Outcome} (λ p. Grows m.dlq.max_retries n m.dlq p.0.dlq)
            (elem (lib.hash e) m.alerts) _ _ (λ known. (refl, inl refl))
            (λ lost. (
              ap (λ d. d.max_retries) (end_analysis-dlq a.analysis e m),
              inl (ap (λ d. d.retry_tasks) (end_analysis-dlq a.analysis e m)),
            )))
        (λ event. process_event_from_queue-Grows a e n m)

  end_retry-tasks :
      (works : Bool) (t : Task) (o : Outcome) (d : Dlq)
      → ((end_retry works t o d).max_retries ≡ d.max_retries)
        × ((end_retry works t o d).retry_tasks ≡ d.retry_tasks)
  unfolding end_retry persist_dead_letter
  end_retry-tasks works t returns d = (refl, refl)
  end_retry-tasks works t is_cancelled d = (refl, refl)
  end_retry-tasks works t (raises x) d = ground arith

  run_retry-Grows :
      (a : Answers) (t : Task) (m : Monitor)
      → Grows m.dlq.max_retries t.retry_count m.dlq (run_retry lib a t m).dlq
  unfolding run_retry
  run_retry-Grows a t m =
      if-by {A = Monitor} (λ g. Grows m.dlq.max_retries t.retry_count m.dlq g.dlq)
        m.dlq.has_reprocess _ _
        (λ ready.
          let p = dlq_reprocess lib a t.event t.retry_count m in
          Grows-end m.dlq.max_retries t.retry_count m.dlq p.0.dlq _
            (end_retry-tasks a.letter_works t p.1 p.0.dlq)
            (dlq_reprocess-Grows a t.event t.retry_count m))
        (λ missing. persist-Grows a.letter_works t.event t.retry_count t.retry_count m.dlq)

  -- A retry that fires uses up one of the tries that are left.
  fire-tries_left :
      (k : ℕ) (a : Answers) (m : Monitor) (t : Task)
      → get_elem? m.dlq.retry_tasks k ≡ some t
      → AreRetries m.dlq.max_retries m.dlq.retry_tasks
      → let d = (fire lib k a m).dlq in
        (d.max_retries ≡ m.dlq.max_retries)
        × AreRetries m.dlq.max_retries d.retry_tasks
        × (tries_left m.dlq.max_retries d.retry_tasks
            < tries_left m.dlq.max_retries m.dlq.retry_tasks)
  unfolding fire_task start_retry Grows
  fire-tries_left k a m t e h =
      let n = m.dlq.max_retries in
      let ts = m.dlq.retry_tasks in
      let grown = run_retry-Grows a t (record m { dlq = start_retry k t m.dlq }) in
      let left = tries_left-remove n k ts t e h in
      let kept = AreRetries-remove n k ts h in
      simp e (elim grown.1 [
        | inl same ↦ (grown.0, rw same kept, rw same (omega (arith, left)))
        | inr (u, more, next, few) ↦ (
          grown.0,
          rw more (AreRetries-append n (remove_at k ts) u kept (omega arith)),
          rw more (omega (arith, left, tries_left-append n (remove_at k ts) u)),
        )
      ])

  -- Retries that fire one after another, each the task with a number.
  unfoldable pub fire_all : List (ℕ × Answers) → Monitor → Monitor
  fire_all [] m = m
  fire_all ((k, a) ∷ fs) m = fire_all fs (fire lib k a m)

  -- Every number is that of a task that waits then.
  abbrev pub AreFirings : List (ℕ × Answers) → Monitor → Type 0
  AreFirings [] m = Unit
  AreFirings ((k, a) ∷ fs) m =
      ((t : Task) × (get_elem? m.dlq.retry_tasks k ≡ some t)) × AreFirings fs (fire lib k a m)

-- Without new events, and as long as the analysis and the sending schedule no retry by themselves,
-- the retries end: in whatever order they fire, no more fire than the tasks have tries left.
fire_all-ends :
    (lib : Library) (fs : List (ℕ × Answers)) (m : Monitor)
    → AreRetries m.dlq.max_retries m.dlq.retry_tasks
    → AreFirings lib fs m
    → length fs ≤ tries_left m.dlq.max_retries m.dlq.retry_tasks
fire_all-ends lib [] m h run = omega arith
fire_all-ends lib ((k, a) ∷ fs) m h ((t, e), run) =
    let step = fire-tries_left lib k a m t e h in
    let g = fire lib k a m in
    let n = m.dlq.max_retries in
    let rest = fire_all-ends lib fs g (rw step.0 step.1) run in
    let moved : tries_left g.dlq.max_retries g.dlq.retry_tasks ≡ tries_left n g.dlq.retry_tasks =
      ap (λ x. tries_left x g.dlq.retry_tasks) step.0 in
    omega (arith, rest, moved, step.2)
