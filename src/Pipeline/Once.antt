-- ===== src/Pipeline/Once.antt =====
-- A message is analysed once, however often its event comes and whatever fails.
use telegram_br.Base.{
  ℕ, ◌≤◌, ◌≡◌, refl, ◌⊎◌, inl, inr, Bool, true, false, not, ◌&&◌, Option, none, some, List, [], ◌∷◌,
  arith, ◌==◌, if◌then◌else◌, Bool-cases, Option-cases, if-by, get_elem?, count_by, elem,
}
use telegram_br.DeadLetters.{start_retry, Event, Task, Outcome, returns, raises, is_cancelled}
use telegram_br.Pipeline.{
  Analysis, silent, alerted, failed, stopped, Answers, Monitor, Library, Drop, validate_event,
  insert_message, try_insert_message, store_message, end_analysis, analyze_and_alert,
  process_stored, process_valid, process_event_pipeline, settle, process_event_from_queue,
  retry_send_alert, dlq_reprocess, run_retry, fire_task, fire,
}

-- What happens to a monitor: an event of the queue is processed, or a retry fires.
pub data Action : Type 0 where
  arrives : Answers → Event → Action
  retries : ℕ → Answers → Action

module _ (lib : Library) where
  unfoldable pub perform : Action → Monitor → Monitor
  perform (arrives a e) m = (process_event_from_queue lib a e 0 m).0
  perform (retries k a) m = fire lib k a m

  unfoldable pub perform_all : List Action → Monitor → Monitor
  perform_all [] m = m
  perform_all (act ∷ acts) m = perform_all acts (perform act m)

  -- How often the message with the hash was analysed for an event that was not recovered.
  abbrev pub count_analyzed : ℕ → List Event → ℕ
  count_analyzed h = count_by (λ e. not e.recovered && lib.hash e == h)

  module _ (h : ℕ) where
    Inv : List Event → List ℕ → Type 0
    Inv seen stored = count_analyzed h seen ≤ (if elem h stored then 1 else 0)

    Holds : Monitor → Type 0
    Holds m = Inv m.analyzed m.messages

    store_message-cases :
        (a : Answers) (e : Event) (m : Monitor)
        → let p = store_message lib a e m in
          (p.0.analyzed ≡ m.analyzed)
          × (((p.1 ≡ false) × (p.0.messages ≡ m.messages))
              ⊎ ((p.1 ≡ true)
                  × (elem (lib.hash e) m.messages ≡ false)
                  × (p.0.messages ≡ lib.hash e ∷ m.messages)))
    unfolding store_message try_insert_message insert_message
    store_message-cases a e m = ground arith

    end_analysis-keeps :
        (r : Analysis) (e : Event) (m : Monitor)
        → let g = (end_analysis lib r e m).0 in
          (g.analyzed ≡ m.analyzed) × (g.messages ≡ m.messages)
    unfolding end_analysis
    end_analysis-keeps silent e m = (refl, refl)
    end_analysis-keeps alerted e m = (refl, refl)
    end_analysis-keeps (failed x) e m = (refl, refl)
    end_analysis-keeps stopped e m = (refl, refl)

    analyze_and_alert-logs :
        (a : Answers) (e : Event) (m : Monitor)
        → let g = (analyze_and_alert lib a e m).0 in
          (g.analyzed ≡ e ∷ m.analyzed) × (g.messages ≡ m.messages)
    unfolding analyze_and_alert
    analyze_and_alert-logs a e m =
        end_analysis-keeps a.analysis e (record m { analyzed = e ∷ m.analyzed })

    Inv-first :
        (e : Event) (seen : List Event) (stored : List ℕ)
        → elem (lib.hash e) stored ≡ false
        → Inv seen stored
        → Inv (e ∷ seen) (lib.hash e ∷ stored)
    unfolding Inv
    Inv-first e seen stored new inv = elim (Bool-cases (lib.hash e == h)) [
      | inl same ↦
          (let eq : lib.hash e ≡ h = ground arith in
            let absent : elem h stored ≡ false = rw (← eq) new in ground arith)
      | inr other ↦ ground arith
    ]

    Inv-recovered :
        (e : Event) (seen : List Event) (stored : List ℕ)
        → e.recovered ≡ true
        → Inv seen stored
        → Inv (e ∷ seen) stored
    unfolding Inv
    Inv-recovered e seen stored r inv = ground arith

    process_stored-Holds :
        (a : Answers) (e : Event) (m g : Monitor) (new : Bool)
        → g.analyzed ≡ m.analyzed
        → ((new ≡ false) × (g.messages ≡ m.messages))
          ⊎ ((new ≡ true)
              × (elem (lib.hash e) m.messages ≡ false)
              × (g.messages ≡ lib.hash e ∷ m.messages))
        → Holds m
        → Holds (process_stored lib a e (g, new)).0
    unfolding process_stored Holds
    process_stored-Holds a e m g true s (inl (absurd_case, k)) inv = absurd (ground arith)
    process_stored-Holds a e m g true s (inr (t, new, k)) inv =
        let logs = analyze_and_alert-logs a e g in
        rw (logs.0, logs.1, s, k) (Inv-first e m.analyzed m.messages new inv)
    process_stored-Holds a e m g false s (inr (t, k, l)) inv = absurd (ground arith)
    process_stored-Holds a e m g false s (inl (t, k)) inv =
        let same : Inv g.analyzed g.messages = rw (s, k) inv in
        let logs = analyze_and_alert-logs a e g in
        if-by {A = Monitor × Outcome} (λ p. Holds p.0) e.recovered _ _
          (λ again.
            if-by {A = Monitor × Outcome} (λ p. Holds p.0) (elem (lib.hash e) g.alerts) _ _
              (λ known. same)
              (λ lost. rw (logs.0, logs.1) (Inv-recovered e g.analyzed g.messages again same)))
          (λ fresh. same)

    process_valid-Holds :
        (a : Answers) (e : Event) (o : Option Drop) (m : Monitor)
        → Holds m
        → Holds (process_valid lib a e o m).0
    unfolding process_valid Holds
    process_valid-Holds a e (some why) m inv = inv
    process_valid-Holds a e none m inv =
        let stored = store_message-cases a e m in
        let p = store_message lib a e m in process_stored-Holds a e m p.0 p.1 stored.0 stored.1 inv

    process_event_pipeline-Holds :
        (a : Answers) (e : Event) (m : Monitor)
        → Holds m
        → Holds (process_event_pipeline lib a e m).0
    unfolding process_event_pipeline
    process_event_pipeline-Holds a e m inv =
        if-by {A = Monitor × Outcome} (λ p. Holds p.0) (not a.fresh) _ _ (λ stale. inv)
          (λ fresh. process_valid-Holds a e (validate_event a e) m inv)

    settle-Holds :
        (a : Answers) (e : Event) (n : ℕ) (m : Monitor) (o : Outcome)
        → Holds m
        → Holds (settle lib a e n (m, o)).0
    unfolding settle Holds
    settle-Holds a e n m returns inv = inv
    settle-Holds a e n m (raises x) inv = inv
    settle-Holds a e n m is_cancelled inv = inv

    process_event_from_queue-Holds :
        (a : Answers) (e : Event) (n : ℕ) (m : Monitor)
        → Holds m
        → Holds (process_event_from_queue lib a e n m).0
    unfolding process_event_from_queue
    process_event_from_queue-Holds a e n m inv =
        let p = process_event_pipeline lib a e m in
        settle-Holds a e n p.0 p.1 (process_event_pipeline-Holds a e m inv)

    retry_send_alert-Holds :
        (a : Answers) (e : Event) (m : Monitor) → Holds m → Holds (retry_send_alert lib a e m).0
    unfolding retry_send_alert Holds
    retry_send_alert-Holds a e m inv =
        if-by {A = Monitor × Outcome} (λ p. Holds p.0) (elem (lib.hash e) m.alerts) _ _
          (λ known. inv) (λ lost. let k = end_analysis-keeps a.analysis e m in rw (k.0, k.1) inv)

    run_retry-Holds : (a : Answers) (t : Task) (m : Monitor) → Holds m → Holds (run_retry lib a t m)
    unfolding run_retry dlq_reprocess Holds
    run_retry-Holds a t m inv =
        if-by (λ g. Holds g) m.dlq.has_reprocess _ _
          (λ ready.
            if-by {A = Monitor × Outcome} (λ p. Holds p.0) t.event.resend _ _
              (λ alert. retry_send_alert-Holds a t.event m inv)
              (λ event. process_event_from_queue-Holds a t.event t.retry_count m inv))
          (λ missing. inv)

    perform-Holds : (act : Action) (m : Monitor) → Holds m → Holds (perform act m)
    unfolding perform fire_task Holds
    perform-Holds (arrives a e) m inv = process_event_from_queue-Holds a e 0 m inv
    perform-Holds (retries k a) m inv = elim (Option-cases (get_elem? m.dlq.retry_tasks k)) [
      | inl e ↦ simp e inv
      | inr (t, e) ↦ simp e (run_retry-Holds a t (record m { dlq = start_retry k t m.dlq }) inv)
    ]

    perform_all-Holds : (acts : List Action) (m : Monitor) → Holds m → Holds (perform_all acts m)
    unfolding perform_all
    perform_all-Holds [] m inv = inv
    perform_all-Holds (act ∷ acts) m inv =
        perform_all-Holds acts (perform act m) (perform-Holds act m inv)

-- However events and retries follow each other, and whatever the other parts answer, a message is analysed at most
-- once for events that are not recovered ones, even when the caches forget it.
pub perform_all-once :
    (lib : Library) (h : ℕ) (acts : List Action) (m : Monitor)
    → m.analyzed ≡ []
    → count_analyzed lib h (perform_all lib acts m).analyzed ≤ 1
unfolding Holds Inv
perform_all-once lib h acts m e =
    let start : Holds lib h m = rw e (omega arith) in
    ground (arith, perform_all-Holds lib h acts m start)
