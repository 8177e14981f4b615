-- ===== src/Pipeline/Failing.antt =====
-- A recovered event whose analysis (monitors.py) fails every time.
use telegram_br.Base.{
  ℕ, zero, suc, ◌+◌, ◌-◌, ◌<◌, ◌≡◌, refl, ap, ◌∙◌, Bool, true, false, none, List, [], ◌∷◌, ◌++◌,
  arith, leb, elem, ==_refl,
}
use mathlib.Core.Path.{subst}
use telegram_br.DeadLetters.{
  Outcome, raises, Event, Error, Task, DeadLetter, Dlq, returns, add_dead_letter,
  persist_dead_letter, event_key, delay_of, schedule, push, start_retry, end_retry,
}
use telegram_br.Pipeline.{
  failed, Answers, Monitor, Library, validate_event, insert_message, try_insert_message,
  store_message, end_analysis, analyze_and_alert, process_stored, process_valid,
  process_event_pipeline, settle, process_event_from_queue, dlq_reprocess, run_retry, fire_task,
  fire,
}

module _ (lib : Library) (a : Answers) (e : Event) (x : Error) where
  -- The checks let the event through, the analysis raises each time, and the database takes dead
  -- letters. The event is a recovered one, which is analysed again although its message is stored.
  abbrev pub AlwaysFails : Type 0
  AlwaysFails =
      (a.fresh ≡ true)
      × (validate_event a e ≡ none)
      × (a.analysis ≡ failed x)
      × (a.letter_works ≡ true)
      × (e.recovered ≡ true)
      × (e.resend ≡ false)

  -- No alert of the event has a receipt.
  abbrev pub HasNoReceipt : Monitor → Type 0
  HasNoReceipt m = elem (lib.hash e) m.alerts ≡ false

  store_message-kept :
      (m : Monitor) → let g = (store_message lib a e m).0 in (g.alerts ≡ m.alerts) × (g.dlq ≡ m.dlq)
  unfolding store_message try_insert_message insert_message
  store_message-kept m = ground arith

  process_stored-failing :
      (g : Monitor) (b : Bool)
      → AlwaysFails
      → HasNoReceipt g
      → process_stored lib a e (g, b) ≡ (record g { analyzed = e ∷ g.analyzed }, raises x)
  unfolding process_stored analyze_and_alert end_analysis
  process_stored-failing g true (f, v, r, l, k, s) h = simp r refl
  process_stored-failing g false (f, v, r, l, k, s) h = simp (r, k, h) refl

  process-failing :
      (n : ℕ) (m : Monitor)
      → AlwaysFails
      → HasNoReceipt m
      → let p = process_event_from_queue lib a e n m in
        (p.0.dlq ≡ push true e x n m.dlq) × (p.1 ≡ returns) × (p.0.alerts ≡ m.alerts)
  unfolding process_event_from_queue settle process_event_pipeline process_valid
  process-failing n m (f, v, r, l, k, s) h =
      let p = store_message lib a e m in
      let kept = store_message-kept m in
      let none_yet : HasNoReceipt p.0 = ap (elem (lib.hash e)) kept.0 ∙ h in
      simp (f, v, process_stored-failing p.0 p.1 (f, v, r, l, k, s) none_yet, l)
        (ap (push true e x n) kept.1, refl, kept.0)

  dlq_reprocess-failing :
      (n : ℕ) (m : Monitor)
      → e.resend ≡ false
      → dlq_reprocess lib a e n m ≡ process_event_from_queue lib a e n m
  unfolding dlq_reprocess
  dlq_reprocess-failing n m s = rw s refl

  -- What follows the reprocessing of a task.
  abbrev finished : Task → Monitor × Outcome → Monitor
  finished t p = record p.0 { dlq = end_retry a.letter_works t p.1 p.0.dlq }

  run_retry-ready :
      (t : Task) (m : Monitor)
      → m.dlq.has_reprocess ≡ true
      → run_retry lib a t m ≡ finished t (dlq_reprocess lib a t.event t.retry_count m)
  unfolding run_retry
  run_retry-ready t m ready = rw ready refl

  run_retry-failing :
      (t : Task) (m : Monitor)
      → AlwaysFails
      → HasNoReceipt m
      → t.event ≡ e
      → m.dlq.has_reprocess ≡ true
      → ((run_retry lib a t m).dlq ≡ end_retry true t returns (push true e x t.retry_count m.dlq))
        × ((run_retry lib a t m).alerts ≡ m.alerts)
  run_retry-failing t m fails h same ready =
      let p = process_event_from_queue lib a e t.retry_count m in
      let (d, ends, kept) = process-failing t.retry_count m fails h in
      let (f, v, r, works, k, s) = fails in
      let ran =
        run_retry-ready t m ready
        ∙ ap (λ ev. finished t (dlq_reprocess lib a ev t.retry_count m)) same
        ∙ ap (finished t) (dlq_reprocess-failing t.retry_count m s) in
      let closed : end_retry a.letter_works t p.1 p.0.dlq
          ≡ end_retry true t returns (push true e x t.retry_count m.dlq) =
        ap (λ b. end_retry b t p.1 p.0.dlq) works
        ∙ ap (λ o. end_retry true t o p.0.dlq) ends
        ∙ ap (end_retry true t returns) d in
      (ap (λ g. g.dlq) ran ∙ closed, ap (λ g. g.alerts) ran ∙ kept)

  -- The event waits for the retry with the number, alone.
  pub record Waits (n rc : ℕ) (letters : List DeadLetter) (d : Dlq) : Type 0 where
    pub task : (t : Task) × (d.retry_tasks ≡ t ∷ []) × (t.event ≡ e) × (t.retry_count ≡ rc)
    pub keys : d.scheduled_keys ≡ event_key e ∷ []
    pub running : d.stopping ≡ false
    pub ready : d.has_reprocess ≡ true
    pub retries : d.max_retries ≡ n
    pub letters_same : d.dead_letters ≡ letters

  push-early :
      (works : Bool) (rc : ℕ) (d : Dlq)
      → leb d.max_retries rc ≡ false
      → d.scheduled_keys ≡ []
      → d.stopping ≡ false
      → push works e x rc d ≡ schedule e x rc d
  unfolding push
  push-early works rc d early k s = simp (s, early, k) refl

  pub push-Waits :
      (works : Bool) (n rc : ℕ) (letters : List DeadLetter) (d : Dlq)
      → rc < n
      → d.retry_tasks ≡ []
      → d.scheduled_keys ≡ []
      → d.stopping ≡ false
      → d.has_reprocess ≡ true
      → d.max_retries ≡ n
      → d.dead_letters ≡ letters
      → Waits n (rc + 1) letters (push works e x rc d)
  unfolding schedule
  push-Waits works n rc letters d h t k s r m l =
      rw (push-early works rc d (ground arith) k s) (record {
        task = (
          record { event = e; retry_count = rc + 1; delay = delay_of x rc },
          rw t refl,
          refl,
          refl,
        );
        keys = rw k refl;
        running = s;
        ready = r;
        retries = m;
        letters_same = l;
      })

  end_retry-Waits :
      (n rc : ℕ) (letters : List DeadLetter) (t : Task) (d : Dlq)
      → Waits n rc letters d
      → Waits n rc letters (end_retry true t returns d)
  unfolding end_retry
  end_retry-Waits n rc letters t d w = record {
    task = w.task;
    keys = w.keys;
    running = w.running;
    ready = w.ready;
    retries = w.retries;
    letters_same = w.letters_same;
  }

  -- What is left of a waiting event after its task has started.
  pub record Started (n : ℕ) (letters : List DeadLetter) (d : Dlq) : Type 0 where
    pub tasks : d.retry_tasks ≡ []
    pub keys : d.scheduled_keys ≡ []
    pub running : d.stopping ≡ false
    pub ready : d.has_reprocess ≡ true
    pub retries : d.max_retries ≡ n
    pub letters_same : d.dead_letters ≡ letters

  pub start_retry-Started :
      (n rc : ℕ) (letters : List DeadLetter) (t : Task) (d : Dlq)
      → d.retry_tasks ≡ t ∷ []
      → t.event ≡ e
      → Waits n rc letters d
      → Started n letters (start_retry 0 t d)
  unfolding start_retry
  start_retry-Started n rc letters t d one same w = record {
    tasks = rw one refl;
    keys = rw (w.keys, same, ==_refl e.chat_id, ==_refl e.message_id) refl;
    running = w.running;
    ready = w.ready;
    retries = w.retries;
    letters_same = w.letters_same;
  }

  fire-dlq :
      (n rc : ℕ) (letters : List DeadLetter) (t : Task) (m : Monitor)
      → AlwaysFails
      → HasNoReceipt m
      → Waits n rc letters m.dlq
      → m.dlq.retry_tasks ≡ t ∷ []
      → t.event ≡ e
      → t.retry_count ≡ rc
      → ((fire lib 0 a m).dlq ≡ end_retry true t returns (push true e x rc (start_retry 0 t m.dlq)))
        × ((fire lib 0 a m).alerts ≡ m.alerts)
  unfolding fire_task
  fire-dlq n rc letters t m fails h w one same count =
      let s = start_retry-Started n rc letters t m.dlq one same w in
      let r = run_retry-failing t (record m { dlq = start_retry 0 t m.dlq }) fails h same s.ready in
      simp one (rw (← count) r)

  fire-Waits :
      (n rc : ℕ) (letters : List DeadLetter) (m : Monitor)
      → AlwaysFails
      → HasNoReceipt m
      → rc < n
      → Waits n rc letters m.dlq
      → Waits n (rc + 1) letters (fire lib 0 a m).dlq × HasNoReceipt (fire lib 0 a m)
  fire-Waits n rc letters m fails clear h w =
      let (t, one, same, count) = w.task in
      let s = start_retry-Started n rc letters t m.dlq one same w in
      let d = start_retry 0 t m.dlq in
      let fired = fire-dlq n rc letters t m fails clear w one same count in
      (
        rw fired.0 (
            end_retry-Waits n (rc + 1) letters t (push true e x rc d) (
              push-Waits true n rc letters d h s.tasks s.keys s.running s.ready s.retries
                s.letters_same)),
        ap (elem (lib.hash e)) fired.1 ∙ clear,
      )

  -- The event is dead, and waits for nothing.
  abbrev pub IsDead : ℕ → List DeadLetter → Dlq → Type 0
  IsDead n letters d =
      (d.retry_tasks ≡ [])
      × (d.scheduled_keys ≡ [])
      × (d.dead_letters ≡ letters ++ record { event_data = e; retry_count = n } ∷ [])

  push-IsDead :
      (n : ℕ) (letters : List DeadLetter) (t : Task) (d : Dlq)
      → Started n letters d
      → IsDead n letters (end_retry true t returns (push true e x n d))
  unfolding push persist_dead_letter add_dead_letter end_retry
  push-IsDead n letters t d s =
      let late : leb d.max_retries n ≡ true = ground (arith, s.retries) in
      simp (s.running, late) (s.tasks, s.keys, rw s.letters_same refl)

  fire-IsDead :
      (n : ℕ) (letters : List DeadLetter) (m : Monitor)
      → AlwaysFails
      → HasNoReceipt m
      → Waits n n letters m.dlq
      → IsDead n letters (fire lib 0 a m).dlq
  fire-IsDead n letters m fails clear w =
      let (t, one, same, count) = w.task in
      rw ((fire-dlq n n letters t m fails clear w one same count).0) (
        push-IsDead n letters t (start_retry 0 t m.dlq)
          (start_retry-Started n n letters t m.dlq one same w))

  -- The waiting task fires again and again.
  unfoldable pub fire_times : ℕ → Monitor → Monitor
  fire_times zero m = m
  fire_times (suc k) m = fire_times k (fire lib 0 a m)

  fire_times-IsDead :
      (left n rc : ℕ) (letters : List DeadLetter) (m : Monitor)
      → AlwaysFails
      → HasNoReceipt m
      → n ≡ rc + left
      → Waits n rc letters m.dlq
      → IsDead n letters (fire_times (suc left) m).dlq
  unfolding fire_times
  fire_times-IsDead zero n rc letters m fails clear h w =
      let last : rc ≡ n = omega arith in
      fire-IsDead n letters m fails clear (subst (λ k. Waits n k letters m.dlq) last w)
  fire_times-IsDead (suc left) n rc letters m fails clear h w =
      let (waiting, still) = fire-Waits n rc letters m fails clear (omega arith) w in
      fire_times-IsDead left n (rc + 1) letters (fire lib 0 a m) fails still (omega arith) waiting

-- A recovered event that passes the checks and whose analysis raises every time is tried again
-- exactly as often as the retries allow, and then is a dead letter. No alert of it has a receipt,
-- at least one retry is allowed, the reprocessing is set up, the dead letter queue is not stopping
-- and had been idle, and the database takes the letter.
pub fire_times-dies :
    (lib : Library) (a : Answers) (e : Event) (x : Error) (n : ℕ) (m : Monitor)
    → AlwaysFails lib a e x
    → HasNoReceipt lib a e x m
    → 0 < n
    → m.dlq.max_retries ≡ n
    → m.dlq.has_reprocess ≡ true
    → m.dlq.stopping ≡ false
    → m.dlq.retry_tasks ≡ []
    → m.dlq.scheduled_keys ≡ []
    → let g = (process_event_from_queue lib a e 0 m).0 in
      IsDead lib a e x n m.dlq.dead_letters (fire_times lib a e x n g).dlq
fire_times-dies lib a e x n m fails clear pos limit ready running idle free =
    let g = (process_event_from_queue lib a e 0 m).0 in
    let pushed = process-failing lib a e x 0 m fails clear in
    let still : HasNoReceipt lib a e x g = ap (elem (lib.hash e)) pushed.2 ∙ clear in
    let w : Waits lib a e x n 1 m.dlq.dead_letters g.dlq = rw pushed.0 (
      push-Waits lib a e x true n 0 m.dlq.dead_letters m.dlq pos idle free running ready limit
        refl) in
    let more =
      fire_times-IsDead lib a e x (n - 1) n 1 m.dlq.dead_letters g fails still (omega arith) w in
    let same : suc (n - 1) ≡ n = omega arith in
    subst (λ k. IsDead lib a e x n m.dlq.dead_letters (fire_times lib a e x k g).dlq) same more
