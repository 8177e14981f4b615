-- ===== src/Pipeline/Vain.antt =====
-- An event whose analysis failed after its message was stored.
use telegram_br.Base.{
  ℕ, ◌+◌, ◌<◌, ◌≡◌, refl, ap, ◌∙◌, Bool, true, false, not, Option, none, some, List, [], ◌∷◌, arith,
  if-by, get_elem?, elem, ==_refl,
}
use telegram_br.DeadLetters.{
  DeadLetter, schedule, persist_dead_letter, Event, Error, Task, Dlq, Outcome, returns, raises,
  push, start_retry, end_retry,
}
use telegram_br.Pipeline.{
  failed, Answers, Monitor, Library, validate_event, insert_message, try_insert_message,
  store_message, end_analysis, analyze_and_alert, process_stored, process_valid,
  process_event_pipeline, settle, process_event_from_queue, dlq_reprocess, run_retry, fire_task,
  fire,
}
use telegram_br.Pipeline.Failing.{Waits, Started, push-Waits, start_retry-Started}

module _ (lib : Library) (e : Event) where
  -- The message is neither stored nor remembered.
  abbrev pub IsNew : Monitor → Type 0
  IsNew m =
      (elem (lib.hash e) m.processed_hashes ≡ false)
      × (elem (lib.hash e) m.message_cache ≡ false)
      × (elem (lib.hash e) m.messages ≡ false)

  -- The checks let the event through, the message is stored, and the analysis raises.
  abbrev pub FailsLate : Answers → Error → Type 0
  FailsLate a x =
      (a.fresh ≡ true)
      × (validate_event a e ≡ none)
      × (a.insert_works ≡ true)
      × (a.analysis ≡ failed x)

  store_message-new :
      (a : Answers) (m : Monitor)
      → a.insert_works ≡ true
      → IsNew m
      → let p = store_message lib a e m in
        (p.1 ≡ true)
        × (p.0.messages ≡ lib.hash e ∷ m.messages)
        × (p.0.analyzed ≡ m.analyzed)
        × (p.0.dlq ≡ m.dlq)
  unfolding store_message try_insert_message insert_message
  store_message-new a m w (h, c, d) = ground arith

  store_message-stored :
      (a : Answers) (m : Monitor)
      → elem (lib.hash e) m.messages ≡ true
      → let p = store_message lib a e m in
        (p.1 ≡ false) × (p.0.analyzed ≡ m.analyzed) × (p.0.dlq ≡ m.dlq)
  unfolding store_message try_insert_message insert_message
  store_message-stored a m h = ground arith

  process_stored-new :
      (a : Answers) (x : Error) (m : Monitor) (b : Bool)
      → a.analysis ≡ failed x
      → b ≡ true
      → process_stored lib a e (m, b) ≡ (record m { analyzed = e ∷ m.analyzed }, raises x)
  unfolding process_stored analyze_and_alert end_analysis
  process_stored-new a x m b f h = simp (h, f) refl

  process-late :
      (a : Answers) (x : Error) (m : Monitor)
      → FailsLate a x
      → IsNew m
      → let g = (process_event_from_queue lib a e 0 m).0 in
        (g.messages ≡ lib.hash e ∷ m.messages)
        × (g.analyzed ≡ e ∷ m.analyzed)
        × (g.dlq ≡ push a.letter_works e x 0 m.dlq)
  unfolding process_event_from_queue process_event_pipeline process_valid settle
  process-late a x m (f, v, w, r) new =
      let p = store_message lib a e m in
      let s = store_message-new a m w new in
      simp (f, v, process_stored-new a x p.0 p.1 r s.0) (s.1, rw s.2 refl, rw s.3 refl)

  -- The event is done with, its analysis did not begin, and the retries are as before.
  abbrev Quiet : Monitor → Monitor × Outcome → Type 0
  Quiet m p = (p.0.analyzed ≡ m.analyzed) × (p.0.dlq ≡ m.dlq) × (p.1 ≡ returns)

  process_stored-Quiet :
      (a : Answers) (m g : Monitor) (b : Bool)
      → e.recovered ≡ false
      → b ≡ false
      → (g.analyzed ≡ m.analyzed) × (g.dlq ≡ m.dlq)
      → Quiet m (process_stored lib a e (g, b))
  unfolding process_stored
  process_stored-Quiet a m g b r h (s, d) = simp (h, r) (s, d, refl)

  process_valid-Quiet :
      (a : Answers) (o : Option _) (m : Monitor)
      → e.recovered ≡ false
      → elem (lib.hash e) m.messages ≡ true
      → Quiet m (process_valid lib a e o m)
  unfolding process_valid
  process_valid-Quiet a (some why) m r h = (refl, refl, refl)
  process_valid-Quiet a none m r h =
      let p = store_message lib a e m in
      let s = store_message-stored a m h in process_stored-Quiet a m p.0 p.1 r s.0 (s.1, s.2)

  settle-Quiet :
      (a : Answers) (n : ℕ) (m : Monitor) (p : Monitor × Outcome)
      → Quiet m p
      → Quiet m (settle lib a e n p)
  unfolding settle
  settle-Quiet a n m (g, o) (s, d, r) = simp r (s, d, refl)

  -- The event is taken for a duplicate, or dropped before.
  process-stored :
      (a : Answers) (n : ℕ) (m : Monitor)
      → e.recovered ≡ false
      → elem (lib.hash e) m.messages ≡ true
      → Quiet m (process_event_from_queue lib a e n m)
  unfolding process_event_from_queue process_event_pipeline
  process-stored a n m r h = settle-Quiet a n m (process_event_pipeline lib a e m) (
      if-by (Quiet m) (not a.fresh) _ _ (λ stale. (refl, refl, refl))
        (λ fresh. process_valid-Quiet a (validate_event a e) m r h))

  dlq_reprocess-event :
      (a : Answers) (n : ℕ) (m : Monitor)
      → e.resend ≡ false
      → dlq_reprocess lib a e n m ≡ process_event_from_queue lib a e n m
  unfolding dlq_reprocess
  dlq_reprocess-event a n m k = rw k refl

  run_retry-stored :
      (a : Answers) (t : Task) (m : Monitor)
      → t.event ≡ e
      → e.recovered ≡ false
      → e.resend ≡ false
      → m.dlq.has_reprocess ≡ true
      → elem (lib.hash e) m.messages ≡ true
      → ((run_retry lib a t m).analyzed ≡ m.analyzed)
        × ((run_retry lib a t m).dlq ≡ end_retry a.letter_works t returns m.dlq)
  unfolding run_retry
  run_retry-stored a t m same r k ready h =
      let p = dlq_reprocess lib a t.event t.retry_count m in
      let q : Quiet m p =
        rw (same, dlq_reprocess-event a t.retry_count m k) (process-stored a t.retry_count m r h) in
      simp ready (
        q.0,
        ap (λ o. end_retry a.letter_works t o p.0.dlq) q.2
            ∙ ap (end_retry a.letter_works t returns) q.1,
      )

  fire-one :
      (b : Answers) (g : Monitor) (t : Task)
      → g.dlq.retry_tasks ≡ t ∷ []
      → fire lib 0 b g ≡ run_retry lib b t (record g { dlq = start_retry 0 t g.dlq })
  unfolding fire_task
  fire-one b g t one = ap (λ o. fire_task lib 0 o b g) (ap (λ ts. get_elem? ts 0) one)

  -- What a retry that counts as a success leaves.
  abbrev Settled : List DeadLetter → Monitor → Monitor → Type 0
  Settled letters g g' =
      (g'.analyzed ≡ g.analyzed)
      × (g'.dlq.retry_tasks ≡ [])
      × (g'.dlq.dead_letters ≡ letters)
      × (g'.dlq.stats.retry_succeeded ≡ g.dlq.stats.retry_succeeded + 1)

  end_retry-Settled :
      (a : Answers) (x : Error) (works : Bool) (n : ℕ) (letters : List DeadLetter) (t : Task)
      (g g' : Monitor)
      → Started lib a e x n letters (start_retry 0 t g.dlq)
      → g'.analyzed ≡ g.analyzed
      → g'.dlq ≡ end_retry works t returns (start_retry 0 t g.dlq)
      → Settled letters g g'
  unfolding end_retry start_retry
  end_retry-Settled a x works n letters t g g' s l d = (
    l,
    ap (λ q. q.retry_tasks) d ∙ s.tasks,
    ap (λ q. q.dead_letters) d ∙ s.letters_same,
    ap (λ q. q.stats.retry_succeeded) d,
  )

  fire-stored :
      (a b : Answers) (x : Error) (n : ℕ) (letters : List DeadLetter) (g : Monitor)
      → (e.recovered ≡ false) × (e.resend ≡ false)
      → elem (lib.hash e) g.messages ≡ true
      → Waits lib a e x n 1 letters g.dlq
      → Settled letters g (fire lib 0 b g)
  fire-stored a b x n letters g (r, k) h w = go w.task
    where
      go :
          (t : Task) × (g.dlq.retry_tasks ≡ t ∷ []) × (t.event ≡ e) × (t.retry_count ≡ 1)
          → Settled letters g (fire lib 0 b g)
      go (t, one, same, count) =
          let s = start_retry-Started lib a e x n 1 letters t g.dlq one same w in
          let ran =
            run_retry-stored b t (record g { dlq = start_retry 0 t g.dlq }) same r k s.ready h in
          rw (fire-one b g t one) (
            end_retry-Settled a x b.letter_works n letters t g
              (run_retry lib b t (record g { dlq = start_retry 0 t g.dlq })) s ran.0 ran.1)

  push-succeeded :
      (works : Bool) (x : Error) (d : Dlq)
      → (push works e x 0 d).stats.retry_succeeded ≡ d.stats.retry_succeeded
  unfolding push schedule persist_dead_letter
  push-succeeded works x d = ground arith

-- When the analysis of a new event raises, the retry that is scheduled for it does nothing: the message is
-- stored by then, so the event counts as a duplicate. The retry is reported as a success, no further one is
-- scheduled and no dead letter is written. The event is no recovered one, and the retries had been idle.
pub fire-vain :
    (lib : Library) (e : Event) (a b : Answers) (x : Error) (m : Monitor)
    → FailsLate lib e a x
    → IsNew lib e m
    → (e.recovered ≡ false) × (e.resend ≡ false)
    → (0 < m.dlq.max_retries)
      × (m.dlq.has_reprocess ≡ true)
      × (m.dlq.stopping ≡ false)
      × (m.dlq.retry_tasks ≡ [])
      × (m.dlq.scheduled_keys ≡ [])
    → let g = fire lib 0 b (process_event_from_queue lib a e 0 m).0 in
      (g.analyzed ≡ e ∷ m.analyzed)
      × (g.dlq.retry_tasks ≡ [])
      × (g.dlq.dead_letters ≡ m.dlq.dead_letters)
      × (g.dlq.stats.retry_succeeded ≡ m.dlq.stats.retry_succeeded + 1)
fire-vain lib e a b x m late new kind (pos, ready, running, idle, free) =
    let g = (process_event_from_queue lib a e 0 m).0 in
    let s = process-late lib e a x m late new in
    let w : Waits lib a e x m.dlq.max_retries 1 m.dlq.dead_letters g.dlq = rw s.2 (
      push-Waits lib a e x a.letter_works m.dlq.max_retries 0 m.dlq.dead_letters m.dlq pos idle free
        running ready refl refl) in
    let stored : elem (lib.hash e) g.messages ≡ true = rw (s.0, ==_refl (lib.hash e)) refl in
    let r = fire-stored lib e a b x m.dlq.max_retries m.dlq.dead_letters g kind stored w in
    let count =
      ap (λ d. d.stats.retry_succeeded) s.2 ∙ push-succeeded lib e a.letter_works x m.dlq in
    (r.0 ∙ s.1, r.1, r.2, r.3 ∙ ap (λ k. k + 1) count)
