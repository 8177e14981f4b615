-- ===== src/Queue/Poison.antt =====
-- An event whose worker dies at every delivery, alone in the queue.
use telegram_br.Base.{
  ℕ, ◌+◌, ◌-◌, ◌*◌, ◌≤◌, ◌<◌, max, ◌≡◌, refl, ap, ◌∙◌, true, false, Option, none, List, [], ◌∷◌,
  arith, ltb, leb, Time, seconds, length, keep, All, ==_refl,
}
use native.Mathlib.Decide.{dec_le}
use telegram_br.Queue.{
  DeadLetter, Row, Queue, Settings, Event, first_by, pick_first, waits, served_before, claim_first,
  claim_update, pop_from_queue, requeue_update, recover_row, recover_rows, recover_stale_inflight,
  is_stale, Recovered,
}

-- A delivery at a time, and the recovery that runs at a later one.
pub record Crash : Type 0 where
  pub delivered_at : Time
  pub recovered_at : Time

module _ (st : Settings) (age : ℕ) where
  -- The recovery runs late enough to find the claim stale.
  abbrev pub IsLate : Crash → Type 0
  IsLate k = k.delivered_at + seconds (max 5 age) < k.recovered_at

  -- The worker takes the event and dies, and the recovery runs.
  pub crash : Crash → Queue → Queue
  crash k q =
      (recover_stale_inflight st age k.recovered_at (pop_from_queue st k.delivered_at q).0).0

  pub crashes : List Crash → Queue → Queue
  crashes [] q = q
  crashes (k ∷ ks) q = crashes ks (crash k q)

abbrev pub single : Queue → Row → Queue
single q r = record q { rows = r ∷ [] }

module _ (st : Settings) (age : ℕ) where
  pop_single :
      (now : Time) (r : Row) (q : Queue)
      → waits r ≡ true
      → (pop_from_queue st now (single q r)).0 ≡ single q (claim_update now r)
  unfolding pop_from_queue claim_first first_by pick_first
  pop_single now r q w = simp w (rw (==_refl r.id) refl)

  recover_single :
      (k : Crash) (r : Row) (q : Queue)
      → IsLate st age k
      → recover_stale_inflight st age k.recovered_at (single q (claim_update k.delivered_at r))
        ≡ recover_row st
            (claim_update k.delivered_at r)
            (single q (claim_update k.delivered_at r), record { recovered = 0; dead_count = 0 })
  unfolding recover_stale_inflight recover_rows
  recover_single k r q late =
      let stale : ltb k.delivered_at (k.recovered_at - seconds (max 5 age)) ≡ true = ground arith in
      rw stale refl

  recover-young :
      (now : Time) (r : Row) (q : Queue) (n : Recovered)
      → r.attempts + 1 < max 1 st.max_attempts
      → (recover_row st (claim_update now r) (single q (claim_update now r), n)).0
        ≡ single q (requeue_update st.json r.event_data (claim_update now r))
  unfolding recover_row
  recover-young now r q n young =
      let test : leb (max 1 st.max_attempts) (r.attempts + 1) ≡ false = ground arith in
      rw (test, ==_refl r.id, ==_refl (r.attempts + 1)) refl

  recover-old :
      (now : Time) (r : Row) (q : Queue) (n : Recovered)
      → max 1 st.max_attempts ≤ r.attempts + 1
      → let q' = (recover_row st (claim_update now r) (single q (claim_update now r), n)).0 in
        (q'.rows ≡ [])
        × (q'.dead ≡ record { event_data = r.event_data; retry_count = r.attempts + 1 } ∷ q.dead)
  unfolding recover_row
  recover-old now r q n old = ground (arith, ==_refl r.id, ==_refl (r.attempts + 1))

  crash-recovers :
      (k : Crash) (r : Row) (q : Queue)
      → IsLate st age k
      → waits r ≡ true
      → crash st age k (single q r)
        ≡ (recover_row st
            (claim_update k.delivered_at r)
            (single q (claim_update k.delivered_at r), record { recovered = 0; dead_count = 0 })).0
  unfolding crash
  crash-recovers k r q late w =
      ap (λ q'. (recover_stale_inflight st age k.recovered_at q').0)
        (pop_single k.delivered_at r q w)
      ∙ ap (λ s. s.0) (recover_single k r q late)

  -- A delivery before the last one puts the row back, with two attempts more.
  crash-young :
      (k : Crash) (r : Row) (q : Queue)
      → IsLate st age k
      → waits r ≡ true
      → r.attempts + 1 < max 1 st.max_attempts
      → crash st age k (single q r)
        ≡ single q (requeue_update st.json r.event_data (claim_update k.delivered_at r))
  crash-young k r q late w young =
      crash-recovers k r q late w
      ∙ recover-young k.delivered_at r q (record { recovered = 0; dead_count = 0 }) young

  -- The last one makes it a dead letter.
  crash-old :
      (k : Crash) (r : Row) (q : Queue)
      → IsLate st age k
      → waits r ≡ true
      → max 1 st.max_attempts ≤ r.attempts + 1
      → ((crash st age k (single q r)).rows ≡ [])
        × ((crash st age k (single q r)).dead
            ≡ record { event_data = r.event_data; retry_count = r.attempts + 1 } ∷ q.dead)
  crash-old k r q late w old =
      rw (crash-recovers k r q late w)
        (recover-old k.delivered_at r q (record { recovered = 0; dead_count = 0 }) old)

  -- In an empty queue nothing happens.
  pop-empty : (now : Time) (q : Queue) → q.rows ≡ [] → pop_from_queue st now q ≡ (q, none)
  unfolding pop_from_queue claim_first first_by
  pop-empty now q e =
      let nothing : first_by (served_before st.tie) (keep waits q.rows) ≡ none = rw e refl in
      rw (nothing, claim_first) refl

  recover-empty :
      (now : Time) (q : Queue) → q.rows ≡ [] → (recover_stale_inflight st age now q).0 ≡ q
  unfolding recover_stale_inflight recover_rows
  recover-empty now q e =
      let nothing : keep (is_stale (now - seconds (max 5 age))) q.rows ≡ [] = rw e refl in
      rw nothing refl

  crash-empty : (k : Crash) (q : Queue) → q.rows ≡ [] → crash st age k q ≡ q
  unfolding crash
  crash-empty k q e =
      ap (λ (s : Queue × Option Event). (recover_stale_inflight st age k.recovered_at s.0).0)
        (pop-empty k.delivered_at q e)
      ∙ recover-empty k.recovered_at q e

  crashes-empty : (ks : List Crash) (q : Queue) → q.rows ≡ [] → crashes st age ks q ≡ q
  unfolding crashes
  crashes-empty [] q e = refl
  crashes-empty (k ∷ ks) q e = rw (crash-empty k q e) (crashes-empty ks q e)

  crashes-cons :
      (k : Crash) (ks : List Crash) (q : Queue)
      → crashes st age (k ∷ ks) q ≡ crashes st age ks (crash st age k q)
  unfolding crashes
  crashes-cons k ks q = refl

  -- A waiting event that is alone in its queue, whose worker dies at every delivery, where each time
  -- the recovery runs late enough to find the claim stale, ends as one dead letter, whose count of
  -- attempts has reached the limit, and leaves the queue. As both the delivery and the recovery count
  -- as an attempt, that takes half as many deliveries as `max_attempts` says: at least one, and so
  -- many that twice their number and the attempts before are together above it.
  pub crashes-dead :
      (ks : List Crash) (r : Row) (q : Queue)
      → All (IsLate st age) ks
      → waits r ≡ true
      → max 1 st.max_attempts < r.attempts + 2 * length ks
      → 0 < length ks
      → ((crashes st age ks (single q r)).rows ≡ [])
        × ((d : DeadLetter) × ((crashes st age ks (single q r)).dead ≡ d ∷ q.dead)
            × (max 1 st.max_attempts ≤ d.retry_count))
  crashes-dead [] r q late w enough some_crash = absurd (omega arith)
  crashes-dead (k ∷ ks) r q late w enough some_crash =
      elim (dec_le (max 1 st.max_attempts) (r.attempts + 1)) [
        | yes old ↦
            let (rows, dead) = crash-old k r q late.0 w old in
            rw (crashes-cons k ks (single q r), crashes-empty ks (crash st age k (single q r)) rows)
              (rows, (_, dead, old))
        | no young ↦
            rw (crashes-cons k ks (single q r), crash-young k r q late.0 w (omega arith))
              (crashes-dead ks (requeue_update st.json r.event_data (claim_update k.delivered_at r))
                q late.1 refl (omega arith) (omega arith))
      ]
