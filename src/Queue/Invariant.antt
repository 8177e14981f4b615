-- ===== src/Queue/Invariant.antt =====
-- The invariant of the queue: ids are distinct and below the next one, and the mirror of the size,
-- unless it is marked dirty, is the number of rows. On SQLite every method keeps it.
use telegram_br.Base.{
  ℕ, ◌+◌, ◌-◌, ◌%◌, max, ◌≡◌, refl, sym, ◌∙◌, inl, inr, Bool, true, false, ◌&&◌, ◌||◌, List, [],
  ◌∷◌, arith, ltb, leb, ◌==◌, if◌then◌else◌, Bool-cases, Option-cases, Time, seconds, length, keep,
  any, length-append,
}
use mathlib.Core.Path.{subst}
use telegram_br.Queue.{
  Backend, unrolled, Row, Queue, Settings, Event, AddFailure, unhealthy, delete_fails, insert_fails,
  add_to_queue_failed, sqlite, has_id, delete_where, first_by, delete_first, reconcile, evict,
  evicted_before, new_row, add_to_queue, served_before, waits, claim_first, claim_update,
  pop_from_queue, ack_queue_event, purge_queue, purge_stale_queue_rows,
}
use telegram_br.Queue.Ids.{
  ids, Unique, IsBelow, ids-update_where, Unique-keep, IsBelow-keep, IsBelow-append, Unique-append,
  length-delete_where, length-update_where, any-delete_where, length-delete_first,
}

pub record IsValid (q : Queue) : Type 0 where
  pub unique : Unique (ids q.rows)
  pub below : IsBelow q.next_id (ids q.rows)
  pub synced : q.dirty ≡ false → q.mirror ≡ length q.rows

-- A recount leaves the queue valid, and a mirror that is not dirty stays exact.
pub reconcile-IsValid :
    (st : Settings) (ok : Bool) (q : Queue) → IsValid q → IsValid (reconcile st ok q)
unfolding reconcile
reconcile-IsValid st ok q v =
    elim (Bool-cases ((q.dirty || q.inserts % max 1 st.reconcile_every == 0) && ok)) [
      | inl e ↦ rw e (record { unique = v.unique; below = v.below; synced = λ _. refl })
      | inr e ↦ rw e v
    ]

module _ (st : Settings) (on_sqlite : st.backend ≡ sqlite) where
  delete_first-Unique :
      (before : Row → Row → Bool) (rs : List Row) (n : ℕ)
      → Unique (ids rs)
      → IsBelow n (ids rs)
      → Unique (ids (delete_first (first_by before rs) rs))
        × IsBelow n (ids (delete_first (first_by before rs) rs))
  unfolding delete_first
  delete_first-Unique before rs n u b = elim (Option-cases (first_by before rs)) [
    | inl e ↦ rw e (u, b)
    | inr (r, e) ↦ rw e (Unique-keep _ rs u, IsBelow-keep n _ rs b)
  ]

  evict-IsValid : (q : Queue) → IsValid q → IsValid (evict st q)
  unfolding evict
  evict-IsValid q v = elim (Bool-cases (leb st.capacity q.mirror)) [
    | inl e ↦
        let before = evicted_before st.tie in
        let kept = delete_first-Unique before q.rows q.next_id v.unique v.below in
        let l = length-delete_first before q.rows v.unique in
        rw e (record {
          unique = kept.0;
          below = kept.1;
          synced = λ clean. simp on_sqlite (rw (v.synced clean) (sym l));
        })
    | inr e ↦ rw e v
  ]

  -- On SQLite an insertion keeps the queue valid, whether or not it evicts a row and recounts.
  pub add_to_queue-IsValid :
      (ok : Bool) (event : Event) (priority : ℕ) (now : Time) (q : Queue)
      → IsValid q
      → IsValid (add_to_queue st ok event priority now q).0
  unfolding add_to_queue
  add_to_queue-IsValid ok event priority now q v =
      let e = evict st (reconcile st ok q) in
      let w = evict-IsValid (reconcile st ok q) (reconcile-IsValid st ok q v) in
      record {
        unique =
            Unique-append e.next_id (new_row st e event priority now) e.rows w.unique w.below refl;
        below = IsBelow-append e.next_id (new_row st e event priority now) e.rows w.below refl;
        synced = λ clean.
            rw (length-append e.rows (new_row st e event priority now ∷ []))
              (omega (arith, w.synced clean));
      }

  -- A failed insertion leaves the queue valid, with its size in memory marked as dirty.
  pub add_to_queue_failed-IsValid :
      (ok : Bool) (why : AddFailure) (q : Queue)
      → IsValid q
      → IsValid (add_to_queue_failed st ok why q)
  unfolding add_to_queue_failed
  add_to_queue_failed-IsValid ok unhealthy q v = v
  add_to_queue_failed-IsValid ok delete_fails q v =
      let w = reconcile-IsValid st ok q v in
      record { unique = w.unique; below = w.below; synced = λ clean. cc }
  add_to_queue_failed-IsValid ok insert_fails q v =
      let before = reconcile st ok q in
      let w = evict-IsValid before (reconcile-IsValid st ok q v) in
      let kept : IsValid (record (evict st before) { dirty = true }) = record {
        unique = w.unique;
        below = w.below;
        synced = λ clean. cc;
      } in
      subst
        (λ (b : Backend). IsValid (record (unrolled b before (evict st before)) { dirty = true }))
        (sym on_sqlite) kept

-- Handing out an event changes no id and no count.
pub pop_from_queue-IsValid :
    (st : Settings) (now : Time) (q : Queue) → IsValid q → IsValid (pop_from_queue st now q).0
unfolding pop_from_queue claim_first
pop_from_queue-IsValid st now q v =
    elim (Option-cases (first_by (served_before st.tie) (keep waits q.rows))) [
      | inl e ↦ rw e v
      | inr (r, e) ↦
          let same = ids-update_where (has_id r.id) (claim_update now) (λ _. refl) q.rows in
          rw e (record {
            unique = rw same v.unique;
            below = rw same v.below;
            synced = λ clean.
                v.synced clean ∙ sym (length-update_where (has_id r.id) (claim_update now) q.rows);
          })
    ]

-- An acknowledgement removes the event's one row, or finds none and changes nothing; either way the
-- queue stays valid, and a second acknowledgement finds nothing.
pub ack_queue_event-IsValid :
    (i : ℕ) (q : Queue)
    → IsValid q
    → let (q', found) = ack_queue_event i q in
      IsValid q'
      × (length q'.rows + (if found then 1 else 0) ≡ length q.rows)
      × (any (has_id i) q'.rows ≡ false)
unfolding ack_queue_event
ack_queue_event-IsValid i q v = elim (Bool-cases (any (has_id i) q.rows)) [
  | inl e ↦
      let l = length-delete_where i q.rows v.unique e in
      rw e (
        record {
          unique = Unique-keep _ q.rows v.unique;
          below = IsBelow-keep q.next_id _ q.rows v.below;
          synced = λ clean. omega (arith, v.synced clean, l);
        },
        l,
        any-delete_where i q.rows,
      )
  | inr e ↦ rw e (v, omega arith, e)
]

pub purge_queue-IsValid : (q : Queue) → IsValid (purge_queue q).0
unfolding purge_queue
purge_queue-IsValid q = record { unique = tt; below = tt; synced = λ _. refl }

-- The purge of old rows keeps the queue valid.
pub purge_stale_queue_rows-IsValid :
    (age : ℕ) (now : Time) (q : Queue) → IsValid q → IsValid (purge_stale_queue_rows age now q).0
unfolding purge_stale_queue_rows
purge_stale_queue_rows-IsValid age now q v =
    let old = λ (r : Row). ltb r.created_at (now - seconds (max 60 age)) in
    elim (Bool-cases (length q.rows - length (delete_where old q.rows) == 0)) [
      | inl e ↦ rw e v
      | inr e ↦ rw e (record {
        unique = Unique-keep _ q.rows v.unique;
        below = IsBelow-keep q.next_id _ q.rows v.below;
        synced = λ clean. cc;
      })
    ]
