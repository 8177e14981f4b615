-- ===== src/Queue/Mirror.antt =====
-- The size of the queue: bounded by the capacity on SQLite, and misjudged on PostgreSQL.
use telegram_br.Base.{
  ℕ, ◌+◌, ◌-◌, ◌%◌, ◌≤◌, ◌<◌, max, ◌≡◌, refl, inl, inr, Bool, true, false, [], ◌∷◌, arith, leb,
  ◌==◌, if◌then◌else◌, Bool-cases, Time, length, length-append, leb_iff,
}
use telegram_br.Queue.{
  Queue, Settings, Event, postgresql, reconcile, evict, evicted_before, new_row, add_to_queue,
  queue_size,
}
use telegram_br.Queue.Ids.{length-delete_first}
use telegram_br.Queue.Invariant.{IsValid, reconcile-IsValid}

module _ (st : Settings) (event : Event) (priority : ℕ) (now : Time) (q : Queue) where
  reconcile-rows : (ok : Bool) → (reconcile st ok q).rows ≡ q.rows
  unfolding reconcile
  reconcile-rows ok = ground arith

  reconcile-clean : (ok : Bool) → q.dirty ≡ false → (reconcile st ok q).dirty ≡ false
  unfolding reconcile
  reconcile-clean ok h = ground arith

  reconcile-idle :
      (ok : Bool)
      → q.dirty ≡ false
      → ((q.inserts % max 1 st.reconcile_every) == 0) ≡ false
      → reconcile st ok q ≡ q
  unfolding reconcile
  reconcile-idle ok clean due = rw (clean, due) refl

  -- What an eviction leaves of the rows.
  length-evict :
      (r : Queue)
      → IsValid r
      → length (evict st r).rows
        ≡ (if leb st.capacity r.mirror then length r.rows - 1 else length r.rows)
  unfolding evict
  length-evict r v = elim (Bool-cases (leb st.capacity r.mirror)) [
    | inl e ↦ rw e (length-delete_first (evicted_before st.tie) r.rows v.unique)
    | inr e ↦ rw e refl
  ]

  -- The queue never outgrows its capacity: an insertion into a valid queue with a clean mirror
  -- evicts a row when it is full.
  pub length-add_to_queue-le :
      (ok : Bool)
      → 0 < st.capacity
      → IsValid q
      → q.dirty ≡ false
      → length q.rows ≤ st.capacity
      → length (add_to_queue st ok event priority now q).0.rows ≤ st.capacity
  unfolding add_to_queue
  length-add_to_queue-le ok pos v clean h =
      let r = reconcile st ok q in
      let w = reconcile-IsValid st ok q v in
      let e = evict st r in
      let exact : r.mirror ≡ length r.rows = w.synced (reconcile-clean ok clean) in
      ground (
        arith,
        length-append e.rows (new_row st e event priority now ∷ []),
        length-evict r w,
        reconcile-rows ok,
        exact,
      )

  evict-postgresql :
      st.backend ≡ postgresql
      → IsValid q
      → q.dirty ≡ false
      → st.capacity ≤ length q.rows
      → (length (evict st q).rows ≡ length q.rows - 1)
        × ((evict st q).mirror ≡ q.mirror)
        × ((evict st q).dirty ≡ false)
  unfolding evict
  evict-postgresql pg v clean full =
      let is_full : leb st.capacity q.mirror ≡ true =
        rw (v.synced clean) ((leb_iff st.capacity (length q.rows)).1 full) in
      rw is_full (length-delete_first (evicted_before st.tie) q.rows v.unique, simp pg refl, clean)

  -- On PostgreSQL an eviction is not taken off the mirror: an insertion into a full queue with an
  -- exact mirror, when no recount is due, leaves the mirror one above the number of rows.
  pub add_to_queue-postgresql :
      (ok : Bool)
      → st.backend ≡ postgresql
      → IsValid q
      → q.dirty ≡ false
      → ((q.inserts % max 1 st.reconcile_every) == 0) ≡ false
      → 0 < length q.rows
      → st.capacity ≤ length q.rows
      → let q' = (add_to_queue st ok event priority now q).0 in
        (length q'.rows ≡ length q.rows) × (queue_size q' ≡ length q'.rows + 1)
  unfolding add_to_queue queue_size
  add_to_queue-postgresql ok pg v clean due some_rows full =
      let r = reconcile-idle ok clean due in
      let (l, m, k) = evict-postgresql pg v clean full in
      let a = length-append (evict st q).rows (new_row st (evict st q) event priority now ∷ []) in
      rw r (omega (arith, a), rw (k, a, m, l) (omega (arith, v.synced clean)))
