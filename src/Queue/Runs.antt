-- ===== src/Queue/Runs.antt =====
-- Any sequence of operations on the queue.
use telegram_br.Base.{ℕ, ◌≡◌, Bool, List, [], ◌∷◌, Time}
use telegram_br.Queue.{
  Queue, Settings, Event, AddFailure, add_to_queue_failed, sqlite, add_to_queue, pop_from_queue,
  ack_queue_event, recover_stale_inflight, purge_queue, purge_stale_queue_rows,
}
use telegram_br.Queue.Invariant.{
  IsValid, add_to_queue-IsValid, add_to_queue_failed-IsValid, pop_from_queue-IsValid,
  ack_queue_event-IsValid, purge_queue-IsValid, purge_stale_queue_rows-IsValid,
}
use telegram_br.Queue.Recovery.{recover_stale_inflight-keeps}

pub data Operation : Type 0 where
  add : Bool → Event → ℕ → Time → Operation
  add_fails : Bool → AddFailure → Operation
  pop : Time → Operation
  ack : ℕ → Operation
  recover : ℕ → Time → Operation
  purge : Operation
  purge_stale : ℕ → Time → Operation

unfoldable pub perform : Settings → Operation → Queue → Queue
perform st (add ok event priority now) q = (add_to_queue st ok event priority now q).0
perform st (add_fails ok why) q = add_to_queue_failed st ok why q
perform st (pop now) q = (pop_from_queue st now q).0
perform st (ack i) q = (ack_queue_event i q).0
perform st (recover age now) q = (recover_stale_inflight st age now q).0
perform st purge q = (purge_queue q).0
perform st (purge_stale age now) q = (purge_stale_queue_rows age now q).0

unfoldable pub run : Settings → List Operation → Queue → Queue
run st [] q = q
run st (o ∷ os) q = run st os (perform st o q)

-- On SQLite every sequence of operations of the queue, failed insertions, recoveries and purges included, keeps it valid: the ids of its
-- rows are distinct and below the next one, and its size in memory, unless marked dirty, is the number of rows.
pub run-IsValid :
    (st : Settings) (os : List Operation) (q : Queue)
    → st.backend ≡ sqlite
    → IsValid q
    → IsValid (run st os q)
unfolding run perform
run-IsValid st [] q on v = v
run-IsValid st (o ∷ os) q on v = run-IsValid st os (perform st o q) on (step o)
  where
    step : (o : Operation) → IsValid (perform st o q)
    step (add ok event priority now) = add_to_queue-IsValid st on ok event priority now q v
    step (add_fails ok why) = add_to_queue_failed-IsValid st on ok why q v
    step (pop now) = pop_from_queue-IsValid st now q v
    step (ack i) = (ack_queue_event-IsValid i q v).0
    step (recover age now) = (recover_stale_inflight-keeps st age now q v).0
    step purge = purge_queue-IsValid q
    step (purge_stale age now) = purge_stale_queue_rows-IsValid age now q v
