-- ===== src/Queue/Tests.antt =====
-- The queue at concrete inputs.
use telegram_br.Base.{
  ℕ, ◌+◌, ◌≤◌, ◌≡◌, refl, true, false, none, some, List, [], ◌∷◌, map, arith, seconds, length, All,
  keep,
}
use telegram_br.Queue.{
  insert_fails, DeadLetter, Recovered, Loaded, refused, other, dict, Row, Queue, Settings, Event,
  Text, sqlite, postgresql, pending, first_by, pick_first, evict, reconcile, insert_row,
  add_to_queue, pop_from_queue, ack_queue_event, recover_stale_inflight, recover_rows, recover_row,
  dead_letter_row, requeue_row, claim_payload, recovered_payload, queue_size, claim_update,
  claim_first, delete_first,
}
use telegram_br.Queue.Invariant.{IsValid}
use telegram_br.Queue.Delivery.{IsIn, IsServedFirst, claimed_rows, HasPayload, pop_from_queue-first}
use telegram_br.Queue.Runs.{add, add_fails, pop, recover, ack, run, run-IsValid}
use telegram_br.Queue.Mirror.{length-add_to_queue-le, add_to_queue-postgresql}
use telegram_br.Queue.Fates.{fates, letters, overdue, recover_stale_inflight-fates}
use telegram_br.Queue.Poison.{Crash, crashes, single, crashes-dead}

program : Unit {0}
unfolding first_by pick_first evict reconcile insert_row add_to_queue pop_from_queue claim_first
    delete_first ack_queue_event recover_stale_inflight recover_rows recover_row dead_letter_row
    requeue_row claim_payload recovered_payload queue_size
program = tt

-- A text that lists the field `_queue_id`, `_recovered` and the rest of an event, or nothing.
abbrev dumps : Event → Text
dumps [] = []
dumps ((k, v) ∷ e) = k ∷ v ∷ dumps e

abbrev add_field : ℕ → ℕ → Loaded → Loaded
add_field k v refused = refused
add_field k v other = other
add_field k v (dict e) = dict ((k, v) ∷ e)

abbrev loads : Text → Loaded
loads [] = dict []
loads (k ∷ []) = refused
loads (k ∷ v ∷ t) = add_field k v (loads t)

abbrev settings : Settings
settings = record {
  backend = sqlite;
  capacity = 2;
  reconcile_every = 64;
  max_attempts = 3;
  json = record { dumps = dumps; loads = loads };
  tie = λ i. i;
}

abbrev low : Row
low = record {
  id = 1;
  event_data = 5 ∷ 50 ∷ [];
  priority = 1;
  status = pending;
  claimed_at = none;
  attempts = 0;
  created_at = seconds 100;
}

abbrev high : Row
high = record low { id = 2; priority = 9; event_data = 5 ∷ 51 ∷ [] }

abbrev queue : Queue
queue = record {
  rows = low ∷ high ∷ [];
  dead = [];
  next_id = 3;
  mirror = 2;
  dirty = false;
  inserts = 2;
  evictions = 0;
}

queue-IsValid : IsValid queue
queue-IsValid = record {
  unique = ((omega arith, tt), (tt, tt));
  below = (omega arith, (omega arith, tt));
  synced = λ _. refl;
}

pop-queue : (pop_from_queue settings (seconds 200) queue).1 ≡ some ((5, 51) ∷ (0, 2) ∷ [])
unfolding program
pop-queue = refl

-- The full queue evicts its lowest row for a new one.
ids-add_to_queue :
    map (λ (r : Row). r.id) (add_to_queue settings true [] 5 (seconds 300) queue).0.rows
    ≡ 2 ∷ 3 ∷ []
unfolding program
ids-add_to_queue = refl

run-IsValid_example : IsValid (
    run settings
      (add true [] 5 (seconds 300)
        ∷ add_fails true insert_fails
        ∷ pop (seconds 301)
        ∷ recover 60 (seconds 900)
        ∷ ack 2
        ∷ [])
      queue)
run-IsValid_example =
    run-IsValid settings
      (add true [] 5 (seconds 300)
        ∷ add_fails true insert_fails
        ∷ pop (seconds 301)
        ∷ recover 60 (seconds 900)
        ∷ ack 2
        ∷ [])
      queue refl queue-IsValid

length-add_to_queue-le_example :
    length (add_to_queue settings true [] 5 (seconds 300) queue).0.rows ≤ 2
length-add_to_queue-le_example =
    length-add_to_queue-le settings [] 5 (seconds 300) queue true (omega arith) queue-IsValid refl
      (omega arith)

add_to_queue-postgresql_example :
    let q' =
      (add_to_queue (record settings { backend = postgresql }) true [] 5 (seconds 300) queue).0 in
    (length q'.rows ≡ 2) × (queue_size q' ≡ length q'.rows + 1)
add_to_queue-postgresql_example =
    add_to_queue-postgresql (record settings { backend = postgresql }) [] 5 (seconds 300) queue true
      refl queue-IsValid refl refl (omega arith) (omega arith)

-- The queue after the delivery of the row `high`, and its event.
abbrev popped : Queue
popped = record queue { rows = low ∷ claim_update (seconds 200) high ∷ [] }

popped_lem : pop_from_queue settings (seconds 200) queue ≡ (popped, some ((5, 51) ∷ (0, 2) ∷ []))
unfolding program
popped_lem = refl

popped-IsValid : IsValid popped
popped-IsValid = record {
  unique = ((omega arith, tt), (tt, tt));
  below = (omega arith, (omega arith, tt));
  synced = λ _. refl;
}

pop_from_queue-first_example :
    (r : Row) × IsIn r queue.rows
    × (r.status ≡ pending)
    × All (λ s. s.status ≡ pending → IsServedFirst r s) queue.rows
    × (popped ≡ record queue { rows = claimed_rows (seconds 200) r.id queue.rows })
    × HasPayload settings r ((5, 51) ∷ (0, 2) ∷ [])
pop_from_queue-first_example =
    pop_from_queue-first settings (seconds 200) queue popped ((5, 51) ∷ (0, 2) ∷ []) popped_lem

abbrev recovered_queue : Queue × Recovered
recovered_queue = recover_stale_inflight settings 600 (seconds 900) popped

recover_stale_inflight-fates_example :
    IsValid recovered_queue.0
    × (recovered_queue.0.rows ≡ fates settings (overdue 600 (seconds 900)) popped.rows)
    × (recovered_queue.0.dead ≡ letters settings (overdue 600 (seconds 900)) popped.rows [])
    × (recovered_queue.1.recovered + recovered_queue.1.dead_count
        ≡ length (keep (overdue 600 (seconds 900)) popped.rows))
    × (length recovered_queue.0.rows + length recovered_queue.0.dead ≡ 2)
recover_stale_inflight-fates_example =
    recover_stale_inflight-fates settings 600 (seconds 900) popped popped-IsValid

-- The row that was delivered waits again, with two attempts, and the other one as before.
recovered-fates :
    map (λ (r : Row). r.attempts) (fates settings (overdue 600 (seconds 900)) popped.rows)
    ≡ 0 ∷ 2 ∷ []
recovered-fates = refl

-- Two deliveries end an event under the limit of three attempts.
abbrev two_crashes : List Crash
two_crashes =
    record { delivered_at = seconds 200; recovered_at = seconds 900 }
    ∷ record { delivered_at = seconds 901; recovered_at = seconds 1600 }
    ∷ []

crashes-dead_example :
    ((crashes settings 600 two_crashes (single queue low)).rows ≡ [])
    × ((d : DeadLetter) × ((crashes settings 600 two_crashes (single queue low)).dead ≡ d ∷ [])
        × (3 ≤ d.retry_count))
crashes-dead_example =
    crashes-dead settings 600 two_crashes low queue (omega arith) refl (omega arith) (omega arith)
