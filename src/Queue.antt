-- ===== src/Queue.antt =====
-- The table `processing_queue` and the methods of `EnhancedDatabase` (database.py) on it: the
-- bounded queue, the claim and the acknowledgement of events, and the recovery of those whose
-- worker died. JSON is a parameter, and so is the order that the database gives to equal rows.
pub mod Ids
pub mod Invariant
pub mod Order
pub mod Delivery
pub mod Recovery
pub mod Ends
pub mod Fates
pub mod Mirror
pub mod Poison
mod Runs
mod Tests
use telegram_br.Base.{
  ℕ, zero, suc, ◌+◌, ◌-◌, ◌*◌, ◌/◌, ◌%◌, ◌≤◌, ◌<◌, min, max, ◌≡◌, refl, sym, ap, ◌∙◌, ◌≢◌, ◌↔◌, ◌⊎◌,
  inl, inr, Bool, true, false, not, ◌&&◌, ◌||◌, Option, none, some, List, [], ◌∷◌, ◌++◌, map, arith,
  ltb, leb, ◌==◌, if◌then◌else◌, is_some, Bool-cases, Option-cases, Time, seconds, length,
  get_elem?, take, drop, keep, any, count_by, All, length-append, length-drop, elem, distinct, Dict,
  lookup, insert, erase, insert_last, keep_last, lookup-insert, lookup-insert_self, lookup-erase,
  lookup-insert_last, length-insert-le, length-erase-le, ==_iff, ==_refl, leb_iff, ltb_iff,
  length-keep-le, lookup-append,
}

-- A dict of an event, with the names of its fields coded as numbers.
abbrev pub Event : Type 0
Event = Dict ℕ

abbrev pub queue_id_field : ℕ
queue_id_field = 0

abbrev pub recovered_field : ℕ
recovered_field = 1

abbrev pub Text : Type 0
Text = List ℕ

-- What `json_loads` makes of a text: it raises, gives a dict, or gives something else.
pub data Loaded : Type 0 where
  refused other : Loaded
  dict : Event → Loaded

-- `json_dumps` and `json_loads`
pub record Json : Type 0 where
  pub dumps : Event → Text
  pub loads : Text → Loaded

pub data Backend : Type 0 where
  sqlite postgresql : Backend

pub data Status : Type 0 where
  pending in_flight : Status

abbrev pub is_in_flight : Status → Bool
is_in_flight pending = false
is_in_flight in_flight = true

pub record Row : Type 0 where
  pub id : ℕ
  pub event_data : Text
  pub priority : ℕ
  pub status : Status
  pub claimed_at : Option Time
  pub attempts : ℕ
  pub created_at : Time

pub record DeadLetter : Type 0 where
  pub event_data : Text
  pub retry_count : ℕ

pub record Settings : Type 0 where
  pub backend : Backend
  pub capacity : ℕ
  pub reconcile_every : ℕ
  pub max_attempts : ℕ
  pub json : Json
  -- where the database puts a row among equals
  pub tie : ℕ → ℕ

pub record Queue : Type 0 where
  pub rows : List Row
  pub dead : List DeadLetter
  pub next_id : ℕ
  pub mirror : ℕ
  pub dirty : Bool
  pub inserts : ℕ
  pub evictions : ℕ

pick_first : (Row → Row → Bool) → Row → Option Row → Row
pick_first before r none = r
pick_first before r (some s) = if before s r then s else r

-- `ORDER BY … LIMIT 1`: the row that comes before all others.
unfoldable pub first_by : (Row → Row → Bool) → List Row → Option Row
unfolding pick_first
first_by before [] = none
first_by before (r ∷ rs) = some (pick_first before r (first_by before rs))

abbrev pub by_age : (ℕ → ℕ) → Row → Row → Bool
by_age tie r s =
    ltb r.created_at s.created_at || (r.created_at == s.created_at && ltb (tie r.id) (tie s.id))

-- `ORDER BY priority DESC, created_at ASC`
abbrev pub served_before : (ℕ → ℕ) → Row → Row → Bool
served_before tie r s = ltb s.priority r.priority || (r.priority == s.priority && by_age tie r s)

-- `ORDER BY priority ASC, created_at ASC`
abbrev pub evicted_before : (ℕ → ℕ) → Row → Row → Bool
evicted_before tie r s = ltb r.priority s.priority || (r.priority == s.priority && by_age tie r s)

-- `UPDATE … WHERE p` and `DELETE … WHERE p`
abbrev pub update_where : (Row → Bool) → (Row → Row) → List Row → List Row
update_where p f [] = []
update_where p f (r ∷ rs) = (if p r then f r else r) ∷ update_where p f rs

abbrev pub delete_where : (Row → Bool) → List Row → List Row
delete_where p = keep (λ r. not (p r))

abbrev pub has_id : ℕ → Row → Bool
has_id i r = r.id == i

pub delete_first : Option Row → List Row → List Row
delete_first none rows = rows
delete_first (some r) rows = delete_where (has_id r.id) rows

-- The recount of the mirror, when it is due and the count can be read.
unfoldable pub reconcile : Settings → Bool → Queue → Queue
reconcile st count_ok q =
    if (q.dirty || q.inserts % max 1 st.reconcile_every == 0) && count_ok
    then record q { mirror = length q.rows; dirty = false }
    else q

-- The mirror after an eviction: only the SQLite branch lowers it.
abbrev evicted_mirror : Backend → ℕ → ℕ
evicted_mirror sqlite m = m - 1
evicted_mirror postgresql m = m

unfoldable pub evict : Settings → Queue → Queue
unfolding delete_first
evict st q =
    if leb st.capacity q.mirror
    then record q {
      rows = delete_first (first_by (evicted_before st.tie) q.rows) q.rows;
      mirror = evicted_mirror st.backend q.mirror;
      evictions = q.evictions + 1;
    }
    else q

abbrev new_row : Settings → Queue → Event → ℕ → Time → Row
new_row st q event priority now = record {
  id = q.next_id;
  event_data = st.json.dumps event;
  priority = priority;
  status = pending;
  claimed_at = none;
  attempts = 0;
  created_at = now;
}

unfoldable pub insert_row : Settings → Event → ℕ → Time → Queue → Queue × ℕ
insert_row st event priority now q = (
  record q {
    rows = q.rows ++ new_row st q event priority now ∷ [];
    next_id = q.next_id + 1;
    mirror = q.mirror + 1;
    inserts = q.inserts + 1;
  },
  q.next_id,
)

-- `add_to_queue` on a healthy database, with the id of the new row.
unfoldable pub add_to_queue : Settings → Bool → Event → ℕ → Time → Queue → Queue × ℕ
unfolding insert_row
add_to_queue st count_ok event priority now q =
    insert_row st event priority now (evict st (reconcile st count_ok q))

-- Where `add_to_queue` fails: the database is known to be down, or a statement raises.
pub data AddFailure : Type 0 where
  unhealthy delete_fails insert_fails : AddFailure

-- The queue after the eviction when the insertion fails: SQLite keeps the eviction, as each statement
-- is a transaction there; PostgreSQL rolls it back, but it stays counted.
abbrev pub unrolled : Backend → Queue → Queue → Queue
unrolled sqlite before evicted = evicted
unrolled postgresql before evicted = record before { evictions = evicted.evictions }

-- What a failed `add_to_queue` leaves, which returns -2 on a database known to be down and -1
-- otherwise.
unfoldable pub add_to_queue_failed : Settings → Bool → AddFailure → Queue → Queue
add_to_queue_failed st count_ok unhealthy q = q
add_to_queue_failed st count_ok delete_fails q = record (reconcile st count_ok q) { dirty = true }
add_to_queue_failed st count_ok insert_fails q =
    let before = reconcile st count_ok q in
    record (unrolled st.backend before (evict st before)) { dirty = true }

-- `data.setdefault("_queue_id", event_id)` on what the text holds, or on an empty dict.
unfoldable pub claim_payload : Json → ℕ → Text → Event
claim_payload json i raw = elim (json.loads raw) [
  | refused ↦ insert queue_id_field i []
  | other ↦ []
  | dict event ↦
      if is_some (lookup queue_id_field event) then event else insert queue_id_field i event
]

abbrev pub waits : Row → Bool
waits r = not (is_in_flight r.status)

abbrev pub claim_update : Time → Row → Row
claim_update now r = record r {
  status = in_flight;
  claimed_at = some now;
  attempts = r.attempts + 1;
}

claim_first : Settings → Time → Queue → Option Row → Queue × Option Event
claim_first st now q none = (q, none)
claim_first st now q (some r) = (
  record q { rows = update_where (has_id r.id) (claim_update now) q.rows },
  some (claim_payload st.json r.id r.event_data),
)

unfoldable pub pop_from_queue : Settings → Time → Queue → Queue × Option Event
unfolding claim_first
pop_from_queue st now q = claim_first st now q (first_by (served_before st.tie) (keep waits q.rows))

unfoldable pub ack_queue_event : ℕ → Queue → Queue × Bool
ack_queue_event i q =
    if any (has_id i) q.rows
    then (record q { rows = delete_where (has_id i) q.rows; mirror = q.mirror - 1 }, true)
    else (q, false)

unfoldable pub queue_size : Queue → ℕ
queue_size q = if q.dirty then length q.rows else q.mirror

-- The rows in flight that were claimed before the cutoff.
abbrev pub claimed_before : Time → Option Time → Bool
claimed_before cutoff none = false
claimed_before cutoff (some at) = ltb at cutoff

abbrev pub is_stale : Time → Row → Bool
is_stale cutoff r = is_in_flight r.status && claimed_before cutoff r.claimed_at

-- `WHERE id = ? AND status = 'in_flight' AND attempts = ?`
abbrev pub still_claimed : Row → Row → Bool
still_claimed r s = s.id == r.id && is_in_flight s.status && s.attempts == r.attempts

-- `_dead_letter_row`: whoever still finds the claim writes the dead letter and deletes the row.
unfoldable pub dead_letter_row : Row → Queue → Queue × Bool
dead_letter_row r q =
    if any (still_claimed r) q.rows
    then (
      record q {
        rows =
            delete_where (λ (s : Row). s.id == r.id && is_in_flight s.status)
              (update_where (still_claimed r) (λ s. record s { attempts = s.attempts + 1 }) q.rows);
        dead = record { event_data = r.event_data; retry_count = r.attempts } ∷ q.dead;
      },
      true,
    )
    else (q, false)

-- The text of the event with the mark `_recovered`; what is no dict stays as it is.
unfoldable pub recovered_payload : Json → Text → Text
recovered_payload json raw = elim (json.loads raw) [
  | refused ↦ json.dumps (insert recovered_field 1 [])
  | other ↦ raw
  | dict event ↦ json.dumps (insert recovered_field 1 event)
]

abbrev pub requeue_update : Json → Text → Row → Row
requeue_update json raw s = record s {
  status = pending;
  claimed_at = none;
  event_data = recovered_payload json raw;
  attempts = s.attempts + 1;
}

unfoldable pub requeue_row : Json → Row → Queue → Queue × Bool
requeue_row json r q =
    if any (still_claimed r) q.rows
    then (
      record q { rows = update_where (still_claimed r) (requeue_update json r.event_data) q.rows },
      true,
    )
    else (q, false)

pub record Recovered : Type 0 where
  pub recovered : ℕ
  pub dead_count : ℕ

unfoldable pub recover_row : Settings → Row → Queue × Recovered → Queue × Recovered
unfolding dead_letter_row requeue_row
recover_row st r (q, n) =
    if leb (max 1 st.max_attempts) r.attempts
    then (let (q', won) = dead_letter_row r q in
        if won
        then (record q' { mirror = q'.mirror - 1 }, record n { dead_count = n.dead_count + 1 })
        else (q', n))
    else (let (q', won) = requeue_row st.json r q in
        if won then (q', record n { recovered = n.recovered + 1 }) else (q', n))

unfoldable pub recover_rows : Settings → List Row → Queue × Recovered → Queue × Recovered
recover_rows st [] s = s
recover_rows st (r ∷ rs) s = recover_rows st rs (recover_row st r s)

unfoldable pub recover_stale_inflight : Settings → ℕ → Time → Queue → Queue × Recovered
recover_stale_inflight st max_age now q =
    recover_rows st (keep (is_stale (now - seconds (max 5 max_age))) q.rows)
      (q, record { recovered = 0; dead_count = 0 })

unfoldable pub purge_queue : Queue → Queue × ℕ
purge_queue q = (record q { rows = []; mirror = 0; dirty = false }, length q.rows)

unfoldable pub purge_stale_queue_rows : ℕ → Time → Queue → Queue × ℕ
purge_stale_queue_rows max_age now q =
    let kept =
      delete_where (λ (r : Row). ltb r.created_at (now - seconds (max 60 max_age))) q.rows in
    let deleted = length q.rows - length kept in
    if deleted == 0
    then (q, 0)
    else (record q { rows = kept; mirror = q.mirror - deleted; dirty = true }, deleted)
