-- ===== src/Alerts.antt =====
-- The receipts of alerts (database.py): the batch in memory, the table alerts, and what is known of
-- their senders. A flush is its beginning, which takes the batch, and its end, after the database.
pub mod Receipts
pub mod Cooldown
mod Tests
use telegram_br.Base.{
  ℕ, zero, suc, ◌+◌, ◌-◌, ◌*◌, ◌/◌, ◌%◌, ◌≤◌, ◌<◌, min, max, ◌≡◌, refl, sym, ap, ◌∙◌, ◌≢◌, ◌↔◌, ◌⊎◌,
  inl, inr, Bool, true, false, not, ◌&&◌, ◌||◌, Option, none, some, List, [], ◌∷◌, ◌++◌, map, arith,
  ltb, leb, ◌==◌, if◌then◌else◌, is_some, Bool-cases, Option-cases, if-by, Time, seconds, length,
  get_elem?, take, drop, keep, any, count_by, All, length-append, length-drop, elem, distinct, Dict,
  lookup, insert, erase, insert_last, keep_last, lookup-insert, lookup-insert_self, lookup-erase,
  lookup-insert_last, length-insert-le, length-erase-le, ==_iff, ==_refl, leb_iff, ltb_iff,
  length-keep-le, append-snoc, append-nil, lookup-append, push_last, push_last-room, count_recent,
  count_window, IsHistory, IsHistory-later, Covers, sees, IsHistory-push_last, Covers-later,
  Covers-push_last, count_window-append-le, count_by-append, count_by-le-length, keep_last,
  length-keep_last-le, append_assoc, drop-append, take-append,
}

-- The fields of a record that matter here. Its time is not zero: it is set when the record is made.
pub record AlertRecord : Type 0 where
  pub message_hash : ℕ
  pub sender_id : ℕ
  pub timestamp : Time

-- A row of sender_stats: alerts_sent, last_alert_time, and reputation_score in thousandths.
pub record SenderRow : Type 0 where
  pub reputation_score : ℕ
  pub alerts_sent : ℕ
  pub last_alert_time : Time

-- `in_flight` are the batches that flushes have taken and not yet written.
pub record Alerts : Type 0 where
  pub batch : List AlertRecord
  pub in_flight : List (List AlertRecord)
  pub table : List ℕ
  pub senders : Dict SenderRow
  pub can_send_cache : Dict (Bool × Time)

-- `_DB_BATCH_MAX_SIZE` is an argument.
unfoldable pub add_alert : ℕ → AlertRecord → Alerts → Alerts
add_alert batch_max rec a =
    if leb batch_max (length a.batch)
    then record a { batch = drop (max 1 (batch_max / 10)) a.batch ++ rec ∷ [] }
    else record a { batch = a.batch ++ rec ∷ [] }

-- `INSERT OR IGNORE`
abbrev pub insert_ignore : ℕ → List ℕ → List ℕ
insert_ignore h table = if elem h table then table else h ∷ table

-- `UPDATE sender_stats … WHERE sender_id = …`, which needs a row
abbrev pub update_row :
    (SenderRow → SenderRow) → ℕ → Dict SenderRow → Option SenderRow → Dict SenderRow
update_row f sid senders none = senders
update_row f sid senders (some row) = insert sid (f row) senders

abbrev pub update_sender : (SenderRow → SenderRow) → ℕ → Dict SenderRow → Dict SenderRow
update_sender f sid senders = update_row f sid senders (lookup sid senders)

abbrev pub sent_at : ℕ → Time → SenderRow → SenderRow
sent_at count at row = record row { alerts_sent = row.alerts_sent + count; last_alert_time = at }

-- What the database does with the statements of a write: whether the receipts and whether the rows
-- of the senders go through.
pub record Outcome : Type 0 where
  pub written : Bool
  pub counted : Bool

unfoldable pub insert_receipt : Bool → AlertRecord → Alerts → Alerts
insert_receipt counted rec a = if elem rec.message_hash a.table then a else record a {
  table = rec.message_hash ∷ a.table;
  senders =
      if counted
      then update_sender (sent_at 1 rec.timestamp) rec.sender_id a.senders
      else a.senders;
  can_send_cache = erase rec.sender_id a.can_send_cache;
}

-- The receipt at once, or in the batch when the database fails; the result says whether it is new.
unfoldable pub add_alert_immediate : ℕ → Outcome → AlertRecord → Alerts → Alerts × Bool
add_alert_immediate batch_max out rec a =
    if out.written
    then (insert_receipt out.counted rec a, not (elem rec.message_hash a.table))
    else (add_alert batch_max rec a, false)

abbrev pub has_hash : ℕ → List AlertRecord → Bool
has_hash h recs = any (λ r. r.message_hash == h) recs

-- `reads` says whether the database answers.
unfoldable pub alert_exists : Bool → ℕ → Alerts → Bool
alert_exists reads h a = has_hash h a.batch || reads && elem h a.table

-- An empty batch is not taken.
abbrev pub begin_with : List AlertRecord → Alerts → Alerts
begin_with [] a = a
begin_with (rec ∷ recs) a = record a { batch = []; in_flight = a.in_flight ++ (rec ∷ recs) ∷ [] }

unfoldable pub begin_flush : Alerts → Alerts
begin_flush a = begin_with a.batch a

-- The latest time and the number of the alerts of each sender.
abbrev pub tally_row : AlertRecord → Option (Time × ℕ) → Time × ℕ
tally_row rec none = (max 0 rec.timestamp, 1)
tally_row rec (some (latest, count)) = (max latest rec.timestamp, count + 1)

abbrev pub tally : List AlertRecord → Dict (Time × ℕ) → Dict (Time × ℕ)
tally [] counts = counts
tally (rec ∷ recs) counts =
    tally recs (insert rec.sender_id (tally_row rec (lookup rec.sender_id counts)) counts)

abbrev pub count_senders : Dict (Time × ℕ) → Dict SenderRow → Dict SenderRow
count_senders [] senders = senders
count_senders ((sid, (latest, count)) ∷ counts) senders =
    count_senders counts (update_sender (sent_at count latest) sid senders)

abbrev pub forget_senders : Dict (Time × ℕ) → Dict (Bool × Time) → Dict (Bool × Time)
forget_senders [] cache = cache
forget_senders ((sid, row) ∷ counts) cache = forget_senders counts (erase sid cache)

abbrev pub insert_all : List AlertRecord → List ℕ → List ℕ
insert_all [] table = table
insert_all (rec ∷ recs) table = insert_all recs (insert_ignore rec.message_hash table)

-- The records that still fit go back into the batch.
abbrev pub re_add : ℕ → List AlertRecord → Alerts → Alerts
re_add batch_max recs a = record a { batch = a.batch ++ take (batch_max - length a.batch) recs }

-- The end of a flush of these records.
unfoldable pub write_batch : ℕ → Outcome → List AlertRecord → Alerts → Alerts
write_batch batch_max out recs a =
    if not out.written
    then re_add batch_max recs a
    else if not out.counted
    then re_add batch_max recs (record a { table = insert_all recs a.table })
    else record a {
      table = insert_all recs a.table;
      senders = count_senders (tally recs []) a.senders;
      can_send_cache = forget_senders (tally recs []) a.can_send_cache;
    }

-- One of the batches in flight, and the others.
abbrev pub beside :
    List AlertRecord
    → Option (List AlertRecord × List (List AlertRecord))
    → Option (List AlertRecord × List (List AlertRecord))
beside recs none = none
beside recs (some (picked, rest)) = some (picked, recs ∷ rest)

abbrev pub pick : ℕ → List (List AlertRecord) → Option (List AlertRecord × List (List AlertRecord))
pick i [] = none
pick zero (recs ∷ flying) = some (recs, flying)
pick (suc i) (recs ∷ flying) = beside recs (pick i flying)

abbrev pub write_picked :
    ℕ → Outcome → Alerts → Option (List AlertRecord × List (List AlertRecord)) → Alerts
write_picked batch_max out a none = a
write_picked batch_max out a (some (recs, rest)) =
    write_batch batch_max out recs (record a { in_flight = rest })

unfoldable pub end_flush : ℕ → Outcome → ℕ → Alerts → Alerts
end_flush batch_max out i a = write_picked batch_max out a (pick i a.in_flight)

-- `_invalidate_can_send_alert`
abbrev pub invalidate_can_send_alert : ℕ → Alerts → Alerts
invalidate_can_send_alert sid a = record a { can_send_cache = erase sid a.can_send_cache }

-- The score, where 0 counts as missing.
abbrev pub score : ℕ → ℕ
score zero = 50000
score (suc n) = suc n

-- Whether the cooldown is over: at least 30 seconds, and ALERT_COOLDOWN times one minus a
-- two-hundredth of the score.
abbrev pub cooled : Time → Time → Option SenderRow → Bool
cooled alert_cooldown now none = true
cooled alert_cooldown now (some row) =
    row.last_alert_time == 0
    || leb (row.last_alert_time + seconds 30) now
      && leb (alert_cooldown * (200000 - score row.reputation_score))
          ((now - row.last_alert_time) * 200000)

abbrev pub live : Time → Option (Bool × Time) → Option Bool
live now none = none
live now (some (allowed, expiry)) = if ltb now expiry then some allowed else none

unfoldable pub make_room : Time → Dict (Bool × Time) → Dict (Bool × Time)
make_room now cache =
    let kept = keep (λ e. ltb now e.1.1) cache in
    if leb 4096 (length cache) then if leb 8192 (length kept) then [] else kept else cache

abbrev pub answer_or : Option Bool → Bool → Bool
answer_or none b = b
answer_or (some a) b = a

-- The answer; the cache keeps it for a while, for at most 5 seconds when it is no. `reads` says
-- whether the database answers: if it does not, the alert may be sent.
unfoldable pub can_send_alert :
    (reads : Bool) (alert_cooldown ttl : Time) → ℕ → Time → Alerts → Alerts × Bool
can_send_alert reads alert_cooldown ttl sid now a =
    let allowed = cooled alert_cooldown now (lookup sid a.senders) in
    let kept = max (seconds 2) ttl in
    let keep_for = if allowed then kept else min kept (seconds 5) in
    let cached = live now (lookup sid a.can_send_cache) in
    (
      if is_some cached || not reads then a else record a {
        can_send_cache = insert sid (allowed, now + keep_for) (make_room now a.can_send_cache);
      },
      answer_or cached (not reads || allowed),
    )
