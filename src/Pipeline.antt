-- ===== src/Pipeline.antt =====
-- The pipeline of one account monitor (monitors.py): the checks of an event, its place among the
-- stored messages, its analysis, and the retries when something raises.
mod Once
mod Retries
mod Failing
mod Vain
mod Tests
use telegram_br.Base.{
  ℕ, zero, suc, ◌+◌, ◌-◌, ◌*◌, ◌/◌, ◌%◌, ◌≤◌, ◌<◌, min, max, ◌≡◌, refl, sym, ap, ◌∙◌, ◌≢◌, ◌↔◌, ◌⊎◌,
  inl, inr, Bool, true, false, not, ◌&&◌, ◌||◌, Option, none, some, List, [], ◌∷◌, ◌++◌, map, arith,
  ltb, leb, ◌==◌, if◌then◌else◌, is_some, Bool-cases, Option-cases, if-by, Time, seconds, length,
  get_elem?, take, drop, keep, any, count_by, All, length-append, length-drop, elem, distinct, Dict,
  lookup, insert, erase, insert_last, keep_last, lookup-insert, lookup-insert_self, lookup-erase,
  lookup-insert_last, length-insert-le, length-erase-le, ==_iff, ==_refl, leb_iff, ltb_iff,
  length-keep-le, append-snoc, append-nil, lookup-append, push_last, push_last-room, count_recent,
  count_window, IsHistory, IsHistory-later, Covers, sees, IsHistory-push_last, Covers-later,
  Covers-push_last, count_window-append-le, count_by-append, count_by-le-length, keep_last,
  length-keep_last-le,
}
use telegram_br.DeadLetters.{
  Event, Error, Task, Dlq, Outcome, returns, raises, is_cancelled, push, start_retry, end_retry,
  persist_dead_letter,
}

-- What `_analyze_and_alert` and `_send_alert` do with an event: nothing to send, an alert whose
-- receipt is written, or an exception. The file of the source ends inside `_send_alert`, at line
-- 2758, so what it does when the sending fails can not be read: in particular no retry that
-- `_send_alert` might schedule by itself is modelled.
pub data Analysis : Type 0 where
  silent : Analysis
  alerted : Analysis
  failed : Error → Analysis
  stopped : Analysis

-- What the other parts answer while one event is processed.
pub record Answers : Type 0 where
  -- the age gate lets the event through, or raises, which counts as letting it through
  pub fresh : Bool
  pub sender_blocked : Bool
  pub chat_blocked : Bool
  pub scope_on : Bool
  pub source_allowed : Bool
  pub ignored : Bool
  pub ignored_async : Bool
  pub own_message : Bool
  pub card_echo : Bool
  pub length_ok : Bool
  -- the INSERT into messages works
  pub insert_works : Bool
  pub analysis : Analysis
  -- the INSERT into dead_letters works
  pub letter_works : Bool

pub record Stats : Type 0 where
  pub source_skipped : ℕ
  pub spam_skipped : ℕ
  pub echo_skipped : ℕ
  pub length_rejected : ℕ
  pub duplicates : ℕ
  pub recovered_dupe_skip : ℕ
  pub queue_processed : ℕ
  pub errors : ℕ

pub record Monitor : Type 0 where
  -- the keys of the LRUCache
  pub processed_hashes : List ℕ
  -- the deque of the database object, its oldest hash first
  pub message_cache : List ℕ
  -- the hashes in the tables messages and alerts
  pub messages : List ℕ
  pub alerts : List ℕ
  -- the table sender_stats: the total of each sender
  pub totals : Dict ℕ
  pub total_messages : ℕ
  pub dlq : Dlq
  pub stats : Stats
  -- the events whose analysis began, the latest first
  pub analyzed : List Event

-- The code outside, and the sizes of the configuration.
pub record Library : Type 0 where
  -- `fast_hash` of the chat, the message and the lowered text
  pub hash : Event → ℕ
  -- `cache[h] = True` in an LRUCache
  pub remember : ℕ → List ℕ → List ℕ
  pub cache_size : ℕ

pub data Drop : Type 0 where
  block_listed : Drop
  out_of_scope : Drop
  spammer : Drop
  echo : Drop
  wrong_length : Drop

unfoldable pub is_empty_text : List ℕ → Bool
is_empty_text [] = true
is_empty_text (c ∷ cs) = false

-- `_validate_event`: why the event is dropped, if it is.
unfoldable pub validate_event : Answers → Event → Option Drop
validate_event a e =
    if a.sender_blocked || a.chat_blocked
    then some block_listed
    else if a.scope_on && not a.source_allowed
    then some out_of_scope
    else if a.ignored || a.ignored_async
    then some spammer
    else if a.own_message || a.card_echo
    then some echo
    else if not (is_empty_text e.text) && not a.length_ok
    then some wrong_length
    else none

unfoldable pub count_drop : Drop → Stats → Stats
count_drop block_listed s = s
count_drop out_of_scope s = record s { source_skipped = s.source_skipped + 1 }
count_drop spammer s = record s { spam_skipped = s.spam_skipped + 1 }
count_drop echo s = record s { echo_skipped = s.echo_skipped + 1 }
count_drop wrong_length s = record s { length_rejected = s.length_rejected + 1 }

module _ (lib : Library) where
  -- The insert: a new row counts for its sender, a row that is there is left alone, and an error is taken for one.
  unfoldable pub insert_message : Bool → ℕ → Event → Monitor → Monitor × Bool
  insert_message works h e m = if not works || elem h m.messages then (m, false) else (
    record m {
      messages = h ∷ m.messages;
      totals =
          insert e.sender_id (elim (lookup e.sender_id m.totals) [ none ↦ 1 | some n ↦ n + 1 ])
            m.totals;
      total_messages = m.total_messages + 1;
    },
    true,
  )

  unfoldable pub try_insert_message : Bool → ℕ → Event → Monitor → Monitor × Bool
  try_insert_message works h e m =
      if elem h m.message_cache
      then (m, false)
      else insert_message works h e
          (record m { message_cache = push_last lib.cache_size h m.message_cache })

  -- `_store_message`: whether the message is new.
  unfoldable pub store_message : Answers → Event → Monitor → Monitor × Bool
  store_message a e m =
      let h = lib.hash e in
      if elem h m.processed_hashes
      then (m, false)
      else try_insert_message a.insert_works h e
          (record m { processed_hashes = lib.remember h m.processed_hashes })

  -- How the analysis and the sending end: a delivered alert leaves its receipt.
  unfoldable pub end_analysis : Analysis → Event → Monitor → Monitor × Outcome
  end_analysis silent e m = (m, returns)
  end_analysis alerted e m = (record m { alerts = lib.hash e ∷ m.alerts }, returns)
  end_analysis (failed x) e m = (m, raises x)
  end_analysis stopped e m = (m, is_cancelled)

  unfoldable pub analyze_and_alert : Answers → Event → Monitor → Monitor × Outcome
  analyze_and_alert a e m = end_analysis a.analysis e (record m { analyzed = e ∷ m.analyzed })

  -- A message that is not new goes on only for a recovered event without a receipt.
  unfoldable pub process_stored : Answers → Event → Monitor × Bool → Monitor × Outcome
  process_stored a e (m, true) = analyze_and_alert a e m
  process_stored a e (m, false) =
      if e.recovered
      then if elem (lib.hash e) m.alerts
        then (
          record m {
            stats = record m.stats { recovered_dupe_skip = m.stats.recovered_dupe_skip + 1 };
          },
          returns,
        )
        else analyze_and_alert a e m
      else (record m { stats = record m.stats { duplicates = m.stats.duplicates + 1 } }, returns)

  unfoldable pub process_valid : Answers → Event → Option Drop → Monitor → Monitor × Outcome
  process_valid a e (some why) m = (record m { stats = count_drop why m.stats }, returns)
  process_valid a e none m = process_stored a e (store_message a e m)

  unfoldable pub process_event_pipeline : Answers → Event → Monitor → Monitor × Outcome
  process_event_pipeline a e m =
      if not a.fresh then (m, returns) else process_valid a e (validate_event a e) m

  -- What follows the pipeline: an exception goes to the retries, and is swallowed.
  unfoldable pub settle : Answers → Event → ℕ → Monitor × Outcome → Monitor × Outcome
  settle a e n (m, returns) = (
    record m { stats = record m.stats { queue_processed = m.stats.queue_processed + 1 } },
    returns,
  )
  settle a e n (m, raises x) = (
    record m {
      stats = record m.stats { errors = m.stats.errors + 1 };
      dlq = push a.letter_works e x n m.dlq;
    },
    returns,
  )
  settle a e n (m, is_cancelled) = (m, is_cancelled)

  unfoldable pub process_event_from_queue : Answers → Event → ℕ → Monitor → Monitor × Outcome
  process_event_from_queue a e n m = settle a e n (process_event_pipeline a e m)

  -- `_retry_send_alert`: the receipt prevents a second alert.
  unfoldable pub retry_send_alert : Answers → Event → Monitor → Monitor × Outcome
  retry_send_alert a e m =
      if elem (lib.hash e) m.alerts then (m, returns) else end_analysis a.analysis e m

  unfoldable pub dlq_reprocess : Answers → Event → ℕ → Monitor → Monitor × Outcome
  dlq_reprocess a e n m =
      if e.resend then retry_send_alert a e m else process_event_from_queue a e n m

  -- A retry from the end of its delay on.
  unfoldable pub run_retry : Answers → Task → Monitor → Monitor
  run_retry a t m =
      if m.dlq.has_reprocess
      then (let (g, outcome) = dlq_reprocess a t.event t.retry_count m in
          record g { dlq = end_retry a.letter_works t outcome g.dlq })
      else record m { dlq = persist_dead_letter a.letter_works t.event t.retry_count m.dlq }

  -- The retry with the number `k` fires; without one, nothing happens.
  unfoldable pub fire_task : ℕ → Option Task → Answers → Monitor → Monitor
  fire_task k none a m = m
  fire_task k (some t) a m = run_retry a t (record m { dlq = start_retry k t m.dlq })

  abbrev pub fire : ℕ → Answers → Monitor → Monitor
  fire k a m = fire_task k (get_elem? m.dlq.retry_tasks k) a m
