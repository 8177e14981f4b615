-- ===== src/DeadLetters.antt =====
-- The retries of failed events: DeadLetterQueue (monitors.py) and add_dead_letter (database.py).
pub mod Backoff
use telegram_br.Base.{
  ℕ, zero, suc, ◌+◌, ◌-◌, ◌*◌, ◌/◌, ◌%◌, ◌≤◌, ◌<◌, min, max, ◌≡◌, refl, sym, ap, ◌∙◌, ◌≢◌, ◌↔◌, ◌⊎◌,
  inl, inr, Bool, true, false, not, ◌&&◌, ◌||◌, Option, none, some, List, [], ◌∷◌, ◌++◌, map, arith,
  ltb, leb, ◌==◌, if◌then◌else◌, is_some, Bool-cases, Option-cases, if-by, Time, seconds, length,
  get_elem?, take, drop, keep, any, count_by, All, length-append, length-drop, elem, distinct, Dict,
  lookup, insert, erase, insert_last, keep_last, lookup-insert, lookup-insert_self, lookup-erase,
  lookup-insert_last, length-insert-le, length-erase-le, ==_iff, ==_refl, leb_iff, ltb_iff,
  length-keep-le, append-snoc, append-nil, lookup-append, push_last, push_last-room, count_recent,
  count_window, IsHistory, IsHistory-later, Covers, sees, IsHistory-push_last, Covers-later,
  Covers-push_last, count_window-append-le, count_by-append, count_by-le-length, keep_last,
  length-keep_last-le,
}

-- An event, as far as the retries and the pipeline read it. `resend` tells an event whose alert only is sent again.
pub record Event : Type 0 where
  pub chat_id : ℕ
  pub message_id : ℕ
  pub sender_id : ℕ
  pub text : List ℕ
  pub recovered : Bool
  pub resend : Bool

-- An exception: its attribute `seconds`, 0 when there is none, and the whole seconds that the regular expression finds
-- in its text.
pub record Error : Type 0 where
  pub wait_seconds : ℕ
  pub remaining : Option ℕ

pub record Task : Type 0 where
  pub event : Event
  pub retry_count : ℕ
  pub delay : ℕ

pub record DeadLetter : Type 0 where
  pub event_data : Event
  pub retry_count : ℕ

pub record Stats : Type 0 where
  pub retry_scheduled : ℕ
  pub retry_started : ℕ
  pub retry_succeeded : ℕ
  pub retry_failed : ℕ
  pub dead_lettered : ℕ

pub record Dlq : Type 0 where
  pub max_retries : ℕ
  -- the callback is configured
  pub has_reprocess : Bool
  pub stopping : Bool
  pub retry_tasks : List Task
  pub scheduled_keys : List (ℕ × ℕ)
  pub stats : Stats
  -- the rows of the table dead_letters
  pub dead_letters : List DeadLetter

pub init : ℕ → Bool → Dlq
init max_retries has_reprocess = record {
  max_retries = max_retries;
  has_reprocess = has_reprocess;
  stopping = false;
  retry_tasks = [];
  scheduled_keys = [];
  stats = record {
    retry_scheduled = 0;
    retry_started = 0;
    retry_succeeded = 0;
    retry_failed = 0;
    dead_lettered = 0;
  };
  dead_letters = [];
}

abbrev pub event_key : Event → ℕ × ℕ
event_key e = (e.chat_id, e.message_id)

abbrev pub same_key : ℕ × ℕ → ℕ × ℕ → Bool
same_key j k = j.0 == k.0 && j.1 == k.1

-- `add_dead_letter`: a failed insert is logged, and returns False.
unfoldable pub add_dead_letter : Bool → DeadLetter → List DeadLetter → List DeadLetter
add_dead_letter works l ls = if works then ls ++ l ∷ [] else ls

-- `_persist_dead_letter` counts the letter whatever `add_dead_letter` returns; `works` says whether the insert does.
unfoldable pub persist_dead_letter : Bool → Event → ℕ → Dlq → Dlq
persist_dead_letter works e n d = record d {
  dead_letters = add_dead_letter works (record { event_data = e; retry_count = n }) d.dead_letters;
  stats = record d.stats { dead_lettered = d.stats.dead_lettered + 1 };
}

-- `2 ** n`
abbrev pub power_of_two : ℕ → ℕ
power_of_two zero = 1
power_of_two (suc n) = let p = power_of_two n in p + p

-- The flood wait that an error tells, 0 for none.
unfoldable pub flood_of : Error → ℕ
flood_of x =
    if ltb 0 x.wait_seconds then x.wait_seconds else elim x.remaining [ none ↦ 0 | some s ↦ s + 1 ]

unfoldable pub delay_of : Error → ℕ → ℕ
delay_of x n =
    let delay = min (power_of_two n) 60 in
    if ltb 0 (flood_of x) then max delay (min (flood_of x) 900) else delay

unfoldable pub schedule : Event → Error → ℕ → Dlq → Dlq
schedule e x n d = record d {
  scheduled_keys = event_key e ∷ d.scheduled_keys;
  stats = record d.stats { retry_scheduled = d.stats.retry_scheduled + 1 };
  retry_tasks =
      d.retry_tasks ++ record { event = e; retry_count = n + 1; delay = delay_of x n } ∷ [];
}

unfoldable pub push : Bool → Event → Error → ℕ → Dlq → Dlq
push works e x n d =
    if d.stopping
    then persist_dead_letter works e n d
    else if leb d.max_retries n
    then persist_dead_letter works e n d
    else if any (same_key (event_key e)) d.scheduled_keys
    then d
    else schedule e x n d

abbrev pub remove_at : ℕ → List Task → List Task
remove_at k [] = []
remove_at zero (t ∷ ts) = ts
remove_at (suc k) (t ∷ ts) = t ∷ remove_at k ts

-- `_retry` after its delay: the task with the number `k` frees its key and starts.
unfoldable pub start_retry : ℕ → Task → Dlq → Dlq
start_retry k t d = record d {
  retry_tasks = remove_at k d.retry_tasks;
  scheduled_keys = keep (λ j. not (same_key (event_key t.event) j)) d.scheduled_keys;
  stats = record d.stats { retry_started = d.stats.retry_started + 1 };
}

-- How the callback ends.
pub data Outcome : Type 0 where
  returns : Outcome
  raises : Error → Outcome
  is_cancelled : Outcome

-- The end of `_retry`.
unfoldable pub end_retry : Bool → Task → Outcome → Dlq → Dlq
end_retry works t returns d = record d {
  stats = record d.stats { retry_succeeded = d.stats.retry_succeeded + 1 };
}
end_retry works t is_cancelled d = d
end_retry works t (raises x) d =
    let g = record d { stats = record d.stats { retry_failed = d.stats.retry_failed + 1 } } in
    if leb g.max_retries t.retry_count then persist_dead_letter works t.event t.retry_count g else g

-- `stop` cancels the tasks; a cancelled task frees its key and ends.
unfoldable pub stop : Dlq → Dlq
stop d = record d { stopping = true; retry_tasks = []; scheduled_keys = [] }
