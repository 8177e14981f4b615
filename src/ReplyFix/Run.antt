-- ===== src/ReplyFix/Run.antt =====
-- `ReplyFixer.run` in its two parts, before and after the first await, and the snapshot of the caps.
use telegram_br.Base.{
  ℕ, Bool, true, false, not, ◌&&◌, Option, none, some, List, [], ◌∷◌, ◌==◌, if◌then◌else◌,
}
use telegram_br.ReplyFix.{
  Clock, Limits, Fixer, Refusal, allowed, record_attempt, count_skipped, count_failure,
  count_success, disable_for_broadcast,
}

-- What `send_message` does: the message comes back with or without the mention, or it raises.
pub data Answer : Type 0 where
  delivered : Bool → Answer
  write_forbidden : Answer
  slow_mode : Answer
  flood_wait : ℕ → Answer
  other_error : Answer
  cancelled : Answer

-- One step of the ladder: whether there is an input user, whether its entity can be built, and the
-- answer to the message.
pub record Tier : Type 0 where
  pub name : ℕ
  pub has_user : Bool
  pub builds : Bool
  pub answer : Answer

pub data Failure : Type 0 where
  empty_ladder : Failure
  entity_build : Failure
  entity_missing : Failure
  send_error : Failure

pub data Skip : Type 0 where
  telethon_unavailable : Skip
  no_user_id : Skip
  no_access_hash : Skip
  refused : Refusal → Skip
  no_client : Skip
  forbidden : Skip
  slowmode : Skip
  floodwait : ℕ → Skip

pub data Result : Type 0 where
  ok : Result
  fail : Failure → Result
  skip : Skip → Result
  -- the task is cancelled, and `CancelledError` goes on
  gone : Result

-- A call of `run`. An id that is not positive is 0; without a ladder, `direct` is the one tier that is built from the
-- access hash. The names of exceptions are left out of the results.
pub record Call : Type 0 where
  pub user : ℕ
  pub has_access_hash : Bool
  pub ladder : List Tier
  pub has_client : Bool
  pub direct : Tier
  pub sleep_cancelled : Bool

unfoldable pub is_empty : List Tier → Bool
is_empty [] = true
is_empty (t ∷ ts) = false

-- The end of the part before the first await: the quota is reserved, unless the limits refuse.
unfoldable pub reserve : Limits → Clock → Call → Fixer × Option Refusal → Fixer × Option Result
reserve lim c call (f, some why) = (count_skipped f, some (skip (refused why)))
reserve lim c call (f, none) =
    if call.has_client
    then (record_attempt lim c call.user f, none)
    else (count_skipped f, some (skip no_client))

-- `run` up to its first await: `none` when it goes on to send. `telethon` says whether its types can be imported.
unfoldable pub begin_run : Limits → Bool → Clock → Call → Fixer → Fixer × Option Result
begin_run lim telethon c call f =
    if not telethon
    then (count_skipped f, some (skip telethon_unavailable))
    else if call.user == 0
    then (count_skipped f, some (skip no_user_id))
    else if not call.has_access_hash && is_empty call.ladder
    then (count_skipped f, some (skip no_access_hash))
    else reserve lim c call (allowed lim c call.user f)

-- What a tier leads to: the end of the run, or the next tier with an error to remember and to report.
pub data Outcome : Type 0 where
  ends : Result → Outcome
  passes : Failure → Outcome
  absent : Outcome

unfoldable pub answer_outcome : Answer → Outcome
answer_outcome (delivered true) = ends ok
answer_outcome (delivered false) = passes entity_missing
answer_outcome write_forbidden = ends (skip forbidden)
answer_outcome slow_mode = ends (skip slowmode)
answer_outcome (flood_wait s) = ends (skip (floodwait s))
answer_outcome other_error = passes send_error
answer_outcome cancelled = ends gone

unfoldable pub tier_outcome : Tier → Outcome
tier_outcome t =
    if not t.has_user
    then absent
    else if not t.builds
    then passes entity_build
    else answer_outcome t.answer

-- How the run ends: the counters, and the lock after a forbidden message.
unfoldable pub conclude : Result → Fixer → Fixer
conclude ok f = count_success f
conclude (fail e) f = count_failure f
conclude (skip forbidden) f = disable_for_broadcast f
conclude (skip s) f = count_skipped f
conclude gone f = f

-- `last_err` after a tier
unfoldable pub next_error : Failure → Outcome → Failure
next_error last (ends r) = last
next_error last (passes e) = e
next_error last absent = last

-- A tier that ends the run returns; after the others the rest of the ladder is tried.
unfoldable pub after_tier : ℕ → Outcome → Result × List (ℕ × Failure) → Result × List (ℕ × Failure)
after_tier name (ends r) rest = (r, [])
after_tier name (passes e) rest = (rest.0, (name, e) ∷ rest.1)
after_tier name absent rest = rest

-- The loop over the ladder, with the last error: its result, and the tiers told to `on_tier_fail`.
unfoldable pub try_tiers : Failure → List Tier → Result × List (ℕ × Failure)
try_tiers last [] = (fail last, [])
try_tiers last (t ∷ ts) =
    after_tier t.name (tier_outcome t) (try_tiers (next_error last (tier_outcome t)) ts)

unfoldable pub direct_result : Tier → Result
direct_result t = if not t.builds then fail entity_build else elim (answer_outcome t.answer) [
  | ends r ↦ r
  | passes e ↦ fail e
  | absent ↦ fail send_error
]

-- The part of `run` after the reservation.
unfoldable pub finish_run : Call → Fixer → Fixer × Result × List (ℕ × Failure)
finish_run call f =
    let (r, told) =
      if call.sleep_cancelled
      then (gone, [])
      else if is_empty call.ladder
      then (direct_result call.direct, [])
      else try_tiers empty_ladder call.ladder in
    (conclude r f, r, told)
