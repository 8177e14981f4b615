-- ===== src/ReplyFix/Tests.antt =====
-- Runs of the compensating reply on concrete clocks, and the witnesses of its theorems.
use telegram_br.Base.{
  ℕ, ◌+◌, ◌≤◌, ◌≡◌, refl, true, false, List, [], ◌∷◌, arith, seconds, count_window,
}
use telegram_br.ReplyFix.{
  Clock, Limits, Fixer, limits, init, hour, rollover_day, is_busy, allowed, make_room, record_stamp,
  record_attempt, count_skipped, count_failure, count_success, disable_for_broadcast,
}
use telegram_br.ReplyFix.Run.{
  Tier, Call, Answer, delivered, write_forbidden, other_error, ok, skip, forbidden, reserve,
  is_empty, begin_run, finish_run, conclude, answer_outcome, tier_outcome, next_error, after_tier,
  try_tiers, direct_result,
}
use telegram_br.ReplyFix.Hourly.{
  Action, begins, finishes, goes_on, perform, reservations, reservations-hourly,
}
use telegram_br.ReplyFix.Daily.{sends}
use telegram_br.ReplyFix.Restart.{
  round_milliseconds, keep_stamps, keep_users, snapshot_state, restore_stamps, restore_users,
  restore_day, restore_state, saved_users, restarted, begin_run-restarted,
}

abbrev clock : ℕ → Clock
clock s = record { monotonic = seconds (s + 4000); epoch = seconds (s + 9000); yday = 7 }

abbrev tier : Answer → Tier
tier a = record { name = 1; has_user = true; builds = true; answer = a }

abbrev call_of : ℕ → List Tier → Call
call_of u tiers = record {
  user = u;
  has_access_hash = true;
  ladder = tiers;
  has_client = true;
  direct = tier (delivered true);
  sleep_cancelled = false;
}

abbrev call : Call
call = call_of 5 (tier other_error ∷ tier (delivered true) ∷ [])

abbrev barred : Call
barred = call_of 5 (tier write_forbidden ∷ [])

abbrev lim : Limits
lim = record { enabled = true; hourly_per_user = 1; daily_cap = 2; max_tracked_users = 16 }

-- Two runs for one sender that overlap, and one an hour later.
abbrev overlap : List Action
overlap =
    begins (clock 0) call ∷ begins (clock 1) call ∷ finishes call ∷ begins (clock 3600) call ∷ []

program : Unit {0}
unfolding rollover_day is_busy allowed make_room record_stamp record_attempt count_skipped
    count_failure count_success disable_for_broadcast reserve is_empty begin_run finish_run conclude
    answer_outcome tier_outcome next_error after_tier try_tiers direct_result perform limits init
    round_milliseconds keep_stamps keep_users snapshot_state restore_stamps restore_users
    restore_day restore_state saved_users
program = tt

reservations-overlap :
    reservations lim true 5 overlap (init (clock 0)) ≡ seconds 4000 ∷ seconds 7600 ∷ []
unfolding program reservations
reservations-overlap = refl

sends-overlap : sends lim true overlap (init (clock 0)) ≡ 2
unfolding program sends
sends-overlap = refl

finish_run-second : (finish_run call (init (clock 0))).1 ≡ ok
unfolding program
finish_run-second = refl

-- A quarter of a millisecond is lost in the snapshot, the even one of two neighbours stays.
round_milliseconds-even : round_milliseconds 1250250 + round_milliseconds 500 ≡ 1250000
unfolding program
round_milliseconds-even = refl

reservations-hourly_example :
    count_window hour
      (seconds 4000)
      (reservations (limits true 1 2 0) true 5 overlap (init (clock 0)))
    ≤ 1
reservations-hourly_example =
    reservations-hourly true true 1 2 0 (clock 0) overlap (5 ∷ []) 5 (seconds 4000) (omega arith)
      (refl, (refl, (tt, (refl, tt)))) (omega arith, (omega arith, (omega arith, tt)))

finish_run-barred : (finish_run barred (init (clock 0))).1 ≡ skip forbidden
unfolding program
finish_run-barred = refl

some_tiers : is_empty call.ladder ≡ false
unfolding is_empty
some_tiers = refl

-- One attempt of the user 5, before the restart that takes ten seconds.
abbrev used : Fixer
used = record {
  hour_history = (5, seconds 4000 ∷ []) ∷ [];
  day_key = 7;
  day_count = 1;
  broadcast_disabled = false;
  dirty = true;
  metrics = record { success = 0; failure = 0; skipped = 0 };
}

abbrev rebooted : Clock
rebooted = record { monotonic = seconds 3700; epoch = seconds 9070; yday = 7 }

begin_run-restarted_example :
    goes_on
      (begin_run lim true
        (record rebooted { monotonic = seconds 3800 })
        call
        (restarted lim (clock 60) rebooted used)).1
    ≡ false
begin_run-restarted_example =
    begin_run-restarted lim true (clock 60) rebooted (record rebooted { monotonic = seconds 3800 })
      used call (seconds 4000 ∷ []) (refl, tt) (omega arith) refl (omega arith)
      (omega arith, omega arith, omega arith, omega arith) (omega arith) (omega arith)
