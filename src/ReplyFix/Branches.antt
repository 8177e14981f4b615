-- ===== src/ReplyFix/Branches.antt =====
-- The branches of the first part of a run.
use telegram_br.Base.{
  ℕ, ◌≡◌, refl, ◌∙◌, Bool, true, false, not, ◌&&◌, Option, none, some, arith, leb, ◌==◌, if-by,
  lookup,
}
use telegram_br.ReplyFix.{
  Clock, Limits, Fixer, Refusal, disabled, broadcast_target, daily_cap_reached, hourly_cap_reached,
  rollover_day, is_busy, allowed, record_stamp, record_attempt, count_skipped,
}
use telegram_br.ReplyFix.Run.{
  telethon_unavailable, no_user_id, no_access_hash, no_client, is_empty, Call, Result, skip,
  refused, reserve, begin_run,
}

pub rollover_day-keeps :
    (c : Clock) (f : Fixer)
    → ((rollover_day c f).hour_history ≡ f.hour_history)
      × ((rollover_day c f).broadcast_disabled ≡ f.broadcast_disabled)
unfolding rollover_day
rollover_day-keeps c f = ground arith

module _ (lim : Limits) (c : Clock) (f : Fixer) where
  allowed-by :
      (P : Fixer × Option Refusal → Type 0) (u : ℕ)
      → ((why : Refusal) → P (f, some why))
      → ((why : Refusal) → P (rollover_day c f, some why))
      → (lim.enabled ≡ true
          → f.broadcast_disabled ≡ false
          → leb lim.daily_cap (rollover_day c f).day_count ≡ false
          → is_busy lim c (lookup u f.hour_history) ≡ false
          → P (rollover_day c f, none))
      → P (allowed lim c u f)
  unfolding allowed
  allowed-by P u early late go =
      if-by P _ _ _ (λ off. early disabled)
        (λ on.
          if-by P _ _ _ (λ locked. early broadcast_target)
            (λ free.
              if-by P _ _ _ (λ full. late daily_cap_reached)
                (λ room.
                  if-by P _ _ _ (λ busy. late hourly_cap_reached)
                    (λ idle.
                      go (ground (arith, on)) free room (rw (← (rollover_day-keeps c f).0) idle)))))

  -- It ends the run and touches at most the day, or it makes the reservation that the limits allow.
  pub begin_run-by :
      (P : Fixer × Option Result → Type 0) (telethon : Bool) (call : Call)
      → ((r : Result) → P (count_skipped f, some r))
      → ((r : Result) → P (count_skipped (rollover_day c f), some r))
      → (lim.enabled ≡ true
          → f.broadcast_disabled ≡ false
          → leb lim.daily_cap (rollover_day c f).day_count ≡ false
          → is_busy lim c (lookup call.user f.hour_history) ≡ false
          → P (record_attempt lim c call.user (rollover_day c f), none))
      → P (begin_run lim telethon c call f)
  unfolding begin_run reserve
  begin_run-by P telethon call early late go =
      if-by P (not telethon) _ _ (λ e. early (skip telethon_unavailable))
        (λ e.
          if-by P (call.user == 0) _ _ (λ e. early (skip no_user_id))
            (λ e.
              if-by P (not call.has_access_hash && is_empty call.ladder) _ _
                (λ e. early (skip no_access_hash))
                (λ e.
                  allowed-by (λ p. P (reserve lim c call p)) call.user
                    (λ why. early (skip (refused why))) (λ why. late (skip (refused why)))
                    (λ on free room idle.
                      if-by P call.has_client _ _ (λ here. go on free room idle)
                        (λ lost. late (skip no_client))))))

pub record_attempt-hour_history :
    (lim : Limits) (c : Clock) (u : ℕ) (f : Fixer)
    → (record_attempt lim c u (rollover_day c f)).hour_history
      ≡ record_stamp lim c.monotonic u f.hour_history (lookup u f.hour_history)
unfolding record_attempt
record_attempt-hour_history lim c u f =
    (rollover_day-keeps c (record (rollover_day c f) { hour_history = _ })).0
    ∙ rw (rollover_day-keeps c f).0 refl
