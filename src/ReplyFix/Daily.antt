-- ===== src/ReplyFix/Daily.antt =====
-- The daily cap over all users, and the lock after a forbidden message.
use telegram_br.Base.{
  ℕ, ◌+◌, ◌≤◌, ◌<◌, max, ◌≡◌, refl, ap, ◌∙◌, ◌⊎◌, inl, inr, Bool, true, false, List, [], ◌∷◌, arith,
  ◌==◌, if◌then◌else◌, All,
}
use telegram_br.ReplyFix.{
  Clock, Limits, Fixer, rollover_day, record_attempt, count_skipped, count_failure, count_success,
  disable_for_broadcast,
}
use telegram_br.ReplyFix.Run.{
  Call, Result, ok, fail, skip, gone, forbidden, begin_run, finish_run, conclude,
}
use telegram_br.ReplyFix.Branches.{rollover_day-keeps, begin_run-by}
use telegram_br.ReplyFix.Hourly.{Action, begins, finishes, goes_on, perform}

-- The attempts that count for the day.
abbrev pub today : ℕ → Fixer → ℕ
today d f = if d == f.day_key then f.day_count else 0

module _ (lim : Limits) (telethon : Bool) where
  -- How many runs go on to send, whoever the user is.
  unfoldable pub sends : List Action → Fixer → ℕ
  sends [] f = 0
  sends (finishes call ∷ acts) f = sends acts (perform lim telethon (finishes call) f)
  sends (begins c call ∷ acts) f =
      (if goes_on (begin_run lim telethon c call f).1 then 1 else 0)
      + sends acts (perform lim telethon (begins c call) f)

abbrev pub IsOnDay : ℕ → Action → Type 0
IsOnDay d (begins c call) = c.yday ≡ d
IsOnDay d (finishes call) = Unit

rollover_day-today :
    (d : ℕ) (c : Clock) (f : Fixer)
    → c.yday ≡ d
    → ((rollover_day c f).day_count ≡ today d f) × (today d (rollover_day c f) ≡ today d f)
unfolding rollover_day
rollover_day-today d c f e = ground arith

record_attempt-today :
    (lim : Limits) (d : ℕ) (c : Clock) (u : ℕ) (f : Fixer)
    → c.yday ≡ d
    → today d (record_attempt lim c u f) ≡ today d f + 1
unfolding record_attempt rollover_day
record_attempt-today lim d c u f e = ground arith

conclude-today : (d : ℕ) (r : Result) (f : Fixer) → today d (conclude r f) ≡ today d f
unfolding conclude disable_for_broadcast count_skipped count_failure count_success
conclude-today d ok f = refl
conclude-today d (fail e) f = refl
conclude-today d (skip s) f = ground arith
conclude-today d gone f = refl

module _ (lim : Limits) (telethon : Bool) (d : ℕ) where
  begin_run-today :
      (c : Clock) (call : Call) (f : Fixer)
      → c.yday ≡ d
      → let p = begin_run lim telethon c call f in
        (goes_on p.1 ≡ false × (today d p.0 ≡ today d f))
        ⊎ ((goes_on p.1 ≡ true) × (today d f < lim.daily_cap) × (today d p.0 ≡ today d f + 1))
  unfolding count_skipped
  begin_run-today c call f e =
      begin_run-by lim c f
        (λ p.
          (goes_on p.1 ≡ false × (today d p.0 ≡ today d f))
          ⊎ ((goes_on p.1 ≡ true) × (today d f < lim.daily_cap) × (today d p.0 ≡ today d f + 1)))
        telethon call (λ r. inl (refl, refl)) (λ r. inl (refl, (rollover_day-today d c f e).1))
        (λ on free room idle. inr (
          refl,
          ground (arith, rollover_day-today d c f e),
          record_attempt-today lim d c call.user (rollover_day c f) e
              ∙ ap (λ n. n + 1) (rollover_day-today d c f e).1,
        ))

  sends-by :
      (acts : List Action) (f : Fixer)
      → All (IsOnDay d) acts
      → today d f + sends lim telethon acts f ≤ max lim.daily_cap (today d f)
  unfolding sends perform finish_run
  sends-by [] f h = omega arith
  sends-by (finishes call ∷ acts) f (k, h) =
      let g = (finish_run call f).0 in
      omega (arith, conclude-today d (finish_run call f).1 f, sends-by acts g h)
  sends-by (begins c call ∷ acts) f (k, h) =
      ground
        (arith, begin_run-today c call f k, sends-by acts (begin_run lim telethon c call f).0 h)

-- However the runs of a day overlap, those that send stay, together with the attempts already counted
-- for that day, within the daily cap; a count that is above the cap lets none through.
pub sends-daily :
    (lim : Limits) (telethon : Bool) (d : ℕ) (acts : List Action) (f : Fixer)
    → All (IsOnDay d) acts
    → today d f + sends lim telethon acts f ≤ max lim.daily_cap (today d f)
sends-daily lim telethon d acts f h = sends-by lim telethon d acts f h

module _ (lim : Limits) (telethon : Bool) where
  conclude-locked :
      (r : Result) (f : Fixer)
      → f.broadcast_disabled ≡ true
      → (conclude r f).broadcast_disabled ≡ true
  unfolding conclude disable_for_broadcast count_skipped count_failure count_success
  conclude-locked ok f h = h
  conclude-locked (fail e) f h = h
  conclude-locked (skip s) f h = ground arith
  conclude-locked gone f h = h

  begin_run-locked :
      (c : Clock) (call : Call) (f : Fixer)
      → f.broadcast_disabled ≡ true
      → let p = begin_run lim telethon c call f in
        (goes_on p.1 ≡ false) × (p.0.broadcast_disabled ≡ true)
  unfolding count_skipped
  begin_run-locked c call f h =
      begin_run-by lim c f (λ p. (goes_on p.1 ≡ false) × (p.0.broadcast_disabled ≡ true)) telethon
        call (λ r. (refl, h)) (λ r. (refl, (rollover_day-keeps c f).1 ∙ h))
        (λ on free room idle. absurd (ground arith))

  sends-locked :
      (acts : List Action) (f : Fixer) → f.broadcast_disabled ≡ true → sends lim telethon acts f ≡ 0
  unfolding sends perform finish_run
  sends-locked [] f h = refl
  sends-locked (finishes call ∷ acts) f h =
      sends-locked acts (finish_run call f).0 (conclude-locked (finish_run call f).1 f h)
  sends-locked (begins c call ∷ acts) f h =
      ground
        (arith, begin_run-locked c call f h, sends-locked acts (begin_run lim telethon c call f).0)

conclude-forbidden :
    (r : Result) (f : Fixer) → r ≡ skip forbidden → (conclude r f).broadcast_disabled ≡ true
unfolding conclude disable_for_broadcast count_skipped
conclude-forbidden r f e = rw e refl

-- After a run that was forbidden to write, no run sends any more, on this day or another.
pub sends-forbidden :
    (lim : Limits) (telethon : Bool) (call : Call) (acts : List Action) (f : Fixer)
    → (finish_run call f).1 ≡ skip forbidden
    → sends lim telethon acts (finish_run call f).0 ≡ 0
unfolding finish_run
sends-forbidden lim telethon call acts f e =
    sends-locked lim telethon acts (finish_run call f).0
      (conclude-forbidden (finish_run call f).1 f e)
