-- ===== src/Sending.antt =====
-- The claim that `EnhancedAccountMonitor._send_alert` (monitors.py) makes before it sends: the
-- receipt check, the claim of the content fingerprint, and the steal for a recovered event.
mod Recovery
mod Tests
use telegram_br.Base.{
  ℕ, zero, suc, ◌+◌, ◌-◌, ◌*◌, ◌/◌, ◌%◌, ◌≤◌, ◌<◌, min, max, ◌≡◌, refl, sym, ap, ◌∙◌, ◌≢◌, ◌↔◌, ◌⊎◌,
  inl, inr, Bool, true, false, not, ◌&&◌, ◌||◌, Option, none, some, List, [], ◌∷◌, ◌++◌, map, arith,
  ltb, leb, ◌==◌, if◌then◌else◌, is_some, Bool-cases, Option-cases, Time, seconds, length,
  get_elem?, take, drop, keep, any, count_by, All, length-append, length-drop, elem, distinct, Dict,
  lookup, insert, erase, insert_last, keep_last, lookup-insert, lookup-insert_self, lookup-erase,
  lookup-insert_last, length-insert-le, length-erase-le, ==_iff, ==_refl, leb_iff, ltb_iff,
  length-keep-le, lookup-append,
}
use telegram_br.Fingerprints.{Table}
use telegram_br.Dedup.{Config, Dedup, Outcome, check_and_claim, steal_if_stale}

-- When the calls of the clock fall, and how the database calls end.
pub record Calls : Type 0 where
  pub claim_at : Time
  pub claim_ends : Outcome
  pub steal_at : Time
  pub steal_ends : Outcome
  pub reclaim_at : Time
  pub reclaim_ends : Outcome

-- `DEDUP_RECOVERY_STEAL_MIN_AGE_SECONDS`, at least a second.
abbrev pub steal_age : ℕ → Time
steal_age min_age = seconds (max 1 min_age)

module _ (c : Config) (min_age : ℕ) where
  reclaim : Calls → ℕ → Dedup × Table × Bool → Dedup × Table × Bool
  reclaim q fp (d, t, false) = (d, t, false)
  reclaim q fp (d, t, true) = check_and_claim c q.reclaim_ends d fp q.reclaim_at t

  steal_and_reclaim : Calls → ℕ → Bool → Dedup × Table × Bool → Dedup × Table × Bool
  unfolding reclaim
  steal_and_reclaim q fp recovered (d, t, true) = (d, t, true)
  steal_and_reclaim q fp false (d, t, false) = (d, t, false)
  steal_and_reclaim q fp true (d, t, false) =
      reclaim q fp (steal_if_stale c q.steal_ends d fp (steal_age min_age) q.steal_at t)

  -- Whether the alert of an event goes on to be sent. `receipt` says that an alert was recorded
  -- for the message before, and is looked up for a recovered event only.
  pub claim_for_send : Calls → ℕ → (recovered receipt : Bool) → Dedup → Table → Dedup × Table × Bool
  unfolding steal_and_reclaim
  claim_for_send q fp recovered receipt d t =
      if recovered && receipt
      then (d, t, false)
      else steal_and_reclaim q fp recovered (check_and_claim c q.claim_ends d fp q.claim_at t)
