-- ===== src/Sending/Recovery.antt =====
-- When a recovered event gets the claim that a crashed attempt left behind.
use telegram_br.Base.{
  ℕ, ◌+◌, ◌≤◌, ◌<◌, ◌≡◌, refl, ap, Bool, true, false, none, some, arith, Time, seconds, lookup,
  erase, lookup-erase,
}
use telegram_br.Fingerprints.{Row, Table}
use telegram_br.Dedup.{
  Config, Dedup, runs, check_and_claim, steal_if_stale, note_blocked, note_stolen, mem_release,
}
use telegram_br.Dedup.Claims.{
  IsOn, check_and_claim_first, check_and_claim_restarted, steal_if_stale-fresh,
  steal_if_stale-stale, lookup-mem_release, check_and_claim-known,
}
use telegram_br.Sending.{Calls, steal_age, steal_and_reclaim, claim_for_send}

-- The database answers each call, and the clock does not run back.
pub record Answers (q : Calls) : Type 0 where
  pub claim_ends : q.claim_ends ≡ runs
  pub steal_ends : q.steal_ends ≡ runs
  pub reclaim_ends : q.reclaim_ends ≡ runs

module _ (c : Config) (min_age : ℕ) (q : Calls) (fp : ℕ) (d : Dedup) (t : Table) (row : Row)
    (on : IsOn c) (ans : Answers q) where
  steal_and_reclaim-denied :
      (r : Dedup × Table × Bool)
      → r.2 ≡ false
      → (d' : Dedup)
      → steal_if_stale c runs r.0 fp (steal_age min_age) q.steal_at r.1 ≡ (d', r.1, false)
      → steal_and_reclaim c min_age q fp true r ≡ (d', r.1, false)
  unfolding steal_and_reclaim
  steal_and_reclaim-denied (d1, t1, true) e d' h = cc
  steal_and_reclaim-denied (d1, t1, false) e d' h = rw (ans.steal_ends, h) refl

  steal_and_reclaim-stolen :
      (r : Dedup × Table × Bool)
      → r.2 ≡ false
      → (d' : Dedup) (t' : Table)
      → steal_if_stale c runs r.0 fp (steal_age min_age) q.steal_at r.1 ≡ (d', t', true)
      → steal_and_reclaim c min_age q fp true r ≡ check_and_claim c runs d' fp q.reclaim_at t'
  unfolding steal_and_reclaim
  steal_and_reclaim-stolen (d1, t1, true) e d' t' h = cc
  steal_and_reclaim-stolen (d1, t1, false) e d' t' h = simp (ans.steal_ends, h, ans.reclaim_ends)

  -- In a process that has lost its memory in a restart, a recovered event does not get the claim of
  -- the crashed attempt, however old that claim is within the window: the failed claim has marked
  -- the row as seen now, so that the steal right after it finds a fresh row.
  pub claim_for_send-restarted :
      lookup fp d.mem ≡ none
      → lookup fp t ≡ some row
      → q.claim_at ≤ row.last_seen + seconds c.window_seconds
      → q.steal_at ≤ q.claim_at + steal_age min_age
      → (claim_for_send c min_age q fp true false d t).2 ≡ false
  unfolding claim_for_send
  claim_for_send-restarted unknown held near soon =
      let first = check_and_claim c runs d fp q.claim_at t in
      let lost = check_and_claim_restarted c d fp q.claim_at t row on unknown held near in
      let denied =
        steal_if_stale-fresh c first.0 fp (steal_age min_age) q.steal_at first.1 _ on lost.1 soon in
      simp ans.claim_ends (ap (λ r. r.2) (steal_and_reclaim-denied first lost.0 _ denied))

  -- In the process that made the claim, a recovered event that has no receipt of an alert takes over
  -- the claim, when the claim in memory is still within the window, the row of the table is older
  -- than the minimal age, the protection is on, and the database answers all three calls: the claim,
  -- the takeover and the claim after it.
  pub claim_for_send-takes_over :
      (ts : Time)
      → lookup fp d.mem ≡ some ts
      → q.claim_at ≤ ts + seconds c.window_seconds
      → lookup fp t ≡ some row
      → row.last_seen + steal_age min_age < q.steal_at
      → (claim_for_send c min_age q fp true false d t).2 ≡ true
  unfolding claim_for_send
  claim_for_send-takes_over ts known near held stale =
      let blocked = check_and_claim-known c d fp q.claim_at ts t on known near in
      let stolen =
        steal_if_stale-stale c (note_blocked d) fp (steal_age min_age) q.steal_at t row on held
          (omega arith) in
      let d' = note_stolen (mem_release (note_blocked d) fp) in
      simp (ans.claim_ends, blocked)
        (rw (steal_and_reclaim-stolen (note_blocked d, t, false) refl d' (erase fp t) stolen)
          (check_and_claim_first c d' fp q.reclaim_at (erase fp t) on
            (lookup-mem_release c (note_blocked d) fp) (ground (arith, lookup-erase fp fp t))).0)

  -- A claim that a live worker made less than the minimal age ago is left to that worker.
  pub claim_for_send-fresh :
      (ts : Time)
      → lookup fp d.mem ≡ some ts
      → q.claim_at ≤ ts + seconds c.window_seconds
      → lookup fp t ≡ some row
      → q.steal_at ≤ row.last_seen + steal_age min_age
      → (receipt : Bool)
      → ((claim_for_send c min_age q fp true receipt d t).2 ≡ false)
        × ((claim_for_send c min_age q fp true receipt d t).1 ≡ t)
  unfolding claim_for_send
  claim_for_send-fresh ts known near held fresh true = (refl, refl)
  claim_for_send-fresh ts known near held fresh false =
      let blocked = check_and_claim-known c d fp q.claim_at ts t on known near in
      let denied =
        steal_if_stale-fresh c (note_blocked d) fp (steal_age min_age) q.steal_at t row on held
          fresh in
      let all = steal_and_reclaim-denied (note_blocked d, t, false) refl _ denied in
      simp (ans.claim_ends, blocked) (ap (λ r. r.2) all, ap (λ r. r.1) all)
