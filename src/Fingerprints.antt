-- ===== src/Fingerprints.antt =====
-- The table `alert_dedup` and the methods of `EnhancedDatabase` (database.py) that claim, release,
-- steal and clean its rows. A method is one step here. That is what the transaction of the
-- PostgreSQL branch makes of a claim; on SQLite each statement of a claim is its own transaction and
-- is awaited on its own, so that there the model tells what a claim does when no other process works
-- on the row between its statements. A row's column `sender_id`, which is always NULL, is left out. Fingerprints are only compared, so they are numbers.
pub mod Laws
use telegram_br.Base.{
  ℕ, ◌+◌, ◌-◌, max, Bool, true, false, Option, none, some, [], ◌∷◌, ltb, if◌then◌else◌, is_some,
  Time, seconds, Dict, lookup, insert, erase, length, keep, not,
}

pub record Row : Type 0 where
  pub first_seen : Time
  pub last_seen : Time
  pub hits : ℕ

abbrev pub Table : Type 0
Table = Dict Row

abbrev pub new_row : Time → Row
new_row now = record { first_seen = now; last_seen = now; hits = 1 }

-- A row counts as expired for a claim at `now`.
abbrev pub is_expired : Row → Time → ℕ → Bool
is_expired row now window_hint = ltb (seconds (max 1 window_hint)) (now - row.last_seen)

-- What follows an insertion that was ignored, by the row that the SELECT finds.
unfoldable pub claim_row : ℕ → Time → ℕ → Table → Option Row → Table × Bool
claim_row fingerprint first_seen window_hint table none = (table, true)
claim_row fingerprint first_seen window_hint table (some row) =
    if is_expired row first_seen window_hint
    then (insert fingerprint (new_row first_seen) table, true)
    else (
      insert fingerprint (record row { last_seen = first_seen; hits = row.hits + 1 }) table,
      false,
    )

unfoldable pub claim_alert_fingerprint : ℕ → Time → ℕ → Table → Table × Bool
unfolding claim_row
claim_alert_fingerprint fingerprint first_seen window_hint table =
    if is_some (lookup fingerprint table)
    then claim_row fingerprint first_seen window_hint table (lookup fingerprint table)
    else (insert fingerprint (new_row first_seen) table, true)

unfoldable pub release_alert_fingerprint : ℕ → Table → Table
release_alert_fingerprint fingerprint table = erase fingerprint table

-- `DELETE … WHERE fingerprint = ? AND last_seen < ?`, and whether a row went.
unfoldable pub steal_stale_alert_fingerprint : ℕ → Time → Time → Table → Table × Bool
steal_stale_alert_fingerprint fingerprint min_age now table = elim (lookup fingerprint table) [
  | none ↦ (table, false)
  | some row ↦
      if ltb row.last_seen (now - max (seconds 1) min_age)
      then (erase fingerprint table, true)
      else (table, false)
]

-- `DELETE … WHERE last_seen < ?`, and how many rows went.
unfoldable pub cleanup_alert_fingerprints : ℕ → Time → Table → Table × ℕ
cleanup_alert_fingerprints max_age_seconds now table =
    let kept =
      keep (λ (e : ℕ × Row). not (ltb e.1.last_seen (now - seconds (max 1 max_age_seconds))))
        table in
    (kept, length table - length kept)
