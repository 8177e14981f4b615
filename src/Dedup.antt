-- ===== src/Dedup.antt =====
-- `AlertDeduplicator` (dedup.py): the claims in memory, and each method over the table of
-- Fingerprints. A database call takes its `Outcome`: it runs, or it raises and leaves some table.
-- A coroutine is cut where it awaits the database, so that workers can be interleaved.
pub mod Memory
pub mod Workers
pub mod Claims
mod Tests
use telegram_br.Base.{
  ℕ, zero, suc, ◌+◌, ◌-◌, ◌*◌, ◌/◌, ◌%◌, ◌≤◌, ◌<◌, min, max, ◌≡◌, refl, sym, ap, ◌∙◌, ◌≢◌, ◌↔◌, ◌⊎◌,
  inl, inr, Bool, true, false, not, ◌&&◌, ◌||◌, Option, none, some, List, [], ◌∷◌, ◌++◌, map, arith,
  ltb, leb, ◌==◌, if◌then◌else◌, is_some, Bool-cases, Option-cases, Time, seconds, length,
  get_elem?, take, drop, keep, any, count_by, All, length-append, length-drop, elem, distinct, Dict,
  lookup, insert, erase, insert_last, keep_last, lookup-insert, lookup-insert_self, lookup-erase,
  lookup-insert_last, length-insert-le, length-erase-le, ==_iff, ==_refl, leb_iff, ltb_iff,
  length-keep-le, lookup-append,
}
use telegram_br.Fingerprints.{
  Table, claim_alert_fingerprint, release_alert_fingerprint, steal_stale_alert_fingerprint,
  cleanup_alert_fingerprints,
}

-- The settings, and what the constructor fixes.
pub record Config : Type 0 where
  pub enabled : Bool
  pub window_seconds : ℕ
  pub mem_max : ℕ
  pub has_db : Bool

pub record Stats : Type 0 where
  pub claimed : ℕ
  pub blocked : ℕ
  pub released : ℕ
  pub db_errors : ℕ
  pub expired : ℕ
  pub db_cleaned : ℕ
  pub stolen : ℕ
  pub steal_denied : ℕ

pub record Dedup : Type 0 where
  pub mem : Dict Time
  pub stats : Stats

abbrev pub no_stats : Stats
no_stats = record {
  claimed = 0;
  blocked = 0;
  released = 0;
  db_errors = 0;
  expired = 0;
  db_cleaned = 0;
  stolen = 0;
  steal_denied = 0;
}

-- `AlertDeduplicator(db, mem_max)`
unfoldable pub init : Bool → ℕ → Config → Config × Dedup
init has_db mem_max settings = (
  record settings { mem_max = max 256 mem_max; has_db = has_db },
  record { mem = []; stats = no_stats },
)

-- How a database call ends.
pub data Outcome : Type 0 where
  runs : Outcome
  raises : Table → Outcome

module _ (c : Config) where
  mem_has_entry : Dedup → ℕ → Time → Option Time → Dedup × Bool
  mem_has_entry d fp now none = (d, false)
  mem_has_entry d fp now (some ts) =
      if ltb (seconds c.window_seconds) (now - ts)
      then (
        record d { mem = erase fp d.mem; stats = record d.stats { expired = d.stats.expired + 1 } },
        false,
      )
      else (d, true)

  unfoldable pub mem_has : Dedup → ℕ → Time → Dedup × Bool
  unfolding mem_has_entry
  mem_has d fp now = mem_has_entry d fp now (lookup fp d.mem)

  unfoldable pub mem_claim : Dedup → ℕ → Time → Dedup
  mem_claim d fp now = record d { mem = keep_last c.mem_max (insert_last fp now d.mem) }

unfoldable pub mem_release : Dedup → ℕ → Dedup
mem_release d fp = record d { mem = erase fp d.mem }

-- Where `check_and_claim` stands after its part in memory: it has returned, or it awaits the
-- database's answer to a claim at a time.
pub data Progress : Type 0 where
  returned : Bool → Progress
  awaits : Time → Progress

abbrev pub note_claimed : Dedup → Dedup
note_claimed d = record d { stats = record d.stats { claimed = d.stats.claimed + 1 } }

abbrev pub note_blocked : Dedup → Dedup
note_blocked d = record d { stats = record d.stats { blocked = d.stats.blocked + 1 } }

abbrev pub note_db_error : Dedup → Dedup
note_db_error d = record d { stats = record d.stats { db_errors = d.stats.db_errors + 1 } }

abbrev pub note_released : Dedup → Dedup
note_released d = record d { stats = record d.stats { released = d.stats.released + 1 } }

abbrev pub note_stolen : Dedup → Dedup
note_stolen d = record d { stats = record d.stats { stolen = d.stats.stolen + 1 } }

abbrev pub note_denied : Dedup → Dedup
note_denied d = record d { stats = record d.stats { steal_denied = d.stats.steal_denied + 1 } }

release_row : Outcome → ℕ → Table → Table
release_row runs fp t = release_alert_fingerprint fp t
release_row (raises t') fp t = t'

steal_row : Outcome → Dedup → ℕ → Time → Time → Table → Dedup × Table × Bool
unfolding mem_release
steal_row (raises t') d fp age now t = (note_denied d, t', false)
steal_row runs d fp age now t =
    let (t', stolen) = steal_stale_alert_fingerprint fp age now t in
    if stolen then (note_stolen (mem_release d fp), t', true) else (note_denied d, t', false)

module _ (c : Config) where
  -- The part of `check_and_claim` up to the call of the database, with no await inside.
  unfoldable pub begin_claim : Dedup → ℕ → Time → Dedup × Progress
  begin_claim d fp now =
      if not c.enabled || c.window_seconds == 0
      then (d, returned true)
      else (let (d', known) = mem_has c d fp now in
          if known
          then (note_blocked d', returned false)
          else (let d'' = mem_claim c d' fp now in
              if c.has_db then (d'', awaits now) else (note_claimed d'', returned true)))

  -- The rest of it, from the database's answer on.
  unfoldable pub finish_claim : Outcome → Dedup → ℕ → Time → Table → Dedup × Table × Bool
  finish_claim (raises t') d fp now t = (note_claimed (note_db_error d), t', true)
  finish_claim runs d fp now t =
      let (t', claimed) = claim_alert_fingerprint fp now c.window_seconds t in
      if claimed then (note_claimed d, t', true) else (note_blocked d, t', false)

  resume_claim : Outcome → ℕ → Table → Dedup × Progress → Dedup × Table × Bool
  unfolding finish_claim
  resume_claim o fp t (d, returned b) = (d, t, b)
  resume_claim o fp t (d, awaits now) = finish_claim o d fp now t

  unfoldable pub check_and_claim : Outcome → Dedup → ℕ → Time → Table → Dedup × Table × Bool
  unfolding begin_claim resume_claim
  check_and_claim o d fp now t = resume_claim o fp t (begin_claim d fp now)

  unfoldable pub release : Outcome → Dedup → ℕ → Table → Dedup × Table
  unfolding mem_release release_row
  release o d fp t = (note_released (mem_release d fp), if c.has_db then release_row o fp t else t)

  unfoldable pub steal_if_stale : Outcome → Dedup → ℕ → Time → Time → Table → Dedup × Table × Bool
  unfolding mem_release steal_row
  steal_if_stale o d fp age now t =
      if c.has_db then steal_row o d fp age now t else (note_stolen (mem_release d fp), t, true)

  cleanup_rows : Outcome → Dedup → Time → Table → Dedup × Table × ℕ
  cleanup_rows (raises t') d now t = (d, t', 0)
  cleanup_rows runs d now t =
      let (t', deleted) = cleanup_alert_fingerprints c.window_seconds now t in
      (
        record d { stats = record d.stats { db_cleaned = d.stats.db_cleaned + deleted } },
        t',
        deleted,
      )

  unfoldable pub cleanup_expired : Outcome → Dedup → Time → Table → Dedup × Table × ℕ
  unfolding cleanup_rows
  cleanup_expired o d now t =
      if c.window_seconds == 0 || not c.has_db then (d, t, 0) else cleanup_rows o d now t
