-- ===== src/Dedup/Workers.antt =====
-- Worker tasks of several processes over one table: the memory of each process, the claims that
-- wait for the database, and the claims that have won, under any interleaving of their steps.
pub mod Once
use telegram_br.Base.{
  ℕ, zero, suc, ◌+◌, ◌-◌, ◌*◌, ◌/◌, ◌%◌, ◌≤◌, ◌<◌, min, max, ◌≡◌, refl, sym, ap, ◌∙◌, ◌≢◌, ◌↔◌, ◌⊎◌,
  inl, inr, Bool, true, false, not, ◌&&◌, ◌||◌, Option, none, some, List, [], ◌∷◌, ◌++◌, map, arith,
  ltb, leb, ◌==◌, if◌then◌else◌, is_some, Bool-cases, Option-cases, Time, seconds, length,
  get_elem?, take, drop, keep, any, count_by, All, length-append, length-drop, elem, distinct, Dict,
  lookup, insert, erase, insert_last, keep_last, lookup-insert, lookup-insert_self, lookup-erase,
  lookup-insert_last, length-insert-le, length-erase-le, ==_iff, ==_refl, leb_iff, ltb_iff,
  length-keep-le, lookup-append,
}
use telegram_br.Fingerprints.{Table}
use telegram_br.Dedup.{
  Config, Dedup, Progress, returned, awaits, Outcome, no_stats, begin_claim, finish_claim, release,
  steal_if_stale, cleanup_expired,
}

-- A claim of process `proc` that was sent to the database at a time.
pub record Ticket : Type 0 where
  pub proc : ℕ
  pub fp : ℕ
  pub since : Time

pub record System : Type 0 where
  pub procs : ℕ → Dedup
  pub table : Table
  pub pending : List Ticket
  pub wins : List ℕ

pub data Action : Type 0 where
  claim : ℕ → ℕ → Time → Action
  reply : ℕ → Outcome → Action
  release_claim : ℕ → ℕ → Outcome → Action
  steal : ℕ → ℕ → Time → Time → Outcome → Action
  cleanup : ℕ → Time → Outcome → Action
  restart : ℕ → Action

abbrev update : (ℕ → Dedup) → ℕ → Dedup → ℕ → Dedup
update procs p d q = if p == q then d else procs q

abbrev remove_at : ℕ → List Ticket → List Ticket
remove_at k [] = []
remove_at zero (x ∷ xs) = xs
remove_at (suc k) (x ∷ xs) = x ∷ remove_at k xs

-- What a claim in memory leaves: an answer, or a ticket at the database.
unfoldable pub after_begin : System → ℕ → ℕ → Dedup × Progress → System
after_begin s p f (d, returned true) = record s { procs = update s.procs p d; wins = f ∷ s.wins }
after_begin s p f (d, returned false) = record s { procs = update s.procs p d }
after_begin s p f (d, awaits now) = record s {
  procs = update s.procs p d;
  pending = record { proc = p; fp = f; since = now } ∷ s.pending;
}

unfoldable pub after_finish : System → Ticket → Dedup × Table × Bool → System
after_finish s tk (d, t, won) = record s {
  procs = update s.procs tk.proc d;
  table = t;
  wins = if won then tk.fp ∷ s.wins else s.wins;
}

module _ (c : Config) where
  -- The database answers the `k`-th waiting claim.
  unfoldable pub answer : System → ℕ → Outcome → Option Ticket → System
  answer s k o none = s
  answer s k o (some tk) =
      after_finish (record s { pending = remove_at k s.pending }) tk
        (finish_claim c o (s.procs tk.proc) tk.fp tk.since s.table)

  unfoldable pub step : System → Action → System
  step s (claim p f now) = after_begin s p f (begin_claim c (s.procs p) f now)
  step s (reply k o) = answer s k o (get_elem? s.pending k)
  step s (release_claim p f o) =
      let (d, t) = release c o (s.procs p) f s.table in
      record s { procs = update s.procs p d; table = t }
  step s (steal p f age now o) =
      let (d, t, _) = steal_if_stale c o (s.procs p) f age now s.table in
      record s { procs = update s.procs p d; table = t }
  step s (cleanup p now o) =
      let (d, t, _) = cleanup_expired c o (s.procs p) now s.table in
      record s { procs = update s.procs p d; table = t }
  step s (restart p) = record s {
    procs = update s.procs p (record { mem = []; stats = no_stats });
    pending = keep (λ (tk : Ticket). not (tk.proc == p)) s.pending;
  }

  unfoldable pub run : System → List Action → System
  run s [] = s
  run s (a ∷ as') = run (step s a) as'
