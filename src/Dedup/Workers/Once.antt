-- ===== src/Dedup/Workers/Once.antt =====
-- Across all workers, processes and restarts a fingerprint is won at most once in a window.
use telegram_br.Base.{
  ℕ, ◌+◌, ◌≤◌, ◌≡◌, ◌≢◌, ◌⊎◌, some, List, ◌==◌, Time, seconds, count_by, All, lookup,
}
use telegram_br.Fingerprints.{Row, Table}
use telegram_br.Dedup.{Config, Dedup, runs}
use telegram_br.Dedup.Workers.{
  Ticket, System, Action, claim, reply, release_claim, steal, cleanup, restart,
}

-- How often a fingerprint stands in the list of those that were won.
abbrev pub count_wins : ℕ → List ℕ → ℕ
count_wins fp = count_by (λ f. f == fp)

module _ (c : Config) (fp : ℕ) (t0 : Time) where
  abbrev InWindow : Time → Type 0
  InWindow now = (t0 ≤ now) × (now ≤ t0 + seconds c.window_seconds)

  -- An action that claims `fp` only within the window from `t0` on, that neither releases nor
  -- steals its claim, and whose database call succeeds.
  abbrev pub IsCalm : Action → Type 0
  IsCalm (claim p f now) = (f ≢ fp) ⊎ InWindow now
  IsCalm (reply k o) = o ≡ runs
  IsCalm (release_claim p f o) = (f ≢ fp) × (o ≡ runs)
  IsCalm (steal p f age now o) = (f ≢ fp) × (o ≡ runs)
  IsCalm (cleanup p now o) = (now ≤ t0 + seconds c.window_seconds) × (o ≡ runs)
  IsCalm (restart p) = Unit

  abbrev pub IsTimely : Ticket → Type 0
  IsTimely tk = (tk.fp ≢ fp) ⊎ InWindow tk.since

  -- The table holds a row of `fp` that was seen in the window.
  abbrev Held : Table → Type 0
  Held t = (row : Row) × (lookup fp t ≡ some row) × (t0 ≤ row.last_seen)

  -- Either `fp` has not been won, or it has been won once and its row is held.
  Counted : ℕ → Table → Type 0
  Counted n t = (n ≡ 0) ⊎ ((n ≡ 1) × Held t)

  record Inv (s : System) : Type 0 where
    timely : All IsTimely s.pending
    counted : Counted (count_wins fp s.wins) s.table
