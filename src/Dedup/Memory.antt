-- ===== src/Dedup/Memory.antt =====
-- The claims in memory: bounded, fresh, and released by what releases them.
use telegram_br.Base.{
  ℕ, ◌+◌, ◌≤◌, ◌<◌, ◌≡◌, refl, ◌≢◌, ◌⊎◌, inl, inr, true, false, some, arith, Bool-cases,
  Option-cases, Time, seconds, length, lookup, insert_last, length-erase-le, length-keep_last-le,
  lookup-keep_last,
}
use telegram_br.Dedup.{
  Config, Dedup, Progress, returned, awaits, begin_claim, mem_has, mem_claim, check_and_claim,
  finish_claim, resume_claim, note_blocked, Outcome, runs, raises,
}
use telegram_br.Fingerprints.{Table}

module _ (c : Config) (d : Dedup) (fp : ℕ) (now : Time) where
  length-mem_has : length (mem_has c d fp now).0.mem ≤ length d.mem
  unfolding mem_has
  length-mem_has = elim (Option-cases (lookup fp d.mem)) [
    | inl e ↦ rw e (omega arith)
    | inr (ts, e) ↦ rw e (ground (arith, length-erase-le fp d.mem))
  ]

  pub mem_has-fresh :
      (ts : Time)
      → lookup fp d.mem ≡ some ts
      → now ≤ ts + seconds c.window_seconds
      → mem_has c d fp now ≡ (d, true)
  unfolding mem_has
  mem_has-fresh ts e h = rw e (ground arith)

  pub length-mem_claim-le : length (mem_claim c d fp now).mem ≤ c.mem_max
  unfolding mem_claim
  length-mem_claim-le = length-keep_last-le c.mem_max (insert_last fp now d.mem)

  pub lookup-mem_claim : 0 < c.mem_max → lookup fp (mem_claim c d fp now).mem ≡ some now
  unfolding mem_claim
  lookup-mem_claim h = lookup-keep_last c.mem_max fp now d.mem h

module _ (c : Config) (d : Dedup) (fp : ℕ) (now : Time) where
  -- The memory never holds more claims than `mem_max`.
  pub begin_claim-bounded :
      length d.mem ≤ c.mem_max → length (begin_claim c d fp now).0.mem ≤ c.mem_max
  unfolding begin_claim
  begin_claim-bounded h =
      ground (arith, length-mem_has c d fp now, length-mem_claim-le c (mem_has c d fp now).0 fp now)

  -- A claim that passes the memory is remembered at its time.
  pub begin_claim-remembers :
      c.enabled ≡ true
      → 0 < c.window_seconds
      → 0 < c.mem_max
      → (begin_claim c d fp now).1 ≢ returned false
      → lookup fp (begin_claim c d fp now).0.mem ≡ some now
  unfolding begin_claim
  begin_claim-remembers e w m r = ground (arith, lookup-mem_claim c (mem_has c d fp now).0 fp now)

  -- A fingerprint in memory is refused until its window ends, and the memory stays.
  pub begin_claim-blocked :
      (ts : Time)
      → c.enabled ≡ true
      → 0 < c.window_seconds
      → lookup fp d.mem ≡ some ts
      → now ≤ ts + seconds c.window_seconds
      → begin_claim c d fp now ≡ (note_blocked d, returned false)
  unfolding begin_claim
  begin_claim-blocked ts e w known h = ground (arith, mem_has-fresh c d fp now ts)

module _ (c : Config) where
  finish_claim-mem :
      (o : Outcome) (d : Dedup) (fp : ℕ) (now : Time) (t : Table)
      → (finish_claim c o d fp now t).0.mem ≡ d.mem
  unfolding finish_claim
  finish_claim-mem runs d fp now t = ground arith
  finish_claim-mem (raises t') d fp now t = refl

  resume_claim-mem :
      (o : Outcome) (fp : ℕ) (t : Table) (s : Dedup × Progress)
      → (resume_claim c o fp t s).0.mem ≡ s.0.mem
  unfolding resume_claim
  resume_claim-mem o fp t (d, returned b) = refl
  resume_claim-mem o fp t (d, awaits now) = finish_claim-mem o d fp now t

  resume_claim-true :
      (o : Outcome) (fp : ℕ) (t : Table) (s : Dedup × Progress)
      → (resume_claim c o fp t s).2 ≡ true
      → s.1 ≢ returned false
  unfolding resume_claim
  resume_claim-true o fp t (d, returned b) h = ground arith
  resume_claim-true o fp t (d, awaits now) h = ground arith

  -- Once a claim has succeeded, whatever the database did, every claim of the same fingerprint in
  -- this process within the window is refused, and leaves the table alone.
  pub check_and_claim_twice :
      (o o' : Outcome) (d : Dedup) (fp : ℕ) (now later : Time) (t t' : Table)
      → c.enabled ≡ true
      → 0 < c.window_seconds
      → 0 < c.mem_max
      → (check_and_claim c o d fp now t).2 ≡ true
      → later ≤ now + seconds c.window_seconds
      → let d' = (check_and_claim c o d fp now t).0 in
        check_and_claim c o' d' fp later t' ≡ (note_blocked d', t', false)
  unfolding check_and_claim
  check_and_claim_twice o o' d fp now later t t' e w m won near =
      let s = begin_claim c d fp now in
      let kept = begin_claim-remembers c d fp now e w m (resume_claim-true o fp t s won) in
      rw
        (begin_claim-blocked c (resume_claim c o fp t s).0 fp later now e w
          (rw (resume_claim-mem o fp t s) kept) near)
        refl

  -- With a database, a claim in memory is refused or goes on to the database.
  pub begin_claim-asks :
      (d : Dedup) (fp : ℕ) (now : Time)
      → c.enabled ≡ true
      → c.has_db ≡ true
      → 0 < c.window_seconds
      → (d' : Dedup) × ((begin_claim c d fp now ≡ (d', returned false))
          ⊎ (begin_claim c d fp now ≡ (d', awaits now)))
  unfolding begin_claim
  begin_claim-asks d fp now e db w = elim (Bool-cases (mem_has c d fp now).1) [
    | inl known ↦ (note_blocked (mem_has c d fp now).0, inl (ground arith))
    | inr new ↦ (mem_claim c (mem_has c d fp now).0 fp now, inr (ground arith))
  ]
