-- ===== src/Dedup/Claims.antt =====
-- What one caller sees of claim, release and steal, in memory and in the table together.
use telegram_br.Base.{
  ℕ, ◌+◌, ◌-◌, ◌≤◌, ◌<◌, max, ◌≡◌, refl, true, false, none, some, arith, ltb, Time, seconds, lookup,
  erase, lookup-insert_self, lookup-erase,
}
use telegram_br.Fingerprints.{
  Row, Table, claim_alert_fingerprint, release_alert_fingerprint, steal_stale_alert_fingerprint,
  new_row, claim_row,
}
use telegram_br.Fingerprints.Laws.{steal_fresh}
use telegram_br.Dedup.{
  Config, Dedup, awaits, runs, begin_claim, finish_claim, check_and_claim, release, mem_has,
  mem_claim, mem_release, steal_if_stale, steal_row, note_stolen, note_denied, note_released,
  note_blocked,
}
use telegram_br.Dedup.Memory.{begin_claim-blocked}

module _ (c : Config) where
  -- The protection is on, and there is a database.
  pub record IsOn : Type 0 where
    pub enabled : c.enabled ≡ true
    pub has_db : c.has_db ≡ true
    pub window : 0 < c.window_seconds

module _ (c : Config) (d : Dedup) (fp : ℕ) (now : Time) where
  -- A fingerprint that is not in memory goes to the database.
  begin_claim-unknown :
      IsOn c → lookup fp d.mem ≡ none → begin_claim c d fp now ≡ (mem_claim c d fp now, awaits now)
  unfolding begin_claim mem_has
  begin_claim-unknown on e = rw e (ground arith)

  -- A fingerprint in memory is refused within the window, and the table is not asked.
  pub check_and_claim-known :
      (ts : Time) (t : Table)
      → IsOn c
      → lookup fp d.mem ≡ some ts
      → now ≤ ts + seconds c.window_seconds
      → check_and_claim c runs d fp now t ≡ (note_blocked d, t, false)
  unfolding check_and_claim
  check_and_claim-known ts t on e h =
      rw (begin_claim-blocked c d fp now ts on.enabled on.window e h) refl

  -- The first claim wins: a fingerprint that neither the memory nor the table knows is granted, and
  -- the table then holds a new row of it.
  pub check_and_claim_first :
      (t : Table)
      → IsOn c
      → lookup fp d.mem ≡ none
      → lookup fp t ≡ none
      → ((check_and_claim c runs d fp now t).2 ≡ true)
        × (lookup fp (check_and_claim c runs d fp now t).1 ≡ some (new_row now))
  unfolding check_and_claim finish_claim claim_alert_fingerprint
  check_and_claim_first t on e n =
      rw (begin_claim-unknown on e) (rw n (refl, lookup-insert_self fp (new_row now) t))

  -- After a restart, a row that was seen within the window still blocks a claim: and the claim
  -- marks the row as seen now.
  pub check_and_claim_restarted :
      (t : Table) (row : Row)
      → IsOn c
      → lookup fp d.mem ≡ none
      → lookup fp t ≡ some row
      → now ≤ row.last_seen + seconds c.window_seconds
      → ((check_and_claim c runs d fp now t).2 ≡ false)
        × (lookup fp (check_and_claim c runs d fp now t).1
            ≡ some (record row { last_seen = now; hits = row.hits + 1 }))
  unfolding check_and_claim finish_claim claim_alert_fingerprint
  check_and_claim_restarted t row on e r h =
      let r' = record row { last_seen = now; hits = row.hits + 1 } in
      let test : ltb (seconds (max 1 c.window_seconds)) (now - row.last_seen) ≡ false =
        ground arith in
      rw (begin_claim-unknown on e) (rw r (rw (test, claim_row) (refl, lookup-insert_self fp r' t)))

module _ (c : Config) (d : Dedup) (fp : ℕ) where
  release_lem :
      (t : Table) → IsOn c → release c runs d fp t ≡ (note_released (mem_release d fp), erase fp t)
  unfolding release release_alert_fingerprint
  release_lem t on = ground arith

  -- A release undoes a claim: the next claim of the fingerprint is granted.
  pub check_and_claim-release :
      (t : Table) (later : Time)
      → IsOn c
      → let (d', t') = release c runs d fp t in (check_and_claim c runs d' fp later t').2 ≡ true
  check_and_claim-release t later on =
      rw (release_lem t on)
        (check_and_claim_first c (note_released (mem_release d fp)) fp later (erase fp t) on
          (unfold mem_release in ground (arith, lookup-erase fp fp d.mem))
          (ground (arith, lookup-erase fp fp t))).0

  -- A fresh claim is not stolen: the answer is no, and only a counter changes.
  pub steal_if_stale-fresh :
      (age now : Time) (t : Table) (row : Row)
      → IsOn c
      → lookup fp t ≡ some row
      → now ≤ row.last_seen + age
      → steal_if_stale c runs d fp age now t ≡ (note_denied d, t, false)
  unfolding steal_if_stale steal_row
  steal_if_stale-fresh age now t row on e h = rw (on.has_db, steal_fresh fp t age now row e h) refl

  -- A stale claim is stolen: its row and its place in memory are gone.
  pub steal_if_stale-stale :
      (age now : Time) (t : Table) (row : Row)
      → IsOn c
      → lookup fp t ≡ some row
      → row.last_seen + max (seconds 1) age < now
      → steal_if_stale c runs d fp age now t ≡ (note_stolen (mem_release d fp), erase fp t, true)
  unfolding steal_if_stale steal_row steal_stale_alert_fingerprint
  steal_if_stale-stale age now t row on e h = ground arith

  pub lookup-mem_release : lookup fp (note_stolen (mem_release d fp)).mem ≡ none
  unfolding mem_release
  lookup-mem_release = ground (arith, lookup-erase fp fp d.mem)
