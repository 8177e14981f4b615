-- ===== src/Fingerprints/Laws.antt =====
-- What the methods on `alert_dedup` do to each row.
use telegram_br.Base.{
  ℕ, ◌+◌, ◌≤◌, ◌≡◌, ◌≢◌, refl, false, some, [], ◌∷◌, Time, seconds, lookup, lookup-insert,
  lookup-insert_self, Bool-cases, Option-cases, inl, inr, lookup-erase, arith,
}
use telegram_br.Fingerprints.{
  Row, Table, new_row, is_expired, claim_row, claim_alert_fingerprint, release_alert_fingerprint,
  steal_stale_alert_fingerprint, cleanup_alert_fingerprints,
}

module _ (fp : ℕ) (now : Time) (w : ℕ) (t : Table) where
  -- The row was last seen at the time of the claim.
  abbrev SeenNow : Table → Type 0
  SeenNow t' = (row : Row) × (lookup fp t' ≡ some row) × (row.last_seen ≡ now)

  claim_row-SeenNow : (r : Row) → SeenNow (claim_row fp now w t (some r)).0
  unfolding claim_row
  claim_row-SeenNow r = elim (Bool-cases (is_expired r now w)) [
    | inl e ↦ rw e (new_row now, lookup-insert_self fp (new_row now) t, refl)
    | inr e ↦ rw e (
      record r { last_seen = now; hits = r.hits + 1 },
      lookup-insert_self fp (record r { last_seen = now; hits = r.hits + 1 }) t,
      refl,
    )
  ]

  -- A claim leaves a row that was last seen at the time of the claim, whatever its answer.
  pub claim_last_seen :
      (row : Row) × (lookup fp (claim_alert_fingerprint fp now w t).0 ≡ some row)
      × (row.last_seen ≡ now)
  unfolding claim_alert_fingerprint
  claim_last_seen = elim (Option-cases (lookup fp t)) [
    | inl e ↦ rw e (new_row now, lookup-insert_self fp (new_row now) t, refl)
    | inr (r, e) ↦ rw e (claim_row-SeenNow r)
  ]

  -- A claim touches no other fingerprint.
  pub claim_others : (j : ℕ) → fp ≢ j → lookup j (claim_alert_fingerprint fp now w t).0 ≡ lookup j t
  unfolding claim_alert_fingerprint
  claim_others j ne = grind (arith, lookup-insert)

  -- A claim is denied while the fingerprint's row was seen within the window.
  pub claim_denied :
      (row : Row)
      → lookup fp t ≡ some row
      → now ≤ row.last_seen + seconds w
      → (claim_alert_fingerprint fp now w t).1 ≡ false
  unfolding claim_alert_fingerprint
  claim_denied row e h = ground arith

module _ (fp : ℕ) (t : Table) where
  -- Another fingerprint's row survives a release.
  pub release_others : (j : ℕ) → fp ≢ j → lookup j (release_alert_fingerprint fp t) ≡ lookup j t
  unfolding release_alert_fingerprint
  release_others j ne = ground (arith, lookup-erase fp j t)

  pub steal_others :
      (age now : Time) (j : ℕ)
      → fp ≢ j
      → lookup j (steal_stale_alert_fingerprint fp age now t).0 ≡ lookup j t
  unfolding steal_stale_alert_fingerprint
  steal_others age now j ne = grind (arith, lookup-erase)

  -- A row that was seen less than the minimal age ago is not stolen.
  pub steal_fresh :
      (age now : Time) (row : Row)
      → lookup fp t ≡ some row
      → now ≤ row.last_seen + age
      → steal_stale_alert_fingerprint fp age now t ≡ (t, false)
  unfolding steal_stale_alert_fingerprint
  steal_fresh age now row e h = ground arith

-- The cleaning keeps each row that was seen within the age.
pub lookup-cleanup :
    (fp w : ℕ) (now : Time) (t : Table) (row : Row)
    → lookup fp t ≡ some row
    → now ≤ row.last_seen + seconds w
    → lookup fp (cleanup_alert_fingerprints w now t).0 ≡ some row
unfolding cleanup_alert_fingerprints
lookup-cleanup fp w now [] row e h = cc
lookup-cleanup fp w now ((k, r) ∷ t) row e h = ground (arith, lookup-cleanup fp w now t row)
