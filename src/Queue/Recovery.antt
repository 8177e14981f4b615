-- ===== src/Queue/Recovery.antt =====
-- Recovery of events whose worker died (database.py): the table stays valid.
use telegram_br.Base.{
  ℕ, ◌+◌, max, ◌≡◌, refl, sym, ◌∙◌, ◌≢◌, inl, inr, Bool, true, ◌&&◌, List, [], ◌∷◌, arith, leb,
  ◌==◌, Bool-cases, Time, length, any, All,
}
use mathlib.Core.Path.{subst}
use telegram_br.Queue.{
  Row, Queue, Settings, update_where, delete_where, is_in_flight, still_claimed, requeue_update,
  recover_row, recover_rows, recover_stale_inflight, Recovered, DeadLetter,
}
use telegram_br.Queue.Ids.{
  ids, Unique, ids-update_where, Unique-keep, IsBelow-keep, length-update_where,
}
use telegram_br.Queue.Invariant.{IsValid}

-- Rows and dead letters together.
abbrev pub total : Queue → ℕ
total q = length q.rows + length q.dead

abbrev pub bump : Row → Row
bump s = record s { attempts = s.attempts + 1 }

abbrev pub in_flight_at : ℕ → Row → Bool
in_flight_at i s = s.id == i && is_in_flight s.status

none_at :
    (p : Row → Bool) (i : ℕ) (rs : List Row)
    → All (λ j. i ≢ j) (ids rs)
    → delete_where (in_flight_at i) (update_where p bump rs) ≡ update_where p bump rs
none_at p i [] h = refl
none_at p i (r ∷ rs) h = ground (arith, none_at p i rs h.1, h.0)

ne_of_any :
    (i : ℕ) (r : Row) (rs : List Row)
    → All (λ j. i ≢ j) (ids rs)
    → any (still_claimed r) rs ≡ true
    → i ≢ r.id
ne_of_any i r [] h e = cc
ne_of_any i r (s ∷ rs) h e = elim (Bool-cases (still_claimed r s)) [
  | inl here ↦ ground (arith, h.0)
  | inr there ↦ ne_of_any i r rs h.1 (rw there at e)
]

-- The dead letter's deletion removes the one row whose claim was found.
length-dead_rows :
    (r : Row) (rs : List Row)
    → Unique (ids rs)
    → any (still_claimed r) rs ≡ true
    → length (delete_where (in_flight_at r.id) (update_where (still_claimed r) bump rs)) + 1
      ≡ length rs
length-dead_rows r [] u h = ground arith
length-dead_rows r (s ∷ rs) u h = elim (Bool-cases (still_claimed r s)) [
  | inl e ↦
      let same : s.id ≡ r.id = ground arith in
      ground (
        arith,
        none_at (still_claimed r) r.id rs (subst (λ (i : ℕ). All (λ j. i ≢ j) (ids rs)) same u.0),
        length-update_where (still_claimed r) bump rs,
      )
  | inr e ↦
      let later : any (still_claimed r) rs ≡ true = rw e at h in
      let other : s.id ≢ r.id = ne_of_any s.id r rs u.0 later in
      ground (arith, length-dead_rows r rs u.1 later)
]

ids-dead_rows : (r : Row) (rs : List Row) → ids (update_where (still_claimed r) bump rs) ≡ ids rs
ids-dead_rows r rs = ids-update_where (still_claimed r) bump (λ _. refl) rs

abbrev new_dead : Row → DeadLetter
new_dead r = record { event_data = r.event_data; retry_count = r.attempts }

module _ (st : Settings) where
  -- One row's recovery keeps the queue valid and loses nothing.
  recover_row-keeps :
      (r : Row) (q : Queue) (n : Recovered)
      → IsValid q
      → let q' = (recover_row st r (q, n)).0 in IsValid q' × (total q' ≡ total q)
  unfolding recover_row
  recover_row-keeps r q n v = elim (Bool-cases (leb (max 1 st.max_attempts) r.attempts)) [
    | inl old ↦ elim (Bool-cases (any (still_claimed r) q.rows)) [
      | inl won ↦
          let l = length-dead_rows r q.rows v.unique won in
          let same = ids-dead_rows r q.rows in
          rw (old, won)
            (
              record {
                unique =
                    Unique-keep _ (update_where (still_claimed r) bump q.rows) (rw same v.unique);
                below =
                    IsBelow-keep q.next_id _ (update_where (still_claimed r) bump q.rows)
                      (rw same v.below);
                synced = λ clean. omega (arith, v.synced clean, l);
              },
              omega (arith, l),
            )
      | inr lost ↦ rw (old, lost) (v, refl)
    ]
    | inr young ↦ elim (Bool-cases (any (still_claimed r) q.rows)) [
      | inl won ↦
          let f = requeue_update st.json r.event_data in
          let same = ids-update_where (still_claimed r) f (λ _. refl) q.rows in
          let l = length-update_where (still_claimed r) f q.rows in
          rw (young, won)
            (
              record {
                unique = rw same v.unique;
                below = rw same v.below;
                synced = λ clean. v.synced clean ∙ sym l;
              },
              rw l refl,
            )
      | inr lost ↦ rw (young, lost) (v, refl)
    ]
  ]

  recover_rows-keeps :
      (rs : List Row) (q : Queue) (n : Recovered)
      → IsValid q
      → let q' = (recover_rows st rs (q, n)).0 in IsValid q' × (total q' ≡ total q)
  unfolding recover_rows
  recover_rows-keeps [] q n v = (v, refl)
  recover_rows-keeps (r ∷ rs) q n v =
      let (w, e) = recover_row-keeps r q n v in
      let s = recover_row st r (q, n) in
      let (w', e') = recover_rows-keeps rs s.0 s.1 w in (w', e' ∙ e)

  -- Rows and dead letters together stay as many, and the queue stays valid.
  pub recover_stale_inflight-keeps :
      (age : ℕ) (now : Time) (q : Queue)
      → IsValid q
      → let q' = (recover_stale_inflight st age now q).0 in IsValid q' × (total q' ≡ total q)
  unfolding recover_stale_inflight
  recover_stale_inflight-keeps age now q v =
      recover_rows-keeps _ q (record { recovered = 0; dead_count = 0 }) v
