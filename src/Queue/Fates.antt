-- ===== src/Queue/Fates.antt =====
-- What becomes of each row at a recovery (database.py): the stale ones wait again or are dead
-- letters, each exactly once, and every other row stays as it is.
use telegram_br.Base.{
  ℕ, suc, ◌+◌, ◌-◌, max, ◌≡◌, refl, sym, ap, ◌∙◌, ◌≢◌, inl, inr, Bool, true, false, ◌&&◌, Option,
  none, some, List, [], ◌∷◌, ◌++◌, arith, ltb, leb, if◌then◌else◌, Bool-cases, if-by, Time, seconds,
  length, keep, any, All, append_assoc,
}
use mathlib.Core.Path.{subst}
use telegram_br.Queue.{
  pending, DeadLetter, Row, Queue, Settings, update_where, delete_where, claimed_before, is_stale,
  is_in_flight, still_claimed, dead_letter_row, recovered_payload, requeue_update, requeue_row,
  Recovered, recover_row, recover_rows, recover_stale_inflight,
}
use telegram_br.Queue.Ids.{ids, Unique}
use telegram_br.Queue.Invariant.{IsValid}
use telegram_br.Queue.Recovery.{bump, in_flight_at, recover_stale_inflight-keeps}
use telegram_br.Queue.Ends.{
  Away, Away-append, Away-ids, any_here, still_claimed_self, update_one, delete_one,
}

module _ (st : Settings) where
  abbrev is_old : Row → Bool
  is_old r = leb (max 1 st.max_attempts) r.attempts

  -- What becomes of a stale row: a waiting row with its event marked as recovered and one more
  -- attempt, or, when its attempts are used up, no row.
  abbrev pub requeued : Row → List Row
  requeued r =
      if is_old r
      then []
      else record r {
        status = pending;
        claimed_at = none;
        event_data = recovered_payload st.json r.event_data;
        attempts = r.attempts + 1;
      }
        ∷ []

  -- The dead letters after that.
  abbrev pub buried : Row → List DeadLetter → List DeadLetter
  buried r dead =
      if is_old r
      then record { event_data = r.event_data; retry_count = r.attempts } ∷ dead
      else dead

  record IsRecovered (r : Row) (xs ys : List Row) (q : Queue) (n : Recovered)
      (s : Queue × Recovered) : Type 0 where
    pub rows : s.0.rows ≡ xs ++ (requeued r ++ ys)
    pub dead : s.0.dead ≡ buried r q.dead
    pub counted : s.1.recovered + s.1.dead_count ≡ suc (n.recovered + n.dead_count)

  recover_row-IsRecovered :
      (r : Row) (xs ys : List Row) (q : Queue) (n : Recovered)
      → q.rows ≡ xs ++ r ∷ ys
      → is_in_flight r.status ≡ true
      → Away r.id xs
      → Away r.id ys
      → IsRecovered r xs ys q n (recover_row st r (q, n))
  unfolding recover_row dead_letter_row requeue_row
  recover_row-IsRecovered r xs ys q n e h ax ay =
      let found : any (still_claimed r) q.rows ≡ true =
        rw e (any_here (still_claimed r) r xs ys (still_claimed_self r h)) in
      elim (Bool-cases (is_old r)) [
        | inl old ↦
            let gone : delete_where (in_flight_at r.id) (update_where (still_claimed r) bump q.rows)
                ≡ xs ++ ys =
              ap (λ l. delete_where (in_flight_at r.id) (update_where (still_claimed r) bump l)) e
              ∙ ap (delete_where (in_flight_at r.id)) (update_one r bump xs ys h ax ay)
              ∙ delete_one (bump r) xs ys h ax ay in
            let none_left : requeued r ≡ [] = rw old refl in
            let letter : buried r q.dead
                ≡ record { event_data = r.event_data; retry_count = r.attempts } ∷ q.dead =
              rw old refl in
            rw (old, found)
              (record {
                rows = gone ∙ ap (λ l. xs ++ (l ++ ys)) (sym none_left);
                dead = sym letter;
                counted = omega arith;
              })
        | inr young ↦
            let f = requeue_update st.json r.event_data in
            let changed : update_where (still_claimed r) f q.rows ≡ xs ++ f r ∷ ys =
              ap (update_where (still_claimed r) f) e ∙ update_one r f xs ys h ax ay in
            let again : requeued r ≡ f r ∷ [] = rw young refl in
            let no_letter : buried r q.dead ≡ q.dead = rw young refl in
            rw (young, found)
              (record {
                rows = changed ∙ ap (λ l. xs ++ (l ++ ys)) (sym again);
                dead = sym no_letter;
                counted = omega arith;
              })
      ]

  Away-requeued : (i : ℕ) (r : Row) → i ≢ r.id → Away i (requeued r)
  Away-requeued i r h = if-by {A = List Row} (Away i) (is_old r) _ _ (λ e. tt) (λ e. (h, tt))

  module _ (p : Row → Bool) where
    -- What becomes of a row, of which the test says whether it is stale.
    abbrev pub fate : Row → List Row
    fate r = if p r then requeued r else r ∷ []

    abbrev pub fates : List Row → List Row
    fates [] = []
    fates (r ∷ rs) = fate r ++ fates rs

    abbrev pub letters : List Row → List DeadLetter → List DeadLetter
    letters [] dead = dead
    letters (r ∷ rs) dead = letters rs (if p r then buried r dead else dead)

    Away-fate : (i : ℕ) (r : Row) → i ≢ r.id → Away i (fate r)
    Away-fate i r h =
        if-by {A = List Row} (Away i) (p r) _ _ (λ e. Away-requeued i r h) (λ e. (h, tt))

    abbrev Fresh : List Row → List Row → Type 0
    Fresh xs = All (λ s. Away s.id xs)

    Fresh-fate :
        (r : Row) (xs rs : List Row)
        → Fresh xs rs
        → All (λ j. r.id ≢ j) (ids rs)
        → Fresh (xs ++ fate r) rs
    Fresh-fate r xs [] h u = tt
    Fresh-fate r xs (s ∷ rs) h u = (
      Away-append s.id xs (fate r) h.0 (Away-fate s.id r (λ e. u.0 (sym e))),
      Fresh-fate r xs rs h.1 u.1,
    )

    record AreRecovered (xs rs : List Row) (q : Queue) (n : Recovered) (s : Queue × Recovered)
        : Type 0 where
      pub rows : s.0.rows ≡ xs ++ fates rs
      pub dead : s.0.dead ≡ letters rs q.dead
      pub counted : s.1.recovered + s.1.dead_count ≡ n.recovered + n.dead_count + length (keep p rs)

    -- The rows of `rs` are still to be looked at, those of `xs` are done.
    recover_rows-AreRecovered :
        ((r : Row) → p r ≡ true → is_in_flight r.status ≡ true)
        → (xs rs : List Row) (q : Queue) (n : Recovered) → q.rows ≡ xs ++ rs
        → Fresh xs rs
        → Unique (ids rs)
        → AreRecovered xs rs q n (recover_rows st (keep p rs) (q, n))
    unfolding recover_rows
    recover_rows-AreRecovered flying xs [] q n e f u = record {
      rows = e;
      dead = refl;
      counted = omega arith;
    }
    recover_rows-AreRecovered flying xs (r ∷ rs) q n e f u = elim (Bool-cases (p r)) [
      | inl stale ↦
          let one =
            recover_row-IsRecovered r xs rs q n e (flying r stale) f.0 (Away-ids r.id rs u.0) in
          let s = recover_row st r (q, n) in
          let here : fate r ≡ requeued r = rw stale refl in
          let rest =
            recover_rows-AreRecovered flying (xs ++ fate r) rs s.0 s.1
              (one.rows ∙ ap (λ l. xs ++ (l ++ rs)) (sym here) ∙ sym (append_assoc xs (fate r) rs))
              (Fresh-fate r xs rs f.1 u.0) u.1 in
          let first : keep p (r ∷ rs) ≡ r ∷ keep p rs = rw stale refl in
          let letter : buried r q.dead ≡ (if p r then buried r q.dead else q.dead) =
            rw stale refl in
          subst (λ (l : List Row). AreRecovered xs (r ∷ rs) q n (recover_rows st l (q, n)))
            (sym first)
            (record {
              rows = rest.rows ∙ append_assoc xs (fate r) (fates rs);
              dead = rest.dead ∙ ap (letters rs) (one.dead ∙ letter);
              counted = omega (arith, rest.counted, one.counted, ap length first);
            })
      | inr kept ↦
          let here : fate r ≡ r ∷ [] = rw kept refl in
          let rest =
            recover_rows-AreRecovered flying (xs ++ fate r) rs q n
              (e ∙ ap (λ l. xs ++ (l ++ rs)) (sym here) ∙ sym (append_assoc xs (fate r) rs))
              (Fresh-fate r xs rs f.1 u.0) u.1 in
          let first : keep p (r ∷ rs) ≡ keep p rs = rw kept refl in
          let no_letter : q.dead ≡ (if p r then buried r q.dead else q.dead) = rw kept refl in
          subst (λ (l : List Row). AreRecovered xs (r ∷ rs) q n (recover_rows st l (q, n)))
            (sym first)
            (record {
              rows = rest.rows ∙ append_assoc xs (fate r) (fates rs);
              dead = rest.dead ∙ ap (letters rs) no_letter;
              counted = omega (arith, rest.counted, ap length first);
            })
    ]

-- A row in flight whose claim is older than so many seconds.
abbrev pub overdue_at : ℕ → Time → Option Time → Bool
overdue_at age now none = false
overdue_at age now (some at) = ltb (at + seconds age) now

abbrev pub overdue : ℕ → Time → Row → Bool
overdue age now r = is_in_flight r.status && overdue_at age now r.claimed_at

overdue_at-claimed :
    (age : ℕ) (now : Time) (o : Option Time)
    → claimed_before (now - seconds age) o ≡ overdue_at age now o
overdue_at-claimed age now none = refl
overdue_at-claimed age now (some at) = ground arith

keep-overdue :
    (age : ℕ) (now : Time) (rs : List Row)
    → keep (is_stale (now - seconds age)) rs ≡ keep (overdue age now) rs
keep-overdue age now [] = refl
keep-overdue age now (r ∷ rs) =
    rw (overdue_at-claimed age now r.claimed_at, keep-overdue age now rs) refl

overdue-in_flight :
    (age : ℕ) (now : Time) (r : Row) → overdue age now r ≡ true → is_in_flight r.status ≡ true
overdue-in_flight age now r h = ground (arith, h)

none_done : (p : Row → Bool) (st : Settings) (rs : List Row) → Fresh st p [] rs
none_done p st [] = tt
none_done p st (r ∷ rs) = (tt, none_done p st rs)

-- What a recovery makes of a valid queue, row by row: each row in flight whose claim is older than
-- the age (at least 5 seconds) becomes a waiting row, with its event marked as recovered, no claim
-- and one more attempt, or, when its attempts have reached the limit (at least 1), a dead letter
-- with its event and its attempts; every other row stays as it is, in its place. The two counts add
-- up to the number of these rows, rows and dead letters together stay as many, and the queue stays
-- valid.
pub recover_stale_inflight-fates :
    (st : Settings) (age : ℕ) (now : Time) (q : Queue)
    → IsValid q
    → let (q', n) = recover_stale_inflight st age now q in
      let stale = overdue (max 5 age) now in
      IsValid q'
      × (q'.rows ≡ fates st stale q.rows)
      × (q'.dead ≡ letters st stale q.rows q.dead)
      × (n.recovered + n.dead_count ≡ length (keep stale q.rows))
      × (length q'.rows + length q'.dead ≡ length q.rows + length q.dead)
unfolding recover_stale_inflight
recover_stale_inflight-fates st age now q v =
    let start : Recovered = record { recovered = 0; dead_count = 0 } in
    let (valid, same) = recover_stale_inflight-keeps st age now q v in
    let stale = overdue (max 5 age) now in
    let done =
      recover_rows-AreRecovered st stale (overdue-in_flight (max 5 age) now) [] q.rows q start refl
        (none_done stale st q.rows) v.unique in
    let no_start : 0 + 0 + length (keep stale q.rows) ≡ length (keep stale q.rows) = omega arith in
    let looked = keep-overdue (max 5 age) now q.rows in
    let s : recover_rows st (keep (is_stale (now - seconds (max 5 age))) q.rows) (q, start)
        ≡ recover_rows st (keep stale q.rows) (q, start) =
      ap (λ l. recover_rows st l (q, start)) looked in
    (
      valid,
      ap (λ (x : Queue × Recovered). x.0.rows) s ∙ done.rows,
      ap (λ (x : Queue × Recovered). x.0.dead) s ∙ done.dead,
      ap (λ (x : Queue × Recovered). x.1.recovered + x.1.dead_count) s ∙ done.counted ∙ no_start,
      same,
    )
