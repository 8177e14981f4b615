-- ===== src/Queue/Order.antt =====
-- Which event is handed out: the first waiting row by priority and age, and no row twice.
use telegram_br.Base.{
  ℕ, ◌≡◌, refl, sym, ◌≢◌, inl, inr, Bool, true, false, Option, none, some, List, [], ◌∷◌, arith,
  if◌then◌else◌, Bool-cases, Option-cases, Time, keep, any, All,
}
use mathlib.Core.Path.{subst}
use telegram_br.Queue.Ids.{first_by-none, any-first_by}
use telegram_br.Queue.{
  pick_first, Row, Queue, Settings, has_id, update_where, first_by, served_before, waits,
  claim_update, claim_payload, pop_from_queue,
}

module _ (tie : ℕ → ℕ) where
  served_asym : (r s : Row) → served_before tie s r ≡ true → served_before tie r s ≡ false
  served_asym r s h = ground arith

  -- What does not come before `s` does not come before what `s` does not come before.
  served_trans :
      (x s r : Row)
      → served_before tie x s ≡ false
      → served_before tie s r ≡ false
      → served_before tie x r ≡ false
  served_trans x s r h k = ground arith

  served_irrefl : (r : Row) → served_before tie r r ≡ false
  served_irrefl r = ground arith

  abbrev NoneBefore : Row → List Row → Type 0
  NoneBefore r = All (λ s. served_before tie s r ≡ false)

  NoneBefore-trans :
      (s r : Row) (rs : List Row)
      → served_before tie s r ≡ false
      → NoneBefore s rs
      → NoneBefore r rs
  NoneBefore-trans s r [] h k = tt
  NoneBefore-trans s r (x ∷ rs) h k = (served_trans x s r k.0 h, NoneBefore-trans s r rs h k.1)

  NoneBefore-pick_first :
      (x : Row) (rs : List Row) (o : Option Row)
      → first_by (served_before tie) rs ≡ o
      → ((s : Row) → o ≡ some s → NoneBefore s rs)
      → NoneBefore (pick_first (served_before tie) x o) (x ∷ rs)
  unfolding pick_first
  NoneBefore-pick_first x rs none e h =
      rw (first_by-none (served_before tie) rs e) (served_irrefl x, tt)
  NoneBefore-pick_first x rs (some s) e h = elim (Bool-cases (served_before tie s x)) [
    | inl before ↦
        let found : s ≡ (if served_before tie s x then s else x) = rw before in
        subst (λ (y : Row). NoneBefore y (x ∷ rs)) found (served_asym x s before, h s refl)
    | inr after ↦
        let found : x ≡ (if served_before tie s x then s else x) = rw after in
        subst (λ (y : Row). NoneBefore y (x ∷ rs)) found
          (served_irrefl x, NoneBefore-trans s x rs after (h s refl))
  ]

  -- The first row by priority and age has none before it.
  first_by-NoneBefore :
      (rs : List Row) (r : Row) → first_by (served_before tie) rs ≡ some r → NoneBefore r rs
  unfolding first_by
  first_by-NoneBefore [] r h = tt
  first_by-NoneBefore (x ∷ rs) r h =
      let found : pick_first (served_before tie) x (first_by (served_before tie) rs) ≡ r = cc in
      subst (λ (s : Row). NoneBefore s (x ∷ rs)) found
        (NoneBefore-pick_first x rs (first_by (served_before tie) rs) refl
          (λ s e. first_by-NoneBefore rs s e))

All-of_keep :
    (p : Row → Bool) (P : Row → Type 0) (rs : List Row)
    → All P (keep p rs)
    → All (λ s. p s ≡ true → P s) rs
All-of_keep p P [] h = tt
All-of_keep p P (r ∷ rs) h = elim (Bool-cases (p r)) [
  | inl e ↦ let k : All P (r ∷ keep p rs) = rw e at h in (λ _. k.0, All-of_keep p P rs k.1)
  | inr e ↦ let k : All P (keep p rs) = rw e at h in (λ t. cc, All-of_keep p P rs k)
]

first_by-waits :
    (before : Row → Row → Bool) (rs : List Row) (r : Row)
    → All (λ s. waits s ≡ true) rs
    → first_by before rs ≡ some r
    → waits r ≡ true
unfolding first_by pick_first
first_by-waits before [] r h e = cc
first_by-waits before (x ∷ rs) r h e = elim (Option-cases (first_by before rs)) [
  | inl n ↦ ground arith
  | inr (s, n) ↦ ground (arith, first_by-waits before rs s h.1 n)
]

All-waits : (rs : List Row) → All (λ s. waits s ≡ true) (keep waits rs)
All-waits [] = tt
All-waits (r ∷ rs) = elim (Bool-cases (waits r)) [
  | inl e ↦ rw e (e, All-waits rs)
  | inr e ↦ rw e (All-waits rs)
]

-- No row of the id waits after the claim.
none_waits :
    (now : Time) (i : ℕ) (rs : List Row)
    → any (has_id i) (keep waits (update_where (has_id i) (claim_update now) rs)) ≡ false
none_waits now i [] = refl
none_waits now i (r ∷ rs) = ground (arith, none_waits now i rs)

-- The row that `pop_from_queue` hands out.
abbrev pub next_row : Settings → Queue → Option Row
next_row st q = first_by (served_before st.tie) (keep waits q.rows)

module _ (st : Settings) (now : Time) (q : Queue) where
  -- The row that comes first among those that wait, if there is one, is handed out: it waits, and no
  -- waiting row is served before it, by priority, then age. The rows of its id are marked as claimed
  -- now, with one more attempt, and every other row stays.
  pub pop_from_queue-next :
      (r : Row)
      → next_row st q ≡ some r
      → (pop_from_queue st now q ≡ (
        record q { rows = update_where (has_id r.id) (claim_update now) q.rows },
        some (claim_payload st.json r.id r.event_data),
      ))
        × (waits r ≡ true)
        × All (λ s. waits s ≡ true → served_before st.tie s r ≡ false) q.rows
  unfolding pop_from_queue
  pop_from_queue-next r h = (
    rw h refl,
    first_by-waits (served_before st.tie) (keep waits q.rows) r (All-waits q.rows) h,
    All-of_keep waits (λ s. served_before st.tie s r ≡ false) q.rows
        (first_by-NoneBefore st.tie (keep waits q.rows) r h),
  )

  -- An empty waiting line hands out nothing and changes nothing.
  pub pop_from_queue-none : next_row st q ≡ none → pop_from_queue st now q ≡ (q, none)
  unfolding pop_from_queue
  pop_from_queue-none h = rw h refl

  -- Two deliveries, one after the other, hand out rows of different ids.
  pub pop_from_queue_twice :
      (r r' : Row)
      → next_row st q ≡ some r
      → next_row st (pop_from_queue st now q).0 ≡ some r'
      → r.id ≢ r'.id
  pop_from_queue_twice r r' h k same =
      let rows' = update_where (has_id r.id) (claim_update now) q.rows in
      let k' : first_by (served_before st.tie) (keep waits rows') ≡ some r' =
        rw (pop_from_queue-next r h).0 at k in
      let found : any (has_id r'.id) (keep waits rows') ≡ true =
        any-first_by (served_before st.tie) (keep waits rows') r' k' in
      let found' : any (has_id r.id) (keep waits rows') ≡ true =
        subst (λ (i : ℕ). any (has_id i) (keep waits rows') ≡ true) (sym same) found in
      cc (none_waits now r.id q.rows)
