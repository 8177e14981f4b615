-- ===== src/Queue/Delivery.antt =====
-- What `pop_from_queue` (database.py) hands out, told by the table before and after.
use telegram_br.Base.{
  ℕ, ◌+◌, ◌≤◌, ◌<◌, ◌≡◌, refl, sym, ap, ◌∙◌, ◌⊎◌, inl, inr, Bool, true, false, not, some, List, [],
  ◌∷◌, map, arith, ◌==◌, if◌then◌else◌, is_some, Bool-cases, Option-cases, Time, keep, All, lookup,
  insert,
}
use native.Mathlib.Decide.{dec_le}
use mathlib.Core.Path.{subst}
use telegram_br.Queue.{
  Event, queue_id_field, Status, pending, in_flight, is_in_flight, dict, pick_first, Row, Queue,
  Settings, has_id, update_where, first_by, served_before, waits, claim_update, claim_payload,
  pop_from_queue,
}
use telegram_br.Queue.Order.{next_row, pop_from_queue-next, pop_from_queue-none}

abbrev pub IsIn : Row → List Row → Type 0
IsIn r [] = ⊥
IsIn r (s ∷ rs) = (r ≡ s) ⊎ IsIn r rs

IsIn-keep : (p : Row → Bool) (r : Row) (rs : List Row) → IsIn r (keep p rs) → IsIn r rs
IsIn-keep p r [] h = h
IsIn-keep p r (s ∷ rs) h = elim (Bool-cases (p s)) [
  | inl e ↦
      let k : (r ≡ s) ⊎ IsIn r (keep p rs) = rw e at h in
      elim k [ inl here ↦ inl here | inr there ↦ inr (IsIn-keep p r rs there) ]
  | inr e ↦ let k : IsIn r (keep p rs) = rw e at h in inr (IsIn-keep p r rs k)
]

first_by-IsIn :
    (before : Row → Row → Bool) (rs : List Row) (r : Row) → first_by before rs ≡ some r → IsIn r rs
unfolding first_by pick_first
first_by-IsIn before [] r h = cc
first_by-IsIn before (x ∷ rs) r h = elim (Option-cases (first_by before rs)) [
  | inl n ↦ let k : some x ≡ some r = rw n at h in inl (sym (cc))
  | inr (s, n) ↦ elim (Bool-cases (before s x)) [
    | inl e ↦ let k : some s ≡ some r = rw (n, e) at h in inr (first_by-IsIn before rs r (n ∙ k))
    | inr e ↦ let k : some x ≡ some r = rw (n, e) at h in inl cc
  ]
]

pending-waits : (x : Status) → not (is_in_flight x) ≡ true → x ≡ pending
pending-waits pending h = refl
pending-waits in_flight h = cc

-- A row of higher priority, or of the same priority and not younger.
abbrev pub IsServedFirst : Row → Row → Type 0
IsServedFirst r s =
    (s.priority < r.priority) ⊎ ((s.priority ≡ r.priority) × (r.created_at ≤ s.created_at))

served_first : (tie : ℕ → ℕ) (r s : Row) → served_before tie s r ≡ false → IsServedFirst r s
served_first tie r s h = elim (dec_le r.priority s.priority) [
  | yes le ↦ inr (ground (arith, h, le), ground (arith, h, le))
  | no above ↦ inl (omega (arith, above))
]

All-IsServedFirst :
    (tie : ℕ → ℕ) (r : Row) (rs : List Row)
    → All (λ s. waits s ≡ true → served_before tie s r ≡ false) rs
    → All (λ s. s.status ≡ pending → IsServedFirst r s) rs
All-IsServedFirst tie r [] h = tt
All-IsServedFirst tie r (s ∷ rs) h = (
  λ e. served_first tie r s (h.0 (ap (λ x. not (is_in_flight x)) e)),
  All-IsServedFirst tie r rs h.1,
)

-- The rows after the claim of an id.
abbrev pub claimed_rows : Time → ℕ → List Row → List Row
claimed_rows now i = map (λ (s : Row).
    if s.id == i
    then record s { status = in_flight; claimed_at = some now; attempts = s.attempts + 1 }
    else s)

update_where-claimed :
    (now : Time) (i : ℕ) (rs : List Row)
    → update_where (has_id i) (claim_update now) rs ≡ claimed_rows now i rs
update_where-claimed now i [] = refl
update_where-claimed now i (r ∷ rs) =
    ap (λ l. (if r.id == i then claim_update now r else r) ∷ l) (update_where-claimed now i rs)

-- What the worker gets of a text that holds a dict: the dict, with the id unless it has one.
abbrev pub HasPayload : Settings → Row → Event → Type 0
HasPayload st r e =
    (x : Event)
    → st.json.loads r.event_data ≡ dict x
    → e ≡ (if is_some (lookup queue_id_field x) then x else insert queue_id_field r.id x)

claim_payload-HasPayload :
    (st : Settings) (r : Row) → HasPayload st r (claim_payload st.json r.id r.event_data)
unfolding claim_payload
claim_payload-HasPayload st r x loaded = rw (claim_payload, loaded) refl

-- What `pop_from_queue` hands out, whenever it hands out an event: there is a pending row in the
-- table, such that every pending row has a lower priority, or the same priority and is not older; in
-- the new table the row of its id is in flight, claimed now, with one more attempt, and every other
-- row is as before; nothing else of the queue changes; and if the text of the row holds a dict, the
-- event is that dict, with the id of the row added unless it has one.
pub pop_from_queue-first :
    (st : Settings) (now : Time) (q q' : Queue) (e : Event)
    → pop_from_queue st now q ≡ (q', some e)
    → (r : Row) × IsIn r q.rows
      × (r.status ≡ pending)
      × All (λ s. s.status ≡ pending → IsServedFirst r s) q.rows
      × (q' ≡ record q { rows = claimed_rows now r.id q.rows })
      × HasPayload st r e
pop_from_queue-first st now q q' e h = elim (Option-cases (next_row st q)) [
  | inl n ↦ let k = pop_from_queue-none st now q n in cc
  | inr (r, n) ↦
      let (popped, waiting, firsts) = pop_from_queue-next st now q r n in
      let same = sym h ∙ popped in
      let given : e ≡ claim_payload st.json r.id r.event_data = cc in
      (
        r,
        IsIn-keep waits r q.rows (first_by-IsIn (served_before st.tie) (keep waits q.rows) r n),
        pending-waits r.status waiting,
        All-IsServedFirst st.tie r q.rows firsts,
        ap (λ s. s.0) same ∙ ap (λ l. record q { rows = l }) (update_where-claimed now r.id q.rows),
        subst (HasPayload st r) (sym given) (claim_payload-HasPayload st r),
      )
]
