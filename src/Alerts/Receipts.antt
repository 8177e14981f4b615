-- ===== src/Alerts/Receipts.antt =====
-- The receipts (database.py) are kept, by the batch, the flushes and the table together.
use telegram_br.Base.{
  ℕ, zero, suc, ◌+◌, ◌-◌, ◌≤◌, ◌<◌, ◌≡◌, refl, ap, inl, inr, Bool, true, not, ◌||◌, Option, none,
  some, List, [], ◌∷◌, ◌++◌, arith, leb, ◌==◌, if◌then◌else◌, Bool-cases, if-by, length, take, any,
  length-append, elem,
}
use telegram_br.Alerts.{
  AlertRecord, Alerts, add_alert, insert_ignore, Outcome, insert_receipt, add_alert_immediate,
  has_hash, begin_with, begin_flush, insert_all, tally, count_senders, forget_senders, re_add,
  write_batch, pick, beside, write_picked, end_flush,
}

pub data AlertOp : Type 0 where
  adds : AlertRecord → AlertOp
  adds_now : Outcome → AlertRecord → AlertOp
  begins : AlertOp
  ends : Outcome → ℕ → AlertOp

unfoldable pub do_op : ℕ → AlertOp → Alerts → Alerts
do_op batch_max (adds rec) a = add_alert batch_max rec a
do_op batch_max (adds_now out rec) a = (add_alert_immediate batch_max out rec a).0
do_op batch_max begins a = begin_flush a
do_op batch_max (ends out i) a = end_flush batch_max out i a

unfoldable pub do_all : ℕ → List AlertOp → Alerts → Alerts
do_all batch_max [] a = a
do_all batch_max (op ∷ ops) a = do_all batch_max ops (do_op batch_max op a)

abbrev flying_hash : ℕ → List (List AlertRecord) → Bool
flying_hash h flying = any (has_hash h) flying

-- A receipt is in the batch, in a flush or in the table.
unfoldable pub has_receipt : ℕ → Alerts → Bool
has_receipt h a = has_hash h a.batch || flying_hash h a.in_flight || elem h a.table

abbrev total : List (List AlertRecord) → ℕ
total [] = 0
total (recs ∷ flying) = length recs + total flying

-- The records that are not in the table yet.
unfoldable pub pending : Alerts → ℕ
pending a = length a.batch + total a.in_flight

module _ {ℓ} {A : Type ℓ} where
  any-append : (p : A → Bool) (xs ys : List A) → any p (xs ++ ys) ≡ (any p xs || any p ys)
  any-append p [] ys = refl
  any-append p (x ∷ xs) ys = ground (arith, any-append p xs ys)

  take_all : (n : ℕ) (xs : List A) → length xs ≤ n → take n xs ≡ xs
  take_all zero [] h = refl
  take_all zero (x ∷ xs) h = absurd (omega arith)
  take_all (suc n) [] h = refl
  take_all (suc n) (x ∷ xs) h = rw (take_all n xs (omega arith)) refl

total-append : (xs ys : List (List AlertRecord)) → total (xs ++ ys) ≡ total xs + total ys
total-append [] ys = omega arith
total-append (x ∷ xs) ys = omega (arith, total-append xs ys)

insert_all-kept :
    (h : ℕ) (recs : List AlertRecord) (table : List ℕ)
    → elem h table ≡ true
    → elem h (insert_all recs table) ≡ true
insert_all-kept h [] table e = e
insert_all-kept h (rec ∷ recs) table e =
    insert_all-kept h recs (insert_ignore rec.message_hash table) (ground (arith, e))

insert_all-has :
    (h : ℕ) (recs : List AlertRecord) (table : List ℕ)
    → has_hash h recs ≡ true
    → elem h (insert_all recs table) ≡ true
insert_all-has h [] table e = absurd (ground arith)
insert_all-has h (rec ∷ recs) table e = elim (Bool-cases (rec.message_hash == h)) [
  | inl here ↦ insert_all-kept h recs (insert_ignore rec.message_hash table) (ground (arith, here))
  | inr there ↦
      insert_all-has h recs (insert_ignore rec.message_hash table) (ground (arith, e, there))
]

-- A step keeps a receipt and adds at most one record.
record IsKept (h : ℕ) (a b : Alerts) : Type 0 where
  pub kept : has_receipt h b ≡ true
  pub pending_le : pending b ≤ suc (pending a)

add_alert-IsKept :
    (batch_max h : ℕ) (rec : AlertRecord) (a : Alerts)
    → pending a < batch_max
    → has_receipt h a ≡ true
    → IsKept h a (add_alert batch_max rec a)
unfolding add_alert has_receipt pending
add_alert-IsKept batch_max h rec a room k =
    if-by (IsKept h a) (leb batch_max (length a.batch)) _ _ (λ e. absurd (ground arith))
      (λ e. record {
        kept = ground (arith, any-append (λ r. r.message_hash == h) a.batch (rec ∷ []), k);
        pending_le = omega (arith, length-append a.batch (rec ∷ []));
      })

insert_receipt-IsKept :
    (counted : Bool) (h : ℕ) (rec : AlertRecord) (a : Alerts)
    → has_receipt h a ≡ true
    → IsKept h a (insert_receipt counted rec a)
unfolding insert_receipt has_receipt pending
insert_receipt-IsKept counted h rec a k =
    if-by (IsKept h a) (elem rec.message_hash a.table) _ _
      (λ e. record { kept = k; pending_le = omega arith })
      (λ e. record { kept = ground (arith, k); pending_le = omega arith })

add_alert_immediate-IsKept :
    (batch_max h : ℕ) (out : Outcome) (rec : AlertRecord) (a : Alerts)
    → pending a < batch_max
    → has_receipt h a ≡ true
    → IsKept h a (add_alert_immediate batch_max out rec a).0
unfolding add_alert_immediate
add_alert_immediate-IsKept batch_max h out rec a room k =
    if-by {A = Alerts × Bool} (λ r. IsKept h a r.0) out.written _ _
      (λ e. insert_receipt-IsKept out.counted h rec a k)
      (λ e. add_alert-IsKept batch_max h rec a room k)

begin_with-IsKept :
    (h : ℕ) (recs : List AlertRecord) (a : Alerts)
    → a.batch ≡ recs
    → has_receipt h a ≡ true
    → IsKept h a (begin_with recs a)
unfolding has_receipt pending
begin_with-IsKept h [] a e k = record { kept = k; pending_le = omega arith }
begin_with-IsKept h (rec ∷ recs) a e k =
    let taken = (rec ∷ recs) ∷ [] in
    record {
      kept = ground (arith, any-append (has_hash h) a.in_flight taken, ap (has_hash h) e, k);
      pending_le = omega (arith, ap length e, total-append a.in_flight taken);
    }

-- The batch that was picked and the others are those that were in flight.
abbrev Picked :
    ℕ → List (List AlertRecord) → Option (List AlertRecord × List (List AlertRecord)) → Type 0
Picked h flying none = Unit {0}
Picked h flying (some (recs, rest)) =
    (flying_hash h flying ≡ (has_hash h recs || flying_hash h rest))
    × (total flying ≡ length recs + total rest)

beside-Picked :
    (h : ℕ) (recs : List AlertRecord) (flying : List (List AlertRecord))
    (o : Option (List AlertRecord × List (List AlertRecord)))
    → Picked h flying o
    → Picked h (recs ∷ flying) (beside recs o)
beside-Picked h recs flying none p = tt
beside-Picked h recs flying (some (picked, rest)) (e, n) = (ground (arith, e), omega (arith, n))

pick-Picked : (h i : ℕ) (flying : List (List AlertRecord)) → Picked h flying (pick i flying)
pick-Picked h i [] = tt
pick-Picked h zero (recs ∷ flying) = (refl, refl)
pick-Picked h (suc i) (recs ∷ flying) =
    beside-Picked h recs flying (pick i flying) (pick-Picked h i flying)

-- Records that go back and fit.
re_add-IsKept :
    (batch_max h : ℕ) (recs : List AlertRecord) (before a : Alerts)
    → length recs + pending a ≤ pending before
    → pending before < batch_max
    → (has_hash h recs || has_receipt h a) ≡ true
    → IsKept h before (re_add batch_max recs a)
unfolding has_receipt pending
re_add-IsKept batch_max h recs before a n room k =
    let all : take (batch_max - length a.batch) recs ≡ recs =
      take_all (batch_max - length a.batch) recs (omega arith) in
    record {
      kept = ground (
        arith,
        any-append (λ r. r.message_hash == h) a.batch recs,
        k,
        ap (λ l. has_hash h (a.batch ++ l)) all,
      );
      pending_le = omega (arith, length-append a.batch recs, ap (λ l. length (a.batch ++ l)) all);
    }

-- Records that are written are in the table.
written-has_receipt :
    (h : ℕ) (recs : List AlertRecord) (a : Alerts)
    → (has_hash h recs || has_receipt h a) ≡ true
    → has_receipt h (record a { table = insert_all recs a.table }) ≡ true
unfolding has_receipt
written-has_receipt h recs a k = elim (Bool-cases (has_hash h recs)) [
  | inl given ↦ ground (arith, insert_all-has h recs a.table given)
  | inr other ↦ elim (Bool-cases (elem h a.table)) [
    | inl there ↦ ground (arith, insert_all-kept h recs a.table there)
    | inr absent ↦ ground (arith, k, other, absent)
  ]
]

write_batch-IsKept :
    (batch_max h : ℕ) (out : Outcome) (recs : List AlertRecord) (before a : Alerts)
    → length recs + pending a ≤ pending before
    → pending before < batch_max
    → (has_hash h recs || has_receipt h a) ≡ true
    → IsKept h before (write_batch batch_max out recs a)
unfolding write_batch pending has_receipt
write_batch-IsKept batch_max h out recs before a n room k =
    let stored : Alerts = record a { table = insert_all recs a.table } in
    let done : Alerts = record stored {
      senders = count_senders (tally recs []) a.senders;
      can_send_cache = forget_senders (tally recs []) a.can_send_cache;
    } in
    let there = written-has_receipt h recs a k in
    if-by (IsKept h before) (not out.written) (re_add batch_max recs a)
      (if not out.counted then re_add batch_max recs stored else done)
      (λ e. re_add-IsKept batch_max h recs before a n room k)
      (λ e.
        if-by (IsKept h before) (not out.counted) (re_add batch_max recs stored) done
          (λ f. re_add-IsKept batch_max h recs before stored n room (ground (arith, there)))
          (λ f. record { kept = there; pending_le = omega arith }))

written_from :
    (batch_max h : ℕ) (out : Outcome) (a : Alerts)
    (o : Option (List AlertRecord × List (List AlertRecord)))
    → Picked h a.in_flight o
    → pending a < batch_max
    → has_receipt h a ≡ true
    → IsKept h a (write_picked batch_max out a o)
unfolding has_receipt pending
written_from batch_max h out a none p room k = record { kept = k; pending_le = omega arith }
written_from batch_max h out a (some (recs, rest)) (e, n) room k =
    write_batch-IsKept batch_max h out recs a (record a { in_flight = rest }) (omega (arith, n))
      room (ground (arith, e, k))

end_flush-IsKept :
    (batch_max h : ℕ) (out : Outcome) (i : ℕ) (a : Alerts)
    → pending a < batch_max
    → has_receipt h a ≡ true
    → IsKept h a (end_flush batch_max out i a)
unfolding end_flush has_receipt pending
end_flush-IsKept batch_max h out i a room k =
    written_from batch_max h out a (pick i a.in_flight) (pick-Picked h i a.in_flight) room k

do_op-IsKept :
    (batch_max h : ℕ) (op : AlertOp) (a : Alerts)
    → pending a < batch_max
    → has_receipt h a ≡ true
    → IsKept h a (do_op batch_max op a)
unfolding do_op begin_flush
do_op-IsKept batch_max h (adds rec) a room k = add_alert-IsKept batch_max h rec a room k
do_op-IsKept batch_max h (adds_now out rec) a room k =
    add_alert_immediate-IsKept batch_max h out rec a room k
do_op-IsKept batch_max h begins a room k = begin_with-IsKept h a.batch a refl k
do_op-IsKept batch_max h (ends out i) a room k = end_flush-IsKept batch_max h out i a room k

-- Before each step of a run, the records that are not written yet are below the capacity.
abbrev pub HasRoom : ℕ → List AlertOp → Alerts → Type 0
HasRoom batch_max [] a = Unit {0}
HasRoom batch_max (op ∷ ops) a =
    (pending a < batch_max) × HasRoom batch_max ops (do_op batch_max op a)

-- A receipt is never lost, as long as, before each step, the records that are not written yet, in
-- the batch and in flushes, are fewer than the capacity of the batch; the run may be of any length.
-- Whatever is added, and however the flushes begin, overlap, fail as a whole or in their second
-- statement, the receipt is in the batch, in a flush or in the table.
pub do_all-keeps :
    (batch_max h : ℕ) (ops : List AlertOp) (a : Alerts)
    → HasRoom batch_max ops a
    → has_receipt h a ≡ true
    → has_receipt h (do_all batch_max ops a) ≡ true
unfolding do_all
do_all-keeps batch_max h [] a room k = k
do_all-keeps batch_max h (op ∷ ops) a (room, rest) k =
    do_all-keeps batch_max h ops (do_op batch_max op a) rest
      (do_op-IsKept batch_max h op a room k).kept
