-- ===== src/Alerts/Tests.antt =====
-- Receipts, a flush and a cooldown, and the witnesses of their theorems.
use telegram_br.Base.{◌≡◌, refl, true, false, some, List, [], ◌∷◌, arith, seconds, lookup}
use telegram_br.Alerts.{
  AlertRecord, SenderRow, Alerts, add_alert, Outcome, insert_receipt, add_alert_immediate,
  alert_exists, begin_flush, write_batch, end_flush, make_room, can_send_alert,
}
use telegram_br.Alerts.Receipts.{
  adds, begins, ends, do_op, do_all, has_receipt, pending, HasRoom, AlertOp, do_all-keeps,
}
use telegram_br.Alerts.Cooldown.{Query, Before, ask_all, add_alert_immediate-can_send_alert}

abbrev some_row : SenderRow
some_row = record { reputation_score = 0; alerts_sent = 2; last_alert_time = seconds 5 }

abbrev some_alerts : Alerts
some_alerts = record {
  batch = [];
  in_flight = [];
  table = 3 ∷ [];
  senders = (9, some_row) ∷ [];
  can_send_cache = (9, (true, seconds 500)) ∷ [];
}

abbrev receipt : AlertRecord
receipt = record { message_hash = 7; sender_id = 9; timestamp = seconds 100 }

abbrev later_receipt : AlertRecord
later_receipt = record { message_hash = 8; sender_id = 9; timestamp = seconds 130 }

abbrev ok : Outcome
ok = record { written = true; counted = true }

abbrev failed : Outcome
failed = record { written = false; counted = true }

program : Unit {0}
unfolding add_alert insert_receipt add_alert_immediate alert_exists begin_flush write_batch
    end_flush make_room can_send_alert do_op do_all has_receipt pending
program = tt

-- While a flush is under way, the receipts that it has taken are not found, and are found again
-- when it has ended.
receipt-unseen : alert_exists true 7 (do_all 4 (adds receipt ∷ begins ∷ []) some_alerts) ≡ false
unfolding program
receipt-unseen = refl

receipt-seen :
    alert_exists true 7 (do_all 4 (adds receipt ∷ begins ∷ ends failed 0 ∷ []) some_alerts) ≡ true
unfolding program
receipt-seen = refl

-- The alerts of one flush are counted together, under the latest time.
flushed-row :
    lookup 9
      (do_all 4 (adds later_receipt ∷ adds receipt ∷ begins ∷ ends ok 0 ∷ []) some_alerts).senders
    ≡ some (record { reputation_score = 0; alerts_sent = 4; last_alert_time = seconds 130 })
unfolding program
flushed-row = refl

-- A full batch loses its oldest record.
batch-lost : has_receipt 7 (do_all 1 (adds receipt ∷ adds later_receipt ∷ []) some_alerts) ≡ false
unfolding program
batch-lost = refl

abbrev after_receipt : Alerts
after_receipt = do_all 4 (adds receipt ∷ []) some_alerts

after_receipt-has : has_receipt 7 after_receipt ≡ true
unfolding program
after_receipt-has = refl

abbrev later_ops : List AlertOp
later_ops =
    begins
    ∷ adds later_receipt
    ∷ ends failed 0
    ∷ begins
    ∷ ends ok 0
    ∷ adds later_receipt
    ∷ begins
    ∷ ends ok 0
    ∷ []

after_receipt-HasRoom : HasRoom 4 later_ops after_receipt
unfolding program
after_receipt-HasRoom = omega arith

do_all-keeps_example : has_receipt 7 (do_all 4 later_ops after_receipt) ≡ true
do_all-keeps_example =
    do_all-keeps 4 7 later_ops after_receipt after_receipt-HasRoom after_receipt-has

abbrev queries : List Query
queries =
    (true, (9, seconds 101))
    ∷ (true, (5, seconds 103))
    ∷ (false, (9, seconds 108))
    ∷ (true, (9, seconds 109))
    ∷ []

queries-Before : Before (seconds 60) (seconds 15) (seconds 130) queries
queries-Before = omega arith

add_alert_immediate-can_send_alert_example :
    (can_send_alert true (seconds 60) (seconds 15) 9 (seconds 129) (
      ask_all
        (seconds 60)
        (seconds 15)
        queries
        (add_alert_immediate 4
          (record { written = true; counted = true })
          receipt
          some_alerts).0)).1
    ≡ false
add_alert_immediate-can_send_alert_example =
    add_alert_immediate-can_send_alert (seconds 60) (seconds 15) 4 receipt some_row some_alerts
      queries (seconds 129) refl refl (omega arith) queries-Before (omega arith)
