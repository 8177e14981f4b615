-- ===== src/Capture/Tests.antt =====
-- Calls on a small capture buffer, and the witnesses of its theorems.
use telegram_br.Base.{ℕ, ◌≡◌, refl, true, false, none, some, List, [], ◌∷◌, map, is_some, seconds}
use telegram_br.Capture.{
  Entry, Buffer, init, Message, gc, shrink, save_entry, save, take_fresh, lookup_entry,
  change_entry, claim_entry, claim_deleted, Call, saves, marks_alerted, perform, perform_all,
}
use telegram_br.Capture.Deleted.{claim_deleted_once}

abbrev message : ℕ → Message
message n = record {
  chat_id = some 7;
  msg_id = n;
  text = 65 ∷ [];
  sender_id = 5;
  sender_name = [];
  account = [];
  meta = record {
    sender_username = none;
    sender_first_name = none;
    sender_last_name = none;
    sender_access_hash = none;
    sender_meta_full = none;
  };
}

abbrev calls : List Call
calls =
    saves (seconds 10) (message 1)
    ∷ saves (seconds 11) (message 2)
    ∷ saves (seconds 12) (message 3)
    ∷ marks_alerted (seconds 13) none 3
    ∷ []

program : Unit {0}
unfolding gc shrink save_entry save take_fresh lookup_entry change_entry claim_entry perform
    perform_all
program = tt

perform_all-evicts : map (λ (e : Entry). e.msg_id) (perform_all calls (init 2 30)).buf ≡ 2 ∷ 3 ∷ []
unfolding program
perform_all-evicts = refl

perform_all-alerts :
    map (λ (e : Entry). e.alerted) (perform_all calls (init 2 30)).buf ≡ false ∷ true ∷ []
unfolding program
perform_all-alerts = refl

abbrev captured : Buffer
captured = perform_all calls (init 2 30)

claim_deleted-wins : is_some (claim_deleted (seconds 14) (some 7) 3 captured).1 ≡ true
unfolding program
claim_deleted-wins = refl

claim_deleted_once_example :
    (claim_deleted (seconds 16) (some 7) 3 (
      perform_all
        (saves (seconds 15) (message 4) ∷ [])
        (claim_deleted (seconds 14) (some 7) 3 captured).0)).1
    ≡ none
claim_deleted_once_example =
    claim_deleted_once 7 3 (seconds 14) (seconds 16) (saves (seconds 15) (message 4) ∷ []) captured
      claim_deleted-wins (refl, tt)
