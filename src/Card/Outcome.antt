-- ===== src/Card/Outcome.antt =====
-- The report on a card (unified_alerts/card.py): what is sent is never blank, and each card is
-- counted once.
use telegram_br.Base.{
  ℕ, suc, ◌+◌, ◌≡◌, refl, Bool, false, ◌&&◌, Option, none, some, List, arith, if◌then◌else◌, if-by,
}
use telegram_br.Texts.{Text}
use telegram_br.Card.{Tables}
use telegram_br.Card.Repair.{is_blank, RawButton, Button}
use telegram_br.Card.Validate.{
  CardStats, CardReason, CardReport, finish, or_missing, repair_card, validate_and_repair_card,
}

-- The text that is sent: the repaired one, if there is one, or else the given one.
abbrev or_given : Option Text → Text → Text
or_given none given = given
or_given (some t) given = t

unfoldable pub sent_text : CardReport → Text → Text
sent_text rep given = or_given rep.repaired_text given

-- The cards that were counted.
unfoldable pub counted : CardStats → ℕ
counted s = s.card_valid + s.card_repaired + s.card_dropped

-- A report in which nothing blank is sent, and which is counted once, under its outcome.
pub record IsCounted (given : Text) (before : CardStats) (r : CardReport × CardStats) : Type 0 where
  pub content : (r.0.ok && is_blank (sent_text r.0 given)) ≡ false
  pub once : counted r.1 ≡ suc (counted before)
  pub dropped : r.1.card_dropped ≡ before.card_dropped + (if r.0.ok then 0 else 1)

finish-IsCounted :
    (given text : Text) (reasons : List CardReason) (repaired : Bool)
    (kept : Option (List (List Button)) × ℕ) (s : CardStats)
    → is_blank given ≡ false
    → IsCounted given s (finish text reasons repaired kept s)
unfolding finish counted sent_text
finish-IsCounted given text reasons repaired kept s h =
    if-by (IsCounted given s) (is_blank text) _ _
      (λ e. record { content = refl; once = omega arith; dropped = omega arith })
      (λ e.
        if-by (IsCounted given s) repaired _ _
          (λ f. record { content = e; once = omega arith; dropped = omega arith })
          (λ f. record { content = h; once = omega arith; dropped = omega arith }))

-- Every card is counted once, as valid, repaired or dropped, and as dropped exactly if the report
-- is not ok; where it is ok, the text to send, repaired or as it was given, has more in it than
-- whitespace and zero-width characters. This holds of whatever text, buttons and limits.
pub validate_and_repair_card-IsCounted :
    (py : Tables) (cfg_max : ℕ) (text : Option Text) (buttons : Option (List (List RawButton)))
    (max_chars : Option ℕ) (s : CardStats)
    → IsCounted (or_missing text) s (validate_and_repair_card py cfg_max text buttons max_chars s)
unfolding validate_and_repair_card repair_card counted
validate_and_repair_card-IsCounted py cfg_max text buttons max_chars s =
    if-by (IsCounted (or_missing text) s) (is_blank (or_missing text)) _ _
      (λ e. record { content = refl; once = omega arith; dropped = omega arith })
      (λ e. finish-IsCounted (or_missing text) _ _ _ _ s e)
