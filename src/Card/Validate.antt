-- ===== src/Card/Validate.antt =====
-- validate_and_repair_card (unified_alerts/card.py), with the counters of unified_alerts/stats.py.
use telegram_br.Base.{
  ℕ, zero, suc, ◌+◌, ◌-◌, min, max, Bool, true, false, ◌&&◌, ◌||◌, Option, none, some, List, [],
  ◌∷◌, ◌++◌, ltb, if◌then◌else◌,
}
use telegram_br.Texts.{Text}
use telegram_br.Texts.Utf16.{utf16_len}
use telegram_br.Card.{Tables, truncate_safe_html}
use telegram_br.Card.Repair.{is_blank, balance_anchors, RawButton, Button, clean_buttons}

pub record CardStats : Type 0 where
  pub card_valid : ℕ
  pub card_repaired : ℕ
  pub card_dropped : ℕ

pub data CardReason : Type 0 where
  empty_text : CardReason
  anchors_balanced : CardReason
  truncated_to_limit : CardReason
  buttons_dropped : ℕ → CardReason
  empty_after_repair : CardReason

pub record CardReport : Type 0 where
  pub ok : Bool
  pub reasons : List CardReason
  pub repaired_text : Option Text
  pub repaired_buttons : Option (List (List Button))
  pub dropped_buttons : ℕ

abbrev pub or_default : ℕ → ℕ → ℕ
or_default zero d = d
or_default (suc n) d = suc n

abbrev pub tightened : ℕ → Option ℕ → ℕ
tightened limit none = limit
tightened limit (some zero) = limit
tightened limit (some (suc n)) = min limit (max 256 (suc n))

-- The limit from ALERT_CARD_MAX_CHARS, the hard limit of 4096 and the argument.
unfoldable pub card_limit : ℕ → Option ℕ → ℕ
card_limit cfg_max max_chars =
    tightened (min (max 256 (or_default cfg_max 4000)) (4096 - 96)) max_chars

abbrev pub when : Bool → CardReason → List CardReason
when true r = r ∷ []
when false r = []

abbrev pub cleaned : Option (List (List RawButton)) → Option (List (List Button)) × ℕ
cleaned none = (none, 0)
cleaned (some rows) = (some (clean_buttons rows).0, (clean_buttons rows).1)

-- The text within the limit, and whether it was cut.
unfoldable pub shorten : Tables → ℕ → Text → Text × Bool
shorten py limit text =
    if ltb limit (utf16_len text) then (truncate_safe_html py text limit, true) else (text, false)

-- The report after the repairs.
unfoldable pub finish :
    Text
    → List CardReason
    → Bool
    → Option (List (List Button)) × ℕ
    → CardStats
    → CardReport × CardStats
finish text reasons repaired (buttons, dropped) stats =
    if is_blank text
    then (
      record {
        ok = false;
        reasons = reasons ++ empty_after_repair ∷ [];
        repaired_text = none;
        repaired_buttons = buttons;
        dropped_buttons = dropped;
      },
      record stats { card_dropped = stats.card_dropped + 1 },
    )
    else if repaired
    then (
      record {
        ok = true;
        reasons = reasons;
        repaired_text = some text;
        repaired_buttons = buttons;
        dropped_buttons = dropped;
      },
      record stats { card_repaired = stats.card_repaired + 1 },
    )
    else (
      record {
        ok = true;
        reasons = [];
        repaired_text = none;
        repaired_buttons = buttons;
        dropped_buttons = 0;
      },
      record stats { card_valid = stats.card_valid + 1 },
    )

-- A text that is missing counts as the empty one.
abbrev pub or_missing : Option Text → Text
or_missing none = []
or_missing (some t) = t

unfoldable pub repair_card :
    Tables → ℕ → Text → Option (List (List RawButton)) → CardStats → CardReport × CardStats
repair_card py limit given buttons stats =
    let (text, changed) = balance_anchors py given in
    let (short, was_cut) = shorten py limit text in
    let (kept, dropped) = cleaned buttons in
    finish short
      (when changed anchors_balanced
        ++ when was_cut truncated_to_limit
        ++ when (ltb 0 dropped) (buttons_dropped dropped))
      (changed || was_cut || ltb 0 dropped) (kept, dropped) stats

unfoldable pub validate_and_repair_card :
    Tables
    → ℕ
    → Option Text
    → Option (List (List RawButton))
    → Option ℕ
    → CardStats
    → CardReport × CardStats
validate_and_repair_card py cfg_max text buttons max_chars stats =
    if is_blank (or_missing text)
    then (
      record {
        ok = false;
        reasons = empty_text ∷ [];
        repaired_text = none;
        repaired_buttons = none;
        dropped_buttons = 0;
      },
      record stats { card_dropped = stats.card_dropped + 1 },
    )
    else repair_card py (card_limit cfg_max max_chars) (or_missing text) buttons stats

abbrev pub is_empty_or_none : Option Text → Bool
is_empty_or_none none = true
is_empty_or_none (some []) = true
is_empty_or_none (some (c ∷ t)) = false

unfoldable pub validate_card :
    Tables
    → ℕ
    → Option Text
    → Option (List (List RawButton))
    → Option ℕ
    → CardStats
    → Bool × CardStats
validate_card py cfg_max text buttons max_chars stats =
    let (rep, after) = validate_and_repair_card py cfg_max text buttons max_chars stats in
    (rep.ok && is_empty_or_none rep.repaired_text, after)
