-- ===== src/Card/Tests.antt =====
-- Cards that are repaired, and the witnesses of their theorems.
use telegram_br.Base.{
  ◌+◌, ◌≤◌, ◌<◌, ◌≡◌, refl, true, false, ◌&&◌, none, some, List, [], ◌∷◌, ◌++◌, map, arith, leb,
  if◌then◌else◌, length, All,
}
use telegram_br.Texts.{Text, is_space, lstrip, rstrip, strip}
use telegram_br.Texts.Literals.{codes, member}
use telegram_br.Texts.Utf16.{utf16, utf16_len}
use telegram_br.Card.{
  Tables, fold, open_end, close_end, match_names, open_tag, close_tag, canonical_tag, scan,
  apply_event, find_unclosed_tags, cut, drop_partial, closing, truncate_safe_html,
}
use telegram_br.Card.Repair.{
  is_blank, anchor_open, count_matches, last_close, remove_closes, balance_anchors, is_valid_url,
  RawButton, malformed, button, clean_button, clean_row, clean_buttons,
}
use telegram_br.Card.Validate.{
  CardStats, card_limit, shorten, finish, repair_card, validate_and_repair_card, validate_card,
  or_missing,
}
use telegram_br.Card.Tags.{is_tagged}
use telegram_br.Card.Buttons.{AreRows, number_of, clean_buttons-AreRows}
use telegram_br.Card.Length.{truncate_safe_html-le}
use telegram_br.Card.Closed.{canonical_tags, LowersTags, truncate_safe_html-closed}
use telegram_br.Card.Outcome.{IsCounted, sent_text, counted, validate_and_repair_card-IsCounted}

abbrev ascii : Tables
ascii = record { lower = map (λ c. if leb 65 c && leb c 90 then c + 32 else c) }

program : Unit {0}
unfolding is_space lstrip rstrip strip utf16_len fold open_end close_end match_names open_tag
    close_tag canonical_tag scan apply_event find_unclosed_tags cut drop_partial closing
    truncate_safe_html is_blank anchor_open count_matches last_close remove_closes balance_anchors
    is_valid_url clean_button clean_row clean_buttons card_limit shorten finish repair_card
    validate_and_repair_card validate_card is_tagged sent_text counted
program = tt

abbrev bold : Text
bold = codes "<B>one <i class=x>two</em> <code>three and four</code></B>"

bold-unclosed : find_unclosed_tags ascii (codes "<B>a<strong>b<i>c</b>") ≡ codes "b" ∷ []
unfolding program
bold-unclosed = refl

-- The cut falls into the tag of the i.
bold-cut : truncate_safe_html ascii bold 15 ≡ codes "<B>one </b>" ++ 8230 ∷ []
unfolding program
bold-cut = refl

-- The closing tags come on top of the limit of 24: the text has 30 characters.
bold-cut_later :
    truncate_safe_html ascii bold 24 ≡ codes "<B>one <i class=x>two</i></b>" ++ 8230 ∷ []
unfolding program
bold-cut_later = refl

-- A closing anchor too many is removed, one that is missing is added.
anchors_balanced :
    ((balance_anchors ascii (codes "a</A>b")).0 ≡ codes "ab")
    × ((balance_anchors ascii (codes "<a  href=\"x\">b")).0 ≡ codes "<a  href=\"x\">b</a>")
unfolding program
anchors_balanced = (refl, refl)

abbrev keyboard : List (List RawButton)
keyboard =
    (button (some (codes " go ")) (some (codes "https://t.me/x")) ∷ malformed ∷ [])
    ∷ (button (some (codes "no")) (some (codes "ftp://x")) ∷ [])
    ∷ []

keyboard-dropped : (clean_buttons keyboard).1 ≡ 2
unfolding program
keyboard-dropped = refl

abbrev no_cards : CardStats
no_cards = record { card_valid = 0; card_repaired = 0; card_dropped = 0 }

keyboard-repaired :
    (validate_and_repair_card ascii 0
      (some (codes "hi"))
      (some keyboard)
      none
      no_cards).1.card_repaired
    ≡ 1
unfolding program
keyboard-repaired = refl

ascii-LowersTags : LowersTags ascii
ascii-LowersTags =
    (refl, (refl, (refl, (refl, (refl, (refl, (refl, (refl, (refl, (refl, tt))))))))))

bold-tagged : is_tagged false bold ≡ true
unfolding program
bold-tagged = refl

bold-length : 24 < utf16_len bold
unfolding program
bold-length = omega arith

bold-open :
    All
      (λ tag. member tag canonical_tags ≡ true)
      (find_unclosed_tags ascii (drop_partial (cut 24 0 bold)))
unfolding program
bold-open = (refl, (refl, tt))

truncate_safe_html-closed_example : find_unclosed_tags ascii (truncate_safe_html ascii bold 24) ≡ []
truncate_safe_html-closed_example =
    truncate_safe_html-closed ascii bold 24 ascii-LowersTags bold-tagged bold-length bold-open

truncate_safe_html-le_example :
    utf16_len (truncate_safe_html ascii bold 24)
    ≤ 24 + length (utf16 (closing (find_unclosed_tags ascii (drop_partial (cut 24 0 bold)))))
truncate_safe_html-le_example = truncate_safe_html-le ascii bold 24 (omega arith)

clean_buttons-AreRows_example :
    AreRows (clean_buttons keyboard).0
    × (number_of (clean_buttons keyboard).0 + (clean_buttons keyboard).1 ≡ number_of keyboard)
clean_buttons-AreRows_example = clean_buttons-AreRows keyboard

validate_and_repair_card-IsCounted_example :
    IsCounted
      (or_missing (some bold))
      no_cards
      (validate_and_repair_card ascii 0 (some bold) (some keyboard) none no_cards)
validate_and_repair_card-IsCounted_example =
    validate_and_repair_card-IsCounted ascii 0 (some bold) (some keyboard) none no_cards
