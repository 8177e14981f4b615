-- ===== src/Card/Buttons.antt =====
-- The buttons of a repaired card (unified_alerts/card.py).
use telegram_br.Base.{
  ℕ, zero, suc, ◌+◌, ◌≤◌, ◌<◌, ◌≡◌, refl, ◌∙◌, true, false, not, ◌&&◌, Option, none, some, List, [],
  ◌∷◌, arith, if-by, length, take, All,
}
use telegram_br.Texts.{Text, strip, is_empty}
use telegram_br.Card.Repair.{
  is_valid_url, or_empty, RawButton, malformed, button, Button, clean_button, add_button, clean_row,
  add_row, clean_buttons,
}

-- A button that Telegram takes: it has a text of at most 64 characters and a link.
pub record IsButton (b : Button) : Type 0 where
  pub shown : is_empty b.text ≡ false
  pub short : length b.text ≤ 64
  pub linked : is_valid_url (some b.url) ≡ true

-- No row is empty, and all their buttons are good.
abbrev pub AreRows : List (List Button) → Type 0
AreRows = All (λ row. (0 < length row) × All IsButton row)

-- The buttons of a keyboard.
abbrev pub number_of {ℓ} : {A : Type ℓ} → List (List A) → ℕ
number_of [] = 0
number_of (row ∷ rows) = length row + number_of rows

length-take-le : (n : ℕ) (t : Text) → length (take n t) ≤ n
length-take-le zero t = omega arith
length-take-le (suc n) [] = omega arith
length-take-le (suc n) (c ∷ t) = omega (arith, length-take-le n t)

take_64 : (t : Text) → is_empty (take 64 t) ≡ is_empty t
take_64 [] = refl
take_64 (c ∷ t) = refl

-- A button that is kept is a good one.
IsKept : Option Button → Type 0
IsKept none = Unit {0}
IsKept (some b) = IsButton b

valid_given :
    (url : Option Text) → is_valid_url url ≡ true → is_valid_url (some (or_empty url)) ≡ true
unfolding is_valid_url
valid_given none e = absurd (ground arith)
valid_given (some url) e = e

clean_button-IsKept : (r : RawButton) → IsKept (clean_button r)
unfolding clean_button IsKept
clean_button-IsKept malformed = tt
clean_button-IsKept (button text url) =
    let txt = strip (or_empty text) in
    if-by IsKept (not (is_empty txt) && is_valid_url url) _ _
      (λ e. record {
        shown = take_64 txt ∙ ground (arith, e);
        short = length-take-le 64 txt;
        linked = valid_given url (ground (arith, e));
      })
      (λ e. tt)

add_button-kept :
    (o : Option Button) (r : List Button × ℕ)
    → IsKept o
    → All IsButton r.0
    → All IsButton (add_button o r).0
      × (length (add_button o r).0 + (add_button o r).1 ≡ suc (length r.0 + r.1))
unfolding IsKept
add_button-kept none r k a = (a, omega arith)
add_button-kept (some b) r k a = ((k, a), omega arith)

clean_row-kept :
    (row : List RawButton)
    → All IsButton (clean_row row).0 × (length (clean_row row).0 + (clean_row row).1 ≡ length row)
unfolding clean_row
clean_row-kept [] = (tt, refl)
clean_row-kept (b ∷ row) =
    let ih = clean_row-kept row in
    let now = add_button-kept (clean_button b) (clean_row row) (clean_button-IsKept b) ih.0 in
    (now.0, omega (arith, now.1, ih.1))

add_row-kept :
    (row : List Button) (rows : List (List Button))
    → All IsButton row
    → AreRows rows
    → AreRows (add_row row rows) × (number_of (add_row row rows) ≡ length row + number_of rows)
add_row-kept [] rows a w = (w, omega arith)
add_row-kept (b ∷ row) rows a w = (((omega arith, a), w), refl)

-- The keyboard that is kept has no empty row, each of its buttons has a text of one to 64
-- characters and a link of a valid shape, and the kept and the dropped buttons are together as
-- many as were given.
pub clean_buttons-AreRows :
    (rows : List (List RawButton))
    → AreRows (clean_buttons rows).0
      × (number_of (clean_buttons rows).0 + (clean_buttons rows).1 ≡ number_of rows)
unfolding clean_buttons
clean_buttons-AreRows [] = (tt, refl)
clean_buttons-AreRows (row ∷ rows) =
    let ih = clean_buttons-AreRows rows in
    let now = clean_row-kept row in
    let both = add_row-kept (clean_row row).0 (clean_buttons rows).0 now.0 ih.0 in
    (both.0, omega (arith, both.1, ih.1, now.1))
