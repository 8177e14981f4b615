-- ===== src/Card/Repair.antt =====
-- The repair of a card (unified_alerts/card.py): its anchors, its length, its buttons, and the
-- counters of unified_alerts/stats.py.
use telegram_br.Base.{
  ℕ, zero, suc, ◌+◌, ◌-◌, Bool, true, false, not, ◌&&◌, ◌||◌, Option, none, some, List, [], ◌∷◌,
  ◌++◌, ltb, leb, ◌==◌, if◌then◌else◌, is_some, take, drop, keep,
}
use telegram_br.Texts.{Text, is_space, is_empty, strip}
use telegram_br.Texts.Literals.{codes, starts_with}
use telegram_br.Card.{Tables, fold, after_name, plus}

abbrev pub is_zero_width : ℕ → Bool
is_zero_width c = leb 8203 c && leb c 8207 || c == 8288 || c == 65279

-- Nothing is left but zero-width characters and whitespace.
unfoldable pub is_blank : Text → Bool
is_blank t = is_empty (strip (keep (λ c. not (is_zero_width c)) t))

-- `[^"]*">`
abbrev pub quote_end : Text → Option ℕ
quote_end [] = none
quote_end (c ∷ []) = none
quote_end (c ∷ d ∷ t) =
    let rest = quote_end (d ∷ t) in
    if c == 34 then if d == 62 then some 2 else none else plus 1 rest

abbrev pub quoted : Option Text → Option ℕ
quoted none = none
quoted (some t) = quote_end t

-- `\s*href="[^"]*">`, after the first space
abbrev pub href_end : Text → Option ℕ
href_end [] = none
href_end (c ∷ t) =
    let rest = href_end t in
    if is_space c then plus 1 rest else plus 6 (quoted (after_name (codes "href=\"") (c ∷ t)))

-- _ANCHOR_OPEN at the start of a text: the length of the match.
unfoldable pub anchor_open : Text → Option ℕ
anchor_open (c ∷ d ∷ e ∷ t) =
    if c == 60 && fold d == 97 && is_space e then plus 3 (href_end t) else none
anchor_open (c ∷ d ∷ []) = none
anchor_open (c ∷ []) = none
anchor_open [] = none

abbrev pub anchor_close : Text → Option ℕ
anchor_close t = if starts_with (codes "</a>") t then some 4 else none

abbrev pub or_one : Option ℕ → ℕ
or_one none = 0
or_one (some n) = n - 1

-- The number of matches that do not overlap.
unfoldable pub count_matches : (Text → Option ℕ) → ℕ → Text → ℕ
count_matches tag skip [] = 0
count_matches tag (suc skip) (c ∷ t) = count_matches tag skip t
count_matches tag zero (c ∷ t) =
    let found = tag (c ∷ t) in (if is_some found then 1 else 0) + count_matches tag (or_one found) t

abbrev pub or_else : Option ℕ → Option ℕ → Option ℕ
or_else none o = o
or_else (some n) o = some n

-- `t.rfind("</a>")`, none for -1
unfoldable pub last_close : Text → Option ℕ
last_close [] = none
last_close (c ∷ t) =
    let here = if is_some (anchor_close (c ∷ t)) then some 0 else none in
    or_else (plus 1 (last_close t)) here

abbrev pub without_close : Text → Option ℕ → Option Text
without_close t none = none
without_close t (some i) = some (take i t ++ drop (i + 4) t)

abbrev pub go_on : (Text → Text) → Text → Option Text → Text
go_on again fixed none = fixed
go_on again fixed (some t) = again t

-- `t * n`
abbrev pub repeated : ℕ → Text → Text
repeated zero t = []
repeated (suc n) t = t ++ repeated n t

-- The loop that removes so many closing anchors from the end.
unfoldable pub remove_closes : Tables → ℕ → Text → Text
remove_closes py zero fixed = fixed
remove_closes py (suc n) fixed =
    go_on (remove_closes py n) fixed (without_close fixed (last_close (py.lower fixed)))

unfoldable pub balance_anchors : Tables → Text → Text × Bool
balance_anchors py text =
    let opened = count_matches anchor_open 0 text in
    let closed = count_matches anchor_close 0 (py.lower text) in
    if opened == closed
    then (text, false)
    else if ltb closed opened
    then (text ++ repeated (opened - closed) (codes "</a>"), true)
    else (remove_closes py (closed - opened) text, true)

-- A button as it is passed in; one that is no dict has no `get`.
pub data RawButton : Type 0 where
  malformed : RawButton
  button : (text url : Option Text) → RawButton

pub record Button : Type 0 where
  pub text : Text
  pub url : Text

unfoldable pub is_valid_url : Option Text → Bool
is_valid_url none = false
is_valid_url (some url) =
    let u = strip url in
    starts_with (codes "https://") u
    || starts_with (codes "http://") u
    || starts_with (codes "tg://") u

abbrev pub or_empty : Option Text → Text
or_empty none = []
or_empty (some t) = t

-- The button that is kept, if it is.
unfoldable pub clean_button : RawButton → Option Button
clean_button malformed = none
clean_button (button text url) =
    let txt = strip (or_empty text) in
    if not (is_empty txt) && is_valid_url url
    then some (record { text = take 64 txt; url = or_empty url })
    else none

abbrev pub add_button : Option Button → List Button × ℕ → List Button × ℕ
add_button none (row, dropped) = (row, dropped + 1)
add_button (some b) (row, dropped) = (b ∷ row, dropped)

unfoldable pub clean_row : List RawButton → List Button × ℕ
clean_row [] = ([], 0)
clean_row (b ∷ row) = add_button (clean_button b) (clean_row row)

abbrev pub add_row : List Button → List (List Button) → List (List Button)
add_row [] rows = rows
add_row (b ∷ row) rows = (b ∷ row) ∷ rows

unfoldable pub clean_buttons : List (List RawButton) → List (List Button) × ℕ
clean_buttons [] = ([], 0)
clean_buttons (row ∷ rows) =
    let rest = clean_buttons rows in (add_row (clean_row row).0 rest.0, (clean_row row).1 + rest.1)
