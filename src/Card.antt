-- ===== src/Card.antt =====
-- The tags of a card (unified_alerts/card.py): which HTML tags a text leaves open, and the cut of
-- a text at a length that closes them.
pub mod Repair
pub mod Validate
pub mod Buttons
pub mod Length
pub mod Tags
pub mod Scans
pub mod Cuts
pub mod Closed
pub mod Outcome
mod Tests
use telegram_br.Base.{
  ℕ, zero, suc, ◌+◌, ◌-◌, ◌*◌, ◌/◌, ◌%◌, ◌≤◌, ◌<◌, min, max, ◌≡◌, refl, sym, ap, ◌∙◌, ◌≢◌, ◌↔◌, ◌⊎◌,
  inl, inr, Bool, true, false, not, ◌&&◌, ◌||◌, Option, none, some, List, [], ◌∷◌, ◌++◌, map, arith,
  ltb, leb, ◌==◌, if◌then◌else◌, is_some, Bool-cases, Option-cases, if-by, Time, seconds, length,
  get_elem?, take, drop, keep, any, count_by, All, length-append, length-drop, elem, distinct, Dict,
  lookup, insert, erase, insert_last, keep_last, lookup-insert, lookup-insert_self, lookup-erase,
  lookup-insert_last, length-insert-le, length-erase-le, ==_iff, ==_refl, leb_iff, ltb_iff,
  length-keep-le, append-snoc, append-nil, lookup-append, push_last, push_last-room, count_recent,
  count_window, IsHistory, IsHistory-later, Covers, sees, IsHistory-push_last, Covers-later,
  Covers-push_last, count_window-append-le, count_by-append, count_by-le-length, keep_last,
  length-keep_last-le,
}
use telegram_br.Texts.{Text, is_space, rstrip}
use telegram_br.Texts.Literals.{codes, same, member}
use telegram_br.Texts.Utf16.{utf16_len}

-- What Python's Unicode tables answer: `str.lower`.
pub record Tables : Type 0 where
  pub lower : Text → Text

-- What re.IGNORECASE takes a character for, as far as it is compared with letters of ASCII: besides
-- the capitals these are the i with a dot and the one without, the long s and the sign of Kelvin.
unfoldable pub fold : ℕ → ℕ
fold c =
    if leb 65 c && leb c 90
    then c + 32
    else if c == 304 || c == 305
    then 105
    else if c == 383
    then 115
    else if c == 8490
    then 107
    else c

abbrev pub tg_tags : List Text
tg_tags =
    codes "b"
    ∷ codes "strong"
    ∷ codes "i"
    ∷ codes "em"
    ∷ codes "u"
    ∷ codes "ins"
    ∷ codes "s"
    ∷ codes "strike"
    ∷ codes "del"
    ∷ codes "code"
    ∷ codes "pre"
    ∷ codes "a"
    ∷ codes "blockquote"
    ∷ codes "tg-spoiler"
    ∷ codes "span"
    ∷ []

-- The text after a name at its start, in any case.
abbrev pub after_name : Text → Text → Option Text
after_name [] t = some t
after_name (c ∷ name) [] = none
after_name (c ∷ name) (d ∷ t) = let rest = after_name name t in if fold d == c then rest else none

abbrev pub plus : ℕ → Option ℕ → Option ℕ
plus n none = none
plus n (some m) = some (n + m)

-- `[^>]*>`: the length up to the first `>`
abbrev pub to_end : Text → Option ℕ
to_end [] = none
to_end (c ∷ t) = let rest = to_end t in if c == 62 then some 1 else plus 1 rest

-- `(?:\s[^>]*)?>`, the end of an opening tag
unfoldable pub open_end : Text → Option ℕ
open_end [] = none
open_end (c ∷ t) = if c == 62 then some 1 else if is_space c then plus 1 (to_end t) else none

-- `\s*>`, the end of a closing tag
unfoldable pub close_end : Text → Option ℕ
close_end [] = none
close_end (c ∷ t) =
    let rest = close_end t in if c == 62 then some 1 else if is_space c then plus 1 rest else none

abbrev pub ended : (Text → Option ℕ) → Option Text → Option ℕ
ended ends none = none
ended ends (some t) = ends t

abbrev pub or_match : Option (ℕ × Text) → Option (ℕ × Text) → Option (ℕ × Text)
or_match none o = o
or_match (some r) o = some r

abbrev pub sized : Text → ℕ → Option ℕ → Option (ℕ × Text)
sized t n none = none
sized t n (some m) = some (n + m, take n t)

-- The length of the tag without what stands in front of its name, and the name as it is written.
unfoldable pub match_names : (Text → Option ℕ) → List Text → Text → Option (ℕ × Text)
match_names ends [] t = none
match_names ends (name ∷ names) t =
    or_match (sized t (length name) (ended ends (after_name name t))) (match_names ends names t)

abbrev pub longer : ℕ → Option (ℕ × Text) → Option (ℕ × Text)
longer k none = none
longer k (some (n, name)) = some (k + n, name)

-- _TAG_OPEN_RE at the start of a text: the length of the match and the name.
unfoldable pub open_tag : Text → Option (ℕ × Text)
open_tag [] = none
open_tag (c ∷ t) = if c == 60 then longer 1 (match_names open_end tg_tags t) else none

-- _TAG_CLOSE_RE at the start of a text.
unfoldable pub close_tag : Text → Option (ℕ × Text)
close_tag [] = none
close_tag (c ∷ []) = none
close_tag (c ∷ d ∷ t) =
    if c == 60 && d == 47 then longer 2 (match_names close_end tg_tags t) else none

abbrev pub canonical_name : Text → Text
canonical_name low =
    if same low (codes "strong")
    then codes "b"
    else if same low (codes "em")
    then codes "i"
    else if same low (codes "ins")
    then codes "u"
    else if same low (codes "strike")
    then codes "s"
    else if same low (codes "del")
    then codes "s"
    else low

unfoldable pub canonical_tag : Tables → Text → Text
canonical_tag py name = canonical_name (py.lower name)

pub data Kind : Type 0 where
  opens : Kind
  closes : Kind

pub record Event : Type 0 where
  pub start : ℕ
  pub kind : Kind
  pub name : Text

abbrev pub event_of : Tables → Kind → ℕ → Option (ℕ × Text) → List Event
event_of py kind start none = []
event_of py kind start (some (n, name)) =
    record { start = start; kind = kind; name = canonical_tag py name } ∷ []

abbrev pub skipped : Option (ℕ × Text) → ℕ
skipped none = 0
skipped (some (n, name)) = n - 1

-- The matches of `finditer`, which begins again behind each: `skip` characters are still to be
-- passed over.
unfoldable pub scan :
    Tables → (Text → Option (ℕ × Text)) → Kind → (start skip : ℕ) → Text → List Event
scan py tag kind start skip [] = []
scan py tag kind start (suc skip) (c ∷ t) = scan py tag kind (suc start) skip t
scan py tag kind start zero (c ∷ t) =
    let found = tag (c ∷ t) in
    event_of py kind start found ++ scan py tag kind (suc start) (skipped found) t

-- `events.sort` by the start, one after another
abbrev pub insert_event : Event → List Event → List Event
insert_event e [] = e ∷ []
insert_event e (f ∷ events) =
    let rest = insert_event e events in if leb e.start f.start then e ∷ f ∷ events else f ∷ rest

abbrev pub sort_events : List Event → List Event
sort_events [] = []
sort_events (e ∷ events) = insert_event e (sort_events events)

-- The stack below the topmost tag of a name. The top stands first.
abbrev pub below : Text → List Text → List Text
below name [] = []
below name (tag ∷ stack) = let rest = below name stack in if same tag name then stack else rest

unfoldable pub apply_event : Kind → Text → List Text → List Text
apply_event opens name stack = name ∷ stack
apply_event closes name stack = if member name stack then below name stack else stack

abbrev pub stack_after : List Event → List Text → List Text
stack_after [] stack = stack
stack_after (e ∷ events) stack = stack_after events (apply_event e.kind e.name stack)

-- The tags that are open at the end, the last one first.
unfoldable pub find_unclosed_tags : Tables → Text → List Text
find_unclosed_tags py text =
    stack_after (sort_events (scan py open_tag opens 0 0 text ++ scan py close_tag closes 0 0 text))
      []

abbrev pub width : ℕ → ℕ
width c = if ltb 65535 c then 2 else 1

-- The longest beginning that has fewer units than `max_units`.
unfoldable pub cut : ℕ → ℕ → Text → Text
cut max_units units [] = []
cut max_units units (c ∷ t) =
    let rest = cut max_units (units + width c) t in
    if ltb (max_units - 1) (units + width c) then [] else c ∷ rest

-- The text before its last `<` when no `>` comes after that.
unfoldable pub drop_partial : Text → Text
drop_partial [] = []
drop_partial (c ∷ t) =
    let rest = drop_partial t in
    if c == 60 && not (elem 60 t) && not (elem 62 t) then [] else c ∷ rest

unfoldable pub closing : List Text → Text
closing [] = []
closing (tag ∷ tags) = codes "</" ++ (tag ++ (codes ">" ++ closing tags))

unfoldable pub truncate_safe_html : Tables → Text → ℕ → Text
truncate_safe_html py text max_units =
    let head = drop_partial (cut max_units 0 text) in
    if leb (utf16_len text) max_units
    then text
    else rstrip (head ++ closing (find_unclosed_tags py head)) ++ 8230 ∷ []
