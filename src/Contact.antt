-- ===== src/Contact.antt =====
-- The contact of a sender (contact_target.py), with the helpers it takes from nav_resolver.py and
-- sender_resolver.py: which link reaches the sender, what is counted, and when a card may use it.
pub mod Target
pub mod Pack
pub mod Offsets
pub mod Choice
pub mod Usable
mod Tests
use telegram_br.Base.{
  ℕ, zero, suc, ◌+◌, ◌-◌, ◌*◌, ◌/◌, ◌%◌, ◌≤◌, ◌<◌, min, max, ◌≡◌, refl, sym, ap, ◌∙◌, ◌≢◌, ◌↔◌, ◌⊎◌,
  inl, inr, Bool, true, false, not, ◌&&◌, ◌||◌, Option, none, some, List, [], ◌∷◌, ◌++◌, map, arith,
  ltb, leb, ◌==◌, if◌then◌else◌, is_some, Bool-cases, Option-cases, if-by, Time, seconds, length,
  get_elem?, take, drop, keep, any, count_by, All, length-append, length-drop, elem, distinct, Dict,
  lookup, insert, erase, insert_last, keep_last, lookup-insert, lookup-insert_self, lookup-erase,
  lookup-insert_last, length-insert-le, length-erase-le, ==_iff, ==_refl, leb_iff, ltb_iff,
  length-keep-le, append-snoc, append-nil, lookup-append, push_last, push_last-room, count_recent,
  count_window, IsHistory, IsHistory-later, Covers, sees, IsHistory-push_last, Covers-later,
  Covers-push_last, count_window-append-le, count_by-append, count_by-le-length, keep_last,
  length-keep_last-le,
}
use telegram_br.Texts.{Text, strip, is_empty}
use telegram_br.Texts.Literals.{codes, same, member, starts_with, lstrip_char, digits}

-- What Python's Unicode tables answer: `str.lower` and `str.isdigit` of a character.
pub record Unicode : Type 0 where
  pub lower : Text → Text
  pub is_digit : ℕ → Bool

-- `str(value or "")`, for a value that is a text or missing
abbrev pub or_empty : Option Text → Text
or_empty none = []
or_empty (some t) = t

-- None for the empty text
abbrev pub non_empty : Text → Option Text
non_empty [] = none
non_empty (c ∷ t) = some (c ∷ t)

unfoldable pub clean_username : Option Text → Option Text
clean_username none = none
clean_username (some value) = non_empty (lstrip_char 64 (strip value))

abbrev pub is_letter : ℕ → Bool
is_letter c = leb 65 c && leb c 90 || leb 97 c && leb c 122

abbrev pub is_word : ℕ → Bool
is_word c = is_letter c || leb 48 c && leb c 57 || c == 95

-- The rest of _USERNAME_RE after its first letter and `n` characters more. Its `$` also stands
-- before a final newline.
abbrev pub matches_rest : ℕ → Text → Bool
matches_rest n [] = leb 4 n && leb n 31
matches_rest n (c ∷ t) =
    let rest = matches_rest (suc n) t in
    if is_word c then rest else c == 10 && is_empty t && leb 4 n && leb n 31

unfoldable pub matches_username : Option Text → Bool
matches_username none = false
matches_username (some []) = false
matches_username (some (c ∷ t)) = is_letter c && matches_rest 0 t

unfoldable pub is_valid_username : Option Text → Bool
is_valid_username value = matches_username (clean_username value)

-- `str(username or "").strip().lstrip("@")`
unfoldable pub bare_username : Option Text → Text
bare_username username = lstrip_char 64 (strip (or_empty username))

abbrev pub sender_dash : Text
sender_dash = 32 ∷ 8212 ∷ 32 ∷ []

abbrev pub is_usable : Text → Bool
is_usable u = not (is_empty u) && is_valid_username (some u)

unfoldable pub build_username_suffix : Option Text → Text
build_username_suffix username =
    let u = bare_username username in if is_usable u then sender_dash ++ codes "@" ++ u else []

unfoldable pub build_username_suffix_linked : Option Text → Option Text → Text
build_username_suffix_linked username url =
    let u = bare_username username in
    let link = strip (or_empty url) in
    if not (is_usable u)
    then []
    else if not (
        starts_with (codes "https://") link
        || starts_with (codes "http://") link
        || starts_with (codes "tg://") link)
    then []
    else sender_dash ++ codes "<a href=\"" ++ link ++ codes "\">@" ++ u ++ codes "</a>"

-- The text of a phone number without its prefix for calls abroad.
abbrev pub without_prefix : Text → Text
without_prefix s =
    if starts_with (codes "00") s
    then drop 2 s
    else if starts_with (codes "+") s
    then drop 1 s
    else s

abbrev pub phone_link : Text → Option Text
phone_link found =
    if is_empty found || ltb (length found) 8 || ltb 15 (length found)
    then none
    else some (codes "https://t.me/+" ++ found)

unfoldable pub build_phone_url : Unicode → Option Text → Option Text
build_phone_url py none = none
build_phone_url py (some phone) =
    let s = strip phone in
    if is_empty s then none else phone_link (keep py.is_digit (without_prefix s))

-- `_is_truthy`: a Boolean, a finite number by its whole part, a text, or any other value.
pub data Value : Type 0 where
  bool : Bool → Value
  number : ℕ → Value
  text : Text → Value
  other : Value

unfoldable pub is_truthy : Unicode → Value → Bool
is_truthy py (bool b) = b
is_truthy py (number n) = n == 1
is_truthy py (text t) =
    member (py.lower (strip t)) (codes "true" ∷ codes "1" ∷ codes "yes" ∷ codes "on" ∷ [])
is_truthy py other = false

unfoldable pub unknown_sender : Text
unknown_sender =
    1605 ∷ 1585 ∷ 1587 ∷ 1604 ∷ 32 ∷ 1594 ∷ 1610 ∷ 1585 ∷ 32 ∷ 1605 ∷ 1581 ∷ 1583 ∷ 1583 ∷ []

abbrev pub named : Option Text → Text
named none = unknown_sender
named (some uname) = uname

unfoldable pub build_display_name : Option Text → Option Text → Option Text → Option Text → Text
build_display_name first_name last_name username display =
    let shown = strip (or_empty display) in
    let full = strip (or_empty first_name ++ codes " " ++ or_empty last_name) in
    if not (is_empty shown)
    then shown
    else if not (is_empty full)
    then full
    else named (clean_username username)

-- _CONTACT_METRICS, by the positions of _METRIC_KEYS; these are the ones that are counted here.
abbrev pub Metrics : Type 0
Metrics = Dict ℕ

abbrev pub sender_resolution_success : ℕ
sender_resolution_success = 0

abbrev pub sender_resolution_failure : ℕ
sender_resolution_failure = 1

abbrev pub username_available : ℕ
username_available = 2

abbrev pub user_id_fallback : ℕ
user_id_fallback = 3

abbrev pub temporary_link_used : ℕ
temporary_link_used = 4

abbrev pub phone_fallback : ℕ
phone_fallback = 5

abbrev pub openmessage_fallback : ℕ
openmessage_fallback = 6

abbrev pub metric_keys : ℕ
metric_keys = 34

abbrev pub or_zero : Option ℕ → ℕ
or_zero none = 0
or_zero (some n) = n

-- `_CONTACT_METRICS.get(key, 0)`, which get_contact_metrics_snapshot shows
abbrev pub metric : ℕ → Metrics → ℕ
metric key m = or_zero (lookup key m)

unfoldable pub metric_inc : ℕ → Metrics → Metrics
metric_inc name m = if ltb name metric_keys then insert name (metric name m + 1) m else m
