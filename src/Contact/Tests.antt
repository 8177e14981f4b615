-- ===== src/Contact/Tests.antt =====
-- Contacts of some senders, and the witnesses of their theorems.
use telegram_br.Base.{
  ◌+◌, ◌≡◌, refl, true, false, not, ◌&&◌, Option, none, some, [], ◌∷◌, map, leb, if◌then◌else◌,
  is_some, length, any,
}
use telegram_br.Texts.{Text, is_space, lstrip, rstrip, strip}
use telegram_br.Texts.Literals.{codes, lstrip_char}
use telegram_br.Texts.Utf16.{is_surrogate, utf16_len}
use telegram_br.Contact.{
  Unicode, clean_username, matches_username, is_valid_username, bare_username,
  build_username_suffix, build_username_suffix_linked, build_phone_url, bool, number, other,
  is_truthy, unknown_sender, build_display_name, metric_inc,
}
use telegram_br.Contact.Target.{
  Sender, ContactTarget, id, first_valid, uname_of, sender_type_of, temporary_of, openmessage_link,
  user_id_link, resolve_contact_target, valid, not_linkable, no_url, is_unlinkable,
  validate_contact_target,
}
use telegram_br.Contact.Pack.{
  shown_name, shorten, name_url, name_entities, username_entities, Pack, linked, username_in,
  build_alert_entity_pack,
}
use telegram_br.Contact.Offsets.{LinksCover, selection, build_alert_entity_pack-selects}
use telegram_br.Contact.Choice.{IsBalanced, resolve_all, resolve_all-IsBalanced}
use telegram_br.Contact.Usable.{resolve_contact_target-validate}

-- The tables for ASCII.
abbrev ascii : Unicode
ascii = record {
  lower = map (λ c. if leb 65 c && leb c 90 then c + 32 else c);
  is_digit = λ c. leb 48 c && leb c 57;
}

abbrev named_sender : Sender
named_sender = record {
  sender_id = id 42;
  name = some (codes "@Student_1");
  names = some (codes "second_name") ∷ [];
  first_name = some (codes "Ali");
  last_name = none;
  display = none;
  kind = some (codes "User");
  is_bot = bool false;
  is_deleted = other;
  phone = some (codes "+966 50 123 4567");
  temporary_link = none;
}

abbrev hidden_sender : Sender
hidden_sender = record named_sender { name = some (codes "abc"); names = [] }

abbrev deleted_sender : Sender
deleted_sender = record hidden_sender { is_deleted = number 1 }

abbrev account : Sender
account = record hidden_sender { phone = none }

program : Unit {0}
unfolding is_space lstrip rstrip strip lstrip_char clean_username matches_username is_valid_username
    bare_username build_username_suffix build_username_suffix_linked build_phone_url is_truthy
    unknown_sender build_display_name metric_inc first_valid uname_of sender_type_of temporary_of
    openmessage_link user_id_link resolve_contact_target validate_contact_target utf16_len
    shown_name shorten name_url name_entities username_entities build_alert_entity_pack selection
    resolve_all
program = tt

named_sender-url :
    (resolve_contact_target ascii named_sender []).0.selected_url
    ≡ some (codes "https://t.me/Student_1")
unfolding program
named_sender-url = refl

hidden_sender-url :
    (resolve_contact_target ascii hidden_sender []).0.selected_url
    ≡ some (codes "https://t.me/+966501234567")
unfolding program
hidden_sender-url = refl

-- A deleted account with a phone number counts as resolved, but may not be used.
deleted_sender-refused :
    validate_contact_target true (some (resolve_contact_target ascii deleted_sender []).0)
    ≡ not_linkable (codes "deleted")
unfolding program
deleted_sender-refused = refl

account-url :
    (resolve_contact_target ascii account []).0.selected_url
    ≡ some (codes "tg://openmessage?user_id=42")
unfolding program
account-url = refl

abbrev spaced_sender : Sender
spaced_sender = record account { name = some (codes "@ Student_1") }

-- A space after the `@` stays in the link.
spaced_name :
    (resolve_contact_target ascii spaced_sender []).0.selected_url
    ≡ some (codes "https://t.me/ Student_1")
unfolding program
spaced_name = refl

linked_suffix :
    build_username_suffix_linked (some (codes "Student_1")) (some (codes "https://t.me/x"))
    ≡ 32 ∷ 8212 ∷ 32 ∷ codes "<a href=\"https://t.me/x\">@Student_1</a>"
unfolding program
linked_suffix = refl

abbrev named_target : ContactTarget
named_target = (resolve_contact_target ascii named_sender []).0

-- The name has a character above the basic plane, which counts twice.
abbrev star_name : Option Text
star_name = some (65 ∷ 128640 ∷ [])

abbrev star_pack : Pack
star_pack =
    build_alert_entity_pack true star_name (some (codes "help")) (some named_target) none 3800 none

star_pack-entities :
    star_pack.formatting_entities
    ≡ linked 8 3 (codes "https://t.me/Student_1")
      ∷ linked 14 10 (codes "https://t.me/Student_1")
      ∷ []
unfolding program
star_pack-entities = refl

star_pack-encodes : any is_surrogate star_pack.plain_text ≡ false
unfolding program
star_pack-encodes = refl

resolve_all-IsBalanced_example :
    IsBalanced
      (length (named_sender ∷ hidden_sender ∷ account ∷ []))
      (resolve_all ascii (named_sender ∷ hidden_sender ∷ account ∷ []) [])
resolve_all-IsBalanced_example =
    resolve_all-IsBalanced ascii (named_sender ∷ hidden_sender ∷ account ∷ [])

resolve_contact_target-validate_example :
    validate_contact_target true (some (resolve_contact_target ascii deleted_sender []).0) ≡ (
      if is_unlinkable ((resolve_contact_target ascii deleted_sender []).0.sender_type)
        && not (is_some ((resolve_contact_target ascii deleted_sender []).0.username))
      then not_linkable ((resolve_contact_target ascii deleted_sender []).0.sender_type)
      else if is_some ((resolve_contact_target ascii deleted_sender []).0.selected_url)
      then valid
      else no_url)
resolve_contact_target-validate_example = resolve_contact_target-validate ascii deleted_sender []

build_alert_entity_pack-selects_example :
    LinksCover (shown_name star_name) (64 ∷ bare_username (username_in (some named_target))) (
      build_alert_entity_pack true star_name
        (some (codes "help"))
        (some named_target)
        none
        3800
        none)
build_alert_entity_pack-selects_example =
    build_alert_entity_pack-selects true star_name (some (codes "help")) (some named_target) none
      3800 none star_pack-encodes
