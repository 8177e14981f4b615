-- ===== src/Contact/Pack.antt =====
-- build_alert_entity_pack (contact_target.py): the text of a card and the entities that make the
-- sender's names links, by their places in UTF-16.
use telegram_br.Base.{
  ℕ, ◌+◌, ◌-◌, max, Bool, ◌&&◌, Option, none, some, List, [], ◌∷◌, ◌++◌, ltb, if◌then◌else◌,
  is_some, length, take,
}
use telegram_br.Texts.{Text, strip, rstrip}
use telegram_br.Texts.Utf16.{utf16_len}
use telegram_br.Contact.{
  or_empty, non_empty, bare_username, is_usable, sender_dash, build_username_suffix,
}
use telegram_br.Contact.Target.{ContactTarget}

abbrev pub sender_label : Text
sender_label = 1575 ∷ 1604 ∷ 1605 ∷ 1585 ∷ 1587 ∷ 1604 ∷ 58 ∷ 32 ∷ []

abbrev pub msg_text_label : Text
msg_text_label = 1606 ∷ 1589 ∷ 32 ∷ 1575 ∷ 1604 ∷ 1585 ∷ 1587 ∷ 1575 ∷ 1604 ∷ 1577 ∷ 58 ∷ []

abbrev pub no_name : Text
no_name = 1605 ∷ 1587 ∷ 1578 ∷ 1582 ∷ 1583 ∷ 1605 ∷ []

abbrev pub rule_label : Text
rule_label = 10 ∷ 10 ∷ 127991 ∷ 32 ∷ 1602 ∷ 1575 ∷ 1593 ∷ 1583 ∷ 1577 ∷ 58 ∷ 32 ∷ []

abbrev pub break : Text
break = 10 ∷ 10 ∷ []

abbrev pub or_default : Text → Text → Text
or_default [] d = d
or_default (c ∷ t) d = c ∷ t

unfoldable pub shown_name : Option Text → Text
shown_name display_name = or_default (strip (or_empty display_name)) no_name

unfoldable pub shorten : ℕ → Text → Text
shorten plain_budget raw =
    let most = max 64 plain_budget in
    if ltb most (length raw) then rstrip (take (most - 1) raw) ++ 8230 ∷ [] else raw

pub record Entity : Type 0 where
  pub offset : ℕ
  pub size : ℕ
  pub url : Text

-- `MessageEntityTextUrl(offset=…, length=…, url=…)`
abbrev pub linked : ℕ → ℕ → Text → Entity
linked offset size url = record { offset = offset; size = size; url = url }

abbrev pub username_in : Option ContactTarget → Option Text
username_in none = none
username_in (some target) = target.username

abbrev pub selected_in : Option ContactTarget → Option Text
selected_in none = none
selected_in (some target) = target.selected_url

abbrev pub or_else : Option Text → Option Text → Option Text
or_else (some t) o = some t
or_else none o = o

abbrev pub truthy : Option Text → Option Text
truthy t = non_empty (or_empty t)

-- The link of the names: the override without outer whitespace, or else the target's.
unfoldable pub name_url : Option Text → Option ContactTarget → Option Text
name_url name_url_override target =
    or_else (truthy (some (strip (or_empty name_url_override)))) (truthy (selected_in target))

unfoldable pub name_entities : Bool → Text → Option ContactTarget → Option Text → List Entity
name_entities can_link display none url = []
name_entities can_link display (some target) none = []
name_entities can_link display (some target) (some url) =
    if can_link then linked (utf16_len sender_label) (utf16_len display) url ∷ [] else []

unfoldable pub username_entities : Bool → Text → Option Text → Option Text → List Entity
username_entities can_link display uname none = []
username_entities can_link display uname (some url) =
    let u = bare_username uname in
    if is_usable u && can_link
    then linked (utf16_len sender_label + utf16_len display + utf16_len sender_dash)
        (utf16_len (64 ∷ u)) url
      ∷ []
    else []

abbrev pub rule_suffix : Option Text → Text
rule_suffix none = []
rule_suffix (some []) = []
rule_suffix (some (c ∷ tag)) = rule_label ++ c ∷ tag

pub record Pack : Type 0 where
  pub plain_text : Text
  pub formatting_entities : List Entity
  pub clickable : Bool

abbrev pub plain_text_of : Text → Option Text → Text → Option Text → Text
plain_text_of display uname raw rule_tag =
    let body = break ++ (msg_text_label ++ (break ++ (raw ++ rule_suffix rule_tag))) in
    sender_label ++ (display ++ (build_username_suffix uname ++ body))

-- `can_link` says whether MessageEntityTextUrl could be imported.
unfoldable pub build_alert_entity_pack :
    Bool
    → (display_name message_text : Option Text) → Option ContactTarget
    → (rule_tag : Option Text) → (plain_budget : ℕ) → (name_url_override : Option Text) → Pack
build_alert_entity_pack can_link display_name message_text target rule_tag plain_budget
      name_url_override =
    let display = shown_name display_name in
    let uname = username_in target in
    let url = name_url name_url_override target in
    let entities =
      name_entities can_link display target url ++ username_entities can_link display uname url in
    record {
      plain_text =
          plain_text_of display uname (shorten plain_budget (or_empty message_text)) rule_tag;
      formatting_entities = entities;
      clickable = is_some target && is_some url && ltb 0 (length entities);
    }
