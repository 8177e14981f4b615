-- ===== src/Contact/Target.antt =====
-- ContactTarget, resolve_contact_target and validate_contact_target (contact_target.py).
use telegram_br.Base.{
  ℕ, Bool, true, false, not, ◌&&◌, ◌||◌, Option, none, some, List, [], ◌∷◌, ◌++◌, ltb,
  if◌then◌else◌, is_some,
}
use telegram_br.Texts.{Text, strip, is_empty}
use telegram_br.Texts.Literals.{codes, same, member, starts_with, digits}
use telegram_br.Contact.{
  Unicode, or_empty, clean_username, is_valid_username, build_phone_url, Value, is_truthy,
  build_display_name, Metrics, metric_inc, sender_resolution_success, sender_resolution_failure,
  username_available, user_id_fallback, temporary_link_used, phone_fallback, openmessage_fallback,
}

pub data TargetType : Type 0 where
  by_username : TargetType
  by_temporary_link : TargetType
  by_phone : TargetType
  by_openmessage : TargetType
  by_user_id : TargetType
  by_none : TargetType

pub data Resolution : Type 0 where
  resolved : Resolution
  partial : Resolution
  failed : Resolution

pub data Reason : Type 0 where
  negative_sender_id : Reason
  invalid_username_shape : Reason
  channel_sender_no_user_id : Reason
  no_reachable_target : Reason
  no_sender_identity : Reason

pub record ContactTarget : Type 0 where
  pub user_id : ℕ
  pub username : Option Text
  pub usernames : Option (List Text)
  pub display_name : Text
  pub sender_type : Text
  pub username_url : Option Text
  pub user_id_url : Option Text
  pub openmessage_url : Option Text
  pub phone_url : Option Text
  pub temporary_link_url : Option Text
  pub selected_url : Option Text
  pub target_type : TargetType
  pub resolution_status : Resolution
  pub reasons : List Reason

-- The `sender_id` that is passed in, as `int` reads it.
pub data SenderId : Type 0 where
  unreadable : SenderId
  below_zero : SenderId
  id : ℕ → SenderId

-- What is known of a sender: the arguments of resolve_contact_target. A name that is no text is
-- missing.
pub record Sender : Type 0 where
  pub sender_id : SenderId
  pub name : Option Text
  pub names : List (Option Text)
  pub first_name : Option Text
  pub last_name : Option Text
  pub display : Option Text
  pub kind : Option Text
  pub is_bot : Value
  pub is_deleted : Value
  pub phone : Option Text
  pub temporary_link : Option Text

abbrev pub sid_of : SenderId → ℕ × List Reason
sid_of unreadable = (0, [])
sid_of below_zero = (0, negative_sender_id ∷ [])
sid_of (id n) = (n, [])

-- The first name of the list that is a valid username.
unfoldable pub first_valid : List (Option Text) → Option Text
first_valid [] = none
first_valid (ru ∷ names) =
    let rest = first_valid names in
    let clean = clean_username ru in if is_valid_username clean then clean else rest

-- The username, cleaned, or a valid one of the others; a misshapen one is dropped, with a reason.
abbrev pub shaped : Option Text → Option Text × List Reason
shaped none = (none, [])
shaped (some u) =
    if is_valid_username (some u) then (some u, []) else (none, invalid_username_shape ∷ [])

abbrev pub or_other : Option Text → Option Text → Option Text
or_other none o = o
or_other (some u) o = some u

unfoldable pub uname_of : Option Text → List (Option Text) → Option Text × List Reason
uname_of name names = shaped (or_other (clean_username name) (first_valid names))

abbrev pub add_name : Option Text → List Text → List Text
add_name none found = found
add_name (some clean) found = if member clean found then found else found ++ clean ∷ []

abbrev pub add_names : List (Option Text) → List Text → List Text
add_names [] found = found
add_names (ru ∷ names) found = add_names names (add_name (clean_username ru) found)

abbrev pub all_unames : Option Text → List (Option Text) → Option (List Text)
all_unames none names = none
all_unames (some uname) names = some (add_names names (uname ∷ []))

-- The sender type that is kept.
unfoldable pub sender_type_of : Unicode → Sender → ℕ → Text
sender_type_of py s sid =
    let given = py.lower (strip (or_empty s.kind)) in
    let st =
      if member given ([] ∷ codes "unknown" ∷ codes "none" ∷ [])
      then if ltb 0 sid then codes "assumed_user" else codes "none"
      else given in
    if is_truthy py s.is_deleted
    then codes "deleted"
    else if member st (codes "user" ∷ codes "assumed_user" ∷ []) && is_truthy py s.is_bot
    then codes "bot"
    else st

abbrev pub user_id_capable : Text → Bool
user_id_capable st = member st (codes "user" ∷ codes "bot" ∷ codes "assumed_user" ∷ [])

abbrev pub username_link : Option Text → Option Text
username_link none = none
username_link (some uname) = some (codes "https://t.me/" ++ uname)

unfoldable pub temporary_of : Option Text → Option Text
temporary_of none = none
temporary_of (some link) =
    let t = strip link in if starts_with (codes "https://t.me/") t then some t else none

-- A `tg://` link to the account itself.
abbrev pub account_link : Text → ℕ → Text → Option Text
account_link head sid st =
    if ltb 0 sid && user_id_capable st then some (head ++ digits sid) else none

unfoldable pub openmessage_link : ℕ → Text → Option Text
openmessage_link = account_link (codes "tg://openmessage?user_id=")

unfoldable pub user_id_link : ℕ → Text → Option Text
user_id_link = account_link (codes "tg://user?id=")

abbrev pub choose :
    (username temporary phone openmessage user_id : Option Text) → Option Text × TargetType
choose (some u) t p o i = (some u, by_username)
choose none (some t) p o i = (some t, by_temporary_link)
choose none none (some p) o i = (some p, by_phone)
choose none none none (some o) i = (some o, by_openmessage)
choose none none none none (some i) = (some i, by_user_id)
choose none none none none none = (none, by_none)

abbrev pub count_route : TargetType → Metrics → Metrics
count_route by_username m = m
count_route by_temporary_link m = metric_inc temporary_link_used m
count_route by_phone m = metric_inc phone_fallback m
count_route by_openmessage m = metric_inc openmessage_fallback m
count_route by_user_id m = metric_inc user_id_fallback m
count_route by_none m = m

abbrev pub count_username : Option Text → Metrics → Metrics
count_username none m = m
count_username (some u) m = metric_inc username_available m

-- The status, the reasons and the metrics at the end.
abbrev pub or_reason : List Reason → Reason → List Reason
or_reason [] r = r ∷ []
or_reason (q ∷ qs) r = q ∷ qs

abbrev pub conclude : Option Text → Bool → List Reason → Resolution × List Reason
conclude (some url) known reasons = (resolved, reasons)
conclude none true reasons = (partial, or_reason reasons no_reachable_target)
conclude none false reasons = (failed, or_reason reasons no_sender_identity)

abbrev pub count_outcome : Option Text → Metrics → Metrics
count_outcome (some url) m = metric_inc sender_resolution_success m
count_outcome none m = metric_inc sender_resolution_failure m

unfoldable pub resolve_contact_target : Unicode → Sender → Metrics → ContactTarget × Metrics
resolve_contact_target py s m =
    let (sid, id_reasons) = sid_of s.sender_id in
    let (uname, name_reasons) = uname_of s.name s.names in
    let st = sender_type_of py s sid in
    let channel = if same st (codes "channel") then channel_sender_no_user_id ∷ [] else [] in
    let by_name = username_link uname in
    let temporary = temporary_of s.temporary_link in
    let by_number = build_phone_url py s.phone in
    let openmessage = openmessage_link sid st in
    let account = user_id_link sid st in
    let (selected, type) = choose by_name temporary by_number openmessage account in
    let (status, reasons) =
      conclude selected (ltb 0 sid || is_some uname) (id_reasons ++ name_reasons ++ channel) in
    (
      record {
        user_id = sid;
        username = uname;
        usernames = all_unames uname s.names;
        display_name = build_display_name s.first_name s.last_name uname s.display;
        sender_type = st;
        username_url = by_name;
        user_id_url = account;
        openmessage_url = openmessage;
        phone_url = by_number;
        temporary_link_url = temporary;
        selected_url = selected;
        target_type = type;
        resolution_status = status;
        reasons = reasons;
      },
      count_outcome selected (count_route type (count_username uname m)),
    )

pub data Verdict : Type 0 where
  valid : Verdict
  no_target : Verdict
  not_linkable : Text → Verdict
  no_display_name : Verdict
  no_url : Verdict
  unknown_url_shape : Verdict
  entity_class_unavailable : Verdict

abbrev pub known_shape : Text → Bool
known_shape url =
    starts_with (codes "https://t.me/") url
    || starts_with (codes "tg://user?id=") url
    || starts_with (codes "tg://openmessage?") url

abbrev pub judge_url : Bool → Option Text → Verdict
judge_url entities none = no_url
judge_url entities (some url) =
    if not (known_shape url)
    then unknown_url_shape
    else if not entities
    then entity_class_unavailable
    else valid

abbrev pub is_unlinkable : Text → Bool
is_unlinkable st = member st (codes "channel" ∷ codes "deleted" ∷ codes "none" ∷ [])

-- `entities` says whether MessageEntityTextUrl could be imported.
unfoldable pub validate_contact_target : Bool → Option ContactTarget → Verdict
validate_contact_target entities none = no_target
validate_contact_target entities (some target) =
    if is_unlinkable target.sender_type && not (is_some target.username_url)
    then not_linkable target.sender_type
    else if is_empty (strip target.display_name)
    then no_display_name
    else judge_url entities target.selected_url
