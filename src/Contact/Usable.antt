-- ===== src/Contact/Usable.antt =====
-- What validate_contact_target says of the contacts that resolve_contact_target builds
-- (contact_target.py).
use telegram_br.Base.{
  ℕ, ◌≡◌, refl, inl, inr, Bool, true, false, not, ◌&&◌, ◌||◌, Option, none, some, [], ◌∷◌, ◌++◌,
  arith, ltb, if◌then◌else◌, is_some, Bool-cases, if-by, length, keep,
}
use telegram_br.Texts.{Text, is_space, strip, lstrip, rstrip, is_empty}
use telegram_br.Texts.Strip.{strip_idem}
use telegram_br.Texts.Literals.{codes, starts_with}
use telegram_br.Contact.{
  Unicode, without_prefix, phone_link, or_empty, is_letter, clean_username, matches_username,
  is_valid_username, build_phone_url, named, unknown_sender, build_display_name, Metrics,
}
use telegram_br.Contact.Target.{
  Sender, no_display_name, or_other, first_valid, sid_of, shaped, uname_of, sender_type_of,
  user_id_capable, username_link, temporary_of, openmessage_link, user_id_link, choose,
  resolve_contact_target, Verdict, valid, not_linkable, no_url, known_shape, judge_url,
  is_unlinkable, validate_contact_target,
}

letter_dark : (c : ℕ) → is_letter c ≡ true → is_space c ≡ false
unfolding is_space
letter_dark c h = ground arith

strip-dark : (c : ℕ) (t : Text) → is_space c ≡ false → is_empty (strip (c ∷ t)) ≡ false
unfolding strip lstrip rstrip
strip-dark c t h = rw (h, h) refl

matches-dark : (o : Option Text) → matches_username o ≡ true → is_empty (strip (named o)) ≡ false
unfolding matches_username
matches-dark none h = absurd (ground arith)
matches-dark (some []) h = absurd (ground arith)
matches-dark (some (c ∷ t)) h = strip-dark c t (letter_dark c (ground arith))

-- The username that is kept is one of a valid shape.
abbrev IsNamed : Option Text → Type 0
IsNamed none = Unit {0}
IsNamed (some u) = is_valid_username (some u) ≡ true

shaped-IsNamed : (o : Option Text) → IsNamed (shaped o).0
shaped-IsNamed none = tt
shaped-IsNamed (some u) = elim (Bool-cases (is_valid_username (some u))) [
  | inl fits ↦ rw fits fits
  | inr odd ↦ rw odd tt
]

named-dark : (o : Option Text) → IsNamed o → is_empty (strip (named (clean_username o))) ≡ false
unfolding is_valid_username clean_username unknown_sender strip lstrip rstrip is_space
named-dark none h = refl
named-dark (some u) h = matches-dark (clean_username (some u)) h

strip-kept : (t : Text) → not (is_empty (strip t)) ≡ true → is_empty (strip (strip t)) ≡ false
strip-kept t h = rw (strip_idem t) (ground arith)

build_display_name-dark :
    (first_name last_name o display : Option Text)
    → IsNamed o
    → is_empty (strip (build_display_name first_name last_name o display)) ≡ false
unfolding build_display_name
build_display_name-dark first_name last_name o display h =
    let shown = or_empty display in
    let full = or_empty first_name ++ codes " " ++ or_empty last_name in
    if-by (λ t. is_empty (strip t) ≡ false) (not (is_empty (strip shown))) _ _ (strip-kept shown)
      (λ bare.
        if-by (λ t. is_empty (strip t) ≡ false) (not (is_empty (strip full))) _ _ (strip-kept full)
          (λ none_given. named-dark o h))

-- A link, if there is one, has a shape that the cards take.
abbrev IsKnown : Option Text → Type 0
IsKnown none = Unit {0}
IsKnown (some url) = known_shape url ≡ true

temporary_of-IsKnown : (o : Option Text) → IsKnown (temporary_of o)
unfolding temporary_of
temporary_of-IsKnown none = tt
temporary_of-IsKnown (some link) =
    if-by IsKnown (starts_with (codes "https://t.me/") (strip link)) _ _ (λ e. ground (arith, e))
      (λ e. tt)

phone_link-IsKnown : (found : Text) → IsKnown (phone_link found)
phone_link-IsKnown found =
    if-by IsKnown (is_empty found || ltb (length found) 8 || ltb 15 (length found)) _ _ (λ f. tt)
      (λ f. refl)

build_phone_url-IsKnown : (py : Unicode) (o : Option Text) → IsKnown (build_phone_url py o)
unfolding build_phone_url
build_phone_url-IsKnown py none = tt
build_phone_url-IsKnown py (some phone) =
    if-by IsKnown (is_empty (strip phone)) _ _ (λ e. tt)
      (λ e. phone_link-IsKnown (keep py.is_digit (without_prefix (strip phone))))

username_link-IsKnown : (o : Option Text) → IsKnown (username_link o)
username_link-IsKnown none = tt
username_link-IsKnown (some u) = refl

openmessage_link-IsKnown : (sid : ℕ) (st : Text) → IsKnown (openmessage_link sid st)
unfolding openmessage_link
openmessage_link-IsKnown sid st =
    if-by IsKnown (ltb 0 sid && user_id_capable st) _ _ (λ e. refl) (λ e. tt)

user_id_link-IsKnown : (sid : ℕ) (st : Text) → IsKnown (user_id_link sid st)
unfolding user_id_link
user_id_link-IsKnown sid st =
    if-by IsKnown (ltb 0 sid && user_id_capable st) _ _ (λ e. refl) (λ e. tt)

judge-known :
    (o : Option Text) → IsKnown o → judge_url true o ≡ (if is_some o then valid else no_url)
judge-known none k = refl
judge-known (some url) k = rw k refl

choose-IsKnown :
    (u t p o i : Option Text)
    → IsKnown u
    → IsKnown t
    → IsKnown p
    → IsKnown o
    → IsKnown i
    → IsKnown (choose u t p o i).0
choose-IsKnown (some u) t p o i a b c d e = a
choose-IsKnown none (some t) p o i a b c d e = b
choose-IsKnown none none (some p) o i a b c d e = c
choose-IsKnown none none none (some o) i a b c d e = d
choose-IsKnown none none none none (some i) a b c d e = e
choose-IsKnown none none none none none a b c d e = tt

username_link-is_some : (o : Option Text) → is_some (username_link o) ≡ is_some o
username_link-is_some none = refl
username_link-is_some (some u) = refl

verdicts_agree :
    (odd linked has_name nameless : Bool) (o : Option Text) (refusal : Verdict)
    → linked ≡ has_name
    → nameless ≡ false
    → IsKnown o
    → (if odd && not linked
        then refusal
        else if nameless
        then no_display_name
        else judge_url true o)
      ≡ (if odd && not has_name then refusal else if is_some o then valid else no_url)
verdicts_agree odd linked has_name nameless o refusal e f k = rw (e, f, judge-known o k) refl

-- Of a contact that resolve_contact_target has built, validate_contact_target says one of three
-- things: that it is not linkable, exactly if the sender is a channel, a deleted account or of no
-- type and has no username; else that it has no link, exactly if no route was found; else that it
-- is valid. It never finds a name that is empty nor a link of an unknown shape.
pub resolve_contact_target-validate :
    (py : Unicode) (s : Sender) (m : Metrics)
    → validate_contact_target true (some (resolve_contact_target py s m).0) ≡ (
        if is_unlinkable ((resolve_contact_target py s m).0.sender_type)
          && not (is_some ((resolve_contact_target py s m).0.username))
        then not_linkable ((resolve_contact_target py s m).0.sender_type)
        else if is_some ((resolve_contact_target py s m).0.selected_url)
        then valid
        else no_url)
unfolding validate_contact_target resolve_contact_target uname_of
resolve_contact_target-validate py s m =
    let sid = (sid_of s.sender_id).0 in
    let uname = (uname_of s.name s.names).0 in
    let st = sender_type_of py s sid in
    let known =
      choose-IsKnown (username_link uname) (temporary_of s.temporary_link)
        (build_phone_url py s.phone) (openmessage_link sid st) (user_id_link sid st)
        (username_link-IsKnown uname) (temporary_of-IsKnown s.temporary_link)
        (build_phone_url-IsKnown py s.phone) (openmessage_link-IsKnown sid st)
        (user_id_link-IsKnown sid st) in
    let dark =
      build_display_name-dark s.first_name s.last_name uname s.display
        (shaped-IsNamed (or_other (clean_username s.name) (first_valid s.names))) in
    verdicts_agree (is_unlinkable st) (is_some (username_link uname)) (is_some uname) _
      ((choose (username_link uname) (temporary_of s.temporary_link) (build_phone_url py s.phone)
        (openmessage_link sid st) (user_id_link sid st)).0)
      (not_linkable st) (username_link-is_some uname) dark known
