-- ===== src/Contact/Offsets.antt =====
-- The entities of a card (contact_target.py): what they select in the text that is sent.
use telegram_br.Base.{
  ℕ, ◌+◌, ◌≡◌, refl, sym, ap, ◌∙◌, ◌⊎◌, inl, inr, Bool, true, false, ◌&&◌, Option, none, some, List,
  [], ◌∷◌, ◌++◌, arith, if-by, length, take, drop, any, All, length-append, append_assoc,
  drop-append, take-append,
}
use mathlib.Core.Path.{subst}
use telegram_br.Texts.{Text}
use telegram_br.Texts.Utf16.{
  utf16, is_surrogate, utf16_len, utf16-append, any-append, utf16_len_lem,
}
use telegram_br.Contact.{or_empty, bare_username, is_usable, sender_dash, build_username_suffix}
use telegram_br.Contact.Target.{ContactTarget}
use telegram_br.Contact.Pack.{
  Pack, sender_label, shown_name, shorten, Entity, linked, break, msg_text_label, rule_suffix,
  username_in, name_url, name_entities, username_entities, build_alert_entity_pack,
}

-- The part of the text, in UTF-16, that Telegram makes a link of.
unfoldable pub selection : Entity → Text → List ℕ
selection e t = take e.size (drop e.offset (utf16 t))

-- An entity that starts after `before` and is as long as `shown` selects what stands there.
select-part :
    (e : Entity) (front shown rest : Text)
    → e.offset ≡ length (utf16 front)
    → e.size ≡ length (utf16 shown)
    → selection e (front ++ (shown ++ rest)) ≡ utf16 shown
unfolding selection
select-part e front shown rest o n =
    rw
      (
        o,
        n,
        utf16-append front (shown ++ rest),
        drop-append (utf16 front) (utf16 (shown ++ rest)),
        utf16-append shown rest,
      )
      (take-append (utf16 shown) (utf16 rest))

name_entities-selects :
    (can_link : Bool) (display rest : Text) (target : Option ContactTarget) (url : Option Text)
    → any is_surrogate display ≡ false
    → All
        (λ e. selection e (sender_label ++ (display ++ rest)) ≡ utf16 display)
        (name_entities can_link display target url)
unfolding name_entities
name_entities-selects can_link display rest none url h = tt
name_entities-selects can_link display rest (some target) none h = tt
name_entities-selects false display rest (some target) (some url) h = tt
name_entities-selects true display rest (some target) (some url) h = (
  select-part _ sender_label display rest (utf16_len_lem sender_label refl)
      (utf16_len_lem display h),
  tt,
)

select-third :
    (e : Entity) (display shown rest : Text)
    → any is_surrogate display ≡ false
    → any is_surrogate shown ≡ false
    → e.offset ≡ utf16_len sender_label + utf16_len display + utf16_len sender_dash
    → e.size ≡ utf16_len shown
    → selection e (sender_label ++ (display ++ ((sender_dash ++ shown) ++ rest))) ≡ utf16 shown
select-third e display shown rest h k o n =
    let front = sender_label ++ (display ++ sender_dash) in
    let regroup : sender_label ++ (display ++ ((sender_dash ++ shown) ++ rest))
        ≡ front ++ (shown ++ rest) =
      ap (λ t. sender_label ++ t) (sym (append_assoc display sender_dash (shown ++ rest))) in
    rw regroup (
      select-part e front shown rest
        (omega (
          arith,
          o,
          utf16_len_lem sender_label refl,
          utf16_len_lem display h,
          utf16_len_lem sender_dash refl,
          ap length (utf16-append sender_label (display ++ sender_dash)),
          length-append (utf16 sender_label) (utf16 (display ++ sender_dash)),
          ap length (utf16-append display sender_dash),
          length-append (utf16 display) (utf16 sender_dash),
        ))
        (n ∙ utf16_len_lem shown k))

suffix_usable :
    (uname : Option Text)
    → is_usable (bare_username uname) ≡ true
    → build_username_suffix uname ≡ sender_dash ++ (64 ∷ bare_username uname)
unfolding build_username_suffix
suffix_usable uname h = rw h refl

username_entities-selects :
    (can_link : Bool) (display rest : Text) (uname url : Option Text)
    → any is_surrogate display ≡ false
    → any is_surrogate (build_username_suffix uname) ≡ false
    → All
        (λ e.
          selection e (sender_label ++ (display ++ (build_username_suffix uname ++ rest)))
          ≡ utf16 (64 ∷ bare_username uname))
        (username_entities can_link display uname url)
unfolding username_entities
username_entities-selects can_link display rest uname none h k = tt
username_entities-selects can_link display rest uname (some url) h k =
    if-by
      (All (λ e.
        selection e (sender_label ++ (display ++ (build_username_suffix uname ++ rest)))
        ≡ utf16 (64 ∷ bare_username uname)))
      (is_usable (bare_username uname) && can_link) _ []
      (λ u.
        let usable : is_usable (bare_username uname) ≡ true = ground arith in
        let suffix = suffix_usable uname usable in
        let e : Entity =
          linked (utf16_len sender_label + utf16_len display + utf16_len sender_dash)
            (utf16_len (64 ∷ bare_username uname)) url in
        (
          subst
              (λ t.
                selection e (sender_label ++ (display ++ (t ++ rest)))
                ≡ utf16 (64 ∷ bare_username uname))
              (sym suffix)
              (select-third e display (64 ∷ bare_username uname) rest h
                (sym (ap (any is_surrogate) suffix) ∙ k) refl refl),
          tt,
        ))
      (λ u. tt)

any-append-false :
    (p : ℕ → Bool) (s t : Text) → any p (s ++ t) ≡ false → (any p s ≡ false) × (any p t ≡ false)
any-append-false p s t h = (ground (arith, any-append p s t), ground (arith, any-append p s t))

All-append : (P : Entity → Type 0) (xs ys : List Entity) → All P xs → All P ys → All P (xs ++ ys)
All-append P [] ys a b = b
All-append P (x ∷ xs) ys (h, a) b = (h, All-append P xs ys a b)

-- Every link of the card covers exactly the one text or exactly the other, in UTF-16.
abbrev pub LinksCover : Text → Text → Pack → Type 0
LinksCover shown name p =
    All (λ e. (selection e p.plain_text ≡ utf16 shown) ⊎ (selection e p.plain_text ≡ utf16 name))
      p.formatting_entities

weaken_left : (P Q : Entity → Type 0) (es : List Entity) → All P es → All (λ e. P e ⊎ Q e) es
weaken_left P Q [] w = tt
weaken_left P Q (e ∷ es) (h, w) = (inl h, weaken_left P Q es w)

weaken_right : (P Q : Entity → Type 0) (es : List Entity) → All Q es → All (λ e. P e ⊎ Q e) es
weaken_right P Q [] w = tt
weaken_right P Q (e ∷ es) (h, w) = (inr h, weaken_right P Q es w)

-- Every link of a card covers exactly the sender's name or exactly `@` and the username, in the
-- UTF-16 units that Telegram counts in, whatever the name, the message, the rule and the budget
-- are; the text is one that can be encoded.
pub build_alert_entity_pack-selects :
    (can_link : Bool) (display_name message_text : Option Text) (target : Option ContactTarget)
    (rule_tag : Option Text) (plain_budget : ℕ) (name_url_override : Option Text)
    → any is_surrogate (
        (build_alert_entity_pack can_link display_name message_text target rule_tag plain_budget
          name_url_override).plain_text)
      ≡ false
    → LinksCover (shown_name display_name) (64 ∷ bare_username (username_in target)) (
        build_alert_entity_pack can_link display_name message_text target rule_tag plain_budget
          name_url_override)
unfolding build_alert_entity_pack
build_alert_entity_pack-selects can_link display_name message_text target rule_tag plain_budget
      name_url_override h =
    let display = shown_name display_name in
    let uname = username_in target in
    let raw = shorten plain_budget (or_empty message_text) in
    let url = name_url name_url_override target in
    let suffix = build_username_suffix uname in
    let body : Text = break ++ (msg_text_label ++ (break ++ (raw ++ rule_suffix rule_tag))) in
    let outer = any-append-false is_surrogate display (suffix ++ body) h in
    let inner = any-append-false is_surrogate suffix body outer.1 in
    All-append _ (name_entities can_link display target url)
      (username_entities can_link display uname url)
      (weaken_left _ _ (name_entities can_link display target url)
        (name_entities-selects can_link display (suffix ++ body) target url outer.0))
      (weaken_right _ _ (username_entities can_link display uname url)
        (username_entities-selects can_link display body uname url outer.0 inner.0))
