-- ===== src/Card/Tags.antt =====
-- The expressions for tags (unified_alerts/card.py) on a text in which each `<` is followed by a
-- `>`: a match ends within the tag it begins in, and does not look beyond.
use telegram_br.Base.{
  ℕ, suc, ◌+◌, ◌≤◌, ◌≡◌, refl, ap, inl, inr, Bool, true, false, not, Option, none, some, List, [],
  ◌∷◌, ◌++◌, arith, ◌==◌, if◌then◌else◌, Bool-cases, if-by, length, take, All,
}
use mathlib.Core.Path.{subst}
use telegram_br.Texts.{Text, is_space}
use telegram_br.Card.{
  fold, tg_tags, after_name, plus, to_end, open_end, close_end, ended, or_match, sized, match_names,
  longer, open_tag, close_tag,
}

-- Each `<` is followed by a `>` before the next one; the first argument says whether a tag has
-- begun.
unfoldable pub is_tagged : Bool → Text → Bool
is_tagged begun [] = not begun
is_tagged false (c ∷ t) =
    let inside = is_tagged true t in
    let outside = is_tagged false t in if c == 60 then inside else outside
is_tagged true (c ∷ t) =
    let inside = is_tagged true t in
    let outside = is_tagged false t in
    if c == 62 then outside else if c == 60 then false else inside

-- The length up to the first `>`.
abbrev pub tag_size : Text → ℕ
tag_size [] = 0
tag_size (c ∷ t) = let rest = tag_size t in if c == 62 then 1 else suc rest

-- A length, if there is one, that stays within the tag.
abbrev pub IsWithin : Text → Option ℕ → Type 0
IsWithin t none = Unit {0}
IsWithin t (some n) = n ≤ tag_size t

to_end_lem : (t : Text) → is_tagged true t ≡ true → to_end t ≡ some (tag_size t)
unfolding is_tagged
to_end_lem [] h = absurd (ground arith)
to_end_lem (c ∷ t) h = elim (Bool-cases (c == 62)) [
  | inl gt ↦ rw gt refl
  | inr other ↦ rw (other, to_end_lem t (ground arith)) (ap some (omega arith))
]

to_end-append : (t r : Text) → is_tagged true t ≡ true → to_end (t ++ r) ≡ some (tag_size t)
unfolding is_tagged
to_end-append [] r h = absurd (ground arith)
to_end-append (c ∷ t) r h = elim (Bool-cases (c == 62)) [
  | inl gt ↦ rw gt refl
  | inr other ↦ rw (other, to_end-append t r (ground arith)) (ap some (omega arith))
]

-- A rule for the end of a tag that does not look beyond the tag, and stays within it.
pub record IsLocal (ends : Text → Option ℕ) : Type 0 where
  pub append : (t r : Text) → is_tagged true t ≡ true → ends (t ++ r) ≡ ends t
  pub within : (t : Text) → is_tagged true t ≡ true → IsWithin t (ends t)

open_end-append : (t r : Text) → is_tagged true t ≡ true → open_end (t ++ r) ≡ open_end t
unfolding is_tagged open_end
open_end-append [] r h = absurd (ground arith)
open_end-append (c ∷ t) r h = elim (Bool-cases (c == 62)) [
  | inl gt ↦ rw gt refl
  | inr other ↦ rw (other, to_end-append t r (ground arith), to_end_lem t (ground arith)) refl
]

open_end-within : (t : Text) → is_tagged true t ≡ true → IsWithin t (open_end t)
unfolding is_tagged open_end
open_end-within [] h = tt
open_end-within (c ∷ t) h =
    if-by (IsWithin (c ∷ t)) (c == 62) _ _ (λ e. ground arith)
      (λ e.
        if-by (IsWithin (c ∷ t)) (is_space c) _ _
          (λ s. rw (to_end_lem t (ground arith)) (ground arith)) (λ s. tt))

close_end-append : (t r : Text) → is_tagged true t ≡ true → close_end (t ++ r) ≡ close_end t
unfolding is_tagged close_end
close_end-append [] r h = absurd (ground arith)
close_end-append (c ∷ t) r h = elim (Bool-cases (c == 62)) [
  | inl gt ↦ rw gt refl
  | inr other ↦ rw (other, close_end-append t r (ground arith)) refl
]

plus-within :
    (c : ℕ) (t : Text) (o : Option ℕ)
    → (c == 62) ≡ false
    → IsWithin t o
    → IsWithin (c ∷ t) (plus 1 o)
plus-within c t none e w = tt
plus-within c t (some n) e w = ground arith

close_end-within : (t : Text) → is_tagged true t ≡ true → IsWithin t (close_end t)
unfolding is_tagged close_end
close_end-within [] h = tt
close_end-within (c ∷ t) h =
    if-by (IsWithin (c ∷ t)) (c == 62) _ _ (λ e. ground arith)
      (λ e.
        if-by (IsWithin (c ∷ t)) (is_space c) _ _
          (λ s. plus-within c t (close_end t) e (close_end-within t (ground arith))) (λ s. tt))

pub open_end-IsLocal : IsLocal open_end
open_end-IsLocal = record { append = open_end-append; within = open_end-within }

pub close_end-IsLocal : IsLocal close_end
close_end-IsLocal = record { append = close_end-append; within = close_end-within }

-- A name as the expressions have them: no `>` in it.
abbrev pub IsPlain : Text → Type 0
IsPlain = All (λ c. (c == 62) ≡ false)

-- What the search for a name finds in a text that goes on is what it finds in the text itself; if
-- it finds the name, the rest is within the tag.
abbrev Agrees : (name t r : Text) → Option Text → Option Text → Type 0
Agrees name t r none o = o ≡ none
Agrees name t r (some v) o =
    (o ≡ some (v ++ r))
    × (is_tagged true v ≡ true)
    × (tag_size t ≡ length name + tag_size v)
    × (take (length name) (t ++ r) ≡ take (length name) t)

Agrees-cons :
    (c : ℕ) (name : Text) (d : ℕ) (t r : Text) (o p : Option Text)
    → (d == 62) ≡ false
    → Agrees name t r o p
    → Agrees (c ∷ name) (d ∷ t) r o p
Agrees-cons c name d t r none p h a = a
Agrees-cons c name d t r (some v) p h (e, tagged, size, start) =
    (e, tagged, ground (arith, size), ap (λ u. d ∷ u) start)

after_name-Agrees :
    (name t r : Text)
    → IsPlain name
    → is_tagged true t ≡ true
    → Agrees name t r (after_name name t) (after_name name (t ++ r))
unfolding is_tagged fold
after_name-Agrees [] t r p h = (refl, h, omega arith, refl)
after_name-Agrees (c ∷ name) [] r p h = absurd (ground arith)
after_name-Agrees (c ∷ name) (d ∷ t) r (q, p) h = elim (Bool-cases (fold d == c)) [
  | inl same ↦
      let dark : ((d == 62) ≡ false) × (is_tagged true t ≡ true) = (ground arith, ground arith) in
      rw same (
        Agrees-cons c name d t r (after_name name t) (after_name name (t ++ r)) dark.0
          (after_name-Agrees name t r p dark.1))
  | inr other ↦ rw other refl
]

-- What a search finds, if it finds anything, is a tag that ends within the text's first one.
abbrev pub IsMatch : Text → Option (ℕ × Text) → Type 0
IsMatch t none = Unit {0}
IsMatch t (some (n, name)) = n ≤ tag_size t

sized-start : (s t : Text) (n : ℕ) (o : Option ℕ) → take n s ≡ take n t → sized s n o ≡ sized t n o
sized-start s t n none e = refl
sized-start s t n (some m) e = rw e refl

sized-within :
    (t v : Text) (n : ℕ) (o : Option ℕ)
    → tag_size t ≡ n + tag_size v
    → IsWithin v o
    → IsMatch t (sized t n o)
sized-within t v n none e w = tt
sized-within t v n (some m) e w = omega arith

or_match-IsMatch :
    (t : Text) (o p : Option (ℕ × Text)) → IsMatch t o → IsMatch t p → IsMatch t (or_match o p)
or_match-IsMatch t none p a b = b
or_match-IsMatch t (some m) p a b = a

module _ (ends : Text → Option ℕ) (local : IsLocal ends) where
  sized-append :
      (name t r : Text) (o p : Option Text)
      → Agrees name t r o p
      → sized (t ++ r) (length name) (ended ends p) ≡ sized t (length name) (ended ends o)
  sized-append name t r none p a = rw a refl
  sized-append name t r (some v) p (e, tagged, size, start) =
      rw (e, local.append v r tagged) (sized-start (t ++ r) t (length name) (ends v) start)

  sized-IsMatch :
      (name t : Text) (o p : Option Text)
      → Agrees name t [] o p
      → IsMatch t (sized t (length name) (ended ends o))
  sized-IsMatch name t none p a = tt
  sized-IsMatch name t (some v) p (e, tagged, size, start) =
      sized-within t v (length name) (ends v) size (local.within v tagged)

  pub match_names-append :
      (names : List Text) (t r : Text)
      → All IsPlain names
      → is_tagged true t ≡ true
      → match_names ends names (t ++ r) ≡ match_names ends names t
  unfolding match_names
  match_names-append [] t r p h = refl
  match_names-append (name ∷ names) t r (q, p) h =
      rw
        (
          sized-append name t r _ _ (after_name-Agrees name t r q h),
          match_names-append names t r p h,
        )
        refl

  pub match_names-IsMatch :
      (names : List Text) (t : Text)
      → All IsPlain names
      → is_tagged true t ≡ true
      → IsMatch t (match_names ends names t)
  unfolding match_names
  match_names-IsMatch [] t p h = tt
  match_names-IsMatch (name ∷ names) t (q, p) h =
      or_match-IsMatch t _ _ (sized-IsMatch name t _ _ (after_name-Agrees name t [] q h))
        (match_names-IsMatch names t p h)

tg_tags-IsPlain : All IsPlain tg_tags
tg_tags-IsPlain = ground arith

-- A search at a place in a text: it finds something only at a `<`, does not look beyond the tag
-- that begins there, and its match ends within that.
pub record IsTagSearch (tag : Text → Option (ℕ × Text)) : Type 0 where
  pub starts : (c : ℕ) (t : Text) → (c == 60) ≡ false → tag (c ∷ t) ≡ none
  pub append : (t r : Text) → is_tagged true t ≡ true → tag (60 ∷ (t ++ r)) ≡ tag (60 ∷ t)
  pub ends : (t : Text) → is_tagged true t ≡ true → IsMatch (60 ∷ t) (tag (60 ∷ t))

longer-IsMatch :
    (c : ℕ) (t : Text) (o : Option (ℕ × Text))
    → (c == 62) ≡ false
    → IsMatch t o
    → IsMatch (c ∷ t) (longer 1 o)
longer-IsMatch c t none h w = tt
longer-IsMatch c t (some (n, name)) h w = ground (arith, w)

longer_twice : (o : Option (ℕ × Text)) → longer 1 (longer 1 o) ≡ longer 2 o
longer_twice none = refl
longer_twice (some (n, name)) =
    let e : 1 + (1 + n) ≡ 2 + n = omega arith in ap (λ k. some (k, name)) e

pub open_tag-IsTagSearch : IsTagSearch open_tag
unfolding open_tag
open_tag-IsTagSearch = record {
  starts = λ c t e. rw e refl;
  append = λ t r h.
      ap (longer 1) (match_names-append open_end open_end-IsLocal tg_tags t r tg_tags-IsPlain h);
  ends = λ t h.
      longer-IsMatch 60 t _ refl
        (match_names-IsMatch open_end open_end-IsLocal tg_tags t tg_tags-IsPlain h);
}

close_tag-append :
    (t r : Text) → is_tagged true t ≡ true → close_tag (60 ∷ (t ++ r)) ≡ close_tag (60 ∷ t)
unfolding close_tag is_tagged
close_tag-append [] r h = absurd (ground arith)
close_tag-append (d ∷ t) r h = elim (Bool-cases (d == 47)) [
  | inl slash ↦
      rw
        (
          slash,
          match_names-append close_end close_end-IsLocal tg_tags t r tg_tags-IsPlain (ground arith),
        )
        refl
  | inr other ↦ rw other refl
]

close_tag-ends : (t : Text) → is_tagged true t ≡ true → IsMatch (60 ∷ t) (close_tag (60 ∷ t))
unfolding close_tag is_tagged
close_tag-ends [] h = absurd (ground arith)
close_tag-ends (d ∷ t) h =
    if-by (IsMatch (60 ∷ d ∷ t)) (d == 47) _ _
      (λ slash. subst (IsMatch (60 ∷ d ∷ t)) (longer_twice (match_names close_end tg_tags t)) (
        longer-IsMatch 60 (d ∷ t) _ refl (
          longer-IsMatch d t _ (ground arith) (
            match_names-IsMatch close_end close_end-IsLocal tg_tags t tg_tags-IsPlain
              (ground arith)))))
      (λ other. tt)

close_tag-starts : (c : ℕ) (t : Text) → (c == 60) ≡ false → close_tag (c ∷ t) ≡ none
unfolding close_tag
close_tag-starts c [] e = refl
close_tag-starts c (d ∷ t) e = rw e refl

pub close_tag-IsTagSearch : IsTagSearch close_tag
close_tag-IsTagSearch = record {
  starts = close_tag-starts;
  append = close_tag-append;
  ends = close_tag-ends;
}
