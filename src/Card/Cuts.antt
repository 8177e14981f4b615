-- ===== src/Card/Cuts.antt =====
-- The cut of a text of tags (unified_alerts/card.py): what is left ends outside of a tag.
use telegram_br.Base.{
  ℕ, ◌+◌, ◌-◌, ◌≡◌, refl, ap, inl, inr, Bool, true, false, not, ◌&&◌, [], ◌∷◌, ◌++◌, arith, ltb,
  ◌==◌, if◌then◌else◌, Bool-cases, if-by, elem,
}
use mathlib.Core.Path.{subst}
use telegram_br.Texts.Strip.{empty_nil}
use telegram_br.Texts.{Text, is_space, is_empty, rstrip}
use telegram_br.Card.{width, cut, drop_partial}
use telegram_br.Card.Tags.{is_tagged}

pub is_tagged-append :
    (inside : Bool) (s t : Text)
    → is_tagged inside s ≡ true
    → is_tagged false t ≡ true
    → is_tagged inside (s ++ t) ≡ true
unfolding is_tagged
is_tagged-append true [] t h k = absurd (ground arith)
is_tagged-append false [] t h k = k
is_tagged-append true (c ∷ s) t h k =
    ground (arith, is_tagged-append true s t, is_tagged-append false s t)
is_tagged-append false (c ∷ s) t h k =
    ground (arith, is_tagged-append true s t, is_tagged-append false s t)

-- A beginning of a text of tags, which may end inside of one.
unfoldable is_cut : Bool → Text → Bool
is_cut inside [] = true
is_cut false (c ∷ t) =
    let in_tag = is_cut true t in
    let outside = is_cut false t in if c == 60 then in_tag else outside
is_cut true (c ∷ t) =
    let in_tag = is_cut true t in
    let outside = is_cut false t in if c == 62 then outside else if c == 60 then false else in_tag

cut-is_cut :
    (inside : Bool) (m u : ℕ) (t : Text)
    → is_tagged inside t ≡ true
    → is_cut inside (cut m u t) ≡ true
unfolding is_tagged is_cut cut
cut-is_cut inside m u [] h = refl
cut-is_cut true m u (c ∷ t) h =
    if-by (λ r. is_cut true r ≡ true) (ltb (m - 1) (u + width c)) _ _ (λ e. refl)
      (λ e. ground (arith, cut-is_cut true m (u + width c) t, cut-is_cut false m (u + width c) t))
cut-is_cut false m u (c ∷ t) h =
    if-by (λ r. is_cut false r ≡ true) (ltb (m - 1) (u + width c)) _ _ (λ e. refl)
      (λ e. ground (arith, cut-is_cut true m (u + width c) t, cut-is_cut false m (u + width c) t))

no_other : (t : Text) → is_cut true t ≡ true → elem 62 t ≡ false → elem 60 t ≡ false
unfolding is_cut
no_other [] h k = refl
no_other (c ∷ t) h k = ground (arith, no_other t)

-- Inside of a tag that has its end, or outside of one.
drop_partial-is_tagged :
    (inside : Bool) (t : Text)
    → is_cut inside t ≡ true
    → (inside && not (elem 62 t)) ≡ false
    → is_tagged inside (drop_partial t) ≡ true
unfolding is_tagged is_cut drop_partial
drop_partial-is_tagged true [] h k = absurd (ground arith)
drop_partial-is_tagged false [] h k = refl
drop_partial-is_tagged true (c ∷ t) h k =
    ground (arith, drop_partial-is_tagged true t, drop_partial-is_tagged false t)
drop_partial-is_tagged false (c ∷ t) h k =
    if-by (λ r. is_tagged false r ≡ true) (c == 60 && not (elem 60 t) && not (elem 62 t)) _ _
      (λ e. refl)
      (λ e.
        ground (arith, drop_partial-is_tagged true t, drop_partial-is_tagged false t, no_other t))

-- What is cut of a text of tags is one again.
pub drop_partial-cut-is_tagged :
    (m : ℕ) (t : Text)
    → is_tagged false t ≡ true
    → is_tagged false (drop_partial (cut m 0 t)) ≡ true
drop_partial-cut-is_tagged m t h =
    drop_partial-is_tagged false (cut m 0 t) (cut-is_cut false m 0 t h) refl

space_dark : (c : ℕ) → is_space c ≡ true → ((60 == c) ≡ false) × ((62 == c) ≡ false)
unfolding is_space
space_dark c h = (ground arith, ground arith)

-- The whitespace that `rstrip` removes.
pub rstrip-rest :
    (t : Text) → (ws : Text) × (t ≡ rstrip t ++ ws) × (elem 60 ws ≡ false) × (elem 62 ws ≡ false)
unfolding rstrip
rstrip-rest [] = ([], refl, refl, refl)
rstrip-rest (c ∷ t) =
    let (ws, e, lt, gt) = rstrip-rest t in
    elim (Bool-cases (is_space c && is_empty (rstrip t))) [
      | inl gone ↦
          let dark = space_dark c (ground arith) in
          let bare : t ≡ ws = subst (λ s. t ≡ s ++ ws) (empty_nil (rstrip t) (ground arith)) e in
          (c ∷ ws, rw gone (ap (λ s. c ∷ s) bare), ground (arith, dark.0), ground (arith, dark.1))
      | inr kept ↦ (ws, rw kept (ap (λ s. c ∷ s) e), lt, gt)
    ]

plain_inside : (ws : Text) → elem 62 ws ≡ false → is_tagged true ws ≡ false
unfolding is_tagged
plain_inside [] h = refl
plain_inside (c ∷ ws) h = ground (arith, plain_inside ws)

-- A text of tags stays one when plain text is taken from its end.
pub is_tagged-front :
    (inside : Bool) (t ws : Text)
    → elem 62 ws ≡ false
    → is_tagged inside (t ++ ws) ≡ true
    → is_tagged inside t ≡ true
unfolding is_tagged
is_tagged-front true [] ws k h = absurd (ground (arith, plain_inside ws k))
is_tagged-front false [] ws k h = refl
is_tagged-front true (c ∷ t) ws k h =
    ground (arith, is_tagged-front true t ws k, is_tagged-front false t ws k)
is_tagged-front false (c ∷ t) ws k h =
    ground (arith, is_tagged-front true t ws k, is_tagged-front false t ws k)
