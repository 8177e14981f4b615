-- ===== src/Texts/Strip.antt =====
-- Laws of `strip` and `split`.
use telegram_br.Base.{
  ℕ, ◌≡◌, refl, ap, ◌∙◌, inl, inr, Bool, true, ◌&&◌, List, [], ◌∷◌, ◌++◌, arith, ◌==◌, Bool-cases,
  All, ==_refl,
}
use telegram_br.Texts.{Text, is_space, is_empty, lstrip, rstrip, strip, split}

lstrip_idem : (t : Text) → lstrip (lstrip t) ≡ lstrip t
unfolding lstrip
lstrip_idem [] = refl
lstrip_idem (c ∷ t) = ground (arith, lstrip_idem t)

rstrip_idem : (t : Text) → rstrip (rstrip t) ≡ rstrip t
unfolding rstrip
rstrip_idem [] = refl
rstrip_idem (c ∷ t) = elim (Bool-cases (is_space c && is_empty (rstrip t))) [
  | inl gone ↦ rw gone refl
  | inr kept ↦ rw (kept, rstrip_idem t, kept) refl
]

pub empty_nil : (t : Text) → is_empty t ≡ true → t ≡ []
empty_nil [] e = refl
empty_nil (c ∷ t) e = ground arith

rstrip-lstrip : (t : Text) → rstrip (lstrip t) ≡ lstrip (rstrip t)
unfolding lstrip rstrip
rstrip-lstrip [] = refl
rstrip-lstrip (c ∷ t) = elim (Bool-cases (is_space c)) [
  | inl space ↦ elim (Bool-cases (is_empty (rstrip t))) [
    | inl gone ↦ rw (space, gone, rstrip-lstrip t, empty_nil (rstrip t) gone) refl
    | inr kept ↦ rw (space, kept, space) (rstrip-lstrip t)
  ]
  | inr dark ↦ rw dark (rw dark refl)
]

pub strip_idem : (t : Text) → strip (strip t) ≡ strip t
unfolding strip
strip_idem t =
    ap lstrip (rstrip-lstrip (rstrip t))
    ∙ lstrip_idem (rstrip (rstrip t))
    ∙ ap lstrip (rstrip_idem t)

lstrip-All : (p : ℕ → Bool) (t : Text) → All (λ c. p c ≡ true) t → All (λ c. p c ≡ true) (lstrip t)
unfolding lstrip
lstrip-All p [] w = w
lstrip-All p (c ∷ t) (h, w) = elim (Bool-cases (is_space c)) [
  | inl space ↦ rw space (lstrip-All p t w)
  | inr dark ↦ rw dark (h, w)
]

rstrip-All : (p : ℕ → Bool) (t : Text) → All (λ c. p c ≡ true) t → All (λ c. p c ≡ true) (rstrip t)
unfolding rstrip
rstrip-All p [] w = w
rstrip-All p (c ∷ t) (h, w) = elim (Bool-cases (is_space c && is_empty (rstrip t))) [
  | inl gone ↦ rw gone tt
  | inr kept ↦ rw kept (h, rstrip-All p t w)
]

-- What holds of all characters holds of those that are left.
pub strip-All :
    (p : ℕ → Bool) (t : Text) → All (λ c. p c ≡ true) t → All (λ c. p c ≡ true) (strip t)
unfolding strip
strip-All p t w = lstrip-All p (rstrip t) (rstrip-All p t w)

split_parts : (sep : ℕ) (t : Text) → (p : Text) × (ps : List Text) × (split sep t ≡ p ∷ ps)
unfolding split
split_parts sep [] = ([], [], refl)
split_parts sep (c ∷ t) =
    let (p, ps, e) = split_parts sep t in
    elim (Bool-cases (c == sep)) [
      | inl here ↦ ([], split sep t, rw here refl)
      | inr other ↦ (c ∷ p, ps, rw (other, e) refl)
    ]

-- A text and a separator in front of another put their parts in front of its parts.
pub split-append : (sep : ℕ) (s t : Text) → split sep (s ++ sep ∷ t) ≡ split sep s ++ split sep t
unfolding split
split-append sep [] t = rw (==_refl sep) refl
split-append sep (c ∷ s) t =
    let (p, ps, e) = split_parts sep s in
    elim (Bool-cases (c == sep)) [
      | inl here ↦ rw (here, split-append sep s t) refl
      | inr other ↦ rw (other, split-append sep s t, e) refl
    ]
