-- ===== src/Adaptive/Feedback.antt =====
-- The weights (adaptive.py) after feedback: their bounds and their direction.
use telegram_br.Base.{
  ℕ, ◌≤◌, ◌≡◌, refl, ap, ◌∙◌, inl, inr, Bool, true, ◌&&◌, ◌||◌, List, [], ◌∷◌, arith, leb, ◌==◌,
  if◌then◌else◌, Bool-cases, if-by, any, lookup-insert,
}
use telegram_br.Adaptive.{
  AdaptiveWeights, min_weight, max_weight, default_weight, or_weight, get, updated_weight,
  record_feedback,
}

-- Feedback on terms, one after another.
unfoldable pub record_all : List (ℕ × Bool) → AdaptiveWeights → AdaptiveWeights
record_all [] g = g
record_all ((term, was_correct) ∷ rest) g = record_all rest (record_feedback term was_correct g).0

abbrev pub of_term : ℕ → List (ℕ × Bool) → Bool
of_term term feedback = any (λ f. f.0 == term) feedback

updated_weight-bounds :
    (alpha current : ℕ) (was_correct : Bool)
    → (min_weight ≤ updated_weight alpha current was_correct)
      × (updated_weight alpha current was_correct ≤ max_weight)
unfolding updated_weight
updated_weight-bounds alpha current was_correct = (omega arith, omega arith)

get-record_feedback :
    (term t : ℕ) (was_correct : Bool) (g : AdaptiveWeights)
    → get t default_weight (record_feedback term was_correct g).0 ≡ (
        if term == t
        then updated_weight g.alpha (get term default_weight g) was_correct
        else get t default_weight g)
unfolding record_feedback get
get-record_feedback term t was_correct g =
    ap (λ o. or_weight o default_weight) (lookup-insert term t _ g.weights)
    ∙ elim (Bool-cases (term == t)) [ inl same ↦ rw same refl | inr other ↦ rw other refl ]

abbrev pub is_within : ℕ → Bool
is_within w = leb min_weight w && leb w max_weight

within-updated_weight :
    (alpha current : ℕ) (was_correct : Bool)
    → is_within (updated_weight alpha current was_correct) ≡ true
within-updated_weight alpha current was_correct = ground (
  arith,
  (updated_weight-bounds alpha current was_correct).0,
  (updated_weight-bounds alpha current was_correct).1,
)

within-record_feedback :
    (term t : ℕ) (was_correct : Bool) (g : AdaptiveWeights)
    → (t == term || is_within (get term default_weight g)) ≡ true
    → is_within (get term default_weight (record_feedback t was_correct g).0) ≡ true
within-record_feedback term t was_correct g h = rw (get-record_feedback t term was_correct g) (
    if-by (λ w. is_within w ≡ true) (t == term)
      (updated_weight g.alpha (get t default_weight g) was_correct) (get term default_weight g)
      (λ e. within-updated_weight g.alpha (get t default_weight g) was_correct)
      (λ e. ground (arith, h, e)))

-- After any feedback on any terms, in any order and with any rate, the weight of a term is between
-- 0.1 and 1, when it was before or when there was feedback on the term, wherever it had started.
pub record_all-within :
    (feedback : List (ℕ × Bool)) (term : ℕ) (g : AdaptiveWeights)
    → (of_term term feedback || is_within (get term default_weight g)) ≡ true
    → is_within (get term default_weight (record_all feedback g)) ≡ true
unfolding record_all
record_all-within [] term g h = h
record_all-within ((t, c) ∷ rest) term g h =
    record_all-within rest term (record_feedback t c g).0 (elim (Bool-cases (of_term term rest)) [
      | inl again ↦ ground (arith, again)
      | inr last ↦ ground (arith, within-record_feedback term t c g (ground (arith, h, last)))
    ])
