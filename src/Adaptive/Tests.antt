-- ===== src/Adaptive/Tests.antt =====
-- Feedback on two terms, and the witness of its theorem.
use telegram_br.Base.{ℕ, ◌≡◌, refl, Bool, true, false, List, [], ◌∷◌}
use telegram_br.Adaptive.{
  AdaptiveWeights, millionths, clamp_alpha, adaptive_weights, get, default_weight, updated_weight,
  record_feedback,
}
use telegram_br.Adaptive.Feedback.{record_all, is_within, record_all-within}

program : Unit {0}
unfolding clamp_alpha adaptive_weights get updated_weight record_feedback record_all
program = tt

-- The weight of term 4 starts above the bounds, and the rate is clamped.
abbrev some_weights : AdaptiveWeights
some_weights = adaptive_weights ((4, 3000000) ∷ []) (millionths 100000)

abbrev feedback : List (ℕ × Bool)
feedback = (4, true) ∷ (7, true) ∷ (7, false) ∷ []

term-weight : get 7 default_weight (record_all feedback some_weights) ≡ 667000
unfolding program
term-weight = refl

record_all-within_example :
    is_within (get 4 default_weight (record_all feedback some_weights)) ≡ true
record_all-within_example = record_all-within feedback 4 some_weights refl
