-- ===== src/Policy/Length.antt =====
-- The length policy (unified_alerts/filter_policy.py): what passes, and that all layers agree.
use telegram_br.Base.{
  ℕ, ◌≤◌, ◌<◌, ◌≡◌, refl, ap, ◌∙◌, ◌↔◌, inl, inr, Bool, true, some, [], ◌∷◌, arith, Bool-cases,
  length, keep, All,
}
use telegram_br.Texts.{Text, strip}
use telegram_br.Texts.Strip.{strip_idem, strip-All}
use telegram_br.Policy.{
  Setting, unreadable, below_zero, number, is_visible, normalize_for_measure, limits, check,
  verdict_of,
}

keep-All : (p : ℕ → Bool) (t : Text) → All (λ c. p c ≡ true) (keep p t)
keep-All p [] = tt
keep-All p (c ∷ t) = elim (Bool-cases (p c)) [
  | inl held ↦ rw held (held, keep-All p t)
  | inr lost ↦ rw lost (keep-All p t)
]

keep_id : (p : ℕ → Bool) (t : Text) → All (λ c. p c ≡ true) t → keep p t ≡ t
keep_id p [] w = refl
keep_id p (c ∷ t) (h, w) = rw (h, keep_id p t w) refl

normalize_for_measure_idem :
    (t : Text) → normalize_for_measure (normalize_for_measure t) ≡ normalize_for_measure t
unfolding normalize_for_measure
normalize_for_measure_idem t =
    ap strip (
      keep_id is_visible (strip (keep is_visible t))
        (strip-All is_visible (keep is_visible t) (keep-All is_visible t)))
    ∙ strip_idem (keep is_visible t)

-- A layer that is given the text which an earlier layer's check has handed on decides as that one
-- did: the same verdict, for the same reason, with the same length and counter.
pub check_again :
    (lo hi : Setting) (t : Text)
    → check (limits lo hi) (some (normalize_for_measure t)) ≡ check (limits lo hi) (some t)
unfolding check
check_again lo hi t = rw (normalize_for_measure_idem t) refl

limits-le : (lo hi : Setting) → (limits lo hi).0 ≤ (limits lo hi).1
unfolding limits
limits-le unreadable hi = omega arith
limits-le below_zero unreadable = omega arith
limits-le (number n) unreadable = omega arith
limits-le below_zero below_zero = omega arith
limits-le below_zero (number m) = omega arith
limits-le (number n) below_zero = omega arith
limits-le (number n) (number m) = omega arith

verdict_of-ok :
    (lim : ℕ × ℕ) (s : Text)
    → ((verdict_of lim s).0.ok ≡ true ↔ (0 < length s) × (lim.0 ≤ length s) × (length s ≤ lim.1))
verdict_of-ok (mn, mx) s =
    (λ e. (ground arith, ground arith, ground arith), λ (a, b, c). ground arith)

-- A text passes exactly if it is not empty and its length, without outer whitespace and
-- zero-width characters, is between the limits, both included; these limits are in order, so that
-- some length can pass.
pub check-ok :
    (lo hi : Setting) (t : Text)
    → ((check (limits lo hi) (some t)).0.ok ≡ true
        ↔ (0 < length (normalize_for_measure t))
          × ((limits lo hi).0 ≤ length (normalize_for_measure t))
          × (length (normalize_for_measure t) ≤ (limits lo hi).1))
      × ((limits lo hi).0 ≤ (limits lo hi).1)
unfolding check
check-ok lo hi t = (verdict_of-ok (limits lo hi) (normalize_for_measure t), limits-le lo hi)
