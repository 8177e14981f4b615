-- ===== src/Adaptive.antt =====
-- AdaptiveWeights (adaptive.py): the weights of terms under feedback, in millionths, with the step
-- of an update rounded towards the old weight.
pub mod Feedback
mod Tests
use telegram_br.Base.{
  ℕ, zero, suc, ◌+◌, ◌-◌, ◌*◌, ◌/◌, ◌%◌, ◌≤◌, ◌<◌, min, max, ◌≡◌, refl, sym, ap, ◌∙◌, ◌≢◌, ◌↔◌, ◌⊎◌,
  inl, inr, Bool, true, false, not, ◌&&◌, ◌||◌, Option, none, some, List, [], ◌∷◌, ◌++◌, map, arith,
  ltb, leb, ◌==◌, if◌then◌else◌, is_some, Bool-cases, Option-cases, if-by, Time, seconds, length,
  get_elem?, take, drop, keep, any, count_by, All, length-append, length-drop, elem, distinct, Dict,
  lookup, insert, erase, insert_last, keep_last, lookup-insert, lookup-insert_self, lookup-erase,
  lookup-insert_last, length-insert-le, length-erase-le, ==_iff, ==_refl, leb_iff, ltb_iff,
  length-keep-le, append-snoc, append-nil, lookup-append, push_last, push_last-room, count_recent,
  count_window, IsHistory, IsHistory-later, Covers, sees, IsHistory-push_last, Covers-later,
  Covers-push_last, count_window-append-le, count_by-append, count_by-le-length, keep_last,
  length-keep_last-le, append_assoc, drop-append, take-append,
}

-- ADAPTIVE_ALPHA as it is read: no number, below zero, or a number of millionths.
pub data AlphaSetting : Type 0 where
  unreadable : AlphaSetting
  below_zero : AlphaSetting
  millionths : ℕ → AlphaSetting

abbrev pub min_weight : ℕ
min_weight = 100000

abbrev pub max_weight : ℕ
max_weight = 1000000

abbrev pub default_weight : ℕ
default_weight = 700000

unfoldable pub clamp_alpha : AlphaSetting → ℕ
clamp_alpha unreadable = 50000
clamp_alpha below_zero = 1000
clamp_alpha (millionths a) = max 1000 (min 1000000 a)

pub record AdaptiveWeights : Type 0 where
  pub weights : Dict ℕ
  pub alpha : ℕ
  pub feedback_count : ℕ

unfoldable pub adaptive_weights : Dict ℕ → AlphaSetting → AdaptiveWeights
adaptive_weights weights a = record { weights = weights; alpha = clamp_alpha a; feedback_count = 0 }

abbrev pub or_weight : Option ℕ → ℕ → ℕ
or_weight none default = default
or_weight (some w) default = w

-- `get`
unfoldable pub get : ℕ → ℕ → AdaptiveWeights → ℕ
get term default g = or_weight (lookup term g.weights) default

-- `current + alpha * (target - current)`
abbrev pub towards : (alpha current target : ℕ) → ℕ
towards alpha current target =
    if leb current target
    then current + alpha * (target - current) / 1000000
    else current - alpha * (current - target) / 1000000

unfoldable pub updated_weight : ℕ → ℕ → Bool → ℕ
updated_weight alpha current was_correct =
    let target = if was_correct then max_weight else min_weight in
    max min_weight (min max_weight (towards alpha current target))

unfoldable pub record_feedback : ℕ → Bool → AdaptiveWeights → AdaptiveWeights × ℕ
record_feedback term was_correct g =
    let updated = updated_weight g.alpha (get term default_weight g) was_correct in
    (
      record g { weights = insert term updated g.weights; feedback_count = g.feedback_count + 1 },
      updated,
    )
