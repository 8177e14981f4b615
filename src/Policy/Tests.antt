-- ===== src/Policy/Tests.antt =====
-- Concrete texts and stamps for the two gates, and the witnesses of their theorems.
use telegram_br.Base.{◌≡◌, refl, true, false, some, [], ◌∷◌, arith, seconds}
use telegram_br.Texts.{Text, lstrip, rstrip, strip, is_space}
use telegram_br.Policy.{
  number, pipeline, send, normalize_for_measure, limits, check, age_limit_seconds, event_age,
  evaluate_event,
}
use telegram_br.Policy.Age.{evaluate_event-later}

program : Unit {0}
unfolding lstrip rstrip strip is_space normalize_for_measure limits check age_limit_seconds
    event_age evaluate_event
program = tt

-- Two letters, a zero-width space and outer blanks.
abbrev text : Text
text = 32 ∷ 65 ∷ 8203 ∷ 66 ∷ 10 ∷ []

check-text : (check (limits (number 2) (number 2)) (some text)).0.ok ≡ true
unfolding program
check-text = refl

event-dropped :
    (evaluate_event (number 60) (seconds 100) (some (seconds 10)) pipeline).0.allowed ≡ false
unfolding program
event-dropped = refl

evaluate_event-later_example :
    (evaluate_event (number 60) (seconds 200) (some (seconds 10)) send).0.allowed ≡ false
evaluate_event-later_example =
    evaluate_event-later (number 60) (seconds 100) (seconds 200) (seconds 10) pipeline send
      (omega arith) (omega arith) event-dropped
