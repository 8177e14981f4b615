-- ===== src/Circuit/Tests.antt =====
-- Runs of the circuit breaker on concrete steps, and the witnesses of its theorems.
use telegram_br.Base.{◌≡◌, refl, none, some, List, [], ◌∷◌, arith, seconds}
use telegram_br.Circuit.{
  Limits, Breaker, raised, cancelled, flooded, Step, begins, ends, init, check, failure,
  flood_failure, flood_wait_remaining, finish, run, opened, half_open,
}
use telegram_br.Circuit.Flood.{run-flooded}
use telegram_br.Circuit.Probes.{run-probes}

abbrev limits : Limits
limits = record { threshold = 2; recovery = seconds 60 }

abbrev failing : List Step
failing =
    begins (seconds 1)
    ∷ ends (seconds 2) raised
    ∷ begins (seconds 3)
    ∷ ends (seconds 4) raised
    ∷ begins (seconds 5)
    ∷ []

abbrev probing : Breaker
probing = record {
  failures = 2;
  successes = 0;
  last_fail = some (seconds 4);
  state = half_open;
  half_open_reqs = 0;
  flood_wait_until = none;
  flood_seconds_last = 0;
}

abbrev broken : Breaker
broken = record probing { state = opened }

-- The third call is refused: the breaker is open.
run-failing : (run limits failing init).1 ≡ 2
unfolding run check finish failure
run-failing = refl

flood-remaining : flood_wait_remaining (seconds 10) (flood_failure (seconds 4) 30 init) ≡ seconds 24
unfolding flood_wait_remaining flood_failure
flood-remaining = refl

run-flooded_example :
    (run limits
      (ends (seconds 4) (flooded 30) ∷ begins (seconds 5) ∷ begins (seconds 33) ∷ [])
      init).1
    ≡ 0
run-flooded_example =
    run-flooded limits (seconds 4) 30 (begins (seconds 5) ∷ begins (seconds 33) ∷ []) init
      (omega arith, (omega arith, tt))

abbrev lost_probes : List Step
lost_probes =
    begins (seconds 65)
    ∷ begins (seconds 66)
    ∷ ends (seconds 67) cancelled
    ∷ ends (seconds 68) cancelled
    ∷ begins (seconds 900)
    ∷ []

run-probes_example : (run limits lost_probes probing).1 ≡ 2
run-probes_example =
    run-probes limits lost_probes probing refl refl (refl, (refl, (refl, (refl, (refl, tt)))))
