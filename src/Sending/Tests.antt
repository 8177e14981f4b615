-- ===== src/Sending/Tests.antt =====
-- The claim before sending at concrete inputs.
use telegram_br.Base.{◌≡◌, refl, true, false, [], ◌∷◌, arith, seconds}
use telegram_br.Fingerprints.{Row}
use telegram_br.Dedup.{Config, Dedup, runs, no_stats}
use telegram_br.Dedup.Claims.{IsOn}
use telegram_br.Sending.{Calls, claim_for_send}
use telegram_br.Sending.Recovery.{Answers, claim_for_send-restarted, claim_for_send-takes_over}

abbrev config : Config
config = record { enabled = true; window_seconds = 86400; mem_max = 8192; has_db = true }

abbrev config-IsOn : IsOn config
config-IsOn = record { enabled = refl; has_db = refl; window = omega arith }

-- The calls of an event that is recovered ten minutes after its claim.
abbrev calls : Calls
calls = record {
  claim_at = seconds 700;
  claim_ends = runs;
  steal_at = seconds 700;
  steal_ends = runs;
  reclaim_at = seconds 701;
  reclaim_ends = runs;
}

abbrev calls-Answers : Answers calls
calls-Answers = record { claim_ends = refl; steal_ends = refl; reclaim_ends = refl }

abbrev crashed : Row
crashed = record { first_seen = seconds 100; last_seen = seconds 100; hits = 1 }

abbrev forgotten : Dedup
forgotten = record { mem = []; stats = no_stats }

abbrev remembered : Dedup
remembered = record { mem = (7, seconds 100) ∷ []; stats = no_stats }

claim_for_send-restarted_example :
    (claim_for_send config 120 calls 7 true false forgotten ((7, crashed) ∷ [])).2 ≡ false
claim_for_send-restarted_example =
    claim_for_send-restarted config 120 calls 7 forgotten ((7, crashed) ∷ []) crashed config-IsOn
      calls-Answers refl refl (omega arith) (omega arith)

claim_for_send-takes_over_example :
    (claim_for_send config 120 calls 7 true false remembered ((7, crashed) ∷ [])).2 ≡ true
claim_for_send-takes_over_example =
    claim_for_send-takes_over config 120 calls 7 remembered ((7, crashed) ∷ []) crashed config-IsOn
      calls-Answers (seconds 100) refl (omega arith) refl (omega arith)
