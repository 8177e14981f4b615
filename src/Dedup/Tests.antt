-- ===== src/Dedup/Tests.antt =====
-- The deduplicator at concrete inputs.
use telegram_br.Base.{◌≡◌, refl, true, false, some, List, [], ◌∷◌, arith, seconds, lookup}
use telegram_br.Fingerprints.{
  Row, claim_alert_fingerprint, release_alert_fingerprint, steal_stale_alert_fingerprint,
}
use telegram_br.Dedup.{
  Config, Dedup, runs, no_stats, begin_claim, finish_claim, check_and_claim, release,
  steal_if_stale, mem_has, mem_claim, note_denied,
}
use telegram_br.Dedup.Claims.{IsOn, check_and_claim_restarted, steal_if_stale-fresh}
use telegram_br.Dedup.Workers.{
  System, Action, claim, reply, release_claim, restart, step, run, after_begin, after_finish,
  answer,
}

program : Unit {0}
unfolding check_and_claim finish_claim begin_claim mem_has mem_claim claim_alert_fingerprint
    release_alert_fingerprint steal_stale_alert_fingerprint release steal_if_stale step run
    after_begin after_finish answer
program = tt

abbrev config : Config
config = record { enabled = true; window_seconds = 3600; mem_max = 256; has_db = true }

abbrev config-IsOn : IsOn config
config-IsOn = record { enabled = refl; has_db = refl; window = omega arith }

abbrev empty : Dedup
empty = record { mem = []; stats = no_stats }

abbrev start : System
start = record { procs = λ _. empty; table = []; pending = []; wins = [] }

-- Two processes claim fingerprint 7 at once, the later one is answered first, and the other one
-- restarts and claims again.
abbrev schedule : List Action
schedule =
    claim 0 7 (seconds 10)
    ∷ claim 1 7 (seconds 11)
    ∷ claim 1 8 (seconds 11)
    ∷ reply 1 runs
    ∷ restart 0
    ∷ claim 0 7 (seconds 12)
    ∷ release_claim 1 8 runs
    ∷ reply 0 runs
    ∷ reply 0 runs
    ∷ []

run-schedule : (run config start schedule).wins ≡ 8 ∷ 7 ∷ []
unfolding program
run-schedule = refl

abbrev old_row : Row
old_row = record { first_seen = seconds 1; last_seen = seconds 5; hits = 2 }

check_and_claim_restarted_example :
    let r = check_and_claim config runs empty 7 (seconds 10) ((7, old_row) ∷ []) in
    (r.2 ≡ false)
    × (lookup 7 r.1 ≡ some (record { first_seen = seconds 1; last_seen = seconds 10; hits = 3 }))
check_and_claim_restarted_example =
    check_and_claim_restarted config empty 7 (seconds 10) ((7, old_row) ∷ []) old_row config-IsOn
      refl refl (omega arith)

steal_if_stale-fresh_example :
    steal_if_stale config runs empty 7 (seconds 120) (seconds 100) ((7, old_row) ∷ [])
    ≡ (note_denied empty, (7, old_row) ∷ [], false)
steal_if_stale-fresh_example =
    steal_if_stale-fresh config empty 7 (seconds 120) (seconds 100) ((7, old_row) ∷ []) old_row
      config-IsOn refl (omega arith)
