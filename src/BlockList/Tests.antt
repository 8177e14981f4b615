-- ===== src/BlockList/Tests.antt =====
-- Queries of the block list, with its cache, and the witness of its theorem.
use telegram_br.Base.{◌≡◌, refl, true, false, List, [], ◌∷◌, seconds, elem}
use telegram_br.BlockList.{
  Blocks, insert_entry, sort_by_expiry, prune_blocked_cache, cached_answer, read_table,
  answer_or_read, is_blocked, block, unblock,
}
use telegram_br.BlockList.Refinement.{
  Command, blocks, unblocks, asks, answers, specified, answers-specified,
}

abbrev some_blocked : Blocks
some_blocked = record { table = 7 ∷ []; cache = (7, (true, seconds 40)) ∷ [] }

abbrev commands : List Command
commands =
    asks 7 (seconds 10)
    ∷ unblocks 7
    ∷ asks 7 (seconds 11)
    ∷ blocks 9
    ∷ asks 9 (seconds 12)
    ∷ asks 9 (seconds 90)
    ∷ []

program : Unit {0}
unfolding insert_entry sort_by_expiry prune_blocked_cache cached_answer read_table answer_or_read
    is_blocked block unblock answers specified
program = tt

answers-commands : answers 30 commands some_blocked ≡ true ∷ false ∷ true ∷ true ∷ []
unfolding program
answers-commands = refl

-- When both reads fail, a blocked sender is let through.
is_blocked-failing :
    (is_blocked 30 7 (seconds 50) (record { first = false; second = false }) some_blocked).1 ≡ false
unfolding program
is_blocked-failing = refl

-- A query that reads the table before the sender is blocked, and stores its answer afterwards, leaves an answer that is
-- wrong until it expires.
is_blocked-late :
    (is_blocked 30 9
      (seconds 20)
      (record { first = true; second = true })
      (record (block true 9 some_blocked) {
        cache =
            (read_table 30 9
              (seconds 10)
              (record { first = true; second = true })
              some_blocked).0.cache;
      })).1
    ≡ false
unfolding program
is_blocked-late = refl

answers-specified_example :
    answers 30 commands some_blocked ≡ specified commands (λ j. elem j (7 ∷ []))
answers-specified_example = answers-specified 30 commands some_blocked (refl, tt)
