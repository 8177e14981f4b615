-- ===== src/NegativeMemory/Tests.antt =====
-- Flushes of the memory, and the witnesses of its theorems.
use telegram_br.Base.{◌≡◌, refl, ◌⊎◌, true, false, some, List, [], ◌∷◌, elem, lookup}
use telegram_br.NegativeMemory.{
  Round, Memory, kick, mark_dirty, change, write_store, flush_store, change_all, flush_now, settle,
  debounced_flush,
}
use telegram_br.NegativeMemory.Flush.{flush_now-stores}
use telegram_br.NegativeMemory.Forgets.{debounced_flush-forgets}

abbrev memory : Memory
memory = record {
  registered = 1 ∷ 2 ∷ [];
  current = (1, 10) ∷ (2, 20) ∷ [];
  saved = [];
  dirty = 1 ∷ [];
  has_db = true;
  flushing = true;
}

program : Unit {0}
unfolding kick mark_dirty change write_store flush_store change_all flush_now settle debounced_flush
program = tt

-- A change of another store while the flush runs stays marked, and a new flush is scheduled.
flush-other :
    let g =
      debounced_flush (record { name = 1; works = true; meanwhile = (2, 21) ∷ [] } ∷ []) memory in
    (g.saved ≡ (1, 10) ∷ []) × (g.dirty ≡ 2 ∷ []) × (g.flushing ≡ true)
unfolding program
flush-other = (refl, refl, refl)

abbrev two_rounds : List Round
two_rounds =
    record { name = 1; works = true; meanwhile = (1, 11) ∷ (2, 21) ∷ [] }
    ∷ record { name = 2; works = false; meanwhile = (1, 12) ∷ [] }
    ∷ []

debounced_flush-forgets_example :
    let g = debounced_flush two_rounds memory in
    (lookup 1 g.saved ≡ some 10) × (lookup 1 g.current ≡ some 12) × (elem 1 g.dirty ≡ false)
debounced_flush-forgets_example =
    debounced_flush-forgets 1 10 ((1, 11) ∷ (2, 21) ∷ [])
      (record { name = 2; works = false; meanwhile = (1, 12) ∷ [] } ∷ []) memory refl refl refl refl
      refl

-- The statement of the second store fails.
abbrev rounds : List Round
rounds =
    record { name = 1; works = true; meanwhile = [] }
    ∷ record { name = 2; works = false; meanwhile = [] }
    ∷ []

flush_now-stores_example :
    (elem 1 (flush_now rounds memory).1 ≡ true)
    ⊎ (lookup 1 (flush_now rounds memory).0.saved ≡ some 10)
flush_now-stores_example = flush_now-stores 1 10 rounds memory (refl, (refl, tt)) (refl, refl) refl
