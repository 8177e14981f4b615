-- ===== src/NegativeMemory.antt =====
-- The stores that survive a restart (negative_memory.py): which of them are dirty, and the deferred flush.
mod Flush
mod Forgets
mod Tests
use telegram_br.Base.{
  ℕ, zero, suc, ◌+◌, ◌-◌, ◌*◌, ◌/◌, ◌%◌, ◌≤◌, ◌<◌, min, max, ◌≡◌, refl, sym, ap, ◌∙◌, ◌≢◌, ◌↔◌, ◌⊎◌,
  inl, inr, Bool, true, false, not, ◌&&◌, ◌||◌, Option, none, some, List, [], ◌∷◌, ◌++◌, map, arith,
  ltb, leb, ◌==◌, if◌then◌else◌, is_some, Bool-cases, Option-cases, if-by, Time, seconds, length,
  get_elem?, take, drop, keep, any, count_by, All, length-append, length-drop, elem, distinct, Dict,
  lookup, insert, erase, insert_last, keep_last, lookup-insert, lookup-insert_self, lookup-erase,
  lookup-insert_last, length-insert-le, length-erase-le, ==_iff, ==_refl, leb_iff, ltb_iff,
  length-keep-le, append-snoc, append-nil, lookup-append, push_last, push_last-room, count_recent,
  count_window, IsHistory, IsHistory-later, Covers, sees, IsHistory-push_last, Covers-later,
  Covers-push_last, count_window-append-le, count_by-append, count_by-le-length, keep_last,
  length-keep_last-le,
}

-- Stores are numbers here, and so are their contents: `current` is what each store's snapshot gives now, `saved` the
-- rows of app_settings. `registered` are the names in `_stores`.
pub record Memory : Type 0 where
  pub registered : List ℕ
  pub current : Dict ℕ
  pub saved : Dict ℕ
  pub dirty : List ℕ
  -- `_db_ref` is set
  pub has_db : Bool
  -- `_flush_task` is running
  pub flushing : Bool

-- `_kick`: a flush is scheduled unless one is.
unfoldable pub kick : Memory → Memory
kick m = record m { flushing = true }

abbrev pub add_name : ℕ → List ℕ → List ℕ
add_name n ns = if elem n ns then ns else n ∷ ns

unfoldable pub mark_dirty : ℕ → Memory → Memory
mark_dirty n m =
    if elem n m.registered
    then (let g = record m { dirty = add_name n m.dirty } in if m.has_db then kick g else g)
    else m

-- A store changes, and says so.
unfoldable pub change : ℕ → ℕ → Memory → Memory
change n v m = mark_dirty n (record m { current = insert n v m.current })

-- One round of `flush_now`: the snapshot of a store is written; `works` says whether the statement does.
-- A store that is not registered, or whose snapshot gives nothing, is passed over.
unfoldable pub write_store : Bool → ℕ → Memory → Option ℕ → Memory × Bool
write_store works n m none = (m, true)
write_store works n m (some v) =
    if works then (record m { saved = insert n v m.saved }, true) else (m, false)

unfoldable pub flush_store : Bool → ℕ → Memory → Memory × Bool
flush_store works n m =
    if elem n m.registered then write_store works n m (lookup n m.current) else (m, true)

-- What happens at the await of a round: stores change.
abbrev pub Changes : Type 0
Changes = List (ℕ × ℕ)

unfoldable pub change_all : Changes → Memory → Memory
change_all [] m = m
change_all ((n, v) ∷ cs) m = change_all cs (change n v m)

-- A name to flush, whether its statement works, and what changes until the next round.
pub record Round : Type 0 where
  pub name : ℕ
  pub works : Bool
  pub meanwhile : Changes

-- `flush_now`, with the names that failed.
unfoldable pub flush_now : List Round → Memory → Memory × List ℕ
flush_now [] m = (m, [])
flush_now (r ∷ rs) m =
    let (g, ok) = flush_store r.works r.name m in
    let (h, failed) = flush_now rs (change_all r.meanwhile g) in
    (h, if ok then failed else r.name ∷ failed)

-- The end of `_debounced_flush`: the names without a failure are no longer dirty, and a new flush is
-- scheduled when some are left.
unfoldable pub settle : List ℕ → Memory × List ℕ → Memory
settle names (m, failed) =
    let left = keep (λ n. not (elem n names && not (elem n failed))) m.dirty in
    record m { dirty = left; flushing = ltb 0 (length left) }

-- `_debounced_flush` once its waiting is over: `_dirty` gives the names, in the order of the rounds.
unfoldable pub debounced_flush : List Round → Memory → Memory
debounced_flush rs m =
    if not m.has_db || length m.dirty == 0
    then record m { flushing = false }
    else settle (map (λ r. r.name) rs) (flush_now rs m)
