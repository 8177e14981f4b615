-- ===== src/BlockList.antt =====
-- The block lists of the database (database.py) and their caches: is_blocked_sender, block_sender and
-- unblock_sender, and the same three methods for chats, which differ only in the table.
mod Refinement
mod Tests
use telegram_br.Base.{
  ℕ, zero, suc, ◌+◌, ◌-◌, ◌*◌, ◌/◌, ◌%◌, ◌≤◌, ◌<◌, min, max, ◌≡◌, refl, sym, ap, ◌∙◌, ◌≢◌, ◌↔◌, ◌⊎◌,
  inl, inr, Bool, true, false, not, ◌&&◌, ◌||◌, Option, none, some, List, [], ◌∷◌, ◌++◌, map, arith,
  ltb, leb, ◌==◌, if◌then◌else◌, is_some, Bool-cases, Option-cases, if-by, Time, seconds, length,
  get_elem?, take, drop, keep, any, count_by, All, length-append, length-drop, elem, distinct, Dict,
  lookup, insert, erase, insert_last, keep_last, lookup-insert, lookup-insert_self, lookup-erase,
  lookup-insert_last, length-insert-le, length-erase-le, ==_iff, ==_refl, leb_iff, ltb_iff,
  length-keep-le, append-snoc, append-nil, lookup-append, push_last, push_last-room, count_recent,
  count_window, IsHistory, IsHistory-later, Covers, sees, IsHistory-push_last, Covers-later,
  Covers-push_last, count_window-append-le, count_by-append, count_by-le-length, keep_last,
  length-keep_last-le,
}

-- The ids in the table, and the cache: an answer and when it expires.
pub record Blocks : Type 0 where
  pub table : List ℕ
  pub cache : Dict (Bool × Time)

-- Whether the first SELECT works, and the one that follows its failure.
pub record Reads : Type 0 where
  pub first : Bool
  pub second : Bool

abbrev pub prune_size : ℕ
prune_size = 5000

-- `sorted(…, key=expiry, reverse=True)`, which keeps the order of equals.
unfoldable pub insert_entry : ℕ × (Bool × Time) → Dict (Bool × Time) → Dict (Bool × Time)
insert_entry x [] = x ∷ []
insert_entry x (y ∷ ys) =
    let rest = insert_entry x ys in if leb y.1.1 x.1.1 then x ∷ y ∷ ys else y ∷ rest

unfoldable pub sort_by_expiry : Dict (Bool × Time) → Dict (Bool × Time)
sort_by_expiry [] = []
sort_by_expiry (x ∷ xs) = insert_entry x (sort_by_expiry xs)

abbrev pub without_expired : Time → Dict (Bool × Time) → Dict (Bool × Time)
without_expired now = keep (λ e. ltb now e.1.1)

unfoldable pub prune_blocked_cache : Time → Dict (Bool × Time) → Dict (Bool × Time)
prune_blocked_cache now cache =
    let live = without_expired now cache in
    if leb (length cache) prune_size
    then cache
    else if leb (length live) prune_size
    then live
    else take (prune_size / 2) (sort_by_expiry live)

-- The answer of the cache, while it has not expired.
unfoldable pub cached_answer : Time → Option (Bool × Time) → Option Bool
cached_answer now none = none
cached_answer now (some e) = if ltb now e.1 then some e.0 else none

-- The time to live of an answer, with the value of BLOCKLIST_CACHE_TTL in seconds.
abbrev pub time_to_live : ℕ → Time
time_to_live setting = seconds (max 5 setting)

-- The query after a miss: the answer is stored; after two failures nothing counts as blocked.
unfoldable pub read_table : ℕ → ℕ → Time → Reads → Blocks → Blocks × Bool
read_table setting k now r b =
    let blocked = elem k b.table in
    if r.first
    then (
      record b {
        cache = prune_blocked_cache now (insert k (blocked, now + time_to_live setting) b.cache);
      },
      blocked,
    )
    else (b, r.second && blocked)

unfoldable pub answer_or_read : ℕ → ℕ → Time → Reads → Blocks → Option Bool → Blocks × Bool
answer_or_read setting k now r b (some answer) = (b, answer)
answer_or_read setting k now r b none = read_table setting k now r b

unfoldable pub is_blocked : ℕ → ℕ → Time → Reads → Blocks → Blocks × Bool
is_blocked setting k now r b =
    answer_or_read setting k now r b (cached_answer now (lookup k b.cache))

-- `INSERT OR IGNORE`; when it fails, the error is logged and nothing changes.
unfoldable pub block : Bool → ℕ → Blocks → Blocks
block works k b =
    if works
    then record b {
      table = if elem k b.table then b.table else k ∷ b.table;
      cache = erase k b.cache;
    }
    else b

-- When the DELETE fails, the exception goes to the caller and nothing changes.
unfoldable pub unblock : Bool → ℕ → Blocks → Blocks
unblock works k b =
    if works
    then record b { table = keep (λ j. not (j == k)) b.table; cache = erase k b.cache }
    else b
