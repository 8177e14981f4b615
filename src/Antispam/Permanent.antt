-- ===== src/Antispam/Permanent.antt =====
-- The permanent ignore list (antispam.py): who gets on it stays on it, across restarts, and leaves
-- it by `unignore` only.
use telegram_br.Base.{
  ℕ, ◌≡◌, refl, sym, All, ap, ◌∙◌, ◌≢◌, inl, inr, Bool, true, false, ◌&&◌, some, List, [], ◌∷◌,
  arith, ◌==◌, Bool-cases, Time, elem, ==_iff,
}
use telegram_br.Antispam.{
  Config, Library, Engine, without, remove_row, has_row, unignore, is_ignored_async,
}
use telegram_br.Antispam.Observe.{Message, next_activity, remember, observe}
use telegram_br.Antispam.Branches.{observe-by, old_activity}
use telegram_br.Antispam.Listing.{
  is_spam, restarted, observe-ignored, observe-row, remember-db, decide-db, check_row-db,
  check_row-none, has_row-remove_row, elem-without, observe-known,
}

-- The next message of a sender whose message was found to be spam is found to be spam.
observe-spam_next :
    (cfg : Config) (lib : Library) (ok again : Bool) (now later : Time) (m n : Message) (g : Engine)
    → ((j : ℕ) (xs : List ℕ) → elem j (lib.keep_ignored (j ∷ xs)) ≡ true)
    → n.sender ≡ m.sender
    → is_spam (observe cfg lib ok now m g).1 ≡ true
    → is_spam (observe cfg lib again later n (observe cfg lib ok now m g).0).1 ≡ true
observe-spam_next cfg lib ok again now later m n g keeps same caught =
    let (on, real, known) = observe-ignored cfg lib ok now m g keeps caught in
    observe-known cfg lib again later m n (observe cfg lib ok now m g).0 same on real known

-- A message, when it comes, and whether the database takes the statements at that time.
abbrev pub Arrival : Type 0
Arrival = Bool × (Time × Message)

-- Each of the messages, one after the other, is found to be spam.
abbrev pub AreSpam : Config → Library → List Arrival → Engine → Type 0
AreSpam cfg lib [] g = Unit {0}
AreSpam cfg lib ((ok, (now, m)) ∷ ms) g =
    (is_spam (observe cfg lib ok now m g).1 ≡ true)
    × AreSpam cfg lib ms (observe cfg lib ok now m g).0

same_senders :
    (n m : Message) (ms : List Arrival)
    → n.sender ≡ m.sender
    → All (λ a. a.1.1.sender ≡ m.sender) ms
    → All (λ a. a.1.1.sender ≡ n.sender) ms
same_senders n m [] same h = tt
same_senders n m (a ∷ ms) same h = (h.0 ∙ sym same, same_senders n m ms same h.1)

-- When a message of a sender was found to be spam, and only messages of this sender follow, each of
-- them is found to be spam: however many they are, whatever they say, whenever they come, and
-- whether or not the database takes the statements; given that the cache of ignored senders holds
-- what was just put in.
pub observe-spam_again :
    (cfg : Config) (lib : Library) (ok : Bool) (now : Time) (m : Message) (ms : List Arrival)
    (g : Engine)
    → ((j : ℕ) (xs : List ℕ) → elem j (lib.keep_ignored (j ∷ xs)) ≡ true)
    → All (λ a. a.1.1.sender ≡ m.sender) ms
    → is_spam (observe cfg lib ok now m g).1 ≡ true
    → AreSpam cfg lib ms (observe cfg lib ok now m g).0
observe-spam_again cfg lib ok now m [] g keeps same caught = tt
observe-spam_again cfg lib ok now m ((again, (later, n)) ∷ ms) g keeps (same, rest) caught =
    let g' = (observe cfg lib ok now m g).0 in
    let next = observe-spam_next cfg lib ok again now later m n g keeps same caught in
    (
      next,
      observe-spam_again cfg lib again later n ms g' keeps (same_senders n m ms same rest) next,
    )

-- The sender of a message that the engine finds to be spam, and that was not on its list, is found
-- on the list by a process that starts later, with empty caches, on the same database, when the
-- database has taken the statements.
pub observe-restarted :
    (cfg : Config) (lib : Library) (now later : Time) (m : Message) (g : Engine) (rows : List ℕ)
    → lib.live_negative later [] ≡ []
    → g.db ≡ some rows
    → elem m.sender g.ignored ≡ false
    → is_spam (observe cfg lib true now m g).1 ≡ true
    → (is_ignored_async lib true m.sender later (restarted (observe cfg lib true now m g).0)).1
      ≡ true
unfolding is_ignored_async
observe-restarted cfg lib now later m g rows empty has new caught =
    let (real, row) = observe-row cfg lib now m g rows has new caught in
    rw (real, empty, row)
      (check_row-db lib m.sender (observe cfg lib true now m g).0.db
        (restarted (observe cfg lib true now m g).0) row)

-- A message of one sender puts no other sender on the permanent list, and takes none off it.
pub observe-isolated :
    (cfg : Config) (lib : Library) (ok : Bool) (now : Time) (m : Message) (j : ℕ) (g : Engine)
    → j ≢ m.sender
    → has_row j (observe cfg lib ok now m g).0.db ≡ has_row j g.db
observe-isolated cfg lib ok now m j g distinct_senders =
    let other : (j == m.sender) ≡ false = ground (arith, ==_iff j m.sender) in
    observe-by cfg lib ok now m (λ s. has_row j s.0.db ≡ has_row j g.db) g refl refl
      (λ on real known. refl)
      (λ on real fresh.
        decide-db cfg lib ok now j m (next_activity cfg lib now m (old_activity cfg lib ok now m g))
          (remember cfg lib now m (old_activity cfg lib ok now m g) g) other
        ∙ ap (has_row j) (remember-db cfg lib now m (old_activity cfg lib ok now m g) g))

-- After a sender is taken off the list, with a database that takes the statement, no lookup finds
-- it there.
pub unignore-is_ignored_async :
    (lib : Library) (ok : Bool) (i : ℕ) (later : Time) (g : Engine)
    → (is_ignored_async lib ok i later (unignore lib true i g).0).1 ≡ false
unfolding is_ignored_async unignore
unignore-is_ignored_async lib ok i later g = elim (Bool-cases (i == 0)) [
  | inl nobody ↦ rw nobody refl
  | inr real ↦ elim (Bool-cases (elem i (lib.live_negative later (without i g.negative)))) [
    | inl denied ↦ rw (real, elem-without i g.ignored, denied) refl
    | inr unknown ↦
        rw (real, elem-without i g.ignored, unknown, has_row-remove_row i g.db)
          (check_row-none lib i (remove_row true i g.db) (ok && false) (unignore lib true i g).0
            (ground arith))
  ]
]
