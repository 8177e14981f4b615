-- ===== src/Antispam/Listing.antt =====
-- Lemmas on the ignore list of `AntiSpamEngine` (antispam.py): what each branch does to it.
use telegram_br.Base.{
  ℕ, ◌+◌, ◌%◌, ◌≡◌, refl, ap, ◌∙◌, inl, inr, Bool, true, false, Option, none, some, List, [], ◌∷◌,
  arith, ◌==◌, Bool-cases, Time, elem, ==_refl,
}
use telegram_br.Antispam.{
  Entry, Config, Library, Reason, Engine, Verdict, allow, watched, spam, without, lazy_sweep,
  add_row, remove_row, has_row, confirm_spam, check_row,
}
use telegram_br.Antispam.Observe.{
  Message, next_activity, add_to_watch, confirm_if, decide, remember, observe, count_direct,
  count_confirmed,
}
use telegram_br.Antispam.Reasons.{watch_reasons, confirmation_reasons}
use telegram_br.Antispam.Branches.{decide-by, observe-by, old_activity}

abbrev pub is_spam : Verdict → Bool
is_spam allow = false
is_spam watched = false
is_spam spam = true

-- A new process on the same database.
abbrev pub restarted : Engine → Engine
restarted g = record {
  db = g.db;
  activities = [];
  watch = [];
  ignored = [];
  negative = [];
  sweeps = 0;
  stats = record {
    observed = 0;
    watch_added = 0;
    spam_confirmed = 0;
    direct_spam = 0;
    ignored_skipped = 0;
    ignored_db_misses = 0;
    no_identity_skipped = 0;
    errors = 0;
  };
}

pub elem-without : (i : ℕ) (xs : List ℕ) → elem i (without i xs) ≡ false
elem-without i [] = refl
elem-without i (x ∷ xs) = ground (arith, elem-without i xs)

elem-without_other : (i j : ℕ) (xs : List ℕ) → (j == i) ≡ false → elem j (without i xs) ≡ elem j xs
elem-without_other i j [] other = refl
elem-without_other i j (x ∷ xs) other = ground (arith, elem-without_other i j xs other)

add_row-other :
    (ok : Bool) (i j : ℕ) (db : Option (List ℕ))
    → (j == i) ≡ false
    → has_row j (add_row ok i db) ≡ has_row j db
add_row-other ok i j none other = refl
add_row-other true i j (some rows) other = rw other (elem-without_other i j rows other)
add_row-other false i j (some rows) other = refl

pub check_row-db :
    (lib : Library) (i : ℕ) (db : Option (List ℕ)) (g : Engine)
    → has_row i db ≡ true
    → (check_row lib i db true g).1 ≡ true
unfolding check_row
check_row-db lib i none g row = absurd (ground arith)
check_row-db lib i (some rows) g row = refl

pub check_row-none :
    (lib : Library) (i : ℕ) (db : Option (List ℕ)) (row : Bool) (g : Engine)
    → row ≡ false
    → (check_row lib i db row g).1 ≡ false
unfolding check_row
check_row-none lib i none row g e = refl
check_row-none lib i (some rows) row g e = rw e refl

pub has_row-remove_row : (i : ℕ) (db : Option (List ℕ)) → has_row i (remove_row true i db) ≡ false
has_row-remove_row i none = refl
has_row-remove_row i (some rows) = elem-without i rows

pub observe-known :
    (cfg : Config) (lib : Library) (ok : Bool) (now : Time) (m n : Message) (g : Engine)
    → n.sender ≡ m.sender
    → cfg.enabled ≡ true
    → (m.sender == 0) ≡ false
    → elem m.sender g.ignored ≡ true
    → is_spam (observe cfg lib ok now n g).1 ≡ true
unfolding observe
observe-known cfg lib ok now m n g same on real known = simp (on, same, real, known) refl

module _ (cfg : Config) (lib : Library) where
  confirm_spam-ignored :
      (ok : Bool) (i : ℕ) (g : Engine)
      → ((j : ℕ) (xs : List ℕ) → elem j (lib.keep_ignored (j ∷ xs)) ≡ true)
      → (i == 0) ≡ false
      → elem i (confirm_spam lib ok i g).ignored ≡ true
  unfolding confirm_spam
  confirm_spam-ignored ok i g keeps real = rw real (keeps i (without i g.ignored))

  confirm_spam-db :
      (i : ℕ) (g : Engine) (rows : List ℕ)
      → g.db ≡ some rows
      → (i == 0) ≡ false
      → has_row i (confirm_spam lib true i g).db ≡ true
  unfolding confirm_spam
  confirm_spam-db i g rows has real = rw real (rw has (rw (==_refl i) refl))

  confirm_spam-other :
      (ok : Bool) (i j : ℕ) (g : Engine)
      → (j == i) ≡ false
      → has_row j (confirm_spam lib ok i g).db ≡ has_row j g.db
  unfolding confirm_spam
  confirm_spam-other ok i j g other = elim (Bool-cases (i == 0)) [
    | inl nobody ↦ rw nobody refl
    | inr real ↦ rw real (add_row-other ok i j g.db other)
  ]

  confirm_if-ignored :
      (ok : Bool) (i : ℕ) (why : List Reason) (g : Engine)
      → ((j : ℕ) (xs : List ℕ) → elem j (lib.keep_ignored (j ∷ xs)) ≡ true)
      → (i == 0) ≡ false
      → is_spam (confirm_if cfg lib ok i why g).1 ≡ true
      → elem i (confirm_if cfg lib ok i why g).0.ignored ≡ true
  unfolding confirm_if
  confirm_if-ignored ok i [] g keeps real caught = ground arith
  confirm_if-ignored ok i (w ∷ why) g keeps real caught =
      confirm_spam-ignored ok i (count_confirmed g) keeps real

  pub add_to_watch-allows :
      (ok : Bool) (now : Time) (i : ℕ) (why : List Reason) (g : Engine)
      → is_spam (add_to_watch cfg lib ok now i why g).1 ≡ false
  unfolding add_to_watch
  add_to_watch-allows ok now i [] g = refl
  add_to_watch-allows ok now i (w ∷ why) g = refl

  absurd_spam :
      (i : ℕ) (s : Engine × Verdict)
      → is_spam s.1 ≡ false
      → is_spam s.1 ≡ true
      → elem i s.0.ignored ≡ true
  absurd_spam i s allowed caught = ground arith

  decide-ignored :
      (ok : Bool) (now : Time) (m : Message) (act : List Entry) (g : Engine)
      → ((j : ℕ) (xs : List ℕ) → elem j (lib.keep_ignored (j ∷ xs)) ≡ true)
      → (m.sender == 0) ≡ false
      → is_spam (decide cfg lib ok now m act g).1 ≡ true
      → elem m.sender (decide cfg lib ok now m act g).0.ignored ≡ true
  decide-ignored ok now m act g keeps real =
      decide-by cfg lib ok now m (λ s. is_spam s.1 ≡ true → elem m.sender s.0.ignored ≡ true) act g
        (λ direct caught. confirm_spam-ignored ok m.sender (count_direct g) keeps real)
        (λ seen.
          confirm_if-ignored ok m.sender (confirmation_reasons cfg lib now m.norm m.cats m.chat act)
            g keeps real)
        (λ caught.
          absurd_spam m.sender
            (add_to_watch cfg lib ok now m.sender (watch_reasons cfg lib now m.norm act) g)
            (add_to_watch-allows ok now m.sender (watch_reasons cfg lib now m.norm act) g) caught)

  abbrev KeepsIgnored : Message → Engine × Verdict → Type 0
  KeepsIgnored m s =
      is_spam s.1 ≡ true
      → (cfg.enabled ≡ true) × ((m.sender == 0) ≡ false) × (elem m.sender s.0.ignored ≡ true)

  pub observe-ignored :
      (ok : Bool) (now : Time) (m : Message) (g : Engine)
      → ((j : ℕ) (xs : List ℕ) → elem j (lib.keep_ignored (j ∷ xs)) ≡ true)
      → KeepsIgnored m (observe cfg lib ok now m g)
  observe-ignored ok now m g keeps =
      observe-by cfg lib ok now m (KeepsIgnored m) g (λ caught. absurd (ground arith))
        (λ caught. absurd (ground arith)) (λ on real known caught. (on, real, known))
        (λ on real fresh caught. (
          on,
          real,
          decide-ignored ok now m (next_activity cfg lib now m (old_activity cfg lib ok now m g))
              (remember cfg lib now m (old_activity cfg lib ok now m g) g) keeps real caught,
        ))

  pub remember-db :
      (now : Time) (m : Message) (old : Option (List Entry)) (g : Engine)
      → (remember cfg lib now m old g).db ≡ g.db
  unfolding remember lazy_sweep
  remember-db now m old g = elim (Bool-cases ((g.sweeps + 1) % 200 == 0)) [
    | inl due ↦ rw due refl
    | inr early ↦ rw early refl
  ]

  confirm_if-db :
      (ok : Bool) (i j : ℕ) (why : List Reason) (g : Engine)
      → (j == i) ≡ false
      → has_row j (confirm_if cfg lib ok i why g).0.db ≡ has_row j g.db
  unfolding confirm_if
  confirm_if-db ok i j [] g other = refl
  confirm_if-db ok i j (w ∷ why) g other = confirm_spam-other ok i j (count_confirmed g) other

  add_to_watch-db :
      (ok : Bool) (now : Time) (i : ℕ) (why : List Reason) (g : Engine)
      → (add_to_watch cfg lib ok now i why g).0.db ≡ g.db
  unfolding add_to_watch
  add_to_watch-db ok now i [] g = refl
  add_to_watch-db ok now i (w ∷ why) g = refl

  pub decide-db :
      (ok : Bool) (now : Time) (j : ℕ) (m : Message) (act : List Entry) (g : Engine)
      → (j == m.sender) ≡ false
      → has_row j (decide cfg lib ok now m act g).0.db ≡ has_row j g.db
  decide-db ok now j m act g other =
      decide-by cfg lib ok now m (λ s. has_row j s.0.db ≡ has_row j g.db) act g
        (λ direct. confirm_spam-other ok m.sender j (count_direct g) other)
        (λ seen.
          confirm_if-db ok m.sender j (confirmation_reasons cfg lib now m.norm m.cats m.chat act) g
            other)
        (ap (has_row j) (add_to_watch-db ok now m.sender (watch_reasons cfg lib now m.norm act) g))

  confirm_if-row :
      (i : ℕ) (why : List Reason) (g : Engine) (rows : List ℕ)
      → g.db ≡ some rows
      → (i == 0) ≡ false
      → is_spam (confirm_if cfg lib true i why g).1 ≡ true
      → has_row i (confirm_if cfg lib true i why g).0.db ≡ true
  unfolding confirm_if
  confirm_if-row i [] g rows has real caught = absurd (ground arith)
  confirm_if-row i (w ∷ why) g rows has real caught =
      confirm_spam-db i (count_confirmed g) rows has real

  decide-row :
      (now : Time) (m : Message) (act : List Entry) (g : Engine) (rows : List ℕ)
      → g.db ≡ some rows
      → (m.sender == 0) ≡ false
      → is_spam (decide cfg lib true now m act g).1 ≡ true
      → has_row m.sender (decide cfg lib true now m act g).0.db ≡ true
  decide-row now m act g rows has real =
      decide-by cfg lib true now m (λ s. is_spam s.1 ≡ true → has_row m.sender s.0.db ≡ true) act g
        (λ direct caught. confirm_spam-db m.sender (count_direct g) rows has real)
        (λ seen.
          confirm_if-row m.sender (confirmation_reasons cfg lib now m.norm m.cats m.chat act) g rows
            has real)
        (λ caught.
          ground
            (arith, add_to_watch-allows true now m.sender (watch_reasons cfg lib now m.norm act) g))

  abbrev KeepsRow : Message → Engine → Engine × Verdict → Type 0
  KeepsRow m g s =
      elem m.sender g.ignored ≡ false
      → is_spam s.1 ≡ true
      → ((m.sender == 0) ≡ false) × (has_row m.sender s.0.db ≡ true)

  pub observe-row :
      (now : Time) (m : Message) (g : Engine) (rows : List ℕ)
      → g.db ≡ some rows
      → KeepsRow m g (observe cfg lib true now m g)
  observe-row now m g rows has =
      observe-by cfg lib true now m (KeepsRow m g) g (λ new caught. absurd (ground arith))
        (λ new caught. absurd (ground arith)) (λ on real known new caught. ground arith)
        (λ on real fresh new caught. (
          real,
          decide-row now m (next_activity cfg lib now m (old_activity cfg lib true now m g))
              (remember cfg lib now m (old_activity cfg lib true now m g) g) rows
              (remember-db now m (old_activity cfg lib true now m g) g ∙ has) real caught,
        ))
