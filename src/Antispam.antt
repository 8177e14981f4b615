-- ===== src/Antispam.antt =====
-- `AntiSpamEngine` of antispam.py: the records of each sender's messages, the watch list, and the
-- permanent ignore list with its table. The caches of `cachetools` and `fuzz.ratio` are the
-- parameter `Library`; scores and their threshold are in millionths. A message comes with its text
-- as `normalize_for_fingerprint` gives it and with the categories found in it.
pub mod Reasons
pub mod Observe
pub mod Branches
pub mod Listing
pub mod Permanent
pub mod Innocent
mod Tests
use telegram_br.Base.{
  ℕ, zero, suc, ◌+◌, ◌-◌, ◌*◌, ◌/◌, ◌%◌, ◌≤◌, ◌<◌, min, max, ◌≡◌, refl, sym, ap, ◌∙◌, ◌≢◌, ◌↔◌, ◌⊎◌,
  inl, inr, Bool, true, false, not, ◌&&◌, ◌||◌, Option, none, some, List, [], ◌∷◌, ◌++◌, map, arith,
  ltb, leb, ◌==◌, if◌then◌else◌, is_some, Bool-cases, Option-cases, Time, seconds, length,
  get_elem?, take, drop, keep, any, count_by, All, length-append, length-drop, elem, distinct, Dict,
  lookup, insert, erase, insert_last, keep_last, lookup-insert, lookup-insert_self, lookup-erase,
  lookup-insert_last, length-insert-le, length-erase-le, ==_iff, ==_refl, leb_iff, ltb_iff,
  length-keep-le, lookup-append,
}

abbrev pub Text : Type 0
Text = List ℕ

pub record Entry : Type 0 where
  pub at : Time
  pub chat : ℕ
  pub norm : Text
  pub cats : List ℕ

pub record Config : Type 0 where
  pub enabled : Bool
  pub watch_duration : ℕ
  pub burst_messages : ℕ
  pub burst_window : Time
  pub threshold : ℕ
  pub similarity_window : Time
  pub category_window : Time
  pub direct_groups : ℕ
  pub direct_window : Time
  pub confirm_window : Time
  pub confirm_messages : ℕ
  pub confirm_groups : ℕ
  pub confirm_activity_window : Time
  pub indicator_required : Bool
  pub memory_per_user : ℕ

-- `keep_…`: what a cache holds after the insertion of its first member; `live_…`: what has not
-- expired at a time.
pub record Library : Type 0 where
  pub ratio : Text → Text → ℕ
  pub keep_ignored : List ℕ → List ℕ
  pub keep_negative : List ℕ → List ℕ
  pub live_negative : Time → List ℕ → List ℕ
  pub keep_activities : Dict (List Entry) → Dict (List Entry)
  pub live_activities : Time → Dict (List Entry) → Dict (List Entry)

pub data Reason : Type 0 where
  direct_spread burst similar categories : Reason
  new_request rephrased_request more_messages moved_groups mixed_requests many_messages
        many_groups :
      Reason

pub record WatchEntry : Type 0 where
  pub reasons : List Reason
  pub until : Time

pub record Stats : Type 0 where
  pub observed : ℕ
  pub watch_added : ℕ
  pub spam_confirmed : ℕ
  pub direct_spam : ℕ
  pub ignored_skipped : ℕ
  pub ignored_db_misses : ℕ
  pub no_identity_skipped : ℕ
  pub errors : ℕ

-- The engine; `db` is the table `spam_ignore`, `none` without a database.
pub record Engine : Type 0 where
  pub db : Option (List ℕ)
  pub activities : Dict (List Entry)
  pub watch : Dict WatchEntry
  pub ignored : List ℕ
  pub negative : List ℕ
  pub sweeps : ℕ
  pub stats : Stats

pub data Verdict : Type 0 where
  allow watched spam : Verdict

-- Every mark of this sender in a cache is taken out.
abbrev pub without : ℕ → List ℕ → List ℕ
without i = keep (λ j. not (i == j))

-- `_Activity.trim`, for the limit and the oldest age of half an hour
abbrev drop_old : Time → List Entry → List Entry
drop_old now [] = []
drop_old now (r ∷ rs) = if ltb (seconds 1800) (now - r.at) then drop_old now rs else r ∷ rs

unfoldable pub trim : ℕ → Time → List Entry → List Entry
trim max_len now rs = drop_old now (drop (length rs - max_len) rs)

abbrev live_watch : Time → Dict WatchEntry → Dict WatchEntry
live_watch now [] = []
live_watch now ((i, e) ∷ w) =
    if ltb e.until now then live_watch now w else (i, e) ∷ live_watch now w

-- `_lazy_sweep`
unfoldable pub lazy_sweep : Time → Engine → Engine
lazy_sweep now g =
    if (g.sweeps + 1) % 200 == 0
    then record g { sweeps = g.sweeps + 1; watch = live_watch now g.watch }
    else record g { sweeps = g.sweeps + 1 }

-- The row of the table after `add_spam_ignore`, if the statement goes through.
abbrev pub add_row : Bool → ℕ → Option (List ℕ) → Option (List ℕ)
add_row ok i none = none
add_row true i (some rows) = some (i ∷ without i rows)
add_row false i (some rows) = some rows

abbrev pub remove_row : Bool → ℕ → Option (List ℕ) → Option (List ℕ)
remove_row ok i none = none
remove_row true i (some rows) = some (without i rows)
remove_row false i (some rows) = some rows

abbrev pub has_row : ℕ → Option (List ℕ) → Bool
has_row i none = false
has_row i (some rows) = elem i rows

abbrev pub failures : Bool → Option (List ℕ) → ℕ
failures ok none = 0
failures true (some rows) = 0
failures false (some rows) = 1

module _ (lib : Library) where
  -- `confirm_spam`, where `ok` tells whether the database takes the statement
  unfoldable pub confirm_spam : Bool → ℕ → Engine → Engine
  confirm_spam ok i g =
      if i == 0
      then record g {
        stats = record g.stats { no_identity_skipped = g.stats.no_identity_skipped + 1 };
      }
      else record g {
        ignored = lib.keep_ignored (i ∷ without i g.ignored);
        negative = without i g.negative;
        watch = erase i g.watch;
        activities = erase i g.activities;
        db = add_row ok i g.db;
        stats = record g.stats { errors = g.stats.errors + failures ok g.db };
      }

  -- `unignore`, with its result
  unfoldable pub unignore : Bool → ℕ → Engine → Engine × Bool
  unignore ok i g = (
    record g {
      ignored = without i g.ignored;
      negative = without i g.negative;
      db = remove_row ok i g.db;
      stats = record g.stats { errors = g.stats.errors + failures ok g.db };
    },
    failures ok g.db == 0,
  )

  abbrev pub is_ignored : ℕ → Engine → Bool
  is_ignored i g = not (i == 0) && elem i g.ignored

  -- The lookup in the table on a miss of both caches.
  unfoldable pub check_row : ℕ → Option (List ℕ) → Bool → Engine → Engine × Bool
  check_row i none row g = (g, false)
  check_row i (some rows) true g = (record g { ignored = lib.keep_ignored (i ∷ g.ignored) }, true)
  check_row i (some rows) false g = (
    record g {
      negative = lib.keep_negative (i ∷ g.negative);
      stats = record g.stats { ignored_db_misses = g.stats.ignored_db_misses + 1 };
    },
    false,
  )

  -- `is_ignored_async`
  unfoldable pub is_ignored_async : Bool → ℕ → Time → Engine → Engine × Bool
  is_ignored_async ok i now g =
      if i == 0
      then (g, false)
      else (if elem i g.ignored
          then (g, true)
          else (if elem i (lib.live_negative now g.negative)
              then (g, false)
              else check_row i g.db (ok && has_row i g.db) g))
