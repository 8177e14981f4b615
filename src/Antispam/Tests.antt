-- ===== src/Antispam/Tests.antt =====
-- The engine on a few messages, and the witnesses of its theorems. The caches here lose nothing, and
-- two texts are alike when they are the same.
use telegram_br.Base.{
  ℕ, ◌≡◌, refl, true, false, none, some, List, [], ◌∷◌, seconds, elem, lookup, ==_refl,
}
use telegram_br.Antispam.{
  Config, Library, Engine, allow, watched, trim, lazy_sweep, confirm_spam, unignore,
  is_ignored_async, check_row,
}
use telegram_br.Antispam.Observe.{
  Message, store_activity, add_to_watch, confirm_if, decide, remember, observe,
}
use telegram_br.Antispam.Reasons.{watch_reasons, confirmation_reasons, spread, max_similarity}
use telegram_br.Antispam.Listing.{is_spam, restarted}
use telegram_br.Antispam.Permanent.{Arrival, AreSpam, observe-spam_again, observe-restarted}
use telegram_br.Antispam.Innocent.{observe-one_group}

abbrev config : Config
config = record {
  enabled = true;
  watch_duration = 600;
  burst_messages = 2;
  burst_window = seconds 60;
  threshold = 800000;
  similarity_window = seconds 300;
  category_window = seconds 300;
  direct_groups = 2;
  direct_window = seconds 300;
  confirm_window = seconds 300;
  confirm_messages = 5;
  confirm_groups = 3;
  confirm_activity_window = seconds 600;
  indicator_required = false;
  memory_per_user = 50;
}

abbrev library : Library
library = record {
  ratio = λ a b. 0;
  keep_ignored = λ xs. xs;
  keep_negative = λ xs. xs;
  live_negative = λ t xs. xs;
  keep_activities = λ d. d;
  live_activities = λ t d. d;
}

abbrev engine : Engine
engine =
    record (restarted (record {
      db = some (9 ∷ []);
      activities = [];
      watch = [];
      ignored = [];
      negative = [];
      sweeps = 0;
      stats = record {
        observed = 0;
        watch_added = 0;
        spam_confirmed = 0;
        direct_spam = 0;
        ignored_skipped = 0;
        ignored_db_misses = 0;
        no_identity_skipped = 0;
        errors = 0;
      };
    })) { sweeps = 0 }

abbrev message : ℕ → Message
message c = record { sender = 5; chat = c; norm = 65 ∷ 66 ∷ []; cats = [] }

program : Unit {0}
unfolding trim lazy_sweep confirm_spam unignore check_row is_ignored_async store_activity
    add_to_watch confirm_if decide remember observe spread max_similarity watch_reasons
    confirmation_reasons
program = tt

-- The engine after one message in group 1.
abbrev once : Engine
once = (observe config library true (seconds 100) (message 1) engine).0

observe-first : (observe config library true (seconds 100) (message 1) engine).1 ≡ allow
unfolding program
observe-first = refl

-- The same message in a second group is spam.
observe-second : is_spam (observe config library true (seconds 110) (message 2) once).1 ≡ true
unfolding program
observe-second = refl

-- The same message in the same group starts a watch.
observe-same : (observe config library true (seconds 110) (message 1) once).1 ≡ watched
unfolding program
observe-same = refl

abbrev later_messages : List Arrival
later_messages =
    (true, (seconds 900, message 1))
    ∷ (false, (seconds 901, message 3))
    ∷ (true, (seconds 90000, message 2))
    ∷ []

observe-spam_again_example :
    AreSpam config library later_messages
      (observe config library true (seconds 110) (message 2) once).0
observe-spam_again_example =
    observe-spam_again config library true (seconds 110) (message 2) later_messages once
      (λ j xs. rw (==_refl j) refl) (refl, (refl, (refl, tt))) observe-second

once-db : once.db ≡ some (9 ∷ [])
unfolding program
once-db = refl

once-ignored : elem 5 once.ignored ≡ false
unfolding program
once-ignored = refl

observe-restarted_example :
    (is_ignored_async library true 5
      (seconds 900)
      (restarted (observe config library true (seconds 110) (message 2) once).0)).1
    ≡ true
observe-restarted_example =
    observe-restarted config library (seconds 110) (seconds 900) (message 2) once (9 ∷ []) refl
      once-db once-ignored observe-second

once-watch : lookup 5 once.watch ≡ none
unfolding program
once-watch = refl

observe-one_group_example :
    is_spam (observe config library true (seconds 110) (message 1) once).1 ≡ false
unfolding program
observe-one_group_example =
    observe-one_group config library true (seconds 110) (message 1) once once-ignored once-watch
      (refl, tt)
