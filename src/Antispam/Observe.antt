-- ===== src/Antispam/Observe.antt =====
-- `observe` of `AntiSpamEngine` (antispam.py), the entry for each new message.
use telegram_br.Base.{
  ℕ, ◌+◌, max, Bool, false, not, Option, none, some, List, [], ◌∷◌, ◌++◌, leb, ◌==◌, if◌then◌else◌,
  Time, seconds, length, elem, Dict, lookup, insert,
}
use telegram_br.Antispam.{
  Text, Entry, Config, Library, Reason, WatchEntry, Engine, Verdict, allow, watched, spam, trim,
  lazy_sweep, confirm_spam, failures,
}
use telegram_br.Antispam.Reasons.{chats, spread, watch_reasons, confirmation_reasons}

pub record Message : Type 0 where
  pub sender : ℕ
  pub chat : ℕ
  pub norm : Text
  pub cats : List ℕ

abbrev pub entry_of : Time → Message → Entry
entry_of now m = record { at = now; chat = m.chat; norm = m.norm; cats = m.cats }

abbrev pub count_direct : Engine → Engine
count_direct g = record g { stats = record g.stats { direct_spam = g.stats.direct_spam + 1 } }

abbrev pub count_confirmed : Engine → Engine
count_confirmed g = record g {
  stats = record g.stats { spam_confirmed = g.stats.spam_confirmed + 1 };
}

abbrev pub count_nobody : Engine → Engine
count_nobody g = record g {
  stats = record g.stats { no_identity_skipped = g.stats.no_identity_skipped + 1 };
}

abbrev pub count_skipped : Engine → Engine
count_skipped g = record g {
  stats = record g.stats { ignored_skipped = g.stats.ignored_skipped + 1 };
}

module _ (cfg : Config) (lib : Library) where
  -- The sender's record with this message, and the cache with it.
  abbrev pub next_activity : Time → Message → Option (List Entry) → List Entry
  next_activity now m none = trim cfg.memory_per_user now (entry_of now m ∷ [])
  next_activity now m (some rs) = trim cfg.memory_per_user now (rs ++ entry_of now m ∷ [])

  unfoldable pub store_activity :
      ℕ → Option (List Entry) → List Entry → Dict (List Entry) → Dict (List Entry)
  store_activity i none act d = lib.keep_activities ((i, act) ∷ d)
  store_activity i (some old) act d = insert i act d

  -- Conditions of the watch list: nothing, or the sender is watched from now on.
  unfoldable pub add_to_watch : Bool → Time → ℕ → List Reason → Engine → Engine × Verdict
  add_to_watch ok now i [] g = (g, allow)
  add_to_watch ok now i (why ∷ more) g = (
    record g {
      watch =
          insert i
            (record { reasons = why ∷ more; until = now + seconds (max 60 cfg.watch_duration) })
            g.watch;
      stats = record g.stats {
        watch_added = g.stats.watch_added + 1;
        errors = g.stats.errors + failures ok g.db;
      };
    },
    watched,
  )

  unfoldable pub confirm_if : Bool → ℕ → List Reason → Engine → Engine × Verdict
  confirm_if ok i [] g = (g, allow)
  confirm_if ok i (why ∷ more) g = (confirm_spam lib ok i (count_confirmed g), spam)

  abbrev pub is_watched : Time → Option WatchEntry → Bool
  is_watched now none = false
  is_watched now (some e) = leb now e.until

  unfoldable pub decide : Bool → Time → Message → List Entry → Engine → Engine × Verdict
  decide ok now m act g =
      if leb (max 2 cfg.direct_groups) (length (chats (spread cfg lib now m.norm act)))
      then (confirm_spam lib ok m.sender (count_direct g), spam)
      else (if is_watched now (lookup m.sender g.watch)
          then confirm_if ok m.sender (confirmation_reasons cfg lib now m.norm m.cats m.chat act) g
          else add_to_watch ok now m.sender (watch_reasons cfg lib now m.norm act) g)

  -- The engine that has put the message on record.
  unfoldable pub remember : Time → Message → Option (List Entry) → Engine → Engine
  remember now m old g = lazy_sweep now (record g {
    activities =
        store_activity m.sender old (next_activity now m old)
          (lib.live_activities now g.activities);
    stats = record g.stats { observed = g.stats.observed + 1 };
  })

  unfoldable pub observe : Bool → Time → Message → Engine → Engine × Verdict
  observe ok now m g =
      if not cfg.enabled
      then (g, allow)
      else (if m.sender == 0
          then (count_nobody g, allow)
          else (if elem m.sender g.ignored
              then (count_skipped g, spam)
              else (let old = lookup m.sender (lib.live_activities now g.activities) in
                  decide ok now m (next_activity now m old) (remember now m old g))))
