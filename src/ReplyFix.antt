-- ===== src/ReplyFix.antt =====
-- The caps of the compensating reply (reply_fix.py): how often a sender is answered in an hour and
-- how many answers a day has, and how the caps survive a restart.
pub mod Run
mod Branches
mod Hourly
mod Daily
mod Ladder
mod Restart
mod Tests
use telegram_br.Base.{
  ℕ, zero, suc, ◌+◌, ◌-◌, ◌*◌, ◌/◌, ◌%◌, ◌≤◌, ◌<◌, min, max, ◌≡◌, refl, sym, ap, ◌∙◌, ◌≢◌, ◌↔◌, ◌⊎◌,
  inl, inr, Bool, true, false, not, ◌&&◌, ◌||◌, Option, none, some, List, [], ◌∷◌, ◌++◌, map, arith,
  ltb, leb, ◌==◌, if◌then◌else◌, is_some, Bool-cases, Option-cases, Time, seconds, length,
  get_elem?, take, drop, keep, any, count_by, All, length-append, length-drop, elem, distinct, Dict,
  lookup, insert, erase, insert_last, keep_last, lookup-insert, lookup-insert_self, lookup-erase,
  lookup-insert_last, length-insert-le, length-erase-le, ==_iff, ==_refl, leb_iff, ltb_iff,
  length-keep-le, lookup-append, push_last, count_recent, count_window, IsHistory, Covers, sees,
  IsHistory-push_last, Covers-later, Covers-push_last, count_window-append-le, count_by-append,
  count_by-le-length, keep_last, length-keep_last-le,
}

-- One reading of the clocks. The zero of the monotonic clock, which Python leaves open, is taken
-- at least an hour in the past, so that no stamp of the last hour is negative.
pub record Clock : Type 0 where
  pub monotonic : Time
  pub epoch : Time
  pub yday : ℕ

pub record Limits : Type 0 where
  pub enabled : Bool
  pub hourly_per_user : ℕ
  pub daily_cap : ℕ
  pub max_tracked_users : ℕ

-- The counters that `metric_inc` raises.
pub record Metrics : Type 0 where
  pub success : ℕ
  pub failure : ℕ
  pub skipped : ℕ

pub record Fixer : Type 0 where
  pub hour_history : Dict (List Time)
  pub day_key : ℕ
  pub day_count : ℕ
  pub broadcast_disabled : Bool
  -- `mark_dirty` was called
  pub dirty : Bool
  pub metrics : Metrics

-- The numbers as the constructor takes them, from its arguments or the configuration; a negative one is 0 here,
-- which each `max` gives too.
unfoldable pub limits : Bool → ℕ → ℕ → ℕ → Limits
limits on hourly daily tracked = record {
  enabled = on;
  hourly_per_user = max 1 hourly;
  daily_cap = daily;
  max_tracked_users = max 16 tracked;
}

unfoldable pub init : Clock → Fixer
init c = record {
  hour_history = [];
  day_key = c.yday;
  day_count = 0;
  broadcast_disabled = false;
  dirty = false;
  metrics = record { success = 0; failure = 0; skipped = 0 };
}

abbrev pub hour : Time
hour = seconds 3600

abbrev pub history_size : Limits → ℕ
history_size lim = max 8 (lim.hourly_per_user * 4)

unfoldable pub rollover_day : Clock → Fixer → Fixer
rollover_day c f = if c.yday == f.day_key then f else record f { day_key = c.yday; day_count = 0 }

pub data Refusal : Type 0 where
  disabled : Refusal
  broadcast_target : Refusal
  daily_cap_reached : Refusal
  hourly_cap_reached : Refusal

-- The history of a user, empty when there is none.
abbrev pub history_of : Option (List Time) → List Time
history_of none = []
history_of (some ts) = ts

-- `recent >= self.hourly_per_user`
unfoldable pub is_busy : Limits → Clock → Option (List Time) → Bool
is_busy lim c none = false
is_busy lim c (some history) = leb lim.hourly_per_user (count_recent hour c.monotonic history)

-- `allowed`: `none` when the reply is allowed.
unfoldable pub allowed : Limits → Clock → ℕ → Fixer → Fixer × Option Refusal
allowed lim c uid f =
    let g = rollover_day c f in
    if not lim.enabled
    then (f, some disabled)
    else if f.broadcast_disabled
    then (f, some broadcast_target)
    else if leb lim.daily_cap g.day_count
    then (g, some daily_cap_reached)
    else if is_busy lim c (lookup uid g.hour_history)
    then (g, some hourly_cap_reached)
    else (g, none)

-- A user that is not tracked yet, when there are too many, takes the place of the oldest one.
unfoldable pub make_room : Limits → Dict (List Time) → Dict (List Time)
make_room lim d = if leb lim.max_tracked_users (length d) then drop 1 d else d

unfoldable pub record_stamp :
    Limits → Time → ℕ → Dict (List Time) → Option (List Time) → Dict (List Time)
record_stamp lim now uid d none = insert uid (push_last (history_size lim) now []) (make_room lim d)
record_stamp lim now uid d (some history) = insert uid (push_last (history_size lim) now history) d

unfoldable pub record_attempt : Limits → Clock → ℕ → Fixer → Fixer
record_attempt lim c uid f =
    let d = record_stamp lim c.monotonic uid f.hour_history (lookup uid f.hour_history) in
    let g = rollover_day c (record f { hour_history = d }) in
    record g { day_count = g.day_count + 1; dirty = true }

unfoldable pub count_skipped : Fixer → Fixer
count_skipped f = record f { metrics = record f.metrics { skipped = f.metrics.skipped + 1 } }

unfoldable pub count_failure : Fixer → Fixer
count_failure f = record f { metrics = record f.metrics { failure = f.metrics.failure + 1 } }

unfoldable pub count_success : Fixer → Fixer
count_success f = record f { metrics = record f.metrics { success = f.metrics.success + 1 } }

unfoldable pub disable_for_broadcast : Fixer → Fixer
disable_for_broadcast f = count_skipped (record f { broadcast_disabled = true })
