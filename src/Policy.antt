-- ===== src/Policy.antt =====
-- `FilterPolicy` (unified_alerts/filter_policy.py) and `UnifiedAlertGate` (unified_alerts/gate.py):
-- the limits on the length of a message and on the age of an event, with the counters of
-- unified_alerts/stats.py that each decision raises.
pub mod Length
pub mod Age
mod Tests
use telegram_br.Base.{
  ℕ, zero, suc, ◌+◌, ◌-◌, ◌*◌, ◌/◌, ◌%◌, ◌≤◌, ◌<◌, min, max, ◌≡◌, refl, sym, ap, ◌∙◌, ◌≢◌, ◌↔◌, ◌⊎◌,
  inl, inr, Bool, true, false, not, ◌&&◌, ◌||◌, Option, none, some, List, [], ◌∷◌, ◌++◌, map, arith,
  ltb, leb, ◌==◌, if◌then◌else◌, is_some, Bool-cases, Option-cases, Time, seconds, length,
  get_elem?, take, drop, keep, any, count_by, All, length-append, length-drop, elem, distinct, Dict,
  lookup, insert, erase, insert_last, keep_last, lookup-insert, lookup-insert_self, lookup-erase,
  lookup-insert_last, length-insert-le, length-erase-le, ==_iff, ==_refl, leb_iff, ltb_iff,
  length-keep-le, lookup-append,
}
use telegram_br.Texts.{Text, is_empty, strip}

-- The counters that the two gates raise.
pub data Counter : Type 0 where
  stale_dropped_pipeline stale_dropped_send age_missing_ts : Counter
  filter_ok filter_too_short filter_too_long filter_invalid : Counter

pub record Stats : Type 0 where
  pub stale_dropped_pipeline_count : ℕ
  pub stale_dropped_send_count : ℕ
  pub age_missing_ts_count : ℕ
  pub filter_ok_count : ℕ
  pub filter_too_short_count : ℕ
  pub filter_too_long_count : ℕ
  pub filter_invalid_count : ℕ

-- `inc`
unfoldable pub inc : Counter → Stats → Stats
inc stale_dropped_pipeline s = record s {
  stale_dropped_pipeline_count = s.stale_dropped_pipeline_count + 1;
}
inc stale_dropped_send s = record s { stale_dropped_send_count = s.stale_dropped_send_count + 1 }
inc age_missing_ts s = record s { age_missing_ts_count = s.age_missing_ts_count + 1 }
inc filter_ok s = record s { filter_ok_count = s.filter_ok_count + 1 }
inc filter_too_short s = record s { filter_too_short_count = s.filter_too_short_count + 1 }
inc filter_too_long s = record s { filter_too_long_count = s.filter_too_long_count + 1 }
inc filter_invalid s = record s { filter_invalid_count = s.filter_invalid_count + 1 }

-- A setting: one that `int` refuses, one below zero, or a number.
pub data Setting : Type 0 where
  unreadable below_zero : Setting
  number : ℕ → Setting

-- The zero-width and direction characters, which count for nothing.
abbrev pub is_visible : ℕ → Bool
is_visible c = not (elem c (8203 ∷ 8204 ∷ 8205 ∷ 8206 ∷ 8207 ∷ 8288 ∷ 65279 ∷ 1564 ∷ []))

unfoldable pub normalize_for_measure : Text → Text
normalize_for_measure t = strip (keep is_visible t)

-- `int(getattr(CFG, name, default) or default)`: zero is taken for a missing value.
abbrev or_default : ℕ → ℕ → ℕ
or_default default zero = default
or_default default (suc n) = suc n

-- `limits`, for the lower and the upper setting
unfoldable pub limits : Setting → Setting → ℕ × ℕ
limits unreadable hi = (6, 65)
limits below_zero unreadable = (6, 65)
limits (number n) unreadable = (6, 65)
limits below_zero below_zero = (0, 0)
limits below_zero (number m) = (0, or_default 65 m)
limits (number n) below_zero = (or_default 6 n, or_default 6 n)
limits (number n) (number m) = (or_default 6 n, max (or_default 6 n) (or_default 65 m))

pub data LengthReason : Type 0 where
  invalid_input empty_text too_short too_long in_range : LengthReason

pub record FilterVerdict : Type 0 where
  pub ok : Bool
  pub reason : LengthReason
  pub stripped_text : Text
  pub length : ℕ

abbrev pub verdict_of : ℕ × ℕ → Text → FilterVerdict × Counter
verdict_of (mn, mx) s =
    if length s == 0
    then (
      record { ok = false; reason = empty_text; stripped_text = []; length = 0 },
      filter_invalid,
    )
    else (if ltb (length s) mn
        then (
          record { ok = false; reason = too_short; stripped_text = s; length = length s },
          filter_too_short,
        )
        else (if ltb mx (length s)
            then (
              record { ok = false; reason = too_long; stripped_text = s; length = length s },
              filter_too_long,
            )
            else (
              record { ok = true; reason = in_range; stripped_text = s; length = length s },
              filter_ok,
            )))

-- `check`, with the counter that it raises. The text is `none` for `None`, and `str(text)` else.
unfoldable pub check : ℕ × ℕ → Option Text → FilterVerdict × Counter
check lim none =
    (record { ok = false; reason = invalid_input; stripped_text = []; length = 0 }, filter_invalid)
check lim (some t) = verdict_of lim (normalize_for_measure t)

-- `_age_limit_seconds`
unfoldable pub age_limit_seconds : Setting → ℕ
age_limit_seconds unreadable = 1800
age_limit_seconds below_zero = 0
age_limit_seconds (number n) = min n (86400 * 7)

-- `_event_age_seconds`, of the stamp of an event if that is a number
unfoldable pub event_age : Time → Option Time → Option Time
event_age now none = none
event_age now (some ts) =
    if ts == 0 then none else some (if ltb (now * 10) ts then now - ts / 1000 else now - ts)

pub data Stage : Type 0 where
  pipeline send : Stage

pub data AgeReason : Type 0 where
  age_gate_disabled no_timestamp stale_event fresh : AgeReason

pub record GateDecision : Type 0 where
  pub allowed : Bool
  pub reason : AgeReason

abbrev pub stale_counter : Stage → Counter
stale_counter pipeline = stale_dropped_pipeline
stale_counter send = stale_dropped_send

decide_age : ℕ → Stage → Option Time → GateDecision × Option Counter
decide_age limit stage none =
    (record { allowed = true; reason = no_timestamp }, some age_missing_ts)
decide_age limit stage (some age) =
    if ltb (seconds (limit + 1)) age
    then (record { allowed = false; reason = stale_event }, some (stale_counter stage))
    else (record { allowed = true; reason = fresh }, none)

-- `evaluate_event`, with the counter that it raises
unfoldable pub evaluate_event : Setting → Time → Option Time → Stage → GateDecision × Option Counter
unfolding decide_age
evaluate_event setting now stamp stage =
    if age_limit_seconds setting == 0
    then (record { allowed = true; reason = age_gate_disabled }, none)
    else decide_age (age_limit_seconds setting) stage (event_age now stamp)
