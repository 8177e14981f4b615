-- ===== src/RateLimit.antt =====
-- The rate limiter in front of the sending: AdaptiveRateLimiter (main.py).
mod Windows
mod Tokens
mod Tests
use telegram_br.Base.{
  ℕ, zero, suc, ◌+◌, ◌-◌, ◌*◌, ◌/◌, ◌%◌, ◌≤◌, ◌<◌, min, max, ◌≡◌, refl, sym, ap, ◌∙◌, ◌≢◌, ◌↔◌, ◌⊎◌,
  inl, inr, Bool, true, false, not, ◌&&◌, ◌||◌, Option, none, some, List, [], ◌∷◌, ◌++◌, map, arith,
  ltb, leb, ◌==◌, if◌then◌else◌, is_some, Bool-cases, Option-cases, if-by, Time, seconds, length,
  get_elem?, take, drop, keep, any, count_by, All, length-append, length-drop, elem, distinct, Dict,
  lookup, insert, erase, insert_last, keep_last, lookup-insert, lookup-insert_self, lookup-erase,
  lookup-insert_last, length-insert-le, length-erase-le, ==_iff, ==_refl, leb_iff, ltb_iff,
  length-keep-le, append-snoc, append-nil, lookup-append, push_last, push_last-room, count_recent,
  count_window, IsHistory, IsHistory-later, Covers, sees, IsHistory-push_last, Covers-later,
  Covers-push_last, count_window-append-le, count_by-append, count_by-le-length, keep_last,
  length-keep_last-le,
}

pub record Limits : Type 0 where
  pub max_per_minute : ℕ
  pub max_per_hour : ℕ
  pub burst_size : ℕ

-- The tokens are counted in parts of 1/60000000 (a microsecond's share at one call a minute), so that the refill,
-- a float in the source, is exact. Account names are numbers.
pub record Limiter : Type 0 where
  pub tokens : ℕ
  pub last_refill : Time
  pub min_win : List Time
  pub hr_win : List Time
  pub acct : Dict (List Time)

-- A whole token.
abbrev pub token : ℕ
token = 60000000

pub init : Limits → Time → Limiter
init lim now = record {
  tokens = lim.burst_size * token;
  last_refill = now;
  min_win = [];
  hr_win = [];
  acct = [];
}

-- `while win and win[0] < now - span: win.popleft()`
unfoldable pub pop_old : Time → Time → List Time → List Time
pop_old span now [] = []
pop_old span now (t ∷ ts) =
    let rest = pop_old span now ts in if ltb (t + span) now then rest else t ∷ ts

abbrev pub minute : Time
minute = seconds 60

abbrev pub hour : Time
hour = seconds 3600

unfoldable pub prune : Time → Limiter → Limiter
prune now l = record l {
  min_win = pop_old minute now l.min_win;
  hr_win = pop_old hour now l.hr_win;
}

unfoldable pub refill : Limits → Time → Limiter → Limiter
refill lim now l = record l {
  tokens = min (lim.burst_size * token) (l.tokens + (now - l.last_refill) * lim.max_per_minute);
  last_refill = now;
}

-- The stamps of an account, empty for a new one.
abbrev pub stamps_of : Option (List Time) → List Time
stamps_of none = []
stamps_of (some ts) = ts

-- The part under the lock of the accounts: the account is added, and the call granted or not.
unfoldable pub grant : Limits → ℕ → Time → Limiter → Limiter × Bool
grant lim account now l =
    let win = pop_old minute now (stamps_of (lookup account l.acct)) in
    let accounts = insert account win l.acct in
    if leb (max 1 (lim.max_per_minute / max (length accounts) 1)) (length win)
    then (record l { acct = accounts }, false)
    else (
      record l {
        tokens = l.tokens - token;
        min_win = l.min_win ++ now ∷ [];
        hr_win = l.hr_win ++ now ∷ [];
        acct = insert account (win ++ now ∷ []) l.acct;
      },
      true,
    )

unfoldable pub can_proceed : Limits → ℕ → Time → Limiter → Limiter × Bool
can_proceed lim account now l =
    let g = prune now (refill lim now l) in
    if leb lim.max_per_minute (length g.min_win)
    then (g, false)
    else if leb lim.max_per_hour (length g.hr_win)
    then (g, false)
    else if ltb g.tokens token
    then (g, false)
    else grant lim account now g

-- `status` prunes the windows too.
unfoldable pub status : Time → Limiter → Limiter × (ℕ × ℕ)
status now l = let g = prune now l in (g, (length g.min_win, length g.hr_win))
