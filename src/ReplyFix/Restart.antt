-- ===== src/ReplyFix/Restart.antt =====
-- `snapshot_state` and `restore_state`, and the caps across a restart.
use telegram_br.Base.{
  ℕ, zero, suc, ◌+◌, ◌-◌, ◌*◌, ◌/◌, ◌%◌, ◌≤◌, ◌<◌, ◌≡◌, refl, ap, ◌∙◌, ◌⊎◌, inl, inr, Bool, true,
  false, not, ◌&&◌, Option, none, some, List, [], ◌∷◌, ◌++◌, arith, ltb, leb, ◌==◌, if◌then◌else◌,
  is_some, Bool-cases, Time, length, take, count_by, length-append, Dict, lookup, insert,
  lookup-insert, lookup-insert_self, length-insert-le, push_last, push_last-room, count_recent,
  sees, count_by-append,
}
use telegram_br.ReplyFix.Run.{Call, begin_run}
use telegram_br.ReplyFix.Branches.{begin_run-by}
use telegram_br.ReplyFix.Hourly.{goes_on}
use telegram_br.ReplyFix.Daily.{today}
use telegram_br.ReplyFix.{is_busy, Clock, Limits, Fixer, hour, history_size, history_of, init}

-- `round(x, 3)` of a number of seconds: the nearest millisecond, the even one of two.
unfoldable pub round_milliseconds : Time → Time
round_milliseconds t =
    let q = t / 1000 in
    let r = t % 1000 in
    if ltb r 500 then q * 1000 else if ltb 500 r then (q + 1) * 1000 else (q + q % 2) * 1000

-- What `json.loads` of the setting gives: `none` stands for a value of a wrong type or a missing key, in
-- `users` for a map that is none, in a user for a name that is no number or a value that is no list.
pub record Saved : Type 0 where
  pub version : Option ℕ
  pub users : Option (List (Option ℕ × Option (List (Option Time))))
  pub day_key : Option ℕ
  pub day_count : Option ℕ

-- Python's `int()` of a missing `day_key` is -1, which no day is; here it is `none` too.

unfoldable pub keep_stamps : Clock → List Time → List (Option Time)
keep_stamps c [] = []
keep_stamps c (t ∷ ts) =
    let rest = keep_stamps c ts in
    if leb c.monotonic (t + hour)
    then some (round_milliseconds (c.epoch + t - c.monotonic)) ∷ rest
    else rest

unfoldable pub keep_users : Clock → Dict (List Time) → List (Option ℕ × Option (List (Option Time)))
keep_users c [] = []
keep_users c ((u, ts) ∷ d) =
    let rest = keep_users c d in
    if ltb 0 (length (keep_stamps c ts)) then (some u, some (keep_stamps c ts)) ∷ rest else rest

unfoldable pub snapshot_state : Clock → Fixer → Saved
snapshot_state c f = record {
  version = some 1;
  users = some (keep_users c f.hour_history);
  day_key = some (if c.yday == f.day_key then f.day_key else c.yday);
  day_count = some (if c.yday == f.day_key then f.day_count else 0);
}

module _ (lim : Limits) (c : Clock) where
  -- `for ts_e in lst`: a stamp of the last hour goes to the end of the history.
  unfoldable pub restore_stamps : List (Option Time) → List Time → List Time
  restore_stamps [] history = history
  restore_stamps (none ∷ ts) history = restore_stamps ts history
  restore_stamps (some t ∷ ts) history = restore_stamps ts (
      if leb c.epoch (t + hour)
      then push_last (history_size lim) (c.monotonic + t - c.epoch) history
      else history)

  -- The loop over the users, which stops at a new one when there is no room.
  unfoldable pub restore_users :
      List (Option ℕ × Option (List (Option Time))) → Dict (List Time) → Dict (List Time)
  restore_users [] d = d
  restore_users ((none, l) ∷ us) d = restore_users us d
  restore_users ((some u, none) ∷ us) d = restore_users us d
  restore_users ((some u, some l) ∷ us) d =
      let history = history_of (lookup u d) in
      let rest = restore_users us (insert u (restore_stamps l history) d) in
      if not (is_some (lookup u d)) && leb lim.max_tracked_users (length d) then d else rest

  unfoldable pub restore_day : Option ℕ → Option ℕ → Fixer → Fixer
  restore_day (some dk) (some dc) f =
      if dk == c.yday && ltb f.day_count dc then record f { day_key = dk; day_count = dc } else f
  restore_day dk dc f = f

  unfoldable pub saved_users : Saved → List (Option ℕ × Option (List (Option Time)))
  saved_users s = elim s.users [ none ↦ [] | some us ↦ take lim.max_tracked_users us ]

  unfoldable pub restore_state : Option Saved → Fixer → Fixer
  restore_state none f = f
  restore_state (some s) f =
      let g = record f { hour_history = restore_users (saved_users s) f.hour_history } in
      elim s.version [
        | none ↦ f
        | some v ↦ if v == 1 then restore_day s.day_key s.day_count g else f
      ]

take-all {ℓ} : {A : Type ℓ} (n : ℕ) (xs : List A) → length xs ≤ n → take n xs ≡ xs
take-all zero [] h = refl
take-all zero (x ∷ xs) h = absurd (omega arith)
take-all (suc n) [] h = refl
take-all (suc n) (x ∷ xs) h = rw (take-all n xs (omega arith)) refl

List-cases {ℓ} :
    {A : Type ℓ} (xs : List A) → (xs ≡ []) ⊎ ((x : A) × ((ys : List A) × (xs ≡ x ∷ ys)))
List-cases [] = inl refl
List-cases (x ∷ xs) = inr (x, (xs, refl))

-- The keys of a dict are distinct.
abbrev pub HasDistinctKeys : Dict (List Time) → Type 0
HasDistinctKeys [] = Unit
HasDistinctKeys ((u, ts) ∷ d) = (lookup u d ≡ none) × HasDistinctKeys d

round_milliseconds-near :
    (t : Time) → (t ≤ round_milliseconds t + 500) × (round_milliseconds t ≤ t + 500)
unfolding round_milliseconds
round_milliseconds-near t = ground arith

module _ (lim : Limits) (c : Clock) (us : List (Option ℕ × Option (List (Option Time)))) (u : ℕ)
    (l : List (Option Time)) (d : Dict (List Time)) where
  restore_users-cons :
      length d < lim.max_tracked_users
      → restore_users lim c ((some u, some l) ∷ us) d
        ≡ restore_users lim c us (insert u (restore_stamps lim c l (history_of (lookup u d))) d)
  unfolding restore_users
  restore_users-cons h = ground arith

module _ (lim : Limits) (c c' : Clock) where
  length-keep_users-le : (d : Dict (List Time)) → length (keep_users c d) ≤ length d
  unfolding keep_users
  length-keep_users-le [] = omega arith
  length-keep_users-le ((u, ts) ∷ d) = ground (arith, length-keep_users-le d)

  -- What a saved user adds to the map.
  restored : ℕ → List Time → Dict (List Time) → Dict (List Time)
  restored u ts d =
      if ltb 0 (length (keep_stamps c ts))
      then insert u (restore_stamps lim c' (keep_stamps c ts) (history_of (lookup u d))) d
      else d

  length-restored-le :
      (u : ℕ) (ts : List Time) (d : Dict (List Time)) → length (restored u ts d) ≤ length d + 1
  unfolding restored
  length-restored-le u ts d = ground (
    arith,
    length-insert-le u (restore_stamps lim c' (keep_stamps c ts) (history_of (lookup u d))) d,
  )

  lookup-restored_other :
      (u v : ℕ) (ts : List Time) (d : Dict (List Time))
      → (v == u) ≡ false
      → lookup u (restored v ts d) ≡ lookup u d
  unfolding restored
  lookup-restored_other u v ts d h = ground (
    arith,
    lookup-insert v u (restore_stamps lim c' (keep_stamps c ts) (history_of (lookup v d))) d,
  )

  lookup-restored_new :
      (u : ℕ) (ts : List Time) (d : Dict (List Time))
      → lookup u d ≡ none
      → history_of (lookup u (restored u ts d)) ≡ restore_stamps lim c' (keep_stamps c ts) []
  unfolding restored restore_stamps
  lookup-restored_new u ts d e = elim (Bool-cases (ltb 0 (length (keep_stamps c ts)))) [
    | inl some_kept ↦
        rw
          (
            some_kept,
            lookup-insert_self u
                (restore_stamps lim c' (keep_stamps c ts) (history_of (lookup u d))) d,
            e,
          )
          refl
    | inr no_kept ↦ elim (List-cases (keep_stamps c ts)) [
      | inl empty ↦ rw (empty, e) refl
      | inr (x, (xs, full)) ↦ absurd (ground (arith, ap length full))
    ]
  ]

  restore_users-keep :
      (v : ℕ) (ts : List Time) (d acc : Dict (List Time))
      → length acc < lim.max_tracked_users
      → restore_users lim c' (keep_users c ((v, ts) ∷ d)) acc
        ≡ restore_users lim c' (keep_users c d) (restored v ts acc)
  unfolding keep_users restored
  restore_users-keep v ts d acc h =
      ground (arith, restore_users-cons lim c' (keep_users c d) v (keep_stamps c ts) acc)

  restore_users-others :
      (u : ℕ) (d acc : Dict (List Time))
      → length acc + length d ≤ lim.max_tracked_users
      → lookup u d ≡ none
      → lookup u (restore_users lim c' (keep_users c d) acc) ≡ lookup u acc
  unfolding restore_users keep_users
  restore_users-others u [] acc h e = refl
  restore_users-others u ((v, ts) ∷ d) acc h e =
      let other : (v == u) ≡ false = ground arith in
      let rest : lookup u d ≡ none = ground arith in
      ap (lookup u) (restore_users-keep v ts d acc (omega arith))
      ∙ restore_users-others u d (restored v ts acc) (omega (arith, length-restored-le v ts acc))
          rest
      ∙ lookup-restored_other u v ts acc other

  restore_users-own :
      (u : ℕ) (ts : List Time) (d acc : Dict (List Time))
      → length acc + length d ≤ lim.max_tracked_users
      → HasDistinctKeys d
      → lookup u d ≡ some ts
      → lookup u acc ≡ none
      → history_of (lookup u (restore_users lim c' (keep_users c d) acc))
        ≡ restore_stamps lim c' (keep_stamps c ts) []
  restore_users-own u ts [] acc h k e fresh = absurd (ground arith)
  restore_users-own u ts ((v, ts') ∷ d) acc h (k, ks) e fresh =
      ap (λ x. history_of (lookup u x)) (restore_users-keep v ts' d acc (omega arith))
      ∙ elim (Bool-cases (v == u)) [
        | inl own ↦
            (let same : v ≡ u = ground arith in
              let gone : lookup u d ≡ none = rw (← same) k in
              let stamps : ts' ≡ ts = ground arith in
              ap history_of (
                restore_users-others u d (restored v ts' acc)
                  (omega (arith, length-restored-le v ts' acc)) gone)
              ∙ rw (same, stamps) (lookup-restored_new u ts acc fresh))
        | inr other ↦
            restore_users-own u ts d (restored v ts' acc)
              (omega (arith, length-restored-le v ts' acc)) ks (ground arith)
              (lookup-restored_other u v ts' acc other ∙ fresh)
      ]

  restore_stamps-count :
      (now slack : Time) (ts history : List Time)
      → hour ≤ c.epoch
      → hour ≤ c'.monotonic
      → length history + length ts ≤ history_size lim
      → c'.monotonic ≤ now
      → now + c'.epoch + 500 ≤ slack + c.epoch + c'.monotonic
      → count_recent hour now history + count_by (λ t. ltb (c.monotonic + slack) (t + hour)) ts
        ≤ count_recent hour now (restore_stamps lim c' (keep_stamps c ts) history)
  unfolding restore_stamps keep_stamps
  restore_stamps-count now slack [] history h h' fits late k = omega arith
  restore_stamps-count now slack (t ∷ ts) history h h' fits late k =
      let r = round_milliseconds (c.epoch + t - c.monotonic) in
      let x = c'.monotonic + r - c'.epoch in
      ground (
        arith,
        round_milliseconds-near (c.epoch + t - c.monotonic),
        push_last-room (history_size lim) x history,
        count_by-append (sees hour now) history x,
        length-append history (x ∷ []),
        restore_stamps-count now slack ts history h h',
        restore_stamps-count now slack ts (history ++ x ∷ []) h h',
      )

module _ (lim : Limits) (c c' : Clock) (f : Fixer) where
  -- The fixer of the new process, after `hydrate_all`.
  abbrev pub restarted : Fixer
  restarted = restore_state lim c' (some (snapshot_state c f)) (init c')

  -- The microseconds from the snapshot to the monotonic time `now` of the new process.
  abbrev pub elapsed : Time → Time
  elapsed now = (c'.epoch - c.epoch) + (now - c'.monotonic)

  restarted-hour_history :
      length f.hour_history ≤ lim.max_tracked_users
      → restarted.hour_history ≡ restore_users lim c' (keep_users c f.hour_history) []
  unfolding restore_state snapshot_state restore_day saved_users init
  restarted-hour_history h = ground (
    arith,
    take-all lim.max_tracked_users (keep_users c f.hour_history),
    length-keep_users-le lim c c' f.hour_history,
  )

  module _ (uid : ℕ) (ts : List Time) (now : Time) where
    restarted-count :
        HasDistinctKeys f.hour_history
        → length f.hour_history ≤ lim.max_tracked_users
        → lookup uid f.hour_history ≡ some ts
        → length ts ≤ history_size lim
        → (hour ≤ c.epoch) × (c.epoch ≤ c'.epoch) × (hour ≤ c'.monotonic) × (c'.monotonic ≤ now)
        → count_by (λ t. ltb (c.monotonic + (elapsed now + 500)) (t + hour)) ts
          ≤ count_recent hour now (history_of (lookup uid restarted.hour_history))
    restarted-count keys fits e short (h, le, h', late) =
        let own = restore_users-own lim c c' uid ts f.hour_history [] (omega arith) keys e refl in
        rw (restarted-hour_history fits, own)
          (omega (
            arith,
            restore_stamps-count lim c c' now (elapsed now + 500) ts [] h h' (omega arith) late
                (omega arith),
          ))

  -- On the same day of the year the attempts that count for it survive the restart.
  pub restarted-today : c'.yday ≡ c.yday → today c'.yday restarted ≡ today c.yday f
  unfolding restore_state snapshot_state restore_day init
  restarted-today e = ground arith

is_busy-full :
    (lim : Limits) (c : Clock) (o : Option (List Time))
    → 0 < lim.hourly_per_user
    → lim.hourly_per_user ≤ count_recent hour c.monotonic (history_of o)
    → is_busy lim c o ≡ true
unfolding is_busy
is_busy-full lim c none pos h = absurd (omega arith)
is_busy-full lim c (some ts) pos h = ground arith

-- A user who would be refused for the hourly cap without a restart, with a margin of half a
-- millisecond for the rounding, is refused after it too: the keys are distinct and no more than the
-- map may track, the history has its bounded length, and the clocks show more than an hour and do
-- not go back.
pub begin_run-restarted :
    (lim : Limits) (telethon : Bool) (c c' now : Clock) (f : Fixer) (call : Call) (ts : List Time)
    → HasDistinctKeys f.hour_history
    → length f.hour_history ≤ lim.max_tracked_users
    → lookup call.user f.hour_history ≡ some ts
    → length ts ≤ history_size lim
    → (hour ≤ c.epoch)
      × (c.epoch ≤ c'.epoch)
      × (hour ≤ c'.monotonic)
      × (c'.monotonic ≤ now.monotonic)
    → 0 < lim.hourly_per_user
    → lim.hourly_per_user
      ≤ count_by (λ t. ltb (c.monotonic + (elapsed lim c c' f now.monotonic + 500)) (t + hour)) ts
    → goes_on (begin_run lim telethon now call (restarted lim c c' f)).1 ≡ false
begin_run-restarted lim telethon c c' now f call ts keys fits e short times pos full =
    let g = restarted lim c c' f in
    begin_run-by lim now g (λ p. goes_on p.1 ≡ false) telethon call (λ r. refl) (λ r. refl)
      (λ on free room idle. absurd (
        ground (
          arith,
          restarted-count lim c c' f call.user ts now.monotonic keys fits e short times,
          is_busy-full lim now (lookup call.user g.hour_history),
        )))
