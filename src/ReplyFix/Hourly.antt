-- ===== src/ReplyFix/Hourly.antt =====
-- The hourly cap of one user over runs that overlap.
use telegram_br.Base.{
  ℕ, ◌+◌, ◌≤◌, ◌<◌, max, ◌≡◌, refl, ◌∙◌, ◌≢◌, inl, inr, Bool, true, false, not, ◌&&◌, Option, none,
  some, List, [], ◌∷◌, ◌++◌, arith, leb, ◌==◌, if◌then◌else◌, is_some, Bool-cases, Option-cases,
  Time, length, count_by, All, elem, Dict, lookup, insert, lookup-insert, lookup-insert_self,
  length-insert-le, append-snoc, append-nil, push_last, count_recent, count_window, IsHistory,
  IsHistory-later, Covers, IsHistory-push_last, Covers-later, Covers-push_last,
  count_window-append-le, count_by-le-length,
}
use telegram_br.ReplyFix.Branches.{rollover_day-keeps, begin_run-by, record_attempt-hour_history}
use telegram_br.ReplyFix.{
  history_of, limits, init, Clock, Limits, Fixer, hour, history_size, rollover_day, is_busy,
  make_room, record_stamp, record_attempt, count_skipped, count_failure, count_success,
  disable_for_broadcast,
}
use telegram_br.ReplyFix.Run.{Call, Result, ok, fail, skip, gone, begin_run, finish_run, conclude}

-- The first part of a run, up to its first await, and the rest of one, in any order.
pub data Action : Type 0 where
  begins : Clock → Call → Action
  finishes : Call → Action

-- Whether the run goes on to send, after its reservation.
abbrev pub goes_on : Option Result → Bool
goes_on none = true
goes_on (some r) = false

module _ (lim : Limits) (telethon : Bool) where
  unfoldable pub perform : Action → Fixer → Fixer
  perform (begins c call) f = (begin_run lim telethon c call f).0
  perform (finishes call) f = (finish_run call f).0

  abbrev pub reserves : ℕ → Action → Fixer → Option Time
  reserves uid (finishes call) f = none
  reserves uid (begins c call) f =
      if goes_on (begin_run lim telethon c call f).1 && call.user == uid
      then some c.monotonic
      else none

  -- When the user's quota was reserved, the earliest first.
  unfoldable pub reservations : ℕ → List Action → Fixer → List Time
  reservations uid [] f = []
  reservations uid (a ∷ acts) f =
      let rest = reservations uid acts (perform a f) in
      elim (reserves uid a f) [ none ↦ rest | some t ↦ t ∷ rest ]

-- The monotonic clock does not go back.
abbrev pub AreOrdered : Time → List Action → Type 0
AreOrdered now [] = Unit
AreOrdered now (begins c call ∷ acts) = (now ≤ c.monotonic) × AreOrdered c.monotonic acts
AreOrdered now (finishes call ∷ acts) = AreOrdered now acts

abbrev pub IsCallOf : List ℕ → Action → Type 0
IsCallOf users (begins c call) = elem call.user users ≡ true
IsCallOf users (finishes call) = Unit

-- The users that the map does not track.
abbrev untracked : Dict (List Time) → List ℕ → ℕ
untracked d = count_by (λ u. not (is_some (lookup u d)))

untracked-insert :
    (u : ℕ) (ts : List Time) (d : Dict (List Time)) (us : List ℕ)
    → untracked (insert u ts d) us ≤ untracked d us
untracked-insert u ts d [] = omega arith
untracked-insert u ts d (v ∷ us) =
    ground (arith, lookup-insert u v ts d, untracked-insert u ts d us)

untracked-insert_new :
    (u : ℕ) (ts : List Time) (d : Dict (List Time)) (us : List ℕ)
    → elem u us ≡ true
    → lookup u d ≡ none
    → untracked (insert u ts d) us < untracked d us
untracked-insert_new u ts d [] h e = absurd (ground arith)
untracked-insert_new u ts d (v ∷ us) h e =
    ground
      (arith, lookup-insert u v ts d, untracked-insert u ts d us, untracked-insert_new u ts d us)

length-insert_known :
    (u : ℕ) (ts old : List Time) (d : Dict (List Time))
    → lookup u d ≡ some old
    → length (insert u ts d) ≡ length d
length-insert_known u ts old [] e = absurd (ground arith)
length-insert_known u ts old ((j, w) ∷ d) e = ground (arith, length-insert_known u ts old d)

-- There is room for every user of the list.
abbrev HasRoom : Limits → List ℕ → Dict (List Time) → Type 0
HasRoom lim us d = length d + untracked d us ≤ lim.max_tracked_users

record_stamp-insert :
    (lim : Limits) (now : Time) (u : ℕ) (d : Dict (List Time)) (us : List ℕ)
    → elem u us ≡ true
    → HasRoom lim us d
    → record_stamp lim now u d (lookup u d)
      ≡ insert u (push_last (history_size lim) now (history_of (lookup u d))) d
unfolding record_stamp make_room
record_stamp-insert lim now u d us h room = elim (Option-cases (lookup u d)) [
  | inl e ↦
      (let few : leb lim.max_tracked_users (length d) ≡ false =
          ground (arith, untracked-insert_new u [] d us h e) in
        simp (e, few) refl)
  | inr (ts, e) ↦ simp e refl
]

insert-HasRoom :
    (lim : Limits) (u : ℕ) (ts : List Time) (d : Dict (List Time)) (us : List ℕ)
    → elem u us ≡ true
    → HasRoom lim us d
    → HasRoom lim us (insert u ts d)
insert-HasRoom lim u ts d us h room = elim (Option-cases (lookup u d)) [
  | inl e ↦ omega (arith, length-insert-le u ts d, untracked-insert_new u ts d us h e)
  | inr (old, e) ↦ omega (arith, length-insert_known u ts old d e, untracked-insert u ts d us)
]

module _ (lim : Limits) (telethon : Bool) (uid : ℕ) (users : List ℕ) where
  -- `all` are the reservations of `uid` so far: the map covers them up to the cap.
  record Inv (now : Time) (all : List Time) (f : Fixer) : Type 0 where
    room : HasRoom lim users f.hour_history
    history : IsHistory now (history_of (lookup uid f.hour_history))
    covered : Covers lim.hourly_per_user hour now all (history_of (lookup uid f.hour_history))
    windows : (t0 : Time) → count_window hour t0 all ≤ lim.hourly_per_user

  Inv-same :
      (now later : Time) (all : List Time) (f g : Fixer)
      → now ≤ later
      → g.hour_history ≡ f.hour_history
      → Inv now all f
      → Inv later all g
  Inv-same now later all f g h e inv = record {
    room = rw e inv.room;
    history =
        rw e (IsHistory-later now later (history_of (lookup uid f.hour_history)) h inv.history);
    covered = rw e (
        Covers-later lim.hourly_per_user hour now later all (history_of (lookup uid f.hour_history))
          h inv.covered);
    windows = inv.windows;
  }

  Inv-init : (c : Clock) → length users ≤ lim.max_tracked_users → Inv c.monotonic [] (init c)
  unfolding init
  Inv-init c fits = record {
    room = omega (arith, count_by-le-length (λ u. true) users);
    history = tt;
    covered = λ n h. omega arith;
    windows = λ t0. omega arith;
  }

  conclude-hour_history : (r : Result) (f : Fixer) → (conclude r f).hour_history ≡ f.hour_history
  unfolding conclude disable_for_broadcast count_skipped count_failure count_success
  conclude-hour_history ok f = refl
  conclude-hour_history (fail e) f = refl
  conclude-hour_history (skip s) f = ground arith
  conclude-hour_history gone f = refl

  few-recent :
      (c : Clock) (o : Option (List Time))
      → is_busy lim c o ≡ false
      → 0 < lim.hourly_per_user
      → count_recent hour c.monotonic (history_of o) < lim.hourly_per_user
  unfolding is_busy
  few-recent c none idle h = omega arith
  few-recent c (some ts) idle h = ground arith

  module _ (now : Time) (c : Clock) (f g : Fixer) (all : List Time) (h : now ≤ c.monotonic)
      (inv : Inv now all f) where
    abbrev kept : List Time
    kept = history_of (lookup uid f.hour_history)

    Inv-own :
        is_busy lim c (lookup uid f.hour_history) ≡ false
        → elem uid users ≡ true
        → 0 < lim.hourly_per_user
        → g.hour_history ≡ insert uid (push_last (history_size lim) c.monotonic kept) f.hour_history
        → Inv c.monotonic (all ++ c.monotonic ∷ []) g
    Inv-own idle known pos e = record {
      room = rw e (insert-HasRoom lim uid _ f.hour_history users known inv.room);
      history =
          rw
            (
              e,
              lookup-insert_self uid (push_last (history_size lim) c.monotonic kept) f.hour_history,
            )
            (IsHistory-push_last (history_size lim) now c.monotonic kept h inv.history);
      covered =
          rw
            (
              e,
              lookup-insert_self uid (push_last (history_size lim) c.monotonic kept) f.hour_history,
            )
            (Covers-push_last lim.hourly_per_user (history_size lim) hour now c.monotonic all kept
              (omega arith) h inv.history inv.covered);
      windows = λ t0.
          count_window-append-le lim.hourly_per_user hour t0 c.monotonic all kept
            (Covers-later lim.hourly_per_user hour now c.monotonic all kept h inv.covered)
            (few-recent c (lookup uid f.hour_history) idle pos) (inv.windows t0);
    }

    Inv-other :
        (u : ℕ) (ts : List Time)
        → u ≢ uid
        → elem u users ≡ true
        → g.hour_history ≡ insert u ts f.hour_history
        → Inv c.monotonic all g
    Inv-other u ts other known e =
        let same : lookup uid g.hour_history ≡ lookup uid f.hour_history =
          ground (arith, e, lookup-insert u uid ts f.hour_history) in
        record {
          room = rw e (insert-HasRoom lim u ts f.hour_history users known inv.room);
          history = rw same (IsHistory-later now c.monotonic kept h inv.history);
          covered =
              rw same
                (Covers-later lim.hourly_per_user hour now c.monotonic all kept h inv.covered);
          windows = inv.windows;
        }

  abbrev add : Option Time → List Time → List Time
  add none all = all
  add (some t) all = all ++ t ∷ []

  add-append :
      (o : Option Time) (all rest : List Time)
      → add o all ++ rest ≡ all ++ elim o [ none ↦ rest | some t ↦ t ∷ rest ]
  add-append none all rest = refl
  add-append (some t) all rest = append-snoc all rest t

  finish_run-hour_history :
      (call : Call) (f : Fixer)
      → (perform lim telethon (finishes call) f).hour_history ≡ f.hour_history
  unfolding perform finish_run
  finish_run-hour_history call f = conclude-hour_history _ f

  module _ (now : Time) (c : Clock) (call : Call) (f : Fixer) (all : List Time)
      (h : now ≤ c.monotonic) (pos : 0 < lim.hourly_per_user) (known : elem call.user users ≡ true)
      (inv : Inv now all f) where
    record_attempt-Inv :
        is_busy lim c (lookup call.user f.hour_history) ≡ false
        → Inv c.monotonic
            (add (if call.user == uid then some c.monotonic else none) all)
            (record_attempt lim c call.user (rollover_day c f))
    record_attempt-Inv idle =
        let e =
          record_attempt-hour_history lim c call.user f
          ∙ record_stamp-insert lim c.monotonic call.user f.hour_history users known inv.room in
        elim (Bool-cases (call.user == uid)) [
          | inl own ↦
              (let eq : call.user ≡ uid = ground arith in
                let idle' : is_busy lim c (lookup uid f.hour_history) ≡ false = rw (← eq) idle in
                let known' : elem uid users ≡ true = rw (← eq) known in
                simp own (Inv-own now c f _ all h inv idle' known' pos (rw (← eq) e)))
          | inr other ↦
              simp other (Inv-other now c f _ all h inv call.user _ (ground arith) known e)
        ]

    begin_run-Inv :
        Inv c.monotonic
          (add (reserves lim telethon uid (begins c call) f) all)
          (perform lim telethon (begins c call) f)
    unfolding perform count_skipped
    begin_run-Inv =
        begin_run-by lim c f
          (λ p.
            Inv c.monotonic
              (add (if goes_on p.1 && call.user == uid then some c.monotonic else none) all) p.0)
          telethon call (λ r. Inv-same now c.monotonic all f (count_skipped f) h refl inv)
          (λ r.
            Inv-same now c.monotonic all f (count_skipped (rollover_day c f)) h
              (rollover_day-keeps c f).0 inv)
          (λ on free room idle. record_attempt-Inv idle)

  reservations-by :
      (now : Time) (all : List Time) (acts : List Action) (f : Fixer)
      → 0 < lim.hourly_per_user
      → AreOrdered now acts
      → All (IsCallOf users) acts
      → Inv now all f
      → (t0 : Time)
      → count_window hour t0 (all ++ reservations lim telethon uid acts f) ≤ lim.hourly_per_user
  unfolding reservations
  reservations-by now all [] f pos ord known inv t0 = rw (append-nil all) (inv.windows t0)
  reservations-by now all (finishes call ∷ acts) f pos ord (k, known) inv t0 =
      reservations-by now all acts (perform lim telethon (finishes call) f) pos ord known
        (Inv-same now now all f _ (omega arith) (finish_run-hour_history call f) inv) t0
  reservations-by now all (begins c call ∷ acts) f pos (h, ord) (k, known) inv t0 =
      let next = begin_run-Inv now c call f all h pos k inv in
      let new = reserves lim telethon uid (begins c call) f in
      let g = perform lim telethon (begins c call) f in
      let rest = reservations-by c.monotonic (add new all) acts g pos ord known next t0 in
      rw (← (add-append new all (reservations lim telethon uid acts g))) rest

-- However the runs overlap, a user gets at most `hourly_per_user` reservations (at least one is allowed) in any
-- hour, when the clock does not go back and the calls are of no more users than the map tracks.
pub reservations-hourly :
    (enabled telethon : Bool) (hourly daily tracked : ℕ) (c : Clock) (acts : List Action)
    (users : List ℕ) (uid : ℕ) (t0 : Time)
    → length users ≤ max 16 tracked
    → All (IsCallOf users) acts
    → AreOrdered c.monotonic acts
    → let lim = limits enabled hourly daily tracked in
      count_window hour t0 (reservations lim telethon uid acts (init c)) ≤ max 1 hourly
unfolding limits
reservations-hourly enabled telethon hourly daily tracked c acts users uid t0 fits known ord =
    let lim = limits enabled hourly daily tracked in
    reservations-by lim telethon uid users c.monotonic [] acts (init c) (omega arith) ord known
      (Inv-init lim telethon uid users c fits) t0
