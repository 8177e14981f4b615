-- ===== src/RateLimit/Windows.antt =====
-- How many calls are granted in a minute and in an hour.
use telegram_br.Base.{
  ℕ, ◌+◌, ◌/◌, ◌≤◌, ◌<◌, max, ◌≡◌, refl, sym, ◌∙◌, ◌⊎◌, inl, inr, Bool, true, false, List, [], ◌∷◌,
  ◌++◌, arith, ltb, leb, if◌then◌else◌, if-by, Time, length, lookup, insert, append-snoc,
  append-nil, count_recent, IsHistory-append, count_window, IsHistory, IsHistory-later, sees,
  count_window-append-le, count_by-append, count_by-le-length,
}
use telegram_br.RateLimit.{
  Limits, Limiter, init, pop_old, minute, hour, prune, refill, stamps_of, grant, can_proceed,
}

-- Calls of `can_proceed`: an account and the time.
abbrev pub Calls : Type 0
Calls = List (ℕ × Time)

abbrev pub AreOrdered : Time → Calls → Type 0
AreOrdered now [] = Unit
AreOrdered now ((a, t) ∷ cs) = (now ≤ t) × AreOrdered t cs

module _ (lim : Limits) where
  -- When calls were granted, the earliest first.
  unfoldable pub grants : Calls → Limiter → List Time
  grants [] l = []
  grants ((a, t) ∷ cs) l =
      let rest = grants cs (can_proceed lim a t l).0 in
      if (can_proceed lim a t l).1 then t ∷ rest else rest

-- The windows of the source are closed: a stamp counts to the microsecond `span` after it.
module _ (span : Time) where
  pop_old-IsHistory :
      (m now : Time) (ts : List Time) → IsHistory m ts → IsHistory m (pop_old span now ts)
  unfolding pop_old
  pop_old-IsHistory m now [] h = tt
  pop_old-IsHistory m now (t ∷ ts) (a, b, h) =
      if-by (IsHistory m) (ltb (t + span) now) _ _ (λ e. pop_old-IsHistory m now ts h)
        (λ e. (a, b, h))

  -- What is popped is not seen any more.
  count_recent-pop_old :
      (now n : Time) (ts : List Time)
      → now ≤ n
      → count_recent (span + 1) n (pop_old span now ts) ≡ count_recent (span + 1) n ts
  unfolding pop_old
  count_recent-pop_old now n [] h = refl
  count_recent-pop_old now n (t ∷ ts) h = ground (arith, count_recent-pop_old now n ts h)

  -- The window shows what all grants so far show, from now on.
  abbrev Shows : Time → List Time → List Time → Type 0
  Shows now all win =
      (n : Time) → now ≤ n → count_recent (span + 1) n all ≡ count_recent (span + 1) n win

module _ (lim : Limits) (span cap : ℕ) (win : Limiter → List Time) where
  -- A call pops the window, and appends to it only below the cap.
  Moves : ℕ → Time → Limiter → Type 0
  Moves a t l =
      let p = can_proceed lim a t l in
      let w = pop_old span t (win l) in
      ((p.1 ≡ false) × (win p.0 ≡ w)) ⊎ ((p.1 ≡ true) × (length w < cap) × (win p.0 ≡ w ++ t ∷ []))

  record Inv (now : Time) (all : List Time) (l : Limiter) : Type 0 where
    history : IsHistory now (win l)
    shows : Shows span now all (win l)
    windows : (t0 : Time) → count_window (span + 1) t0 all ≤ cap

  module _ (now t : Time) (all : List Time) (l : Limiter) (h : now ≤ t) (inv : Inv now all l) where
    w : List Time
    w = pop_old span t (win l)

    w-IsHistory : IsHistory t w
    unfolding w
    w-IsHistory = pop_old-IsHistory span t t (win l) (IsHistory-later now t (win l) h inv.history)

    w-Shows : Shows span t all w
    unfolding w
    w-Shows n k = inv.shows n (omega arith) ∙ sym (count_recent-pop_old span t n (win l) k)

    Inv-refused : (g : Limiter) → win g ≡ w → Inv t all g
    Inv-refused g e = record {
      history = rw e w-IsHistory;
      shows = rw e w-Shows;
      windows = inv.windows;
    }

    Inv-granted : (g : Limiter) → length w < cap → win g ≡ w ++ t ∷ [] → Inv t (all ++ t ∷ []) g
    unfolding w
    Inv-granted g few e = record {
      history = rw e (IsHistory-append t t w (omega arith) w-IsHistory);
      shows = rw e (λ n k. omega (
        arith,
        w-Shows n k,
        count_by-append (sees (span + 1) n) all t,
        count_by-append (sees (span + 1) n) w t,
      ));
      windows = λ t0.
          count_window-append-le cap (span + 1) t0 t all w (λ n k. omega (arith, w-Shows n k))
            (omega (arith, count_by-le-length (sees (span + 1) t) w)) (inv.windows t0);
    }

  grants-by :
      ((a : ℕ) (t : Time) (l : Limiter) → Moves a t l)
      → (now : Time) (all : List Time) (cs : Calls) (l : Limiter) → AreOrdered now cs
      → Inv now all l
      → (t0 : Time) → count_window (span + 1) t0 (all ++ grants lim cs l) ≤ cap
  unfolding grants Moves w
  grants-by moves now all [] l ord inv t0 = rw (append-nil all) (inv.windows t0)
  grants-by moves now all ((a, t) ∷ cs) l (h, ord) inv t0 =
      let g = (can_proceed lim a t l).0 in
      elim (moves a t l) [
        | inl (refused, e) ↦
            rw refused (grants-by moves t all cs g ord (Inv-refused now t all l h inv g e) t0)
        | inr (granted, few, e) ↦
            rw (granted, ← (append-snoc all (grants lim cs g) t))
              (grants-by moves t (all ++ t ∷ []) cs g ord (Inv-granted now t all l h inv g few e)
                t0)
      ]

module _ (lim : Limits) where
  grant-Moves :
      (a : ℕ) (t : Time) (l : Limiter)
      → let p = grant lim a t l in
        ((p.1 ≡ false) × (p.0.min_win ≡ l.min_win) × (p.0.hr_win ≡ l.hr_win))
        ⊎ ((p.1 ≡ true) × (p.0.min_win ≡ l.min_win ++ t ∷ []) × (p.0.hr_win ≡ l.hr_win ++ t ∷ []))
  unfolding grant
  grant-Moves a t l =
      let win = pop_old minute t (stamps_of (lookup a l.acct)) in
      if-by {A = Limiter × Bool}
        (λ p.
          ((p.1 ≡ false) × (p.0.min_win ≡ l.min_win) × (p.0.hr_win ≡ l.hr_win))
          ⊎ ((p.1 ≡ true)
              × (p.0.min_win ≡ l.min_win ++ t ∷ [])
              × (p.0.hr_win ≡ l.hr_win ++ t ∷ [])))
        (leb (max 1 (lim.max_per_minute / max (length (insert a win l.acct)) 1)) (length win)) _ _
        (λ full. inl (refl, refl, refl)) (λ room. inr (refl, refl, refl))

  can_proceed-min_win :
      (a : ℕ) (t : Time) (l : Limiter) → Moves lim minute lim.max_per_minute (λ l. l.min_win) a t l
  unfolding can_proceed prune refill Moves
  can_proceed-min_win a t l = ground (arith, grant-Moves a t (prune t (refill lim t l)))

  can_proceed-hr_win :
      (a : ℕ) (t : Time) (l : Limiter) → Moves lim hour lim.max_per_hour (λ l. l.hr_win) a t l
  unfolding can_proceed prune refill Moves
  can_proceed-hr_win a t l = ground (arith, grant-Moves a t (prune t (refill lim t l)))

-- Of any calls by any accounts, at most `max_per_minute` are granted in a minute, and at most
-- `max_per_hour` in an hour, wherever these begin and both ends included; the clock does not go back.
pub grants-limited :
    (lim : Limits) (start t0 : Time) (cs : Calls)
    → AreOrdered start cs
    → (count_window (minute + 1) t0 (grants lim cs (init lim start)) ≤ lim.max_per_minute)
      × (count_window (hour + 1) t0 (grants lim cs (init lim start)) ≤ lim.max_per_hour)
unfolding init
grants-limited lim start t0 cs ord = (
  grants-by lim minute lim.max_per_minute (λ l. l.min_win) (can_proceed-min_win lim) start [] cs
      (init lim start) ord
      (record { history = tt; shows = λ n h. refl; windows = λ t. omega arith }) t0,
  grants-by lim hour lim.max_per_hour (λ l. l.hr_win) (can_proceed-hr_win lim) start [] cs
      (init lim start) ord
      (record { history = tt; shows = λ n h. refl; windows = λ t. omega arith }) t0,
)
