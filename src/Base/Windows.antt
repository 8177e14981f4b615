-- ===== src/Base/Windows.antt =====
-- Histories of time stamps, the oldest first, and what a moving window sees of them.
use Prim.Native.Nat.{ℕ, zero, suc, ◌+◌, ◌-◌, ◌≤◌, ◌<◌, min}
use mathlib.Core.Path.{◌≡◌, refl}
use mathlib.Core.Bool.{Bool, true, ◌&&◌}
use mathlib.Core.List.{List, [], ◌∷◌, ◌++◌}
use native.Mathlib.Omega.{arith}
use telegram_br.Base.Tests.{if◌then◌else◌, ltb, leb}
use telegram_br.Base.Clock.{Time}
use telegram_br.Base.Lists.{length, drop, count_by, All, length-append}

-- `deque(maxlen=n)` after `append(x)`
abbrev pub push_last {ℓ} : {A : Type ℓ} → ℕ → A → List A → List A
push_last n x xs = drop (length (xs ++ x ∷ []) - n) (xs ++ x ∷ [])

pub push_last-room {ℓ} :
    {A : Type ℓ} (n : ℕ) (x : A) (xs : List A) → length xs < n → push_last n x xs ≡ xs ++ x ∷ []
push_last-room n x xs h =
    let none_dropped : length (xs ++ x ∷ []) - n ≡ 0 = omega (arith, length-append xs (x ∷ [])) in
    rw none_dropped refl

-- The stamp is less than `span` old.
abbrev pub sees : Time → Time → Time → Bool
sees span now t = ltb now (t + span)

abbrev pub count_recent : Time → Time → List Time → ℕ
count_recent span now = count_by (sees span now)

-- The stamps ascend and none is later than `now`.
abbrev pub IsHistory : Time → List Time → Type 0
IsHistory now [] = Unit
IsHistory now (t ∷ ts) = (t ≤ now) × (All (λ u. t ≤ u) ts) × IsHistory now ts

pub count_by-append {ℓ} :
    {A : Type ℓ} (p : A → Bool) (xs : List A) (x : A)
    → count_by p (xs ++ x ∷ []) ≡ count_by p xs + (if p x then 1 else 0)
count_by-append p [] x = ground arith
count_by-append p (y ∷ xs) x = ground (arith, count_by-append p xs x)

pub count_by-le-length {ℓ} : {A : Type ℓ} (p : A → Bool) (xs : List A) → count_by p xs ≤ length xs
count_by-le-length p [] = omega arith
count_by-le-length p (y ∷ xs) = ground (arith, count_by-le-length p xs)

pub IsHistory-later : (n m : Time) (ts : List Time) → n ≤ m → IsHistory n ts → IsHistory m ts
IsHistory-later n m [] h hs = tt
IsHistory-later n m (t ∷ ts) h (a, b, hs) = (omega arith, b, IsHistory-later n m ts h hs)

All-append-last :
    (t n : Time) (ts : List Time) → t ≤ n → All (λ u. t ≤ u) ts → All (λ u. t ≤ u) (ts ++ n ∷ [])
All-append-last t n [] h hs = (h, tt)
All-append-last t n (u ∷ ts) h (a, hs) = (a, All-append-last t n ts h hs)

pub IsHistory-append :
    (n m : Time) (ts : List Time) → n ≤ m → IsHistory n ts → IsHistory m (ts ++ m ∷ [])
IsHistory-append n m [] h hs = (omega arith, tt, tt)
IsHistory-append n m (t ∷ ts) h (a, b, hs) =
    (omega arith, All-append-last t m ts (omega arith) b, IsHistory-append n m ts h hs)

All-drop {ℓ κ} : {A : Type ℓ} (P : A → Type κ) (k : ℕ) (xs : List A) → All P xs → All P (drop k xs)
All-drop P zero xs h = h
All-drop P (suc k) [] h = h
All-drop P (suc k) (x ∷ xs) (a, h) = All-drop P k xs h

IsHistory-drop : (n : Time) (k : ℕ) (ts : List Time) → IsHistory n ts → IsHistory n (drop k ts)
IsHistory-drop n zero ts h = h
IsHistory-drop n (suc k) [] h = h
IsHistory-drop n (suc k) (t ∷ ts) (a, b, h) = IsHistory-drop n k ts h

pub count_recent_older :
    (span now t : Time) (ts : List Time)
    → sees span now t ≡ true
    → All (λ u. t ≤ u) ts
    → count_recent span now ts ≡ length ts
count_recent_older span now t [] h hs = omega arith
count_recent_older span now t (u ∷ ts) h (a, hs) =
    ground (arith, count_recent_older span now t ts h hs)

count_recent-drop :
    (span now m : Time) (k : ℕ) (ts : List Time)
    → IsHistory m ts
    → min (length ts - k) (count_recent span now ts) ≤ count_recent span now (drop k ts)
count_recent-drop span now m zero ts h = omega arith
count_recent-drop span now m (suc k) [] h = omega arith
count_recent-drop span now m (suc k) (t ∷ ts) (a, b, h) =
    ground (arith, count_recent-drop span now m k ts h, count_recent_older span now t ts)

-- What a bounded history remembers of all stamps: below `cap`, every recent one.
abbrev pub Covers : ℕ → Time → Time → List Time → List Time → Type 0
Covers cap span now all kept =
    (n : Time) → now ≤ n → min cap (count_recent span n all) ≤ count_recent span n kept

pub IsHistory-push_last :
    (size : ℕ) (n m : Time) (ts : List Time)
    → n ≤ m
    → IsHistory n ts
    → IsHistory m (push_last size m ts)
IsHistory-push_last size n m ts h hs =
    IsHistory-drop m (length (ts ++ m ∷ []) - size) (ts ++ m ∷ []) (IsHistory-append n m ts h hs)

pub Covers-later :
    (cap : ℕ) (span n m : Time) (all kept : List Time)
    → n ≤ m
    → Covers cap span n all kept
    → Covers cap span m all kept
Covers-later cap span n m all kept h c k hk = c k (omega arith)

-- A history of at least `cap` entries that drops its oldest entry when it is full.
pub Covers-push_last :
    (cap size : ℕ) (span n m : Time) (all kept : List Time)
    → cap ≤ size
    → n ≤ m
    → IsHistory n kept
    → Covers cap span n all kept
    → Covers cap span m (all ++ m ∷ []) (push_last size m kept)
Covers-push_last cap size span n m all kept hs h hk c k h' = ground (
  arith,
  c k,
  count_by-append (sees span k) all m,
  count_by-append (sees span k) kept m,
  length-append kept (m ∷ []),
  count_by-le-length (sees span k) (kept ++ m ∷ []),
  count_recent-drop span k m (length (kept ++ m ∷ []) - size) (kept ++ m ∷ [])
      (IsHistory-append n m kept h hk),
)

-- How many of the stamps fall into the window of `span` that begins at `t0`.
abbrev pub count_window : Time → Time → List Time → ℕ
count_window span t0 = count_by (λ t. leb t0 t && ltb t (t0 + span))

count_window-le-recent :
    (span t0 now : Time) (ts : List Time)
    → now < t0 + span
    → count_window span t0 ts ≤ count_recent span now ts
count_window-le-recent span t0 now [] h = omega arith
count_window-le-recent span t0 now (t ∷ ts) h =
    ground (arith, count_window-le-recent span t0 now ts h)

-- A stamp added only where the history shows fewer than `cap` recent ones keeps every window at `cap`.
pub count_window-append-le :
    (cap : ℕ) (span t0 now : Time) (all kept : List Time)
    → Covers cap span now all kept
    → count_recent span now kept < cap
    → count_window span t0 all ≤ cap
    → count_window span t0 (all ++ now ∷ []) ≤ cap
count_window-append-le cap span t0 now all kept c few le = ground (
  arith,
  c now (omega arith),
  count_by-append (λ t. leb t0 t && ltb t (t0 + span)) all now,
  count_window-le-recent span t0 now all,
)
