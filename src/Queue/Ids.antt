-- ===== src/Queue/Ids.antt =====
-- Ids of rows: they stay distinct under the statements on the table, so that a deletion by id
-- removes one row.
use telegram_br.Base.{
  ℕ, suc, ◌+◌, ◌-◌, ◌<◌, ◌≡◌, refl, ap, ◌≢◌, inl, inr, Bool, true, false, not, none, some, List, [],
  ◌∷◌, ◌++◌, map, arith, ◌==◌, Bool-cases, Option-cases, length, keep, any, All, ==_iff,
}
use telegram_br.Queue.{Row, has_id, update_where, delete_where, first_by, delete_first}

abbrev pub ids : List Row → List ℕ
ids = map (λ r. r.id)

abbrev pub Unique : List ℕ → Type 0
Unique [] = Unit
Unique (i ∷ is) = All (λ j. i ≢ j) is × Unique is

abbrev pub IsBelow : ℕ → List ℕ → Type 0
IsBelow n = All (λ i. i < n)

pub ids-update_where :
    (p : Row → Bool) (f : Row → Row)
    → ((r : Row) → (f r).id ≡ r.id)
    → (rs : List Row) → ids (update_where p f rs) ≡ ids rs
ids-update_where p f same [] = refl
ids-update_where p f same (r ∷ rs) = ground (arith, same r, ids-update_where p f same rs)

All-keep :
    (P : ℕ → Type 0) (p : Row → Bool) (rs : List Row) → All P (ids rs) → All P (ids (keep p rs))
All-keep P p [] h = tt
All-keep P p (r ∷ rs) h = elim (Bool-cases (p r)) [
  | inl e ↦ rw e (h.0, All-keep P p rs h.1)
  | inr e ↦ rw e (All-keep P p rs h.1)
]

pub Unique-keep : (p : Row → Bool) (rs : List Row) → Unique (ids rs) → Unique (ids (keep p rs))
Unique-keep p [] h = tt
Unique-keep p (r ∷ rs) h = elim (Bool-cases (p r)) [
  | inl e ↦ rw e (All-keep (λ j. r.id ≢ j) p rs h.0, Unique-keep p rs h.1)
  | inr e ↦ rw e (Unique-keep p rs h.1)
]

pub IsBelow-keep :
    (n : ℕ) (p : Row → Bool) (rs : List Row) → IsBelow n (ids rs) → IsBelow n (ids (keep p rs))
IsBelow-keep n p rs h = All-keep (λ i. i < n) p rs h

pub IsBelow-suc : (n : ℕ) (rs : List ℕ) → IsBelow n rs → IsBelow (n + 1) rs
IsBelow-suc n [] h = tt
IsBelow-suc n (i ∷ is) h = (omega arith, IsBelow-suc n is h.1)

pub IsBelow-append :
    (n : ℕ) (r : Row) (rs : List Row)
    → IsBelow n (ids rs)
    → r.id ≡ n
    → IsBelow (n + 1) (ids (rs ++ r ∷ []))
IsBelow-append n r [] h e = (omega arith, tt)
IsBelow-append n r (s ∷ rs) h e = (omega arith, IsBelow-append n r rs h.1 e)

All-append_one :
    (P : ℕ → Type 0) (r : Row) (rs : List Row)
    → All P (ids rs)
    → P r.id
    → All P (ids (rs ++ r ∷ []))
All-append_one P r [] h p = (p, tt)
All-append_one P r (s ∷ rs) h p = (h.0, All-append_one P r rs h.1 p)

-- A row with a new id keeps the ids distinct.
pub Unique-append :
    (n : ℕ) (r : Row) (rs : List Row)
    → Unique (ids rs)
    → IsBelow n (ids rs)
    → r.id ≡ n
    → Unique (ids (rs ++ r ∷ []))
Unique-append n r [] u h e = (tt, tt)
Unique-append n r (s ∷ rs) u h e =
    (All-append_one (λ j. s.id ≢ j) r rs u.0 (omega arith), Unique-append n r rs u.1 h.1 e)

absent : (i : ℕ) (rs : List Row) → All (λ j. i ≢ j) (ids rs) → keep (λ r. not (r.id == i)) rs ≡ rs
absent i [] h = refl
absent i (r ∷ rs) h = ground (arith, absent i rs h.1, h.0)

-- Deleting by an id that is there removes one row.
pub length-delete_where :
    (i : ℕ) (rs : List Row)
    → Unique (ids rs)
    → any (has_id i) rs ≡ true
    → length (delete_where (has_id i) rs) + 1 ≡ length rs
length-delete_where i [] u h = ground arith
length-delete_where i (r ∷ rs) u h = elim (Bool-cases (r.id == i)) [
  | inl e ↦
      let same : r.id ≡ i = (==_iff r.id i).0 e in
      let rest : keep (λ s. not (s.id == i)) rs ≡ rs = absent i rs (rw same at u.0) in
      rw (e, rest) (omega arith)
  | inr e ↦ rw e (omega (arith, length-delete_where i rs u.1 (rw e at h)))
]

-- The chosen row is one of the rows.
pub any-first_by :
    (before : Row → Row → Bool) (rs : List Row) (r : Row)
    → first_by before rs ≡ some r
    → any (has_id r.id) rs ≡ true
unfolding first_by
any-first_by before [] r h = cc
any-first_by before (s ∷ rs) r h = elim (Option-cases (first_by before rs)) [
  | inl e ↦ ground arith
  | inr (x, e) ↦ ground (arith, any-first_by before rs x e)
]

pub first_by-none :
    (before : Row → Row → Bool) (rs : List Row) → first_by before rs ≡ none → rs ≡ []
unfolding first_by
first_by-none before [] h = refl
first_by-none before (s ∷ rs) h = absurd (ground arith)

pub length-update_where :
    (p : Row → Bool) (f : Row → Row) (rs : List Row) → length (update_where p f rs) ≡ length rs
length-update_where p f [] = refl
length-update_where p f (r ∷ rs) = ap suc (length-update_where p f rs)

-- What was deleted by id is gone.
pub any-delete_where : (i : ℕ) (rs : List Row) → any (has_id i) (delete_where (has_id i) rs) ≡ false
any-delete_where i [] = refl
any-delete_where i (r ∷ rs) = ground (arith, any-delete_where i rs)

-- The eviction takes one row away, if there is one.
pub length-delete_first :
    (before : Row → Row → Bool) (rs : List Row)
    → Unique (ids rs)
    → length (delete_first (first_by before rs) rs) ≡ length rs - 1
unfolding delete_first
length-delete_first before rs u = elim (Option-cases (first_by before rs)) [
  | inl e ↦ rw e (rw (first_by-none before rs e) (omega arith))
  | inr (r, e) ↦ rw e (omega (arith, length-delete_where r.id rs u (any-first_by before rs r e)))
]
