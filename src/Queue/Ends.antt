-- ===== src/Queue/Ends.antt =====
-- The statements that end a claim (database.py) change the row of the claim alone.
use telegram_br.Base.{
  ℕ, ◌≡◌, refl, ap, ◌≢◌, inl, inr, Bool, true, not, List, [], ◌∷◌, ◌++◌, arith, if◌then◌else◌,
  Bool-cases, keep, any, All, ==_refl,
}
use telegram_br.Queue.{Row, update_where, delete_where, is_in_flight, still_claimed}
use telegram_br.Queue.Ids.{ids}
use telegram_br.Queue.Recovery.{in_flight_at}

-- No row has the id.
abbrev pub Away : ℕ → List Row → Type 0
Away i = All (λ s. i ≢ s.id)

pub Away-append : (i : ℕ) (xs ys : List Row) → Away i xs → Away i ys → Away i (xs ++ ys)
Away-append i [] ys h k = k
Away-append i (x ∷ xs) ys h k = (h.0, Away-append i xs ys h.1 k)

pub Away-ids : (i : ℕ) (rs : List Row) → All (λ j. i ≢ j) (ids rs) → Away i rs
Away-ids i [] h = tt
Away-ids i (r ∷ rs) h = (h.0, Away-ids i rs h.1)

update_where-Away :
    (r : Row) (f : Row → Row) (xs : List Row)
    → Away r.id xs
    → update_where (still_claimed r) f xs ≡ xs
update_where-Away r f [] h = refl
update_where-Away r f (x ∷ xs) h = ground (arith, update_where-Away r f xs h.1, h.0)

delete_where-Away : (i : ℕ) (xs : List Row) → Away i xs → delete_where (in_flight_at i) xs ≡ xs
delete_where-Away i [] h = refl
delete_where-Away i (x ∷ xs) h = ground (arith, delete_where-Away i xs h.1, h.0)

update_where-append :
    (p : Row → Bool) (f : Row → Row) (xs ys : List Row)
    → update_where p f (xs ++ ys) ≡ update_where p f xs ++ update_where p f ys
update_where-append p f [] ys = refl
update_where-append p f (x ∷ xs) ys =
    ap (λ l. (if p x then f x else x) ∷ l) (update_where-append p f xs ys)

keep-append : (p : Row → Bool) (xs ys : List Row) → keep p (xs ++ ys) ≡ keep p xs ++ keep p ys
keep-append p [] ys = refl
keep-append p (x ∷ xs) ys = elim (Bool-cases (p x)) [
  | inl held ↦ rw (held, keep-append p xs ys) refl
  | inr lost ↦ rw (lost, keep-append p xs ys) refl
]

pub any_here :
    (p : Row → Bool) (r : Row) (xs ys : List Row) → p r ≡ true → any p (xs ++ r ∷ ys) ≡ true
any_here p r [] ys h = rw h refl
any_here p r (x ∷ xs) ys h = ground (arith, any_here p r xs ys h)

pub still_claimed_self : (r : Row) → is_in_flight r.status ≡ true → still_claimed r r ≡ true
still_claimed_self r h = rw (h, ==_refl r.id, ==_refl r.attempts) refl

-- The statements that end a claim change the row of the claim alone.
pub update_one :
    (r : Row) (f : Row → Row) (xs ys : List Row)
    → is_in_flight r.status ≡ true
    → Away r.id xs
    → Away r.id ys
    → update_where (still_claimed r) f (xs ++ r ∷ ys) ≡ xs ++ f r ∷ ys
update_one r f xs ys h ax ay =
    rw
      (
        update_where-append (still_claimed r) f xs (r ∷ ys),
        update_where-Away r f xs ax,
        update_where-Away r f ys ay,
        still_claimed_self r h,
      )
      refl

pub delete_one :
    (s : Row) (xs ys : List Row)
    → is_in_flight s.status ≡ true
    → Away s.id xs
    → Away s.id ys
    → delete_where (in_flight_at s.id) (xs ++ s ∷ ys) ≡ xs ++ ys
delete_one s xs ys h ax ay =
    rw
      (
        keep-append (λ r. not (in_flight_at s.id r)) xs (s ∷ ys),
        delete_where-Away s.id xs ax,
        delete_where-Away s.id ys ay,
        ==_refl s.id,
        h,
      )
      refl
