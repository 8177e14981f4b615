-- ===== src/NegativeMemory/Flush.antt =====
-- What a flush stores (negative_memory.py).
use telegram_br.Base.{
  ℕ, ◌≡◌, refl, sym, ap, ◌∙◌, ◌⊎◌, inl, inr, Bool, true, false, some, List, [], ◌∷◌, map, arith,
  ◌==◌, if◌then◌else◌, Bool-cases, Option-cases, if-by, All, elem, lookup, lookup-insert,
  lookup-insert_self, ==_refl,
}
use mathlib.Core.Path.{subst}
use telegram_br.NegativeMemory.{Memory, write_store, flush_store, change_all, Round, flush_now}

-- While a flush runs no store changes.
abbrev pub AreQuiet : List Round → Type 0
AreQuiet = All (λ r. r.meanwhile ≡ [])

abbrev pub names_of : List Round → List ℕ
names_of = map (λ r. r.name)

module _ (n v : ℕ) where
  -- The store is registered and holds the contents.
  abbrev pub Holds : Memory → Type 0
  Holds m = (elem n m.registered ≡ true) × (lookup n m.current ≡ some v)

  flush_store-Holds :
      (works : Bool) (k : ℕ) (m : Memory) → Holds m → Holds (flush_store works k m).0
  unfolding flush_store write_store
  flush_store-Holds works k m h =
      if-by {A = Memory × Bool} (λ p. Holds p.0) (elem k m.registered) _ _
        (λ e. elim (Option-cases (lookup k m.current)) [
          | inl none_yet ↦ simp none_yet h
          | inr (w, e) ↦
              simp e (if-by {A = Memory × Bool} (λ p. Holds p.0) works _ _ (λ e. h) (λ e. h))
        ])
        (λ e. h)

  -- A row that is right stays so.
  flush_store-saved :
      (works : Bool) (k : ℕ) (m : Memory)
      → Holds m
      → lookup n m.saved ≡ some v
      → lookup n (flush_store works k m).0.saved ≡ some v
  unfolding flush_store write_store
  flush_store-saved works k m (r, h) s =
      if-by {A = Memory × Bool} (λ p. lookup n p.0.saved ≡ some v) (elem k m.registered) _ _
        (λ e. elim (Option-cases (lookup k m.current)) [
          | inl none_yet ↦ simp none_yet s
          | inr (w, e) ↦ simp e (
              if-by {A = Memory × Bool} (λ p. lookup n p.0.saved ≡ some v) works _ _
                (λ on. lookup-insert k n w m.saved ∙ elim (Bool-cases (k == n)) [
                  | inl same ↦
                      (let eq : k ≡ n = ground arith in
                        let value : some w ≡ some v = sym e ∙ ap (λ j. lookup j m.current) eq ∙ h in
                        rw same value)
                  | inr other ↦ rw other s
                ])
                (λ off. s))
        ])
        (λ e. s)

  -- The store's own round writes it, or fails.
  flush_store-own :
      (works : Bool) (m : Memory)
      → Holds m
      → ((flush_store works n m).1 ≡ false) ⊎ (lookup n (flush_store works n m).0.saved ≡ some v)
  unfolding flush_store write_store
  flush_store-own works m (r, h) =
      simp (r, h)
        (if-by {A = Memory × Bool} (λ p. (p.1 ≡ false) ⊎ (lookup n p.0.saved ≡ some v)) works _ _
          (λ on. inr (lookup-insert_self n v m.saved)) (λ off. inl refl))

  module _ (r : Round) (rs : List Round) (m : Memory) (h : Holds m) where
    abbrev g : Memory
    g = (flush_store r.works r.name m).0

    abbrev Goal : Type 0
    Goal =
        (elem n (
            if (flush_store r.works r.name m).1
            then (flush_now rs g).1
            else r.name ∷ (flush_now rs g).1)
          ≡ true)
        ⊎ (lookup n (flush_now rs g).0.saved ≡ some v)

    -- What the rest of the rounds gives, gives it after the first.
    round-Goal :
        ((lookup n g.saved ≡ some v) ⊎ (elem n (names_of rs) ≡ true)
          → (elem n (flush_now rs g).1 ≡ true) ⊎ (lookup n (flush_now rs g).0.saved ≡ some v))
        → (lookup n m.saved ≡ some v) ⊎ (elem n (names_of (r ∷ rs)) ≡ true)
        → Goal
    round-Goal rest c = go c
      where
        later : (lookup n g.saved ≡ some v) ⊎ (elem n (names_of rs) ≡ true) → Goal
        later c' = elim (rest c') [
          | inl lost ↦ inl (
              if-by (λ ns. elem n ns ≡ true) (flush_store r.works r.name m).1 _ _ (λ e. lost)
                (λ e. ground arith))
          | inr stored ↦ inr stored
        ]

        own : (r.name ≡ n) → Goal
        own eq =
            let written : ((flush_store r.works r.name m).1 ≡ false) ⊎ (lookup n g.saved ≡ some v) =
              subst
                (λ k.
                  ((flush_store r.works k m).1 ≡ false)
                  ⊎ (lookup n (flush_store r.works k m).0.saved ≡ some v))
                (sym eq) (flush_store-own r.works m h) in
            elim written [
              | inl lost ↦ inl (ground (arith, lost, eq, ==_refl n))
              | inr stored ↦ later (inl stored)
            ]

        go : (lookup n m.saved ≡ some v) ⊎ (elem n (names_of (r ∷ rs)) ≡ true) → Goal
        go (inl s) = later (inl (flush_store-saved r.works r.name m h s))
        go (inr e) = elim (Bool-cases (n == r.name)) [
          | inl same ↦ own (ground arith)
          | inr other ↦ later (inr (ground arith))
        ]

  flush_now-saved :
      (rs : List Round) (m : Memory)
      → AreQuiet rs
      → Holds m
      → (lookup n m.saved ≡ some v) ⊎ (elem n (names_of rs) ≡ true)
      → (elem n (flush_now rs m).1 ≡ true) ⊎ (lookup n (flush_now rs m).0.saved ≡ some v)
  unfolding flush_now change_all
  flush_now-saved [] m q h (inl s) = inr s
  flush_now-saved [] m q h (inr none_left) = absurd (ground arith)
  flush_now-saved (r ∷ rs) m (quiet, q) h c =
      let g = (flush_store r.works r.name m).0 in
      rw quiet
        (round-Goal r rs m h (flush_now-saved rs g q (flush_store-Holds r.works r.name m h)) c)

-- When no store changes during a flush, each registered store that has a round and contents is written with
-- these contents, or is among the failed ones.
pub flush_now-stores :
    (n v : ℕ) (rs : List Round) (m : Memory)
    → AreQuiet rs
    → Holds n v m
    → elem n (names_of rs) ≡ true
    → (elem n (flush_now rs m).1 ≡ true) ⊎ (lookup n (flush_now rs m).0.saved ≡ some v)
flush_now-stores n v rs m q h e = flush_now-saved n v rs m q h (inr e)
