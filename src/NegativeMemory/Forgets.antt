-- ===== src/NegativeMemory/Forgets.antt =====
-- What a flush forgets (negative_memory.py): a change after the round of its store.
use telegram_br.Base.{
  ℕ, ◌≡◌, refl, ap, ◌∙◌, inl, inr, Bool, true, false, not, ◌&&◌, Option, some, List, [], ◌∷◌, arith,
  ◌==◌, if◌then◌else◌, Bool-cases, Option-cases, if-by, length, keep, elem, lookup, insert,
  lookup-insert, lookup-insert_self, ==_iff, ==_refl,
}
use mathlib.Core.Path.{subst}
use telegram_br.NegativeMemory.{
  Memory, Changes, kick, mark_dirty, change, write_store, flush_store, change_all, Round, flush_now,
  settle, debounced_flush,
}
use telegram_br.NegativeMemory.Flush.{names_of}

-- What the changes make of the contents of a store.
abbrev pub latest : ℕ → Changes → Option ℕ → Option ℕ
latest n [] o = o
latest n ((k, v) ∷ cs) o = latest n cs (if k == n then some v else o)

abbrev pub latest_of : ℕ → List Round → Option ℕ → Option ℕ
latest_of n [] o = o
latest_of n (r ∷ rs) o = latest_of n rs (latest n r.meanwhile o)

mark_dirty-saved : (k : ℕ) (m : Memory) → (mark_dirty k m).saved ≡ m.saved
unfolding mark_dirty kick
mark_dirty-saved k m = ground arith

mark_dirty-current : (k : ℕ) (m : Memory) → (mark_dirty k m).current ≡ m.current
unfolding mark_dirty kick
mark_dirty-current k m = ground arith

change_all-saved : (cs : Changes) (m : Memory) → (change_all cs m).saved ≡ m.saved
unfolding change_all change
change_all-saved [] m = refl
change_all-saved ((k, v) ∷ cs) m =
    let g : Memory = record m { current = insert k v m.current } in
    change_all-saved cs (change k v m) ∙ mark_dirty-saved k g

change_all-current :
    (n : ℕ) (cs : Changes) (m : Memory)
    → lookup n (change_all cs m).current ≡ latest n cs (lookup n m.current)
unfolding change_all change
change_all-current n [] m = refl
change_all-current n ((k, v) ∷ cs) m =
    let g : Memory = record m { current = insert k v m.current } in
    change_all-current n cs (change k v m)
    ∙ ap (λ d. latest n cs (lookup n d)) (mark_dirty-current k g)
    ∙ ap (latest n cs) (lookup-insert k n v m.current)

flush_store-current :
    (works : Bool) (k : ℕ) (m : Memory) → (flush_store works k m).0.current ≡ m.current
unfolding flush_store write_store
flush_store-current works k m =
    if-by {A = Memory × Bool} (λ p. p.0.current ≡ m.current) (elem k m.registered) _ _
      (λ e. elim (Option-cases (lookup k m.current)) [
        | inl none_yet ↦ simp none_yet refl
        | inr (w, e) ↦ simp e (
            if-by {A = Memory × Bool} (λ p. p.0.current ≡ m.current) works _ _ (λ e. refl)
              (λ e. refl))
      ])
      (λ e. refl)

-- The round of another store leaves the row.
flush_store-other :
    (n k : ℕ) (works : Bool) (m : Memory)
    → (n == k) ≡ false
    → lookup n (flush_store works k m).0.saved ≡ lookup n m.saved
unfolding flush_store write_store
flush_store-other n k works m other =
    let apart : (k == n) ≡ false = ground (arith, other) in
    if-by {A = Memory × Bool} (λ p. lookup n p.0.saved ≡ lookup n m.saved) (elem k m.registered) _ _
      (λ e. elim (Option-cases (lookup k m.current)) [
        | inl none_yet ↦ simp none_yet refl
        | inr (w, e) ↦ simp e (
            if-by {A = Memory × Bool} (λ p. lookup n p.0.saved ≡ lookup n m.saved) works _ _
              (λ on. lookup-insert k n w m.saved ∙ rw apart refl) (λ off. refl))
      ])
      (λ e. refl)

module _ (n : ℕ) where
  flush_now-other :
      (rs : List Round) (m : Memory)
      → elem n (names_of rs) ≡ false
      → (lookup n (flush_now rs m).0.saved ≡ lookup n m.saved)
        × (elem n (flush_now rs m).1 ≡ false)
        × (lookup n (flush_now rs m).0.current ≡ latest_of n rs (lookup n m.current))
  unfolding flush_now
  flush_now-other [] m e = (refl, refl, refl)
  flush_now-other (r ∷ rs) m e =
      let other : (n == r.name) ≡ false = ground (arith, e) in
      let others : elem n (names_of rs) ≡ false = ground (arith, e) in
      let g = (flush_store r.works r.name m).0 in
      let (saved, failed, current) = flush_now-other rs (change_all r.meanwhile g) others in
      (
        saved
            ∙ ap (lookup n) (change_all-saved r.meanwhile g)
            ∙ flush_store-other n r.name r.works m other,
        if-by (λ ns. elem n ns ≡ false) (flush_store r.works r.name m).1 _ _ (λ k. failed)
            (λ k. ground (arith, failed, other)),
        current
            ∙ ap (latest_of n rs) (
                change_all-current n r.meanwhile g
                ∙ ap (λ d. latest n r.meanwhile (lookup n d))
                    (flush_store-current r.works r.name m)),
      )

  elem-keep : (p : ℕ → Bool) (xs : List ℕ) → p n ≡ false → elem n (keep p xs) ≡ false
  elem-keep p [] h = refl
  elem-keep p (x ∷ xs) h = elim (Bool-cases (n == x)) [
    | inl same ↦
        let here : p x ≡ false = subst (λ k. p k ≡ false) ((==_iff n x).0 same) h in
        rw here (elem-keep p xs h)
    | inr other ↦
        if-by (λ ns. elem n ns ≡ false) (p x) _ _ (λ e. ground (arith, other, elem-keep p xs h))
          (λ e. elem-keep p xs h)
  ]

  not_empty : (xs : List ℕ) → elem n xs ≡ true → (length xs == 0) ≡ false
  not_empty [] h = absurd (ground arith)
  not_empty (x ∷ xs) h = ground arith

debounced_flush-settle :
    (rs : List Round) (m : Memory)
    → m.has_db ≡ true
    → (length m.dirty == 0) ≡ false
    → debounced_flush rs m ≡ settle (names_of rs) (flush_now rs m)
unfolding debounced_flush
debounced_flush-settle rs m db some_dirty = rw (db, some_dirty) refl

flush_store-written :
    (n v : ℕ) (m : Memory)
    → elem n m.registered ≡ true
    → lookup n m.current ≡ some v
    → flush_store true n m ≡ (record m { saved = insert n v m.saved }, true)
unfolding flush_store write_store
flush_store-written n v m reg cur = simp (reg, cur) refl

-- A flush forgets what changes after a store is written: when the first round is of a registered
-- store that is dirty and has contents, the statement works, a database is set, and no later round is
-- of this store, then whatever changes in this round and in the later ones, and whether or not the
-- statements of the later ones work, at the end the table has the old contents, the memory has what
-- the changes have made of them, and the store is not dirty, so that the next flush passes it over.
pub debounced_flush-forgets :
    (n old : ℕ) (cs : Changes) (rest : List Round) (m : Memory)
    → m.has_db ≡ true
    → elem n m.registered ≡ true
    → elem n m.dirty ≡ true
    → lookup n m.current ≡ some old
    → elem n (names_of rest) ≡ false
    → let first : Round = record { name = n; works = true; meanwhile = cs } in
      let g = debounced_flush (first ∷ rest) m in
      (lookup n g.saved ≡ some old)
      × (lookup n g.current ≡ latest_of n (first ∷ rest) (some old))
      × (elem n g.dirty ≡ false)
unfolding settle flush_now
debounced_flush-forgets n old cs rest m db reg dirty cur others =
    let written : Memory = record m { saved = insert n old m.saved } in
    let (saved, failed, current) = flush_now-other n rest (change_all cs written) others in
    rw
      (
        debounced_flush-settle (record { name = n; works = true; meanwhile = cs } ∷ rest) m db
            (not_empty n m.dirty dirty),
        flush_store-written n old m reg cur,
      )
      (
        saved ∙ ap (lookup n) (change_all-saved cs written) ∙ lookup-insert_self n old m.saved,
        current ∙ ap (latest_of n rest) (change_all-current n cs written ∙ ap (latest n cs) cur),
        elem-keep n
            (λ k. not (
              elem k (n ∷ names_of rest)
              && not (elem k (flush_now rest (change_all cs written)).1)))
            (flush_now rest (change_all cs written)).0.dirty (ground (arith, failed, ==_refl n)),
      )
