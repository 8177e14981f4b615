-- ===== src/BlockList/Refinement.antt =====
-- The cached block list answers as the plain set of blocked ids does.
use telegram_br.Base.{
  ℕ, zero, suc, ◌+◌, ◌/◌, ◌≡◌, refl, sym, ◌∙◌, inl, inr, Bool, true, false, not, ◌&&◌, ◌||◌, Option,
  none, some, List, [], ◌∷◌, arith, ltb, leb, ◌==◌, if◌then◌else◌, Bool-cases, Option-cases, if-by,
  Time, length, take, keep, All, elem, Dict, lookup, insert, erase, ==_refl,
}
use telegram_br.BlockList.{
  Blocks, Reads, prune_size, insert_entry, sort_by_expiry, prune_blocked_cache, cached_answer,
  time_to_live, read_table, answer_or_read, is_blocked, block, unblock,
}

pub data Command : Type 0 where
  blocks : ℕ → Command
  unblocks : ℕ → Command
  asks : ℕ → Time → Command

abbrev working : Reads
working = record { first = true; second = true }

-- The answers of the block list with its cache, as long as the database works.
unfoldable pub answers : ℕ → List Command → Blocks → List Bool
answers setting [] b = []
answers setting (blocks k ∷ cs) b = answers setting cs (block true k b)
answers setting (unblocks k ∷ cs) b = answers setting cs (unblock true k b)
answers setting (asks k now ∷ cs) b =
    let (b', answer) = is_blocked setting k now working b in answer ∷ answers setting cs b'

-- The specification: a set of ids, as a function, with no cache and no time.
unfoldable pub specified : List Command → (ℕ → Bool) → List Bool
specified [] member = []
specified (blocks k ∷ cs) member = specified cs (λ j. j == k || member j)
specified (unblocks k ∷ cs) member = specified cs (λ j. not (j == k) && member j)
specified (asks k now ∷ cs) member = member k ∷ specified cs member

-- Every answer in the cache is that of the table.
abbrev pub Agrees : List ℕ → Dict (Bool × Time) → Type 0
Agrees table = All (λ e. e.1.0 ≡ elem e.0 table)

module _ (table : List ℕ) where
  insert_entry-Agrees :
      (x : ℕ × (Bool × Time)) (d : Dict (Bool × Time))
      → x.1.0 ≡ elem x.0 table
      → Agrees table d
      → Agrees table (insert_entry x d)
  unfolding insert_entry
  insert_entry-Agrees x [] h a = (h, tt)
  insert_entry-Agrees x (y ∷ d) h (k, a) =
      if-by (Agrees table) (leb y.1.1 x.1.1) _ _ (λ e. (h, (k, a)))
        (λ e. (k, insert_entry-Agrees x d h a))

  sort_by_expiry-Agrees :
      (d : Dict (Bool × Time)) → Agrees table d → Agrees table (sort_by_expiry d)
  unfolding sort_by_expiry
  sort_by_expiry-Agrees [] a = tt
  sort_by_expiry-Agrees (x ∷ d) (h, a) =
      insert_entry-Agrees x (sort_by_expiry d) h (sort_by_expiry-Agrees d a)

  keep-Agrees :
      (p : ℕ × (Bool × Time) → Bool) (d : Dict (Bool × Time))
      → Agrees table d
      → Agrees table (keep p d)
  keep-Agrees p [] a = tt
  keep-Agrees p (x ∷ d) (h, a) =
      if-by (Agrees table) (p x) _ _ (λ e. (h, keep-Agrees p d a)) (λ e. keep-Agrees p d a)

  take-Agrees : (n : ℕ) (d : Dict (Bool × Time)) → Agrees table d → Agrees table (take n d)
  take-Agrees zero d a = tt
  take-Agrees (suc n) [] a = tt
  take-Agrees (suc n) (x ∷ d) (h, a) = (h, take-Agrees n d a)

  insert-Agrees :
      (k : ℕ) (v : Bool × Time) (d : Dict (Bool × Time))
      → v.0 ≡ elem k table
      → Agrees table d
      → Agrees table (insert k v d)
  insert-Agrees k v [] h a = (h, tt)
  insert-Agrees k v ((j, w) ∷ d) h (e, a) =
      if-by (Agrees table) (j == k) _ _ (λ s. (h, a)) (λ s. (e, insert-Agrees k v d h a))

  prune-Agrees :
      (now : Time) (d : Dict (Bool × Time))
      → Agrees table d
      → Agrees table (prune_blocked_cache now d)
  unfolding prune_blocked_cache
  prune-Agrees now d a =
      let live = keep-Agrees (λ e. ltb now e.1.1) d a in
      if-by (Agrees table) (leb (length d) prune_size) _ _ (λ e. a)
        (λ e.
          if-by (Agrees table) (leb (length (keep (λ e. ltb now e.1.1) d)) prune_size) _ _
            (λ e. live) (λ e. take-Agrees (prune_size / 2) _ (sort_by_expiry-Agrees _ live)))

  lookup-Agrees :
      (k : ℕ) (e : Bool × Time) (d : Dict (Bool × Time))
      → lookup k d ≡ some e
      → Agrees table d
      → e.0 ≡ elem k table
  lookup-Agrees k e [] l a = absurd (ground arith)
  lookup-Agrees k e ((j, w) ∷ d) l (h, a) = elim (Bool-cases (j == k)) [
    | inl same ↦
        (let eq : j ≡ k = ground arith in let value : w ≡ e = ground arith in rw (← value, ← eq) h)
    | inr other ↦ lookup-Agrees k e d (ground arith) a
  ]

cached_answer-Agrees :
    (table : List ℕ) (k : ℕ) (now : Time) (answer : Bool) (d : Dict (Bool × Time))
    → cached_answer now (lookup k d) ≡ some answer
    → Agrees table d
    → answer ≡ elem k table
unfolding cached_answer
cached_answer-Agrees table k now answer d h a = elim (Option-cases (lookup k d)) [
  | inl e ↦
      (let none_hit : cached_answer now none ≡ some answer = rw e at h in absurd (ground arith))
  | inr (v, e) ↦
      (let value : cached_answer now (some v) ≡ some answer = rw e at h in
        let same : v.0 ≡ answer = ground arith in sym same ∙ lookup-Agrees table k v d e a)
]

-- A change of the table at one id, which the cache forgets.
erase-Agrees :
    (table table' : List ℕ) (k : ℕ) (d : Dict (Bool × Time))
    → ((j : ℕ) → (j == k) ≡ false → elem j table' ≡ elem j table)
    → Agrees table d
    → Agrees table' (erase k d)
erase-Agrees table table' k [] h a = tt
erase-Agrees table table' k ((j, w) ∷ d) h (e, a) =
    let rest = erase-Agrees table table' k d h a in
    if-by (Agrees table') (j == k) _ _ (λ same. rest) (λ other. (e ∙ sym (h j other), rest))

elem-keep :
    (j k : ℕ) (xs : List ℕ) → elem j (keep (λ i. not (i == k)) xs) ≡ (not (j == k) && elem j xs)
elem-keep j k [] = ground arith
elem-keep j k (x ∷ xs) = ground (arith, elem-keep j k xs)

-- The table of the list holds the members, and the cache agrees with it.
record Refines (member : ℕ → Bool) (b : Blocks) : Type 0 where
  members : (j : ℕ) → member j ≡ elem j b.table
  agrees : Agrees b.table b.cache

block-Refines :
    (member : ℕ → Bool) (k : ℕ) (b : Blocks)
    → Refines member b
    → Refines (λ j. j == k || member j) (block true k b)
unfolding block
block-Refines member k b r =
    let table = if elem k b.table then b.table else k ∷ b.table in
    record {
      members = λ j. elim (Bool-cases (j == k)) [
        | inl same ↦ (let eq : j ≡ k = ground arith in rw eq (ground (arith, ==_refl k)))
        | inr other ↦ ground (arith, r.members j)
      ];
      agrees = erase-Agrees b.table table k b.cache (λ j other. ground arith) r.agrees;
    }

unblock-Refines :
    (member : ℕ → Bool) (k : ℕ) (b : Blocks)
    → Refines member b
    → Refines (λ j. not (j == k) && member j) (unblock true k b)
unfolding unblock
unblock-Refines member k b r = record {
  members = λ j. rw (r.members j) (sym (elem-keep j k b.table));
  agrees =
      erase-Agrees b.table (keep (λ i. not (i == k)) b.table) k b.cache
        (λ j other. elem-keep j k b.table ∙ rw other refl) r.agrees;
}

answer_or_read-Refines :
    (setting : ℕ) (member : ℕ → Bool) (k : ℕ) (now : Time) (b : Blocks) (o : Option Bool)
    → ((answer : Bool) → o ≡ some answer → answer ≡ elem k b.table)
    → Refines member b
    → let p = answer_or_read setting k now working b o in (p.1 ≡ member k) × Refines member p.0
unfolding answer_or_read read_table
answer_or_read-Refines setting member k now b (some answer) h r =
    (h answer refl ∙ sym (r.members k), r)
answer_or_read-Refines setting member k now b none h r = (
  sym (r.members k),
  record {
    members = r.members;
    agrees = prune-Agrees b.table now _ (
        insert-Agrees b.table k (elem k b.table, now + time_to_live setting) b.cache refl r.agrees);
  },
)

is_blocked-Refines :
    (setting : ℕ) (member : ℕ → Bool) (k : ℕ) (now : Time) (b : Blocks)
    → Refines member b
    → let p = is_blocked setting k now working b in (p.1 ≡ member k) × Refines member p.0
unfolding is_blocked
is_blocked-Refines setting member k now b r =
    answer_or_read-Refines setting member k now b (cached_answer now (lookup k b.cache))
      (λ answer hit. cached_answer-Agrees b.table k now answer b.cache hit r.agrees) r

answers-by :
    (setting : ℕ) (cs : List Command) (member : ℕ → Bool) (b : Blocks)
    → Refines member b
    → answers setting cs b ≡ specified cs member
unfolding answers specified
answers-by setting [] member b r = refl
answers-by setting (blocks k ∷ cs) member b r =
    answers-by setting cs (λ j. j == k || member j) (block true k b) (block-Refines member k b r)
answers-by setting (unblocks k ∷ cs) member b r =
    answers-by setting cs (λ j. not (j == k) && member j) (unblock true k b)
      (unblock-Refines member k b r)
answers-by setting (asks k now ∷ cs) member b r =
    let step = is_blocked-Refines setting member k now b r in
    let rest = answers-by setting cs member (is_blocked setting k now working b).0 step.1 in
    rw (step.0, rest) refl

-- The block list implements the plain set: whatever is blocked, unblocked and asked, at whatever times, each answer is
-- the one that the set gives, although most come from the cache. The calls follow one another, this process alone
-- changes the table, the database works, and the cache agrees with the table at the start.
pub answers-specified :
    (setting : ℕ) (cs : List Command) (b : Blocks)
    → Agrees b.table b.cache
    → answers setting cs b ≡ specified cs (λ j. elem j b.table)
answers-specified setting cs b a =
    answers-by setting cs (λ j. elem j b.table) b (record { members = λ j. refl; agrees = a })
