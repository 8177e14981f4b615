-- ===== src/Similarity/Memory.antt =====
-- The memory of `SimilarityGate` (similarity.py): bounded senders, and bounded texts of each.
use telegram_br.Base.{
  ℕ, zero, suc, ◌+◌, ◌-◌, ◌≤◌, ◌<◌, max, ◌≡◌, refl, ap, inl, inr, true, not, ◌||◌, Option, none,
  some, List, [], ◌∷◌, ◌++◌, arith, ltb, leb, ◌==◌, is_some, Bool-cases, Time, length, drop, keep,
  All, length-append, length-drop, Dict, lookup, insert, erase, length-erase-le, length-keep-le,
  lookup-drop-append, length-keep_last-le,
}
use telegram_br.Texts.{Text, is_empty, strip}
use telegram_br.Similarity.{
  Config, Library, Past, Gate, init, threshold, window, same_text, live_texts, store_live,
  gc_bucket, gc_sender, Message, best_score, bucket_of, push_text, add_sender, record_text,
  compare_and_record, count_checked, check_and_record,
}

-- The gate after the alerts of these messages, each checked at its time.
abbrev pub check_all : Config → Library → List (Time × Message) → Gate → Gate
check_all cfg lib [] g = g
check_all cfg lib ((now, m) ∷ ms) g = check_all cfg lib ms (check_and_record cfg lib now m g).0

-- At most so many senders, and at most so many texts of each.
pub IsSmall : ℕ → ℕ → Dict (List Past) → Type 0
IsSmall n k d = (length d ≤ n) × All (λ (e : ℕ × List Past). length e.1 ≤ k) d

pub IsBounded : ℕ → ℕ → Gate → Type 0
IsBounded n k g = (g.senders_max ≡ n) × (g.keep_texts ≡ k) × IsSmall n k g.recent

length-insert :
    (i : ℕ) (v : List Past) (d : Dict (List Past))
    → is_some (lookup i d) ≡ true
    → length (insert i v d) ≡ length d
length-insert i v [] e = absurd (ground arith)
length-insert i v ((j, w) ∷ d) e = ground (arith, length-insert i v d)

module _ (n k : ℕ) where
  abbrev AllSmall : Dict (List Past) → Type 0
  AllSmall d = All (λ (e : ℕ × List Past). length e.1 ≤ k) d

  insert-AllSmall :
      (i : ℕ) (v : List Past) (d : Dict (List Past))
      → length v ≤ k
      → AllSmall d
      → AllSmall (insert i v d)
  insert-AllSmall i v [] h w = (h, tt)
  insert-AllSmall i v ((j, u) ∷ d) h (g, w) = elim (Bool-cases (j == i)) [
    | inl here ↦ rw here (h, w)
    | inr other ↦ rw other (g, insert-AllSmall i v d h w)
  ]

  erase-AllSmall : (i : ℕ) (d : Dict (List Past)) → AllSmall d → AllSmall (erase i d)
  erase-AllSmall i [] w = w
  erase-AllSmall i ((j, u) ∷ d) (g, w) = elim (Bool-cases (j == i)) [
    | inl here ↦ rw here (erase-AllSmall i d w)
    | inr other ↦ rw other (g, erase-AllSmall i d w)
  ]

  drop-AllSmall : (a : ℕ) (d : Dict (List Past)) → AllSmall d → AllSmall (drop a d)
  drop-AllSmall zero d w = w
  drop-AllSmall (suc a) [] w = w
  drop-AllSmall (suc a) (e ∷ d) (g, w) = drop-AllSmall a d w

  append-AllSmall : (i : ℕ) (d : Dict (List Past)) → AllSmall d → AllSmall (d ++ (i, []) ∷ [])
  append-AllSmall i [] w = (omega arith, tt)
  append-AllSmall i (e ∷ d) (g, w) = (g, append-AllSmall i d w)

  lookup-AllSmall :
      (i : ℕ) (d : Dict (List Past)) → AllSmall d → length (bucket_of (lookup i d)) ≤ k
  lookup-AllSmall i [] w = omega arith
  lookup-AllSmall i ((j, u) ∷ d) (g, w) = elim (Bool-cases (j == i)) [
    | inl here ↦ rw here g
    | inr other ↦ rw other (lookup-AllSmall i d w)
  ]

  store_live-IsSmall :
      (i : ℕ) (ps : List Past) (d : Dict (List Past))
      → is_some (lookup i d) ≡ true
      → length ps ≤ k
      → IsSmall n k d
      → IsSmall n k (store_live i ps d)
  unfolding IsSmall
  store_live-IsSmall i [] d e h (l, w) = (omega (arith, length-erase-le i d), erase-AllSmall i d w)
  store_live-IsSmall i (p ∷ ps) d e h (l, w) =
      (rw (length-insert i (p ∷ ps) d e) l, insert-AllSmall i (p ∷ ps) d h w)

  gc_bucket-IsSmall :
      (cfg : Config) (i : ℕ) (now : Time) (o : Option (List Past)) (d : Dict (List Past))
      → lookup i d ≡ o
      → IsSmall n k d
      → IsSmall n k (gc_bucket cfg i now o d)
  unfolding gc_bucket IsSmall
  gc_bucket-IsSmall cfg i now none d e w = w
  gc_bucket-IsSmall cfg i now (some ps) d e (l, w) =
      let few : length ps ≤ k =
        omega (arith, lookup-AllSmall i d w, ap (λ o. length (bucket_of o)) e) in
      store_live-IsSmall i (live_texts cfg now ps) d (rw e refl)
        (omega (arith, length-keep-le (λ p. leb (now - p.ts) (window cfg)) ps)) (l, w)

  -- A sender who is there already, or who gets the last place.
  add_sender-IsSmall :
      (i : ℕ) (o : Option (List Past)) (d : Dict (List Past))
      → 0 < n
      → lookup i d ≡ o
      → IsSmall n k d
      → IsSmall n k (add_sender n i o d) × (is_some (lookup i (add_sender n i o d)) ≡ true)
  unfolding IsSmall
  add_sender-IsSmall i none d room e (l, w) =
      let all = d ++ (i, []) ∷ [] in
      (
        (length-keep_last-le n all, drop-AllSmall (length all - n) all (append-AllSmall i d w)),
        rw
            (lookup-drop-append (length all - n) i [] d
              (omega (arith, length-append d ((i, []) ∷ []))) e)
            refl,
      )
  add_sender-IsSmall i (some ps) d room e w = (w, rw e refl)

  length-push_text-le :
      (now : Time) (norm : Text) (ps : List Past) → length (push_text k now norm ps) ≤ k
  length-push_text-le now norm ps =
      let all =
        keep (λ (p : Past). not (same_text p.norm norm)) ps
        ++ record { norm = norm; ts = now } ∷ [] in
      omega (arith, length-drop (length all - k) all)

  record_text-IsBounded :
      (now : Time) (m : Message) (d : Dict (List Past)) (g : Gate) (cfg : Config) (lib : Library)
      → 0 < n
      → g.senders_max ≡ n
      → g.keep_texts ≡ k
      → IsSmall n k d
      → IsBounded n k (record_text cfg lib now m d g)
  unfolding record_text IsBounded IsSmall
  record_text-IsBounded now m d g cfg lib room s t w =
      let ((l, v), there) = add_sender-IsSmall m.sender (lookup m.sender d) d room refl w in
      let text = push_text k now m.norm (bucket_of (lookup m.sender d)) in
      (
        s,
        t,
        simp (s, t)
            (
              rw (length-insert m.sender text (add_sender n m.sender (lookup m.sender d) d) there)
                  l,
              insert-AllSmall m.sender text (add_sender n m.sender (lookup m.sender d) d)
                  (length-push_text-le now m.norm (bucket_of (lookup m.sender d))) v,
            ),
      )

  blocked-IsBounded :
      (d : Dict (List Past)) (g : Gate)
      → g.senders_max ≡ n
      → g.keep_texts ≡ k
      → IsSmall n k d
      → IsBounded n k
          (record g { recent = d; stats = record g.stats { blocked = g.stats.blocked + 1 } })
  unfolding IsBounded
  blocked-IsBounded d g s t w = (s, t, w)

  compare_and_record-IsBounded :
      (now : Time) (m : Message) (d : Dict (List Past)) (g : Gate) (cfg : Config) (lib : Library)
      → 0 < n
      → g.senders_max ≡ n
      → g.keep_texts ≡ k
      → IsSmall n k d
      → IsBounded n k (compare_and_record cfg lib now m d g).0
  unfolding compare_and_record
  compare_and_record-IsBounded now m d g cfg lib room s t w =
      elim (Bool-cases
        (leb (threshold cfg) (best_score cfg lib now m.norm (bucket_of (lookup m.sender d))))) [
          | inl high ↦ rw high (blocked-IsBounded d g s t w)
          | inr low ↦ rw low (record_text-IsBounded now m d g cfg lib room s t w)
        ]

  check_and_record-IsBounded :
      (now : Time) (m : Message) (g : Gate) (cfg : Config) (lib : Library)
      → 0 < n
      → IsBounded n k g
      → IsBounded n k (check_and_record cfg lib now m g).0
  unfolding check_and_record gc_sender IsBounded
  check_and_record-IsBounded now m g cfg lib room (s, t, w) =
      let d = gc_bucket cfg m.sender now (lookup m.sender g.recent) g.recent in
      elim (Bool-cases (not cfg.enabled || is_empty (strip m.text))) [
        | inl off ↦ rw off (s, t, w)
        | inr on ↦ elim (Bool-cases (m.sender == 0)) [
          | inl nobody ↦ rw (on, nobody) (s, t, w)
          | inr known ↦ elim (Bool-cases (cfg.window_seconds == 0)) [
            | inl shut ↦ rw (on, known, shut) (s, t, w)
            | inr wide ↦ elim (Bool-cases (ltb (length m.norm) 6)) [
              | inl short ↦ rw (on, known, wide, short) (s, t, w)
              | inr long ↦
                  rw (on, known, wide, long)
                    (compare_and_record-IsBounded now m d (count_checked g) cfg lib room s t (
                      gc_bucket-IsSmall cfg m.sender now (lookup m.sender g.recent) g.recent refl
                        w))
            ]
          ]
        ]
      ]

  check_all-IsBounded :
      (ms : List (Time × Message)) (g : Gate) (cfg : Config) (lib : Library)
      → 0 < n
      → IsBounded n k g
      → IsBounded n k (check_all cfg lib ms g)
  check_all-IsBounded [] g cfg lib room w = w
  check_all-IsBounded ((now, m) ∷ ms) g cfg lib room w =
      check_all-IsBounded ms (check_and_record cfg lib now m g).0 cfg lib room
        (check_and_record-IsBounded now m g cfg lib room w)

init-IsBounded :
    (per_sender senders : ℕ)
    → IsBounded (max 64 senders) (max 1 per_sender) (init per_sender senders)
unfolding IsBounded IsSmall
init-IsBounded per_sender senders = (refl, refl, (omega arith, tt))

-- Whatever alerts a new gate checks, it has no more senders on record than its limit, and no more
-- texts of any of them than theirs.
pub check_all-bounded :
    (cfg : Config) (lib : Library) (per_sender senders : ℕ) (ms : List (Time × Message))
    → let d = (check_all cfg lib ms (init per_sender senders)).recent in
      (length d ≤ max 64 senders) × All (λ e. length e.1 ≤ max 1 per_sender) d
unfolding IsBounded IsSmall
check_all-bounded cfg lib per_sender senders ms =
    (check_all-IsBounded (max 64 senders) (max 1 per_sender) ms (init per_sender senders) cfg lib
      (omega arith) (init-IsBounded per_sender senders)).2
