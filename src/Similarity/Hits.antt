-- ===== src/Similarity/Hits.antt =====
-- What `SimilarityGate` (similarity.py) blocks.
use telegram_br.Base.{
  ℕ, ◌-◌, ◌≤◌, ◌<◌, ◌≡◌, refl, ap, ◌∙◌, inl, inr, Bool, true, false, ◌&&◌, Option, none, some, List,
  [], ◌∷◌, arith, ltb, leb, ◌==◌, is_some, Bool-cases, Time, length, any, Dict, lookup,
  lookup-insert_self, lookup-erase, ==_refl,
}
use telegram_br.Texts.{Text, is_empty, strip}
use telegram_br.Similarity.{
  Config, Library, Past, Gate, threshold, window, similarity_ratio, live_texts, store_live,
  gc_bucket, gc_sender, Message, is_compared, best_score, bucket_of, compare_and_record,
  count_checked, check_and_record,
}

-- A text that counts as the same alert, in other words, within the window.
abbrev pub is_reworded : Config → Library → Time → Text → Past → Bool
is_reworded cfg lib now norm p =
    is_compared cfg lib now norm p && leb (threshold cfg) (similarity_ratio lib norm p.norm)

best_score-any :
    (cfg : Config) (lib : Library) (now : Time) (norm : Text) (ps : List Past)
    → leb (threshold cfg) (best_score cfg lib now norm ps) ≡ any (is_reworded cfg lib now norm) ps
unfolding best_score
best_score-any cfg lib now norm [] = ground arith
best_score-any cfg lib now norm (p ∷ ps) =
    let rest = best_score-any cfg lib now norm ps in
    elim (Bool-cases (is_compared cfg lib now norm p)) [
      | inl counts ↦ rw counts (ground (arith, rest))
      | inr passed ↦ rw passed rest
    ]

any-live_texts :
    (cfg : Config) (lib : Library) (now : Time) (norm : Text) (ps : List Past)
    → any (is_reworded cfg lib now norm) (live_texts cfg now ps)
      ≡ any (is_reworded cfg lib now norm) ps
any-live_texts cfg lib now norm [] = refl
any-live_texts cfg lib now norm (p ∷ ps) =
    let rest = any-live_texts cfg lib now norm ps in
    elim (Bool-cases (leb (now - p.ts) (window cfg))) [
      | inl live ↦ simp (live, rest) refl
      | inr stale ↦ simp (stale, rest) refl
    ]

bucket_of-store_live :
    (i : ℕ) (ps : List Past) (d : Dict (List Past)) → bucket_of (lookup i (store_live i ps d)) ≡ ps
bucket_of-store_live i [] d = rw (lookup-erase i i d, ==_refl i) refl
bucket_of-store_live i (p ∷ ps) d = rw (lookup-insert_self i (p ∷ ps) d) refl

bucket_of-gc_bucket :
    (cfg : Config) (i : ℕ) (now : Time) (o : Option (List Past)) (d : Dict (List Past))
    → lookup i d ≡ o
    → bucket_of (lookup i (gc_bucket cfg i now o d)) ≡ live_texts cfg now (bucket_of o)
unfolding gc_bucket
bucket_of-gc_bucket cfg i now none d e = rw e refl
bucket_of-gc_bucket cfg i now (some ps) d e = bucket_of-store_live i (live_texts cfg now ps) d

compare_and_record-hit :
    (cfg : Config) (lib : Library) (now : Time) (m : Message) (d : Dict (List Past)) (g : Gate)
    → is_some (compare_and_record cfg lib now m d g).1
      ≡ leb (threshold cfg) (best_score cfg lib now m.norm (bucket_of (lookup m.sender d)))
unfolding compare_and_record
compare_and_record-hit cfg lib now m d g =
    let score = best_score cfg lib now m.norm (bucket_of (lookup m.sender d)) in
    elim (Bool-cases (leb (threshold cfg) score)) [
      | inl high ↦ rw high refl
      | inr low ↦ rw low refl
    ]

-- With the gate on, an alert of a known sender, not too short, is blocked exactly if one of the
-- texts on record for the sender was recorded within the window, is similar enough, and is not the
-- same but for digits.
pub check_and_record-hit :
    (cfg : Config) (lib : Library) (now : Time) (m : Message) (g : Gate)
    → cfg.enabled ≡ true
    → is_empty (strip m.text) ≡ false
    → 0 < m.sender
    → 0 < cfg.window_seconds
    → 6 ≤ length m.norm
    → is_some (check_and_record cfg lib now m g).1
      ≡ any (is_reworded cfg lib now m.norm) (bucket_of (lookup m.sender g.recent))
unfolding check_and_record gc_sender
check_and_record-hit cfg lib now m g on words sender real long =
    let known : (m.sender == 0) ≡ false = ground arith in
    let open_window : (cfg.window_seconds == 0) ≡ false = ground arith in
    let enough : ltb (length m.norm) 6 ≡ false = ground arith in
    let d = gc_bucket cfg m.sender now (lookup m.sender g.recent) g.recent in
    simp (on, words, known, open_window, enough)
      (compare_and_record-hit cfg lib now m d (count_checked g)
        ∙ best_score-any cfg lib now m.norm (bucket_of (lookup m.sender d))
        ∙ ap (any (is_reworded cfg lib now m.norm))
            (bucket_of-gc_bucket cfg m.sender now (lookup m.sender g.recent) g.recent refl)
        ∙ any-live_texts cfg lib now m.norm (bucket_of (lookup m.sender g.recent)))
