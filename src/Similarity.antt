-- ===== src/Similarity.antt =====
-- `SimilarityGate` of similarity.py: the texts that each sender's alerts had lately, and the block
-- on a reworded one. Scores are in millionths; the ratio of `difflib` is a parameter. The text comes
-- as `normalize_for_fingerprint` gives it.
pub mod Hits
pub mod Memory
mod Tests
use telegram_br.Base.{
  ℕ, zero, suc, ◌+◌, ◌-◌, ◌*◌, ◌/◌, ◌%◌, ◌≤◌, ◌<◌, min, max, ◌≡◌, refl, sym, ap, ◌∙◌, ◌≢◌, ◌↔◌, ◌⊎◌,
  inl, inr, Bool, true, false, not, ◌&&◌, ◌||◌, Option, none, some, List, [], ◌∷◌, ◌++◌, map, arith,
  ltb, leb, ◌==◌, if◌then◌else◌, is_some, Bool-cases, Option-cases, Time, seconds, length,
  get_elem?, take, drop, keep, any, count_by, All, length-append, length-drop, elem, distinct, Dict,
  lookup, insert, erase, insert_last, keep_last, lookup-insert, lookup-insert_self, lookup-erase,
  lookup-insert_last, length-insert-le, length-erase-le, ==_iff, ==_refl, leb_iff, ltb_iff,
  length-keep-le, lookup-append,
}
use telegram_br.Texts.{Text, is_empty, is_space, strip}

abbrev pub same_text : Text → Text → Bool
same_text [] [] = true
same_text [] (d ∷ t) = false
same_text (c ∷ s) [] = false
same_text (c ∷ s) (d ∷ t) = c == d && same_text s t

abbrev pub elem_text : Text → List Text → Bool
elem_text t [] = false
elem_text t (s ∷ ss) = same_text t s || elem_text t ss

-- The members of a set of texts.
abbrev distinct_texts : List Text → List Text
distinct_texts [] = []
distinct_texts (t ∷ ts) =
    let rest = distinct_texts ts in if elem_text t rest then rest else t ∷ rest

pub record Config : Type 0 where
  pub enabled : Bool
  pub threshold_setting : ℕ
  pub window_seconds : ℕ

-- `difflib.SequenceMatcher(None, a, b).ratio()`, and the digits that `\d` takes.
pub record Library : Type 0 where
  pub ratio : Text → Text → ℕ
  pub is_digit : ℕ → Bool

pub record Past : Type 0 where
  pub norm : Text
  pub ts : Time

pub record Stats : Type 0 where
  pub checked : ℕ
  pub recorded : ℕ
  pub blocked : ℕ
  pub evicted : ℕ
  pub skipped_anon : ℕ

pub record Gate : Type 0 where
  pub keep_texts : ℕ
  pub senders_max : ℕ
  pub recent : Dict (List Past)
  pub stats : Stats

abbrev pub init : ℕ → ℕ → Gate
init per_sender_keep senders_max = record {
  keep_texts = max 1 per_sender_keep;
  senders_max = max 64 senders_max;
  recent = [];
  stats = record { checked = 0; recorded = 0; blocked = 0; evicted = 0; skipped_anon = 0 };
}

-- `threshold`: from 0.5 to 0.999
abbrev pub threshold : Config → ℕ
threshold cfg = min 999000 (max 500000 cfg.threshold_setting)

abbrev pub window : Config → Time
window cfg = seconds cfg.window_seconds

-- Each run of whitespace as one blank.
unfoldable pub join_blanks : Bool → Text → Text
join_blanks after [] = []
join_blanks after (c ∷ t) =
    let skipped = join_blanks true t in
    let kept = join_blanks false t in
    if is_space c then (if after then skipped else 32 ∷ skipped) else c ∷ kept

abbrev underscores : Text → Text
underscores = map (λ c. if c == 32 then 95 else c)

-- The substrings of three characters.
abbrev triples : Text → List Text
triples [] = []
triples (a ∷ []) = []
triples (a ∷ b ∷ []) = []
triples (a ∷ b ∷ c ∷ t) = (a ∷ b ∷ c ∷ []) ∷ triples (b ∷ c ∷ t)

abbrev shingles_of : Text → List Text
shingles_of [] = []
shingles_of (c ∷ t) =
    if ltb (length (c ∷ t)) 3 then (c ∷ t) ∷ [] else distinct_texts (triples (c ∷ t))

-- `_shingles`
unfoldable pub shingles : Text → List Text
shingles t = shingles_of (underscores (strip (join_blanks false t)))

-- `jaccard`, in millionths
unfoldable pub jaccard : List Text → List Text → ℕ
jaccard a b =
    let inter = count_by (λ t. elem_text t b) a in
    if inter == 0 then 0 else inter * 1000000 / (length a + length b - inter)

-- `similarity_ratio`
unfoldable pub similarity_ratio : Library → Text → Text → ℕ
similarity_ratio lib a b = max (lib.ratio a b) (jaccard (shingles a) (shingles b))

unfoldable pub mask_digits : Library → Text → Text
mask_digits lib = map (λ c. if lib.is_digit c then 35 else c)

abbrev pub live_texts : Config → Time → List Past → List Past
live_texts cfg now = keep (λ (p : Past). leb (now - p.ts) (window cfg))

-- The bucket of a sender without its stale texts; an empty one leaves the gate.
abbrev pub store_live : ℕ → List Past → Dict (List Past) → Dict (List Past)
store_live i [] d = erase i d
store_live i (p ∷ ps) d = insert i (p ∷ ps) d

unfoldable pub gc_bucket :
    Config → ℕ → Time → Option (List Past) → Dict (List Past) → Dict (List Past)
gc_bucket cfg i now none d = d
gc_bucket cfg i now (some ps) d = store_live i (live_texts cfg now ps) d

-- `_gc_sender`
unfoldable pub gc_sender : Config → ℕ → Time → Dict (List Past) → Dict (List Past)
gc_sender cfg i now d = gc_bucket cfg i now (lookup i d) d

pub record Message : Type 0 where
  pub sender : ℕ
  pub text : Text
  pub norm : Text

abbrev pub bucket_of : Option (List Past) → List Past
bucket_of none = []
bucket_of (some ps) = ps

-- The bucket with the new text last, and no more texts than are kept.
abbrev pub push_text : ℕ → Time → Text → List Past → List Past
push_text n now norm ps =
    let all =
      keep (λ (p : Past). not (same_text p.norm norm)) ps
      ++ record { norm = norm; ts = now } ∷ [] in
    drop (length all - n) all

-- Room for a new sender: `_evict_sender` after its empty bucket.
abbrev pub add_sender : ℕ → ℕ → Option (List Past) → Dict (List Past) → Dict (List Past)
add_sender n i none d = keep_last n (d ++ (i, []) ∷ [])
add_sender n i (some ps) d = d

abbrev pub evictions : ℕ → Option (List Past) → Dict (List Past) → ℕ
evictions n none d = length d + 1 - n
evictions n (some ps) d = 0

abbrev pub count_checked : Gate → Gate
count_checked g = record g { stats = record g.stats { checked = g.stats.checked + 1 } }

module _ (cfg : Config) (lib : Library) where
  -- The texts that are compared: within the window, and not the same but for digits.
  abbrev pub is_compared : Time → Text → Past → Bool
  is_compared now norm p =
      leb (now - p.ts) (window cfg)
      && not (same_text (mask_digits lib norm) (mask_digits lib p.norm))

  unfoldable pub best_score : Time → Text → List Past → ℕ
  best_score now norm [] = 0
  best_score now norm (p ∷ ps) =
      let rest = best_score now norm ps in
      if is_compared now norm p then max (similarity_ratio lib norm p.norm) rest else rest

  unfoldable pub record_text : Time → Message → Dict (List Past) → Gate → Gate
  record_text now m d g =
      let old = lookup m.sender d in
      record g {
        recent =
            insert m.sender (push_text g.keep_texts now m.norm (bucket_of old))
              (add_sender g.senders_max m.sender old d);
        stats = record g.stats {
          recorded = g.stats.recorded + 1;
          evicted = g.stats.evicted + evictions g.senders_max old d;
        };
      }

  -- The comparison with the texts that are left, and what follows.
  unfoldable pub compare_and_record : Time → Message → Dict (List Past) → Gate → Gate × Option ℕ
  compare_and_record now m d g =
      let score = best_score now m.norm (bucket_of (lookup m.sender d)) in
      if leb (threshold cfg) score
      then (
        record g { recent = d; stats = record g.stats { blocked = g.stats.blocked + 1 } },
        some score,
      )
      else (record_text now m d g, none)

  -- `check_and_record`, with the score of a hit
  unfoldable pub check_and_record : Time → Message → Gate → Gate × Option ℕ
  check_and_record now m g =
      if not cfg.enabled || is_empty (strip m.text)
      then (g, none)
      else (if m.sender == 0
          then (
            record g { stats = record g.stats { skipped_anon = g.stats.skipped_anon + 1 } },
            none,
          )
          else (if cfg.window_seconds == 0
              then (g, none)
              else (if ltb (length m.norm) 6
                  then (count_checked g, none)
                  else compare_and_record now m (gc_sender cfg m.sender now g.recent)
                      (count_checked g))))
