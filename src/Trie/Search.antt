-- ===== src/Trie/Search.antt =====
-- The searches for keywords (filter_engine.py): what is found, and that the quick tests and the
-- early returns lose nothing.
use telegram_br.Base.{
  ℕ, zero, suc, ◌+◌, ◌≤◌, ◌<◌, ◌≡◌, refl, sym, ap, ◌∙◌, inl, inr, Bool, true, false, Option, none,
  some, List, [], ◌∷◌, ◌++◌, arith, ltb, leb, if◌then◌else◌, Bool-cases, length, take, keep, All,
  length-append, append-nil, take-append,
}
use telegram_br.Texts.{Text, is_empty}
use telegram_br.Texts.Literals.{member, same, same_iff, member-All}
use telegram_br.Trie.{
  Info, new_node, build, max_word_len, max_depth, max_clitic_len, run_of_arabic_before, Match,
  placed, search_starts, found_at, weighted_trie, search_all, prefix_clitics, arabic_run,
  begins_word, turned, valid_word_boundary, search_all_valid,
}
use telegram_br.Trie.Words.{keyword, word_at-keyword, prefixes, prefixes-alike, walk-prefixes}

-- A text in which all Arabic letters right before a place are so many is not counted further.
arabic_run_mono : (before w : Text) → length w ≤ length (arabic_run before w)
arabic_run_mono [] w = omega arith
arabic_run_mono (c ∷ before) w = ground (arith, arabic_run_mono before (c ∷ w))

run_of_arabic_before-le :
    (n : ℕ) (before w : Text)
    → run_of_arabic_before n before + length w ≤ length (arabic_run before w) + n
unfolding run_of_arabic_before
run_of_arabic_before-le n [] w = omega arith
run_of_arabic_before-le n (c ∷ before) w = ground (
  arith,
  run_of_arabic_before-le (n + 1) before (c ∷ w),
  arabic_run_mono before (c ∷ w),
  arabic_run_mono before w,
)

clitics_short : All (λ w. length w ≤ max_clitic_len) prefix_clitics
clitics_short = omega arith

empty_short : (w : Text) → is_empty w ≡ true → length w ≤ max_clitic_len
empty_short [] e = omega arith
empty_short (c ∷ w) e = absurd (ground arith)

-- Where a word may begin, the quick test does not skip the place.
boundary_kept :
    (before : Text)
    → begins_word before ≡ true
    → ltb max_clitic_len (run_of_arabic_before 0 before) ≡ false
unfolding begins_word
boundary_kept before h =
    let w = arabic_run before [] in
    let short : length w ≤ max_clitic_len = elim (Bool-cases (is_empty w)) [
      | inl bare ↦ empty_short w bare
      | inr word ↦
          member-All (λ u. length u ≤ max_clitic_len) w prefix_clitics clitics_short
            (ground (arith, h, word))
    ] in
    ground (arith, short, run_of_arabic_before-le 0 before [])

turned-append : (b s t : Text) → turned b (s ++ t) ≡ turned b s ++ t
turned-append [] s t = refl
turned-append (c ∷ b) s t = turned-append b (c ∷ s) t

length-turned : (b s : Text) → length (turned b s) ≡ length b + length s
length-turned [] s = omega arith
length-turned (c ∷ b) s = omega (arith, length-turned b (c ∷ s))

turned_twice : (b s u : Text) → turned (turned b s) u ≡ turned s (b ++ u)
turned_twice [] s u = refl
turned_twice (c ∷ b) s u = turned_twice b (c ∷ s) u

-- The text before a place, turned around, is what the loop carries.
before_lem : (b t : Text) → turned (take (length b) (turned b t)) [] ≡ b
before_lem b t =
    let n : length b ≡ length (turned b []) = omega (arith, length-turned b []) in
    ap (λ s. turned (take (length b) s) []) (turned-append b [] t)
    ∙ ap (λ k. turned (take k (turned b [] ++ t)) []) n
    ∙ ap (λ s. turned s []) (take-append (turned b []) t)
    ∙ turned_twice b [] []
    ∙ append-nil b

-- A keyword of at most 60 letters.
unfoldable pub short_keyword : (Text → ℕ) → List Text → Text → Option Info
short_keyword weight words v = if leb (length v) 60 then keyword weight words v else none

-- The keywords of at most 60 letters among all beginnings of a text where a word may begin.
unfoldable pub keywords_at : (Text → ℕ) → List Text → Text → Text → List Info
keywords_at weight words before t =
    if begins_word before then prefixes (short_keyword weight words) (length t) [] t else []

prefixes-none :
    (f : Text → Option Info) (n : ℕ) (seen t : Text)
    → ((v : Text) → length seen < length v → f v ≡ none)
    → prefixes f n seen t ≡ []
unfolding prefixes
prefixes-none f zero seen t h = refl
prefixes-none f (suc n) seen [] h = refl
prefixes-none f (suc n) seen (c ∷ t) h =
    let longer : length (seen ++ c ∷ []) ≡ length seen + 1 =
      omega (arith, length-append seen (c ∷ [])) in
    rw
      (
        h (seen ++ c ∷ []) (omega (arith, longer)),
        prefixes-none f n (seen ++ c ∷ []) t (λ v l. h v (omega (arith, longer, l))),
      )
      refl

member-length :
    (v : Text) (words : List Text) → member v words ≡ true → length v ≤ max_word_len words
member-length v [] h = absurd (ground arith)
member-length v (w ∷ words) h = elim (Bool-cases (same v w)) [
  | inl here ↦ omega (arith, ap length ((same_iff v w).0 here))
  | inr other ↦ omega (arith, member-length v words (rw other at h))
]

-- No keyword of at most 60 letters is longer than the depth.
short_keyword-none :
    (weight : Text → ℕ) (words : List Text) (v : Text)
    → max_depth words < length v
    → short_keyword weight words v ≡ none
unfolding short_keyword keyword max_depth
short_keyword-none weight words v long = elim (Bool-cases (member v words)) [
  | inl listed ↦
      let few = member-length v words listed in
      let over : leb (length v) 60 ≡ false = ground (arith, few, long) in rw over refl
  | inr other ↦ ground (arith, other)
]

short_keyword-keyword :
    (weight : Text → ℕ) (words : List Text) (v : Text)
    → length v ≤ max_depth words
    → short_keyword weight words v ≡ keyword weight words v
unfolding short_keyword max_depth
short_keyword-keyword weight words v short =
    let under : leb (length v) 60 ≡ true = ground (arith, short) in rw under refl

-- The walk to the depth loses no keyword of at most 60 letters.
prefixes-short :
    (weight : Text → ℕ) (words : List Text) (n : ℕ) (seen t : Text)
    → n + length seen ≡ max_depth words
    → prefixes (keyword weight words) n seen t
      ≡ prefixes (short_keyword weight words) (length t) seen t
unfolding prefixes
prefixes-short weight words zero seen t d = sym (
    prefixes-none (short_keyword weight words) (length t) seen t
      (λ v l. short_keyword-none weight words v (omega (arith, l, d))))
prefixes-short weight words (suc n) seen [] d = refl
prefixes-short weight words (suc n) seen (c ∷ t) d =
    let longer : length (seen ++ c ∷ []) ≡ length seen + 1 =
      omega (arith, length-append seen (c ∷ [])) in
    let short = short_keyword-keyword weight words (seen ++ c ∷ []) (omega (arith, longer, d)) in
    let rest = prefixes-short weight words n (seen ++ c ∷ []) t (omega (arith, longer, d)) in
    rw (short, rest) refl

keep-append : (p : Match → Bool) (xs ys : List Match) → keep p (xs ++ ys) ≡ keep p xs ++ keep p ys
keep-append p [] ys = refl
keep-append p (x ∷ xs) ys = elim (Bool-cases (p x)) [
  | inl held ↦ rw (held, keep-append p xs ys) refl
  | inr lost ↦ rw (lost, keep-append p xs ys) refl
]

keep-placed :
    (q : ℕ → Bool) (start : ℕ) (xs : List Info)
    → keep (λ m. q m.2) (placed start xs) ≡ (if q start then placed start xs else [])
keep-placed q start [] = elim (Bool-cases (q start)) [
  | inl held ↦ rw held refl
  | inr lost ↦ rw lost refl
]
keep-placed q start ((w, weight) ∷ xs) = elim (Bool-cases (q start)) [
  | inl held ↦ rw (keep-placed q start xs, held) refl
  | inr lost ↦ rw (keep-placed q start xs, lost) refl
]

module _ (weight : Text → ℕ) (words : List Text) where
  abbrev found : Text → Text → List Info
  found = found_at (max_depth words) (build weight words new_node)

  found-keywords :
      (before t : Text)
      → begins_word before ≡ true
      → found before t ≡ keywords_at weight words before t
  unfolding found_at keywords_at
  found-keywords before t h =
      let root = build weight words new_node in
      rw (boundary_kept before h, h)
        (walk-prefixes root (max_depth words) [] t (some root) (λ v. refl)
          ∙ prefixes-alike _ _ (max_depth words) [] t (word_at-keyword weight words)
          ∙ prefixes-short weight words (max_depth words) [] t (omega arith))

  keywords_within :
      (before t : Text) → begins_word before ≡ false → keywords_at weight words before t ≡ []
  unfolding keywords_at
  keywords_within before t h = rw h refl

  here-keywords :
      (start : ℕ) (before t : Text)
      → (if begins_word before then placed start (found before t) else [])
        ≡ placed start (keywords_at weight words before t)
  here-keywords start before t = elim (Bool-cases (begins_word before)) [
    | inl begins ↦ rw begins (ap (placed start) (found-keywords before t begins))
    | inr within ↦ rw (within, keywords_within before t within) refl
  ]

  search-keywords :
      (text : Text) (limit start : ℕ) (before t : Text)
      → text ≡ turned before t
      → start ≡ length before
      → keep (λ m. valid_word_boundary text m.2) (search_starts found limit start before t)
        ≡ search_starts (keywords_at weight words) limit start before t
  unfolding search_starts valid_word_boundary
  search-keywords text zero start before t e n = refl
  search-keywords text (suc limit) start before [] e n = refl
  search-keywords text (suc limit) start before (c ∷ t) e n =
      let at : valid_word_boundary text start ≡ begins_word before = ap begins_word (
        ap (λ s. turned (take start s) []) e
        ∙ ap (λ k. turned (take k (turned before (c ∷ t))) []) n
        ∙ before_lem before (c ∷ t)) in
      keep-append (λ m. valid_word_boundary text m.2) (placed start (found before (c ∷ t)))
        (search_starts found limit (suc start) (c ∷ before) t)
      ∙ ap
          (λ l.
            l
            ++ keep (λ m. valid_word_boundary text m.2)
                (search_starts found limit (suc start) (c ∷ before) t))
          (keep-placed (valid_word_boundary text) start (found before (c ∷ t))
            ∙ ap (λ b. if b then placed start (found before (c ∷ t)) else []) at
            ∙ here-keywords start before (c ∷ t))
      ∙ ap (λ l. placed start (keywords_at weight words before (c ∷ t)) ++ l)
          (search-keywords text limit (suc start) (c ∷ before) t e (omega arith))

-- The matches at the boundaries of words are exactly the keywords of at most 60 letters: for each of
-- the first 1000 places of the text where a word may begin, after clitics or not, each beginning of
-- the text there, of any length up to 60 letters, that is in the list, from the shortest on, with
-- its weight and its place. Neither the trie nor its depth nor the quick test of the letters before
-- loses or adds one. A longer keyword, and a keyword at a later place, is not found.
pub search_all_valid-specified :
    (weight : Text → ℕ) (words : List Text) (text : Text)
    → search_all_valid (weighted_trie weight words) text
      ≡ search_starts (keywords_at weight words) 1000 0 [] text
unfolding search_all_valid search_all
search_all_valid-specified weight words text =
    search-keywords weight words text 1000 0 [] text refl refl
