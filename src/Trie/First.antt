-- ===== src/Trie/First.antt =====
-- The searches for a first keyword (filter_engine.py), which return at once.
use telegram_br.Base.{
  ℕ, zero, suc, ◌≡◌, refl, sym, ap, ◌∙◌, inl, inr, Bool, Option, none, some, List, [], ◌∷◌, ◌++◌,
  ltb, Bool-cases, keep,
}
use telegram_br.Texts.{Text}
use telegram_br.Trie.{
  Info, TrieNode, node, child_of, max_clitic_len, run_of_arabic_before, end_of, walk, Match, placed,
  search_starts, found_at, WeightedTrie, search_all, end_info, or_found, walk_first, placed_first,
  first_at, search_first_starts, search_first, valid_word_boundary, search_all_valid, first_where,
  search_first_valid,
}

abbrev pub first_of {ℓ} : {A : Type ℓ} → List A → Option A
first_of [] = none
first_of (x ∷ xs) = some x

module _ {ℓ} {A : Type ℓ} where
  first_of-append : (xs ys : List A) → first_of (xs ++ ys) ≡ or_found (first_of xs) (first_of ys)
  first_of-append [] ys = refl
  first_of-append (x ∷ xs) ys = refl

end_info-first : (o : Option TrieNode) → end_info o ≡ first_of (end_of o)
end_info-first none = refl
end_info-first (some (node none cs)) = refl
end_info-first (some (node (some x) cs)) = refl

walk_first-walk :
    (n : ℕ) (t : Text) (o : Option TrieNode) → walk_first n t o ≡ first_of (walk n t o)
unfolding walk_first walk
walk_first-walk zero t none = refl
walk_first-walk (suc n) [] none = refl
walk_first-walk (suc n) (c ∷ t) none = refl
walk_first-walk zero t (some m) = refl
walk_first-walk (suc n) [] (some m) = refl
walk_first-walk (suc n) (c ∷ t) (some (node e cs)) =
    let k = child_of c cs in
    ap (λ o. or_found o (walk_first n t k)) (end_info-first k)
    ∙ ap (or_found (first_of (end_of k))) (walk_first-walk n t k)
    ∙ sym (first_of-append (end_of k) (walk n t k))

placed_first-placed :
    (start : ℕ) (xs : List Info) → placed_first start (first_of xs) ≡ first_of (placed start xs)
placed_first-placed start [] = refl
placed_first-placed start (x ∷ xs) = refl

first_at-found_at :
    (depth : ℕ) (root : TrieNode) (before t : Text)
    → first_at depth root before t ≡ first_of (found_at depth root before t)
unfolding first_at found_at
first_at-found_at depth root before t =
    elim (Bool-cases (ltb max_clitic_len (run_of_arabic_before 0 before))) [
      | inl long ↦ rw long refl
      | inr short ↦ rw short (walk_first-walk depth t (some root))
    ]

search_first_starts-all :
    (depth : ℕ) (root : TrieNode) (limit start : ℕ) (before t : Text)
    → search_first_starts (first_at depth root) limit start before t
      ≡ first_of (search_starts (found_at depth root) limit start before t)
unfolding search_first_starts search_starts
search_first_starts-all depth root zero start before t = refl
search_first_starts-all depth root (suc limit) start before [] = refl
search_first_starts-all depth root (suc limit) start before (c ∷ t) =
    let here = found_at depth root before (c ∷ t) in
    let later = search_starts (found_at depth root) limit (suc start) (c ∷ before) t in
    ap
      (λ o.
        or_found (placed_first start o)
          (search_first_starts (first_at depth root) limit (suc start) (c ∷ before) t))
      (first_at-found_at depth root before (c ∷ t))
    ∙ ap
        (λ o.
          or_found o (search_first_starts (first_at depth root) limit (suc start) (c ∷ before) t))
        (placed_first-placed start here)
    ∙ ap (or_found (first_of (placed start here)))
        (search_first_starts-all depth root limit (suc start) (c ∷ before) t)
    ∙ sym (first_of-append (placed start here) later)

first_where-keep : (p : Match → Bool) (ms : List Match) → first_where p ms ≡ first_of (keep p ms)
first_where-keep p [] = refl
first_where-keep p (m ∷ ms) = elim (Bool-cases (p m)) [
  | inl held ↦ rw held refl
  | inr lost ↦ rw (lost, first_where-keep p ms) refl
]

-- The search that returns at once gives the first match of the one that gathers all, among all
-- matches and among those at the boundaries of words.
pub search_first-all :
    (trie : WeightedTrie) (text : Text)
    → (search_first trie text ≡ first_of (search_all trie text))
      × (search_first_valid trie text ≡ first_of (search_all_valid trie text))
unfolding search_first search_all search_first_valid search_all_valid
search_first-all trie text = (
  search_first_starts-all trie.depth trie.root 1000 0 [] text,
  first_where-keep (λ m. valid_word_boundary text m.2) (search_all trie text),
)
