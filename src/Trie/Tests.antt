-- ===== src/Trie/Tests.antt =====
-- Searches for keywords, and the witness of their theorem.
use telegram_br.Base.{ℕ, ◌*◌, ◌≡◌, refl, some, List, [], ◌∷◌, length}
use telegram_br.Texts.{Text}
use telegram_br.Trie.{
  insert_word, build, max_depth, run_of_arabic_before, walk, search_starts, found_at, WeightedTrie,
  weighted_trie, search_all, walk_first, first_at, search_first_starts, search_first, begins_word,
  valid_word_boundary, search_all_valid, search_first_valid,
}
use telegram_br.Trie.Words.{keyword, prefixes}
use telegram_br.Trie.Search.{short_keyword, keywords_at, search_all_valid-specified}

program : Unit {0}
unfolding insert_word build max_depth run_of_arabic_before walk search_starts found_at search_all
    walk_first first_at search_first_starts search_first begins_word valid_word_boundary
    search_all_valid search_first_valid keyword prefixes short_keyword keywords_at
program = tt

-- The letters ba, ta, tha and waw.
abbrev some_words : List Text
some_words =
    (1576 ∷ 1578 ∷ 1579 ∷ []) ∷ (1576 ∷ 1578 ∷ []) ∷ [] ∷ (1576 ∷ []) ∷ (1578 ∷ 1579 ∷ []) ∷ []

abbrev weights : Text → ℕ
weights w = length w * 100

abbrev some_trie : WeightedTrie
some_trie = weighted_trie weights some_words

-- "wa" and "ba" are clitics, so that the word after "wa" is found; the one after "ta" is not.
abbrev some_text : Text
some_text = 1608 ∷ 1576 ∷ 1578 ∷ 1579 ∷ 32 ∷ 1578 ∷ 1576 ∷ []

some_text-all :
    search_all_valid some_trie some_text
    ≡ (1576 ∷ [], 100, 1) ∷ (1576 ∷ 1578 ∷ [], 200, 1) ∷ (1576 ∷ 1578 ∷ 1579 ∷ [], 300, 1) ∷ []
unfolding program
some_text-all = refl

some_text-first : search_first some_trie some_text ≡ some (1576 ∷ [], 100, 1)
unfolding program
some_text-first = refl

search_all_valid-specified_example :
    search_all_valid (weighted_trie weights some_words) some_text
    ≡ search_starts (keywords_at weights some_words) 1000 0 [] some_text
search_all_valid-specified_example = search_all_valid-specified weights some_words some_text
