-- ===== src/Trie.antt =====
-- The search for keywords (filter_engine.py): WeightedTrie, the boundary of a word, and the
-- searches of EnhancedFilter that combine them.
pub mod Words
pub mod Search
pub mod First
mod Tests
use telegram_br.Base.{
  ℕ, zero, suc, ◌+◌, ◌-◌, ◌*◌, ◌/◌, ◌%◌, ◌≤◌, ◌<◌, min, max, ◌≡◌, refl, sym, ap, ◌∙◌, ◌≢◌, ◌↔◌, ◌⊎◌,
  inl, inr, Bool, true, false, not, ◌&&◌, ◌||◌, Option, none, some, List, [], ◌∷◌, ◌++◌, map, arith,
  ltb, leb, ◌==◌, if◌then◌else◌, is_some, Bool-cases, Option-cases, if-by, Time, seconds, length,
  get_elem?, take, drop, keep, any, count_by, All, length-append, length-drop, elem, distinct, Dict,
  lookup, insert, erase, insert_last, keep_last, lookup-insert, lookup-insert_self, lookup-erase,
  lookup-insert_last, length-insert-le, length-erase-le, ==_iff, ==_refl, leb_iff, ltb_iff,
  length-keep-le, append-snoc, append-nil, lookup-append, push_last, push_last-room, count_recent,
  count_window, IsHistory, IsHistory-later, Covers, sees, IsHistory-push_last, Covers-later,
  Covers-push_last, count_window-append-le, count_by-append, count_by-le-length, keep_last,
  length-keep_last-le, append_assoc, drop-append, take-append,
}
use telegram_br.Texts.{Text, is_empty}
use telegram_br.Texts.Literals.{member}

-- A keyword and its weight.
abbrev pub Info : Type 0
Info = Text × ℕ

mutual
  pub data TrieNode : Type 0 where
    node : Option Info → Children → TrieNode

  pub data Children : Type 0 where
    no_children : Children
    child : ℕ → TrieNode → Children → Children

abbrev pub new_node : TrieNode
new_node = node none no_children

-- `children.get(ch)`
abbrev pub child_of : ℕ → Children → Option TrieNode
child_of c no_children = none
child_of c (child d n cs) = let rest = child_of c cs in if d == c then some n else rest

-- `children[ch] = …`
abbrev pub put_child : ℕ → TrieNode → Children → Children
put_child c m no_children = child c m no_children
put_child c m (child d n cs) =
    let rest = put_child c m cs in if d == c then child d m cs else child d n rest

abbrev pub or_new : Option TrieNode → TrieNode
or_new none = new_node
or_new (some n) = n

-- The way of a word through the trie, with what its end gets.
unfoldable pub insert_word : Text → Info → TrieNode → TrieNode
insert_word [] x (node e cs) = node (some x) cs
insert_word (c ∷ w) x (node e cs) =
    node e (put_child c (insert_word w x (or_new (child_of c cs))) cs)

abbrev pub add_word : (Text → ℕ) → Text → TrieNode → TrieNode
add_word weight [] root = root
add_word weight (c ∷ w) root = insert_word (c ∷ w) (c ∷ w, weight (c ∷ w)) root

-- `_build`, over the words in the order in which the set gives them
unfoldable pub build : (Text → ℕ) → List Text → TrieNode → TrieNode
build weight [] root = root
build weight (w ∷ words) root = build weight words (add_word weight w root)

abbrev pub max_word_len : List Text → ℕ
max_word_len [] = 0
max_word_len (w ∷ words) = max (length w) (max_word_len words)

unfoldable pub max_depth : List Text → ℕ
max_depth words = min (max_word_len words + 1) 60

abbrev pub is_arabic_letter : ℕ → Bool
is_arabic_letter c = leb 1569 c && leb c 1610

abbrev pub max_clitic_len : ℕ
max_clitic_len = 3

-- `_run_of_arabic_before`: how many Arabic letters end the text before the start, whose last
-- character stands first here; it is not counted further than one above the limit.
unfoldable pub run_of_arabic_before : ℕ → Text → ℕ
run_of_arabic_before count [] = count
run_of_arabic_before count (c ∷ before) =
    let rest = run_of_arabic_before (count + 1) before in
    if is_arabic_letter c then if ltb max_clitic_len (count + 1) then count + 1 else rest else count

abbrev pub end_of : Option TrieNode → List Info
end_of none = []
end_of (some (node none cs)) = []
end_of (some (node (some x) cs)) = x ∷ []

-- The words on the way of a text from a node, of at most so many letters.
unfoldable pub walk : ℕ → Text → Option TrieNode → List Info
walk depth t none = []
walk zero t (some n) = []
walk (suc depth) [] (some n) = []
walk (suc depth) (c ∷ t) (some (node e cs)) = end_of (child_of c cs) ++ walk depth t (child_of c cs)

-- A match: the word, its weight, and where it starts.
abbrev pub Match : Type 0
Match = Text × ℕ × ℕ

abbrev pub placed : ℕ → List Info → List Match
placed start [] = []
placed start ((w, weight) ∷ found) = (w, weight, start) ∷ placed start found

-- The loop over at most so many starts, with the text before each, turned around.
unfoldable pub search_starts :
    (Text → Text → List Info) → (limit start : ℕ) → (before t : Text) → List Match
search_starts found zero start before t = []
search_starts found (suc limit) start before [] = []
search_starts found (suc limit) start before (c ∷ t) =
    placed start (found before (c ∷ t)) ++ search_starts found limit (suc start) (c ∷ before) t

unfoldable pub found_at : ℕ → TrieNode → Text → Text → List Info
found_at depth root before t =
    if ltb max_clitic_len (run_of_arabic_before 0 before) then [] else walk depth t (some root)

-- A trie is kept with the length of its longest word.
pub record WeightedTrie : Type 0 where
  pub root : TrieNode
  pub depth : ℕ

abbrev pub weighted_trie : (Text → ℕ) → List Text → WeightedTrie
weighted_trie weight words = record { root = build weight words new_node; depth = max_depth words }

unfoldable pub search_all : WeightedTrie → Text → List Match
search_all trie text = search_starts (found_at trie.depth trie.root) 1000 0 [] text

abbrev pub end_info : Option TrieNode → Option Info
end_info none = none
end_info (some (node e cs)) = e

abbrev pub or_found {ℓ} : {A : Type ℓ} → Option A → Option A → Option A
or_found none o = o
or_found (some x) o = some x

-- The first word on the way of a text from a node.
unfoldable pub walk_first : ℕ → Text → Option TrieNode → Option Info
walk_first depth t none = none
walk_first zero t (some n) = none
walk_first (suc depth) [] (some n) = none
walk_first (suc depth) (c ∷ t) (some (node e cs)) =
    or_found (end_info (child_of c cs)) (walk_first depth t (child_of c cs))

abbrev pub placed_first : ℕ → Option Info → Option Match
placed_first start none = none
placed_first start (some (w, weight)) = some (w, weight, start)

unfoldable pub first_at : ℕ → TrieNode → Text → Text → Option Info
first_at depth root before t =
    if ltb max_clitic_len (run_of_arabic_before 0 before)
    then none
    else walk_first depth t (some root)

unfoldable pub search_first_starts :
    (Text → Text → Option Info) → (limit start : ℕ) → (before t : Text) → Option Match
search_first_starts found zero start before t = none
search_first_starts found (suc limit) start before [] = none
search_first_starts found (suc limit) start before (c ∷ t) =
    or_found (placed_first start (found before (c ∷ t)))
      (search_first_starts found limit (suc start) (c ∷ before) t)

unfoldable pub search_first : WeightedTrie → Text → Option Match
search_first trie text = search_first_starts (first_at trie.depth trie.root) 1000 0 [] text

abbrev pub prefix_clitics : List Text
prefix_clitics =
    (1608 ∷ [])
    ∷ (1601 ∷ [])
    ∷ (1576 ∷ [])
    ∷ (1604 ∷ [])
    ∷ (1603 ∷ [])
    ∷ (1575 ∷ 1604 ∷ [])
    ∷ (1608 ∷ 1575 ∷ 1604 ∷ [])
    ∷ (1576 ∷ 1575 ∷ 1604 ∷ [])
    ∷ (1601 ∷ 1575 ∷ 1604 ∷ [])
    ∷ (1603 ∷ 1575 ∷ 1604 ∷ [])
    ∷ (1604 ∷ 1604 ∷ [])
    ∷ (1608 ∷ 1604 ∷ 1604 ∷ [])
    ∷ []

-- The Arabic letters right before a place, in reading order, from the text before it, turned
-- around.
abbrev pub arabic_run : Text → Text → Text
arabic_run [] word = word
arabic_run (c ∷ before) word =
    let rest = arabic_run before (c ∷ word) in if is_arabic_letter c then rest else word

unfoldable pub begins_word : Text → Bool
begins_word before = is_empty (arabic_run before []) || member (arabic_run before []) prefix_clitics

abbrev pub turned : Text → Text → Text
turned [] acc = acc
turned (c ∷ t) acc = turned t (c ∷ acc)

unfoldable pub valid_word_boundary : Text → ℕ → Bool
valid_word_boundary text start = begins_word (turned (take start text) [])

unfoldable pub search_all_valid : WeightedTrie → Text → List Match
search_all_valid trie text = keep (λ m. valid_word_boundary text m.2) (search_all trie text)

-- The loop of `_search_first_valid`
abbrev pub first_where : (Match → Bool) → List Match → Option Match
first_where p [] = none
first_where p (m ∷ ms) = let rest = first_where p ms in if p m then some m else rest

unfoldable pub search_first_valid : WeightedTrie → Text → Option Match
search_first_valid trie text =
    first_where (λ m. valid_word_boundary text m.2) (search_all trie text)
