-- ===== src/Trie/Words.antt =====
-- WeightedTrie (filter_engine.py): the words that a trie holds, and the words that a walk finds.
use telegram_br.Base.{
  ℕ, zero, suc, ◌≡◌, refl, sym, ap, ◌∙◌, inl, inr, Bool, true, false, not, ◌&&◌, ◌||◌, Option, none,
  some, List, [], ◌∷◌, ◌++◌, arith, ◌==◌, if◌then◌else◌, Bool-cases, ==_iff, append-snoc,
}
use telegram_br.Texts.{Text, is_empty}
use telegram_br.Texts.Literals.{same, member, same_iff}
use telegram_br.Trie.{
  Info, TrieNode, node, Children, no_children, child, new_node, child_of, put_child, or_new,
  insert_word, add_word, build, end_of, walk,
}

-- What stands at the end of a word, below a node.
unfoldable pub word_at : Text → Option TrieNode → Option Info
word_at w none = none
word_at [] (some (node e cs)) = e
word_at (c ∷ w) (some (node e cs)) = word_at w (child_of c cs)

child_of-put_child :
    (j c : ℕ) (m : TrieNode) (cs : Children)
    → child_of j (put_child c m cs) ≡ (if c == j then some m else child_of j cs)
child_of-put_child j c m no_children = refl
child_of-put_child j c m (child d n cs) = ground (arith, child_of-put_child j c m cs)

word_at-or_new : (v : Text) (o : Option TrieNode) → word_at v (some (or_new o)) ≡ word_at v o
unfolding word_at
word_at-or_new [] none = refl
word_at-or_new (c ∷ v) none = refl
word_at-or_new v (some n) = refl

word_at-insert_word :
    (w v : Text) (x : Info) (n : TrieNode)
    → word_at v (some (insert_word w x n)) ≡ (if same w v then some x else word_at v (some n))
unfolding word_at insert_word
word_at-insert_word [] [] x (node e cs) = refl
word_at-insert_word [] (d ∷ v) x (node e cs) = refl
word_at-insert_word (c ∷ w) [] x (node e cs) = refl
word_at-insert_word (c ∷ w) (d ∷ v) x (node e cs) =
    let o = child_of c cs in
    ap (word_at v) (child_of-put_child d c (insert_word w x (or_new o)) cs)
    ∙ elim (Bool-cases (c == d)) [
      | inl here ↦
          let at : c ≡ d = (==_iff c d).0 here in
          rw here (
            word_at-insert_word w v x (or_new o)
            ∙ ap (λ r. if same w v then some x else r)
                (word_at-or_new v o ∙ ap (λ k. word_at v (child_of k cs)) at))
      | inr other ↦ rw other refl
    ]

-- What a list of keywords holds of a word: it is not empty and in the list.
unfoldable pub keyword : (Text → ℕ) → List Text → Text → Option Info
keyword weight words v = if not (is_empty v) && member v words then some (v, weight v) else none

same_sym : (t u : Text) → same t u ≡ same u t
same_sym [] [] = refl
same_sym [] (d ∷ u) = refl
same_sym (c ∷ t) [] = refl
same_sym (c ∷ t) (d ∷ u) = ground (arith, same_sym t u)

same_info :
    (weight : Text → ℕ) (t u : Text) (r : Option Info)
    → (if same t u then some (t, weight t) else r) ≡ (if same t u then some (u, weight u) else r)
same_info weight t u r = elim (Bool-cases (same t u)) [
  | inl here ↦ rw here (ap (λ s. some (s, weight s)) ((same_iff t u).0 here))
  | inr other ↦ rw other refl
]

merged :
    (a b c : Bool) (x y : Option Info)
    → (if a && b then x else if a && c then x else y) ≡ (if a && (c || b) then x else y)
merged false b c x y = refl
merged true true true x y = refl
merged true true false x y = refl
merged true false true x y = refl
merged true false false x y = refl

same_word :
    (weight : Text → ℕ) (c : ℕ) (w v : Text) (r : Option Info)
    → (if same (c ∷ w) v then some (c ∷ w, weight (c ∷ w)) else r)
      ≡ (if not (is_empty v) && same v (c ∷ w) then some (v, weight v) else r)
same_word weight c w [] r = refl
same_word weight c w (d ∷ v) r =
    same_info weight (c ∷ w) (d ∷ v) r
    ∙ ap (λ b. if b then some (d ∷ v, weight (d ∷ v)) else r) (same_sym (c ∷ w) (d ∷ v))

word_at-add_word :
    (weight : Text → ℕ) (w v : Text) (n : TrieNode)
    → word_at v (some (add_word weight w n))
      ≡ (if not (is_empty v) && same v w then some (v, weight v) else word_at v (some n))
word_at-add_word weight [] [] n = refl
word_at-add_word weight [] (d ∷ v) n = refl
word_at-add_word weight (c ∷ w) v n =
    word_at-insert_word (c ∷ w) v (c ∷ w, weight (c ∷ w)) n
    ∙ same_word weight c w v (word_at v (some n))

word_at-build :
    (weight : Text → ℕ) (words : List Text) (v : Text) (n : TrieNode)
    → word_at v (some (build weight words n))
      ≡ (if not (is_empty v) && member v words then some (v, weight v) else word_at v (some n))
unfolding build
word_at-build weight [] [] n = refl
word_at-build weight [] (c ∷ v) n = refl
word_at-build weight (w ∷ words) v n =
    word_at-build weight words v (add_word weight w n)
    ∙ ap (λ r. if not (is_empty v) && member v words then some (v, weight v) else r)
        (word_at-add_word weight w v n)
    ∙ merged (not (is_empty v)) (member v words) (same v w) _ _

-- A trie holds the words that it is built of, each with its weight, and no other.
pub word_at-keyword :
    (weight : Text → ℕ) (words : List Text) (v : Text)
    → word_at v (some (build weight words new_node)) ≡ keyword weight words v
unfolding keyword word_at
word_at-keyword weight words [] = word_at-build weight words [] new_node
word_at-keyword weight words (c ∷ v) = word_at-build weight words (c ∷ v) new_node

abbrev pub listed : Option Info → List Info
listed none = []
listed (some x) = x ∷ []

-- The beginnings of a text, up to a length, of which a function knows something.
unfoldable pub prefixes : (Text → Option Info) → ℕ → (seen t : Text) → List Info
prefixes f zero seen t = []
prefixes f (suc n) seen [] = []
prefixes f (suc n) seen (c ∷ t) = listed (f (seen ++ c ∷ [])) ++ prefixes f n (seen ++ c ∷ []) t

pub prefixes-alike :
    (f g : Text → Option Info) (n : ℕ) (seen t : Text)
    → ((v : Text) → f v ≡ g v)
    → prefixes f n seen t ≡ prefixes g n seen t
unfolding prefixes
prefixes-alike f g zero seen t h = refl
prefixes-alike f g (suc n) seen [] h = refl
prefixes-alike f g (suc n) seen (c ∷ t) h =
    rw (h (seen ++ c ∷ []), prefixes-alike f g n (seen ++ c ∷ []) t h) refl

word_at-none : (w : Text) → word_at w none ≡ none
unfolding word_at
word_at-none [] = refl
word_at-none (c ∷ w) = refl

walk-none : (n : ℕ) (t : Text) → walk n t none ≡ []
unfolding walk
walk-none zero t = refl
walk-none (suc n) [] = refl
walk-none (suc n) (c ∷ t) = refl

end_of-listed : (o : Option TrieNode) → end_of o ≡ listed (word_at [] o)
unfolding word_at
end_of-listed none = refl
end_of-listed (some (node none cs)) = refl
end_of-listed (some (node (some x) cs)) = refl

-- A walk finds the beginnings of the text that stand in the trie, from the node that `seen` leads
-- to.
pub walk-prefixes :
    (root : TrieNode) (n : ℕ) (seen t : Text) (o : Option TrieNode)
    → ((v : Text) → word_at v o ≡ word_at (seen ++ v) (some root))
    → walk n t o ≡ prefixes (λ v. word_at v (some root)) n seen t
unfolding walk prefixes word_at
walk-prefixes root zero seen t none h = refl
walk-prefixes root zero seen t (some m) h = refl
walk-prefixes root (suc n) seen [] none h = refl
walk-prefixes root (suc n) seen [] (some m) h = refl
walk-prefixes root (suc n) seen (c ∷ t) none h =
    let missing : word_at (seen ++ c ∷ []) (some root) ≡ none =
      sym (h (c ∷ [])) ∙ word_at-none (c ∷ []) in
    rw missing (
      sym (walk-none n t)
      ∙ walk-prefixes root n (seen ++ c ∷ []) t none (λ v.
        word_at-none v
        ∙ sym (word_at-none (c ∷ v))
        ∙ h (c ∷ v)
        ∙ ap (λ s. word_at s (some root)) (sym (append-snoc seen v c))))
walk-prefixes root (suc n) seen (c ∷ t) (some (node e cs)) h =
    let k = child_of c cs in
    let below : (v : Text) → word_at v k ≡ word_at (seen ++ c ∷ v) (some root) = λ v. h (c ∷ v) in
    ap (λ l. l ++ walk n t k) (end_of-listed k ∙ ap listed (below []))
    ∙ ap (λ l. listed (word_at (seen ++ c ∷ []) (some root)) ++ l)
        (walk-prefixes root n (seen ++ c ∷ []) t k
          (λ v. below v ∙ ap (λ s. word_at s (some root)) (sym (append-snoc seen v c))))
