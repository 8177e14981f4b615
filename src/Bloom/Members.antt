-- ===== src/Bloom/Members.antt =====
-- What the filter (filter_engine.py) holds of the items that were added.
use telegram_br.Base.{
  ℕ, ◌+◌, ◌/◌, ◌%◌, ◌≤◌, ◌<◌, ◌≡◌, refl, sym, inl, inr, true, false, List, [], ◌∷◌, arith, ltb,
  ◌==◌, Bool-cases, length, elem, ==_iff, ==_refl,
}
use mathlib.Core.Path.{subst}
use telegram_br.Bloom.{
  BloomLib, reset_threshold, hashes, BitArray, set_bit, is_set, set_bits, are_set, Bloom, add,
  contains,
}

unfoldable pub add_all : BloomLib → List ℕ → Bloom → Bloom
add_all lib [] b = b
add_all lib (item ∷ items) b = add_all lib items (add lib item b)

-- A bit that is set stays set.
set_bits-keeps :
    (ps : List ℕ) (pos : ℕ) (bits : BitArray)
    → is_set bits pos ≡ true
    → is_set (set_bits ps bits) pos ≡ true
set_bits-keeps [] pos bits h = h
set_bits-keeps (q ∷ ps) pos bits h = set_bits-keeps ps pos (set_bit q bits) (ground (arith, h))

set_bit-sets : (pos : ℕ) (bits : BitArray) → is_set (set_bit pos bits) pos ≡ true
set_bit-sets pos bits = rw (==_refl (pos / 8), ==_refl (pos % 8)) refl

are_set-kept :
    (ps qs : List ℕ) (bits : BitArray)
    → are_set bits qs ≡ true
    → are_set (set_bits ps bits) qs ≡ true
are_set-kept ps [] bits h = refl
are_set-kept ps (q ∷ qs) bits h =
    let here : is_set bits q ≡ true = ground arith in
    let rest : are_set bits qs ≡ true = ground arith in
    rw (set_bits-keeps ps q bits here, are_set-kept ps qs bits rest) refl

set_bits-are_set : (ps : List ℕ) (bits : BitArray) → are_set (set_bits ps bits) ps ≡ true
set_bits-are_set [] bits = refl
set_bits-are_set (p ∷ ps) bits =
    rw
      (
        set_bits-keeps ps p (set_bit p bits) (set_bit-sets p bits),
        set_bits-are_set ps (set_bit p bits),
      )
      refl

add-room :
    (lib : BloomLib) (item : ℕ) (b : Bloom)
    → b.added_count < reset_threshold lib
    → add lib item b ≡ record {
      bit_array = set_bits (hashes lib item) b.bit_array;
      added_count = b.added_count + 1;
    }
unfolding add
add-room lib item b h =
    let fits : ltb (reset_threshold lib) (b.added_count + 1) ≡ false = ground (arith, h) in
    rw fits refl

-- The filter after an addition for which there is room.
abbrev added : BloomLib → ℕ → Bloom → Bloom
added lib item b = record {
  bit_array = set_bits (hashes lib item) b.bit_array;
  added_count = b.added_count + 1;
}

contains-add_all :
    (lib : BloomLib) (items : List ℕ) (x : ℕ) (b : Bloom)
    → b.added_count + length items ≤ reset_threshold lib
    → contains lib x b ≡ true
    → contains lib x (add_all lib items b) ≡ true
unfolding add_all contains
contains-add_all lib [] x b h c = c
contains-add_all lib (item ∷ items) x b h c =
    subst (λ s. contains lib x (add_all lib items s) ≡ true)
      (sym (add-room lib item b (omega arith)))
      (contains-add_all lib items x (added lib item b) (omega arith)
        (are_set-kept (hashes lib item) (hashes lib x) b.bit_array c))

contains-added :
    (lib : BloomLib) (item : ℕ) (b : Bloom) → contains lib item (added lib item b) ≡ true
unfolding contains
contains-added lib item b = set_bits-are_set (hashes lib item) b.bit_array

-- No false negatives: whatever is added to a filter that has room for all of the additions below
-- its threshold is found afterwards, whatever the digests are.
pub add_all-contains :
    (lib : BloomLib) (items : List ℕ) (x : ℕ) (b : Bloom)
    → b.added_count + length items ≤ reset_threshold lib
    → elem x items ≡ true
    → contains lib x (add_all lib items b) ≡ true
unfolding add_all
add_all-contains lib [] x b h m = absurd (ground arith)
add_all-contains lib (item ∷ items) x b h m =
    subst (λ s. contains lib x (add_all lib items s) ≡ true)
      (sym (add-room lib item b (omega arith)))
      (elim (Bool-cases (x == item)) [
        | inl here ↦ contains-add_all lib items x (added lib item b) (omega arith) (
            subst (λ y. contains lib x (added lib y b) ≡ true) ((==_iff x item).0 here)
              (contains-added lib x b))
        | inr there ↦
            add_all-contains lib items x (added lib item b) (omega arith) (ground (arith, m, there))
      ])
