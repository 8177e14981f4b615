-- ===== src/Bloom.antt =====
-- OptimizedBloomFilter (filter_engine.py). Its cache of positions holds what is computed here.
pub mod Members
mod Tests
use telegram_br.Base.{
  ℕ, zero, suc, ◌+◌, ◌-◌, ◌*◌, ◌/◌, ◌%◌, ◌≤◌, ◌<◌, min, max, ◌≡◌, refl, sym, ap, ◌∙◌, ◌≢◌, ◌↔◌, ◌⊎◌,
  inl, inr, Bool, true, false, not, ◌&&◌, ◌||◌, Option, none, some, List, [], ◌∷◌, ◌++◌, map, arith,
  ltb, leb, ◌==◌, if◌then◌else◌, is_some, Bool-cases, Option-cases, if-by, Time, seconds, length,
  get_elem?, take, drop, keep, any, count_by, All, length-append, length-drop, elem, distinct, Dict,
  lookup, insert, erase, insert_last, keep_last, lookup-insert, lookup-insert_self, lookup-erase,
  lookup-insert_last, length-insert-le, length-erase-le, ==_iff, ==_refl, leb_iff, ltb_iff,
  length-keep-le, append-snoc, append-nil, lookup-append, push_last, push_last-room, count_recent,
  count_window, IsHistory, IsHistory-later, Covers, sees, IsHistory-push_last, Covers-later,
  Covers-push_last, count_window-append-le, count_by-append, count_by-le-length, keep_last,
  length-keep_last-le, append_assoc, drop-append, take-append,
}

-- What the filter is made with: the two halves of the digest of an item, and what the formulas for
-- the size and the number of positions give before their lower bounds.
pub record BloomLib : Type 0 where
  pub first_hash : ℕ → ℕ
  pub second_hash : ℕ → ℕ
  pub raw_size : ℕ
  pub raw_count : ℕ
  pub expected_items : ℕ

abbrev pub optimal_size : BloomLib → ℕ
optimal_size lib = max 1024 lib.raw_size

abbrev pub optimal_hash_count : BloomLib → ℕ
optimal_hash_count lib = max 1 lib.raw_count

abbrev pub reset_threshold : BloomLib → ℕ
reset_threshold lib = lib.expected_items * 2

-- The positions for `i` from a number on, so many.
unfoldable pub positions_from : BloomLib → ℕ → ℕ → ℕ → List ℕ
positions_from lib item i zero = []
positions_from lib item i (suc n) =
    ((lib.first_hash item + i * lib.second_hash item) % optimal_size lib)
    ∷ positions_from lib item (suc i) n

unfoldable pub hashes : BloomLib → ℕ → List ℕ
hashes lib item = positions_from lib item 0 (optimal_hash_count lib)

-- A bit of the array, by its byte and its place in the byte.
abbrev pub BitArray : Type 0
BitArray = ℕ → ℕ → Bool

abbrev pub cleared : BitArray
cleared = λ byte bit. false

-- `bit_array[pos // 8] |= 1 << (pos % 8)`
abbrev pub set_bit : ℕ → BitArray → BitArray
set_bit pos bits = λ byte bit. byte == pos / 8 && bit == pos % 8 || bits byte bit

abbrev pub is_set : BitArray → ℕ → Bool
is_set bits pos = bits (pos / 8) (pos % 8)

abbrev pub set_bits : List ℕ → BitArray → BitArray
set_bits [] bits = bits
set_bits (pos ∷ ps) bits = set_bits ps (set_bit pos bits)

abbrev pub are_set : BitArray → List ℕ → Bool
are_set bits [] = true
are_set bits (pos ∷ ps) = is_set bits pos && are_set bits ps

pub record Bloom : Type 0 where
  pub bit_array : BitArray
  pub added_count : ℕ

abbrev pub new_filter : Bloom
new_filter = record { bit_array = cleared; added_count = 0 }

-- An addition; above the threshold everything is forgotten.
unfoldable pub add : BloomLib → ℕ → Bloom → Bloom
add lib item b = if ltb (reset_threshold lib) (b.added_count + 1) then new_filter else record {
  bit_array = set_bits (hashes lib item) b.bit_array;
  added_count = b.added_count + 1;
}

unfoldable pub contains : BloomLib → ℕ → Bloom → Bool
contains lib item b = are_set b.bit_array (hashes lib item)

unfoldable pub clear : Bloom → Bloom
clear b = new_filter
