-- ===== src/Bloom/Tests.antt =====
-- A small filter, and the witness of its theorem.
use telegram_br.Base.{◌+◌, ◌*◌, ◌≡◌, refl, true, false, [], ◌∷◌, arith}
use telegram_br.Bloom.{BloomLib, positions_from, hashes, new_filter, add, contains}
use telegram_br.Bloom.Members.{add_all, add_all-contains}

abbrev small : BloomLib
small = record {
  first_hash = λ n. n * 7;
  second_hash = λ n. n + 3;
  raw_size = 0;
  raw_count = 3;
  expected_items = 1;
}

program : Unit {0}
unfolding positions_from hashes add contains add_all
program = tt

-- The addition that exceeds the threshold is forgotten itself.
third-forgotten : contains small 9 (add_all small (5 ∷ 6 ∷ 9 ∷ []) new_filter) ≡ false
unfolding program
third-forgotten = refl

add_all-contains_example : contains small 5 (add_all small (5 ∷ 6 ∷ []) new_filter) ≡ true
add_all-contains_example = add_all-contains small (5 ∷ 6 ∷ []) 5 new_filter (omega arith) refl
