-- ===== src/Similarity/Tests.antt =====
-- Alerts of one sender through the similarity gate, and the witnesses of its theorems. Two texts
-- are alike here when they are equally long.
use telegram_br.Base.{
  ℕ, ◌≡◌, refl, true, false, ◌&&◌, [], ◌∷◌, arith, leb, ◌==◌, if◌then◌else◌, is_some, seconds,
  length, any, lookup,
}
use telegram_br.Texts.{is_empty, strip}
use telegram_br.Similarity.{
  Config, Library, Gate, init, similarity_ratio, mask_digits, gc_bucket, gc_sender, Message,
  best_score, bucket_of, record_text, compare_and_record, check_and_record,
}
use telegram_br.Texts.{lstrip, rstrip, is_space}
use telegram_br.Similarity.{join_blanks, shingles, jaccard}
use telegram_br.Similarity.Hits.{is_reworded, check_and_record-hit}

abbrev config : Config
config = record { enabled = true; threshold_setting = 880000; window_seconds = 3600 }

abbrev library : Library
library = record {
  ratio = λ a b. if length a == length b then 900000 else 100000;
  is_digit = λ c. leb 48 c && leb c 57;
}

abbrev message : ℕ → Message
message c = record {
  sender = 5;
  text = 65 ∷ 66 ∷ 67 ∷ 68 ∷ 69 ∷ c ∷ [];
  norm = 65 ∷ 66 ∷ 67 ∷ 68 ∷ 69 ∷ c ∷ [];
}

program : Unit {0}
unfolding lstrip rstrip strip is_space join_blanks shingles jaccard similarity_ratio mask_digits
    gc_bucket gc_sender best_score record_text compare_and_record check_and_record
program = tt

abbrev once : Gate
once = (check_and_record config library (seconds 10) (message 70) (init 8 64)).0

-- Another last letter is the same request in other words.
check-reworded : is_some (check_and_record config library (seconds 20) (message 71) once).1 ≡ true
unfolding program
check-reworded = refl

-- Another last digit is another request.
check-digit :
    is_some
      (check_and_record config library
        (seconds 20)
        (message 51)
        (check_and_record config library (seconds 10) (message 50) (init 8 64)).0).1
    ≡ false
unfolding program
check-digit = refl

-- After the window, it is one too.
check-later : is_some (check_and_record config library (seconds 4000) (message 71) once).1 ≡ false
unfolding program
check-later = refl

message-words : is_empty (strip (message 71).text) ≡ false
unfolding program
message-words = refl

check_and_record-hit_example :
    is_some (check_and_record config library (seconds 20) (message 71) once).1
    ≡ any
        (is_reworded config library (seconds 20) (message 71).norm)
        (bucket_of (lookup 5 once.recent))
check_and_record-hit_example =
    check_and_record-hit config library (seconds 20) (message 71) once refl message-words
      (omega arith) (omega arith) (omega arith)
