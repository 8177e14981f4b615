-- ===== src/Card/Length.antt =====
-- The length of a card that is cut (unified_alerts/card.py).
use telegram_br.Base.{
  ℕ, ◌+◌, ◌-◌, ◌≤◌, ◌<◌, ◌≡◌, ap, not, ◌&&◌, [], ◌∷◌, ◌++◌, arith, ltb, leb, ◌==◌, if-by, length,
  any, length-append, elem,
}
use telegram_br.Texts.{Text, is_space, is_empty, rstrip}
use telegram_br.Texts.Utf16.{utf16, is_surrogate, utf16_len, utf16-append}
use telegram_br.Card.{
  Tables, width, cut, drop_partial, closing, find_unclosed_tags, truncate_safe_html,
}

-- The units of a text.
abbrev weight : Text → ℕ
weight t = length (utf16 t)

weight-cons : (c : ℕ) (t : Text) → weight (c ∷ t) ≡ width c + weight t
weight-cons c t =
    if-by (λ r. length (r ++ utf16 t) ≡ width c + weight t) (ltb c 65536) _ _ (λ e. ground arith)
      (λ e. ground arith)

length-le-weight : (t : Text) → length t ≤ weight t
length-le-weight [] = omega arith
length-le-weight (c ∷ t) = ground (arith, weight-cons c t, length-le-weight t)

utf16_len-le : (t : Text) → utf16_len t ≤ weight t
unfolding utf16_len
utf16_len-le t =
    if-by (λ n. n ≤ weight t) (any is_surrogate t) _ _ (λ e. length-le-weight t) (λ e. omega arith)

weight-append : (s t : Text) → weight (s ++ t) ≡ weight s + weight t
weight-append s t = omega (arith, ap length (utf16-append s t), length-append (utf16 s) (utf16 t))

weight-rstrip-le : (t : Text) → weight (rstrip t) ≤ weight t
unfolding rstrip
weight-rstrip-le [] = omega arith
weight-rstrip-le (c ∷ t) =
    if-by (λ r. weight r ≤ weight (c ∷ t)) (is_space c && is_empty (rstrip t)) _ _
      (λ e. omega arith)
      (λ e. omega (arith, weight-cons c t, weight-cons c (rstrip t), weight-rstrip-le t))

weight-drop_partial-le : (t : Text) → weight (drop_partial t) ≤ weight t
unfolding drop_partial
weight-drop_partial-le [] = omega arith
weight-drop_partial-le (c ∷ t) =
    if-by (λ r. weight r ≤ weight (c ∷ t)) (c == 60 && not (elem 60 t) && not (elem 62 t)) _ _
      (λ e. omega arith)
      (λ e.
        omega (arith, weight-cons c t, weight-cons c (drop_partial t), weight-drop_partial-le t))

weight-cut-le : (m u : ℕ) (t : Text) → u ≤ m - 1 → u + weight (cut m u t) ≤ m - 1
unfolding cut
weight-cut-le m u [] h = omega arith
weight-cut-le m u (c ∷ t) h =
    if-by (λ r. u + weight r ≤ m - 1) (ltb (m - 1) (u + width c)) _ _ (λ e. omega (arith, h))
      (λ e. omega (
        arith,
        weight-cons c (cut m (u + width c) t),
        weight-cut-le m (u + width c) t (ground arith),
      ))

-- The result of a cut has at most so many units as the limit and the closing tags of those left
-- open have together, whatever the text is; the limit is not zero.
pub truncate_safe_html-le :
    (py : Tables) (text : Text) (max_units : ℕ)
    → 0 < max_units
    → utf16_len (truncate_safe_html py text max_units)
      ≤ max_units
        + length (utf16 (closing (find_unclosed_tags py (drop_partial (cut max_units 0 text)))))
unfolding truncate_safe_html
truncate_safe_html-le py text m h =
    let head = drop_partial (cut m 0 text) in
    let ends = closing (find_unclosed_tags py head) in
    if-by (λ r. utf16_len r ≤ m + weight ends) (leb (utf16_len text) m) _ _ (λ e. ground arith)
      (λ e. omega (
        arith,
        utf16_len-le (rstrip (head ++ ends) ++ 8230 ∷ []),
        weight-append (rstrip (head ++ ends)) (8230 ∷ []),
        weight-rstrip-le (head ++ ends),
        weight-append head ends,
        weight-drop_partial-le (cut m 0 text),
        weight-cut-le m 0 text (omega arith),
      ))
