-- ===== src/Card/Closed.antt =====
-- The tags of a card that is cut (unified_alerts/card.py): all of them are closed.
use telegram_br.Base.{
  ℕ, zero, suc, ◌+◌, ◌≤◌, ◌<◌, ◌≡◌, refl, sym, ap, ◌∙◌, true, false, List, [], ◌∷◌, ◌++◌, arith,
  leb, length, All, elem, append-nil, append_assoc,
}
use mathlib.Core.Path.{subst}
use telegram_br.Texts.{Text, is_space, rstrip}
use telegram_br.Texts.Literals.{codes, member, same_iff, member-All}
use telegram_br.Texts.Utf16.{utf16_len}
use telegram_br.Card.{
  Tables, canonical_name, fold, open_end, close_end, match_names, open_tag, close_tag,
  canonical_tag, opens, closes, Event, scan, sort_events, apply_event, stack_after,
  find_unclosed_tags, cut, drop_partial, closing, truncate_safe_html,
}
use telegram_br.Card.Tags.{is_tagged, open_tag-IsTagSearch, close_tag-IsTagSearch}
use telegram_br.Card.Scans.{
  scan-append, scan-plain, Rises-later, AreBefore-append, scan-AreBefore, Rises-later, Rises,
  sort_events-append, stack_after-append,
}
use telegram_br.Card.Cuts.{
  is_tagged-append, drop_partial-cut-is_tagged, rstrip-rest, is_tagged-front,
}

-- The tags that stand on the stack.
abbrev pub canonical_tags : List Text
canonical_tags =
    codes "b"
    ∷ codes "i"
    ∷ codes "u"
    ∷ codes "s"
    ∷ codes "code"
    ∷ codes "pre"
    ∷ codes "a"
    ∷ codes "blockquote"
    ∷ codes "tg-spoiler"
    ∷ codes "span"
    ∷ []

-- A continuation of a text of tags adds its closing tags behind all others.
unclosed-append :
    (py : Tables) (t r : Text)
    → is_tagged false t ≡ true
    → scan py open_tag opens (length t) 0 r ≡ []
    → Rises (length t) (scan py close_tag closes (length t) 0 r)
    → find_unclosed_tags py (t ++ r)
      ≡ stack_after (scan py close_tag closes (length t) 0 r) (find_unclosed_tags py t)
unfolding find_unclosed_tags
unclosed-append py t r h none_opened rises =
    let opened = scan py open_tag opens 0 0 t in
    let closed = scan py close_tag closes 0 0 t in
    let more = scan py close_tag closes (length t) 0 r in
    rw
      (
        scan-append py open_tag open_tag-IsTagSearch opens false t r 0 0 (length t) h refl
            (omega arith),
        none_opened,
        scan-append py close_tag close_tag-IsTagSearch closes false t r 0 0 (length t) h refl
            (omega arith),
        append-nil opened,
        sym (append_assoc opened closed more),
        sort_events-append (opened ++ closed) more (length t)
            (AreBefore-append (length t) opened closed
              (scan-AreBefore py open_tag opens 0 0 (length t) t (omega arith))
              (scan-AreBefore py close_tag closes 0 0 (length t) t (omega arith)))
            rises,
      )
      (stack_after-append (sort_events (opened ++ closed)) more [])

-- Plain text adds nothing.
unclosed-plain :
    (py : Tables) (t ws : Text)
    → is_tagged false t ≡ true
    → elem 60 ws ≡ false
    → find_unclosed_tags py (t ++ ws) ≡ find_unclosed_tags py t
unclosed-plain py t ws h plain =
    let none_closed = scan-plain py close_tag close_tag-IsTagSearch closes (length t) ws plain in
    let all : find_unclosed_tags py (t ++ ws)
        ≡ stack_after (scan py close_tag closes (length t) 0 ws) (find_unclosed_tags py t) =
      unclosed-append py t ws h
        (scan-plain py open_tag open_tag-IsTagSearch opens (length t) ws plain)
        (subst (Rises (length t)) (sym none_closed) tt) in
    all ∙ ap (λ ds. stack_after ds (find_unclosed_tags py t)) none_closed

-- The place after so many characters.
abbrev later : ℕ → ℕ → ℕ
later zero k = k
later (suc n) k = later n (suc k)

later-le : (n k : ℕ) → k ≤ later n k
later-le zero k = omega arith
later-le (suc n) k = omega (arith, later-le n (suc k))

abbrev closed_at : ℕ → Text → Event
closed_at start name = record { start = start; kind = closes; name = name }

-- A closing tag in front of a text is found as one, and opens nothing.
Closes : Tables → Text → Type 0
Closes py tag =
    (k : ℕ) (r : Text)
    → (scan py close_tag closes k 0 (codes "</" ++ (tag ++ (codes ">" ++ r)))
        ≡ closed_at k tag ∷ scan py close_tag closes (later (3 + length tag) k) 0 r)
      × (scan py open_tag opens k 0 (codes "</" ++ (tag ++ (codes ">" ++ r)))
          ≡ scan py open_tag opens (later (3 + length tag) k) 0 r)
      × (is_tagged false (codes "</" ++ (tag ++ (codes ">" ++ r))) ≡ is_tagged false r)

-- `str.lower` leaves the names of the tags alone.
abbrev pub LowersTags : Tables → Type 0
LowersTags py = All (λ tag. py.lower tag ≡ tag) canonical_tags

renamed :
    (k : ℕ) {given name : Text} (rest : List Event)
    → given ≡ name
    → closed_at k (canonical_name given) ∷ rest ≡ closed_at k (canonical_name name) ∷ rest
renamed k rest e = ap (λ n. closed_at k (canonical_name n) ∷ rest) e

canonical_tags-Closes : (py : Tables) → LowersTags py → All (Closes py) canonical_tags
unfolding Closes scan open_tag close_tag match_names open_end close_end fold is_space canonical_tag
    is_tagged
canonical_tags-Closes py (e0, (e1, (e2, (e3, (e4, (e5, (e6, (e7, (e8, (e9, _)))))))))) = (
  (λ k r. (renamed k _ e0, refl, refl)),
  (
    (λ k r. (renamed k _ e1, refl, refl)),
    (
      (λ k r. (renamed k _ e2, refl, refl)),
      (
        (λ k r. (renamed k _ e3, refl, refl)),
        (
          (λ k r. (renamed k _ e4, refl, refl)),
          (
            (λ k r. (renamed k _ e5, refl, refl)),
            (
              (λ k r. (renamed k _ e6, refl, refl)),
              (
                (λ k r. (renamed k _ e7, refl, refl)),
                (
                  (λ k r. (renamed k _ e8, refl, refl)),
                  ((λ k r. (renamed k _ e9, refl, refl)), tt),
                ),
              ),
            ),
          ),
        ),
      ),
    ),
  ),
)

pop_closed : (tag : Text) (tags : List Text) → apply_event closes tag (tag ∷ tags) ≡ tags
unfolding apply_event
pop_closed tag tags = rw ((same_iff tag tag).1 refl) refl

-- The tags that close a stack, on their own: they are a text of tags, open nothing and empty it.
record ClosesAll (py : Tables) (tags : List Text) (k : ℕ) : Type 0 where
  pub rises : Rises k (scan py close_tag closes k 0 (closing tags))
  pub empties : stack_after (scan py close_tag closes k 0 (closing tags)) tags ≡ []
  pub opens_none : scan py open_tag opens k 0 (closing tags) ≡ []
  pub tagged : is_tagged false (closing tags) ≡ true

closing-nil : (py : Tables) (k : ℕ) → ClosesAll py [] k
unfolding closing scan is_tagged
closing-nil py k = record { rises = tt; empties = refl; opens_none = refl; tagged = refl }

closing-ClosesAll :
    (py : Tables) (tags : List Text) (k : ℕ)
    → LowersTags py
    → All (λ tag. member tag canonical_tags ≡ true) tags
    → ClosesAll py tags k
unfolding closing Closes
closing-ClosesAll py [] k l w = closing-nil py k
closing-ClosesAll py (tag ∷ tags) k l (m, w) =
    let n = later (3 + length tag) k in
    let (found, opened, tagged) =
      member-All (Closes py) tag canonical_tags (canonical_tags-Closes py l) m k (closing tags) in
    let ih = closing-ClosesAll py tags n l w in
    record {
      rises =
          subst (Rises k) (sym found)
            (omega arith, Rises-later k n _ (later-le (3 + length tag) k) ih.rises);
      empties =
          ap (λ ds. stack_after ds (tag ∷ tags)) found
          ∙ ap (stack_after (scan py close_tag closes n 0 (closing tags))) (pop_closed tag tags)
          ∙ ih.empties;
      opens_none = opened ∙ ih.opens_none;
      tagged = tagged ∙ ih.tagged;
    }

-- Whitespace that is taken from the end of a text of tags takes no tag with it.
unclosed-rstrip :
    (py : Tables) (t : Text)
    → is_tagged false t ≡ true
    → (is_tagged false (rstrip t) ≡ true)
      × (find_unclosed_tags py (rstrip t) ≡ find_unclosed_tags py t)
unclosed-rstrip py t h =
    let (ws, e, lt, gt) = rstrip-rest t in
    let front : is_tagged false (rstrip t) ≡ true =
      is_tagged-front false (rstrip t) ws gt (subst (λ s. is_tagged false s ≡ true) e h) in
    (front, sym (unclosed-plain py (rstrip t) ws front lt) ∙ ap (find_unclosed_tags py) (sym e))

-- The stack is empty after the closing tags.
closed-head :
    (py : Tables) (head : Text)
    → LowersTags py
    → is_tagged false head ≡ true
    → All (λ tag. member tag canonical_tags ≡ true) (find_unclosed_tags py head)
    → find_unclosed_tags py (rstrip (head ++ closing (find_unclosed_tags py head)) ++ 8230 ∷ [])
      ≡ []
closed-head py head l h w =
    let tags = find_unclosed_tags py head in
    let ends = closing-ClosesAll py tags (length head) l w in
    let tagged = is_tagged-append false head (closing tags) h ends.tagged in
    let (front, same_tags) = unclosed-rstrip py (head ++ closing tags) tagged in
    unclosed-plain py (rstrip (head ++ closing tags)) (8230 ∷ []) front refl
    ∙ same_tags
    ∙ unclosed-append py head (closing tags) h ends.opens_none ends.rises
    ∙ ends.empties

-- A text that is cut leaves no tag open, by the code's own reading of tags: neither at the place of
-- the cut nor in a tag that the cut falls into. In the text each `<` is followed by a `>` before the
-- next one, it is longer than the limit, and the tags that the cut leaves open are Telegram's, in
-- letters of ASCII; `str.lower` leaves their names alone.
pub truncate_safe_html-closed :
    (py : Tables) (text : Text) (max_units : ℕ)
    → LowersTags py
    → is_tagged false text ≡ true
    → max_units < utf16_len text
    → All
        (λ tag. member tag canonical_tags ≡ true)
        (find_unclosed_tags py (drop_partial (cut max_units 0 text)))
    → find_unclosed_tags py (truncate_safe_html py text max_units) ≡ []
unfolding truncate_safe_html
truncate_safe_html-closed py text m l h long w =
    let longer : leb (utf16_len text) m ≡ false = ground (arith, long) in
    rw longer
      (closed-head py (drop_partial (cut m 0 text)) l (drop_partial-cut-is_tagged m text h) w)
