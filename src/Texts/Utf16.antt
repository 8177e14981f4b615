-- ===== src/Texts/Utf16.antt =====
-- The length of a text in UTF-16, by the function utf16_len that contact_target.py and
-- unified_alerts/card.py both have.
use telegram_br.Base.{
  ℕ, ◌+◌, ◌-◌, ◌/◌, ◌%◌, ◌≡◌, refl, sym, Bool, false, ◌&&◌, ◌||◌, List, [], ◌∷◌, ◌++◌, arith, ltb,
  leb, if◌then◌else◌, length, any, append_assoc,
}
use telegram_br.Texts.{Text}

-- The code units of a character: above the basic plane a pair of surrogates.
abbrev pub units : ℕ → List ℕ
units c =
    if ltb c 65536 then c ∷ [] else (55296 + (c - 65536) / 1024) ∷ (56320 + (c - 65536) % 1024) ∷ []

-- `value.encode("utf-16-le")`, by units
abbrev pub utf16 : Text → List ℕ
utf16 [] = []
utf16 (c ∷ t) = units c ++ utf16 t

-- A lone surrogate cannot be encoded.
abbrev pub is_surrogate : ℕ → Bool
is_surrogate c = leb 55296 c && leb c 57343

unfoldable pub utf16_len : Text → ℕ
utf16_len value = if any is_surrogate value then length value else length (utf16 value)

pub utf16-append : (s t : Text) → utf16 (s ++ t) ≡ utf16 s ++ utf16 t
utf16-append [] t = refl
utf16-append (c ∷ s) t = rw (utf16-append s t) (sym (append_assoc (units c) (utf16 s) (utf16 t)))

pub any-append : (p : ℕ → Bool) (s t : Text) → any p (s ++ t) ≡ (any p s || any p t)
any-append p [] t = refl
any-append p (c ∷ s) t = ground (arith, any-append p s t)

pub utf16_len_lem : (t : Text) → any is_surrogate t ≡ false → utf16_len t ≡ length (utf16 t)
unfolding utf16_len
utf16_len_lem t e = rw e refl
