-- ===== src/Texts/Literals.antt =====
-- Texts written out, the tests `==` and `startswith` on them, and the digits of a number.
use Prim.Native.Char.{code}
use Prim.Native.String.{String}
use telegram_br.Base.{
  ℕ, zero, suc, ◌+◌, ◌/◌, ◌%◌, ◌≡◌, refl, sym, ◌↔◌, inl, inr, Bool, true, false, ◌&&◌, List, [],
  ◌∷◌, ◌++◌, arith, ltb, ◌==◌, if◌then◌else◌, Bool-cases, any, All,
}
use mathlib.Core.Path.{subst}
use telegram_br.Texts.{Text}

-- The code points of a text.
abbrev pub codes : String → Text
codes String.[] = []
codes (String.◌∷◌ c s) = code c ∷ codes s

abbrev pub same : Text → Text → Bool
same [] [] = true
same [] (d ∷ u) = false
same (c ∷ t) [] = false
same (c ∷ t) (d ∷ u) = c == d && same t u

-- `t in ts`
abbrev pub member : Text → List Text → Bool
member t ts = any (same t) ts

-- `t.startswith(p)`
abbrev pub starts_with : Text → Text → Bool
starts_with [] t = true
starts_with (c ∷ p) [] = false
starts_with (c ∷ p) (d ∷ t) = c == d && starts_with p t

-- `t.lstrip("@")` for one character
unfoldable pub lstrip_char : ℕ → Text → Text
lstrip_char a [] = []
lstrip_char a (c ∷ t) = if c == a then lstrip_char a t else c ∷ t

-- `str(n)`, on fuel: a number has at most as many digits as its value and one.
abbrev pub digits_on : ℕ → ℕ → Text
digits_on zero n = []
digits_on (suc f) n =
    let front = digits_on f (n / 10) in
    let own = (48 + n % 10) ∷ [] in if ltb n 10 then own else front ++ own

abbrev pub digits : ℕ → Text
digits n = digits_on (suc n) n

pub starts_with-append : (p t : Text) → starts_with p (p ++ t) ≡ true
starts_with-append [] t = refl
starts_with-append (c ∷ p) t = ground (arith, starts_with-append p t)

pub same_iff : (t u : Text) → (same t u ≡ true) ↔ (t ≡ u)
same_iff [] [] = (λ e. refl, λ e. refl)
same_iff [] (d ∷ u) = ground arith
same_iff (c ∷ t) [] = ground arith
same_iff (c ∷ t) (d ∷ u) = ground (arith, same_iff t u)

-- What holds of all texts of a list holds of a member.
pub member-All :
    (P : Text → Type 0) (t : Text) (ts : List Text) → All P ts → member t ts ≡ true → P t
member-All P t [] w m = absurd (ground arith)
member-All P t (u ∷ ts) (h, w) m = elim (Bool-cases (same t u)) [
  | inl here ↦ subst P (sym ((same_iff t u).0 here)) h
  | inr there ↦ member-All P t ts w (ground (arith, there))
]
