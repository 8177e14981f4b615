-- ===== src/Base/Dicts.antt =====
-- A Python dict (and `OrderedDict`) keyed by numbers, in insertion order.
use Prim.Native.Nat.{ℕ, ◌+◌, ◌-◌, ◌≤◌, ◌<◌, zero, suc}
use mathlib.Core.Path.{◌≡◌, refl}
use mathlib.Core.Option.{Option, none, some}
use mathlib.Core.List.{List, [], ◌∷◌, ◌++◌}
use native.Mathlib.Omega.{arith}
use telegram_br.Base.Tests.{◌==◌, if◌then◌else◌, is_some}
use telegram_br.Base.Lists.{length, length-append, length-drop, drop}

abbrev pub Dict {ℓ} : Type ℓ → Type ℓ
Dict V = List (ℕ × V)

module _ {ℓ} {V : Type ℓ} where
  -- `d.get(k)`
  abbrev pub lookup : ℕ → Dict V → Option V
  lookup k [] = none
  lookup k ((j, v) ∷ d) = if j == k then some v else lookup k d

  -- `d[k] = v`: in place, or at the end
  abbrev pub insert : ℕ → V → Dict V → Dict V
  insert k v [] = (k, v) ∷ []
  insert k v ((j, w) ∷ d) = if j == k then (k, v) ∷ d else (j, w) ∷ insert k v d

  -- `d.pop(k, None)`
  abbrev pub erase : ℕ → Dict V → Dict V
  erase k [] = []
  erase k ((j, w) ∷ d) = if j == k then erase k d else (j, w) ∷ erase k d

  -- `d.move_to_end(k)` right after `d[k] = v`
  abbrev pub insert_last : ℕ → V → Dict V → Dict V
  insert_last k v d = erase k d ++ (k, v) ∷ []

  -- `while len(d) > n: d.popitem(last=False)`
  abbrev pub keep_last : ℕ → Dict V → Dict V
  keep_last n d = drop (length d - n) d

  pub lookup-insert :
      (k j : ℕ) (v : V) (d : Dict V)
      → lookup j (insert k v d) ≡ (if k == j then some v else lookup j d)
  lookup-insert k j v [] = refl
  lookup-insert k j v ((i, w) ∷ d) = ground (arith, lookup-insert k j v d)

  pub lookup-insert_self : (k : ℕ) (v : V) (d : Dict V) → lookup k (insert k v d) ≡ some v
  lookup-insert_self k v d = ground (arith, lookup-insert k k v d)

  pub lookup-erase :
      (k j : ℕ) (d : Dict V) → lookup j (erase k d) ≡ (if k == j then none else lookup j d)
  lookup-erase k j [] = ground arith
  lookup-erase k j ((i, w) ∷ d) = ground (arith, lookup-erase k j d)

  pub lookup-append :
      (j : ℕ) (d e : Dict V)
      → lookup j (d ++ e) ≡ (if is_some (lookup j d) then lookup j d else lookup j e)
  lookup-append j [] e = refl
  lookup-append j ((i, w) ∷ d) e = ground (arith, lookup-append j d e)

  pub lookup-insert_last :
      (k j : ℕ) (v : V) (d : Dict V)
      → lookup j (insert_last k v d) ≡ (if k == j then some v else lookup j d)
  lookup-insert_last k j v d =
      ground (arith, lookup-append j (erase k d) ((k, v) ∷ []), lookup-erase k j d)

  pub length-insert-le : (k : ℕ) (v : V) (d : Dict V) → length (insert k v d) ≤ length d + 1
  length-insert-le k v [] = omega arith
  length-insert-le k v ((i, w) ∷ d) = ground (arith, length-insert-le k v d)

  pub length-erase-le : (k : ℕ) (d : Dict V) → length (erase k d) ≤ length d
  length-erase-le k [] = omega arith
  length-erase-le k ((i, w) ∷ d) = ground (arith, length-erase-le k d)

  pub length-keep_last-le : (n : ℕ) (d : Dict V) → length (keep_last n d) ≤ n
  length-keep_last-le n d = omega (arith, length-drop (length d - n) d)

  pub lookup-drop-append :
      (n k : ℕ) (v : V) (d : Dict V)
      → n ≤ length d
      → lookup k d ≡ none
      → lookup k (drop n (d ++ (k, v) ∷ [])) ≡ some v
  lookup-drop-append zero k v [] h e = ground arith
  lookup-drop-append zero k v ((j, w) ∷ d) h e = ground (arith, lookup-drop-append zero k v d)
  lookup-drop-append (suc n) k v [] h e = absurd (omega arith)
  lookup-drop-append (suc n) k v ((j, w) ∷ d) h e =
      ground (arith, lookup-drop-append n k v d (omega arith))

  -- What was put last survives the eviction from the front.
  pub lookup-keep_last :
      (n k : ℕ) (v : V) (d : Dict V) → 0 < n → lookup k (keep_last n (insert_last k v d)) ≡ some v
  lookup-keep_last n k v d h =
      let e = erase k d in
      lookup-drop-append (length (e ++ (k, v) ∷ []) - n) k v e
        (omega (arith, length-append e ((k, v) ∷ []))) (ground (arith, lookup-erase k k d))
