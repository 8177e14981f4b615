-- ===== src/ReplyFix/Ladder.antt =====
-- The ladder of tiers.
use telegram_br.Base.{
  ℕ, suc, ◌≡◌, refl, ap, ◌⊎◌, inl, inr, Bool, true, false, some, List, [], ◌∷◌, get_elem?, take,
  All,
}
use telegram_br.ReplyFix.{Fixer}
use telegram_br.ReplyFix.Run.{
  Call, Tier, Outcome, ends, passes, absent, Failure, empty_ladder, Result, fail, is_empty,
  tier_outcome, next_error, after_tier, try_tiers, finish_run,
}

ends_run : Outcome → Bool
ends_run (ends r) = true
ends_run (passes e) = false
ends_run absent = false

-- Some tier ends the run with the result, and no earlier tier ends it.
pub EndsWith : Result → List Tier → Type 0
EndsWith r ts =
    (i : ℕ) × (t : Tier) × (get_elem? ts i ≡ some t)
    × (tier_outcome t ≡ ends r)
    × All (λ u. ends_run (tier_outcome u) ≡ false) (take i ts)

-- No tier ends the run.
pub NeverEnds : List Tier → Type 0
NeverEnds = All (λ u. ends_run (tier_outcome u) ≡ false)

EndsWith-later :
    (r : Result) (t : Tier) (ts : List Tier)
    → ends_run (tier_outcome t) ≡ false
    → EndsWith r ts
    → EndsWith r (t ∷ ts)
unfolding EndsWith
EndsWith-later r t ts h (i, u, e, o, a) = (suc i, u, e, o, (h, a))

Outcome-cases :
    (o : Outcome)
    → ((r : Result) × (o ≡ ends r)) ⊎ (((e : Failure) × (o ≡ passes e)) ⊎ (o ≡ absent))
Outcome-cases (ends r) = inl (r, refl)
Outcome-cases (passes e) = inr (inl (e, refl))
Outcome-cases absent = inr (inr refl)

try_tiers-cases :
    (last : Failure) (ts : List Tier)
    → EndsWith (try_tiers last ts).0 ts
      ⊎ (NeverEnds ts × ((e : Failure) × ((try_tiers last ts).0 ≡ fail e)))
unfolding try_tiers NeverEnds EndsWith next_error after_tier ends_run
try_tiers-cases last [] = inr (tt, (last, refl))
try_tiers-cases last (t ∷ ts) = elim (Outcome-cases (tier_outcome t)) [
  | inl (r, e) ↦ inl (0, t, refl, rw e refl, tt)
  | inr (inl (x, e)) ↦
      (let on : ends_run (tier_outcome t) ≡ false = ap ends_run e in
        elim (try_tiers-cases x ts) [
          | inl h ↦ simp e (inl (EndsWith-later _ t ts on h))
          | inr (h, k) ↦ simp e (inr ((refl, h), k))
        ])
  | inr (inr e) ↦
      (let on : ends_run (tier_outcome t) ≡ false = ap ends_run e in
        elim (try_tiers-cases last ts) [
          | inl h ↦ simp e (inl (EndsWith-later _ t ts on h))
          | inr (h, k) ↦ simp e (inr ((refl, h), k))
        ])
]

-- A run over a ladder ends with what its first tier says that ends a run, and fails when there is none.
pub finish_run-ladder :
    (call : Call) (f : Fixer)
    → call.sleep_cancelled ≡ false
    → is_empty call.ladder ≡ false
    → let r = (finish_run call f).1 in
      EndsWith r call.ladder ⊎ (NeverEnds call.ladder × ((e : Failure) × (r ≡ fail e)))
unfolding finish_run
finish_run-ladder call f awake some_tier =
    rw (awake, some_tier) (try_tiers-cases empty_ladder call.ladder)
