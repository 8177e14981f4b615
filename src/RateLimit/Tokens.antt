-- ===== src/RateLimit/Tokens.antt =====
-- How many calls the token bucket lets through.
use telegram_br.Base.{
  ℕ, ◌+◌, ◌-◌, ◌*◌, ◌/◌, ◌≤◌, max, ◌≡◌, refl, Bool, [], ◌∷◌, arith, ltb, leb, if◌then◌else◌, if-by,
  Time, length, lookup, insert,
}
use telegram_br.RateLimit.{
  Limits, Limiter, init, token, pop_old, minute, prune, refill, stamps_of, grant, can_proceed,
}
use telegram_br.RateLimit.Windows.{Calls, AreOrdered, grants}

abbrev pub AreBefore : Time → Calls → Type 0
AreBefore until [] = Unit
AreBefore until ((a, t) ∷ cs) = (t ≤ until) × AreBefore until cs

module _ (lim : Limits) where
  abbrev Pays : Time → ℕ → Limiter × Bool → Type 0
  Pays t n p = (p.0.tokens + (if p.1 then token else 0) ≤ n) × (p.0.last_refill ≡ t)

  grant-Pays :
      (a : ℕ) (t : Time) (l : Limiter)
      → token ≤ l.tokens
      → l.last_refill ≡ t
      → Pays t l.tokens (grant lim a t l)
  unfolding grant
  grant-Pays a t l enough e =
      if-by (Pays t l.tokens)
        (leb
          (max 1 (
            lim.max_per_minute
            / max (length (insert a (pop_old minute t (stamps_of (lookup a l.acct))) l.acct)) 1))
          (length (pop_old minute t (stamps_of (lookup a l.acct)))))
        _ _ (λ full. (omega arith, e)) (λ room. (omega arith, e))

  can_proceed-tokens :
      (a : ℕ) (t : Time) (l : Limiter)
      → Pays t (l.tokens + (t - l.last_refill) * lim.max_per_minute) (can_proceed lim a t l)
  unfolding can_proceed prune refill
  can_proceed-tokens a t l =
      let g = prune t (refill lim t l) in
      let P = Pays t (l.tokens + (t - l.last_refill) * lim.max_per_minute) in
      if-by P (leb lim.max_per_minute (length g.min_win)) _ _ (λ full. (omega arith, refl))
        (λ e.
          if-by P (leb lim.max_per_hour (length g.hr_win)) _ _ (λ full. (omega arith, refl))
            (λ e.
              if-by P (ltb g.tokens token) _ _ (λ few. (omega arith, refl))
                (λ e.
                  let paid = grant-Pays a t g (ground arith) refl in
                  (omega (arith, paid.0), paid.1))))

  times-split : (x y z m : ℕ) → x ≤ y → y ≤ z → (z - x) * m ≡ (z - y) * m + (y - x) * m
  times-split x y z m h k = let e : z - x ≡ (z - y) + (y - x) = omega arith in rw e (grind arith)

  grants-tokens :
      (until : Time) (cs : Calls) (l : Limiter)
      → AreOrdered l.last_refill cs
      → AreBefore until cs
      → l.last_refill ≤ until
      → length (grants lim cs l) * token ≤ l.tokens + (until - l.last_refill) * lim.max_per_minute
  unfolding grants
  grants-tokens until [] l ord end h = omega arith
  grants-tokens until ((a, t) ∷ cs) l (o, ord) (b, end) h =
      let p = can_proceed lim a t l in
      let paid = can_proceed-tokens a t l in
      let rest = grants-tokens until cs p.0 (rw paid.1 ord) end (rw paid.1 b) in
      let split = times-split l.last_refill t until lim.max_per_minute o b in
      let rest' : length (grants lim cs p.0) * token
          ≤ p.0.tokens + (until - t) * lim.max_per_minute =
        rw paid.1 at rest in
      ground (arith, paid.0, rest', split)

-- Up to any time, the calls granted, each a token, are at most the burst and what the minute's rate
-- has added since the start; the clock does not go back.
pub grants-paced :
    (lim : Limits) (start until : Time) (cs : Calls)
    → start ≤ until
    → AreOrdered start cs
    → AreBefore until cs
    → length (grants lim cs (init lim start)) * token
      ≤ lim.burst_size * token + (until - start) * lim.max_per_minute
unfolding init
grants-paced lim start until cs h ord end = grants-tokens lim until cs (init lim start) ord end h
