-- ===== src/Card/Scans.antt =====
-- The scan for tags and the stack of open tags (unified_alerts/card.py) on a text and its
-- continuation.
use telegram_br.Base.{
  ℕ, zero, suc, ◌+◌, ◌≤◌, ◌<◌, ◌≡◌, refl, sym, ap, inl, inr, Bool, true, false, Option, none, some,
  List, [], ◌∷◌, ◌++◌, arith, leb, ◌==◌, Bool-cases, length, All, elem, append_assoc,
}
use mathlib.Core.Path.{subst}
use telegram_br.Texts.{Text}
use telegram_br.Card.{
  Tables, Kind, Event, event_of, skipped, scan, insert_event, sort_events, apply_event, stack_after,
}
use telegram_br.Card.Tags.{is_tagged, tag_size, IsMatch, IsTagSearch}

-- What may still be skipped: nothing outside of a tag, and at most the rest of it inside.
abbrev MaySkip : Bool → ℕ → Text → Type 0
MaySkip false skip t = skip ≡ 0
MaySkip true skip t = skip ≤ tag_size t

skipped-le : (t : Text) (o : Option (ℕ × Text)) → IsMatch (60 ∷ t) o → skipped o ≤ tag_size t
skipped-le t none w = omega arith
skipped-le t (some (n, name)) w = omega (arith, w)

module _ (py : Tables) (tag : Text → Option (ℕ × Text)) (search : IsTagSearch tag)
    (kind : Kind) where
  scan-none :
      (start c : ℕ) (t : Text)
      → (c == 60) ≡ false
      → scan py tag kind start 0 (c ∷ t) ≡ scan py tag kind (suc start) 0 t
  unfolding scan
  scan-none start c t e = rw (search.starts c t e) refl

  scan-begin :
      (start fin : ℕ) (t r : Text)
      → is_tagged true t ≡ true
      → scan py tag kind (suc start) (skipped (tag (60 ∷ t))) (t ++ r)
        ≡ scan py tag kind (suc start) (skipped (tag (60 ∷ t))) t ++ scan py tag kind fin 0 r
      → scan py tag kind start 0 (60 ∷ (t ++ r))
        ≡ scan py tag kind start 0 (60 ∷ t) ++ scan py tag kind fin 0 r
  unfolding scan
  scan-begin start fin t r h rest =
      rw (search.append t r h, rest)
        (sym (append_assoc (event_of py kind start (tag (60 ∷ t))) _ _))

  -- The tags of a text and its continuation are those of the text and those of the continuation.
  pub scan-append :
      (inside : Bool) (t r : Text) (start skip fin : ℕ)
      → is_tagged inside t ≡ true
      → MaySkip inside skip t
      → start + length t ≡ fin
      → scan py tag kind start skip (t ++ r)
        ≡ scan py tag kind start skip t ++ scan py tag kind fin 0 r
  unfolding is_tagged scan
  scan-append true [] r start skip fin h m e = absurd (ground arith)
  scan-append false [] r start skip fin h m e =
      let f : start ≡ fin = omega arith in
      subst (λ k. scan py tag kind start k r ≡ scan py tag kind fin 0 r) (sym m)
        (ap (λ k. scan py tag kind k 0 r) f)
  scan-append true (c ∷ t) r start (suc skip) fin h m e = elim (Bool-cases (c == 62)) [
    | inl gt ↦
        scan-append false t r (suc start) skip fin (ground arith) (ground arith) (omega arith)
    | inr other ↦
        scan-append true t r (suc start) skip fin (ground arith) (ground arith) (omega arith)
  ]
  scan-append false (c ∷ t) r start (suc skip) fin h m e = absurd (ground arith)
  scan-append true (c ∷ t) r start zero fin h m e =
      let other : (c == 60) ≡ false = ground arith in
      rw (scan-none start c (t ++ r) other, scan-none start c t other)
        (elim (Bool-cases (c == 62)) [
          | inl gt ↦ scan-append false t r (suc start) 0 fin (ground arith) refl (omega arith)
          | inr in_tag ↦
              scan-append true t r (suc start) 0 fin (ground arith) (omega arith) (omega arith)
        ])
  scan-append false (c ∷ t) r start zero fin h m e = elim (Bool-cases (c == 60)) [
    | inl lt ↦
        let tagged : is_tagged true t ≡ true = ground arith in
        let at : c ≡ 60 = ground arith in
        subst
          (λ d.
            scan py tag kind start 0 (d ∷ (t ++ r))
            ≡ scan py tag kind start 0 (d ∷ t) ++ scan py tag kind fin 0 r)
          (sym at)
          (scan-begin start fin t r tagged (
            scan-append true t r (suc start) (skipped (tag (60 ∷ t))) fin tagged
              (skipped-le t (tag (60 ∷ t)) (search.ends t tagged)) (omega arith)))
    | inr other ↦
        rw (scan-none start c (t ++ r) other, scan-none start c t other)
          (scan-append false t r (suc start) 0 fin (ground arith) refl (omega arith))
  ]

  -- A text without a `<` has no tags.
  pub scan-plain : (start : ℕ) (t : Text) → elem 60 t ≡ false → scan py tag kind start 0 t ≡ []
  unfolding scan
  scan-plain start [] h = refl
  scan-plain start (c ∷ t) h =
      rw (search.starts c t (ground arith)) (scan-plain (suc start) t (ground arith))

-- All starts are below a bound.
abbrev pub AreBefore : ℕ → List Event → Type 0
AreBefore fin = All (λ e. e.start < fin)

pub AreBefore-append :
    (fin : ℕ) (xs ys : List Event) → AreBefore fin xs → AreBefore fin ys → AreBefore fin (xs ++ ys)
AreBefore-append fin [] ys a b = b
AreBefore-append fin (x ∷ xs) ys (h, a) b = (h, AreBefore-append fin xs ys a b)

event_of-AreBefore :
    (py : Tables) (kind : Kind) (start fin : ℕ) (o : Option (ℕ × Text))
    → start < fin
    → AreBefore fin (event_of py kind start o)
event_of-AreBefore py kind start fin none h = tt
event_of-AreBefore py kind start fin (some (n, name)) h = (h, tt)

pub scan-AreBefore :
    (py : Tables) (tag : Text → Option (ℕ × Text)) (kind : Kind) (start skip fin : ℕ) (t : Text)
    → start + length t ≤ fin
    → AreBefore fin (scan py tag kind start skip t)
unfolding scan
scan-AreBefore py tag kind start skip fin [] h = tt
scan-AreBefore py tag kind start (suc skip) fin (c ∷ t) h =
    scan-AreBefore py tag kind (suc start) skip fin t (omega arith)
scan-AreBefore py tag kind start zero fin (c ∷ t) h =
    AreBefore-append fin (event_of py kind start (tag (c ∷ t))) _
      (event_of-AreBefore py kind start fin (tag (c ∷ t)) (omega arith))
      (scan-AreBefore py tag kind (suc start) (skipped (tag (c ∷ t))) fin t (omega arith))

-- The starts rise, from a bound on.
abbrev pub Rises : ℕ → List Event → Type 0
Rises low [] = Unit {0}
Rises low (e ∷ events) = (low ≤ e.start) × Rises e.start events

insert_event-first :
    (e : Event) (ds : List Event) (low : ℕ)
    → e.start ≤ low
    → Rises low ds
    → insert_event e ds ≡ e ∷ ds
insert_event-first e [] low h r = refl
insert_event-first e (d ∷ ds) low h (l, r) =
    let first : leb e.start d.start ≡ true = ground arith in rw first refl

insert_event-append :
    (e : Event) (xs ds : List Event) (low : ℕ)
    → e.start ≤ low
    → Rises low ds
    → insert_event e (xs ++ ds) ≡ insert_event e xs ++ ds
insert_event-append e [] ds low h r = insert_event-first e ds low h r
insert_event-append e (x ∷ xs) ds low h r = elim (Bool-cases (leb e.start x.start)) [
  | inl first ↦ rw first refl
  | inr later ↦ rw (later, insert_event-append e xs ds low h r) refl
]

pub Rises-later : (a b : ℕ) (ds : List Event) → a ≤ b → Rises b ds → Rises a ds
Rises-later a b [] h r = tt
Rises-later a b (d ∷ ds) h (l, r) = (omega arith, r)

pub sort_events-rising : (ds : List Event) (low : ℕ) → Rises low ds → sort_events ds ≡ ds
sort_events-rising [] low r = refl
sort_events-rising (d ∷ ds) low (l, r) =
    rw (sort_events-rising ds d.start r) (insert_event-first d ds d.start (omega arith) r)

-- Events that come after all others stay behind them.
pub sort_events-append :
    (xs ds : List Event) (low : ℕ)
    → AreBefore low xs
    → Rises low ds
    → sort_events (xs ++ ds) ≡ sort_events xs ++ ds
sort_events-append [] ds low b r = sort_events-rising ds low r
sort_events-append (x ∷ xs) ds low (h, b) r =
    rw (sort_events-append xs ds low b r)
      (insert_event-append x (sort_events xs) ds low (omega arith) r)

pub stack_after-append :
    (xs ds : List Event) (stack : List Text)
    → stack_after (xs ++ ds) stack ≡ stack_after ds (stack_after xs stack)
stack_after-append [] ds stack = refl
stack_after-append (x ∷ xs) ds stack = stack_after-append xs ds (apply_event x.kind x.name stack)
