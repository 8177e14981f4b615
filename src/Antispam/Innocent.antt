-- ===== src/Antispam/Innocent.antt =====
-- Who is not taken for a spammer by the direct test of `observe` (antispam.py): a sender who writes
-- to one group only.
use telegram_br.Base.{
  ℕ, zero, suc, ◌+◌, ◌-◌, ◌%◌, ◌≤◌, ◌≡◌, refl, ap, ◌⊎◌, inl, inr, Bool, true, false, ◌&&◌, Option,
  none, some, List, [], ◌∷◌, ◌++◌, arith, ltb, ◌==◌, Bool-cases, Time, seconds, length, drop, keep,
  All, elem, Dict, lookup, ==_refl,
}
use telegram_br.Antispam.{
  Text, Entry, Config, Library, WatchEntry, Engine, trim, drop_old, live_watch, lazy_sweep,
}
use telegram_br.Antispam.Observe.{Message, entry_of, next_activity, is_watched, remember, observe}
use telegram_br.Antispam.Reasons.{watch_reasons, chats, spread, within, is_nil, is_alike}
use telegram_br.Antispam.Branches.{decide-by, observe-by}
use telegram_br.Antispam.Listing.{is_spam, add_to_watch-allows}

-- All these messages stand in one group.
abbrev pub InGroup : ℕ → List Entry → Type 0
InGroup c rs = All (λ (r : Entry). r.chat ≡ c) rs

keep-InGroup : (c : ℕ) (p : Entry → Bool) (rs : List Entry) → InGroup c rs → InGroup c (keep p rs)
keep-InGroup c p [] w = w
keep-InGroup c p (r ∷ rs) (h, w) = elim (Bool-cases (p r)) [
  | inl held ↦ rw held (h, keep-InGroup c p rs w)
  | inr lost ↦ rw lost (keep-InGroup c p rs w)
]

drop-InGroup : (c n : ℕ) (rs : List Entry) → InGroup c rs → InGroup c (drop n rs)
drop-InGroup c zero rs w = w
drop-InGroup c (suc n) [] w = w
drop-InGroup c (suc n) (r ∷ rs) (h, w) = drop-InGroup c n rs w

drop_old-InGroup :
    (c : ℕ) (now : Time) (rs : List Entry) → InGroup c rs → InGroup c (drop_old now rs)
drop_old-InGroup c now [] w = w
drop_old-InGroup c now (r ∷ rs) (h, w) = elim (Bool-cases (ltb (seconds 1800) (now - r.at))) [
  | inl old ↦ rw old (drop_old-InGroup c now rs w)
  | inr young ↦ rw young (h, w)
]

trim-InGroup : (c n : ℕ) (now : Time) (rs : List Entry) → InGroup c rs → InGroup c (trim n now rs)
unfolding trim
trim-InGroup c n now rs w =
    drop_old-InGroup c now (drop (length rs - n) rs) (drop-InGroup c (length rs - n) rs w)

append-InGroup :
    (c : ℕ) (rs : List Entry) (r : Entry) → InGroup c rs → r.chat ≡ c → InGroup c (rs ++ r ∷ [])
append-InGroup c [] r w h = (h, tt)
append-InGroup c (s ∷ rs) r (g, w) h = (g, append-InGroup c rs r w h)

chats-InGroup : (c : ℕ) (rs : List Entry) → InGroup c rs → (chats rs ≡ []) ⊎ (chats rs ≡ c ∷ [])
chats-InGroup c [] w = inl refl
chats-InGroup c (r ∷ rs) (h, w) = elim (chats-InGroup c rs w) [
  | inl none_yet ↦ inr (rw none_yet (ap (λ i. i ∷ []) h))
  | inr found ↦ inr (rw (found, h, ==_refl c) refl)
]

length-chats-le : (c : ℕ) (rs : List Entry) → InGroup c rs → length (chats rs) ≤ 1
length-chats-le c rs w = elim (chats-InGroup c rs w) [
  | inl nothing ↦ rw nothing (omega arith)
  | inr found ↦ rw found (omega arith)
]

spread-InGroup :
    (cfg : Config) (lib : Library) (c : ℕ) (now : Time) (norm : Text) (rs : List Entry)
    → InGroup c rs
    → InGroup c (spread cfg lib now norm rs)
unfolding spread
spread-InGroup cfg lib c now norm rs w = elim (Bool-cases (is_nil norm)) [
  | inl nothing ↦ rw nothing (keep-InGroup c (within now cfg.direct_window) rs w)
  | inr words ↦
      rw words
        (keep-InGroup c (λ r. within now cfg.direct_window r && is_alike cfg lib norm r) rs w)
]

-- The group of a sender's messages on record: none but this one.
abbrev pub OnlyIn : ℕ → Option (List Entry) → Type 0
OnlyIn c none = Unit
OnlyIn c (some rs) = InGroup c rs

next_activity-InGroup :
    (cfg : Config) (lib : Library) (now : Time) (m : Message) (old : Option (List Entry))
    → OnlyIn m.chat old
    → InGroup m.chat (next_activity cfg lib now m old)
next_activity-InGroup cfg lib now m none w =
    trim-InGroup m.chat cfg.memory_per_user now (entry_of now m ∷ []) (refl, tt)
next_activity-InGroup cfg lib now m (some rs) w =
    trim-InGroup m.chat cfg.memory_per_user now (rs ++ entry_of now m ∷ [])
      (append-InGroup m.chat rs (entry_of now m) w refl)

lookup-live_watch :
    (i : ℕ) (now : Time) (w : Dict WatchEntry)
    → lookup i w ≡ none
    → lookup i (live_watch now w) ≡ none
lookup-live_watch i now [] e = refl
lookup-live_watch i now ((j, x) ∷ w) e = elim (Bool-cases (j == i)) [
  | inl here ↦ some_none (rw here at e)
  | inr other ↦
      let rest = lookup-live_watch i now w (rw other at e) in
      elim (Bool-cases (ltb x.until now)) [
        | inl old ↦ rw old rest
        | inr live ↦ rw (live, other) rest
      ]
]
  where
    some_none : some x ≡ none → lookup i (live_watch now ((j, x) ∷ w)) ≡ none
    some_none e = absurd (ground arith)

lookup-remember :
    (cfg : Config) (lib : Library) (now : Time) (m : Message) (old : Option (List Entry))
    (g : Engine)
    → lookup m.sender g.watch ≡ none
    → lookup m.sender (remember cfg lib now m old g).watch ≡ none
unfolding remember lazy_sweep
lookup-remember cfg lib now m old g e = elim (Bool-cases ((g.sweeps + 1) % 200 == 0)) [
  | inl due ↦ rw due (lookup-live_watch m.sender now g.watch e)
  | inr early ↦ rw early e
]

unseen_lookup :
    (cfg : Config) (lib : Library) (now : Time) (o : Option WatchEntry)
    → o ≡ none
    → is_watched cfg lib now o ≡ true
    → false ≡ true
unseen_lookup cfg lib now o e seen = rw e at seen

-- A sender who is neither on the permanent list nor watched, and all of whose messages on record
-- stand in the group of the new one, is not found to be a spammer by it, however often, how fast
-- and with what texts these messages came; at most it starts a watch.
pub observe-one_group :
    (cfg : Config) (lib : Library) (ok : Bool) (now : Time) (m : Message) (g : Engine)
    → elem m.sender g.ignored ≡ false
    → lookup m.sender g.watch ≡ none
    → OnlyIn m.chat (lookup m.sender (lib.live_activities now g.activities))
    → is_spam (observe cfg lib ok now m g).1 ≡ false
observe-one_group cfg lib ok now m g new unseen one =
    let old = lookup m.sender (lib.live_activities now g.activities) in
    let act = next_activity cfg lib now m old in
    let few = length-chats-le m.chat (spread cfg lib now m.norm act) (
      spread-InGroup cfg lib m.chat now m.norm act (next_activity-InGroup cfg lib now m old one)) in
    observe-by cfg lib ok now m (λ s. is_spam s.1 ≡ false) g refl refl
      (λ on real known. ground arith)
      (λ on real fresh.
        decide-by cfg lib ok now m (λ s. is_spam s.1 ≡ false) act (remember cfg lib now m old g)
          (λ direct. ground (arith, few))
          (λ seen. ground (
            arith,
            unseen_lookup cfg lib now (lookup m.sender (remember cfg lib now m old g).watch)
                (lookup-remember cfg lib now m old g unseen) seen,
          ))
          (add_to_watch-allows cfg lib ok now m.sender (watch_reasons cfg lib now m.norm act)
            (remember cfg lib now m old g)))
