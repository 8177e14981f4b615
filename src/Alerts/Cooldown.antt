-- ===== src/Alerts/Cooldown.antt =====
-- The cooldown of a sender (database.py): a receipt takes effect at once, whatever the cache held.
use telegram_br.Base.{
  ℕ, ◌+◌, ◌<◌, ◌≡◌, refl, inl, inr, Bool, true, false, not, ◌&&◌, ◌||◌, some, List, [], ◌∷◌, arith,
  ltb, ◌==◌, is_some, Bool-cases, if-by, Time, seconds, keep, any, All, elem, Dict, lookup, insert,
  erase, lookup-insert_self,
}
use telegram_br.Alerts.{
  AlertRecord, SenderRow, Alerts, Outcome, sent_at, insert_receipt, add_alert_immediate, cooled,
  live, make_room, answer_or, can_send_alert,
}

-- A sender whose last alert is less than 30 seconds old, and of whom nothing is cached.
cooled-recent :
    (cooldown now : Time) (row : SenderRow)
    → 0 < row.last_alert_time
    → now < row.last_alert_time + seconds 30
    → cooled cooldown now (some row) ≡ false
cooled-recent cooldown now row h l = ground (arith, h, l)

-- Whether some entry of the cache lets the sender have an alert.
abbrev allows : ℕ → ℕ × (Bool × Time) → Bool
allows sid e = e.0 == sid && e.1.0

abbrev any_allows : ℕ → Dict (Bool × Time) → Bool
any_allows sid cache = any (allows sid) cache

allows-insert :
    (sid k : ℕ) (allowed : Bool) (end : Time) (d : Dict (Bool × Time))
    → any_allows sid d ≡ false
    → (k == sid && allowed) ≡ false
    → any_allows sid (insert k (allowed, end) d) ≡ false
allows-insert sid k allowed end [] h e = ground (arith, e)
allows-insert sid k allowed end (x ∷ d) h e =
    ground (arith, allows-insert sid k allowed end d, h, e)

allows-erase : (sid : ℕ) (d : Dict (Bool × Time)) → any_allows sid (erase sid d) ≡ false
allows-erase sid [] = refl
allows-erase sid (x ∷ d) = ground (arith, allows-erase sid d)

allows-keep :
    (sid : ℕ) (p : ℕ × (Bool × Time) → Bool) (d : Dict (Bool × Time))
    → any_allows sid d ≡ false
    → any_allows sid (keep p d) ≡ false
allows-keep sid p [] h = refl
allows-keep sid p (x ∷ d) h = ground (arith, allows-keep sid p d, h)

allows-make_room :
    (sid : ℕ) (now : Time) (d : Dict (Bool × Time))
    → any_allows sid d ≡ false
    → any_allows sid (make_room now d) ≡ false
unfolding make_room
allows-make_room sid now d h = ground (arith, allows-keep sid (λ e. ltb now e.1.1) d h, h)

-- What the cache answers, if anything, is no.
answer_or-denied :
    (sid : ℕ) (now : Time) (d : Dict (Bool × Time))
    → any_allows sid d ≡ false
    → answer_or (live now (lookup sid d)) false ≡ false
answer_or-denied sid now [] h = refl
answer_or-denied sid now ((k, (true, end)) ∷ d) h = elim (Bool-cases (k == sid)) [
  | inl e ↦ absurd (ground (arith, e, h))
  | inr e ↦ rw e (answer_or-denied sid now d (ground (arith, e, h)))
]
answer_or-denied sid now ((k, (false, end)) ∷ d) h = elim (Bool-cases (k == sid)) [
  | inl e ↦ ground (arith, e)
  | inr e ↦ rw e (answer_or-denied sid now d (ground (arith, e, h)))
]

-- A query: whether the database answers, of which sender, when.
abbrev pub Query : Type 0
Query = Bool × (ℕ × Time)

module _ (cooldown ttl : Time) where
  -- The queries one after the other.
  unfoldable pub ask_all : List Query → Alerts → Alerts
  ask_all [] a = a
  ask_all ((reads, (sid, now)) ∷ asked) a =
      ask_all asked (can_send_alert reads cooldown ttl sid now a).0

  abbrev pub Before : Time → List Query → Type 0
  Before end = All (λ ask. ask.1.1 < end)

  module _ (sid : ℕ) (row : SenderRow) (recent : 0 < row.last_alert_time) where
    -- The sender's row is this one, and no entry of the cache lets the sender have an alert.
    abbrev IsCold : Alerts → Type 0
    IsCold a = (lookup sid a.senders ≡ some row) × (any_allows sid a.can_send_cache ≡ false)

    not_cooled :
        (k : ℕ) (now : Time) (a : Alerts)
        → now < row.last_alert_time + seconds 30
        → IsCold a
        → (k == sid && cooled cooldown now (lookup k a.senders)) ≡ false
    not_cooled k now a soon (known, denied) = elim (Bool-cases (k == sid)) [
      | inl e ↦
          let same : k ≡ sid = ground (arith, e) in
          rw (e, same, known) (cooled-recent cooldown now row recent soon)
      | inr e ↦ rw e refl
    ]

    can_send_alert-IsCold :
        (reads : Bool) (k : ℕ) (now : Time) (a : Alerts)
        → now < row.last_alert_time + seconds 30
        → IsCold a
        → IsCold (can_send_alert reads cooldown ttl k now a).0
    unfolding can_send_alert
    can_send_alert-IsCold reads k now a soon (known, denied) =
        if-by {A = Alerts} IsCold (is_some (live now (lookup k a.can_send_cache)) || not reads) _ _
          (λ e. (known, denied))
          (λ e. (
            known,
            allows-insert sid k _ _ (make_room now a.can_send_cache)
                (allows-make_room sid now a.can_send_cache denied)
                (not_cooled k now a soon (known, denied)),
          ))

    ask_all-IsCold :
        (asked : List Query) (a : Alerts)
        → Before (row.last_alert_time + seconds 30) asked
        → IsCold a
        → IsCold (ask_all asked a)
    unfolding ask_all
    ask_all-IsCold [] a soon c = c
    ask_all-IsCold ((reads, (k, now)) ∷ asked) a (soon, rest) c =
        ask_all-IsCold asked (can_send_alert reads cooldown ttl k now a).0 rest
          (can_send_alert-IsCold reads k now a soon c)

    can_send_alert-cold :
        (now : Time) (a : Alerts)
        → now < row.last_alert_time + seconds 30
        → IsCold a
        → (can_send_alert true cooldown ttl sid now a).1 ≡ false
    unfolding can_send_alert
    can_send_alert-cold now a soon (known, denied) =
        rw (known, cooled-recent cooldown now row recent soon)
          (answer_or-denied sid now a.can_send_cache denied)

  -- After a new receipt of an alert to a sender who has a row, where both statements of the receipt
  -- go through (written and counted) and its time is not zero, the sender may get no further alert
  -- within 30 seconds of that time: whatever the cooldown is set to, whatever the score is, whatever
  -- the cache had said before, and however many queries, of this sender and of others, come in
  -- between within these 30 seconds, each answered by the database or failing. The database answers
  -- the last query; no other receipt and no flush comes in between.
  pub add_alert_immediate-can_send_alert :
      (batch_max : ℕ) (rec : AlertRecord) (row : SenderRow) (a : Alerts) (asked : List Query)
      (now : Time)
      → elem rec.message_hash a.table ≡ false
      → lookup rec.sender_id a.senders ≡ some row
      → 0 < rec.timestamp
      → Before (rec.timestamp + seconds 30) asked
      → now < rec.timestamp + seconds 30
      → let out : Outcome = record { written = true; counted = true } in
        let after = ask_all asked (add_alert_immediate batch_max out rec a).0 in
        (can_send_alert true cooldown ttl rec.sender_id now after).1 ≡ false
  unfolding add_alert_immediate insert_receipt
  add_alert_immediate-can_send_alert batch_max rec row a asked now new known h soon last =
      let sent = sent_at 1 rec.timestamp row in
      let start : IsCold rec.sender_id sent h
          (add_alert_immediate batch_max (record { written = true; counted = true }) rec a).0 =
        rw (new, known)
          (
            lookup-insert_self rec.sender_id sent a.senders,
            allows-erase rec.sender_id a.can_send_cache,
          ) in
      can_send_alert-cold rec.sender_id sent h now _ last
        (ask_all-IsCold rec.sender_id sent h asked _ soon start)
