-- ===== src/Capture/Deleted.antt =====
-- The claim of deleted messages in `FastCaptureBuffer` (monitors.py): at most one worker gets each.
use telegram_br.Base.{
  ℕ, zero, suc, ◌-◌, ◌≡◌, refl, inl, inr, Bool, true, false, not, ◌&&◌, ◌||◌, Option, none, some,
  List, [], ◌∷◌, ◌++◌, arith, ltb, ◌==◌, is_some, Bool-cases, Time, seconds, length, drop, keep,
  any, All, ==_iff,
}
use telegram_br.Capture.{
  Entry, Buffer, Message, key_of, has_key, has_msg, find_first, update_where, is_expired, merge,
  new_entry, gc, shrink, save_entry, save, take_fresh, lookup_entry, change_entry, set_queued,
  set_alerted, set_claimed, claim_entry, claim_deleted, clear, Call, saves, looks_up, marks_queued,
  marks_alerted, claims, clears, perform, perform_all,
}

abbrev pub is_claimed : ℕ → ℕ → Entry → Bool
is_claimed c m e = not (has_key c m e) || e.deleted_claimed

-- No entry of this key is there to be claimed.
pub IsTaken : ℕ → ℕ → Buffer → Type 0
IsTaken c m b = All (λ e. is_claimed c m e ≡ true) b.buf

-- Whether a call saves a message under this key.
abbrev pub saves_key : ℕ → ℕ → Call → Bool
saves_key c m (saves now msg) = key_of msg.chat_id == c && msg.msg_id == m
saves_key c m (looks_up now d n) = false
saves_key c m (marks_queued now d n) = false
saves_key c m (marks_alerted now d n) = false
saves_key c m (claims now d n) = false
saves_key c m clears = false

abbrev all_some : (Entry → Bool) → Option Entry → Bool
all_some p none = true
all_some p (some e) = p e

module _ (c m : ℕ) where
  keep-taken :
      (p : Entry → Bool) (es : List Entry)
      → All (λ e. is_claimed c m e ≡ true) es
      → All (λ e. is_claimed c m e ≡ true) (keep p es)
  keep-taken p [] w = w
  keep-taken p (e ∷ es) (h, w) = elim (Bool-cases (p e)) [
    | inl held ↦ rw held (h, keep-taken p es w)
    | inr lost ↦ rw lost (keep-taken p es w)
  ]

  drop-taken :
      (n : ℕ) (es : List Entry)
      → All (λ e. is_claimed c m e ≡ true) es
      → All (λ e. is_claimed c m e ≡ true) (drop n es)
  drop-taken zero es w = w
  drop-taken (suc n) [] w = w
  drop-taken (suc n) (e ∷ es) (h, w) = drop-taken n es w

  append-taken :
      (x : Entry) (es : List Entry)
      → is_claimed c m x ≡ true
      → All (λ e. is_claimed c m e ≡ true) es
      → All (λ e. is_claimed c m e ≡ true) (es ++ x ∷ [])
  append-taken x [] h w = (h, w)
  append-taken x (e ∷ es) h (g, w) = (g, append-taken x es h w)

  update_where-taken :
      (p : Entry → Bool) (f : Entry → Entry) (es : List Entry)
      → ((e : Entry) → is_claimed c m e ≡ true → is_claimed c m (f e) ≡ true)
      → All (λ e. is_claimed c m e ≡ true) es
      → All (λ e. is_claimed c m e ≡ true) (update_where p f es)
  update_where-taken p f [] keeps w = w
  update_where-taken p f (e ∷ es) keeps (h, w) = elim (Bool-cases (p e)) [
    | inl held ↦ rw held (keeps e h, update_where-taken p f es keeps w)
    | inr lost ↦ rw lost (h, update_where-taken p f es keeps w)
  ]

  gc-IsTaken : (now : Time) (b : Buffer) → IsTaken c m b → IsTaken c m (gc now b)
  unfolding IsTaken gc
  gc-IsTaken now b w = elim (Bool-cases (ltb (now - b.last_gc) (seconds 5))) [
    | inl early ↦ rw early w
    | inr due ↦ rw due (keep-taken (λ e. not (is_expired b.ttl now e)) b.buf w)
  ]

  save_entry-IsTaken :
      (now : Time) (msg : Message) (b : Buffer)
      → saves_key c m (saves now msg) ≡ false
      → IsTaken c m b
      → IsTaken c m (save_entry now msg b)
  unfolding IsTaken save_entry shrink
  save_entry-IsTaken now msg b other w =
      elim (Bool-cases (any (has_key (key_of msg.chat_id) msg.msg_id) b.buf)) [
        | inl here ↦ rw here (
            update_where-taken (has_key (key_of msg.chat_id) msg.msg_id) (merge msg) b.buf
              (λ e h. h) w)
        | inr fresh ↦
            let all = b.buf ++ new_entry now msg ∷ [] in
            rw fresh (
              drop-taken (length all - b.maxsize) all
                (append-taken (new_entry now msg) b.buf (rw other refl) w))
      ]

  take_fresh-IsTaken :
      (now : Time) (o : Option Entry) (b : Buffer)
      → IsTaken c m b
      → IsTaken c m (take_fresh now o b).0
  unfolding IsTaken take_fresh
  take_fresh-IsTaken now none b w = w
  take_fresh-IsTaken now (some e) b w = elim (Bool-cases (is_expired b.ttl now e)) [
    | inl old ↦ rw old (keep-taken (λ x. not (has_key e.chat_id e.msg_id x)) b.buf w)
    | inr young ↦ rw young w
  ]

  lookup_entry-IsTaken :
      (now : Time) (d : Option ℕ) (n : ℕ) (b : Buffer)
      → IsTaken c m b
      → IsTaken c m (lookup_entry now d n b).0
  unfolding lookup_entry
  lookup_entry-IsTaken now none n b w = take_fresh-IsTaken now (find_first (has_msg n) b.buf) b w
  lookup_entry-IsTaken now (some d) n b w =
      take_fresh-IsTaken now (find_first (has_key d n) b.buf) b w

  change_entry-IsTaken :
      (f : Entry → Entry) (s : Buffer × Option Entry)
      → ((e : Entry) → is_claimed c m e ≡ true → is_claimed c m (f e) ≡ true)
      → IsTaken c m s.0
      → IsTaken c m (change_entry f s)
  unfolding IsTaken change_entry
  change_entry-IsTaken f (b, none) keeps w = w
  change_entry-IsTaken f (b, some e) keeps w =
      update_where-taken (has_key e.chat_id e.msg_id) f b.buf keeps w

  claim_entry-IsTaken :
      (s : Buffer × Option Entry) → IsTaken c m s.0 → IsTaken c m (claim_entry s).0
  unfolding claim_entry change_entry
  claim_entry-IsTaken (b, none) w = w
  claim_entry-IsTaken (b, some e) w = elim (Bool-cases e.deleted_claimed) [
    | inl claimed ↦ rw claimed w
    | inr unclaimed ↦
        rw unclaimed (change_entry-IsTaken set_claimed (b, some e) (λ x h. ground arith) w)
  ]

  clear-IsTaken : (b : Buffer) → IsTaken c m (clear b)
  unfolding IsTaken
  clear-IsTaken b = tt

  perform-IsTaken :
      (k : Call) (b : Buffer) → saves_key c m k ≡ false → IsTaken c m b → IsTaken c m (perform k b)
  unfolding perform save
  perform-IsTaken (saves now msg) b other w =
      save_entry-IsTaken now msg (gc now b) other (gc-IsTaken now b w)
  perform-IsTaken (looks_up now d n) b other w = lookup_entry-IsTaken now d n b w
  perform-IsTaken (marks_queued now d n) b other w =
      change_entry-IsTaken set_queued (lookup_entry now d n b) (λ e h. h)
        (lookup_entry-IsTaken now d n b w)
  perform-IsTaken (marks_alerted now d n) b other w =
      change_entry-IsTaken set_alerted (lookup_entry now d n b) (λ e h. h)
        (lookup_entry-IsTaken now d n b w)
  perform-IsTaken (claims now d n) b other w =
      claim_entry-IsTaken (lookup_entry now d n b) (lookup_entry-IsTaken now d n b w)
  perform-IsTaken clears b other w = clear-IsTaken b

  perform_all-IsTaken :
      (ks : List Call) (b : Buffer)
      → All (λ k. saves_key c m k ≡ false) ks
      → IsTaken c m b
      → IsTaken c m (perform_all ks b)
  unfolding perform_all
  perform_all-IsTaken [] b others w = w
  perform_all-IsTaken (k ∷ ks) b (other, others) w =
      perform_all-IsTaken ks (perform k b) others (perform-IsTaken k b other w)

  find_first-has_key :
      (es : List Entry) → all_some (has_key c m) (find_first (has_key c m) es) ≡ true
  find_first-has_key [] = refl
  find_first-has_key (x ∷ es) = elim (Bool-cases (has_key c m x)) [
    | inl held ↦ rw held held
    | inr lost ↦ rw lost (find_first-has_key es)
  ]

  find_first-taken :
      (es : List Entry)
      → All (λ x. is_claimed c m x ≡ true) es
      → all_some (λ e. e.deleted_claimed) (find_first (has_key c m) es) ≡ true
  find_first-taken [] w = refl
  find_first-taken (x ∷ es) (h, w) = elim (Bool-cases (has_key c m x)) [
    | inl held ↦ rw held (rw held at h)
    | inr lost ↦ rw lost (find_first-taken es w)
  ]

  set_claimed-taken :
      (es : List Entry)
      → All (λ x. is_claimed c m x ≡ true) (update_where (has_key c m) set_claimed es)
  set_claimed-taken [] = tt
  set_claimed-taken (x ∷ es) = (ground arith, set_claimed-taken es)

  take_fresh-all_some :
      (p : Entry → Bool) (now : Time) (o : Option Entry) (b : Buffer)
      → all_some p o ≡ true
      → all_some p (take_fresh now o b).1 ≡ true
  unfolding take_fresh
  take_fresh-all_some p now none b h = refl
  take_fresh-all_some p now (some e) b h = elim (Bool-cases (is_expired b.ttl now e)) [
    | inl old ↦ rw old refl
    | inr young ↦ rw young h
  ]

  -- A claim that succeeds leaves no entry of its key to be claimed.
  claim_entry-starts :
      (s : Buffer × Option Entry)
      → all_some (has_key c m) s.1 ≡ true
      → is_some (claim_entry s).1 ≡ true
      → IsTaken c m (claim_entry s).0
  unfolding claim_entry change_entry IsTaken
  claim_entry-starts (b, none) keyed won = ground arith
  claim_entry-starts (b, some e) keyed won =
      let chat : e.chat_id ≡ c = ground (arith, ==_iff e.chat_id c) in
      let msg : e.msg_id ≡ m = ground (arith, ==_iff e.msg_id m) in
      elim (Bool-cases e.deleted_claimed) [
        | inl claimed ↦ ground arith
        | inr unclaimed ↦ rw (unclaimed, chat, msg) (set_claimed-taken b.buf)
      ]

  claim_entry-none :
      (s : Buffer × Option Entry)
      → all_some (λ e. e.deleted_claimed) s.1 ≡ true
      → (claim_entry s).1 ≡ none
  unfolding claim_entry
  claim_entry-none (b, none) h = refl
  claim_entry-none (b, some e) h = rw h refl

  claim_deleted-IsTaken :
      (now : Time) (b : Buffer) → IsTaken c m b → (claim_deleted now (some c) m b).1 ≡ none
  unfolding lookup_entry IsTaken
  claim_deleted-IsTaken now b w =
      claim_entry-none (take_fresh now (find_first (has_key c m) b.buf) b) (
        take_fresh-all_some (λ e. e.deleted_claimed) now (find_first (has_key c m) b.buf) b
          (find_first-taken b.buf w))

  claim_deleted-starts :
      (now : Time) (b : Buffer)
      → is_some (claim_deleted now (some c) m b).1 ≡ true
      → IsTaken c m (claim_deleted now (some c) m b).0
  unfolding lookup_entry
  claim_deleted-starts now b won =
      claim_entry-starts (take_fresh now (find_first (has_key c m) b.buf) b)
        (take_fresh-all_some (has_key c m) now (find_first (has_key c m) b.buf) b
          (find_first-has_key b.buf))
        won

-- When a claim of a deleted message has succeeded, no later claim of it does, whatever other calls
-- the workers make in between, as long as the message is not saved again.
pub claim_deleted_once :
    (c m : ℕ) (first again : Time) (ks : List Call) (b : Buffer)
    → is_some (claim_deleted first (some c) m b).1 ≡ true
    → All (λ k. saves_key c m k ≡ false) ks
    → (claim_deleted again (some c) m (perform_all ks (claim_deleted first (some c) m b).0)).1
      ≡ none
claim_deleted_once c m first again ks b won others =
    claim_deleted-IsTaken c m again (perform_all ks (claim_deleted first (some c) m b).0) (
      perform_all-IsTaken c m ks (claim_deleted first (some c) m b).0 others
        (claim_deleted-starts c m first b won))
