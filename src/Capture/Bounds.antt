-- ===== src/Capture/Bounds.antt =====
-- The size of `FastCaptureBuffer` (monitors.py), under every sequence of calls.
use telegram_br.Base.{
  ℕ, suc, ◌-◌, ◌≤◌, max, ◌≡◌, refl, ap, inl, inr, Bool, not, Option, none, some, List, [], ◌∷◌,
  ◌++◌, arith, Bool-cases, Time, length, any, length-drop, length-keep-le,
}
use telegram_br.Capture.{
  Entry, Buffer, init, Message, key_of, has_key, has_msg, find_first, update_where, is_expired,
  merge, new_entry, gc, shrink, save_entry, save, take_fresh, lookup_entry, change_entry,
  set_queued, set_alerted, set_claimed, claim_entry, clear, Call, saves, looks_up, marks_queued,
  marks_alerted, claims, clears, perform, perform_all,
}

pub IsBounded : ℕ → Buffer → Type 0
IsBounded n b = (b.maxsize ≡ n) × (length b.buf ≤ n)

length-update_where :
    (p : Entry → Bool) (f : Entry → Entry) (es : List Entry)
    → length (update_where p f es) ≡ length es
length-update_where p f [] = refl
length-update_where p f (e ∷ es) = ap suc (length-update_where p f es)

gc-IsBounded : (n : ℕ) (now : Time) (b : Buffer) → IsBounded n b → IsBounded n (gc now b)
unfolding IsBounded gc
gc-IsBounded n now b (m, l) =
    ground (arith, length-keep-le (λ e. not (is_expired b.ttl now e)) b.buf)

save_entry-IsBounded :
    (n : ℕ) (now : Time) (msg : Message) (b : Buffer)
    → IsBounded n b
    → IsBounded n (save_entry now msg b)
unfolding IsBounded save_entry shrink
save_entry-IsBounded n now msg b (m, l) =
    elim (Bool-cases (any (has_key (key_of msg.chat_id) msg.msg_id) b.buf)) [
      | inl here ↦
          rw (here, length-update_where (has_key (key_of msg.chat_id) msg.msg_id) (merge msg) b.buf)
            (m, l)
      | inr fresh ↦
          let all = b.buf ++ new_entry now msg ∷ [] in
          rw fresh (m, rw (length-drop (length all - b.maxsize) all) (omega arith))
    ]

take_fresh-IsBounded :
    (n : ℕ) (now : Time) (o : Option Entry) (b : Buffer)
    → IsBounded n b
    → IsBounded n (take_fresh now o b).0
unfolding IsBounded take_fresh
take_fresh-IsBounded n now none b w = w
take_fresh-IsBounded n now (some e) b (m, l) =
    ground (arith, length-keep-le (λ x. not (has_key e.chat_id e.msg_id x)) b.buf)

lookup_entry-IsBounded :
    (n : ℕ) (now : Time) (c : Option ℕ) (m : ℕ) (b : Buffer)
    → IsBounded n b
    → IsBounded n (lookup_entry now c m b).0
unfolding lookup_entry
lookup_entry-IsBounded n now none m b w =
    take_fresh-IsBounded n now (find_first (has_msg m) b.buf) b w
lookup_entry-IsBounded n now (some c) m b w =
    take_fresh-IsBounded n now (find_first (has_key c m) b.buf) b w

change_entry-IsBounded :
    (n : ℕ) (f : Entry → Entry) (s : Buffer × Option Entry)
    → IsBounded n s.0
    → IsBounded n (change_entry f s)
unfolding IsBounded change_entry
change_entry-IsBounded n f (b, none) w = w
change_entry-IsBounded n f (b, some e) (m, l) =
    (m, rw (length-update_where (has_key e.chat_id e.msg_id) f b.buf) l)

claim_entry-IsBounded :
    (n : ℕ) (s : Buffer × Option Entry) → IsBounded n s.0 → IsBounded n (claim_entry s).0
unfolding claim_entry change_entry
claim_entry-IsBounded n (b, none) w = w
claim_entry-IsBounded n (b, some e) w = elim (Bool-cases e.deleted_claimed) [
  | inl claimed ↦ rw claimed w
  | inr unclaimed ↦ rw unclaimed (change_entry-IsBounded n set_claimed (b, some e) w)
]

clear-IsBounded : (n : ℕ) (b : Buffer) → IsBounded n b → IsBounded n (clear b)
unfolding IsBounded
clear-IsBounded n b (m, l) = (m, omega arith)

perform-IsBounded : (n : ℕ) (k : Call) (b : Buffer) → IsBounded n b → IsBounded n (perform k b)
unfolding perform save
perform-IsBounded n (saves now msg) b w =
    save_entry-IsBounded n now msg (gc now b) (gc-IsBounded n now b w)
perform-IsBounded n (looks_up now c m) b w = lookup_entry-IsBounded n now c m b w
perform-IsBounded n (marks_queued now c m) b w =
    change_entry-IsBounded n set_queued (lookup_entry now c m b)
      (lookup_entry-IsBounded n now c m b w)
perform-IsBounded n (marks_alerted now c m) b w =
    change_entry-IsBounded n set_alerted (lookup_entry now c m b)
      (lookup_entry-IsBounded n now c m b w)
perform-IsBounded n (claims now c m) b w =
    claim_entry-IsBounded n (lookup_entry now c m b) (lookup_entry-IsBounded n now c m b w)
perform-IsBounded n clears b w = clear-IsBounded n b w

perform_all-IsBounded :
    (n : ℕ) (ks : List Call) (b : Buffer) → IsBounded n b → IsBounded n (perform_all ks b)
unfolding perform_all
perform_all-IsBounded n [] b w = w
perform_all-IsBounded n (k ∷ ks) b w =
    perform_all-IsBounded n ks (perform k b) (perform-IsBounded n k b w)

init-IsBounded : (maxsize ttl : ℕ) → IsBounded (max 1 maxsize) (init maxsize ttl)
unfolding IsBounded
init-IsBounded maxsize ttl = (refl, omega arith)

-- Whatever the calls on a new buffer, it never holds more entries than its size allows.
pub length-perform_all-le :
    (maxsize ttl : ℕ) (ks : List Call)
    → length (perform_all ks (init maxsize ttl)).buf ≤ max 1 maxsize
unfolding IsBounded
length-perform_all-le maxsize ttl ks =
    (perform_all-IsBounded (max 1 maxsize) ks (init maxsize ttl) (init-IsBounded maxsize ttl)).1
