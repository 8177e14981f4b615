-- ===== src/Capture.antt =====
-- `FastCaptureBuffer` of monitors.py: the messages kept for a short time in memory, so that one
-- deleted before its alert can still be sent. The key of an entry is its chat and its message.
pub mod Bounds
pub mod Deleted
mod Tests
use telegram_br.Base.{
  ℕ, zero, suc, ◌+◌, ◌-◌, ◌*◌, ◌/◌, ◌%◌, ◌≤◌, ◌<◌, min, max, ◌≡◌, refl, sym, ap, ◌∙◌, ◌≢◌, ◌↔◌, ◌⊎◌,
  inl, inr, Bool, true, false, not, ◌&&◌, ◌||◌, Option, none, some, List, [], ◌∷◌, ◌++◌, map, arith,
  ltb, leb, ◌==◌, if◌then◌else◌, is_some, Bool-cases, Option-cases, Time, seconds, length,
  get_elem?, take, drop, keep, any, count_by, All, length-append, length-drop, elem, distinct, Dict,
  lookup, insert, erase, insert_last, keep_last, lookup-insert, lookup-insert_self, lookup-erase,
  lookup-insert_last, length-insert-le, length-erase-le, ==_iff, ==_refl, leb_iff, ltb_iff,
  length-keep-le, lookup-append,
}

abbrev pub Text : Type 0
Text = List ℕ

-- `sender_meta`
pub record Meta : Type 0 where
  pub sender_username : Option Text
  pub sender_first_name : Option Text
  pub sender_last_name : Option Text
  pub sender_access_hash : Option ℕ
  pub sender_meta_full : Option ℕ

pub record Entry : Type 0 where
  pub text : Text
  pub sender_id : ℕ
  pub sender_name : Text
  pub meta : Meta
  pub chat_id : ℕ
  pub msg_id : ℕ
  pub ts : Time
  pub account : Text
  pub queued : Bool
  pub alerted : Bool
  pub deleted_claimed : Bool
  pub recovered : Bool

pub record Stats : Type 0 where
  pub saved : ℕ
  pub expired : ℕ
  pub evicted : ℕ

pub record Buffer : Type 0 where
  pub buf : List Entry
  pub maxsize : ℕ
  pub ttl : Time
  pub last_gc : Time
  pub stats : Stats

abbrev pub init : ℕ → ℕ → Buffer
init maxsize ttl = record {
  buf = [];
  maxsize = max 1 maxsize;
  ttl = seconds (max 1 ttl);
  last_gc = 0;
  stats = record { saved = 0; expired = 0; evicted = 0 };
}

-- What the arguments of `save` are made of.
pub record Message : Type 0 where
  pub chat_id : Option ℕ
  pub msg_id : ℕ
  pub text : Text
  pub sender_id : ℕ
  pub sender_name : Text
  pub account : Text
  pub meta : Meta

-- `int(chat_id or 0)`
abbrev pub key_of : Option ℕ → ℕ
key_of none = 0
key_of (some c) = c

abbrev pub has_key : ℕ → ℕ → Entry → Bool
has_key c m e = e.chat_id == c && e.msg_id == m

abbrev pub has_msg : ℕ → Entry → Bool
has_msg m e = e.msg_id == m

abbrev pub find_first : (Entry → Bool) → List Entry → Option Entry
find_first p [] = none
find_first p (e ∷ es) = if p e then some e else find_first p es

-- A change of the dict of an entry, which the buffer shares.
abbrev pub update_where : (Entry → Bool) → (Entry → Entry) → List Entry → List Entry
update_where p f [] = []
update_where p f (e ∷ es) = (if p e then f e else e) ∷ update_where p f es

abbrev pub delete_where : (Entry → Bool) → List Entry → List Entry
delete_where p = keep (λ e. not (p e))

abbrev pub is_expired : Time → Time → Entry → Bool
is_expired ttl now e = ltb ttl (now - e.ts)

-- `if v: prev[f] = v` for a text, and for one that may be `None`.
abbrev or_text : Text → Text → Text
or_text [] old = old
or_text (c ∷ cs) old = c ∷ cs

abbrev or_name : Option Text → Option Text → Option Text
or_name none old = old
or_name (some []) old = old
or_name (some (c ∷ cs)) old = some (c ∷ cs)

-- `if v is not None: prev[f] = v`
abbrev or_value : Option ℕ → Option ℕ → Option ℕ
or_value none old = old
or_value (some v) old = some v

abbrev merge_meta : Meta → Meta → Meta
merge_meta new old = record {
  sender_username = or_name new.sender_username old.sender_username;
  sender_first_name = or_name new.sender_first_name old.sender_first_name;
  sender_last_name = or_name new.sender_last_name old.sender_last_name;
  sender_access_hash = or_value new.sender_access_hash old.sender_access_hash;
  sender_meta_full = or_value new.sender_meta_full old.sender_meta_full;
}

abbrev pub merge : Message → Entry → Entry
merge msg e = record e {
  text = msg.text;
  sender_id = if msg.sender_id == 0 then e.sender_id else msg.sender_id;
  sender_name = or_text msg.sender_name e.sender_name;
  meta = merge_meta msg.meta e.meta;
}

abbrev pub new_entry : Time → Message → Entry
new_entry now msg = record {
  text = msg.text;
  sender_id = msg.sender_id;
  sender_name = msg.sender_name;
  meta = msg.meta;
  chat_id = key_of msg.chat_id;
  msg_id = msg.msg_id;
  ts = now;
  account = msg.account;
  queued = false;
  alerted = false;
  deleted_claimed = false;
  recovered = false;
}

-- `_gc`
unfoldable pub gc : Time → Buffer → Buffer
gc now b = if ltb (now - b.last_gc) (seconds 5) then b else record b {
  last_gc = now;
  buf = delete_where (is_expired b.ttl now) b.buf;
  stats = record b.stats { expired = b.stats.expired + count_by (is_expired b.ttl now) b.buf };
}

abbrev count_saved : Buffer → Buffer
count_saved b = record b { stats = record b.stats { saved = b.stats.saved + 1 } }

-- `while len(self._buf) > self._maxsize`: the oldest entries go.
unfoldable pub shrink : Buffer → Buffer
shrink b =
    let over = length b.buf - b.maxsize in
    record b { buf = drop over b.buf; stats = record b.stats { evicted = b.stats.evicted + over } }

unfoldable pub save_entry : Time → Message → Buffer → Buffer
save_entry now msg b =
    if any (has_key (key_of msg.chat_id) msg.msg_id) b.buf
    then count_saved (record b {
      buf = update_where (has_key (key_of msg.chat_id) msg.msg_id) (merge msg) b.buf;
    })
    else shrink (count_saved (record b { buf = b.buf ++ new_entry now msg ∷ [] }))

unfoldable pub save : Time → Message → Buffer → Buffer
save now msg b = save_entry now msg (gc now b)

abbrev expire : Entry → Buffer → Buffer
expire e b = record b {
  buf = delete_where (has_key e.chat_id e.msg_id) b.buf;
  stats = record b.stats { expired = b.stats.expired + 1 };
}

-- The entry that was found, unless it is too old: then it leaves the buffer.
unfoldable pub take_fresh : Time → Option Entry → Buffer → Buffer × Option Entry
take_fresh now none b = (b, none)
take_fresh now (some e) b = if is_expired b.ttl now e then (expire e b, none) else (b, some e)

-- `get`, and `find_by_msg_id` for a message of an unknown chat
unfoldable pub lookup_entry : Time → Option ℕ → ℕ → Buffer → Buffer × Option Entry
lookup_entry now (some c) m b = take_fresh now (find_first (has_key c m) b.buf) b
lookup_entry now none m b = take_fresh now (find_first (has_msg m) b.buf) b

-- The buffer after a change of the entry that `lookup` gave.
unfoldable pub change_entry : (Entry → Entry) → Buffer × Option Entry → Buffer
change_entry f (b, none) = b
change_entry f (b, some e) = record b { buf = update_where (has_key e.chat_id e.msg_id) f b.buf }

abbrev pub set_queued : Entry → Entry
set_queued e = record e { queued = true }

abbrev pub set_alerted : Entry → Entry
set_alerted e = record e { alerted = true }

abbrev pub set_claimed : Entry → Entry
set_claimed e = record e { deleted_claimed = true }

abbrev pub mark_queued : Time → Option ℕ → ℕ → Buffer → Buffer
mark_queued now c m b = change_entry set_queued (lookup_entry now c m b)

abbrev pub mark_alerted : Time → Option ℕ → ℕ → Buffer → Buffer
mark_alerted now c m b = change_entry set_alerted (lookup_entry now c m b)

unfoldable pub claim_entry : Buffer × Option Entry → Buffer × Option Entry
claim_entry (b, none) = (b, none)
claim_entry (b, some e) =
    if e.deleted_claimed
    then (b, none)
    else (change_entry set_claimed (b, some e), some (set_claimed e))

abbrev pub claim_deleted : Time → Option ℕ → ℕ → Buffer → Buffer × Option Entry
claim_deleted now c m b = claim_entry (lookup_entry now c m b)

abbrev pub clear : Buffer → Buffer
clear b = record b { buf = [] }

-- The calls that the monitors make, each at its time.
pub data Call : Type 0 where
  saves : Time → Message → Call
  looks_up marks_queued marks_alerted claims : Time → Option ℕ → ℕ → Call
  clears : Call

unfoldable pub perform : Call → Buffer → Buffer
perform (saves now msg) b = save now msg b
perform (looks_up now c m) b = (lookup_entry now c m b).0
perform (marks_queued now c m) b = mark_queued now c m b
perform (marks_alerted now c m) b = mark_alerted now c m b
perform (claims now c m) b = (claim_deleted now c m b).0
perform clears b = clear b

unfoldable pub perform_all : List Call → Buffer → Buffer
perform_all [] b = b
perform_all (k ∷ ks) b = perform_all ks (perform k b)
