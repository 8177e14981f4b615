-- ===== src/Contact/Choice.antt =====
-- Which contact is chosen (contact_target.py): what the metrics count, and what may be used.
use telegram_br.Base.{
  ℕ, suc, ◌+◌, ◌<◌, ◌≡◌, refl, Bool, true, false, ◌&&◌, ◌||◌, Option, none, some, List, [], ◌∷◌,
  arith, ltb, ◌==◌, if◌then◌else◌, is_some, length, lookup-insert,
}
use mathlib.Core.Path.{subst}
use telegram_br.Texts.{Text}
use telegram_br.Contact.{
  Unicode, build_phone_url, Metrics, metric, metric_inc, sender_resolution_success,
  sender_resolution_failure, username_available, user_id_fallback, temporary_link_used,
  phone_fallback, openmessage_fallback, metric_keys,
}
use telegram_br.Contact.Target.{
  Sender, resolve_contact_target, count_outcome, count_route, count_username, choose, username_link,
  openmessage_link, user_id_link, user_id_capable, uname_of, sid_of, sender_type_of, temporary_of,
}

-- The metrics after so many resolutions, one after another.
unfoldable pub resolve_all : Unicode → List Sender → Metrics → Metrics
resolve_all py [] m = m
resolve_all py (s ∷ senders) m = resolve_all py senders (resolve_contact_target py s m).1

metric-metric_inc :
    (k j : ℕ) (m : Metrics)
    → j < metric_keys
    → metric k (metric_inc j m) ≡ (if j == k then metric k m + 1 else metric k m)
unfolding metric_inc
metric-metric_inc k j m h = ground (arith, lookup-insert j k (metric j m + 1) m)

-- After `n` resolutions: each is a success or a failure, each success has one route, and none has
-- taken the last one.
pub record IsBalanced (n : ℕ) (m : Metrics) : Type 0 where
  pub outcomes : metric sender_resolution_success m + metric sender_resolution_failure m ≡ n
  pub routes :
      metric sender_resolution_success m
      ≡ metric username_available m
        + metric temporary_link_used m
        + metric phone_fallback m
        + metric openmessage_fallback m
  pub no_user_id : metric user_id_fallback m ≡ 0

-- A metric after a route and an outcome are counted.
counted_twice :
    (k j i : ℕ) (m : Metrics)
    → i < metric_keys
    → j < metric_keys
    → metric k (metric_inc i (metric_inc j m))
      ≡ metric k m + (if i == k then 1 else 0) + (if j == k then 1 else 0)
counted_twice k j i m h l =
    ground (arith, metric-metric_inc k i (metric_inc j m) h, metric-metric_inc k j m l)

route-IsBalanced :
    (n j : ℕ) (m : Metrics)
    → (j == username_available
        || j == temporary_link_used
        || j == phone_fallback
        || j == openmessage_fallback)
      ≡ true
    → IsBalanced n m
    → IsBalanced (suc n) (metric_inc sender_resolution_success (metric_inc j m))
route-IsBalanced n j m r b =
    let small : j < metric_keys = ground arith in
    let at = λ (k : ℕ). counted_twice k j sender_resolution_success m (omega arith) small in
    record {
      outcomes =
          ground (arith, at sender_resolution_success, at sender_resolution_failure, b.outcomes);
      routes = ground (
        arith,
        at sender_resolution_success,
        at username_available,
        at temporary_link_used,
        at phone_fallback,
        at openmessage_fallback,
        b.routes,
      );
      no_user_id = ground (arith, at user_id_fallback, b.no_user_id);
    }

failure-IsBalanced :
    (n : ℕ) (m : Metrics)
    → IsBalanced n m
    → IsBalanced (suc n) (metric_inc sender_resolution_failure m)
failure-IsBalanced n m b =
    let at = λ (k : ℕ). metric-metric_inc k sender_resolution_failure m (omega arith) in
    record {
      outcomes =
          ground (arith, at sender_resolution_success, at sender_resolution_failure, b.outcomes);
      routes = ground (
        arith,
        at sender_resolution_success,
        at username_available,
        at temporary_link_used,
        at phone_fallback,
        at openmessage_fallback,
        b.routes,
      );
      no_user_id = ground (arith, at user_id_fallback, b.no_user_id);
    }

count-IsBalanced :
    (n : ℕ) (u t p o i : Option Text) (m : Metrics)
    → is_some o ≡ is_some i
    → IsBalanced n m
    → IsBalanced (suc n) (
        count_outcome
          ((choose (username_link u) t p o i).0)
          (count_route ((choose (username_link u) t p o i).1) (count_username u m)))
count-IsBalanced n (some u) t p o i m e b = route-IsBalanced n username_available m refl b
count-IsBalanced n none (some t) p o i m e b = route-IsBalanced n temporary_link_used m refl b
count-IsBalanced n none none (some p) o i m e b = route-IsBalanced n phone_fallback m refl b
count-IsBalanced n none none none (some o) i m e b =
    route-IsBalanced n openmessage_fallback m refl b
count-IsBalanced n none none none none (some i) m e b = ground arith
count-IsBalanced n none none none none none m e b = failure-IsBalanced n m b

linked_alike :
    (b : Bool) (t u : Text)
    → is_some (if b then some t else none) ≡ is_some (if b then some u else none)
linked_alike true t u = refl
linked_alike false t u = refl

links_agree :
    (sid : ℕ) (st : Text) → is_some (openmessage_link sid st) ≡ is_some (user_id_link sid st)
unfolding openmessage_link user_id_link
links_agree sid st = linked_alike (ltb 0 sid && user_id_capable st) _ _

resolve-IsBalanced :
    (py : Unicode) (s : Sender) (n : ℕ) (m : Metrics)
    → IsBalanced n m
    → IsBalanced (suc n) ((resolve_contact_target py s m).1)
unfolding resolve_contact_target
resolve-IsBalanced py s n m b =
    let sid = (sid_of s.sender_id).0 in
    let st = sender_type_of py s sid in
    count-IsBalanced n ((uname_of s.name s.names).0) (temporary_of s.temporary_link)
      (build_phone_url py s.phone) (openmessage_link sid st) (user_id_link sid st) m
      (links_agree sid st) b

resolve_all-from :
    (py : Unicode) (senders : List Sender) (n : ℕ) (m : Metrics)
    → IsBalanced n m
    → IsBalanced (length senders + n) (resolve_all py senders m)
unfolding resolve_all
resolve_all-from py [] n m b = subst (λ k. IsBalanced k m) (omega arith) b
resolve_all-from py (s ∷ senders) n m b =
    subst (λ k. IsBalanced k (resolve_all py (s ∷ senders) m)) (omega arith)
      (resolve_all-from py senders (suc n) _ (resolve-IsBalanced py s n m b))

-- From empty metrics on, after any resolutions: successes and failures are together as many as the
-- resolutions, each success is counted under exactly one of the routes username, temporary link,
-- phone and openmessage, and the last route, by user id, has never been taken.
pub resolve_all-IsBalanced :
    (py : Unicode) (senders : List Sender) → IsBalanced (length senders) (resolve_all py senders [])
resolve_all-IsBalanced py senders =
    subst (λ k. IsBalanced k (resolve_all py senders [])) (omega arith)
      (resolve_all-from py senders 0 []
        (record { outcomes = refl; routes = refl; no_user_id = refl }))
