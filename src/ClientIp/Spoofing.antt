-- ===== src/ClientIp/Spoofing.antt =====
-- Forged headers against `resolve_client_ip` (security.py).
use telegram_br.Base.{
  append_assoc, append-nil, ◌≡◌, refl, sym, ap, ◌∙◌, inl, inr, Bool, true, false, not, ◌||◌, Option,
  none, some, List, [], ◌∷◌, ◌++◌, arith, Bool-cases, take, any,
}
use telegram_br.Texts.{Text, is_empty, strip, split}
use telegram_br.Texts.Strip.{split-append}
use telegram_br.ClientIp.{
  IpLibrary, Network, normalize_ip, ip_in_trusted, fallback, stripped_parts, hops, reversed,
  choose_hop, walk, resolve_from, resolve_client_ip,
}

module _ (lib : IpLibrary) (nets : List Network) where
  abbrev is_outside : Option Text → Bool
  is_outside none = true
  is_outside (some ip) = not (ip_in_trusted lib nets ip)

  -- No address, or one outside the trusted networks.
  unfoldable pub stops_at : Text → Bool
  stops_at h = is_outside (normalize_ip lib h)

  stripped_parts-append :
      (ps qs : List Text) → stripped_parts (ps ++ qs) ≡ stripped_parts ps ++ stripped_parts qs
  unfolding stripped_parts
  stripped_parts-append [] qs = refl
  stripped_parts-append (p ∷ ps) qs = elim (Bool-cases (is_empty (strip p))) [
    | inl nothing ↦ rw (nothing, stripped_parts-append ps qs) refl
    | inr part ↦ rw (part, stripped_parts-append ps qs) refl
  ]

  reversed-append : (xs ys : List Text) → reversed (xs ++ ys) ≡ reversed ys ++ reversed xs
  unfolding reversed
  reversed-append [] ys = sym (append-nil (reversed ys))
  reversed-append (x ∷ xs) ys =
      rw (reversed-append xs ys) (append_assoc (reversed ys) (reversed xs) (x ∷ []))

  any-append : (p : Text → Bool) (xs ys : List Text) → any p (xs ++ ys) ≡ (any p xs || any p ys)
  any-append p [] ys = refl
  any-append p (x ∷ xs) ys = ground (arith, any-append p xs ys)

  any-reversed : (p : Text → Bool) (xs : List Text) → any p (reversed xs) ≡ any p xs
  unfolding reversed
  any-reversed p [] = refl
  any-reversed p (x ∷ xs) = ground (arith, any-append p (reversed xs) (x ∷ []), any-reversed p xs)

  choose_hop-same :
      (d : Text) (o : Option Text) (s t : Text)
      → (is_outside o ≡ false → s ≡ t)
      → choose_hop lib nets d o s ≡ choose_hop lib nets d o t
  unfolding choose_hop
  choose_hop-same d none s t same = refl
  choose_hop-same d (some ip) s t same = elim (Bool-cases (ip_in_trusted lib nets ip)) [
    | inl inside ↦ rw inside (same (rw inside refl))
    | inr outside ↦ rw outside refl
  ]

  walk-append :
      (d : Text) (hs gs : List Text)
      → any stops_at hs ≡ true
      → walk lib nets d (hs ++ gs) ≡ walk lib nets d hs
  unfolding walk stops_at
  walk-append d [] gs stops = ground arith
  walk-append d (h ∷ hs) gs stops =
      choose_hop-same d (normalize_ip lib h) (walk lib nets d (hs ++ gs)) (walk lib nets d hs)
        (λ inside. walk-append d hs gs (rw inside at stops))

  hops-append : (s t : Text) → hops (some (s ++ 44 ∷ t)) ≡ hops (some s) ++ hops (some t)
  unfolding hops
  hops-append s t =
      ap stripped_parts (split-append 44 s t) ∙ stripped_parts-append (split 44 s) (split 44 t)

  walk-spoofed :
      (d : Text) (spoof xff : Text)
      → any stops_at (hops (some xff)) ≡ true
      → walk lib nets d (reversed (hops (some (spoof ++ 44 ∷ xff))))
        ≡ walk lib nets d (reversed (hops (some xff)))
  walk-spoofed d spoof xff stops =
      ap (λ hs. walk lib nets d (reversed hs)) (hops-append spoof xff)
      ∙ ap (walk lib nets d) (reversed-append (hops (some spoof)) (hops (some xff)))
      ∙ walk-append d (reversed (hops (some xff))) (reversed (hops (some spoof)))
          (any-reversed stops_at (hops (some xff)) ∙ stops)

  resolve_from-same :
      (peer : Text) (o xff forged : Option Text)
      → ((d : Text)
          → walk lib nets d (reversed (hops xff)) ≡ walk lib nets d (reversed (hops forged)))
      → resolve_from lib nets peer o xff ≡ resolve_from lib nets peer o forged
  unfolding resolve_from
  resolve_from-same peer none xff forged same = refl
  resolve_from-same peer (some d) xff forged same = rw (same d) refl

  resolve_from-direct :
      (peer : Text) (o xff forged : Option Text)
      → is_outside o ≡ true
      → resolve_from lib nets peer o xff ≡ resolve_from lib nets peer o forged
  unfolding resolve_from
  resolve_from-direct peer none xff forged outside = refl
  resolve_from-direct peer (some d) xff forged outside =
      elim (Bool-cases (ip_in_trusted lib nets d)) [
        | inl inside ↦ ground arith
        | inr out ↦ rw out refl
      ]

-- What a client writes into the header in front of the hops that the proxies have added changes
-- nothing, when one of those hops is outside the trusted networks or is no address.
pub resolve_client_ip-spoofed :
    (lib : IpLibrary) (nets : List Network) (direct : Option Text) (spoof xff : Text)
    → any (stops_at lib nets) (hops (some xff)) ≡ true
    → resolve_client_ip lib nets direct (some (spoof ++ 44 ∷ xff))
      ≡ resolve_client_ip lib nets direct (some xff)
unfolding resolve_client_ip
resolve_client_ip-spoofed lib nets direct spoof xff stops = ap (take 64) (
    resolve_from-same lib nets (fallback direct) (normalize_ip lib (fallback direct))
      (some (spoof ++ 44 ∷ xff)) (some xff) (λ d. walk-spoofed lib nets d spoof xff stops))

-- The header of a peer that is no trusted proxy, or has no valid address, has no influence on the
-- address of the client.
pub resolve_client_ip-direct :
    (lib : IpLibrary) (nets : List Network) (direct : Option Text) (xff forged : Option Text)
    → stops_at lib nets (fallback direct) ≡ true
    → resolve_client_ip lib nets direct xff ≡ resolve_client_ip lib nets direct forged
unfolding resolve_client_ip stops_at
resolve_client_ip-direct lib nets direct xff forged stops = ap (take 64) (
    resolve_from-direct lib nets (fallback direct) (normalize_ip lib (fallback direct)) xff forged
      stops)
