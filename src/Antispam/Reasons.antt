-- ===== src/Antispam/Reasons.antt =====
-- The conditions of `AntiSpamEngine` (antispam.py): the spread over groups, the highest similarity,
-- and the reasons to watch a sender and to confirm spam.
use telegram_br.Base.{
  ℕ, ◌-◌, max, Bool, true, false, not, ◌&&◌, ◌||◌, List, [], ◌∷◌, ◌++◌, map, ltb, leb, ◌==◌,
  if◌then◌else◌, Time, length, keep, any, count_by, elem, distinct,
}
use telegram_br.Antispam.{
  Text, Entry, Config, Library, Reason, burst, similar, categories, new_request, rephrased_request,
  more_messages, moved_groups, mixed_requests, many_messages, many_groups,
}

abbrev pub within : Time → Time → Entry → Bool
within now window r = leb (now - r.at) window

abbrev pub same_text : Text → Text → Bool
same_text [] [] = true
same_text [] (d ∷ t) = false
same_text (c ∷ s) [] = false
same_text (c ∷ s) (d ∷ t) = c == d && same_text s t

abbrev pub is_nil : List ℕ → Bool
is_nil [] = true
is_nil (c ∷ t) = false

-- The groups in which these messages stand.
abbrev pub chats : List Entry → List ℕ
chats rs = distinct (map (λ (r : Entry). r.chat) rs)

abbrev without_last : List Entry → List Entry
without_last [] = []
without_last (r ∷ []) = []
without_last (r ∷ s ∷ rs) = r ∷ without_last (s ∷ rs)

abbrev all_cats : List Entry → List ℕ
all_cats [] = []
all_cats (r ∷ rs) = r.cats ++ all_cats rs

-- Requests of two categories, in two messages.
abbrev pub has_mixed_requests : List Entry → Bool
has_mixed_requests rs =
    leb 2 (length (distinct (all_cats rs)))
    && leb 2 (count_by (λ (r : Entry). not (is_nil r.cats)) rs)

abbrev pub reason_if : Bool → Reason → List Reason
reason_if true why = why ∷ []
reason_if false why = []

module _ (cfg : Config) (lib : Library) where
  -- `_ratio`
  abbrev pub ratio_of : Text → Text → ℕ
  ratio_of a b = if same_text a b then 1000000 else lib.ratio a b

  abbrev pub is_alike : Text → Entry → Bool
  is_alike norm r = same_text r.norm norm || leb cfg.threshold (ratio_of norm r.norm)

  -- `_similar_group_spread`: the messages that count, whose groups are then counted
  unfoldable pub spread : Time → Text → List Entry → List Entry
  spread now norm rs =
      if is_nil norm
      then keep (within now cfg.direct_window) rs
      else keep (λ r. within now cfg.direct_window r && is_alike norm r) rs

  abbrev best_ratio : Time → Text → List Entry → ℕ
  best_ratio now norm [] = 0
  best_ratio now norm (r ∷ rs) =
      if within now cfg.similarity_window r && not (is_nil r.norm)
      then max (ratio_of norm r.norm) (best_ratio now norm rs)
      else best_ratio now norm rs

  -- `_max_similarity` with `skip_current`
  unfoldable pub max_similarity : Time → Text → List Entry → ℕ
  max_similarity now norm rs = if is_nil norm then 0 else best_ratio now norm (without_last rs)

  abbrev is_similar : Time → Text → List Entry → Bool
  is_similar now norm rs = not (is_nil norm) && leb cfg.threshold (max_similarity now norm rs)

  -- The reasons to watch, in `observe`.
  unfoldable pub watch_reasons : Time → Text → List Entry → List Reason
  watch_reasons now norm rs =
      reason_if (leb (max 2 cfg.burst_messages) (length (keep (within now cfg.burst_window) rs)))
        burst
      ++ reason_if (is_similar now norm rs) similar
      ++ reason_if (has_mixed_requests (keep (within now cfg.category_window) rs)) categories

  abbrev request_reason : Time → Text → List ℕ → List Entry → List Reason
  request_reason now norm [] rs = reason_if (is_similar now norm rs) rephrased_request
  request_reason now norm (c ∷ cs) rs = new_request ∷ []

  -- The sign of spam that a further message must show.
  abbrev spam_indicator : Text → List ℕ → List Entry → Bool
  spam_indicator norm cats recent =
      not (is_nil cats)
      || (not (is_nil norm)
          && any (λ r. not (is_nil r.norm) && is_alike norm r) (without_last recent))

  abbrev prior_chats : Time → List Entry → List ℕ
  prior_chats now rs = chats (keep (λ r. ltb r.at now && within now cfg.similarity_window r) rs)

  abbrev same_purpose : Time → Text → List ℕ → List Entry → Bool
  same_purpose now norm cats rs =
      any (λ r. within now cfg.similarity_window r && any (λ c. elem c cats) r.cats) rs
      || is_similar now norm rs

  -- The messages that count for the last condition.
  abbrev shows_sign : List Entry → Entry → Bool
  shows_sign recent r =
      not (is_nil r.cats)
      || any (λ (p : Entry). ltb p.at r.at && not (is_nil p.norm) && is_alike r.norm p) recent

  abbrev confirm_pool : List Entry → List Entry
  confirm_pool recent = if cfg.indicator_required then keep (shows_sign recent) recent else recent

  -- `_confirmation_reasons`
  unfoldable pub confirmation_reasons : Time → Text → List ℕ → ℕ → List Entry → List Reason
  confirmation_reasons now norm cats chat rs =
      let recent_5m = keep (within now cfg.confirm_window) rs in
      let recent_10m = keep (within now cfg.confirm_activity_window) rs in
      let before = prior_chats now rs in
      request_reason now norm cats rs
      ++ reason_if (leb 2 (length recent_5m) && spam_indicator norm cats recent_5m) more_messages
      ++ reason_if
          (not (elem chat before) && leb 1 (length before) && same_purpose now norm cats rs)
          moved_groups
      ++ reason_if (has_mixed_requests recent_5m) mixed_requests
      ++ reason_if (leb (max 2 cfg.confirm_messages) (length (confirm_pool recent_10m)))
          many_messages
      ++ reason_if (leb (max 2 cfg.confirm_groups) (length (chats recent_10m))) many_groups
