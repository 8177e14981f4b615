-- ===== src/Antispam/Branches.antt =====
-- The branches of `observe` (antispam.py), for proofs about each of them.
use telegram_br.Base.{
  max, ◌≡◌, inl, inr, Bool, true, false, Option, List, leb, ◌==◌, Bool-cases, Time, length, elem,
  lookup,
}
use telegram_br.Antispam.{Entry, Config, Library, Engine, Verdict, allow, spam, confirm_spam}
use telegram_br.Antispam.Observe.{
  Message, next_activity, add_to_watch, confirm_if, is_watched, decide, remember, observe,
  count_direct, count_nobody, count_skipped,
}
use telegram_br.Antispam.Reasons.{watch_reasons, confirmation_reasons, chats, spread}

module _ (cfg : Config) (lib : Library) (ok : Bool) (now : Time) (m : Message) where
  abbrev pub is_direct : List Entry → Bool
  is_direct act = leb (max 2 cfg.direct_groups) (length (chats (spread cfg lib now m.norm act)))

  pub decide-by :
      (P : Engine × Verdict → Type 0) (act : List Entry) (g : Engine)
      → (is_direct act ≡ true → P (confirm_spam lib ok m.sender (count_direct g), spam))
      → (is_watched cfg lib now (lookup m.sender g.watch) ≡ true
          → P (
              confirm_if cfg lib ok m.sender
                (confirmation_reasons cfg lib now m.norm m.cats m.chat act)
                g))
      → P (add_to_watch cfg lib ok now m.sender (watch_reasons cfg lib now m.norm act) g)
      → P (decide cfg lib ok now m act g)
  unfolding decide
  decide-by P act g direct confirm watch = elim (Bool-cases (is_direct act)) [
    | inl spread_out ↦ rw spread_out (direct spread_out)
    | inr apart ↦ elim (Bool-cases (is_watched cfg lib now (lookup m.sender g.watch))) [
      | inl seen ↦ rw (apart, seen) (confirm seen)
      | inr unseen ↦ rw (apart, unseen) watch
    ]
  ]

  abbrev pub old_activity : Engine → Option (List Entry)
  old_activity g = lookup m.sender (lib.live_activities now g.activities)

  pub observe-by :
      (P : Engine × Verdict → Type 0) (g : Engine)
      → P (g, allow)
      → P (count_nobody g, allow)
      → (cfg.enabled ≡ true
          → (m.sender == 0) ≡ false
          → elem m.sender g.ignored ≡ true
          → P (count_skipped g, spam))
      → (cfg.enabled ≡ true
          → (m.sender == 0) ≡ false
          → elem m.sender g.ignored ≡ false
          → P (
              decide cfg lib ok now m
                (next_activity cfg lib now m (old_activity g))
                (remember cfg lib now m (old_activity g) g)))
      → P (observe cfg lib ok now m g)
  unfolding observe
  observe-by P g disabled nobody known new = elim (Bool-cases cfg.enabled) [
    | inr off ↦ rw off disabled
    | inl on ↦ elim (Bool-cases (m.sender == 0)) [
      | inl zero_sender ↦ rw (on, zero_sender) nobody
      | inr real ↦ elim (Bool-cases (elem m.sender g.ignored)) [
        | inl ignored ↦ rw (on, real, ignored) (known on real ignored)
        | inr fresh ↦ simp (on, real, fresh) (new on real fresh)
      ]
    ]
  ]
