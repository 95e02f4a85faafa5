-- ===== src/BotPool/Groups.antt =====
-- Broadcast of botpool.go against botFor, which the private messages go by.
use crypto_screener.Base.{
  ℕ, Bool, false, List, [], ◌∷◌, ◌++◌, Option, none, some, keep_if, ◌≡◌, refl, sym, ◌∙◌, ap, inl,
  inr, Bool-cases,
}
use mathlib.Core.List.{append_assoc, append-nil}
use crypto_screener.Base.Eq.{nat_eq, ◌==◌}
use crypto_screener.Base.Map.{Map, lookup, insert, lookup-insert, Distinct, insert-Distinct}
use crypto_screener.BotPool.{
  Pool, routed, bot_among, bot_for, or_none, group_chats, groups_among, broadcast,
}

-- The chats that a bot is called with.
abbrev pub sent_to : ℕ → Map ℕ (List ℕ) → List ℕ
sent_to b by_bot = or_none (lookup b by_bot)

abbrev pub is_bot : ℕ → Option ℕ → Bool
is_bot b none = false
is_bot b (some c) = c == b

group_one :
    (b c id : ℕ) (by_bot : Map ℕ (List ℕ))
    → sent_to b (insert c (or_none (lookup c by_bot) ++ (id ∷ [])) by_bot)
      ≡ sent_to b by_bot ++ keep_if (λ j. c == b) (id ∷ [])
group_one b c id by_bot =
    let mine = or_none (lookup c by_bot) ++ (id ∷ []) in
    ap or_none (lookup-insert c b mine by_bot) ∙ elim (Bool-cases (c == b)) [
      | inl hit ↦
          rw hit (ap (λ k. or_none (lookup k by_bot) ++ (id ∷ [])) ((nat_eq.same_iff c b).0 hit))
      | inr miss ↦ rw miss (sym (append-nil (or_none (lookup b by_bot))))
    ]

group_chats-sent :
    (bot_of : ℕ → ℕ) (b : ℕ) (ids : List ℕ) (by_bot : Map ℕ (List ℕ))
    → sent_to b (group_chats bot_of ids by_bot)
      ≡ sent_to b by_bot ++ keep_if (λ id. bot_of id == b) ids
unfolding group_chats
group_chats-sent bot_of b [] by_bot = sym (append-nil (sent_to b by_bot))
group_chats-sent bot_of b (id ∷ ids) by_bot =
    group_chats-sent bot_of b ids
      (insert (bot_of id) (or_none (lookup (bot_of id) by_bot) ++ (id ∷ [])) by_bot)
    ∙ ap (λ x. x ++ keep_if (λ id. bot_of id == b) ids) (group_one b (bot_of id) id by_bot)
    ∙ append_assoc (sent_to b by_bot) (keep_if (λ j. bot_of id == b) (id ∷ []))
        (keep_if (λ id. bot_of id == b) ids)
    ∙ elim (Bool-cases (bot_of id == b)) [ inl hit ↦ rw hit refl | inr miss ↦ rw miss refl ]

group_chats-Distinct :
    (bot_of : ℕ → ℕ) (ids : List ℕ) (by_bot : Map ℕ (List ℕ))
    → Distinct by_bot
    → Distinct (group_chats bot_of ids by_bot)
unfolding group_chats
group_chats-Distinct bot_of [] by_bot h = h
group_chats-Distinct bot_of (id ∷ ids) by_bot h =
    group_chats-Distinct bot_of ids
      (insert (bot_of id) (or_none (lookup (bot_of id) by_bot) ++ (id ∷ [])) by_bot)
      (insert-Distinct (bot_of id) (or_none (lookup (bot_of id) by_bot) ++ (id ∷ [])) by_bot h)

nobody : (ids : List ℕ) → keep_if (λ id. false) ids ≡ []
nobody [] = refl
nobody (id ∷ ids) = nobody ids

among :
    (route : Option (ℕ → ℕ)) (bots : List ℕ) (chats : List ℕ) (b : ℕ)
    → Distinct (groups_among route bots chats)
      × (sent_to b (groups_among route bots chats)
          ≡ keep_if (λ id. is_bot b (bot_among route bots id)) chats)
unfolding lookup
among route [] chats b = (tt, sym (nobody chats))
among route (bot ∷ bots) chats b = (
  group_chats-Distinct (routed route (bot ∷ bots)) chats [] tt,
  group_chats-sent (routed route (bot ∷ bots)) b chats [],
)

-- A broadcast calls each bot at most once, with exactly those of the chats that a private message
-- would reach through the same bot, in their order; with an empty pool it calls none.
pub broadcast_by_bot :
    (p : Pool) (chats : List ℕ) (b : ℕ)
    → Distinct (broadcast p chats)
      × (sent_to b (broadcast p chats) ≡ keep_if (λ id. is_bot b (bot_for p id)) chats)
unfolding broadcast bot_for
broadcast_by_bot p chats b = among p.route p.bots chats b
