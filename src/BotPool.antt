-- ===== src/BotPool.antt =====
-- internal/adapters/telegram/botpool.go: which bot serves which chat. A bot is its position in the pool,
-- which tells two bots of one id apart as their pointers do; the pool keeps the ids. What a bot makes of
-- a message is an argument.
pub mod Groups
use crypto_screener.Base.{
  ℕ, suc, Bool, true, false, List, [], ◌∷◌, ◌++◌, Option, none, some, if◌then◌else◌, length,
}
use crypto_screener.Base.Eq.{nat_eq, ◌==◌}
use crypto_screener.Base.Map.{Map, lookup, insert}

pub record Pool : Type 0 where
  pub bots : List ℕ
  pub route : Option (ℕ → ℕ)

abbrev pub pool_len : Pool → ℕ
pool_len p = length p.bots

-- The loop over the bots from position `i` on; the first bot if none has the id.
abbrev pub find_bot : ℕ → ℕ → List ℕ → ℕ
find_bot id i [] = 0
find_bot id i (bot ∷ bots) = let rest = find_bot id (suc i) bots in if bot == id then i else rest

abbrev pub routed : Option (ℕ → ℕ) → List ℕ → ℕ → ℕ
routed none bots chat = 0
routed (some route) bots chat = find_bot (route chat) 0 bots

abbrev pub bot_among : Option (ℕ → ℕ) → List ℕ → ℕ → Option ℕ
bot_among route [] chat = none
bot_among route (bot ∷ bots) chat = some (routed route (bot ∷ bots) chat)

unfoldable pub bot_for : Pool → ℕ → Option ℕ
bot_for p chat = bot_among p.route p.bots chat

abbrev pub or_none : Option (List ℕ) → List ℕ
or_none none = []
or_none (some ids) = ids

-- The loop that fills byBot.
unfoldable pub group_chats : (ℕ → ℕ) → List ℕ → Map ℕ (List ℕ) → Map ℕ (List ℕ)
group_chats bot_of [] by_bot = by_bot
group_chats bot_of (id ∷ ids) by_bot =
    let b = bot_of id in
    group_chats bot_of ids (insert b (or_none (lookup b by_bot) ++ (id ∷ [])) by_bot)

abbrev pub groups_among : Option (ℕ → ℕ) → List ℕ → List ℕ → Map ℕ (List ℕ)
groups_among route [] chats = []
groups_among route (bot ∷ bots) chats = group_chats (routed route (bot ∷ bots)) chats []

-- The calls of the bots, each with its chats.
unfoldable pub broadcast : Pool → List ℕ → Map ℕ (List ℕ)
broadcast p chats = groups_among p.route p.bots chats

pub data PoolError (E : Type 0) : Type 0 where
  pool_is_empty : PoolError E
  bot_failed : E → PoolError E

module _ {E : Type 0} where
  -- The first error; every bot is called.
  abbrev pub first_error : (ℕ → List ℕ → Option E) → Map ℕ (List ℕ) → Option (PoolError E)
  first_error send [] = none
  first_error send ((b, ids) ∷ by_bot) = elim (send b ids) [
    | none ↦ first_error send by_bot
    | some e ↦ some (bot_failed e)
  ]

  abbrev pub reliable_among :
      (ℕ → List ℕ → Option E) → List ℕ → Map ℕ (List ℕ) → Map ℕ (List ℕ) × Option (PoolError E)
  reliable_among send [] by_bot = ([], some pool_is_empty)
  reliable_among send (bot ∷ bots) by_bot = (by_bot, first_error send by_bot)

  -- The calls, and the error.
  unfoldable pub broadcast_reliable :
      Pool → (ℕ → List ℕ → Option E) → List ℕ → Map ℕ (List ℕ) × Option (PoolError E)
  unfolding broadcast
  broadcast_reliable p send chats = reliable_among send p.bots (broadcast p chats)
