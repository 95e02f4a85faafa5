-- ===== src/Tests/Bots.antt =====
-- A run of the theorem on botpool.go: two bots, of which the second serves the even chats.
use crypto_screener.Base.{ℕ, ◌*◌, ◌-◌, ◌%◌, [], ◌∷◌, ◌≡◌, List, some, keep_if}
use crypto_screener.Base.Eq.{nat_eq}
use crypto_screener.Base.Map.{Distinct}
use crypto_screener.BotPool.{Pool, broadcast, bot_for}
use crypto_screener.BotPool.Groups.{sent_to, is_bot, broadcast_by_bot}

abbrev pool : Pool
pool = record { bots = 11 ∷ 12 ∷ []; route = some (λ chat. 12 * (1 - chat % 2)) }

abbrev chats : List ℕ
chats = 1 ∷ 2 ∷ 3 ∷ 4 ∷ []

broadcast_by_bot_example :
    Distinct (broadcast pool chats)
    × (sent_to 1 (broadcast pool chats) ≡ keep_if (λ id. is_bot 1 (bot_for pool id)) chats)
broadcast_by_bot_example = broadcast_by_bot pool chats 1
