-- ===== src/Tests/Chats.antt =====
-- Runs of the theorems on the sending of messages of internal/adapters/telegram/bot.go.
use crypto_screener.Base.{false, [], ◌∷◌, ◌++◌, none, some, ◌≡◌, ◌≢◌, refl, inl, inr, take}
use crypto_screener.Base.Text.{text}
use crypto_screener.Telegram.{
  network_error, Delayed, elapsed, stopped, Round, delay_of, send_reliable, telegram_retry_after,
  should_retry_telegram, Bot, broadcast,
}
use crypto_screener.Telegram.Interrupted.{
  IsFailing, IsSilent, closed_while_retrying, send_reliable_ends,
}
use crypto_screener.Telegram.Queued.{messages, room, broadcast-fits}
use crypto_screener.Telegram.Verdict.{IsVerdict, send_reliable-IsVerdict}

abbrev down : Delayed → Round
down w = record { done_before = false; answer = some network_error; delayed = w }

abbrev through : Round
through = record { done_before = false; answer = none; delayed = elapsed }

network_retried : delay_of network_error ≢ none
unfolding delay_of telegram_retry_after should_retry_telegram
network_retried = λ x. cc x

down-IsFailing : (w : Delayed) → IsFailing w (down w)
down-IsFailing w = (refl, (network_error, (refl, (network_retried, refl))))

send_reliable-IsVerdict_example :
    IsVerdict
      (send_reliable elapsed (down elapsed ∷ through ∷ [])).0
      (send_reliable elapsed (down elapsed ∷ through ∷ [])).1
send_reliable-IsVerdict_example = send_reliable-IsVerdict elapsed (down elapsed ∷ through ∷ [])

closed_while_retrying_example : IsSilent (send_reliable elapsed (down elapsed ∷ down stopped ∷ []))
closed_while_retrying_example =
    closed_while_retrying (down elapsed ∷ []) (down stopped) [] (down-IsFailing elapsed, tt)
      (down-IsFailing stopped)

send_reliable_ends_example : (send_reliable elapsed (down elapsed ∷ through ∷ [])).1 ≢ none
send_reliable_ends_example =
    send_reliable_ends elapsed (down elapsed ∷ []) through [] (inr (inl refl))

abbrev bot : Bot
bot = record { closed = false; send_chan = [] }

broadcast-fits_example :
    (broadcast bot (text "hi") (1 ∷ 2 ∷ [])).0.send_chan
    ≡ [] ++ take (room bot) (messages (text "hi") (1 ∷ 2 ∷ []))
broadcast-fits_example = broadcast-fits bot (text "hi") (1 ∷ 2 ∷ []) refl
