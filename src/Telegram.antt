-- ===== src/Telegram.antt =====
-- internal/adapters/telegram/bot.go: the queue of messages, and the attempts to send one. The
-- Telegram API is outside of the repository: what its Send returns in each attempt, and how each
-- delay ends, are arguments. A nil error is `none`.
pub mod Verdict
pub mod Queued
pub mod Interrupted
use crypto_screener.Base.{
  ℕ, ◌+◌, ◌*◌, Bool, true, false, ◌||◌, List, [], ◌∷◌, ◌++◌, Option, none, some, if◌then◌else◌, ltb,
  leb, eqb, length,
}
use crypto_screener.Base.Text.{Text}
use crypto_screener.Base.Time.{Duration, second}

-- tgbotapi.Error with its code and RetryAfter in seconds, or any other error.
pub data ApiError : Type 0 where
  api_error : ℕ → ℕ → ApiError
  network_error : ApiError

-- The end of a select on a delay: it is over, the context is done, or the bot is closed while the
-- context is not done.
pub data Delayed : Type 0 where
  elapsed cancelled stopped : Delayed

pub data SendError : Type 0 where
  context_done delivery_cancelled : SendError
  rejected : ApiError → SendError

-- One round of the loop: whether the context is done before it, what Send returns, and how the
-- delay after it ends, if there is one.
pub record Round : Type 0 where
  pub done_before : Bool
  pub answer : Option ApiError
  pub delayed : Delayed

-- What Send answered, in order, and the error that the caller gets; `none` while it waits for more
-- rounds.
abbrev pub Sent : Type 0
Sent = List (Option ApiError) × Option (Option SendError)

abbrev pub retry_after_default : Duration
retry_after_default = 5 * second

abbrev pub send_chan_buffer : ℕ
send_chan_buffer = 5000

unfoldable pub should_retry_telegram : ApiError → Bool
should_retry_telegram (api_error code retry) = leb 500 code || eqb code 0
should_retry_telegram network_error = true

unfoldable pub telegram_retry_after : ApiError → Option Duration
telegram_retry_after network_error = none
telegram_retry_after (api_error code retry) =
    if eqb code 429
    then some (if ltb 0 retry then retry * second else retry_after_default)
    else none

-- The delay before the next attempt; `none` where there is no other.
unfoldable pub delay_of : ApiError → Option Duration
unfolding telegram_retry_after should_retry_telegram
delay_of e = elim (telegram_retry_after e) [
  | some d ↦ some d
  | none ↦ if should_retry_telegram e then some retry_after_default else none
]

-- After a failed attempt: the error is final, or the delay ends one way or another. ctx.Err() is nil
-- when it is the bot that was closed.
abbrev pub after_failure : ApiError → Option Duration → Delayed → Sent → Sent
after_failure e none w rest = (some e ∷ [], some (some (rejected e)))
after_failure e (some d) elapsed rest = (some e ∷ rest.0, rest.1)
after_failure e (some d) cancelled rest = (some e ∷ [], some (some context_done))
after_failure e (some d) stopped rest = (some e ∷ [], some none)

abbrev pub after_answer : Option ApiError → Delayed → Sent → Sent
after_answer none w rest = (none ∷ [], some none)
after_answer (some e) w rest = after_failure e (delay_of e) w rest

-- The loop of sendReliable.
unfoldable pub send_rounds : List Round → Sent
send_rounds [] = ([], none)
send_rounds (r ∷ rounds) =
    let rest = send_rounds rounds in
    if r.done_before then ([], some (some context_done)) else after_answer r.answer r.delayed rest

-- The first delay is that of the send interval.
unfoldable pub send_reliable : Delayed → List Round → Sent
send_reliable elapsed rounds = send_rounds rounds
send_reliable cancelled rounds = ([], some (some delivery_cancelled))
send_reliable stopped rounds = ([], some (some delivery_cancelled))

-- What the counters see of a message: it is sent, dropped, or neither.
pub data Counted : Type 0 where
  counted_sent counted_dropped uncounted : Counted

abbrev count_answer : Option ApiError → Counted
count_answer none = counted_sent
count_answer (some e) = counted_dropped

abbrev retry_once : Option Duration → Delayed → Option ApiError → List (Option ApiError) × Counted
retry_once none w again = ([], counted_dropped)
retry_once (some d) elapsed again = (again ∷ [], count_answer again)
retry_once (some d) cancelled again = ([], uncounted)
retry_once (some d) stopped again = ([], uncounted)

abbrev best_effort : Option ApiError → Delayed → Option ApiError → List (Option ApiError) × Counted
best_effort none w again = (none ∷ [], counted_sent)
best_effort (some e) w again =
    let (answers, c) = retry_once (telegram_retry_after e) w again in (some e ∷ answers, c)

-- sendBestEffort: the first delay, the first answer, the second delay and the second answer.
unfoldable pub send_best_effort :
    Delayed → Option ApiError → Delayed → Option ApiError → List (Option ApiError) × Counted
send_best_effort elapsed first w again = best_effort first w again
send_best_effort cancelled first w again = ([], uncounted)
send_best_effort stopped first w again = ([], uncounted)

pub record MessageConfig : Type 0 where
  pub chat_id : ℕ
  pub body : Text

pub record Bot : Type 0 where
  pub closed : Bool
  pub send_chan : List MessageConfig

-- The bot, and how many messages were dropped.
unfoldable pub send_private_message : Bot → ℕ → Text → Bot × ℕ
send_private_message b chat body =
    if b.closed
    then (b, 0)
    else if ltb (length b.send_chan) send_chan_buffer
    then (record b { send_chan = b.send_chan ++ (record { chat_id = chat; body = body } ∷ []) }, 0)
    else (b, 1)

-- Broadcast. Close marks the bot as closed before it stops the queue, so a bot that is not closed
-- takes the message or drops it.
unfoldable pub broadcast : Bot → Text → List ℕ → Bot × ℕ
broadcast b body [] = (b, 0)
broadcast b body (chat ∷ chats) =
    let (b', dropped) = send_private_message b chat body in
    let (b'', later) = broadcast b' body chats in (b'', dropped + later)

-- How the bot takes one message of BroadcastReliable: it is closed before, or the first select puts
-- the request into the queue, or ends with the context or with the bot; and how the second select
-- ends, with what sendReliable says or with the context.
pub data Taken : Type 0 where
  bot_closed enqueue_cancelled bot_stopping answer_cancelled : Taken
  answered : Option SendError → Taken

pub data BroadcastError : Type 0 where
  is_closed is_stopping context_ended : BroadcastError
  not_delivered : ℕ → SendError → BroadcastError

abbrev first_of : Option BroadcastError → Option BroadcastError → Option BroadcastError
first_of none later = later
first_of (some e) later = some e

-- The loop of BroadcastReliable, with the first error so far.
unfoldable pub reliable_from : Option BroadcastError → List (ℕ × Taken) → Option BroadcastError
reliable_from first [] = first
reliable_from first ((chat, bot_closed) ∷ rest) = some is_closed
reliable_from first ((chat, enqueue_cancelled) ∷ rest) = some context_ended
reliable_from first ((chat, bot_stopping) ∷ rest) = some is_stopping
reliable_from first ((chat, answer_cancelled) ∷ rest) = some context_ended
reliable_from first ((chat, answered none) ∷ rest) = reliable_from first rest
reliable_from first ((chat, answered (some e)) ∷ rest) =
    reliable_from (first_of first (some (not_delivered chat e))) rest

unfoldable pub broadcast_reliable : List (ℕ × Taken) → Option BroadcastError
unfolding reliable_from
broadcast_reliable = reliable_from none
