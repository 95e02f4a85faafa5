-- ===== src/Telegram/Queued.antt =====
-- Broadcast of internal/adapters/telegram/bot.go against what fits into the queue.
use crypto_screener.Base.{
  ℕ, zero, suc, ◌-◌, true, false, List, [], ◌∷◌, ◌++◌, if◌then◌else◌, ltb, ◌≡◌, refl, inl, inr,
  Bool-cases, ap, sym, ◌∙◌, length, take, map, arith, length-append, ltb→lt,
}
use mathlib.Core.List.{append_assoc, append-nil}
use crypto_screener.Base.Text.{Text}
use crypto_screener.Telegram.{MessageConfig, Bot, send_chan_buffer, send_private_message, broadcast}

abbrev pub messages : Text → List ℕ → List MessageConfig
messages body = map λ chat. record { chat_id = chat; body = body }

-- The messages that still fit.
abbrev pub room : Bot → ℕ
room b = send_chan_buffer - length b.send_chan

take_none : (xs : List MessageConfig) (n : ℕ) → n ≡ 0 → take n xs ≡ []
take_none xs zero h = refl
take_none xs (suc n) h = cc h

take_some :
    (x : MessageConfig) (xs : List MessageConfig) (n m : ℕ)
    → n ≡ suc m
    → take n (x ∷ xs) ≡ x ∷ take m xs
take_some x xs n m h = ap (λ k. take k (x ∷ xs)) h

module _ (b : Bot) (body : Text) (chat : ℕ) where
  abbrev message : MessageConfig
  message = record { chat_id = chat; body = body }

  abbrev grown : Bot
  grown = record b { send_chan = b.send_chan ++ (message ∷ []) }

  accepted :
      b.closed ≡ false
      → ltb (length b.send_chan) send_chan_buffer ≡ true
      → send_private_message b chat body ≡ (grown, 0)
  unfolding send_private_message
  accepted h fits =
      ap
        (λ c.
          if c
          then (b, 0)
          else if ltb (length b.send_chan) send_chan_buffer
          then (grown, 0)
          else (b, 1))
        h
      ∙ ap (λ c. if c then (grown, 0) else (b, 1)) fits

  dropped :
      b.closed ≡ false
      → ltb (length b.send_chan) send_chan_buffer ≡ false
      → send_private_message b chat body ≡ (b, 1)
  unfolding send_private_message
  dropped h full =
      ap
        (λ c.
          if c
          then (b, 0)
          else if ltb (length b.send_chan) send_chan_buffer
          then (grown, 0)
          else (b, 1))
        h
      ∙ ap (λ c. if c then (grown, 0) else (b, 1)) full

  room_left : ltb (length b.send_chan) send_chan_buffer ≡ true → room b ≡ suc (room grown)
  room_left fits = omega (arith, ltb→lt _ _ fits, length-append b.send_chan (message ∷ []))

  no_room : ltb (length b.send_chan) send_chan_buffer ≡ false → room b ≡ 0
  no_room full = ground arith

take_nil : (n : ℕ) → take {A = MessageConfig} n [] ≡ []
take_nil zero = refl
take_nil (suc n) = refl

-- Broadcast of an open bot puts the messages for the first chats, as many as fit, behind what waits
-- in the queue, in the order of the chats, and drops all others; the queue holds 5000.
pub broadcast-fits :
    (b : Bot) (body : Text) (chats : List ℕ)
    → b.closed ≡ false
    → (broadcast b body chats).0.send_chan ≡ b.send_chan ++ take (room b) (messages body chats)
unfolding broadcast
broadcast-fits b body [] h =
    sym (ap (λ l. b.send_chan ++ l) (take_nil (room b)) ∙ append-nil b.send_chan)
broadcast-fits b body (chat ∷ chats) h =
    elim (Bool-cases (ltb (length b.send_chan) send_chan_buffer)) [
      | inl fits ↦
          let g = grown b body chat in
          ap (λ (r : Bot × ℕ). (broadcast r.0 body chats).0.send_chan) (accepted b body chat h fits)
          ∙ broadcast-fits g body chats h
          ∙ append_assoc b.send_chan (message b body chat ∷ [])
              (take (room g) (messages body chats))
          ∙ ap (λ l. b.send_chan ++ l)
              (sym (
                take_some (message b body chat) (messages body chats) (room b) (room g)
                  (room_left b body chat fits)))
      | inr full ↦
          let none_ = no_room b body chat full in
          ap (λ (r : Bot × ℕ). (broadcast r.0 body chats).0.send_chan) (dropped b body chat h full)
          ∙ broadcast-fits b body chats h
          ∙ ap (λ l. b.send_chan ++ l)
              (take_none (messages body chats) (room b) none_
                ∙ sym (take_none (messages body (chat ∷ chats)) (room b) none_))
    ]
