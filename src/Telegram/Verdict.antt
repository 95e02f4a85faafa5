-- ===== src/Telegram/Verdict.antt =====
-- What a caller of sendReliable and BroadcastReliable of internal/adapters/telegram/bot.go learns.
use crypto_screener.Base.{
  ◌↔◌, ℕ, List, [], ◌∷◌, ◌++◌, Option, none, some, ◌≡◌, ◌≢◌, refl, inl, inr, All, Bool-cases,
}
use crypto_screener.Telegram.{
  ApiError, Delayed, elapsed, cancelled, stopped, SendError, context_done, delivery_cancelled,
  rejected, Round, Sent, delay_of, after_failure, after_answer, send_rounds, send_reliable, Taken,
  bot_closed, enqueue_cancelled, bot_stopping, answer_cancelled, answered, BroadcastError,
  reliable_from, broadcast_reliable, not_delivered,
}

-- An answer after which the message is sent again.
abbrev pub IsRetried : Option ApiError → Type 0
IsRetried none = ⊥
IsRetried (some e) = delay_of e ≢ none

-- What the answers of the API say about the end of a send that is still going, or has one.
pub data IsVerdict : List (Option ApiError) → Option (Option SendError) → Type 0 where
  going : (l : List (Option ApiError)) → All IsRetried l → IsVerdict l none
  sent_once :
      (l : List (Option ApiError)) → All IsRetried l → IsVerdict (l ++ (none ∷ [])) (some none)
  refused_for_good :
      (l : List (Option ApiError)) (e : ApiError)
      → All IsRetried l
      → delay_of e ≡ none
      → IsVerdict (l ++ (some e ∷ [])) (some (some (rejected e)))
  given_up : (l : List (Option ApiError)) → All IsRetried l → IsVerdict l (some (some context_done))
  not_begun : IsVerdict [] (some (some delivery_cancelled))
  -- The bot was closed while the send waited for another attempt.
  closed_early :
      (l : List (Option ApiError)) (e : ApiError)
      → All IsRetried l
      → delay_of e ≢ none
      → IsVerdict (l ++ (some e ∷ [])) (some none)

more :
    (e : ApiError) {l : List (Option ApiError)} {r : Option (Option SendError)}
    → delay_of e ≢ none
    → r ≢ some (some delivery_cancelled)
    → IsVerdict l r
    → IsVerdict (some e ∷ l) r
more e d n (going l h) = going (some e ∷ l) (d, h)
more e d n (sent_once l h) = sent_once (some e ∷ l) (d, h)
more e d n (refused_for_good l f h p) = refused_for_good (some e ∷ l) f (d, h) p
more e d n (given_up l h) = given_up (some e ∷ l) (d, h)
more e d n not_begun = absurd (n refl)
more e d n (closed_early l f h p) = closed_early (some e ∷ l) f (d, h) p

abbrev IsEnd : Sent → Type 0
IsEnd s = IsVerdict s.0 s.1 × (s.1 ≢ some (some delivery_cancelled))

after_failure-IsEnd :
    (e : ApiError) (d : Option _) (w : Delayed) (rest : Sent)
    → delay_of e ≡ d
    → IsEnd rest
    → IsEnd (after_failure e d w rest)
after_failure-IsEnd e none w rest q h = (refused_for_good [] e tt q, λ x. cc x)
after_failure-IsEnd e (some d) elapsed rest q h = (more e (λ x. cc (x, q)) h.1 h.0, h.1)
after_failure-IsEnd e (some d) cancelled rest q h =
    (given_up (some e ∷ []) ((λ x. cc (x, q)), tt), λ x. cc x)
after_failure-IsEnd e (some d) stopped rest q h = (closed_early [] e tt (λ x. cc (x, q)), λ x. cc x)

after_answer-IsEnd :
    (a : Option ApiError) (w : Delayed) (rest : Sent) → IsEnd rest → IsEnd (after_answer a w rest)
after_answer-IsEnd none w rest h = (sent_once [] tt, λ x. cc x)
after_answer-IsEnd (some e) w rest h = after_failure-IsEnd e (delay_of e) w rest refl h

send_rounds-IsEnd : (rounds : List Round) → IsEnd (send_rounds rounds)
unfolding send_rounds
send_rounds-IsEnd [] = (going [] tt, λ x. cc x)
send_rounds-IsEnd (r ∷ rounds) = elim (Bool-cases r.done_before) [
  | inl e ↦ rw (send_rounds, e) (given_up [] tt, λ x. cc x)
  | inr e ↦
      rw (send_rounds, e)
        (after_answer-IsEnd r.answer r.delayed (send_rounds rounds) (send_rounds-IsEnd rounds))
]

-- What the caller of sendReliable learns fits what the API answered: it gets no error only if
-- exactly the last attempt succeeded, or if the bot was closed while the send waited for another
-- attempt; it gets an error of the API only if it is the answer to the last attempt and not one to
-- retry; in all cases every attempt before the last failed with an error to retry; while there is
-- no verdict no attempt has succeeded, nor when the context ended the send; and nothing was sent
-- when the send interval was cut short.
pub send_reliable-IsVerdict :
    (w : Delayed) (rounds : List Round)
    → IsVerdict (send_reliable w rounds).0 (send_reliable w rounds).1
unfolding send_reliable
send_reliable-IsVerdict elapsed rounds = (send_rounds-IsEnd rounds).0
send_reliable-IsVerdict cancelled rounds = not_begun
send_reliable-IsVerdict stopped rounds = not_begun

-- A failed message is remembered whatever follows.
kept_error : (e : BroadcastError) (turns : List (ℕ × Taken)) → reliable_from (some e) turns ≢ none
unfolding reliable_from
kept_error e [] h = cc h
kept_error e ((chat, bot_closed) ∷ rest) h = cc h
kept_error e ((chat, enqueue_cancelled) ∷ rest) h = cc h
kept_error e ((chat, bot_stopping) ∷ rest) h = cc h
kept_error e ((chat, answer_cancelled) ∷ rest) h = cc h
kept_error e ((chat, answered none) ∷ rest) h = kept_error e rest h
kept_error e ((chat, answered (some f)) ∷ rest) h = kept_error e rest h

all_answered :
    (turns : List (ℕ × Taken))
    → reliable_from none turns ≡ none
    → All (λ (p : ℕ × Taken). p.1 ≡ answered none) turns
unfolding reliable_from
all_answered [] h = tt
all_answered ((chat, bot_closed) ∷ rest) h = cc h
all_answered ((chat, enqueue_cancelled) ∷ rest) h = cc h
all_answered ((chat, bot_stopping) ∷ rest) h = cc h
all_answered ((chat, answer_cancelled) ∷ rest) h = cc h
all_answered ((chat, answered none) ∷ rest) h = (refl, all_answered rest h)
all_answered ((chat, answered (some f)) ∷ rest) h =
    absurd (kept_error (not_delivered chat f) rest h)

none_failed :
    (turns : List (ℕ × Taken))
    → All (λ (p : ℕ × Taken). p.1 ≡ answered none) turns
    → reliable_from none turns ≡ none
unfolding reliable_from
none_failed [] h = refl
none_failed ((chat, bot_closed) ∷ rest) h = cc h.0
none_failed ((chat, enqueue_cancelled) ∷ rest) h = cc h.0
none_failed ((chat, bot_stopping) ∷ rest) h = cc h.0
none_failed ((chat, answer_cancelled) ∷ rest) h = cc h.0
none_failed ((chat, answered none) ∷ rest) h = none_failed rest h.1
none_failed ((chat, answered (some f)) ∷ rest) h = cc h.0

pub broadcast_reliable_iff :
    (turns : List (ℕ × Taken))
    → (broadcast_reliable turns ≡ none) ↔ All (λ (p : ℕ × Taken). p.1 ≡ answered none) turns
unfolding broadcast_reliable
broadcast_reliable_iff turns = (all_answered turns, none_failed turns)
