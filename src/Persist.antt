-- ===== src/Persist.antt =====
-- persist of internal/app/persistence_worker.go. How each attempt to save ends is an argument, and so is
-- whether the shutdown comes before the timer.
use crypto_screener.Base.{◌*◌, ◌≤◌, List, [], ◌∷◌, ltb, if◌then◌else◌, All, arith}
use crypto_screener.Base.Time.{Duration, second, millisecond}

-- Saved, or failed and then the timer or the shutdown.
pub data Attempt : Type 0 where
  saved timer_fired shut_down : Attempt

-- How persist ends, or that the attempts given are all failures.
pub data PersistResult : Type 0 where
  stored interrupted trying : PersistResult

abbrev pub first_backoff : Duration
first_backoff = 200 * millisecond

unfoldable pub next_backoff : Duration → Duration
next_backoff b =
    if ltb b (5 * second) then (if ltb (5 * second) (b * 2) then 5 * second else b * 2) else b

-- The result, with the delays of the timers that were started.
abbrev pub persist_from : Duration → List Attempt → PersistResult × List Duration
persist_from b [] = (trying, [])
persist_from b (saved ∷ rest) = (stored, [])
persist_from b (shut_down ∷ rest) = (interrupted, b ∷ [])
persist_from b (timer_fired ∷ rest) =
    let (r, delays) = persist_from (next_backoff b) rest in (r, b ∷ delays)

unfoldable pub persist : List Attempt → PersistResult × List Duration
persist attempts = persist_from first_backoff attempts

IsDelay : Duration → Type 0
IsDelay d = (first_backoff ≤ d) × (d ≤ 5 * second)

next_backoff-IsDelay : (b : Duration) → IsDelay b → IsDelay (next_backoff b)
unfolding next_backoff IsDelay
next_backoff-IsDelay b (low, high) = (ground arith, ground arith)

persist_from-IsDelay :
    (b : Duration) (attempts : List Attempt) → IsDelay b → All IsDelay (persist_from b attempts).1
persist_from-IsDelay b [] h = tt
persist_from-IsDelay b (saved ∷ rest) h = tt
persist_from-IsDelay b (shut_down ∷ rest) h = (h, tt)
persist_from-IsDelay b (timer_fired ∷ rest) h =
    (h, persist_from-IsDelay (next_backoff b) rest (next_backoff-IsDelay b h))

-- Every delay lies between 200 milliseconds and five seconds.
persist_delays : (attempts : List Attempt) → All IsDelay (persist attempts).1
unfolding persist IsDelay
persist_delays attempts = persist_from-IsDelay first_backoff attempts (ground arith, ground arith)
