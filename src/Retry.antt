-- ===== src/Retry.antt =====
-- internal/retry/backoff.go: the delay before the next attempt. A time.Duration is an int64 of
-- nanoseconds, so a product of 2^63 or more is negative for a factor of 2; durations that are not
-- positive are 0. The counter is a uint32. The random jitter and the timer are left out.
use crypto_screener.Base.{
  ℕ, zero, suc, ◌+◌, ◌*◌, ◌%◌, ◌^◌, ◌<◌, ◌≤◌, ◌||◌, ◌≡◌, arith, ltb, leb, eqb, if◌then◌else◌, inl,
  inr, Bool-cases,
}
use crypto_screener.Base.Time.{Duration, second}

pub record Backoff : Type 0 where
  pub base : Duration
  pub max : Duration
  pub attempt : ℕ

unfoldable pub new_backoff : Duration → Duration → Backoff
new_backoff base max =
    let base' = if eqb base 0 then second else base in
    record { base = base'; max = if ltb max base' then 30 * second else max; attempt = 0 }

abbrev pub reset : Backoff → Backoff
reset b = record b { attempt = 0 }

-- The loop of Wait: at most so many doublings, and none once the maximum is reached.
unfoldable pub grow : ℕ → Duration → Duration → Duration
grow zero max delay = delay
grow (suc attempts) max delay =
    let rest = grow attempts max (delay * 2) in
    if ltb delay max
    then if leb max (delay * 2) || leb (2 ^ 63) (delay * 2) then max else rest
    else delay

-- Wait: the delay before the jitter, and the counter for the next time.
unfoldable pub wait : Backoff → Duration × Backoff
wait b = (grow b.attempt b.max b.base, record b { attempt = (b.attempt + 1) % 2 ^ 32 })

abbrev pub at_most : Duration → Duration → Duration
at_most max d = if ltb d max then d else max

double_first : (n d : ℕ) → d * 2 * 2 ^ n ≡ d * 2 ^ suc n
double_first n d = grind arith

at_least : (n d : ℕ) → d ≤ d * 2 ^ n
at_least zero d = omega arith
at_least (suc n) d = omega (arith, at_least n (d * 2), double_first n d)

pub grow_lem :
    (attempts max delay : ℕ)
    → delay ≤ max
    → max < 2 ^ 63
    → grow attempts max delay ≡ at_most max (delay * 2 ^ attempts)
unfolding grow
grow_lem zero max delay le bound = ground arith
grow_lem (suc attempts) max delay le bound = elim (Bool-cases (ltb delay max)) [
  | inr full ↦ rw full (ground (arith, at_least (suc attempts) delay))
  | inl low ↦ elim (Bool-cases (leb max (delay * 2))) [
    | inl over ↦
        rw (low, over) (ground (arith, at_least attempts (delay * 2), double_first attempts delay))
    | inr under ↦
        ground (
          arith,
          grow_lem attempts max (delay * 2) (ground arith) bound,
          double_first attempts delay,
        )
  ]
]

-- The delay before the jitter is the base doubled once for each earlier attempt, cut at the
-- maximum, provided that the base does not exceed the maximum and the maximum is an int64.
pub wait-at_most :
    (b : Backoff)
    → b.base ≤ b.max
    → b.max < 2 ^ 63
    → (wait b).0 ≡ at_most b.max (b.base * 2 ^ b.attempt)
unfolding wait
wait-at_most b le bound = grow_lem b.attempt b.max b.base le bound
