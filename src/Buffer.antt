-- ===== src/Buffer.antt =====
-- internal/app/signal_persistence_buffer.go. The map of the buffer is a list of entries; its lock
-- makes each operation one step. The repository's SaveSignal is the argument `save`, which says
-- whether it succeeded. The channel `wake`, which only shortens the wait for the ticker, is left out.
pub mod Sound
pub mod Newest
pub mod Drain
use crypto_screener.Base.{
  ℕ, zero, suc, ◌+◌, ◌%◌, ◌^◌, Bool, true, false, List, [], ◌∷◌, Option, none, some, eqb,
  if◌then◌else◌, map, take, length,
}
use crypto_screener.Base.Eq.{text_eq}
use crypto_screener.Base.Map.{Map, lookup, insert, delete}
use crypto_screener.Base.Text.{Text, is_empty}
use crypto_screener.Domain.Signal.{ArbitrageSignal}

pub record BufferedSignal (D : Type 0) : Type 0 where
  pub version : ℕ
  pub signal : ArbitrageSignal D

pub record Buffer (D : Type 0) : Type 0 where
  pub items : Map Text (BufferedSignal D)
  pub closed : Bool

abbrev pub empty_buffer : {D : Type 0} → Buffer D
empty_buffer = record { items = []; closed = false }

module _ {D : Type 0} where
  -- The zero value of an entry that is missing has version 0.
  abbrev pub version_of : Option (BufferedSignal D) → ℕ
  version_of none = 0
  version_of (some item) = item.version

  -- Put: `false` is the error of a closed buffer. A version is a uint64.
  unfoldable pub put : Buffer D → ArbitrageSignal D → Buffer D × Bool
  put b signal = if is_empty signal.id then (b, true) else if b.closed then (b, false) else (
    record b {
      items =
          insert signal.id
            (record {
              version = (version_of (lookup signal.id b.items) + 1) % 2 ^ 64;
              signal = signal;
            })
            b.items;
    },
    true,
  )

  abbrev pub put_all : List (ArbitrageSignal D) → Buffer D → Buffer D
  put_all [] b = b
  put_all (signal ∷ signals) b = put_all signals (put b signal).0

  unfoldable pub snapshot_batch : ℕ → Buffer D → List (BufferedSignal D)
  snapshot_batch limit b = take limit (map (λ e. e.1) b.items)

  abbrev pub is_version : ℕ → Option (BufferedSignal D) → Bool
  is_version version none = false
  is_version version (some current) = eqb current.version version

  unfoldable pub ack_one : BufferedSignal D → Buffer D → Buffer D
  ack_one item b =
      if is_version item.version (lookup item.signal.id b.items)
      then record b { items = delete item.signal.id b.items }
      else b

  unfoldable pub ack : List (BufferedSignal D) → Buffer D → Buffer D
  ack [] b = b
  ack (item ∷ batch) b = ack batch (ack_one item b)

  abbrev pub pending : Buffer D → ℕ
  pending b = length b.items

  abbrev pub close_buffer : Buffer D → Buffer D
  close_buffer b = record b { closed = true }

module _ {R D : Type 0} (save : R → ArbitrageSignal D → R × Bool) where
  -- The loop over a batch: it stops at the first error.
  unfoldable pub save_all : R → List (BufferedSignal D) → R × Bool
  save_all repo [] = (repo, true)
  save_all repo (item ∷ batch) =
      let (repo', ok) = save repo item.signal in
      let rest = save_all repo' batch in if ok then rest else (repo', false)

  -- flush with so many rounds at most. `arrivals` are the signals that are put between the snapshot
  -- of a round and its Ack.
  unfoldable pub flush : ℕ → ℕ → (ℕ → List (ArbitrageSignal D)) → R → Buffer D → R × Buffer D
  flush zero limit arrivals repo b = (repo, b)
  flush (suc rounds) limit arrivals repo b =
      let batch = snapshot_batch limit b in
      let (repo', ok) = save_all repo batch in
      let b' = put_all (arrivals 0) b in
      let rest = flush rounds limit (λ n. arrivals (suc n)) repo' (ack batch b') in
      elim batch [ [] ↦ (repo, b) | item ∷ others ↦ if ok then rest else (repo', b') ]
