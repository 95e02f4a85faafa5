-- ===== src/Tests/Persistence.antt =====
-- Runs of the theorems on the persistence buffer, with a repository that counts what it saves.
use crypto_screener.Base.{ℕ, suc, true, [], ◌∷◌, ◌≡◌, refl, arith, some}
use crypto_screener.Base.Eq.{text_eq, list_beq}
use crypto_screener.Base.Map.{lookup, insert}
use crypto_screener.Base.Int.{ℤ, pos}
use crypto_screener.Decimal.Fixed.{fixed_decimal}
use crypto_screener.Domain.Signal.{ArbitrageSignal, new_arbitrage_signal}
use crypto_screener.Buffer.{
  Buffer, BufferedSignal, empty_buffer, put, put_all, snapshot_batch, ack, flush,
}
use crypto_screener.Buffer.Sound.{IsSound, put-IsSound}
use crypto_screener.Buffer.Newest.{newest_kept}
use crypto_screener.Buffer.Drain.{flush_drains}
use crypto_screener.Tests.Late.{signal}

abbrev newer : ArbitrageSignal ℤ
newer = record signal { peak_spread = pos 120000 }

abbrev one_signal : Buffer ℤ
one_signal = (put empty_buffer signal).0

one_signal-IsSound : IsSound one_signal
one_signal-IsSound = put-IsSound empty_buffer signal (record { distinct = tt; keyed = tt })

newest_kept_example :
    let b = ack (snapshot_batch 500 one_signal) (put_all (newer ∷ []) one_signal) in
    (item : BufferedSignal ℤ) × (lookup newer.id b.items ≡ some item) × (item.signal ≡ newer)
unfolding put new_arbitrage_signal lookup list_beq insert
newest_kept_example =
    newest_kept one_signal 500 (newer ∷ []) newer one_signal-IsSound refl refl (omega arith) refl

flush_drains_example :
    (flush (λ (n : ℕ) s. (suc n, true)) 1 500 (λ n. []) 0 one_signal).1.items ≡ []
unfolding put new_arbitrage_signal insert
flush_drains_example =
    flush_drains (λ n s. (suc n, true)) 1 500 0 one_signal (λ n s. refl) one_signal-IsSound
      (omega arith) (omega arith)
