-- ===== src/Delivery/Current.antt =====
-- The router of notification_router.go with the aggregator of sharded_aggregator.go as its
-- revalidator, which is how internal/app/app.go joins them.
use crypto_screener.Base.{ℕ, ◌≡◌, ◌&&◌, some, true}
use crypto_screener.Base.Eq.{text_eq}
use crypto_screener.Base.Map.{lookup}
use crypto_screener.Base.Text.{Text}
use crypto_screener.Base.Time.{Time}
use crypto_screener.Decimal.{Decimal}
use crypto_screener.Domain.Signal.{ArbitrageSignal}
use crypto_screener.Domain.User.{UserManager}
use crypto_screener.Aggregator.{ShardedAggregator, Book, normalize_symbol, shard_for}
use crypto_screener.Aggregator.Process.{shard_at}
use crypto_screener.Aggregator.Offers.{HasFloor}
use crypto_screener.Aggregator.Revalidate.{revalidate_signal, renewed}
use crypto_screener.Aggregator.Revalidate.Sound.{revalidate_signal_sound, IsCurrent}
use crypto_screener.Router.{Router, NotificationJob}
use crypto_screener.Router.Audience.{chosen, is_eligible}
use crypto_screener.Router.Recipients.{chats_of, prepare_sound}
use crypto_screener.Router.Send.{prepare}

module _ {D : Type 0} ⦃dec : Decimal D⦄ where
  -- The chats that are told now are those of the job's users who pass the filters for a signal that
  -- a current route of the job's own supports.
  pub record IsFresh (crc32 : Text → ℕ) (sa : ShardedAggregator D) (nr : Router D)
      (users : UserManager D) (clock now : Time) (job job' : NotificationJob D) : Type 0 where
    pub current : ArbitrageSignal D
    pub book : Book D
    pub priced :
        lookup
          (normalize_symbol job.signal.symbol)
          (shard_at sa.shards (shard_for crc32 job.signal.symbol)).prices
        ≡ some book
    pub is_current : IsCurrent sa.deps book now job.signal current
    pub recipients :
        job'.chat_ids
        ≡ chats_of
            (λ u. chosen job.chat_ids u.chat_id && is_eligible nr.volume clock now current u)
            users

  -- With the aggregator as its revalidator, the router passes a job only if the route of its signal
  -- is on offer at fresh prices of the book of its symbol, with a spread that is positive after
  -- fees, and under the funding manager's verdict on just these two legs and this spread: on live
  -- records of the legs, with their rates and times, and with a net spread, of the spread and the
  -- rates, that reaches the configured minimum and is not negative. The chats that stay are those
  -- of the job's users who pass the filters for the signal with this net spread and these times.
  -- The job has to be checked, the router has users, and no funding configuration asks for a
  -- negative spread.
  pub prepare-IsFresh :
      (crc32 : Text → ℕ) (sa : ShardedAggregator D) (nr : Router D) (users : UserManager D)
      (clock now : Time) (job job' : NotificationJob D)
      → HasFloor sa.deps
      → nr.users ≡ some users
      → job.revalidate ≡ true
      → prepare (some (revalidate_signal crc32 now sa)) nr clock now job ≡ some job'
      → IsFresh crc32 sa nr users clock now job job'
  prepare-IsFresh crc32 sa nr users clock now job job' floor e again h =
      let (valid, renewed) =
        prepare_sound (revalidate_signal crc32 now sa) nr users clock now job job' e again h in
      let (book, (priced, is_current)) =
        revalidate_signal_sound crc32 now sa job.signal renewed.current floor renewed.revalidated in
      record {
        current = renewed.current;
        book = book;
        priced = priced;
        is_current = is_current;
        recipients = renewed.recipients;
      }
