-- ===== src/Lib.antt =====
-- Verification of the crypto arbitrage screener: the path of a market tick to a tracked
-- signal and to its announcement.
--
-- The program takes ticks from exchange adapters, keeps the newest prices by symbol, exchange and
-- market in a sharded aggregator, looks for routes (buy here, sell there) that are worth more than
-- their fees and funding, and emits lifecycle events for them; the tracker turns these into signals,
-- which it hands on to be stored and announced.
--
--   Base        helpers: Boolean tests, equality, lists, Go strings as lists of bytes, Go maps as
--               association lists, integers, times in nanoseconds.
--   Decimal     the numbers of shopspring/decimal as an interface with the laws that are relied on;
--               Decimal.Fixed meets it with fixed-point numbers, for runs.
--   Domain      internal/domain: Market (market.go, volume.go, events of signal.go), Signal
--               (ArbitrageSignal), Config (config.go: thresholds, fees, ParseFees; Config.Listing is
--               FeesString), User (user.go).
--   Funding     internal/app/funding_manager.go: records, health, configuration; Funding.Evaluate is
--               EvaluateSpotFutures and EvaluateFuturesPair.
--   Volume      internal/app/volume_engine.go: minute buckets; Volume.Estimate is the windows,
--               and Volume.Windows what a complete one says.
--   Aggregator  internal/app/sharded_aggregator.go: Candidates (crossCandidates, intraCandidate),
--               Eligible (symbolMayPassVolume, routeVolumeEligible), Observe (observe), Process
--               (ProcessTick, FlushActive, Janitor), Revalidate (RevalidateSignal); the
--               other modules below it hold proofs.
--   Protocol    what the aggregator promises and the tracker relies on: which routes are open, since
--               when, and how an event moves that. It is the interface between the two tables.
--   Tracker     internal/app/tracker.go: HandleEvent on the table of active signals.
--   Buffer      internal/app/signal_persistence_buffer.go: the newest snapshot of each signal until it
--               is saved. flush runs on rounds, of which as many as signals are enough.
--   Persist     internal/app/persistence_worker.go: the attempts to save one signal.
--   Retry       internal/retry/backoff.go: the delay of the exponential backoff.
--   Router      internal/app/notification_router.go: the queue of jobs; Router.Audience is who is
--               eligible, Router.Notify ProcessSignal and ProcessSignalUpdate, Router.Send sendJob.
--   Delivery    what HandleEvent does after the unlock: the sink and the router.
--   Connectors  internal/app/connector_manager.go: the entries and what of them runs.
--   Ingress     internal/ingress/latest.go: the newest tick of each key, as steps.
--   Adapters    internal/adapters/{binance,bingx,bitget,bybit,gateio,kucoin,mexc,okx}: Adapters.Ticks
--               is what becomes of one ticker message (toMarketTick, bboToTick, spotTickerToTick,
--               bookTickerToTick, spotToTick, futuresToTick), Adapters.Shards is shardArgsMax of
--               bybit.go.
--   Telegram    internal/adapters/telegram/bot.go: the queue of messages, and the attempts to send
--               one, on the answers of the Telegram API and the ends of the delays.
--   BotPool     internal/adapters/telegram/botpool.go: the bot of a chat, and broadcasts.
--   Commands    internal/app/app.go, HandleCommand: Edit is what a subscriber changes, Admin the
--               operator's commands and the reports, Handle who may do what; Steps names what a
--               command may do at all, Interleaved splits a change of the floor into its calls, and
--               the other modules below it hold proofs.
--   Startup     internal/app/app.go: NewApplication, loadOperatorSettings, the users that Run loads;
--               Startup.Run is Run up to the wait; the other modules below it hold proofs.
--   Dispatch    internal/app/app.go: dispatchTicks.
--   Settings    internal/config/config.go: the parsers of the environment's values.
--   Mexc        internal/adapters/mexc/proto.go: the protobuf decoder; Mexc.Fields is its two loops.
--               They run on fuel, of which as much as there are bytes is enough.
--   Pipeline    aggregator and tracker, as ingestionWorker and trackerWorker of internal/app/app.go
--               run them.
--   Tests       runs of the theorems on a small market.
--
-- Commands are one step each. In the program the eight workers of a bot call HandleCommand without a
-- lock, so two commands may overlap: what is said of any commands holds when each is handled before
-- the next one begins, and Commands.Interleaved is about two changes of the floor that overlap.
--
-- State is passed explicitly: a record for each component, and a function for each operation that
-- returns the new state and what it emits, in order. A lock makes an operation one step. The clock,
-- the ids of uuid.NewString, the checksum crc32 and the parser of decimals are arguments. A nil
-- pointer is `none`; the order of a map's list is the order in which Go ranges over it, which the
-- theorems leave open. Loops run over lists, or over a number of minutes that is known when they
-- start; only flush of the buffer and the decoder of MEXC run on fuel.
--
-- Not modelled: the connections of the adapters (WebSocket and HTTP, with JSON of third parties), the
-- statements of Postgres, the metrics, the wiring in cmd, the channels between the workers and their
-- overflow, and what the goroutines do on the way down. Chat ids are natural numbers, and the texts
-- of the replies are constructors.
pub mod Base
pub mod Decimal
pub mod Domain
pub mod Funding
pub mod Volume
pub mod Aggregator
pub mod Protocol
pub mod Tracker
pub mod Buffer
pub mod Retry
pub mod Router
pub mod Mexc
pub mod Connectors
pub mod Delivery
pub mod Ingress
pub mod Adapters
pub mod Telegram
pub mod BotPool
pub mod Commands
pub mod Startup
pub mod Dispatch
pub mod Settings
pub mod Persist
pub mod Pipeline
pub mod Tests
