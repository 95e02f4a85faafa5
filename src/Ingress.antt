-- ===== src/Ingress.antt =====
-- internal/ingress/latest.go: the newest tick of each exchange, symbol and market waits for the channel.
-- A state holds the map, the tick that flush has taken and not yet sent, and, for the statements, what
-- was sent, the newest first. `notify`, `done` and `runDone`, which only wake and end the goroutine,
-- are left out. A channel is a number, and a nil channel `none`.
pub mod Latest
use crypto_screener.Base.{ℕ, Bool, true, false, List, [], ◌∷◌, Option, none, some, if◌then◌else◌}
use crypto_screener.Base.Eq.{text_eq, nat_eq, pair_eq, ◌==◌}
use crypto_screener.Base.Map.{Map, lookup, insert, delete}
use crypto_screener.Base.Text.{Text}
use crypto_screener.Domain.Market.{MarketTick, MarketType}

abbrev pub TickKey : Type 0
TickKey = Text × (Text × MarketType)

pub record Coalescer (D : Type 0) : Type 0 where
  pub latest : Map TickKey (MarketTick D)
  pub stopped : Bool
  pub in_hand : Option (MarketTick D)
  pub sent : List (MarketTick D)

abbrev pub Registry : Type 0 → Type 0
Registry D = Map ℕ (Coalescer D)

module _ {D : Type 0} where
  abbrev pub key_of : MarketTick D → TickKey
  key_of t = (t.exchange, (t.symbol, t.market_type))

  abbrev pub new_state : Coalescer D
  new_state = record { latest = []; stopped = false; in_hand = none; sent = [] }

  -- The part of Submit under the lock.
  unfoldable pub store_tick : Coalescer D → MarketTick D → Coalescer D
  store_tick s t = if s.stopped then s else record s { latest = insert (key_of t) t s.latest }

  -- next, called by flush, on the entries of the map.
  abbrev pub take_first : Map TickKey (MarketTick D) → Coalescer D → Coalescer D
  take_first [] s = s
  take_first (e ∷ rest) s = record s { latest = delete e.0 s.latest; in_hand = some e.1 }

  unfoldable pub take_next : Coalescer D → Coalescer D
  take_next s = take_first s.latest s

  -- The two branches of the select in flush: the channel took the tick, or the state is done and the
  -- tick goes to put, which keeps nothing once the state is stopped.
  abbrev pub send_hand : Option (MarketTick D) → Coalescer D → Coalescer D
  send_hand none s = s
  send_hand (some t) s = record s { in_hand = none; sent = t ∷ s.sent }

  unfoldable pub send_tick : Coalescer D → Coalescer D
  send_tick s = send_hand s.in_hand s

  unfoldable pub put_back : Coalescer D → Coalescer D
  unfolding store_tick
  put_back s = elim s.in_hand [ none ↦ s | some t ↦ store_tick (record s { in_hand = none }) t ]

  unfoldable pub drain_state : Coalescer D → Coalescer D
  drain_state s = record s { stopped = true; latest = [] }

  -- LoadOrStore of the registry.
  abbrev pub state_of : ℕ → Registry D → Coalescer D
  state_of out registry = elim (lookup out registry) [ none ↦ new_state | some s ↦ s ]

  unfoldable pub submit : Registry D → Option ℕ → MarketTick D → Registry D
  submit registry none t = registry
  submit registry (some out) t = insert out (store_tick (state_of out registry) t) registry

  unfoldable pub drain_and_stop : Registry D → Option ℕ → Registry D
  drain_and_stop registry none = registry
  drain_and_stop registry (some out) = insert out (drain_state (state_of out registry)) registry

  unfoldable pub forget : Registry D → Option ℕ → Registry D
  forget registry none = registry
  forget registry (some out) = delete out registry
