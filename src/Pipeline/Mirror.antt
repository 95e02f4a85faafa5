-- ===== src/Pipeline/Mirror.antt =====
-- sharded_aggregator.go and tracker.go together: the events of a tick reach the tracker in order,
-- through the channel of internal/app/app.go, and the table of active signals mirrors the routes.
use crypto_screener.Base.{
  ℕ, Bool, true, false, not, List, [], ◌∷◌, ◌≡◌, refl, sym, ◌∙◌, ap, arith, if◌then◌else◌, none,
  inl, inr, Bool-cases, All,
}
use crypto_screener.Base.Text.{Text, is_empty}
use crypto_screener.Base.Time.{Time, is_zero_time}
use crypto_screener.Decimal.{Decimal}
use crypto_screener.Domain.Market.{MarketTick, SpreadEvent}
use crypto_screener.Aggregator.{Shard, Deps, tick_time}
use crypto_screener.Aggregator.Process.{process_in_shard}
use crypto_screener.Aggregator.Lifecycle.{IsTable, open_routes}
use crypto_screener.Aggregator.Events.{process_in_shard_runs}
use crypto_screener.Aggregator.Emitted.{keys_under, IsEmitted, process_in_shard-IsEmitted}
use crypto_screener.Aggregator.Offers.{HasFloor}
use crypto_screener.Protocol.{Open, Runs, NotBefore}
use crypto_screener.Tracker.{Tracker, is_ignored}
use crypto_screener.Tracker.Table.{open_signals, handle_events, handle_events_follow}
use crypto_screener.Pipeline.Frame.{
  after, Agree, About, OpenedBy, Runs-frame, Timely-frame, after_elsewhere, Timely-at,
  Runs-NotBefore,
}

-- The open routes of a class, none of which was opened after a date.
abbrev pub OpenedUnder : (Text → Bool) → Time → Open → Type 0
OpenedUnder mine now a = (k : Text) → mine k ≡ true → NotBefore now (a k)

abbrev restrict : (Text → Bool) → Open → Open
restrict mine a k = if mine k then a k else none

restrict-Agree : (mine : Text → Bool) (a b : Open) → Agree mine a b → Agree mine (restrict mine a) b
restrict-Agree mine a b h k m = rw m (h k m)

restrict-OpenedBy :
    (mine : Text → Bool) (now : Time) (a : Open)
    → OpenedUnder mine now a
    → OpenedBy now (restrict mine a)
restrict-OpenedBy mine now a h k = elim (Bool-cases (mine k)) [
  | inl own ↦ rw own (h k own)
  | inr other ↦ rw other tt
]

-- The tracker agrees with the shard on the routes of a symbol, none of which was opened after a
-- date.
pub record Mirrors {D : Type 0} (symbol : Text) (now : Time) (s : Shard D) (tr : Tracker D)
    : Type 0 where
  pub agree : Agree (keys_under symbol) (open_routes s.active) (open_signals tr.active_signals)
  pub opened_before : OpenedUnder (keys_under symbol) now (open_routes s.active)

module _ {D : Type 0} ⦃dec : Decimal D⦄ where
  emitted_kept :
      (symbol : Text) (now : Time) (ev : SpreadEvent D)
      → is_zero_time now ≡ false
      → IsEmitted symbol now ev
      → is_ignored ev ≡ false
  unfolding is_ignored
  emitted_kept symbol now ev z h = rw (h.dated, z, h.named) h.spread_nonneg

  All-emitted :
      (P : SpreadEvent D → Type 0) (symbol : Text) (now : Time) (evs : List (SpreadEvent D))
      → ((ev : SpreadEvent D) → IsEmitted symbol now ev → P ev)
      → All (IsEmitted symbol now) evs
      → All P evs
  All-emitted P symbol now [] f h = tt
  All-emitted P symbol now (ev ∷ evs) f (h, hs) = (f ev h, All-emitted P symbol now evs f hs)

  module _ (ids : ℕ → Text) (symbol : Text) (now : Time) (a b : Open) (evs : List (SpreadEvent D))
      (tr : Tracker D) where
    -- A stream about one symbol, at one time, moves the tracker as it moves the routes.
    follow :
        is_zero_time now ≡ false
        → Agree (keys_under symbol) a (open_signals tr.active_signals)
        → OpenedUnder (keys_under symbol) now a
        → All (IsEmitted symbol now) evs
        → Runs a evs b
        → Agree (keys_under symbol) b (open_signals (handle_events ids tr evs).active_signals)
          × ((k : Text)
              → keys_under symbol k ≡ false
              → open_signals (handle_events ids tr evs).active_signals k
                ≡ open_signals tr.active_signals k)
    follow z h o em r =
        let mine = keys_under symbol in
        let c = open_signals tr.active_signals in
        let own = All-emitted (About mine) symbol now evs (λ ev e. e.under_symbol) em in
        let (runs, agree) = Runs-frame mine a c b evs own h r in
        let dated = All-emitted (λ ev. ev.timestamp ≡ now) symbol now evs (λ ev e. e.dated) em in
        let timely =
          Timely-frame mine (restrict mine a) c evs own (restrict-Agree mine a c h)
            (Timely-at now (restrict mine a) evs dated (restrict-OpenedBy mine now a o)) in
        let kept =
          All-emitted (λ ev. is_ignored ev ≡ false) symbol now evs
            (λ ev. emitted_kept symbol now ev z) em in
        let done = handle_events_follow ids tr c (after c evs) evs refl runs timely kept in
        (
          λ k m. agree k m ∙ ap (λ x. x k) (sym done),
          λ k other. ap (λ x. x k) done ∙ after_elsewhere mine c evs k own other,
        )

  -- Where the tracker agrees with the shard on the routes of a tick's symbol, and none of them was
  -- opened after the tick, it agrees again once it handled the events of the tick, still none of
  -- the routes was opened after the tick, and the tracker keeps the signals of all other symbols.
  -- The tick names a symbol and has a time, no key of the shard's routes stands twice and each
  -- names its route, and no funding configuration asks for a negative spread.
  pub process_in_shard-Mirrors :
      (deps : Deps D) (clock : Time) (ids : ℕ → Text) (t : MarketTick D) (s : Shard D)
      (tr : Tracker D)
      → HasFloor deps
      → is_empty t.symbol ≡ false
      → is_zero_time (tick_time t) ≡ false
      → IsTable s.active
      → Mirrors t.symbol (tick_time t) s tr
      → let r = process_in_shard deps clock t s in
        let tr' = handle_events ids tr r.1 in
        Mirrors t.symbol (tick_time t) r.0 tr'
        × Agree
            (λ k. not (keys_under t.symbol k))
            (open_signals tr'.active_signals)
            (open_signals tr.active_signals)
  process_in_shard-Mirrors deps clock ids t s tr floor named z h m =
      let (table, runs) = process_in_shard_runs deps clock t s floor named h in
      let em = process_in_shard-IsEmitted deps clock t s floor named h in
      let r = process_in_shard deps clock t s in
      let (agree, others) =
        follow ids t.symbol (tick_time t) (open_routes s.active) (open_routes r.0.active) r.1 tr z
          m.agree m.opened_before em runs in
      (
        record {
          agree = agree;
          opened_before = λ k own.
              Runs-NotBefore (tick_time t) _ _ r.1 k
                (All-emitted (λ ev. ev.timestamp ≡ tick_time t) t.symbol (tick_time t) r.1
                  (λ ev e. e.dated) em)
                runs (m.opened_before k own);
        },
        λ k other. others k (ground arith),
      )
