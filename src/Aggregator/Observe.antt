-- ===== src/Aggregator/Observe.antt =====
-- observe of sharded_aggregator.go, the loop over the candidates, and the closing of the routes
-- that were not seen. `current` is the set of keys seen, as a list.
use crypto_screener.Base.{
  Bool, false, not, ◌||◌, ◌&&◌, List, [], ◌∷◌, ◌++◌, none, some, if◌then◌else◌, keep_if, map,
}
use crypto_screener.Base.Eq.{text_eq, ◌==◌}
use crypto_screener.Base.Map.{Map, lookup, insert, delete}
use crypto_screener.Base.Text.{Text, has_prefix}
use crypto_screener.Base.Time.{Time}
use crypto_screener.Decimal.{Decimal, decimal_zero, less_than, less_than_or_equal, greater_than}
use crypto_screener.Domain.Market.{SpreadEvent, SignalLifecycle, opened, updated, closed}
use crypto_screener.Domain.Config.{get_close_threshold, get_hard_min_spread}
use crypto_screener.Aggregator.{RouteState, Deps, route_key}

abbrev pub contains : List Text → Text → Bool
contains [] k = false
contains (j ∷ ks) k = (j == k) || contains ks k

abbrev pub is_missing : Text → List Text → Text → Bool
is_missing prefix current key = has_prefix key prefix && not (contains current key)

-- The active routes, the keys seen, and the event to emit, if any.
pub record Observed (D : Type 0) : Type 0 where
  pub active : Map Text (RouteState D)
  pub current : List Text
  pub events : List (SpreadEvent D)

module _ {D : Type 0} ⦃dec : Decimal D⦄ where
  abbrev pub with_lifecycle : SpreadEvent D → SignalLifecycle → SpreadEvent D
  with_lifecycle ev l = record ev { lifecycle = l }

  -- A route that was not active.
  unfoldable pub observe_new :
      Deps D
      → Map Text (RouteState D)
      → SpreadEvent D
      → Map Text (RouteState D) × List (SpreadEvent D)
  observe_new deps active ev =
      let ev' = with_lifecycle ev opened in
      if less_than ev.spread (get_hard_min_spread (some deps.config)) then (active, []) else (
        insert (route_key ev) (record { peak = ev.spread; last = ev'; opened_at = ev.timestamp })
            active,
        ev' ∷ [],
      )

  -- A route that was active with this state.
  unfoldable pub observe_active :
      Deps D
      → Map Text (RouteState D)
      → SpreadEvent D
      → RouteState D
      → Map Text (RouteState D) × List (SpreadEvent D)
  observe_active deps active ev state =
      if less_than_or_equal ev.spread (get_close_threshold (some deps.config))
      then (delete (route_key ev) active, with_lifecycle ev closed ∷ [])
      else if greater_than ev.spread state.peak
      then (
        insert (route_key ev) (record state { peak = ev.spread; last = ev }) active,
        with_lifecycle ev updated ∷ [],
      )
      else (insert (route_key ev) (record state { last = ev }) active, [])

  unfoldable pub observe :
      Deps D
      → Map Text (RouteState D)
      → SpreadEvent D
      → Map Text (RouteState D) × List (SpreadEvent D)
  unfolding observe_new observe_active
  observe deps active ev = elim (lookup (route_key ev) active) [
    | none ↦ observe_new deps active ev
    | some state ↦ observe_active deps active ev state
  ]

  unfoldable pub observe_one :
      Deps D → (SpreadEvent D → Bool) → SpreadEvent D → Observed D → Observed D
  observe_one deps eligible ev o =
      let (active', emitted) = observe deps o.active ev in
      if eligible ev
      then record {
        active = active';
        current = route_key ev ∷ o.current;
        events = o.events ++ emitted;
      }
      else o

  -- The loop of ProcessTick over the candidates; `eligible` is routeVolumeEligible.
  unfoldable pub observe_all :
      Deps D → (SpreadEvent D → Bool) → List (SpreadEvent D) → Observed D → Observed D
  observe_all deps eligible [] o = o
  observe_all deps eligible (ev ∷ evs) o =
      observe_all deps eligible evs (observe_one deps eligible ev o)

  -- A closing event for a route that is gone.
  abbrev pub closing : Time → RouteState D → SpreadEvent D
  closing now state = record state.last {
    spread = decimal_zero;
    timestamp = now;
    lifecycle = closed;
  }

  -- The routes that keep their place, and the events of the others.
  unfoldable pub close_missing :
      Text
      → List Text
      → Time
      → Map Text (RouteState D)
      → Map Text (RouteState D) × List (SpreadEvent D)
  close_missing prefix current now active = (
    keep_if (λ e. not (is_missing prefix current e.0)) active,
    map (λ e. closing now e.1) (keep_if (λ e. is_missing prefix current e.0) active),
  )
