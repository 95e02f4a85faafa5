-- ===== src/Aggregator/Lifecycle.antt =====
-- The observation of routes follows the contract of Protocol: the events lead from the routes that
-- were active to those that are.
use crypto_screener.Base.{
  Bool, false, List, [], ◌∷◌, ◌≡◌, refl, none, some, inl, inr, Bool-cases, Option-cases, All,
}
use crypto_screener.Base.Eq.{text_eq}
use crypto_screener.Base.Map.{
  Map, lookup, insert, Distinct, All-insert, All-delete, insert-Distinct, delete-Distinct,
}
use crypto_screener.Base.Text.{Text, is_empty}
use crypto_screener.Decimal.{Decimal, less_than, greater_than, less_than_or_equal}
use crypto_screener.Domain.Market.{SpreadEvent}
use crypto_screener.Domain.Config.{get_close_threshold, get_hard_min_spread}
use crypto_screener.Aggregator.{RouteState, Deps, route_key}
use crypto_screener.Aggregator.Observe.{
  Observed, observe, observe_new, observe_active, observe_one, observe_all,
}
use crypto_screener.Protocol.{
  Open, table, Runs, Runs-append, with_key-insert, with_key-same, insert-same, with_key-delete,
}

abbrev pub Routes : Type 0 → Type 0
Routes D = Map Text (RouteState D)

abbrev pub open_routes : {D : Type 0} → Routes D → Open
open_routes = table (λ r. r.opened_at)

abbrev pub IsNamed : {D : Type 0} → SpreadEvent D → Type 0
IsNamed ev = is_empty ev.symbol ≡ false

-- Every entry stands under the key of its last event, which names a symbol.
abbrev pub IsKeyed : {D : Type 0} → Text × RouteState D → Type 0
IsKeyed e = (route_key e.1.last ≡ e.0) × IsNamed e.1.last

pub record IsTable {D : Type 0} (m : Routes D) : Type 0 where
  pub distinct : Distinct m
  pub keyed : All IsKeyed m

module _ {D : Type 0} ⦃dec : Decimal D⦄ where
  insert-IsTable :
      (m : Routes D) (key : Text) (st : RouteState D)
      → IsTable m
      → route_key st.last ≡ key
      → IsNamed st.last
      → IsTable (insert key st m)
  insert-IsTable m key st h e n = record {
    distinct = insert-Distinct key st m h.distinct;
    keyed = All-insert IsKeyed key st m h.keyed (e, n);
  }

  -- What one observation does.
  abbrev Sound : Routes D → Routes D × List (SpreadEvent D) → Type 0
  Sound active r = IsTable r.0 × Runs (open_routes active) r.1 (open_routes r.0)

  observe_new-Sound :
      (deps : Deps D) (active : Routes D) (ev : SpreadEvent D)
      → IsTable active
      → IsNamed ev
      → lookup (route_key ev) active ≡ none
      → Sound active (observe_new deps active ev)
  unfolding observe_new route_key
  observe_new-Sound deps active ev t n h =
      elim (Bool-cases (less_than ev.spread (get_hard_min_spread (some deps.config)))) [
        | inl low ↦ rw low (t, refl)
        | inr high ↦ rw high (
          insert-IsTable active (route_key ev) _ t refl n,
          (rw h, with_key-insert _ (route_key ev) _ active),
        )
      ]

  observe_active-Sound :
      (deps : Deps D) (active : Routes D) (ev : SpreadEvent D) (state : RouteState D)
      → IsTable active
      → IsNamed ev
      → lookup (route_key ev) active ≡ some state
      → Sound active (observe_active deps active ev state)
  unfolding observe_active route_key
  observe_active-Sound deps active ev state t n h =
      elim (Bool-cases (less_than_or_equal ev.spread (get_close_threshold (some deps.config)))) [
        | inl low ↦ rw low (
          record {
            distinct = delete-Distinct (route_key ev) active t.distinct;
            keyed = All-delete IsKeyed (route_key ev) active t.keyed;
          },
          (rw h, with_key-delete _ (route_key ev) active),
        )
        | inr high ↦ elim (Bool-cases (greater_than ev.spread state.peak)) [
          | inl peak ↦
              rw (high, peak)
                (
                  insert-IsTable active (route_key ev) _ t refl n,
                  (rw h, with_key-same _ (route_key ev) state active h _ refl),
                )
          | inr flat ↦
              rw (high, flat)
                (
                  insert-IsTable active (route_key ev) _ t refl n,
                  insert-same _ (route_key ev) state active h _ refl,
                )
        ]
      ]

  observe-Sound :
      (deps : Deps D) (active : Routes D) (ev : SpreadEvent D)
      → IsTable active
      → IsNamed ev
      → Sound active (observe deps active ev)
  unfolding observe
  observe-Sound deps active ev t n = elim (Option-cases (lookup (route_key ev) active)) [
    | inl e ↦ rw (e, observe) (observe_new-Sound deps active ev t n e)
    | inr (state, e) ↦ rw (e, observe) (observe_active-Sound deps active ev state t n e)
  ]

  -- What holds of the observations so far.
  abbrev pub SoundSince : Routes D → Observed D → Type 0
  SoundSince start o = IsTable o.active × Runs (open_routes start) o.events (open_routes o.active)

  observe_one_sound :
      (deps : Deps D) (eligible : SpreadEvent D → Bool) (ev : SpreadEvent D) (start : Routes D)
      (o : Observed D)
      → IsNamed ev
      → SoundSince start o
      → SoundSince start (observe_one deps eligible ev o)
  unfolding observe_one
  observe_one_sound deps eligible ev start o n (t, h) = elim (Bool-cases (eligible ev)) [
    | inr idle ↦ rw idle (t, h)
    | inl wanted ↦
        let (t', h') = observe-Sound deps o.active ev t n in
        rw wanted (t', Runs-append (open_routes start) (open_routes o.active) _ o.events _ h h')
  ]

  pub observe_all_sound :
      (deps : Deps D) (eligible : SpreadEvent D → Bool) (evs : List (SpreadEvent D))
      (start : Routes D) (o : Observed D)
      → All IsNamed evs
      → SoundSince start o
      → SoundSince start (observe_all deps eligible evs o)
  unfolding observe_all
  observe_all_sound deps eligible [] start o n h = h
  observe_all_sound deps eligible (ev ∷ evs) start o (n, ns) h =
      observe_all_sound deps eligible evs start _ ns
        (observe_one_sound deps eligible ev start o n h)
