-- ===== src/Aggregator/Closing.antt =====
-- Closing a part of the active routes, as ProcessTick, FlushActive and Janitor do, follows the
-- contract of Protocol.
use crypto_screener.Base.{
  Bool, true, false, not, [], ◌∷◌, ◌≡◌, refl, arith, if◌then◌else◌, none, All-keep_if, map, keep_if,
}
use crypto_screener.Base.Eq.{text_eq, list_beq_iff}
use crypto_screener.Base.Map.{lookup, has_key, is_some, lookup-keep_if, keep_if-Distinct}
use crypto_screener.Base.Text.{Text}
use crypto_screener.Base.Time.{Time}
use crypto_screener.Decimal.{Decimal}
use crypto_screener.Aggregator.{RouteState, route_key}
use crypto_screener.Aggregator.Observe.{closing}
use crypto_screener.Aggregator.Lifecycle.{Routes, IsTable, IsKeyed, open_routes}
use crypto_screener.Protocol.{Open, Runs, Runs-to, with_key}

abbrev without : {D : Type 0} → Open → Routes D → Open
without a m k = if has_key k m then none else a k

abbrev Covers : {D : Type 0} → Open → Routes D → Type 0
Covers a m = (k : Text) → has_key k m ≡ true → is_some (a k) ≡ true

module _ {D : Type 0} ⦃dec : Decimal D⦄ where
  Covers-rest :
      (a : Open) (key : Text) (st : RouteState D) (m : Routes D)
      → has_key key m ≡ false
      → Covers a ((key, st) ∷ m)
      → Covers (with_key a key none) m
  unfolding lookup
  Covers-rest a key st m d c k h = ground (arith, list_beq_iff key k, c k)

  without_step :
      (a : Open) (key : Text) (st : RouteState D) (m : Routes D) (k : Text)
      → without (with_key a key none) m k ≡ without a ((key, st) ∷ m) k
  unfolding lookup
  without_step a key st m k = ground arith

  pub route_key-closing :
      (now : Time) (st : RouteState D) → route_key (closing now st) ≡ route_key st.last
  unfolding route_key
  route_key-closing now st = refl

  closing-Runs :
      (now : Time) (m : Routes D) (a : Open)
      → IsTable m
      → Covers a m
      → Runs a (map (λ e. closing now e.1) m) (without a m)
  unfolding lookup
  closing-Runs now [] a t c = refl
  closing-Runs now ((key, st) ∷ m) a t c =
      rw (route_key-closing now st, t.keyed.0.0)
        (
          c key (ground (arith, list_beq_iff key key)),
          Runs-to _ _ _ _
              (closing-Runs now m (with_key a key none)
                (record { distinct = t.distinct.1; keyed = t.keyed.1 })
                (Covers-rest a key st m t.distinct.0 c))
              (without_step a key st m),
        )

  -- The routes that a test picks are closed, and the others keep their place.
  pub closing_sound :
      (pick : Text × RouteState D → Bool) (now : Time) (m : Routes D)
      → IsTable m
      → IsTable (keep_if (λ e. not (pick e)) m)
        × Runs
            (open_routes m)
            (map (λ e. closing now e.1) (keep_if pick m))
            (open_routes (keep_if (λ e. not (pick e)) m))
  closing_sound pick now m t = (
    record {
      distinct = keep_if-Distinct (λ e. not (pick e)) m t.distinct;
      keyed = All-keep_if IsKeyed (λ e. not (pick e)) m t.keyed;
    },
    Runs-to _ _ _ _
        (closing-Runs now (keep_if pick m) (open_routes m)
          (record {
            distinct = keep_if-Distinct pick m t.distinct;
            keyed = All-keep_if IsKeyed pick m t.keyed;
          })
          (λ k h. ground (arith, lookup-keep_if pick k m t.distinct)))
        (λ k. ground (
          arith,
          lookup-keep_if pick k m t.distinct,
          lookup-keep_if (λ e. not (pick e)) k m t.distinct,
        )),
  )
