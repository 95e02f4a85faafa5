-- ===== src/Funding/Evaluate/FailClosed.antt =====
-- The evaluation of funding_manager.go fails closed: what it calls profitable rests on live records.
use crypto_screener.Base.{
  true, false, ◌||◌, ◌≡◌, refl, arith, some, inl, inr, Bool-cases, Option-cases, ap,
}
use crypto_screener.Base.Text.{Text, is_empty}
use crypto_screener.Base.Time.{Time, is_zero_time}
use crypto_screener.Decimal.{Decimal, decimal_zero, less_than, is_negative, Le}
use crypto_screener.Funding.{
  FundingConfig, FundingRecord, ArbResult, FundingManager, get_funding, is_healthy, is_stale,
  staleness_for,
}
use crypto_screener.Funding.Evaluate.{
  calc_net_spread, check_record, valid_record, evaluate_with_spot, evaluate_spot_futures,
  evaluate_legs, evaluate_futures_pair, or_unavailable, spot_result, pair_result,
}

-- A record that the manager has under the key, from a healthy stream, with a next funding time, and
-- within the exchange's staleness budget.
pub record IsLive {D : Type 0} ⦃dec : Decimal D⦄ (fm : FundingManager D) (p : FundingConfig D)
    (exchange symbol : Text) (now : Time) (r : FundingRecord D) : Type 0 where
  pub found : get_funding fm exchange symbol ≡ some r
  pub healthy : is_healthy fm exchange ≡ true
  pub scheduled : is_zero_time r.next_funding_time ≡ false
  pub current : is_stale r now (staleness_for p exchange) ≡ false

module _ {D : Type 0} ⦃dec : Decimal D⦄ where
  -- A leg that passes carries the rate and the next funding time of a live record.
  abbrev pub LegOf : FundingManager D → FundingConfig D → Text → Text → Time → D → Time → Type 0
  LegOf fm p exchange symbol now rate next =
      (r : FundingRecord D) × IsLive fm p exchange symbol now r
      × (r.rate ≡ rate)
      × (r.next_funding_time ≡ next)

  check_record_live :
      (fm : FundingManager D) (exchange symbol : Text) (now : Time) (p : FundingConfig D)
      (r : FundingRecord D)
      → get_funding fm exchange symbol ≡ some r
      → (check_record fm exchange now p r).1 ≡ true
      → let leg = (check_record fm exchange now p r).0 in
        LegOf fm p exchange symbol now leg.funding_rate leg.next_funding_time
  unfolding check_record
  check_record_live fm exchange symbol now p r e h = (
    r,
    record { found = e; healthy = ground arith; scheduled = ground arith; current = ground arith },
    ground arith,
    ground arith,
  )

  valid_record_live :
      (fm : FundingManager D) (exchange symbol : Text) (now : Time) (p : FundingConfig D)
      → (valid_record fm exchange symbol now p).1 ≡ true
      → let leg = (valid_record fm exchange symbol now p).0 in
        LegOf fm p exchange symbol now leg.funding_rate leg.next_funding_time
  unfolding valid_record
  valid_record_live fm exchange symbol now p h =
      elim (Option-cases (get_funding fm exchange symbol)) [
        | inl e ↦ cc (rw (e, valid_record) at h)
        | inr (r, e) ↦
            rw (e, valid_record)
              (check_record_live fm exchange symbol now p r e (rw (e, valid_record) at h))
      ]

  -- A leg that does not pass is not profitable.
  rejected_leg :
      (fm : FundingManager D) (exchange symbol : Text) (now : Time) (p : FundingConfig D)
      → (valid_record fm exchange symbol now p).1 ≡ false
      → (valid_record fm exchange symbol now p).0.is_profitable ≡ false
  unfolding valid_record check_record
  rejected_leg fm exchange symbol now p h = ground arith

  -- What a profitable verdict says of the spread.
  pub record IsSpot (fm : FundingManager D) (p : FundingConfig D) (exchange symbol : Text)
      (spread : D) (now : Time) (r : ArbResult D) : Type 0 where
    pub leg : LegOf fm p exchange symbol now r.sell_funding_rate r.sell_next_funding_time
    pub net : r.net_spread ≡ calc_net_spread spread decimal_zero r.sell_funding_rate
    pub enough : Le p.min_spread r.net_spread

  pub record IsPair (fm : FundingManager D) (p : FundingConfig D)
      (buy_ex buy_symbol sell_ex sell_symbol : Text) (spread : D) (now : Time) (r : ArbResult D)
      : Type 0 where
    pub buy : LegOf fm p buy_ex buy_symbol now r.buy_funding_rate r.buy_next_funding_time
    pub sell : LegOf fm p sell_ex sell_symbol now r.sell_funding_rate r.sell_next_funding_time
    pub net : r.net_spread ≡ calc_net_spread spread r.buy_funding_rate r.sell_funding_rate
    pub enough : Le p.min_spread r.net_spread

  evaluate_with_spot_sound :
      (fm : FundingManager D) (p : FundingConfig D) (exchange symbol : Text) (spread : D)
      (now : Time)
      → (evaluate_with_spot fm p exchange symbol spread now).is_profitable ≡ true
      → IsSpot fm p exchange symbol spread now (evaluate_with_spot fm p exchange symbol spread now)
  unfolding evaluate_with_spot
  evaluate_with_spot_sound fm p exchange symbol spread now h =
      elim (Bool-cases (valid_record fm exchange symbol now p).1) [
        | inr failed ↦ cc (h, rejected_leg fm exchange symbol now p failed)
        | inl found ↦
            let (r, live, rate, next) = valid_record_live fm exchange symbol now p found in
            elim (Bool-cases (
              less_than (spot_result spread (valid_record fm exchange symbol now p).0).net_spread
                p.min_spread)) [
                  | inl low ↦ cc (rw (found, low, evaluate_with_spot) at h)
                  | inr high ↦
                      rw (found, high, evaluate_with_spot)
                        (record { leg = (r, live, rate, next); net = refl; enough = high })
                ]
      ]

  legs_sound :
      (fm : FundingManager D) (p : FundingConfig D) (buy_ex buy_symbol sell_ex sell_symbol : Text)
      (spread : D) (now : Time)
      → let r = evaluate_legs fm p buy_ex buy_symbol sell_ex sell_symbol spread now in
        r.is_profitable ≡ true → IsPair fm p buy_ex buy_symbol sell_ex sell_symbol spread now r
  unfolding evaluate_legs
  legs_sound fm p buy_ex buy_symbol sell_ex sell_symbol spread now h =
      elim (Bool-cases (valid_record fm buy_ex buy_symbol now p).1) [
        | inr failed ↦ cc (h, rejected_leg fm buy_ex buy_symbol now p failed)
        | inl bought ↦ elim (Bool-cases (valid_record fm sell_ex sell_symbol now p).1) [
          | inr failed ↦ cc (
            rw (bought, failed, evaluate_legs) at h,
            rejected_leg fm sell_ex sell_symbol now p failed,
          )
          | inl sold ↦
              elim (Bool-cases (
                less_than
                  (pair_result spread (valid_record fm buy_ex buy_symbol now p).0
                    (valid_record fm sell_ex sell_symbol now p).0).net_spread
                  p.min_spread)) [
                    | inl low ↦ cc (rw (bought, sold, low, evaluate_legs) at h)
                    | inr high ↦
                        rw (bought, sold, high, evaluate_legs)
                          (record {
                            buy = valid_record_live fm buy_ex buy_symbol now p bought;
                            sell = valid_record_live fm sell_ex sell_symbol now p sold;
                            net = refl;
                            enough = high;
                          })
                  ]
        ]
      ]

  -- A profitable verdict comes from valid input and a manager that has a configuration.
  spot_configured :
      (fm : FundingManager D) (exchange symbol : Text) (spread : D) (now : Time)
      → let r = evaluate_spot_futures fm exchange symbol spread now in
        r.is_profitable ≡ true
        → (p : FundingConfig D) × (fm.config ≡ some p)
          × (r ≡ evaluate_with_spot fm p exchange symbol spread now)
  unfolding evaluate_spot_futures
  spot_configured fm exchange symbol spread now h =
      elim (Bool-cases
        (is_zero_time now || (is_empty exchange || (is_empty symbol || is_negative spread)))) [
          | inl bad ↦ cc (rw (bad, evaluate_spot_futures) at h)
          | inr good ↦ elim (Option-cases fm.config) [
            | inl e ↦ let h' = rw (good, evaluate_spot_futures) at h in cc h'
            | inr (p, e) ↦ (p, e, rw good (ap (or_unavailable _) e))
          ]
        ]

  pair_configured :
      (fm : FundingManager D) (buy_ex buy_symbol sell_ex sell_symbol : Text) (spread : D)
      (now : Time)
      → let r = evaluate_futures_pair fm buy_ex buy_symbol sell_ex sell_symbol spread now in
        r.is_profitable ≡ true
        → (p : FundingConfig D) × (fm.config ≡ some p)
          × (r ≡ evaluate_legs fm p buy_ex buy_symbol sell_ex sell_symbol spread now)
  unfolding evaluate_futures_pair
  pair_configured fm buy_ex buy_symbol sell_ex sell_symbol spread now h =
      elim (Bool-cases (
        is_zero_time now
        || (is_empty buy_ex
            || (is_empty buy_symbol
                || (is_empty sell_ex || (is_empty sell_symbol || is_negative spread)))))) [
                  | inl bad ↦ cc (rw (bad, evaluate_futures_pair) at h)
                  | inr good ↦ elim (Option-cases fm.config) [
                    | inl e ↦ let h' = rw (good, evaluate_futures_pair) at h in cc h'
                    | inr (p, e) ↦ (p, e, rw good (ap (or_unavailable _) e))
                  ]
                ]

  -- A spot and future route is judged profitable only under a configuration, on a record of the
  -- future whose stream is healthy, that has a next funding time and is not stale for its exchange;
  -- the net spread is the spread plus the rate of the future, and it reaches the configured
  -- minimum.
  pub evaluate_spot_futures_sound :
      (fm : FundingManager D) (exchange symbol : Text) (spread : D) (now : Time)
      → let r = evaluate_spot_futures fm exchange symbol spread now in
        r.is_profitable ≡ true
        → (p : FundingConfig D) × (fm.config ≡ some p) × IsSpot fm p exchange symbol spread now r
  evaluate_spot_futures_sound fm exchange symbol spread now h =
      let (p, e, q) = spot_configured fm exchange symbol spread now h in
      (p, e, rw q (evaluate_with_spot_sound fm p exchange symbol spread now (rw q at h)))

  -- A futures pair is judged profitable only under a configuration, on records of both legs whose
  -- streams are healthy, that have a next funding time and are not stale for their exchange; the
  -- verdict carries their rates and times, its net spread is the spread plus the rate of the
  -- selling leg less the rate of the buying leg, and it reaches the configured minimum.
  pub evaluate_futures_pair_sound :
      (fm : FundingManager D) (buy_ex buy_symbol sell_ex sell_symbol : Text) (spread : D)
      (now : Time)
      → let r = evaluate_futures_pair fm buy_ex buy_symbol sell_ex sell_symbol spread now in
        r.is_profitable ≡ true
        → (p : FundingConfig D) × (fm.config ≡ some p)
          × IsPair fm p buy_ex buy_symbol sell_ex sell_symbol spread now r
  evaluate_futures_pair_sound fm buy_ex buy_symbol sell_ex sell_symbol spread now h =
      let (p, e, q) = pair_configured fm buy_ex buy_symbol sell_ex sell_symbol spread now h in
      (p, e, rw q (legs_sound fm p buy_ex buy_symbol sell_ex sell_symbol spread now (rw q at h)))
