-- ===== src/Domain/Config/Thresholds.antt =====
-- The bounds that every configuration of internal/domain/config.go keeps.
use crypto_screener.Base.{
  true, [], ◌∷◌, ◌≡◌, inl, inr, some, arith, Option-cases, All, Bool-cases, Option, if◌then◌else◌,
}
use crypto_screener.Base.Eq.{text_eq}
use crypto_screener.Base.Map.{Map, lookup, All-insert, All-lookup}
use crypto_screener.Base.Text.{Text, is_empty}
use crypto_screener.Decimal.{Decimal, decimal_zero, less_than, Le, below_asym}
use crypto_screener.Domain.Config.{
  ScreenerConfig, default_hard_min_spread, max_fee, default_taker_fee, fee_key_default,
  new_screener_config, set_hard_min_spread, set_fee, fee_for, get_hard_min_spread,
  get_close_threshold, replace_fees, normalize_name, apply_fees, parse_fees,
}
use crypto_screener.Domain.Config.Fees.{
  IsFee, IsEntry, decimal_zero-IsFee, Yields, >>=-Yields, parse_fees-Yields,
}

module _ {D : Type 0} ⦃dec : Decimal D⦄ where
  -- The floor is at least 0.01 and every fee lies between 0 and 0.01.
  pub record IsValid (c : ScreenerConfig D) : Type 0 where
    pub floored : Le default_hard_min_spread c.hard_min_spread
    pub priced : All (λ (p : Text × D). IsFee p.1) c.fees

  pub new_screener_config-IsValid : (v : D) → IsValid (new_screener_config v)
  unfolding new_screener_config
  new_screener_config-IsValid v = record {
    floored = ground (arith, dec.below_irrefl (dec.literal 1 2));
    priced = (
      (
        below_asym {D = D} decimal_zero default_taker_fee (dec.literal_pos 4 4),
        dec.default_fee_le_max,
      ),
      tt,
    );
  }

  pub set_hard_min_spread-IsValid :
      (c : ScreenerConfig D) (v : D) → IsValid c → IsValid (set_hard_min_spread c v).0
  unfolding set_hard_min_spread
  set_hard_min_spread-IsValid c v h = record {
    floored = ground (arith, dec.below_irrefl (dec.literal 1 2));
    priced = h.priced;
  }

  clamped-IsFee :
      (v : D)
      → IsFee (
          let low = if less_than v decimal_zero then decimal_zero else v in
          if less_than max_fee low then max_fee else low)
  clamped-IsFee v = ground (
    arith,
    decimal_zero-IsFee D ⦃dec = dec⦄,
    dec.below_irrefl (dec.literal 1 2),
    dec.below_irrefl dec.zero_value,
  )

  -- Setting any fee for any name keeps a valid configuration valid.
  pub set_fee-IsValid :
      (c : ScreenerConfig D) (name : Text) (v : D) → IsValid c → IsValid (set_fee c name v)
  unfolding set_fee
  set_fee-IsValid c name v h = elim (Bool-cases (is_empty (normalize_name name))) [
    | inl blank ↦ rw (blank, set_fee) h
    | inr named ↦
        rw (named, set_fee)
          (record {
            floored = h.floored;
            priced = All-insert (λ p. IsFee p.1) _ _ c.fees h.priced (clamped-IsFee v);
          })
  ]

  fees_of_entries : (m : Map Text D) → All IsEntry m → All (λ (p : Text × D). IsFee p.1) m
  fees_of_entries [] h = tt
  fees_of_entries (p ∷ m) (h, hs) = (h.1, fees_of_entries m hs)

  replace_fees-IsValid :
      (parse : Text → Option D) (c : ScreenerConfig D) (m : Map Text D)
      → IsValid c
      → All IsEntry m
      → IsValid (replace_fees parse c m)
  replace_fees-IsValid parse c [] h k = h
  replace_fees-IsValid parse c (p ∷ m) h k = record {
    floored = h.floored;
    priced = fees_of_entries (p ∷ m) k;
  }

  -- Applying a list of fees to a valid configuration fails or leaves it valid, whatever the list
  -- and whatever numbers the decimal parser reads in it.
  pub apply_fees-IsValid :
      (parse : Text → Option D) (c : ScreenerConfig D) (raw : Text)
      → IsValid c
      → Yields IsValid (apply_fees parse c raw)
  unfolding apply_fees
  apply_fees-IsValid parse c raw h =
      >>=-Yields (All IsEntry) IsValid (parse_fees parse raw) _ (parse_fees-Yields parse raw)
        (λ m k. replace_fees-IsValid parse c m h k)

  -- Under a valid configuration the fee of every exchange, whether it is named or falls back to the
  -- default, lies between 0 and 0.01.
  pub fee_for-IsFee :
      (c : ScreenerConfig D) (name : Text) → IsValid c → IsFee (fee_for (some c) name)
  unfolding fee_for
  fee_for-IsFee c name h = elim (Option-cases (lookup (normalize_name name) c.fees)) [
    | inr (v, e) ↦
        rw (e, fee_for) (All-lookup (λ p. IsFee p.1) (normalize_name name) c.fees h.priced e)
    | inl e ↦ elim (Option-cases (lookup fee_key_default c.fees)) [
      | inr (v, q) ↦
          rw (e, q, fee_for) (All-lookup (λ p. IsFee p.1) fee_key_default c.fees h.priced q)
      | inl q ↦
          rw (e, q, fee_for)
            (
              below_asym {D = D} decimal_zero default_taker_fee (dec.literal_pos 4 4),
              dec.default_fee_le_max,
            )
    ]
  ]

  -- Under a valid configuration the threshold at which a route closes lies strictly between zero
  -- and the threshold at which it opens.
  pub close_threshold-between :
      (c : ScreenerConfig D)
      → IsValid c
      → (less_than decimal_zero (get_close_threshold (some c)) ≡ true)
        × (less_than (get_close_threshold (some c)) (get_hard_min_spread (some c)) ≡ true)
  unfolding get_close_threshold get_hard_min_spread
  close_threshold-between c h =
      (dec.half_pos c.hard_min_spread h.floored, dec.half_below c.hard_min_spread h.floored)
