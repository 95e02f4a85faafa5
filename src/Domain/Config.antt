-- ===== src/Domain/Config.antt =====
-- internal/domain/config.go: the operator's thresholds and fees. A nil *ScreenerConfig is `none`;
-- a nil fee map is the empty one, which reads alike. decimal.NewFromString is the argument
-- `parse`, and Decimal.String the argument `print`.
pub mod Fees
pub mod Listing
pub mod Reading
pub mod Thresholds
use crypto_screener.Base.{
  ℕ, Bool, true, false, not, ◌||◌, List, [], ◌∷◌, ◌++◌, Option, none, some, if◌then◌else◌, eqb,
}
use crypto_screener.Base.Eq.{text_eq}
use crypto_screener.Base.Map.{Map, lookup, insert}
use crypto_screener.Base.Text.{Text, text, trim_space, to_upper, is_empty}
use crypto_screener.Decimal.{Decimal, decimal_zero, less_than, greater_than, is_negative, div}

pub record ScreenerConfig (D : Type 0) : Type 0 where
  pub hard_min_spread : D
  pub fees : Map Text D

abbrev pub fee_key_default : Text
fee_key_default = text "DEFAULT"

pub data ParseResult {ℓ} (A : Type ℓ) : Type ℓ where
  ok : A → ParseResult A
  -- errBadFeePart, with the part that it names.
  bad_fee_part : Text → ParseResult A

infixl 5 ◌>>=◌
abbrev pub ◌>>=◌ {ℓ κ} :
    {A : Type ℓ} {B : Type κ} → ParseResult A → (A → ParseResult B) → ParseResult B
ok a >>= f = f a
bad_fee_part p >>= f = bad_fee_part p

abbrev pub normalize_name : Text → Text
normalize_name s = to_upper (trim_space s)

-- strings.Split at one byte, and the two halves of strings.SplitN(s, c, 2).
abbrev pub push_head : ℕ → List Text → List Text
push_head c [] = (c ∷ []) ∷ []
push_head c (s ∷ ss) = (c ∷ s) ∷ ss

unfoldable pub split : ℕ → Text → List Text
split sep [] = [] ∷ []
split sep (c ∷ s) = let rest = split sep s in if eqb c sep then [] ∷ rest else push_head c rest

abbrev pub cons_first : ℕ → Option (Text × Text) → Option (Text × Text)
cons_first c none = none
cons_first c (some (a, b)) = some (c ∷ a, b)

unfoldable pub split_once : ℕ → Text → Option (Text × Text)
split_once sep [] = none
split_once sep (c ∷ s) = if eqb c sep then some ([], s) else cons_first c (split_once sep s)

module _ {D : Type 0} ⦃dec : Decimal D⦄ where
  abbrev pub default_hard_min_spread : D
  default_hard_min_spread = dec.literal 1 2

  abbrev pub default_taker_fee : D
  default_taker_fee = dec.literal 5 4

  abbrev pub max_fee : D
  max_fee = dec.literal 1 2

  unfoldable pub new_screener_config : D → ScreenerConfig D
  new_screener_config hard_spread = record {
    hard_min_spread =
        if less_than hard_spread default_hard_min_spread
        then default_hard_min_spread
        else hard_spread;
    fees = (fee_key_default, default_taker_fee) ∷ [];
  }

  unfoldable pub get_hard_min_spread : Option (ScreenerConfig D) → D
  get_hard_min_spread none = default_hard_min_spread
  get_hard_min_spread (some c) = c.hard_min_spread

  unfoldable pub get_close_threshold : Option (ScreenerConfig D) → D
  get_close_threshold c = div (get_hard_min_spread c) (dec.literal 2 0)

  unfoldable pub set_hard_min_spread : ScreenerConfig D → D → ScreenerConfig D × D
  set_hard_min_spread c v =
      let v' = if less_than v default_hard_min_spread then default_hard_min_spread else v in
      (record c { hard_min_spread = v' }, v')

  unfoldable pub clamp : Option (ScreenerConfig D) → D → D
  clamp c v = let h = get_hard_min_spread c in if less_than v h then h else v

  abbrev pub is_pair_enabled : ScreenerConfig D → Text → Bool
  is_pair_enabled c symbol = true

  unfoldable pub set_user_cross_spread : Option (ScreenerConfig D) → D → D
  set_user_cross_spread = clamp

  unfoldable pub set_fee : ScreenerConfig D → Text → D → ScreenerConfig D
  set_fee c name v =
      let exchange = normalize_name name in
      let low = if less_than v decimal_zero then decimal_zero else v in
      let high = if greater_than low max_fee then max_fee else low in
      if is_empty exchange then c else record c { fees = insert exchange high c.fees }

  abbrev or_else : Option D → D → D
  or_else none fallback = fallback
  or_else (some v) fallback = v

  unfoldable pub fee_for : Option (ScreenerConfig D) → Text → D
  fee_for none name = default_taker_fee
  fee_for (some c) name =
      or_else (lookup (normalize_name name) c.fees)
        (or_else (lookup fee_key_default c.fees) default_taker_fee)

  module _ (parse : Text → Option D) where
    unfoldable pub parse_rate : Text → Text → Text → Map Text D → ParseResult (Map Text D)
    parse_rate part key value out = elim (parse (trim_space value)) [
      | none ↦ bad_fee_part part
      | some v ↦
          if is_negative v || greater_than v max_fee
          then bad_fee_part part
          else ok (insert key v out)
    ]

    unfoldable pub parse_part : Text → Map Text D → ParseResult (Map Text D)
    unfolding parse_rate
    parse_part part out = elim (split_once b':' part) [
      | none ↦ bad_fee_part part
      | some (k, value) ↦
          let key = normalize_name k in
          if is_empty key then bad_fee_part part else parse_rate part key value out
    ]

    unfoldable pub parse_parts : List Text → Map Text D → ParseResult (Map Text D)
    parse_parts [] out = ok out
    parse_parts (raw ∷ rest) out =
        let part = trim_space raw in
        if is_empty part
        then parse_parts rest out
        else do out' ← parse_part part out; parse_parts rest out'

    unfoldable pub parse_fees : Text → ParseResult (Map Text D)
    parse_fees raw = parse_parts (split b',' raw) []

    abbrev pub replace_fees : ScreenerConfig D → Map Text D → ScreenerConfig D
    replace_fees c [] = c
    replace_fees c (p ∷ parsed) = record c { fees = p ∷ parsed }

    unfoldable pub apply_fees : ScreenerConfig D → Text → ParseResult (ScreenerConfig D)
    apply_fees c raw = do parsed ← parse_fees raw; ok (replace_fees c parsed)
