-- ===== src/Settings.antt =====
-- internal/config/config.go: the values of the environment, once they are read. decimal.NewFromString is
-- the argument `parse`.
pub mod Fees
use crypto_screener.Base.{
  ℕ, Bool, true, false, not, ◌||◌, ◌&&◌, List, [], ◌∷◌, Option, none, some, if◌then◌else◌,
}
use crypto_screener.Base.Eq.{text_eq, ◌==◌}
use crypto_screener.Base.Text.{Text, text, trim_space, is_empty}
use crypto_screener.Decimal.{Decimal, is_negative, greater_than, less_than}
use crypto_screener.Domain.Config.{max_fee, split, split_once}

abbrev pub tokens_of : List Text → List Text
tokens_of [] = []
tokens_of (raw ∷ rest) =
    let token = trim_space raw in
    let out = tokens_of rest in if is_empty token then out else token ∷ out

unfoldable pub parse_tokens : Text → Text → List Text
parse_tokens raw_list single =
    if not (is_empty (trim_space raw_list))
    then tokens_of (split b',' (trim_space raw_list))
    else if not (is_empty (trim_space single))
    then trim_space single ∷ []
    else []

-- The errors of validateFees and parseDecimalEnvWithDefault, by their messages.
pub data FeeError : Type 0 where
  expected_pairs name_is_empty bad_rate : Text → FeeError

pub data EnvError : Type 0 where
  invalid_value is_negative_value below_minimum : Text → EnvError

pub data EnvResult (A : Type 0) : Type 0 where
  value : A → EnvResult A
  failed : EnvError → EnvResult A

module _ {D : Type 0} ⦃dec : Decimal D⦄ (parse : Text → Option D) where
  unfoldable pub validate_part : Text → Option FeeError
  validate_part part = elim (split_once b':' part) [
    | none ↦ some (expected_pairs part)
    | some (k, rate) ↦
        if is_empty (trim_space k)
        then some (name_is_empty part)
        else elim (parse (trim_space rate)) [
          | none ↦ some (bad_rate part)
          | some v ↦ if is_negative v || greater_than v max_fee then some (bad_rate part) else none
        ]
  ]

  abbrev pub validate_parts : List Text → Option FeeError
  validate_parts [] = none
  validate_parts (raw ∷ rest) =
      let part = trim_space raw in
      let later = validate_parts rest in
      if is_empty part then later else elim (validate_part part) [ none ↦ later | some e ↦ some e ]

  unfoldable pub validate_fees : Text → Option FeeError
  validate_fees raw = validate_parts (split b',' raw)

  -- `raw` is what os.Getenv returns for the key.
  unfoldable pub parse_decimal_env : Text → Text → Text → EnvResult D
  parse_decimal_env key raw fallback =
      elim (parse (if is_empty (trim_space raw) then fallback else trim_space raw)) [
        | none ↦ failed (invalid_value key)
        | some v ↦
            if is_negative v
            then failed (is_negative_value key)
            else if (key == text "HARD_MIN_SPREAD") && less_than v (dec.literal 1 2)
            then failed (below_minimum key)
            else value v
      ]
