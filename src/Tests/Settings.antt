-- ===== src/Tests/Settings.antt =====
-- Runs of the theorems on the operator's settings and on the signals of internal/domain.
use crypto_screener.Base.{◌*◌, ◌-◌, ◌≡◌, [], ◌∷◌, Option, none, some}
use crypto_screener.Base.Text.{Text, text}
use crypto_screener.Base.Int.{ℤ, pos}
use crypto_screener.Decimal.Fixed.{fixed_decimal}
use crypto_screener.Domain.Config.{ScreenerConfig, new_screener_config, parse_fees}
use crypto_screener.Settings.{validate_fees}
use crypto_screener.Settings.Fees.{is_ok, is_none, validate_fees-parse_fees}

abbrev settings : ScreenerConfig ℤ
settings = new_screener_config (pos 20000)

-- A parser that reads one digit, as that many thousandths.
abbrev one_digit : Text → Option ℤ
one_digit [] = none
one_digit (c ∷ s) = some (pos ((c - b'0') * 1000))

validate_fees-parse_fees_example :
    is_ok (parse_fees one_digit (text "okx:1, mexc"))
    ≡ is_none (validate_fees one_digit (text "okx:1, mexc"))
validate_fees-parse_fees_example = validate_fees-parse_fees one_digit (text "okx:1, mexc")
