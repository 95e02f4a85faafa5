-- ===== src/Tests/Starts.antt =====
-- Runs of the theorems on the start of internal/app/app.go and on its stored settings.
use crypto_screener.Base.{
  ℕ, List, ◌%◌, ◌≢◌, get_elem?, replicate, arith, ◌+◌, ◌/◌, Bool, true, false, [], ◌∷◌, Option,
  none, some, ◌≡◌, refl, inr, eqb, if◌then◌else◌,
}
use crypto_screener.Base.Eq.{text_eq}
use crypto_screener.Base.Int.{ℤ, pos, negsuc, pos_part}
use crypto_screener.Base.Map.{Map, lookup}
use crypto_screener.Base.Text.{Text, text, to_upper}
use crypto_screener.Decimal.{Le_refl}
use crypto_screener.Decimal.Fixed.{fixed_decimal}
use crypto_screener.Domain.Config.{
  ScreenerConfig, new_screener_config, parse_fees, ok, get_hard_min_spread,
}
use crypto_screener.Domain.Config.Listing.{fees_string}
use crypto_screener.Domain.Config.Reading.Back.{
  IsName, IsReadable, read_option, fees_string-parse_fees,
}
use crypto_screener.Domain.Config.Thresholds.{new_screener_config-IsValid}
use crypto_screener.Commands.{Application, set_connector_factory, settings_key_hard_spread}
use crypto_screener.Commands.Admin.{funding_floor}
use crypto_screener.Commands.Access.Stored.{begin, command}
use crypto_screener.Commands.Sound.{IsSound}
use crypto_screener.Connectors.{ConnectorEntry}
use crypto_screener.Funding.{new_funding_manager, validate, normalize}
use crypto_screener.Startup.{Boot, new_application, restore_floor}
use crypto_screener.Startup.Complete.{IsComplete, wanted}
use crypto_screener.Startup.Life.{life-IsSound}
use crypto_screener.Startup.Restart.{Same, restore_floor-session, setting_of, ReadsBack}
use crypto_screener.Startup.Run.{Runner, run}
use crypto_screener.Startup.Whole.{run-IsComplete}
use crypto_screener.Dispatch.{or_no_ticks, of_symbol, dispatch_ticks, dispatch_by_symbol}
use crypto_screener.Domain.Market.{MarketTick}
use crypto_screener.Tests.{futures_tick, bybit, mexc, btc, t0}
use crypto_screener.Tests.Orders.{print_code, parse_code, screener, works, asks, after}

abbrev boot : Boot ℤ
boot = record { has_repo = true; reconciled = some true; settings = none; users = some [] }

abbrev in_time : ConnectorEntry → Bool
in_time e = true

abbrev idle : Runner ℤ
idle = record { started = false; app = record screener { accepting = false } }

run-IsComplete_example :
    IsComplete (wanted (some (λ name. true))) (run parse_code true in_time boot idle)
run-IsComplete_example = run-IsComplete parse_code true in_time boot idle refl

abbrev made : Application ℤ
made = record screener {
  accepting = false;
  admin_ids = [];
  config = new_screener_config (pos 10000);
  funding_mgr = record screener.funding_mgr { config = some (funding_floor (pos 10000)) };
  connector_factory = none;
}

new_application_made : new_application none true true ≡ inr made
unfolding new_application new_funding_manager validate normalize new_screener_config
    get_hard_min_spread
new_application_made = refl

abbrev all_made : Option (Text → Bool)
all_made = some (λ name. true)

abbrev running : Application ℤ
running =
    (run parse_code true in_time boot
      (record { started = false; app = set_connector_factory all_made made })).0.app

life-IsSound_example : IsSound (after (text "start") (asks 7 []) running)
life-IsSound_example =
    life-IsSound parse_code print_code none true true all_made made
      (after (text "start") (asks 7 []) running) boot true in_time
      (new_screener_config-IsValid (pos 10000)) new_application_made
      (command works (text "start") (asks 7 []) begin)

reads_back : ReadsBack parse_code print_code
reads_back (pos n) = (pos n, (refl, (Le_refl (pos n), Le_refl (pos n))))
reads_back (negsuc n) = (negsuc n, (refl, (Le_refl (negsuc n), Le_refl (negsuc n))))

screener-IsSound : IsSound screener
unfolding new_screener_config
screener-IsSound = record {
  subscribed = tt;
  configured = new_screener_config-IsValid (pos 20000);
  agreed = refl;
}

abbrev raised : Application ℤ
raised = after (text "sethardspread") (asks 1 ((3000000 ∷ []) ∷ [])) screener

restore_floor-session_example :
    Same raised.config.hard_min_spread
      (restore_floor parse_code
        (setting_of raised.calls settings_key_hard_spread)
        screener).config.hard_min_spread
restore_floor-session_example =
    restore_floor-session parse_code print_code reads_back screener
      (command works (text "sethardspread") (asks 1 ((3000000 ∷ []) ∷ [])) begin) (refl, tt) refl
      refl screener-IsSound refl

-- One digit for each thousandth.
abbrev print_digit : ℤ → Text
print_digit v = (b'0' + pos_part v / 1000) ∷ []

abbrev parse_digit : Text → Option ℤ
parse_digit [] = none
parse_digit (c ∷ s) = if eqb c b'5' then some (pos 5000) else none

abbrev same_rate : ℤ → ℤ
same_rate v = v

abbrev priced : ScreenerConfig ℤ
priced = record {
  hard_min_spread = pos 10000;
  fees = (text "OKX", pos 5000) ∷ (text "MEXC", pos 5000) ∷ [];
}

okx-IsName : IsName (text "OKX")
unfolding to_upper
okx-IsName = record {
  solid = (refl, (refl, (refl, tt)));
  no_comma = (refl, (refl, (refl, tt)));
  no_colon = (refl, (refl, (refl, tt)));
  upper = refl;
  named = refl;
}

mexc-IsName : IsName (text "MEXC")
unfolding to_upper
mexc-IsName = record {
  solid = (refl, (refl, (refl, (refl, tt))));
  no_comma = (refl, (refl, (refl, (refl, tt))));
  no_colon = (refl, (refl, (refl, (refl, tt))));
  upper = refl;
  named = refl;
}

five-IsReadable : IsReadable parse_digit print_digit same_rate (pos 5000)
five-IsReadable = record {
  solid = (refl, tt);
  no_comma = (refl, tt);
  parsed = refl;
  nonneg = refl;
  within = refl;
}

fees_string-parse_fees_example :
    (out : Map Text ℤ) × ((parse_fees parse_digit (fees_string print_digit (some priced)) ≡ ok out)
      × ((k : Text) → lookup k out ≡ read_option same_rate (lookup k priced.fees)))
fees_string-parse_fees_example =
    fees_string-parse_fees parse_digit print_digit same_rate priced
      ((okx-IsName, five-IsReadable), ((mexc-IsName, five-IsReadable), tt))

abbrev first_byte : Text → ℕ
first_byte [] = 0
first_byte (c ∷ s) = c

abbrev stream : List (MarketTick ℤ)
stream = futures_tick bybit 100 t0 ∷ futures_tick mexc 101 t0 ∷ []

dispatch_by_symbol_example :
    (of_symbol first_byte btc (
        or_no_ticks
          (get_elem? (dispatch_ticks first_byte stream (replicate 8 [])) (first_byte btc % 8)))
      ≡ of_symbol first_byte btc stream)
    × ((j : ℕ)
        → j ≢ first_byte btc % 8
        → of_symbol first_byte btc
            (or_no_ticks (get_elem? (dispatch_ticks first_byte stream (replicate 8 [])) j))
          ≡ [])
dispatch_by_symbol_example = dispatch_by_symbol first_byte 8 stream btc (omega arith)
