-- ===== src/Tests/Orders.antt =====
-- Runs of the theorems on the commands of internal/app/app.go.
use crypto_screener.Base.{ℕ, true, false, List, [], ◌∷◌, Option, none, some, ◌≡◌, refl}
use crypto_screener.Base.Int.{ℤ, pos, negsuc}
use crypto_screener.Base.Text.{Text, text}
use crypto_screener.Decimal.Fixed.{fixed_decimal}
use crypto_screener.Domain.Config.{new_screener_config}
use crypto_screener.Connectors.{new_connector_manager}
use crypto_screener.Commands.{Application, Outcomes, is_admin}
use crypto_screener.Commands.Access.{IsConfined, handle_command-IsConfined}
use crypto_screener.Commands.Access.Stored.{Session, begin, command, replay, session-IsStored}
use crypto_screener.Commands.Admin.{funding_floor}
use crypto_screener.Commands.Handle.{Request, handle_command}
use crypto_screener.Commands.Steps.{Step}
use crypto_screener.Commands.Steps.Whole.{handle_command-Step}

-- A decimal as the list of its parts, which reads back.
abbrev pub print_code : ℤ → Text
print_code (pos n) = n ∷ []
print_code (negsuc n) = 0 ∷ n ∷ []

abbrev pub parse_code : Text → Option ℤ
parse_code [] = none
parse_code (n ∷ []) = some (pos n)
parse_code (z ∷ n ∷ rest) = some (negsuc n)

-- The administrator is chat 1.
abbrev pub screener : Application ℤ
screener = record {
  accepting = true;
  admin_ids = 1 ∷ [];
  user_mgr = [];
  config = new_screener_config (pos 20000);
  funding_mgr = record {
    rates = [];
    config = some (funding_floor (pos 20000));
    health = [];
    last_update = [];
  };
  conn_manager = new_connector_manager;
  connector_factory = some (λ name. true);
  has_user_repo = true;
  has_settings_repo = true;
  calls = [];
}

abbrev pub works : Outcomes ℤ
works = record { saved = true; in_time = true; stats = none; recent = none; active = [] }

abbrev pub asks : ℕ → List Text → Request
asks chat args = record { bot_id = 0; chat_id = chat; username = text "trader"; args = args }

abbrev pub after : Text → Request → Application ℤ → Application ℤ
after cmd q a = (handle_command parse_code print_code works cmd q a).0

abbrev subscribed : Application ℤ
subscribed = after (text "start") (asks 7 []) screener

abbrev dealings :
    Session parse_code print_code screener
      (after (text "setvol") (asks 7 ((5000 ∷ []) ∷ [])) subscribed)
dealings =
    command works (text "setvol") (asks 7 ((5000 ∷ []) ∷ []))
      (command works (text "start") (asks 7 []) begin)

session-IsStored_example :
    (after (text "setvol") (asks 7 ((5000 ∷ []) ∷ [])) subscribed).user_mgr
    ≡ replay [] (after (text "setvol") (asks 7 ((5000 ∷ []) ∷ [])) subscribed).calls
session-IsStored_example = session-IsStored parse_code print_code [] dealings refl

handle_command-Step_example :
    Step print_code works 1 screener
      (after (text "sethardspread") (asks 1 ((3000000 ∷ []) ∷ [])) screener)
handle_command-Step_example =
    handle_command-Step parse_code print_code works (asks 1 ((3000000 ∷ []) ∷ [])) screener
      (text "sethardspread")

not_admin : is_admin screener 7 ≡ false
unfolding is_admin
not_admin = refl

handle_command-IsConfined_example :
    IsConfined 7 screener (after (text "sethardspread") (asks 7 ((3000000 ∷ []) ∷ [])) screener)
handle_command-IsConfined_example =
    handle_command-IsConfined parse_code print_code works (text "sethardspread")
      (asks 7 ((3000000 ∷ []) ∷ [])) screener not_admin tt
