-- ===== src/Startup/Life.antt =====
-- The life of the application of internal/app/app.go: NewApplication, SetConnectorFactory, Run, and
-- then any commands, one after another.
use crypto_screener.Base.{Bool, Option, none, some, ◌≡◌, inr, subst, All, false}
use crypto_screener.Base.Text.{Text}
use crypto_screener.Decimal.{Decimal}
use crypto_screener.Domain.Config.{ScreenerConfig}
use crypto_screener.Domain.Config.Thresholds.{IsValid}
use crypto_screener.Connectors.{ConnectorEntry}
use crypto_screener.Commands.{Application, set_connector_factory}
use crypto_screener.Commands.Access.Stored.{Session, begin, command, admins}
use crypto_screener.Commands.Sound.{IsSound, IsBounded, IsEntryOf}
use crypto_screener.Commands.Sound.Kept.{handle_command-IsSound, Step-IsBounded}
use crypto_screener.Commands.Steps.Whole.{handle_command-Step}
use crypto_screener.Startup.{Boot, or_default, new_application}
use crypto_screener.Startup.Begun.{IsBuilt, new_application-IsBuilt, run-IsSound}
use crypto_screener.Startup.Run.{run}

module _ {D : Type 0} ⦃dec : Decimal D⦄ (parse : Text → Option D) (print : D → Text) where
  pub session-IsSound : {a b : Application D} → Session parse print a b → IsSound a → IsSound b
  session-IsSound begin h = h
  session-IsSound (command {b = b} o cmd q s) h =
      handle_command-IsSound parse print o cmd q b (session-IsSound s h)
  session-IsSound (admins ids s) h =
      let k = session-IsSound s h in
      record { subscribed = k.subscribed; configured = k.configured; agreed = k.agreed }

  factory-IsSound :
      (factory : Option (Text → Bool)) (a : Application D)
      → IsSound a
      → IsSound (set_connector_factory factory a)
  factory-IsSound none a h = h
  factory-IsSound (some f) a h = record {
    subscribed = h.subscribed;
    configured = h.configured;
    agreed = h.agreed;
  }

  -- After any commands of any chats, handled one after another, no subscriber asks for a volume
  -- above 1000000000, for a step above 1 or for more than 10080 minutes, and each is stored under
  -- the own chat id, if this was so before.
  pub session-IsBounded :
      {a b : Application D}
      → Session parse print a b
      → All (IsEntryOf IsBounded) a.user_mgr
      → All (IsEntryOf IsBounded) b.user_mgr
  session-IsBounded begin h = h
  session-IsBounded (command {b = b} o cmd q s) h =
      Step-IsBounded (handle_command-Step parse print o q b cmd) (session-IsBounded s h)
  session-IsBounded (admins ids s) h = session-IsBounded s h

  -- In every state that commands of any chats, handled one after another, lead to from
  -- NewApplication, SetConnectorFactory with any factory or none, and Run, whatever the
  -- repositories hold and however their calls end: each subscriber is stored under the own chat id,
  -- asks for a spread of at least 0.01, for no negative volume or step, and for a known timeframe;
  -- the floor is at least 0.01, each fee is between 0 and 0.01, and the funding manager requires
  -- exactly the configured floor. The configuration that is given, or the default one, is valid.
  -- Commands that overlap are left out.
  pub life-IsSound :
      (cfg : Option (ScreenerConfig D)) (user_repo settings_repo : Bool)
      (factory : Option (Text → Bool)) (a b : Application D) (boot : Boot D) (ends : Bool)
      (in_time : ConnectorEntry → Bool)
      → IsValid (or_default cfg)
      → new_application cfg user_repo settings_repo ≡ inr a
      → Session parse print
          (run parse ends in_time boot
            (record { started = false; app = set_connector_factory factory a })).0.app
          b
      → IsSound b
  life-IsSound cfg user_repo settings_repo factory a b boot ends in_time valid made s =
      let start = subst IsBuilt made (new_application-IsBuilt cfg user_repo settings_repo valid) in
      session-IsSound s (
        run-IsSound ends in_time parse boot
          (record { started = false; app = set_connector_factory factory a })
          (factory-IsSound factory a start.0))
