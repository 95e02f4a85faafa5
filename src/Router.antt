-- ===== src/Router.antt =====
-- internal/app/notification_router.go: the state of the router and its queue of jobs. Each lock
-- makes the work under it one step. The channels `wake`, `stop` and `telegramReady`, which only wake
-- the workers, are left out, and so is the cancellation of a transport call. Every job that the
-- router makes has a signal.
pub mod Audience
pub mod Notify
pub mod Send
pub mod Recipients
pub mod Opening
pub mod Repeats
pub mod Overwrite
pub mod Invalidated
use crypto_screener.Base.{
  ℕ, Bool, true, false, not, ◌||◌, ◌&&◌, List, [], ◌∷◌, ◌++◌, Option, none, some, if◌then◌else◌,
  keep_if,
}
use crypto_screener.Base.Eq.{text_eq, nat_eq, pair_eq, ◌==◌}
use crypto_screener.Base.Map.{Map, lookup, insert, delete}
use crypto_screener.Base.Text.{Text, text, is_empty}
use crypto_screener.Base.Time.{Time}
use crypto_screener.Domain.Signal.{ArbitrageSignal}
use crypto_screener.Domain.Config.{ScreenerConfig}
use crypto_screener.Domain.User.{UserManager}
use crypto_screener.Volume.{VolumeEngine}

-- The texts that fmt.Sprintf makes, by what goes into them; an update names a time.
pub data Message (D : Type 0) : Type 0 where
  signal_opened signal_closed : ArbitrageSignal D → Message D
  signal_update : ArbitrageSignal D → Time → Message D

pub record NotificationJob (D : Type 0) : Type 0 where
  pub key : Text
  pub message : Message D
  pub chat_ids : List ℕ
  pub signal : ArbitrageSignal D
  pub revalidate : Bool

-- A signal's id and a chat.
abbrev pub UpdateKey : Type 0
UpdateKey = Text × ℕ

-- `has_telegram` says whether a sender is set; `invalidated` is a set of ids.
pub record Router (D : Type 0) : Type 0 where
  pub users : Option (UserManager D)
  pub volume : Option (VolumeEngine D)
  pub config : Option (ScreenerConfig D)
  pub has_telegram : Bool
  pub pending : Map Text (NotificationJob D)
  pub closed : Bool
  pub last_update : Map UpdateKey D
  pub invalidated : Map Text Bool

abbrev pub open_kind : Text
open_kind = text ":open"

abbrev pub update_kind : Text
update_kind = text ":update"

abbrev pub close_kind : Text
close_kind = text ":close"

abbrev pub has_chats : List ℕ → Bool
has_chats [] = false
has_chats (id ∷ ids) = true

module _ {D : Type 0} where
  unfoldable pub new_router :
      Option (UserManager D) → Bool → Option (VolumeEngine D) → Option (ScreenerConfig D) → Router D
  new_router users has_telegram volume config = record {
    users = users;
    volume = volume;
    config = config;
    has_telegram = has_telegram;
    pending = [];
    closed = false;
    last_update = [];
    invalidated = [];
  }

  unfoldable pub set_telegram_sender : Bool → Router D → Router D
  set_telegram_sender present nr = record nr { has_telegram = present }

  -- The job takes the place of one with its key; the Boolean says whether it was accepted.
  unfoldable pub enqueue : Router D → NotificationJob D → Router D × Bool
  enqueue nr job =
      if is_empty job.key || not (has_chats job.chat_ids)
      then (nr, false)
      else if nr.closed
      then (nr, false)
      else (record nr { pending = insert job.key job nr.pending }, true)

  -- The first job in the order of the map.
  unfoldable pub take_pending : Router D → Router D × Option (NotificationJob D)
  take_pending nr = elim nr.pending [
    | [] ↦ (nr, none)
    | e ∷ rest ↦ (record nr { pending = delete e.0 nr.pending }, some e.1)
  ]

  unfoldable pub close_router : Router D → Router D
  close_router nr = record nr { closed = true }

  unfoldable pub invalidate_signal : Router D → Text → Router D
  invalidate_signal nr id =
      if is_empty id then nr else record nr { invalidated = insert id true nr.invalidated }

  unfoldable pub drop_pending : Router D → Text → Router D
  drop_pending nr key = if is_empty key then nr else record nr { pending = delete key nr.pending }

  unfoldable pub clear_signal_updates : Router D → Text → Router D
  clear_signal_updates nr id =
      if is_empty id
      then nr
      else record nr { last_update = keep_if (λ e. not (e.0.0 == id)) nr.last_update }
