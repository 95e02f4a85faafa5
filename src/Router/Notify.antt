-- ===== src/Router/Notify.antt =====
-- ProcessSignal and ProcessSignalUpdate of notification_router.go. `now` is what the router's clock
-- says, and `clock` what the volume engine's clock says.
use crypto_screener.Base.{
  ℕ, Bool, true, false, not, ◌||◌, List, [], ◌∷◌, ◌++◌, Option, none, some, ltb, if◌then◌else◌, ◌≡◌,
  refl, ap, ◌∙◌,
}
use crypto_screener.Base.Eq.{text_eq, nat_eq, pair_eq}
use crypto_screener.Base.Map.{Map, lookup, insert}
use crypto_screener.Base.Time.{Time}
use crypto_screener.Decimal.{
  Decimal, decimal_zero, add, sub, mul, div, less_than, less_than_or_equal, is_positive,
}
use crypto_screener.Domain.Signal.{ArbitrageSignal}
use crypto_screener.Domain.User.{User, UserManager, range_users}
use crypto_screener.Volume.{VolumeEngine}
use crypto_screener.Router.{
  Router, NotificationJob, UpdateKey, signal_opened, signal_closed, signal_update, open_kind,
  update_kind, close_kind, has_chats, enqueue,
}
use crypto_screener.Router.Audience.{funding_allowed, signal_volume, eligible_chats}

module _ {D : Type 0} ⦃dec : Decimal D⦄ where
  -- Enqueues a job unless nobody is to be told.
  abbrev pub tell : Router D → NotificationJob D → Router D × List ℕ
  tell nr job = if has_chats job.chat_ids then ((enqueue nr job).0, job.chat_ids) else (nr, [])

  abbrev pub open_job : ArbitrageSignal D → List ℕ → NotificationJob D
  open_job s targets = record {
    key = s.id ++ open_kind;
    message = signal_opened s;
    chat_ids = targets;
    signal = s;
    revalidate = true;
  }

  abbrev pub close_job : ArbitrageSignal D → List ℕ → NotificationJob D
  close_job s targets = record {
    key = s.id ++ close_kind;
    message = signal_closed s;
    chat_ids = targets;
    signal = s;
    revalidate = false;
  }

  abbrev pub update_job : ArbitrageSignal D → Time → List ℕ → NotificationJob D
  update_job s now targets = record {
    key = s.id ++ update_kind;
    message = signal_update s now;
    chat_ids = targets;
    signal = s;
    revalidate = true;
  }

  abbrev pub notify_users :
      UserManager D → Router D → Time → Time → ArbitrageSignal D → Bool → Router D × List ℕ
  notify_users users nr clock now s true =
      tell nr (open_job s (eligible_chats nr.volume clock now s users))
  notify_users users nr clock now s false = tell nr (close_job s s.notified_chat_ids)

  -- Nothing is done without users or once the router is closed.
  abbrev pub with_users :
      Router D → Option (UserManager D) → (UserManager D → Router D × List ℕ) → Router D × List ℕ
  with_users nr none act = (nr, [])
  with_users nr (some users) act = if nr.closed then (nr, []) else act users

  pub with_users-open :
      (nr : Router D) (users : UserManager D) (act : UserManager D → Router D × List ℕ)
      → nr.users ≡ some users
      → nr.closed ≡ false
      → with_users nr nr.users act ≡ act users
  with_users-open nr users act e o =
      ap (λ u. with_users nr u act) e ∙ ap (λ c. if c then (nr, []) else act users) o

  unfoldable pub process_signal :
      Router D → Time → Time → ArbitrageSignal D → Bool → Router D × List ℕ
  process_signal nr clock now s is_opened =
      with_users nr nr.users (λ users. notify_users users nr clock now s is_opened)

  -- The conditions of ProcessSignalUpdate on a user before the step is looked at.
  unfoldable pub wants_update :
      Option (VolumeEngine D) → Time → Time → ArbitrageSignal D → User D → Bool
  wants_update volume clock now s u =
      if not (is_positive u.update_step)
        || (less_than s.peak_spread u.min_spread || not (funding_allowed s u now))
      then false
      else not (less_than (signal_volume volume clock s u) u.min_volume)

  unfoldable pub steps_of : ArbitrageSignal D → User D → ℕ
  steps_of s u = dec.int_part (div (sub s.peak_spread s.initial_spread) u.update_step)

  unfoldable pub threshold_of : ArbitrageSignal D → User D → D
  unfolding steps_of
  threshold_of s u = add s.initial_spread (mul u.update_step (dec.literal (steps_of s u) 0))

  abbrev pub or_zero : Option D → D
  or_zero none = decimal_zero
  or_zero (some v) = v

  abbrev pub last_of : Map UpdateKey D → ArbitrageSignal D → User D → D
  last_of last s u = or_zero (lookup (s.id, u.chat_id) last)

  -- Whether the user is told: the last threshold that was announced is below the current one.
  unfoldable pub crosses :
      Option (VolumeEngine D) → Time → Time → ArbitrageSignal D → User D → Map UpdateKey D → Bool
  crosses volume clock now s u last =
      if not (wants_update volume clock now s u)
      then false
      else if ltb (steps_of s u) 1
      then false
      else not (less_than_or_equal (threshold_of s u) (last_of last s u))

  -- What the callback keeps: the thresholds announced, and the chats so far.
  unfoldable pub visit_update :
      Option (VolumeEngine D)
      → Time
      → Time
      → ArbitrageSignal D
      → User D
      → Map UpdateKey D × List ℕ
      → (Map UpdateKey D × List ℕ) × Bool
  visit_update volume clock now s u (last, targets) =
      if crosses volume clock now s u last
      then ((insert (s.id, u.chat_id) (threshold_of s u) last, targets ++ (u.chat_id ∷ [])), true)
      else ((last, targets), true)

  unfoldable pub visit_updates :
      Option (VolumeEngine D)
      → Time
      → Time
      → ArbitrageSignal D
      → UserManager D
      → Map UpdateKey D
      → Map UpdateKey D × List ℕ
  visit_updates volume clock now s users last =
      range_users (visit_update volume clock now s) users (last, [])

  -- The thresholds are kept, and the job is enqueued.
  abbrev pub announce :
      UserManager D → Router D → Time → Time → ArbitrageSignal D → Router D × List ℕ
  announce users nr clock now s =
      let (last, targets) = visit_updates nr.volume clock now s users nr.last_update in
      tell (record nr { last_update = last }) (update_job s now targets)

  unfoldable pub process_signal_update :
      Router D → Time → Time → ArbitrageSignal D → Router D × List ℕ
  process_signal_update nr clock now s =
      with_users nr nr.users
        (λ users. if not s.is_active then (nr, []) else announce users nr clock now s)

  pub process_signal_update-active :
      (nr : Router D) (clock now : Time) (s : ArbitrageSignal D) (users : UserManager D)
      → nr.users ≡ some users
      → nr.closed ≡ false
      → s.is_active ≡ true
      → process_signal_update nr clock now s ≡ announce users nr clock now s
  unfolding process_signal_update
  process_signal_update-active nr clock now s users e o active =
      with_users-open nr users
        (λ us. if not s.is_active then (nr, []) else announce us nr clock now s) e o
      ∙ ap (λ b. if not b then (nr, []) else announce users nr clock now s) active

  pub tell-targets : (nr : Router D) (job : NotificationJob D) → (tell nr job).1 ≡ job.chat_ids
  tell-targets nr job = go job.chat_ids refl
    where
      go : (ids : List ℕ) → job.chat_ids ≡ ids → (tell nr job).1 ≡ job.chat_ids
      go [] e = rw e refl
      go (id ∷ ids) e = rw e refl
