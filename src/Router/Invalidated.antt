-- ===== src/Router/Invalidated.antt =====
-- The signals that the tracker invalidated in notification_router.go. What the other workers and the
-- tracker do meanwhile is a step relation.
use crypto_screener.Base.{
  ℕ, Bool, true, false, not, List, [], ◌++◌, Option, none, some, if◌then◌else◌, ◌≡◌, ◌≢◌, refl, sym,
  ◌∙◌, ap, arith, inl, inr, ◌⊎◌, subst,
}
use crypto_screener.Base.Eq.{text_eq}
use crypto_screener.Base.Map.{has_key, lookup-insert}
use crypto_screener.Base.Text.{Text, has_suffix, has_prefix, rev_onto, rev_onto-append}
use crypto_screener.Base.Time.{Time}
use crypto_screener.Decimal.{Decimal}
use crypto_screener.Domain.User.{UserManager}
use crypto_screener.Router.Audience.{eligible_chats}
use crypto_screener.Domain.Signal.{ArbitrageSignal}
use crypto_screener.Router.{
  Router, NotificationJob, Message, open_kind, update_kind, take_pending, close_router,
  invalidate_signal, drop_pending, clear_signal_updates, set_telegram_sender, enqueue,
}
use crypto_screener.Router.Notify.{
  process_signal, process_signal_update, tell, with_users, announce, notify_users, open_job,
  close_job, update_job, visit_updates,
}
use crypto_screener.Router.Send.{sent, is_close, transmit}

open-not-close : (id : Text) → is_close (id ++ open_kind) ≡ false
unfolding has_suffix has_prefix rev_onto
open-not-close id = rw (rev_onto-append id open_kind []) refl

pub update-not-close : (id : Text) → is_close (id ++ update_kind) ≡ false
unfolding has_suffix has_prefix rev_onto
update-not-close id = rw (rev_onto-append id update_kind []) refl

module _ {D : Type 0} ⦃dec : Decimal D⦄ where
  -- One call on the router, by the tracker, a worker or the application.
  pub data Step (a b : Router D) : Type 0 where
    signals :
        (clock now : Time) (s : ArbitrageSignal D) (opened : Bool)
        → b ≡ (process_signal a clock now s opened).0
        → Step a b
    updates :
        (clock now : Time) (s : ArbitrageSignal D)
        → b ≡ (process_signal_update a clock now s).0
        → Step a b
    takes : b ≡ (take_pending a).0 → Step a b
    invalidates : (id : Text) → b ≡ invalidate_signal a id → Step a b
    drops : (key : Text) → b ≡ drop_pending a key → Step a b
    clears : (id : Text) → b ≡ clear_signal_updates a id → Step a b
    connects : (present : Bool) → b ≡ set_telegram_sender present a → Step a b
    closes : b ≡ close_router a → Step a b

  pub data Reach (a : Router D) : Router D → Type 0 where
    here : Reach a a
    next : {b c : Router D} → Reach a b → Step b c → Reach a c

  abbrev Marked : Text → Router D → Type 0
  Marked id nr = has_key id nr.invalidated ≡ true

  tell-invalidated :
      (nr : Router D) (job : NotificationJob D) → (tell nr job).0.invalidated ≡ nr.invalidated
  unfolding enqueue
  tell-invalidated nr job = ground arith

  branch-invalidated :
      (nr : Router D) (b : Bool) (x y : Router D × List ℕ)
      → x.0.invalidated ≡ nr.invalidated
      → y.0.invalidated ≡ nr.invalidated
      → (if b then x else y).0.invalidated ≡ nr.invalidated
  branch-invalidated nr true x y e f = e
  branch-invalidated nr false x y e f = f

  with_users-invalidated :
      (nr : Router D) (users : Option (UserManager D)) (act : UserManager D → Router D × List ℕ)
      → ((us : UserManager D) → (act us).0.invalidated ≡ nr.invalidated)
      → (with_users nr users act).0.invalidated ≡ nr.invalidated
  with_users-invalidated nr none act h = refl
  with_users-invalidated nr (some users) act h =
      branch-invalidated nr nr.closed (nr, []) (act users) refl (h users)

  notify_users-invalidated :
      (users : UserManager D) (nr : Router D) (clock now : Time) (s : ArbitrageSignal D)
      (opened : Bool)
      → (notify_users users nr clock now s opened).0.invalidated ≡ nr.invalidated
  notify_users-invalidated users nr clock now s true =
      tell-invalidated nr (open_job s (eligible_chats nr.volume clock now s users))
  notify_users-invalidated users nr clock now s false =
      tell-invalidated nr (close_job s s.notified_chat_ids)

  update-invalidated :
      (nr : Router D) (clock now : Time) (s : ArbitrageSignal D)
      → (process_signal_update nr clock now s).0.invalidated ≡ nr.invalidated
  unfolding process_signal_update
  update-invalidated nr clock now s =
      with_users-invalidated nr nr.users
        (λ users. if not s.is_active then (nr, []) else announce users nr clock now s)
        (λ users.
          let seen = visit_updates nr.volume clock now s users nr.last_update in
          branch-invalidated nr (not s.is_active) (nr, []) (announce users nr clock now s) refl
            (tell-invalidated (record nr { last_update = seen.0 }) (update_job s now seen.1)))

  signal-invalidated :
      (nr : Router D) (clock now : Time) (s : ArbitrageSignal D) (opened : Bool)
      → (process_signal nr clock now s opened).0.invalidated ≡ nr.invalidated
  unfolding process_signal
  signal-invalidated nr clock now s opened =
      with_users-invalidated nr nr.users (λ users. notify_users users nr clock now s opened)
        (λ users. notify_users-invalidated users nr clock now s opened)

  invalidate-Marked :
      (id key : Text) (nr : Router D) → Marked id nr → Marked id (invalidate_signal nr key)
  unfolding invalidate_signal
  invalidate-Marked id key nr h = ground (arith, lookup-insert key id true nr.invalidated)

  Step-Marked : (id : Text) (a b : Router D) → Step a b → Marked id a → Marked id b
  unfolding take_pending drop_pending clear_signal_updates set_telegram_sender close_router
  Step-Marked id a b (invalidates key e) h = rw e (invalidate-Marked id key a h)
  Step-Marked id a b (drops key e) h = rw e (ground arith)
  Step-Marked id a b (clears key e) h = rw e (ground arith)
  Step-Marked id a b (connects p e) h = rw e h
  Step-Marked id a b (closes e) h = rw e h
  Step-Marked id a b (takes e) h = rw e (ground arith)
  Step-Marked id a b (signals clock now s opened e) h =
      rw e (ap (has_key id) (signal-invalidated a clock now s opened) ∙ h)
  Step-Marked id a b (updates clock now s e) h =
      rw e (ap (has_key id) (update-invalidated a clock now s) ∙ h)

  Reach-Marked : (id : Text) (a b : Router D) → Reach a b → Marked id a → Marked id b
  Reach-Marked id a b here h = h
  Reach-Marked id a b (next {b = m} path step) h =
      Step-Marked id m b step (Reach-Marked id a m path h)

  abbrev IsAbout : Text → NotificationJob D → Type 0
  IsAbout id job =
      (job.signal.id ≡ id) × ((job.key ≡ id ++ open_kind) ⊎ (job.key ≡ id ++ update_kind))

  not_close : (id : Text) (job : NotificationJob D) → IsAbout id job → is_close job.key ≡ false
  not_close id job (_, inl e) = rw e (open-not-close id)
  not_close id job (_, inr e) = rw e (update-not-close id)

  -- Once a signal is invalidated, no step of the router, its workers, the tracker or the
  -- application leads to a state in which an opening or an update of that signal is sent to anyone.
  pub invalidated_silent :
      (id : Text) (a b : Router D) (job : NotificationJob D)
      → Marked id a
      → Reach a b
      → IsAbout id job
      → (m : Message D) (ids : List ℕ) → transmit b job ≢ sent m ids
  unfolding transmit
  invalidated_silent id a b job h path about m ids e =
      let open_ = not_close id job about in
      let mark =
        subst (λ k. has_key k b.invalidated ≡ true) (sym about.0) (Reach-Marked id a b path h) in
      ground (arith, open_, mark, e)
