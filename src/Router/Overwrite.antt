-- ===== src/Router/Overwrite.antt =====
-- The queue of notification_router.go after two updates of one signal, with no worker between them.
use crypto_screener.Base.{
  ℕ, Bool, true, false, List, [], ◌∷◌, ◌++◌, some, if◌then◌else◌, ◌≡◌, refl, sym, ◌∙◌, ap, inl, inr,
  Bool-cases, All, subst,
}
use crypto_screener.Base.Eq.{text_eq, nat_eq}
use crypto_screener.Base.Map.{Map, insert, insert_again, All-insert}
use crypto_screener.Base.Text.{Text, is_empty}
use crypto_screener.Base.Time.{Time}
use crypto_screener.Decimal.{Decimal}
use crypto_screener.Domain.Signal.{ArbitrageSignal}
use crypto_screener.Router.{Router, NotificationJob, has_chats, enqueue}
use crypto_screener.Domain.User.{UserManager}
use crypto_screener.Router.Audience.{chosen}
use crypto_screener.Router.Notify.{
  process_signal_update, process_signal_update-active, announce, tell, tell-targets, update_job,
  visit_updates,
}
use crypto_screener.Router.{update_kind}
use crypto_screener.Router.Repeats.{tell-IsSameBut}

pub is_empty-append : (s : Text) (c : ℕ) (t : Text) → is_empty (s ++ (c ∷ t)) ≡ false
is_empty-append [] c t = refl
is_empty-append (d ∷ s) c t = refl

module _ {D : Type 0} where
  -- No job that waits tells this chat anything.
  abbrev pub Silent : ℕ → Router D → Type 0
  Silent chat nr = All (λ e. chosen e.1.chat_ids chat ≡ false) nr.pending

module _ {D : Type 0} ⦃dec : Decimal D⦄ where
  tell-pending :
      (nr : Router D) (job : NotificationJob D)
      → nr.closed ≡ false
      → is_empty job.key ≡ false
      → (tell nr job).0.pending
        ≡ (if has_chats job.chat_ids then insert job.key job nr.pending else nr.pending)
  unfolding enqueue
  tell-pending nr job o named = elim (Bool-cases (has_chats job.chat_ids)) [
    | inl some_ ↦ rw (some_, named, o) refl
    | inr nobody ↦ rw nobody refl
  ]

  -- The queue after one update of a signal.
  announce-pending :
      (nr : Router D) (clock now : Time) (s : ArbitrageSignal D) (users : UserManager D)
      → nr.closed ≡ false
      → let seen = visit_updates nr.volume clock now s users nr.last_update in
        (announce users nr clock now s).0.pending ≡ (
          if has_chats seen.1
          then insert (s.id ++ update_kind) (update_job s now seen.1) nr.pending
          else nr.pending)
  announce-pending nr clock now s users o =
      let seen = visit_updates nr.volume clock now s users nr.last_update in
      tell-pending (record nr { last_update = seen.0 }) (update_job s now seen.1) o
        (is_empty-append s.id _ _)

  -- One update keeps the users and the flag, and the queue changes under its key only.
  pub record IsUpdate (nr : Router D) (now : Time) (s : ArbitrageSignal D) (r : Router D × List ℕ)
      : Type 0 where
    pub users : r.0.users ≡ nr.users
    pub closed : r.0.closed ≡ nr.closed
    pub pending : r.0.pending ≡ (
        if has_chats r.1
        then insert (s.id ++ update_kind) (update_job s now r.1) nr.pending
        else nr.pending)

  announce-IsUpdate :
      (nr : Router D) (clock now : Time) (s : ArbitrageSignal D) (users : UserManager D)
      → nr.closed ≡ false
      → IsUpdate nr now s (announce users nr clock now s)
  announce-IsUpdate nr clock now s users o =
      let seen = visit_updates nr.volume clock now s users nr.last_update in
      let job = update_job s now seen.1 in
      let same = tell-IsSameBut (record nr { last_update = seen.0 }) job in
      record {
        users = same.users;
        closed = same.closed;
        pending =
            announce-pending nr clock now s users o
            ∙ ap
                (λ ids.
                  if has_chats ids
                  then insert (s.id ++ update_kind) (update_job s now ids) nr.pending
                  else nr.pending)
                (sym (tell-targets (record nr { last_update = seen.0 }) job));
      }

  process_signal_update-IsUpdate :
      (nr : Router D) (clock now : Time) (s : ArbitrageSignal D) (users : UserManager D)
      → nr.users ≡ some users
      → nr.closed ≡ false
      → s.is_active ≡ true
      → IsUpdate nr now s (process_signal_update nr clock now s)
  process_signal_update-IsUpdate nr clock now s users e o active =
      subst (IsUpdate nr now s) (sym (process_signal_update-active nr clock now s users e o active))
        (announce-IsUpdate nr clock now s users o)

  replaced :
      (b : Bool) (key : Text) (v w : NotificationJob D) (pending : Map Text (NotificationJob D))
      → insert key v (if b then insert key w pending else pending) ≡ insert key v pending
  replaced true key v w pending = insert_again key v w pending
  replaced false key v w pending = refl

  -- If no job waits for a chat, and of two updates of one signal, with nothing between them, the
  -- second tells someone but not this chat, then no job waits for the chat after both, whoever the
  -- first told. The router has users and is not closed, and both signals are active.
  pub lost_update :
      (nr : Router D) (clock now clock2 later : Time) (a b : ArbitrageSignal D)
      (users : UserManager D) (chat : ℕ)
      → nr.users ≡ some users
      → nr.closed ≡ false
      → a.is_active ≡ true
      → b.is_active ≡ true
      → a.id ≡ b.id
      → Silent chat nr
      → has_chats (process_signal_update (process_signal_update nr clock now a).0 clock2 later b).1
        ≡ true
      → chosen
          (process_signal_update (process_signal_update nr clock now a).0 clock2 later b).1
          chat
        ≡ false
      → Silent chat
          (process_signal_update (process_signal_update nr clock now a).0 clock2 later b).0
  lost_update nr clock now clock2 later a b users chat e o la lb same quiet told other =
      let r = process_signal_update nr clock now a in
      let q = process_signal_update r.0 clock2 later b in
      let first = process_signal_update-IsUpdate nr clock now a users e o la in
      let second =
        process_signal_update-IsUpdate r.0 clock2 later b users (first.users ∙ e) (first.closed ∙ o)
          lb in
      let key = b.id ++ update_kind in
      let queue =
        second.pending
        ∙ ap (λ c. if c then insert key (update_job b later q.1) r.0.pending else r.0.pending) told
        ∙ ap (insert key (update_job b later q.1)) first.pending
        ∙ ap
            (λ k. insert key (update_job b later q.1) (
              if has_chats r.1
              then insert (k ++ update_kind) (update_job a now r.1) nr.pending
              else nr.pending))
            same
        ∙ replaced (has_chats r.1) key (update_job b later q.1) (update_job a now r.1) nr.pending in
      subst (All (λ x. chosen x.1.chat_ids chat ≡ false)) (sym queue) (
        All-insert (λ x. chosen x.1.chat_ids chat ≡ false) key (update_job b later q.1) nr.pending
          quiet other)
