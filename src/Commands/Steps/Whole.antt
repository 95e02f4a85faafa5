-- ===== src/Commands/Steps/Whole.antt =====
-- The whole of HandleCommand in internal/app/app.go against the steps.
use crypto_screener.Base.{
  Bool, true, false, not, ◌&&◌, Option, none, some, if◌then◌else◌, ◌≡◌, refl, inl, inr, Bool-cases,
  Option-cases,
}
use crypto_screener.Base.Text.{Text}
use crypto_screener.Decimal.{Decimal}
use crypto_screener.Domain.User.{User, get_user}
use crypto_screener.Commands.{
  Application, Outcomes, Command, start, stop, set_hard_spread, set_cross, set_vol, set_updates,
  set_funding_time, set_timeframe, set_fees, stats, signals, help, add_ex, rm_ex, unknown,
  is_admin_cmd, is_start, is_admin,
}
use crypto_screener.Commands.Admin.{Answer}
use crypto_screener.Commands.Handle.{
  Request, command_of, admin_command, user_command, new_command, run_command, handle_command,
}
use crypto_screener.Commands.Steps.{Step, stay}
use crypto_screener.Commands.Steps.Refines.{
  set_cross-EditOk, set_vol-EditOk, set_updates-EditOk, set_timeframe-EditOk,
  set_funding_time-EditOk, store_edit-Step, subscribe-Step, unsubscribe-Step,
}
use crypto_screener.Commands.Steps.Ruled.{
  set_hard_spread-Step, set_fees-Step, add_exchange-Step, remove_exchange-Step, report_stats-Step,
  report_signals-Step,
}

not_denied : (r d : Bool) → (r && not d) ≡ false → r ≡ true → d ≡ true
not_denied true true h k = refl
not_denied true false h k = cc
not_denied false d h k = cc

module _ {D : Type 0} ⦃dec : Decimal D⦄ (parse : Text → Option D) (print : D → Text)
    (o : Outcomes D) (q : Request) (a : Application D) where
  Step-if :
      (b : Bool) (x y : Answer D)
      → (b ≡ true → Step print o q.chat_id a x.0)
      → (b ≡ false → Step print o q.chat_id a y.0)
      → Step print o q.chat_id a (if b then x else y).0
  Step-if true x y h k = h refl
  Step-if false x y h k = k refl

  admin_command-Step :
      (c : Command)
      → (is_admin_cmd c ≡ true → is_admin a q.chat_id ≡ true)
      → Step print o q.chat_id a (admin_command parse print o c q a).0
  unfolding admin_command
  admin_command-Step set_hard_spread h =
      rw (admin_command, h refl) (set_hard_spread-Step parse print o q.chat_id q.args a (h refl))
  admin_command-Step set_fees h =
      rw (admin_command, h refl) (set_fees-Step parse print o q.chat_id q.args a (h refl))
  admin_command-Step stats h = rw (admin_command, h refl) (report_stats-Step print o q.chat_id a)
  admin_command-Step add_ex h = add_exchange-Step print o q.chat_id q.args a (h refl)
  admin_command-Step rm_ex h = remove_exchange-Step print o q.chat_id q.args a (h refl)
  admin_command-Step start h = stay refl
  admin_command-Step stop h = stay refl
  admin_command-Step set_cross h = stay refl
  admin_command-Step set_vol h = stay refl
  admin_command-Step set_updates h = stay refl
  admin_command-Step set_funding_time h = stay refl
  admin_command-Step set_timeframe h = stay refl
  admin_command-Step signals h = stay refl
  admin_command-Step help h = stay refl
  admin_command-Step unknown h = stay refl

  user_command-Step :
      (c : Command) (u : User D)
      → (is_admin_cmd c ≡ true → is_admin a q.chat_id ≡ true)
      → get_user q.chat_id a.user_mgr ≡ some u
      → Step print o q.chat_id a (user_command parse print o c q u a).0
  unfolding user_command
  user_command-Step start u h e = stay refl
  user_command-Step stop u h e = unsubscribe-Step print o a q.chat_id
  user_command-Step set_cross u h e =
      store_edit-Step print o a q.chat_id u _ e (set_cross-EditOk a.config q.chat_id parse q.args u)
  user_command-Step set_vol u h e =
      store_edit-Step print o a q.chat_id u _ e (set_vol-EditOk a.config q.chat_id parse q.args u)
  user_command-Step set_updates u h e =
      store_edit-Step print o a q.chat_id u _ e
        (set_updates-EditOk a.config q.chat_id parse q.args u)
  user_command-Step set_funding_time u h e =
      store_edit-Step print o a q.chat_id u _ e
        (set_funding_time-EditOk a.config q.chat_id parse q.args u)
  user_command-Step set_timeframe u h e =
      store_edit-Step print o a q.chat_id u _ e
        (set_timeframe-EditOk a.config q.chat_id parse q.args u)
  user_command-Step signals u h e = report_signals-Step print o q.chat_id a
  user_command-Step help u h e = stay refl
  user_command-Step set_hard_spread u h e = admin_command-Step set_hard_spread h
  user_command-Step set_fees u h e = admin_command-Step set_fees h
  user_command-Step stats u h e = admin_command-Step stats h
  user_command-Step add_ex u h e = admin_command-Step add_ex h
  user_command-Step rm_ex u h e = admin_command-Step rm_ex h
  user_command-Step unknown u h e = admin_command-Step unknown h

  new_command-Step :
      (c : Command)
      → (is_admin_cmd c ≡ true → is_admin a q.chat_id ≡ true)
      → get_user q.chat_id a.user_mgr ≡ none
      → Step print o q.chat_id a (new_command parse print o c q a).0
  unfolding new_command
  new_command-Step c h e = elim (Bool-cases (is_start c)) [
    | inl starts ↦ rw (new_command, starts) (subscribe-Step print o a q e)
    | inr other ↦ elim (Bool-cases (is_admin_cmd c)) [
      | inl ruled ↦ rw (new_command, other, ruled) (admin_command-Step c h)
      | inr plain ↦ rw (new_command, other, plain) (stay refl)
    ]
  ]

  run_command-Step :
      (c : Command)
      → (is_admin_cmd c ≡ true → is_admin a q.chat_id ≡ true)
      → Step print o q.chat_id a (run_command parse print o c q a).0
  unfolding run_command
  run_command-Step c h = elim (Option-cases (get_user q.chat_id a.user_mgr)) [
    | inl e ↦ rw (run_command, e) (new_command-Step c h e)
    | inr (u, e) ↦ rw (run_command, e) (user_command-Step c u h e)
  ]

  -- Each command, with any arguments and outcomes, takes one of a few steps: it changes nothing; it
  -- stores an entry of the own chat that comes from the one before by one setting within its
  -- bounds, or is that of a new user, and only with a save that succeeded; it removes the own
  -- entry, only with a deletion that succeeded; or, for an administrator, it sets the floor of the
  -- configuration and of the funding manager to the same value of at least 0.01, sets fees between
  -- 0 and 0.01 for names that are not empty, in both cases with the new setting stored where the
  -- repository keeps settings and the call succeeded, or adds or removes a connector.
  pub handle_command-Step :
      (cmd : Text) → Step print o q.chat_id a (handle_command parse print o cmd q a).0
  unfolding handle_command
  handle_command-Step cmd =
      let c = command_of cmd in
      Step-if (not a.accepting) _ _ (λ closed. stay refl)
        (λ accepts.
          Step-if (is_admin_cmd c && not (is_admin a q.chat_id)) _ _ (λ denied. stay refl)
            (λ allowed.
              run_command-Step c (not_denied (is_admin_cmd c) (is_admin a q.chat_id) allowed)))
