-- ===== src/Commands/Steps/Refines.antt =====
-- HandleCommand of internal/app/app.go against the steps: every branch of it is one of them.
use crypto_screener.Base.{
  ℕ, Bool, true, false, List, [], ◌∷◌, Option, none, some, if◌then◌else◌, ◌≡◌, refl, inl, inr,
  Bool-cases, Option-cases, arith, subst, sym, ◌≤◌,
}
use crypto_screener.Base.Int.{ℤ, pos, negsuc}
use crypto_screener.Base.Parse.{atoi, to_lower}
use crypto_screener.Base.Text.{Text}
use crypto_screener.Decimal.{Decimal, Le, is_negative, greater_than, less_than}
use crypto_screener.Domain.Config.{ScreenerConfig, get_hard_min_spread}
use crypto_screener.Domain.User.{User, get_user}
use crypto_screener.Commands.{
  user_saved, user_deleted, Application, Outcomes, Reply, persist_user, delete_user,
  settings_not_saved,
}
use crypto_screener.Commands.Edit.{
  Edit, declined, changed, set_cross, set_vol, set_updates, set_funding_time, set_timeframe,
  percent, minutes_of, max_minutes, new_user, is_known, timeframe_of,
}
use crypto_screener.Commands.Handle.{
  drop_user, store_user, store_edit, subscribe, unsubscribe, Request,
}
use crypto_screener.Commands.Steps.{
  IsEdited, joined, spread, volume, step, minutes, frame, Step, stay, entered, left,
}

minutes-bound : (m : Option ℤ) (n : ℕ) → minutes_of m ≡ some n → n ≤ max_minutes
minutes-bound none n h = cc
minutes-bound (some (negsuc k)) n h = cc
minutes-bound (some (pos k)) n h = ground arith

module _ {D : Type 0} ⦃dec : Decimal D⦄ where
  -- An edit leaves the user, or makes an entry that the relation allows.
  abbrev EditOk : ScreenerConfig D → ℕ → User D → Edit D → Type 0
  EditOk config chat u (declined r) = Unit {0}
  EditOk config chat u (changed v r) = IsEdited config chat (some u) v

  EditOk-if :
      (config : ScreenerConfig D) (chat : ℕ) (u : User D) (b : Bool) (x y : Edit D)
      → (b ≡ true → EditOk config chat u x)
      → (b ≡ false → EditOk config chat u y)
      → EditOk config chat u (if b then x else y)
  EditOk-if config chat u true x y h k = h refl
  EditOk-if config chat u false x y h k = k refl

  raised_floor : (floor v : D) → Le floor (if less_than v floor then floor else v)
  raised_floor floor v = ground (arith, dec.below_irrefl floor)

  module _ (config : ScreenerConfig D) (chat : ℕ) (parse : Text → Option D) where
    pub set_cross-EditOk :
        (args : List Text) (u : User D) → EditOk config chat u (set_cross parse config args u)
    unfolding set_cross
    set_cross-EditOk [] u = tt
    set_cross-EditOk (arg ∷ args) u = elim (Option-cases (parse arg)) [
      | inl bad ↦ rw (set_cross, bad) tt
      | inr (v, read) ↦
          rw (set_cross, read)
            (EditOk-if config chat u (is_negative v) _ _ (λ n. tt)
              (λ n.
                EditOk-if config chat u (greater_than v (dec.literal 100 0)) _ _ (λ g. tt)
                  (λ g. spread u _ (raised_floor (get_hard_min_spread (some config)) (percent v)))))
    ]

    pub set_vol-EditOk :
        (args : List Text) (u : User D) → EditOk config chat u (set_vol parse args u)
    unfolding set_vol
    set_vol-EditOk [] u = tt
    set_vol-EditOk (arg ∷ args) u = elim (Option-cases (parse arg)) [
      | inl bad ↦ rw (set_vol, bad) tt
      | inr (v, read) ↦
          rw (set_vol, read)
            (EditOk-if config chat u (is_negative v) _ _ (λ n. tt)
              (λ n.
                EditOk-if config chat u (greater_than v (dec.literal 1000000000 0)) _ _ (λ g. tt)
                  (λ g. volume u v n g)))
    ]

    pub set_updates-EditOk :
        (args : List Text) (u : User D) → EditOk config chat u (set_updates parse args u)
    unfolding set_updates
    set_updates-EditOk [] u = tt
    set_updates-EditOk (arg ∷ args) u = elim (Option-cases (parse arg)) [
      | inl bad ↦ rw (set_updates, bad) tt
      | inr (v, read) ↦ elim (Bool-cases (is_negative v)) [
        | inl n ↦ rw (set_updates, read, n) tt
        | inr n ↦
            rw (set_updates, read, n)
              (EditOk-if config chat u (greater_than v (dec.literal 100 0)) _ _ (λ g. tt)
                (λ g. step u _ (dec.percent_nonneg v n) (dec.percent_le_one v g)))
      ]
    ]

    pub set_timeframe-EditOk :
        (args : List Text) (u : User D) → EditOk config chat u (set_timeframe args u)
    unfolding set_timeframe
    set_timeframe-EditOk [] u = tt
    set_timeframe-EditOk (arg ∷ args) u =
        EditOk-if config chat u (is_known (timeframe_of (to_lower arg))) _ _ (λ k. frame u _ k)
          (λ k. tt)

    pub set_funding_time-EditOk :
        (args : List Text) (u : User D) → EditOk config chat u (set_funding_time args u)
    unfolding set_funding_time
    set_funding_time-EditOk [] u = tt
    set_funding_time-EditOk (arg ∷ args) u = elim (Option-cases (minutes_of (atoi arg))) [
      | inl bad ↦ rw (set_funding_time, bad) tt
      | inr (n, read) ↦ rw (set_funding_time, read) (minutes u n (minutes-bound (atoi arg) n read))
    ]

  module _ (print : D → Text) (o : Outcomes D) (a : Application D) where
    saved-if :
        (chat : ℕ) (u : User D) (good bad : Reply D) (there written : Bool)
        → IsEdited a.config chat (get_user chat a.user_mgr) u
        → (written ≡ true → o.saved ≡ true)
        → Step print o chat a
            (store_user u good bad (
              if there
              then if written
                then (record a { calls = user_saved u ∷ a.calls }, true)
                else (a, false)
              else (a, false))).0
    saved-if chat u good bad true true e w = entered u e (w refl) refl
    saved-if chat u good bad true false e w = stay refl
    saved-if chat u good bad false written e w = stay refl

    persist_user-Step :
        (chat : ℕ) (u : User D) (good bad : Reply D)
        → IsEdited a.config chat (get_user chat a.user_mgr) u
        → Step print o chat a (store_user u good bad (persist_user o (some u) a)).0
    unfolding persist_user
    persist_user-Step chat u good bad e =
        saved-if chat u good bad a.has_user_repo o.saved e (λ w. w)

    pub store_edit-Step :
        (chat : ℕ) (u : User D) (e : Edit D)
        → get_user chat a.user_mgr ≡ some u
        → EditOk a.config chat u e
        → Step print o chat a (store_edit o e a).0
    unfolding store_edit
    store_edit-Step chat u (declined r) q h = stay refl
    store_edit-Step chat u (changed v r) q h =
        persist_user-Step chat v r settings_not_saved
          (subst (λ old. IsEdited a.config chat old v) (sym q) h)

    pub subscribe-Step :
        (q : Request)
        → get_user q.chat_id a.user_mgr ≡ none
        → Step print o q.chat_id a (subscribe o q a).0
    unfolding subscribe
    subscribe-Step q e =
        let u = new_user a.config q.bot_id q.chat_id q.username in
        persist_user-Step q.chat_id u _ _
          (subst (λ old. IsEdited a.config q.chat_id old u) (sym e) (joined q.bot_id q.username))

    dropped-if :
        (chat : ℕ) (there written : Bool)
        → (written ≡ true → o.saved ≡ true)
        → Step print o chat a
            (drop_user chat (
              if there
              then if written
                then (record a { calls = user_deleted chat ∷ a.calls }, true)
                else (a, false)
              else (a, false))).0
    dropped-if chat true true w = left (w refl) refl
    dropped-if chat true false w = stay refl
    dropped-if chat false written w = stay refl

    pub unsubscribe-Step : (chat : ℕ) → Step print o chat a (unsubscribe o chat a).0
    unfolding unsubscribe delete_user
    unsubscribe-Step chat = dropped-if chat a.has_user_repo o.saved (λ w. w)
