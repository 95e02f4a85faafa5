-- ===== src/Router/Recipients.antt =====
-- Whom notification_router.go tells, against the list of the users who pass the filter.
use crypto_screener.Base.{
  ℕ, Bool, true, false, ◌&&◌, List, [], ◌∷◌, ◌++◌, Option, none, some, if◌then◌else◌, ◌≡◌, refl,
  sym, ◌∙◌, ap, inl, inr, Bool-cases, Option-cases, keep_if, map,
}
use mathlib.Core.Option.{some-injective}
use mathlib.Core.List.{append_assoc, append-nil}
use crypto_screener.Base.Eq.{text_eq, nat_eq}
use crypto_screener.Base.Time.{Time}
use crypto_screener.Decimal.{Decimal}
use crypto_screener.Domain.Signal.{ArbitrageSignal}
use crypto_screener.Domain.User.{User, UserManager, range_users, range_users-next}
use crypto_screener.Router.{Router, NotificationJob, has_chats}
use crypto_screener.Router.Audience.{collect, chosen, is_eligible, current_eligible_chat_ids}
use crypto_screener.Router.Send.{prepare, renew, is_invalid, below_floor}

module _ {D : Type 0} where
  -- The chats of the users who pass a test, in the order of the map.
  abbrev pub chats_of : (User D → Bool) → UserManager D → List ℕ
  chats_of test users = map (λ e. e.1.chat_id) (keep_if (λ e. test e.1) users)

  pub range-collect :
      (test : User D → Bool) (users : UserManager D) (out : List ℕ)
      → range_users (collect test) users out ≡ out ++ chats_of test users
  unfolding range_users
  range-collect test [] out = sym (append-nil out)
  range-collect test ((key, u) ∷ users) out = elim (Bool-cases (test u)) [
    | inl yes_ ↦
        range_users-next (collect test) key u users out (out ++ (u.chat_id ∷ [])) (rw yes_ refl)
        ∙ range-collect test users (out ++ (u.chat_id ∷ []))
        ∙ append_assoc out (u.chat_id ∷ []) (chats_of test users)
        ∙ rw yes_ refl
    | inr no_ ↦
        range_users-next (collect test) key u users out out (rw no_ refl)
        ∙ range-collect test users out
        ∙ rw no_ refl
  ]

module _ {D : Type 0} ⦃dec : Decimal D⦄ where
  -- What a job that passes the check against the market holds.
  pub record IsRenewed (f : ArbitrageSignal D → Option (ArbitrageSignal D)) (nr : Router D)
      (users : UserManager D) (clock now : Time) (job job' : NotificationJob D) : Type 0 where
    pub current : ArbitrageSignal D
    pub revalidated : f job.signal ≡ some current
    pub above_floor : below_floor nr.config current ≡ false
    pub recipients :
        job'.chat_ids
        ≡ chats_of
            (λ u. chosen job.chat_ids u.chat_id && is_eligible nr.volume clock now current u)
            users
    pub key_same : job'.key ≡ job.key
    pub signal_same : job'.signal ≡ job.signal

  renew-IsRenewed :
      (f : ArbitrageSignal D → Option (ArbitrageSignal D)) (nr : Router D) (users : UserManager D)
      (clock now : Time) (job job' : NotificationJob D)
      → nr.users ≡ some users
      → renew nr clock now job (f job.signal) ≡ some job'
      → IsRenewed f nr users clock now job job'
  unfolding renew current_eligible_chat_ids
  renew-IsRenewed f nr users clock now job job' e h = elim (Option-cases (f job.signal)) [
    | inl gone ↦ cc (sym h ∙ ap (renew nr clock now job) gone)
    | inr (current, found) ↦
        let chats = current_eligible_chat_ids nr.users nr.volume clock current job.chat_ids now in
        let h' = sym (ap (renew nr clock now job) found) ∙ h in
        elim (Bool-cases (below_floor nr.config current)) [
          | inl low ↦ cc (rw low at h')
          | inr high ↦ elim (Bool-cases (has_chats chats)) [
            | inr nobody ↦ cc (rw (high, nobody) at h')
            | inl some_ ↦
                let same = some-injective _ job' (rw (high, some_) at h') in
                record {
                  current = current;
                  revalidated = found;
                  above_floor = high;
                  recipients =
                      sym (ap (λ j. j.chat_ids) same)
                      ∙ ap
                          (λ us.
                            current_eligible_chat_ids us nr.volume clock current job.chat_ids now)
                          e
                      ∙ range-collect _ users [];
                  key_same = sym (ap (λ j. j.key) same);
                  signal_same = sym (ap (λ j. j.signal) same);
                }
          ]
        ]
  ]

  -- A job that has to be checked and passes the check is not invalidated; the revalidator knows its
  -- signal, whose spread is not below the configured floor, and the chats that stay are exactly
  -- those among the job's own whose users pass the filters for the signal as it is now, in the
  -- order of the users. The key and the signal of the job stay. The router has users and a
  -- revalidator.
  pub prepare_sound :
      (f : ArbitrageSignal D → Option (ArbitrageSignal D)) (nr : Router D) (users : UserManager D)
      (clock now : Time) (job job' : NotificationJob D)
      → nr.users ≡ some users
      → job.revalidate ≡ true
      → prepare (some f) nr clock now job ≡ some job'
      → (is_invalid nr job ≡ false) × IsRenewed f nr users clock now job job'
  unfolding prepare
  prepare_sound f nr users clock now job job' e again h = elim (Bool-cases (is_invalid nr job)) [
    | inl bad ↦ cc (rw bad at h)
    | inr good ↦ (
      good,
      renew-IsRenewed f nr users clock now job job' e (
          ap (λ b. if b then renew nr clock now job (f job.signal) else some job) (sym again)
          ∙ ap
              (λ b.
                if b
                then none
                else if job.revalidate
                then renew nr clock now job (f job.signal)
                else some job)
              (sym good)
          ∙ h),
    )
  ]
