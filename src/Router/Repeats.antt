-- ===== src/Router/Repeats.antt =====
-- The thresholds that ProcessSignalUpdate of notification_router.go remembers, before and after an
-- update.
use crypto_screener.Base.{
  ℕ, true, false, List, [], ◌∷◌, ◌++◌, Option, some, ltb, if◌then◌else◌, ◌≡◌, refl, sym, ◌∙◌, ap,
  arith, inl, inr, Bool-cases, All, subst,
}
use crypto_screener.Base.Eq.{text_eq, nat_eq, pair_eq, ◌==◌, ==_refl}
use crypto_screener.Base.Map.{Map, lookup, insert, lookup-insert}
use crypto_screener.Base.Time.{Time}
use crypto_screener.Decimal.{Decimal, less_than_or_equal, Le, Le_refl, Le_trans, below_asym}
use crypto_screener.Domain.Signal.{ArbitrageSignal}
use crypto_screener.Domain.User.{User, UserManager, range_users, range_users-next}
use crypto_screener.Volume.{VolumeEngine}
use crypto_screener.Router.{Router, NotificationJob, UpdateKey, enqueue}
use crypto_screener.Router.Notify.{
  crosses, visit_update, visit_updates, threshold_of, steps_of, wants_update, last_of, or_zero,
  process_signal_update, process_signal_update-active, announce, tell, tell-targets, update_job,
}

module _ {D : Type 0} ⦃dec : Decimal D⦄ where
  -- No announced threshold falls.
  abbrev pub Grow : Map UpdateKey D → Map UpdateKey D → Type 0
  Grow last last' = (k : UpdateKey) → Le (or_zero (lookup k last)) (or_zero (lookup k last'))

  Grow-trans : (a b c : Map UpdateKey D) → Grow a b → Grow b c → Grow a c
  Grow-trans a b c h h' k = Le_trans _ (or_zero (lookup k b)) _ (h k) (h' k)

  insert-Grow :
      (key : UpdateKey) (v : D) (last : Map UpdateKey D)
      → less_than_or_equal v (or_zero (lookup key last)) ≡ false
      → Grow last (insert key v last)
  insert-Grow key v last h k = elim (Bool-cases (key == k)) [
    | inl hit ↦
        let e = (pair_eq.same_iff key k).0 hit in
        rw (lookup-insert key k v last, hit)
          (subst (λ x. Le (or_zero (lookup x last)) v) e
            (below_asym (or_zero (lookup key last)) v (ground arith)))
    | inr miss ↦ rw (lookup-insert key k v last, miss) (Le_refl (or_zero (lookup k last)))
  ]

  module _ (volume : Option (VolumeEngine D)) (clock now : Time) (s : ArbitrageSignal D) where
    abbrev Settled : Map UpdateKey D → User D → Type 0
    Settled last u = crosses volume clock now s u last ≡ false

    Settled-Grow :
        (last last' : Map UpdateKey D) (u : User D)
        → Grow last last'
        → Settled last u
        → Settled last' u
    unfolding crosses
    Settled-Grow last last' u g h = elim (Bool-cases (wants_update volume clock now s u)) [
      | inr no_ ↦ rw no_ refl
      | inl yes_ ↦ elim (Bool-cases (ltb (steps_of s u) 1)) [
        | inl few ↦ rw (yes_, few) refl
        | inr many ↦
            let h' = rw (yes_, many) at h in
            rw (yes_, many)
              (ground (
                arith,
                Le_trans (threshold_of s u) (last_of last s u) (last_of last' s u),
                g (s.id, u.chat_id),
              ))
      ]
    ]

    -- One user: afterwards the user is settled, and no threshold fell.
    next_last : User D → Map UpdateKey D → Map UpdateKey D
    unfolding crosses
    next_last u last =
        if crosses volume clock now s u last
        then insert (s.id, u.chat_id) (threshold_of s u) last
        else last

    over_last :
        (u : User D) (last : Map UpdateKey D)
        → crosses volume clock now s u last ≡ true
        → less_than_or_equal (threshold_of s u) (last_of last s u) ≡ false
    unfolding crosses
    over_last u last h = elim (Bool-cases (wants_update volume clock now s u)) [
      | inr no_ ↦ cc (rw no_ at h)
      | inl yes_ ↦ elim (Bool-cases (ltb (steps_of s u) 1)) [
        | inl few ↦ cc (rw (yes_, few) at h)
        | inr many ↦ let h' = rw (yes_, many) at h in ground arith
      ]
    ]

    next_last-Grow : (u : User D) (last : Map UpdateKey D) → Grow last (next_last u last)
    unfolding next_last
    next_last-Grow u last = elim (Bool-cases (crosses volume clock now s u last)) [
      | inl hit ↦
          rw hit (insert-Grow (s.id, u.chat_id) (threshold_of s u) last (over_last u last hit))
      | inr miss ↦ rw miss (λ k. Le_refl (or_zero (lookup k last)))
    ]

    announced-Settled :
        (u : User D) (last : Map UpdateKey D)
        → Settled (insert (s.id, u.chat_id) (threshold_of s u) last) u
    unfolding crosses
    announced-Settled u last = elim (Bool-cases (wants_update volume clock now s u)) [
      | inr no_ ↦ rw no_ refl
      | inl yes_ ↦ elim (Bool-cases (ltb (steps_of s u) 1)) [
        | inl few ↦ rw (yes_, few) refl
        | inr many ↦
            rw
              (
                yes_,
                many,
                lookup-insert (s.id, u.chat_id) (s.id, u.chat_id) (threshold_of s u) last,
                ==_refl {A = UpdateKey} (s.id, u.chat_id),
              )
              (ground (arith, Le_refl (threshold_of s u)))
      ]
    ]

    next_last-Settled : (u : User D) (last : Map UpdateKey D) → Settled (next_last u last) u
    unfolding next_last
    next_last-Settled u last = elim (Bool-cases (crosses volume clock now s u last)) [
      | inl hit ↦ rw hit (announced-Settled u last)
      | inr miss ↦ rw (miss, miss) refl
    ]

    step_of :
        (u : User D) (last : Map UpdateKey D) (ts : List ℕ)
        → (ts' : List ℕ) × (visit_update volume clock now s u (last, ts)
            ≡ ((next_last u last, ts'), true))
    unfolding visit_update next_last
    step_of u last ts = elim (Bool-cases (crosses volume clock now s u last)) [
      | inl hit ↦ (ts ++ (u.chat_id ∷ []), rw hit refl)
      | inr miss ↦ (ts, rw miss refl)
    ]

    visited :
        (users : UserManager D) (last : Map UpdateKey D) (ts : List ℕ)
        → let last' = (range_users (visit_update volume clock now s) users (last, ts)).0 in
          Grow last last' × All (λ e. Settled last' e.1) users
    unfolding range_users
    visited [] last ts = (λ k. Le_refl (or_zero (lookup k last)), tt)
    visited ((key, u) ∷ users) last ts =
        let (ts', e) = step_of u last ts in
        let (grow, settled) = visited users (next_last u last) ts' in
        let same =
          range_users-next (visit_update volume clock now s) key u users (last, ts)
            (next_last u last, ts') e in
        subst (λ r. Grow last r.0 × All (λ x. Settled r.0 x.1) ((key, u) ∷ users)) (sym same)
          (
            Grow-trans last (next_last u last) _ (next_last-Grow u last) grow,
            (Settled-Grow (next_last u last) _ u grow (next_last-Settled u last), settled),
          )

    quiet_visit :
        (u : User D) (last : Map UpdateKey D) (ts : List ℕ)
        → Settled last u
        → visit_update volume clock now s u (last, ts) ≡ ((last, ts), true)
    unfolding visit_update
    quiet_visit u last ts h = rw h refl

    quiet_visits :
        (users : UserManager D) (last : Map UpdateKey D) (ts : List ℕ)
        → All (λ e. Settled last e.1) users
        → range_users (visit_update volume clock now s) users (last, ts) ≡ (last, ts)
    unfolding range_users
    quiet_visits [] last ts h = refl
    quiet_visits ((key, u) ∷ users) last ts (h, hs) =
        range_users-next (visit_update volume clock now s) key u users (last, ts) (last, ts)
          (quiet_visit u last ts h)
        ∙ quiet_visits users last ts hs

    pub visit_again :
        (users : UserManager D) (last : Map UpdateKey D)
        → let last' = (visit_updates volume clock now s users last).0 in
          Grow last last' × (visit_updates volume clock now s users last' ≡ (last', []))
    unfolding visit_updates
    visit_again users last =
        let (grow, settled) = visited users last [] in (grow, quiet_visits users _ [] settled)

  -- Enqueueing a job touches the queue only.
  pub record IsSameBut (a b : Router D) : Type 0 where
    pub users : a.users ≡ b.users
    pub volume : a.volume ≡ b.volume
    pub closed : a.closed ≡ b.closed
    pub last_update : a.last_update ≡ b.last_update

  pub tell-IsSameBut : (nr : Router D) (job : NotificationJob D) → IsSameBut (tell nr job).0 nr
  unfolding enqueue
  tell-IsSameBut nr job = record {
    users = ground arith;
    volume = ground arith;
    closed = ground arith;
    last_update = ground arith;
  }

  announced :
      (nr : Router D) (clock now : Time) (s : ArbitrageSignal D) (users : UserManager D)
      → nr.users ≡ some users
      → nr.closed ≡ false
      → s.is_active ≡ true
      → let r = announce users nr clock now s in
        Grow nr.last_update r.0.last_update × ((process_signal_update r.0 clock now s).1 ≡ [])
  announced nr clock now s users e o active =
      let seen = visit_updates nr.volume clock now s users nr.last_update in
      let nr' = (announce users nr clock now s).0 in
      let job = update_job s now seen.1 in
      let same = tell-IsSameBut (record nr { last_update = seen.0 }) job in
      let (grow, again) = visit_again nr.volume clock now s users nr.last_update in
      (
        subst (Grow nr.last_update) (sym same.last_update) grow,
        ap (λ r. r.1)
              (process_signal_update-active nr' clock now s users (same.users ∙ e) (same.closed ∙ o)
                active)
            ∙ tell-targets _
                (update_job s now (visit_updates nr'.volume clock now s users nr'.last_update).1)
            ∙ ap (λ v. (visit_updates v clock now s users nr'.last_update).1) same.volume
            ∙ ap (λ l. (visit_updates nr.volume clock now s users l).1) same.last_update
            ∙ ap (λ r. r.1) again,
      )

  -- An update never lowers a threshold that was announced to a chat, and the same update a second
  -- time tells nobody, with the same clocks. The router has users and is not closed, and the signal
  -- is active.
  pub update_repeats :
      (nr : Router D) (clock now : Time) (s : ArbitrageSignal D) (users : UserManager D)
      → nr.users ≡ some users
      → nr.closed ≡ false
      → s.is_active ≡ true
      → let r = process_signal_update nr clock now s in
        Grow nr.last_update r.0.last_update × ((process_signal_update r.0 clock now s).1 ≡ [])
  update_repeats nr clock now s users e o active =
      let first = process_signal_update-active nr clock now s users e o active in
      subst
        (λ r.
          Grow nr.last_update r.0.last_update × ((process_signal_update r.0 clock now s).1 ≡ []))
        (sym first) (announced nr clock now s users e o active)
