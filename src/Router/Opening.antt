-- ===== src/Router/Opening.antt =====
-- ProcessSignal of notification_router.go for a signal that opens: whom it tells, and the job that
-- it leaves in the queue.
use crypto_screener.Base.{
  ℕ, ◌+◌, ◌*◌, ◌≤◌, Bool, true, false, List, [], ◌∷◌, ◌++◌, Option, some, ◌≡◌, ◌≢◌, ◌⊎◌, refl, sym,
  ◌∙◌, inl, inr, arith, Bool-cases, subst,
}
use crypto_screener.Base.Eq.{text_eq, nat_eq}
use crypto_screener.Base.Map.{insert}
use crypto_screener.Base.Text.{Text, is_empty}
use crypto_screener.Base.Time.{Time, minute}
use crypto_screener.Decimal.{Decimal, Le}
use crypto_screener.Domain.Market.{market_type_futures}
use crypto_screener.Domain.Signal.{ArbitrageSignal}
use crypto_screener.Domain.User.{User, UserManager}
use crypto_screener.Volume.{VolumeEngine}
use crypto_screener.Router.{Router, open_kind, enqueue}
use crypto_screener.Router.Audience.{
  is_eligible, funding_allowed, min_funding_time, signal_volume, eligible_chats,
}
use crypto_screener.Router.Notify.{
  process_signal, open_job, tell, tell-targets, with_users-open, notify_users,
}
use crypto_screener.Router.Recipients.{chats_of, range-collect}

open_key : (id : Text) → is_empty (id ++ open_kind) ≡ false
open_key [] = refl
open_key (c ∷ id) = refl

module _ {D : Type 0} where
  -- The next funding of a leg, if it is known, leaves the user's minutes from now.
  abbrev LeavesTime : User D → Time → Time → Type 0
  LeavesTime u now next = (next ≡ 0) ⊎ (now + u.min_funding_minutes * minute ≤ next)

  -- A route without futures, or one of whose legs some next funding is known and none is too near.
  abbrev pub FitsFunding : ArbitrageSignal D → User D → Time → Type 0
  FitsFunding s u now =
      ((s.buy_market ≢ market_type_futures) × (s.sell_market ≢ market_type_futures))
      ⊎ (((s.buy_next_funding ≢ 0) ⊎ (s.sell_next_funding ≢ 0))
          × (LeavesTime u now s.buy_next_funding × LeavesTime u now s.sell_next_funding))

  allowed-FitsFunding :
      (s : ArbitrageSignal D) (u : User D) (now : Time)
      → funding_allowed s u now ≡ true
      → FitsFunding s u now
  unfolding funding_allowed min_funding_time
  allowed-FitsFunding s u now h = ground (
    arith,
    text_eq.same_iff s.buy_market market_type_futures,
    text_eq.same_iff s.sell_market market_type_futures,
  )

  FitsFunding-allowed :
      (s : ArbitrageSignal D) (u : User D) (now : Time)
      → FitsFunding s u now
      → funding_allowed s u now ≡ true
  unfolding funding_allowed min_funding_time
  FitsFunding-allowed s u now h = ground (
    arith,
    text_eq.same_iff s.buy_market market_type_futures,
    text_eq.same_iff s.sell_market market_type_futures,
  )

  -- The chats of exactly those users of whom it holds, in the order of the map.
  pub data Chosen (P : User D → Type 0) : UserManager D → List ℕ → Type 0 where
    nobody : Chosen P [] []
    told :
        {key : ℕ} {u : User D} {users : UserManager D} {ids : List ℕ}
        → P u
        → Chosen P users ids
        → Chosen P ((key, u) ∷ users) (u.chat_id ∷ ids)
    passed_over :
        {key : ℕ} {u : User D} {users : UserManager D} {ids : List ℕ}
        → ¬ P u
        → Chosen P users ids
        → Chosen P ((key, u) ∷ users) ids

  chats_of-Chosen :
      (P : User D → Type 0) (test : User D → Bool)
      → ((u : User D) → test u ≡ true → P u)
      → ((u : User D) → P u → test u ≡ true)
      → (users : UserManager D) → Chosen P users (chats_of test users)
  chats_of-Chosen P test to from [] = nobody
  chats_of-Chosen P test to from ((key, u) ∷ users) = elim (Bool-cases (test u)) [
    | inl in_ ↦ rw in_ (told (to u in_) (chats_of-Chosen P test to from users))
    | inr out ↦
        rw out (passed_over (λ p. cc (from u p, out)) (chats_of-Chosen P test to from users))
  ]

module _ {D : Type 0} ⦃dec : Decimal D⦄ where
  -- A user whom the opening of a signal concerns.
  abbrev pub IsWanted : Option (VolumeEngine D) → Time → Time → ArbitrageSignal D → User D → Type 0
  IsWanted volume clock now s u =
      Le u.min_spread s.peak_spread
      × (FitsFunding s u now × Le u.min_volume (signal_volume volume clock s u))

  eligible-IsWanted :
      (volume : Option (VolumeEngine D)) (clock now : Time) (s : ArbitrageSignal D) (u : User D)
      → is_eligible volume clock now s u ≡ true
      → IsWanted volume clock now s u
  unfolding is_eligible
  eligible-IsWanted volume clock now s u h =
      (ground arith, (allowed-FitsFunding s u now (ground arith), ground arith))

  IsWanted-eligible :
      (volume : Option (VolumeEngine D)) (clock now : Time) (s : ArbitrageSignal D) (u : User D)
      → IsWanted volume clock now s u
      → is_eligible volume clock now s u ≡ true
  unfolding is_eligible
  IsWanted-eligible volume clock now s u (spread, (funding, volume_)) =
      ground (arith, FitsFunding-allowed s u now funding)

  -- The router holds the job for these chats in the place of any with its key, and nothing else of
  -- it has changed; without chats it is as before.
  abbrev pub IsQueued : Router D → ArbitrageSignal D → Router D → List ℕ → Type 0
  IsQueued nr s nr' [] = nr' ≡ nr
  IsQueued nr s nr' (id ∷ ids) =
      nr' ≡ record nr { pending = insert (s.id ++ open_kind) (open_job s (id ∷ ids)) nr.pending }

  tell-IsQueued :
      (nr : Router D) (s : ArbitrageSignal D) (ids : List ℕ)
      → nr.closed ≡ false
      → let r = tell nr (open_job s ids) in IsQueued nr s r.0 r.1
  unfolding enqueue insert
  tell-IsQueued nr s [] o = refl
  tell-IsQueued nr s (id ∷ ids) o = rw (enqueue, open_key s.id, o) refl

  -- The opening of a signal is announced to the chats of exactly those users whose spread and
  -- volume it reaches, and to whom its funding times leave their minutes or whose route has no
  -- futures, in the order of the users. The queue then holds the job with these chats under the key
  -- of the opening, and nothing else of the router changes; if there are none, the router is as
  -- before. The router has users and is not closed.
  pub process_signal_targets :
      (nr : Router D) (clock now : Time) (s : ArbitrageSignal D) (users : UserManager D)
      → nr.users ≡ some users
      → nr.closed ≡ false
      → let r = process_signal nr clock now s true in
        Chosen (IsWanted nr.volume clock now s) users r.1 × IsQueued nr s r.0 r.1
  unfolding process_signal eligible_chats
  process_signal_targets nr clock now s users e o =
      let opened = with_users-open nr users (λ us. notify_users us nr clock now s true) e o in
      let test = is_eligible nr.volume clock now s in
      let told_ : eligible_chats nr.volume clock now s users ≡ chats_of test users =
        range-collect test users [] in
      rw opened (
        subst (Chosen (IsWanted nr.volume clock now s) users)
            (sym
              (tell-targets nr (open_job s (eligible_chats nr.volume clock now s users)) ∙ told_))
            (chats_of-Chosen _ test (eligible-IsWanted nr.volume clock now s)
              (IsWanted-eligible nr.volume clock now s) users),
        tell-IsQueued nr s (eligible_chats nr.volume clock now s users) o,
      )
