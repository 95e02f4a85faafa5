-- ===== src/Delivery/Settled.antt =====
-- What is left of a signal in the router once tracker.go closed it.
use crypto_screener.Base.{
  ℕ, Bool, true, false, not, ◌||◌, List, [], ◌∷◌, ◌++◌, Option, none, some, if◌then◌else◌, keep_if,
  ◌≡◌, refl, sym, ◌∙◌, ap, inl, inr, Bool-cases, All,
}
use crypto_screener.Base.Eq.{text_eq, nat_eq, ◌==◌, ==_refl}
use crypto_screener.Base.Map.{lookup, insert, has_key, lookup-insert, lookup-delete}
use crypto_screener.Base.Text.{Text, is_empty, has_suffix, has_prefix, rev_onto, rev_onto-append}
use crypto_screener.Base.Time.{Time}
use crypto_screener.Decimal.{Decimal}
use crypto_screener.Domain.Signal.{ArbitrageSignal}
use crypto_screener.Domain.User.{UserManager}
use crypto_screener.Router.{
  Router, NotificationJob, update_kind, close_kind, has_chats, enqueue, invalidate_signal,
  drop_pending, clear_signal_updates,
}
use crypto_screener.Router.Notify.{process_signal, tell, with_users, close_job}
use crypto_screener.Router.Send.{is_close}
use crypto_screener.Router.Overwrite.{is_empty-append}
use crypto_screener.Router.Invalidated.{update-not-close}
use crypto_screener.Delivery.{settle_closed}

close-is-close : (id : Text) → is_close (id ++ close_kind) ≡ true
unfolding has_suffix has_prefix rev_onto
close-is-close id = rw (rev_onto-append id close_kind []) refl

kinds_differ : (id : Text) → (id ++ close_kind == id ++ update_kind) ≡ false
kinds_differ id = elim (Bool-cases (id ++ close_kind == id ++ update_kind)) [
  | inr no_ ↦ no_
  | inl same ↦
      let e = (text_eq.same_iff (id ++ close_kind) (id ++ update_kind)).0 same in
      cc (sym (close-is-close id) ∙ ap is_close e ∙ update-not-close id)
]

All-keep_if_self : {A : Type 0} (p : A → Bool) (xs : List A) → All (λ x. p x ≡ true) (keep_if p xs)
All-keep_if_self p [] = tt
All-keep_if_self p (x ∷ xs) = elim (Bool-cases (p x)) [
  | inl hit ↦ rw hit (hit, All-keep_if_self p xs)
  | inr miss ↦ rw miss (All-keep_if_self p xs)
]

module _ {D : Type 0} ⦃dec : Decimal D⦄ where
  branch_keeps :
      {E : Type 0} (P : Router D → Type 0) (b : Bool) (x y : Router D × E)
      → P x.0
      → P y.0
      → let r : Router D × E = if b then x else y in P r.0
  branch_keeps P true x y h k = h
  branch_keeps P false x y h k = k

  -- A property of routers that neither nothing nor the closing job breaks.
  tell_keeps :
      (P : Router D → Type 0) (nr : Router D) (job : NotificationJob D)
      → P nr
      → P (record nr { pending = insert job.key job nr.pending })
      → P (tell nr job).0
  unfolding enqueue
  tell_keeps P nr job h k =
      let stored = record nr { pending = insert job.key job nr.pending } in
      let rest : Router D × Bool = if nr.closed then (nr, false) else (stored, true) in
      branch_keeps P (has_chats job.chat_ids) ((enqueue nr job).0, job.chat_ids) (nr, [])
        (branch_keeps P (is_empty job.key || not (has_chats job.chat_ids)) (nr, false) rest h
          (branch_keeps P nr.closed (nr, false) (stored, true) h k))
        h

  with_users_keeps :
      (P : Router D → Type 0) (nr : Router D) (users : Option (UserManager D))
      (act : UserManager D → Router D × List ℕ)
      → P nr
      → ((us : UserManager D) → P (act us).0)
      → P (with_users nr users act).0
  with_users_keeps P nr none act h k = h
  with_users_keeps P nr (some users) act h k =
      branch_keeps P nr.closed (nr, []) (act users) h (k users)

  -- No update of the signal waits or is remembered, and no more will be sent.
  pub record IsSettled (id : Text) (nr : Router D) : Type 0 where
    pub invalidated : has_key id nr.invalidated ≡ true
    pub no_update : lookup (id ++ update_kind) nr.pending ≡ none
    pub forgotten : All (λ e. not (e.0.0 == id) ≡ true) nr.last_update

  abbrev Quiet : Text → Router D → Type 0
  Quiet id nr = (has_key id nr.invalidated ≡ true) × (lookup (id ++ update_kind) nr.pending ≡ none)

  silenced-Quiet :
      (nr : Router D) (id : Text)
      → is_empty id ≡ false
      → Quiet id (drop_pending (invalidate_signal nr id) (id ++ update_kind))
  unfolding drop_pending invalidate_signal
  silenced-Quiet nr id named =
      rw (named, is_empty-append id _ _)
        (
          rw (lookup-insert id id true nr.invalidated, ==_refl {A = Text} id) refl,
          rw
              (
                lookup-delete (id ++ update_kind) (id ++ update_kind) nr.pending,
                ==_refl {A = Text} (id ++ update_kind),
              )
              refl,
        )

  close-Quiet :
      (nr : Router D) (clock now : Time) (s : ArbitrageSignal D)
      → Quiet s.id nr
      → Quiet s.id (process_signal nr clock now s false).0
  unfolding process_signal
  close-Quiet nr clock now s (invalid, quiet) =
      with_users_keeps (Quiet s.id) nr nr.users _ (invalid, quiet)
        (λ users.
          tell_keeps (Quiet s.id) nr (close_job s s.notified_chat_ids) (invalid, quiet)
            (
              invalid,
              rw
                  (
                    lookup-insert (s.id ++ close_kind) (s.id ++ update_kind)
                        (close_job s s.notified_chat_ids) nr.pending,
                    kinds_differ s.id,
                  )
                  quiet,
            ))

  clear-IsSettled :
      (nr : Router D) (id : Text)
      → is_empty id ≡ false
      → Quiet id nr
      → IsSettled id (clear_signal_updates nr id)
  unfolding clear_signal_updates
  clear-IsSettled nr id named (invalid, quiet) = rw named (record {
    invalidated = invalid;
    no_update = quiet;
    forgotten = All-keep_if_self (λ e. not (e.0.0 == id)) nr.last_update;
  })

  pub settle_closed-IsSettled :
      (nr : Router D) (clock now : Time) (s : ArbitrageSignal D)
      → is_empty s.id ≡ false
      → IsSettled s.id (settle_closed nr clock now s)
  unfolding settle_closed
  settle_closed-IsSettled nr clock now s named = clear-IsSettled _ s.id named (
      close-Quiet (drop_pending (invalidate_signal nr s.id) (s.id ++ update_kind)) clock now s
        (silenced-Quiet nr s.id named))
