-- ===== src/Commands/Sound/Kept.antt =====
-- HandleCommand of internal/app/app.go keeps the state of the application sound.
use crypto_screener.Base.{
  ℕ, [], ◌∷◌, Option, some, ◌≡◌, refl, sym, subst, inl, inr, All, Option-cases, ◌∙◌, arith,
}
use crypto_screener.Base.Eq.{nat_eq, text_eq}
use crypto_screener.Base.Map.{Map, lookup, All-insert, All-delete, All-lookup}
use crypto_screener.Base.Text.{Text}
use crypto_screener.Decimal.{Decimal}
use crypto_screener.Domain.Config.{ScreenerConfig, set_fee}
use crypto_screener.Domain.Config.Thresholds.{IsValid, set_fee-IsValid}
use crypto_screener.Domain.User.{User, UserManager, get_user, set_user, remove_user}
use crypto_screener.Commands.{Application, Outcomes}
use crypto_screener.Commands.Admin.{set_each}
use crypto_screener.Commands.Handle.{Request, handle_command}
use crypto_screener.Commands.Sound.{
  IsUser, IsBounded, IsEntryOf, IsSound, OnSomeUser, IsEdited-IsUser, IsEdited-IsBounded,
}
use crypto_screener.Commands.Steps.{Step, stay, entered, left, floored, priced, plugged, unplugged}
use crypto_screener.Commands.Steps.Whole.{handle_command-Step}

module _ {D : Type 0} (P : User D → Type 0) where
  entry_of :
      (chat : ℕ) (um : UserManager D) → All (IsEntryOf P) um → OnSomeUser P (get_user chat um)
  unfolding get_user
  entry_of chat um h = elim (Option-cases (lookup chat um)) [
    | inl e ↦ rw e tt
    | inr (u, e) ↦ rw e (All-lookup (IsEntryOf P) chat um h e).1
  ]

  pub set_user-All :
      (u : User D) (um : UserManager D)
      → All (IsEntryOf P) um
      → P u
      → All (IsEntryOf P) (set_user (some u) um)
  unfolding set_user
  set_user-All u um h p = All-insert (IsEntryOf P) u.chat_id u um h (refl, p)

  remove_user-All :
      (chat : ℕ) (um : UserManager D)
      → All (IsEntryOf P) um
      → All (IsEntryOf P) (remove_user chat um)
  unfolding remove_user
  remove_user-All chat um h = All-delete (IsEntryOf P) chat um h

module _ {D : Type 0} ⦃dec : Decimal D⦄ where
  set_each-IsValid :
      (c : ScreenerConfig D) (parsed : Map Text D) → IsValid c → IsValid (set_each c parsed)
  unfolding set_each
  set_each-IsValid c [] h = h
  set_each-IsValid c (p ∷ parsed) h =
      set_each-IsValid (set_fee c p.0 p.1) parsed (set_fee-IsValid c p.0 p.1 h)

  set_fee_floor :
      (c : ScreenerConfig D) (name : Text) (v : D)
      → (set_fee c name v).hard_min_spread ≡ c.hard_min_spread
  unfolding set_fee
  set_fee_floor c name v = ground arith

  pub set_each_floor :
      (c : ScreenerConfig D) (parsed : Map Text D)
      → (set_each c parsed).hard_min_spread ≡ c.hard_min_spread
  unfolding set_each
  set_each_floor c [] = refl
  set_each_floor c (p ∷ parsed) =
      set_each_floor (set_fee c p.0 p.1) parsed ∙ set_fee_floor c p.0 p.1

  pub Step-IsSound :
      {print : D → Text} {o : Outcomes D} {chat : ℕ} {a b : Application D}
      → Step print o chat a b
      → IsSound a
      → IsSound b
  Step-IsSound {chat = chat} {a = a} (stay e) h = subst IsSound (sym e) h
  Step-IsSound {chat = chat} {a = a} (entered u ed saved e) h = subst IsSound (sym e) (record {
    subscribed =
        set_user-All IsUser u a.user_mgr h.subscribed
          (IsEdited-IsUser h.configured ed (entry_of IsUser chat a.user_mgr h.subscribed));
    configured = h.configured;
    agreed = h.agreed;
  })
  Step-IsSound {chat = chat} {a = a} (left saved e) h = subst IsSound (sym e) (record {
    subscribed = remove_user-All IsUser chat a.user_mgr h.subscribed;
    configured = h.configured;
    agreed = h.agreed;
  })
  Step-IsSound {chat = chat} {a = a} (floored v adm high e) h = subst IsSound (sym e) (record {
    subscribed = h.subscribed;
    configured = record { floored = high; priced = h.configured.priced };
    agreed = refl;
  })
  Step-IsSound {chat = chat} {a = a} (priced parsed adm entries e) h =
      subst IsSound (sym e) (record {
        subscribed = h.subscribed;
        configured = set_each-IsValid a.config parsed h.configured;
        agreed = rw (set_each_floor a.config parsed) h.agreed;
      })
  Step-IsSound {chat = chat} {a = a} (plugged name in_time adm e) h =
      subst IsSound (sym e)
        (record { subscribed = h.subscribed; configured = h.configured; agreed = h.agreed })
  Step-IsSound {chat = chat} {a = a} (unplugged name in_time adm e) h =
      subst IsSound (sym e)
        (record { subscribed = h.subscribed; configured = h.configured; agreed = h.agreed })

  -- Every command keeps the state sound: each subscriber is stored under the own chat id, with a
  pub handle_command-IsSound :
      (parse : Text → Option D) (print : D → Text) (o : Outcomes D) (cmd : Text) (q : Request)
      (a : Application D)
      → IsSound a
      → IsSound (handle_command parse print o cmd q a).0
  handle_command-IsSound parse print o cmd q a h =
      Step-IsSound (handle_command-Step parse print o q a cmd) h

  pub Step-IsBounded :
      {print : D → Text} {o : Outcomes D} {chat : ℕ} {a b : Application D}
      → Step print o chat a b
      → All (IsEntryOf IsBounded) a.user_mgr
      → All (IsEntryOf IsBounded) b.user_mgr
  Step-IsBounded (stay e) h = rw e h
  Step-IsBounded {chat = chat} {a = a} (entered u ed saved e) h = rw e (
      set_user-All IsBounded u a.user_mgr h
        (IsEdited-IsBounded ed (entry_of IsBounded chat a.user_mgr h)))
  Step-IsBounded {chat = chat} {a = a} (left saved e) h =
      rw e (remove_user-All IsBounded chat a.user_mgr h)
  Step-IsBounded (floored v adm high e) h = rw e h
  Step-IsBounded (priced parsed adm entries e) h = rw e h
  Step-IsBounded (plugged name in_time adm e) h = rw e h
  Step-IsBounded (unplugged name in_time adm e) h = rw e h
