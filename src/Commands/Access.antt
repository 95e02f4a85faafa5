-- ===== src/Commands/Access.antt =====
-- What the commands of one chat can reach: HandleCommand of internal/app/app.go for a chat that is
-- not an administrator's, the store of the repositories, and calls of them that fail.
pub mod Stored
use crypto_screener.Base.{
  ℕ, Bool, true, false, List, [], ◌∷◌, Option, none, some, ◌≡◌, ◌≢◌, refl, sym, subst, inl, inr,
  All, Option-cases, ◌∙◌, ap, arith, if◌then◌else◌,
}
use crypto_screener.Base.Eq.{nat_eq, ◌==◌}
use crypto_screener.Base.Map.{Map, lookup, lookup-insert, lookup-delete, All-lookup}
use crypto_screener.Base.Text.{Text}
use crypto_screener.Decimal.{Decimal}
use crypto_screener.Domain.User.{User, UserManager, get_user, set_user, remove_user}
use crypto_screener.Commands.{Application, Outcomes, RepoCall, is_admin}
use crypto_screener.Commands.Handle.{Request, handle_command}
use crypto_screener.Commands.Sound.{IsEntryOf, OnSomeUser, IsEdited-keyed}
use crypto_screener.Commands.Steps.{
  IsEdited, Step, stay, entered, left, floored, priced, plugged, unplugged,
}
use crypto_screener.Commands.Steps.Whole.{handle_command-Step}

-- The parts that belong to the administrators are as they were, and so are the others' entries.
pub record IsConfined {D : Type 0} (chat : ℕ) (a b : Application D) : Type 0 where
  pub same_config : b.config ≡ a.config
  pub same_funding : b.funding_mgr ≡ a.funding_mgr
  pub same_connectors : b.conn_manager ≡ a.conn_manager
  pub same_admins : b.admin_ids ≡ a.admin_ids
  pub same_others :
      (other : ℕ) → other ≢ chat → get_user other b.user_mgr ≡ get_user other a.user_mgr

module _ {D : Type 0} where
  abbrev pub IsKeyed : UserManager D → Type 0
  IsKeyed um = All (λ (p : ℕ × User D). p.1.chat_id ≡ p.0) um

  own_entry :
      (chat : ℕ) (um : UserManager D)
      → IsKeyed um
      → OnSomeUser (λ w. w.chat_id ≡ chat) (get_user chat um)
  unfolding get_user
  own_entry chat um h = elim (Option-cases (lookup chat um)) [
    | inl e ↦ rw e tt
    | inr (u, e) ↦ rw e (All-lookup (λ (p : ℕ × User D). p.1.chat_id ≡ p.0) chat um h e)
  ]

  set_user_other :
      (u : User D) (um : UserManager D) (other : ℕ)
      → other ≢ u.chat_id
      → get_user other (set_user (some u) um) ≡ get_user other um
  unfolding get_user set_user
  set_user_other u um other ne = ground (arith, lookup-insert u.chat_id other u um)

  remove_user_other :
      (chat : ℕ) (um : UserManager D) (other : ℕ)
      → other ≢ chat
      → get_user other (remove_user chat um) ≡ get_user other um
  unfolding get_user remove_user
  remove_user_other chat um other ne = ground (arith, lookup-delete chat other um)

module _ {D : Type 0} ⦃dec : Decimal D⦄ where
  Step-IsConfined :
      {print : D → Text} {o : Outcomes D} {chat : ℕ} {a b : Application D}
      → Step print o chat a b
      → is_admin a chat ≡ false
      → IsKeyed a.user_mgr
      → IsConfined chat a b
  Step-IsConfined {chat = chat} {a = a} (stay e) n k = subst (IsConfined chat a) (sym e) (record {
    same_config = refl;
    same_funding = refl;
    same_connectors = refl;
    same_admins = refl;
    same_others = λ other ne. refl;
  })
  Step-IsConfined {chat = chat} {a = a} (entered u ed saved e) n k =
      let own : u.chat_id ≡ chat = IsEdited-keyed ed (own_entry chat a.user_mgr k) in
      subst (IsConfined chat a) (sym e) (record {
        same_config = refl;
        same_funding = refl;
        same_connectors = refl;
        same_admins = refl;
        same_others = λ other ne. set_user_other u a.user_mgr other (λ q. ne (q ∙ own));
      })
  Step-IsConfined {chat = chat} {a = a} (left saved e) n k =
      subst (IsConfined chat a) (sym e) (record {
        same_config = refl;
        same_funding = refl;
        same_connectors = refl;
        same_admins = refl;
        same_others = λ other ne. remove_user_other chat a.user_mgr other ne;
      })
  Step-IsConfined (floored v adm high e) n k = cc (adm, n)
  Step-IsConfined (priced parsed adm entries e) n k = cc (adm, n)
  Step-IsConfined (plugged name in_time adm e) n k = cc (adm, n)
  Step-IsConfined (unplugged name in_time adm e) n k = cc (adm, n)

  -- A command of a chat that is not an administrator's leaves the configuration, the funding
  -- manager, the connectors, the administrators and the entries of all other chats as they were,
  -- whatever the command, its arguments and the outcomes of the calls. Each user is stored under
  -- the own chat id.
  pub handle_command-IsConfined :
      (parse : Text → Option D) (print : D → Text) (o : Outcomes D) (cmd : Text) (q : Request)
      (a : Application D)
      → is_admin a q.chat_id ≡ false
      → IsKeyed a.user_mgr
      → IsConfined q.chat_id a (handle_command parse print o cmd q a).0
  handle_command-IsConfined parse print o cmd q a n k =
      Step-IsConfined (handle_command-Step parse print o q a cmd) n k
