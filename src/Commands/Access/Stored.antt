-- ===== src/Commands/Access/Stored.antt =====
-- The users in memory and what the repository was asked to store, for HandleCommand and
-- persistUser, deleteUser of internal/app/app.go.
use crypto_screener.Base.{refl, Bool, true, false, ℕ, List, [], ◌∷◌, Option, ◌≡◌, sym, ◌∙◌, ap}
use crypto_screener.Base.Eq.{nat_eq}
use crypto_screener.Base.Map.{Map, insert, delete}
use crypto_screener.Base.Text.{Text}
use crypto_screener.Decimal.{Decimal}
use crypto_screener.Domain.User.{User, set_user, remove_user}
use crypto_screener.Commands.{
  Application, Outcomes, RepoCall, user_saved, user_deleted, setting_saved,
}
use crypto_screener.Commands.Handle.{Request, handle_command}
use crypto_screener.Commands.Steps.{
  Step, stay, entered, left, floored, priced, plugged, unplugged, logged,
}
use crypto_screener.Commands.Steps.Whole.{handle_command-Step}

-- A table of users by chat id, after the calls that the repository carried out on it.
abbrev pub apply_call : {D : Type 0} → RepoCall D → Map ℕ (User D) → Map ℕ (User D)
apply_call (user_saved u) table = insert u.chat_id u table
apply_call (user_deleted chat) table = delete chat table
apply_call (setting_saved key value) table = table

abbrev pub replay : {D : Type 0} → Map ℕ (User D) → List (RepoCall D) → Map ℕ (User D)
replay table [] = table
replay table (c ∷ calls) = apply_call c (replay table calls)

module _ {D : Type 0} ⦃dec : Decimal D⦄ (parse : Text → Option D) (print : D → Text) where
  -- Any number of commands, of any chats, with any outcomes, and any changes of the administrators
  -- between them, each command handled before the next one begins. The workers of a bot may also
  -- overlap, which Commands.Interleaved is about.
  pub data Session (a : Application D) : Application D → Type 0 where
    begin : Session a a
    command :
        {b : Application D} (o : Outcomes D) (cmd : Text) (q : Request)
        → Session a b
        → Session a (handle_command parse print o cmd q b).0
    admins :
        {b : Application D} (ids : List ℕ) → Session a b → Session a (record b { admin_ids = ids })

  abbrev pub IsStored : Map ℕ (User D) → Application D → Type 0
  IsStored table a = a.user_mgr ≡ replay table a.calls

  logged-same :
      (b : Bool) (key value : Text) (table : Map ℕ (User D)) (old : List (RepoCall D))
      → replay table (logged b key value old) ≡ replay table old
  logged-same true key value table old = refl
  logged-same false key value table old = refl

  Step-IsStored :
      {o : Outcomes D} {chat : ℕ} {a b : Application D} (table : Map ℕ (User D))
      → Step print o chat a b
      → IsStored table a
      → IsStored table b
  unfolding set_user remove_user
  Step-IsStored table (stay e) h = rw e h
  Step-IsStored table (entered u ed saved e) h = rw e (ap (insert u.chat_id u) h)
  Step-IsStored {chat = chat} table (left saved e) h = rw e (ap (delete chat) h)
  Step-IsStored {a = a} table (floored v adm high e) h =
      rw e (h ∙ sym (logged-same _ _ _ table a.calls))
  Step-IsStored {a = a} table (priced parsed adm entries e) h =
      rw e (h ∙ sym (logged-same _ _ _ table a.calls))
  Step-IsStored table (plugged name in_time adm e) h = rw e h
  Step-IsStored table (unplugged name in_time adm e) h = rw e h

  -- After any commands of any chats, each handled before the next one begins, the users in memory
  -- are exactly what the calls of the repository that succeeded make of the table, if they were so
  -- before: no failed save or deletion shows in memory, and none that succeeded is missing.
  -- Commands that overlap are left out.
  pub session-IsStored :
      {a b : Application D} (table : Map ℕ (User D))
      → Session a b
      → IsStored table a
      → IsStored table b
  session-IsStored table begin h = h
  session-IsStored table (command {b = b} o cmd q s) h =
      Step-IsStored table (handle_command-Step parse print o q b cmd) (session-IsStored table s h)
  session-IsStored table (admins ids s) h = session-IsStored table s h
