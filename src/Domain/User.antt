-- ===== src/Domain/User.antt =====
-- internal/domain/user.go: the subscribers. A map of users by chat id, copied in and out; the
-- order of the list is the order in which Range visits them. The lock makes each operation one
-- step.
use crypto_screener.Base.{◌≡◌, ap, ℕ, Bool, true, false, List, [], ◌∷◌, Option, none, some, map}
use crypto_screener.Base.Eq.{nat_eq}
use crypto_screener.Base.Map.{Map, lookup, insert, delete}
use crypto_screener.Base.Text.{Text}

-- The constants of config.go, and any other text.
pub data Timeframe : Type 0 where
  tf_1m tf_5m tf_15m tf_30m tf_1h tf_4h tf_24h : Timeframe
  other : Text → Timeframe

abbrev pub is_24h : Timeframe → Bool
is_24h tf_24h = true
is_24h t = false

pub record User (D : Type 0) : Type 0 where
  pub chat_id : ℕ
  pub username : Text
  pub min_spread : D
  pub min_volume : D
  pub timeframe : Timeframe
  pub min_funding_minutes : ℕ
  pub update_step : D
  pub bot_id : ℕ

abbrev pub UserManager : Type 0 → Type 0
UserManager D = Map ℕ (User D)

module _ {D : Type 0} where
  unfoldable pub set_user : Option (User D) → UserManager D → UserManager D
  set_user none um = um
  set_user (some u) um = insert u.chat_id u um

  unfoldable pub remove_user : ℕ → UserManager D → UserManager D
  remove_user = delete

  unfoldable pub get_user : ℕ → UserManager D → Option (User D)
  get_user = lookup

  unfoldable pub has_users : UserManager D → Bool
  has_users [] = false
  has_users (u ∷ um) = true

  abbrev pub get_all_users : UserManager D → List (User D)
  get_all_users = map (λ p. p.1)

-- Range: visits users until the callback says false. The callback threads its own state.
unfoldable pub range_users {ℓ} :
    {S : Type ℓ} {D : Type 0} → (User D → S → S × Bool) → UserManager D → S → S
range_users fn [] s = s
range_users fn ((k, u) ∷ um) s =
    let (s', go_on) = fn u s in
    let rest = range_users fn um s' in elim go_on [ true ↦ rest | false ↦ s' ]

-- A callback that says true goes on.
pub range_users-next {ℓ} :
    {S : Type ℓ} {D : Type 0} (fn : User D → S → S × Bool) (k : ℕ) (u : User D) (um : UserManager D)
    (s t : S)
    → fn u s ≡ (t, true)
    → range_users fn ((k, u) ∷ um) s ≡ range_users fn um t
unfolding range_users
range_users-next fn k u um s t e =
    ap (λ r. elim r.1 [ true ↦ range_users fn um r.0 | false ↦ r.0 ]) e
