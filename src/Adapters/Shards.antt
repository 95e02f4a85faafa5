-- ===== src/Adapters/Shards.antt =====
-- shardArgsMax of internal/adapters/bybit/bybit.go, which cuts a list of subscriptions into the
-- messages that the exchange accepts.
use crypto_screener.Base.{
  ℕ, ◌+◌, ◌≤◌, ◌<◌, Bool, true, false, ◌&&◌, ◌||◌, List, [], ◌∷◌, ◌++◌, if◌then◌else◌, ltb, leb,
  eqb, length, ◌≡◌, refl, ap, ◌∙◌, sym, inl, inr, ◌⊎◌, All, arith, length-append,
}
use mathlib.Core.List.{append_assoc, append-nil}
use crypto_screener.Base.Text.{Text}

-- The quotes, the comma and the framing of an argument.
abbrev pub extra : Text → ℕ
extra arg = length arg + 3

abbrev pub limit_of : ℕ → ℕ
limit_of max_chars = if eqb max_chars 0 then 16000 else max_chars

abbrev is_full : ℕ → ℕ → List Text → ℕ → Text → Bool
is_full max_chars max_args current size arg =
    ltb 0 (length current)
    && (ltb max_chars (size + extra arg) || (ltb 0 max_args && leb max_args (length current)))

abbrev close_shard : List Text → List (List Text)
close_shard [] = []
close_shard (a ∷ as') = (a ∷ as') ∷ []

-- The loop, with the shard that is being filled and its size.
unfoldable pub shard_from : ℕ → ℕ → List Text → ℕ → List Text → List (List Text)
shard_from max_chars max_args current size [] = close_shard current
shard_from max_chars max_args current size (arg ∷ args) =
    let next = shard_from max_chars max_args (arg ∷ []) (extra arg) args in
    let rest = shard_from max_chars max_args (current ++ (arg ∷ [])) (size + extra arg) args in
    if is_full max_chars max_args current size arg then current ∷ next else rest

unfoldable pub shard_args_max : List Text → ℕ → ℕ → List (List Text)
unfolding shard_from
shard_args_max args max_chars max_args = shard_from (limit_of max_chars) max_args [] 0 args

abbrev pub total_extra : List Text → ℕ
total_extra [] = 0
total_extra (a ∷ as') = extra a + total_extra as'

abbrev pub joined : List (List Text) → List Text
joined [] = []
joined (s ∷ ss) = s ++ joined ss

-- A shard that the exchange accepts, or one argument alone, which cannot be cut.
abbrev pub IsAccepted : ℕ → ℕ → List Text → Type 0
IsAccepted max_chars max_args s =
    (0 < length s)
    × (((total_extra s ≤ max_chars) ⊎ (length s ≡ 1)) × ((max_args ≡ 0) ⊎ (length s ≤ max_args)))

joined-close_shard : (s : List Text) → joined (close_shard s) ≡ s
joined-close_shard [] = refl
joined-close_shard (a ∷ s) = append-nil (a ∷ s)

joined-if :
    (b : Bool) (all s : List Text) (x y : List (List Text))
    → joined x ≡ all
    → joined y ≡ all
    → joined (if b then x else y) ≡ all
joined-if true all s x y h k = h
joined-if false all s x y h k = k

module _ (max_chars max_args : ℕ) where
  joined-shard_from :
      (args current : List Text) (size : ℕ)
      → joined (shard_from max_chars max_args current size args) ≡ current ++ args
  unfolding shard_from
  joined-shard_from [] current size = joined-close_shard current ∙ sym (append-nil current)
  joined-shard_from (arg ∷ args) current size =
      joined-if (is_full max_chars max_args current size arg) (current ++ (arg ∷ args)) current _ _
        (ap (λ l. current ++ l) (joined-shard_from args (arg ∷ []) (extra arg)))
        (joined-shard_from args (current ++ (arg ∷ [])) (size + extra arg)
          ∙ append_assoc current (arg ∷ []) args)

  total_extra-append :
      (s : List Text) (arg : Text) → total_extra (s ++ (arg ∷ [])) ≡ total_extra s + extra arg
  total_extra-append [] arg = omega arith
  total_extra-append (a ∷ s) arg = omega (arith, total_extra-append s arg)

  -- The shard that is being filled.
  abbrev IsFilled : List Text → ℕ → Type 0
  IsFilled s size = (size ≡ total_extra s) × ((length s ≡ 0) ⊎ IsAccepted max_chars max_args s)

  alone : (arg : Text) → IsFilled (arg ∷ []) (extra arg)
  alone arg = (omega arith, inr (omega arith, (inr refl, ground arith)))

  grown :
      (s : List Text) (size : ℕ) (arg : Text)
      → is_full max_chars max_args s size arg ≡ false
      → IsFilled s size
      → IsFilled (s ++ (arg ∷ [])) (size + extra arg)
  grown s size arg room h = ground (arith, total_extra-append s arg, length-append s (arg ∷ []))

  IsAccepted-close_shard :
      (s : List Text) (size : ℕ)
      → IsFilled s size
      → All (IsAccepted max_chars max_args) (close_shard s)
  IsAccepted-close_shard [] size h = tt
  IsAccepted-close_shard (a ∷ s) size h = elim h.1 [ inl empty ↦ cc empty | inr good ↦ (good, tt) ]

  IsAccepted-if :
      (b : Bool) (x y : List (List Text))
      → (b ≡ true → All (IsAccepted max_chars max_args) x)
      → (b ≡ false → All (IsAccepted max_chars max_args) y)
      → All (IsAccepted max_chars max_args) (if b then x else y)
  IsAccepted-if true x y h k = h refl
  IsAccepted-if false x y h k = k refl

  full-IsAccepted :
      (s : List Text) (size : ℕ) (arg : Text)
      → is_full max_chars max_args s size arg ≡ true
      → IsFilled s size
      → IsAccepted max_chars max_args s
  full-IsAccepted s size arg full h = elim h.1 [ inl empty ↦ ground arith | inr good ↦ good ]

  shard_from-IsAccepted :
      (args current : List Text) (size : ℕ)
      → IsFilled current size
      → All (IsAccepted max_chars max_args) (shard_from max_chars max_args current size args)
  unfolding shard_from
  shard_from-IsAccepted [] current size h = IsAccepted-close_shard current size h
  shard_from-IsAccepted (arg ∷ args) current size h =
      IsAccepted-if (is_full max_chars max_args current size arg) _ _
        (λ full. (
          full-IsAccepted current size arg full h,
          shard_from-IsAccepted args (arg ∷ []) (extra arg) (alone arg),
        ))
        (λ room.
          shard_from-IsAccepted args (current ++ (arg ∷ [])) (size + extra arg)
            (grown current size arg room h))

-- The shards of a list of arguments hold all of them in their order; none is empty, none has more
-- arguments than the limit where there is one, and none is longer than the limit of characters,
-- counted with the framing, unless it is a single argument.
pub shard_args_max-IsAccepted :
    (args : List Text) (max_chars max_args : ℕ)
    → (joined (shard_args_max args max_chars max_args) ≡ args)
      × All (IsAccepted (limit_of max_chars) max_args) (shard_args_max args max_chars max_args)
unfolding shard_args_max
shard_args_max-IsAccepted args max_chars max_args = (
  joined-shard_from (limit_of max_chars) max_args args [] 0,
  shard_from-IsAccepted (limit_of max_chars) max_args args [] 0 (refl, inl refl),
)
