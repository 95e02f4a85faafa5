-- ===== src/Base/Map.antt =====
-- Go's maps as association lists. The order of the list is the order in which `range` visits the
-- entries; Go leaves that order open, so statements hold of every list.
use Prim.Native.Nat.{◌≤◌}
use mathlib.Core.Path.{◌≡◌, refl}
use mathlib.Core.Bool.{Bool, true, false}
use mathlib.Core.List.{List, [], ◌∷◌}
use mathlib.Core.Option.{Option, none, some}
use native.Mathlib.Omega.{arith}
use mathlib.Core.Path.{subst, ap, sym, ◌∙◌}
use mathlib.Core.Logic.{inl, inr}
use mathlib.Core.Option.{some-injective}
use crypto_screener.Base.Tests.{if◌then◌else◌, Bool-cases}
use crypto_screener.Base.Eq.{Key, ◌==◌, ==_refl}
use crypto_screener.Base.Lists.{All, length, keep_if}

abbrev pub Map {ℓ κ} : Type ℓ → Type κ → Type (ℓ ⊔ κ)
Map K V = List (K × V)

abbrev pub is_some {ℓ} : {A : Type ℓ} → Option A → Bool
is_some none = false
is_some (some a) = true

module _ {ℓ κ} {K : Type ℓ} {V : Type κ} ⦃e : Key K⦄ where
  unfoldable pub lookup : K → Map K V → Option V
  lookup key [] = none
  lookup key (entry ∷ rest) = if entry.0 == key then some entry.1 else lookup key rest

  unfoldable pub insert : K → V → Map K V → Map K V
  insert key value [] = (key, value) ∷ []
  insert key value (entry ∷ rest) =
      if entry.0 == key then (key, value) ∷ rest else entry ∷ insert key value rest

  unfoldable pub delete : K → Map K V → Map K V
  delete k [] = []
  delete k ((j, w) ∷ m) = if j == k then delete k m else (j, w) ∷ delete k m

  abbrev pub has_key : K → Map K V → Bool
  has_key k m = is_some (lookup k m)

  pub lookup-insert :
      (key at : K) (value : V) (rest : Map K V)
      → lookup at (insert key value rest) ≡ (if key == at then some value else lookup at rest)
  unfolding lookup insert
  lookup-insert key at value [] = refl
  lookup-insert key at value (entry ∷ rest) = ground (
    arith,
    e.same_iff key at,
    e.same_iff entry.0 key,
    e.same_iff entry.0 at,
    lookup-insert key at value rest,
  )

  pub lookup-delete :
      (k j : K) (m : Map K V) → lookup j (delete k m) ≡ (if k == j then none else lookup j m)
  unfolding lookup delete
  lookup-delete k j [] = ground arith
  lookup-delete k j ((i, w) ∷ m) =
      ground (arith, e.same_iff k j, e.same_iff i k, e.same_iff i j, lookup-delete k j m)

  -- Every entry satisfies P.
  pub All-insert {μ} :
      (P : K × V → Type μ) (k : K) (v : V) (m : Map K V) → All P m → P (k, v) → All P (insert k v m)
  unfolding insert
  All-insert P k v [] h p = (p, tt)
  All-insert P k v ((j, w) ∷ m) (h, hs) p = ground (arith, All-insert P k v m hs p)

  pub All-delete {μ} : (P : K × V → Type μ) (k : K) (m : Map K V) → All P m → All P (delete k m)
  unfolding delete
  All-delete P k [] h = tt
  All-delete P k ((j, w) ∷ m) (h, hs) = ground (arith, All-delete P k m hs)

  pub All-lookup {μ} :
      (P : K × V → Type μ) (k : K) (m : Map K V) {v : V} → All P m → lookup k m ≡ some v → P (k, v)
  unfolding lookup
  All-lookup P k [] h p = cc
  All-lookup P k ((j, w) ∷ m) {v} (h, hs) p = elim (Bool-cases (j == k)) [
    | inl hit ↦
        let same : some w ≡ some v = rw hit at p in
        subst P (cc ((e.same_iff j k).0 hit, some-injective w v same)) h
    | inr miss ↦ All-lookup P k m hs (rw miss at p)
  ]

  pub length-delete : (k : K) (m : Map K V) → length (delete k m) ≤ length m
  unfolding delete
  length-delete k [] = omega arith
  length-delete k ((j, w) ∷ m) = ground (arith, length-delete k m)

  -- No key stands twice.
  abbrev pub Distinct : Map K V → Type 0
  Distinct [] = Unit {0}
  Distinct ((k, v) ∷ m) = (has_key k m ≡ false) × Distinct m

  pub insert-Distinct : (k : K) (v : V) (m : Map K V) → Distinct m → Distinct (insert k v m)
  unfolding insert lookup
  insert-Distinct k v [] h = (refl, tt)
  insert-Distinct k v ((j, w) ∷ m) (h, hs) =
      ground
        (arith, e.same_iff j k, e.same_iff k j, lookup-insert k j v m, insert-Distinct k v m hs)

  pub delete-Distinct : (k : K) (m : Map K V) → Distinct m → Distinct (delete k m)
  unfolding delete
  delete-Distinct k [] h = tt
  delete-Distinct k ((j, w) ∷ m) (h, hs) =
      ground (arith, lookup-delete k j m, delete-Distinct k m hs)

  -- An entry of a filtered map, where no key stands twice.
  pub lookup-keep_if :
      (p : K × V → Bool) (k : K) (m : Map K V)
      → Distinct m
      → lookup k (keep_if p m)
        ≡ elim (lookup k m) [ none ↦ none | some v ↦ if p (k, v) then some v else none ]
  unfolding lookup
  lookup-keep_if p k [] h = refl
  lookup-keep_if p k ((j, w) ∷ m) (h, hs) = ground (arith, e.same_iff j k, lookup-keep_if p k m hs)

  pub keep_if-Distinct : (p : K × V → Bool) (m : Map K V) → Distinct m → Distinct (keep_if p m)
  keep_if-Distinct p [] h = tt
  keep_if-Distinct p ((j, w) ∷ m) (h, hs) =
      ground (arith, lookup-keep_if p j m hs, keep_if-Distinct p m hs)

  insert-miss :
      (key : K) (value : V) (entry : K × V) (rest : Map K V)
      → (entry.0 == key) ≡ false
      → insert key value (entry ∷ rest) ≡ entry ∷ insert key value rest
  unfolding insert
  insert-miss key value entry rest miss = rw miss refl

  -- The last of two values under one key stays.
  pub insert_again :
      (key : K) (v w : V) (m : Map K V) → insert key v (insert key w m) ≡ insert key v m
  unfolding insert
  insert_again key v w [] = rw (==_refl key) refl
  insert_again key v w (entry ∷ m) = elim (Bool-cases (entry.0 == key)) [
    | inl hit ↦ rw (hit, insert) (rw (==_refl key) refl)
    | inr miss ↦
        ap (insert key v) (insert-miss key w entry m miss)
        ∙ insert-miss key v entry (insert key w m) miss
        ∙ ap (◌∷◌ entry) (insert_again key v w m)
        ∙ sym (insert-miss key v entry m miss)
  ]
