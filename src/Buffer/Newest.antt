-- ===== src/Buffer/Newest.antt =====
-- Ack takes away no signal that was put after the snapshot of its batch.
use mathlib.Core.Option.{some-injective}
use crypto_screener.Base.{
  ℕ, zero, suc, ◌+◌, ◌%◌, ◌^◌, ◌<◌, ◌≤◌, true, false, List, [], ◌∷◌, Option, none, some,
  if◌then◌else◌, map, take, length, ◌≡◌, refl, sym, ◌∙◌, ap, arith, All, inl, inr, Bool-cases,
  Option-cases,
}
use crypto_screener.Base.Eq.{text_eq, ◌==◌, ==_refl, list_beq, list_beq_iff}
use crypto_screener.Base.Map.{Map, lookup, lookup-insert, lookup-delete}
use crypto_screener.Base.Text.{Text, is_empty}
use crypto_screener.Domain.Signal.{ArbitrageSignal}
use crypto_screener.Buffer.{
  Buffer, BufferedSignal, version_of, put, put_all, snapshot_batch, ack, ack_one, is_version,
}
use crypto_screener.Buffer.Sound.{IsSound, Found, entries-Found}

module _ {D : Type 0} where
  -- The last of the signals with this id.
  abbrev pub newest : Text → List (ArbitrageSignal D) → Option (ArbitrageSignal D)
  newest id [] = none
  newest id (s ∷ ss) = elim (newest id ss) [
    | none ↦ if s.id == id then some s else none
    | some t ↦ some t
  ]

  put-lookup :
      (b : Buffer D) (s : ArbitrageSignal D) (id : Text)
      → b.closed ≡ false
      → is_empty id ≡ false
      → lookup id (put b s).0.items ≡ (
          if s.id == id
          then some (record { version = (version_of (lookup id b.items) + 1) % 2 ^ 64; signal = s })
          else lookup id b.items)
  unfolding put
  put-lookup b s id o n = elim (Bool-cases (list_beq s.id id)) [
    | inl hit ↦
        rw ((list_beq_iff s.id id).0 hit, n, o)
          (lookup-insert id id _ b.items ∙ rw (==_refl id) refl)
    | inr miss ↦ elim (Bool-cases (is_empty s.id)) [
      | inl blank ↦ rw (miss, blank) refl
      | inr named ↦ rw (miss, named, o) (lookup-insert s.id id _ b.items ∙ rw miss refl)
    ]
  ]

  put-open : (b : Buffer D) (s : ArbitrageSignal D) → b.closed ≡ false → (put b s).0.closed ≡ false
  unfolding put
  put-open b s o = elim (Bool-cases (is_empty s.id)) [
    | inl blank ↦ rw blank o
    | inr named ↦ rw (named, o) refl
  ]

  put-other :
      (b : Buffer D) (s : ArbitrageSignal D) (id : Text)
      → b.closed ≡ false
      → is_empty id ≡ false
      → list_beq s.id id ≡ false
      → lookup id (put b s).0.items ≡ lookup id b.items
  put-other b s id o n miss = rw (put-lookup b s id o n, miss) refl

  put-same :
      (b : Buffer D) (s : ArbitrageSignal D) (id : Text)
      → b.closed ≡ false
      → is_empty id ≡ false
      → list_beq s.id id ≡ true
      → lookup id (put b s).0.items
        ≡ some (record { version = (version_of (lookup id b.items) + 1) % 2 ^ 64; signal = s })
  put-same b s id o n hit = rw (put-lookup b s id o n, hit) refl

  untouched :
      (id : Text) (ss : List (ArbitrageSignal D)) (b : Buffer D)
      → b.closed ≡ false
      → is_empty id ≡ false
      → newest id ss ≡ none
      → lookup id (put_all ss b).items ≡ lookup id b.items
  untouched id [] b o n h = refl
  untouched id (s ∷ ss) b o n h = elim (Option-cases (newest id ss)) [
    | inr (t, e) ↦ cc (rw e at h)
    | inl e ↦ elim (Bool-cases (list_beq s.id id)) [
      | inl hit ↦ cc (rw (e, hit) at h)
      | inr miss ↦ untouched id ss (put b s).0 (put-open b s o) n e ∙ put-other b s id o n miss
    ]
  ]

  -- What is in the buffer under an id: a version above a bound, and a signal.
  abbrev Above : ℕ → ArbitrageSignal D → Option (BufferedSignal D) → Type 0
  Above bound s o =
      (item : BufferedSignal D) × (o ≡ some item) × (item.signal ≡ s) × (bound < item.version)

  version_grows :
      (b : Buffer D) (s : ArbitrageSignal D) (id : Text)
      → b.closed ≡ false
      → is_empty id ≡ false
      → version_of (lookup id b.items) + 1 < 2 ^ 64
      → (version_of (lookup id b.items) ≤ version_of (lookup id (put b s).0.items))
        × (version_of (lookup id (put b s).0.items) ≤ version_of (lookup id b.items) + 1)
  version_grows b s id o n lt = elim (Bool-cases (list_beq s.id id)) [
    | inl hit ↦ rw (put-lookup b s id o n, hit) (omega arith, omega arith)
    | inr miss ↦ rw (put-lookup b s id o n, miss) (omega arith, omega arith)
  ]

  put_all-newest :
      (id : Text) (ss : List (ArbitrageSignal D)) (s : ArbitrageSignal D) (b : Buffer D)
      → b.closed ≡ false
      → is_empty id ≡ false
      → version_of (lookup id b.items) + length ss < 2 ^ 64
      → newest id ss ≡ some s
      → Above (version_of (lookup id b.items)) s (lookup id (put_all ss b).items)
  put_all-newest id [] s b o n lt h = cc h
  put_all-newest id (t ∷ ss) s b o n lt h = elim (Option-cases (newest id ss)) [
    | inr (u, e) ↦
        let (low, high) = version_grows b t id o n (omega arith) in
        let (item, found, same, above) =
          put_all-newest id ss u (put b t).0 (put-open b t o) n (omega arith) e in
        (item, found, same ∙ some-injective u s (rw e at h), omega arith)
    | inl e ↦ elim (Bool-cases (list_beq t.id id)) [
      | inr miss ↦ cc (rw (e, miss) at h)
      | inl hit ↦ (
        record { version = (version_of (lookup id b.items) + 1) % 2 ^ 64; signal = t },
        untouched id ss (put b t).0 (put-open b t o) n e ∙ put-same b t id o n hit,
        some-injective t s (rw (e, hit) at h),
        omega arith,
      )
    ]
  ]

  ack-lookup :
      (id : Text) (batch : List (BufferedSignal D)) (b : Buffer D) (item : BufferedSignal D)
      → lookup id b.items ≡ some item
      → All (λ old. old.signal.id ≡ id → old.version < item.version) batch
      → lookup id (ack batch b).items ≡ some item
  unfolding ack ack_one
  ack-lookup id [] b item h k = h
  ack-lookup id (old ∷ batch) b item h (k, ks) =
      ack-lookup id batch (ack_one old b) item
        (elim (Bool-cases (list_beq old.signal.id id)) [
          | inl hit ↦
              let e = (list_beq_iff old.signal.id id).0 hit in
              let lt = k e in rw (e, h) (ground arith)
          | inr miss ↦ elim (Bool-cases (is_version old.version (lookup old.signal.id b.items))) [
            | inr other ↦ rw other h
            | inl same ↦ rw same (lookup-delete old.signal.id id b.items ∙ rw miss h)
          ]
        ])
        ks

  older_in_batch :
      (id : Text) (item : BufferedSignal D) (m xs : Map Text (BufferedSignal D)) (limit : ℕ)
      → All (Found m) xs
      → All (λ e. e.1.signal.id ≡ e.0) xs
      → version_of (lookup id m) < item.version
      → All
          (λ old. old.signal.id ≡ id → old.version < item.version)
          (take limit (map (λ e. e.1) xs))
  older_in_batch id item m xs zero f k lt = tt
  older_in_batch id item m [] (suc limit) f k lt = tt
  older_in_batch id item m (e ∷ xs) (suc limit) (f, fs) (k, ks) lt = (
    λ same. rw (ap (λ x. lookup x m) (sym same ∙ k) ∙ f) at lt,
    older_in_batch id item m xs limit fs ks lt,
  )

  -- If signals are put between the snapshot of a batch and its Ack, then for each id the last of
  -- them is still in the buffer after the Ack. The buffer is open, its entries stand once each
  -- under the ids of their signals, the id is not empty, and the version does not pass 2^64 on the
  -- way.
  pub newest_kept :
      (b : Buffer D) (limit : ℕ) (ss : List (ArbitrageSignal D)) (s : ArbitrageSignal D)
      → IsSound b
      → b.closed ≡ false
      → is_empty s.id ≡ false
      → version_of (lookup s.id b.items) + length ss < 2 ^ 64
      → newest s.id ss ≡ some s
      → let b' = ack (snapshot_batch limit b) (put_all ss b) in
        (item : BufferedSignal D) × (lookup s.id b'.items ≡ some item) × (item.signal ≡ s)
  unfolding snapshot_batch
  newest_kept b limit ss s h o n lt e =
      let (item, found, same, above) = put_all-newest s.id ss s b o n lt e in
      (
        item,
        ack-lookup s.id (take limit (map (λ e. e.1) b.items)) (put_all ss b) item found (
            older_in_batch s.id item b.items b.items limit (entries-Found b.items h.distinct)
              h.keyed above),
        same,
      )
