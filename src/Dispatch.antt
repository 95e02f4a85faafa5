-- ===== src/Dispatch.antt =====
-- dispatchTicks and worker queues of internal/app/app.go: the ticks of the one channel are spread
-- over the queues of the ingestion workers. crc32.ChecksumIEEE is the argument `checksum`. A queue
-- is the list of what was put into it; that a full queue makes the dispatcher wait does not change
-- the order.
use crypto_screener.Base.{
  ℕ, zero, suc, ◌%◌, ◌<◌, Bool, true, false, List, [], ◌∷◌, ◌++◌, Option, none, some, if◌then◌else◌,
  eqb, eqb_iff, ◌≡◌, ◌≢◌, refl, sym, ap, ◌∙◌, keep_if, length, get_elem?, set, replicate,
  Bool-cases, inl, inr, arith, get_elem?-set_self, get_elem?-set_ne, length-set, length-replicate,
}
use mathlib.Core.List.{append_assoc, append-nil}
use native.Mathlib.Nat.{mod-lt}
use crypto_screener.Base.Eq.{text_eq, ◌==◌}
use crypto_screener.Base.Text.{Text}
use crypto_screener.Domain.Market.{MarketTick}

abbrev pub Queues : Type 0 → Type 0
Queues D = List (List (MarketTick D))

abbrev pub or_no_ticks : {D : Type 0} → Option (List (MarketTick D)) → List (MarketTick D)
or_no_ticks none = []
or_no_ticks (some q) = q

module _ {A : Type 0} (p q : A → Bool) where
  keep_both :
      (xs : List A) → ((x : A) → p x ≡ true → q x ≡ true) → keep_if p (keep_if q xs) ≡ keep_if p xs
  keep_both [] h = refl
  keep_both (x ∷ xs) h = ground (arith, h x, keep_both xs h)

  keep_neither :
      (xs : List A) → ((x : A) → p x ≡ true → q x ≡ false) → keep_if p (keep_if q xs) ≡ []
  keep_neither [] h = refl
  keep_neither (x ∷ xs) h = ground (arith, h x, keep_neither xs h)

not_eqb : (a b : ℕ) → a ≢ b → eqb a b ≡ false
not_eqb a b h = ground arith

empty_queue : {D : Type 0} (n i : ℕ) → or_no_ticks {D = D} (get_elem? (replicate n []) i) ≡ []
empty_queue zero i = refl
empty_queue (suc n) zero = refl
empty_queue (suc n) (suc i) = empty_queue n i

module _ {D : Type 0} (checksum : Text → ℕ) where
  -- int(crc32.ChecksumIEEE([]byte(tick.Symbol)) % uint32(len(a.ingestionQueues)))
  abbrev pub queue_index : ℕ → MarketTick D → ℕ
  queue_index n t = checksum t.symbol % n

  unfoldable pub dispatch_tick : MarketTick D → Queues D → Queues D
  dispatch_tick t queues =
      let i = queue_index (length queues) t in
      set queues i (or_no_ticks (get_elem? queues i) ++ (t ∷ []))

  -- The loop of a dispatcher that has queues; without any it returns at once.
  unfoldable pub dispatch_loop : List (MarketTick D) → Queues D → Queues D
  unfolding dispatch_tick
  dispatch_loop [] queues = queues
  dispatch_loop (t ∷ ticks) queues = dispatch_loop ticks (dispatch_tick t queues)

  unfoldable pub dispatch_ticks : List (MarketTick D) → Queues D → Queues D
  unfolding dispatch_loop
  dispatch_ticks ticks [] = []
  dispatch_ticks ticks (q ∷ queues) = dispatch_loop ticks (q ∷ queues)

  abbrev pub of_queue : ℕ → ℕ → List (MarketTick D) → List (MarketTick D)
  of_queue n i = keep_if (λ t. eqb (queue_index n t) i)

  abbrev pub of_symbol : Text → List (MarketTick D) → List (MarketTick D)
  of_symbol s = keep_if (λ t. t.symbol == s)

  length-dispatch_tick :
      (t : MarketTick D) (queues : Queues D) → length (dispatch_tick t queues) ≡ length queues
  unfolding dispatch_tick
  length-dispatch_tick t queues = length-set queues _ _

  -- What a queue holds after one more tick.
  tick_in_queue :
      (t : MarketTick D) (queues : Queues D) (i : ℕ)
      → 0 < length queues
      → or_no_ticks (get_elem? (dispatch_tick t queues) i)
        ≡ or_no_ticks (get_elem? queues i)
          ++ (if eqb (queue_index (length queues) t) i then t ∷ [] else [])
  unfolding dispatch_tick
  tick_in_queue t queues i h =
      let k = queue_index (length queues) t in
      let new = or_no_ticks (get_elem? queues k) ++ (t ∷ []) in
      let old = or_no_ticks (get_elem? queues i) in
      elim (Bool-cases (eqb k i)) [
        | inl hit ↦
            let same : k ≡ i = (eqb_iff k i).0 hit in
            ap (λ j. or_no_ticks (get_elem? (set queues k new) j)) (sym same)
            ∙ ap or_no_ticks (get_elem?-set_self queues k new (mod-lt (checksum t.symbol) h))
            ∙ ap (λ j. or_no_ticks (get_elem? queues j) ++ (t ∷ [])) same
            ∙ ap (λ b. old ++ (if b then t ∷ [] else [])) (sym hit)
        | inr miss ↦
            ap or_no_ticks
              (get_elem?-set_ne queues k i new (λ same. cc ((eqb_iff k i).1 same, miss)))
            ∙ sym (append-nil old)
            ∙ ap (λ b. old ++ (if b then t ∷ [] else [])) (sym miss)
      ]

  keep_step :
      (p : MarketTick D → Bool) (t : MarketTick D) (ticks : List (MarketTick D))
      → (if p t then t ∷ [] else []) ++ keep_if p ticks ≡ keep_if p (t ∷ ticks)
  keep_step p t ticks = ground arith

  loop_queue :
      (n : ℕ) (ticks : List (MarketTick D)) (queues : Queues D) (i : ℕ)
      → length queues ≡ n
      → 0 < n
      → or_no_ticks (get_elem? (dispatch_loop ticks queues) i)
        ≡ or_no_ticks (get_elem? queues i) ++ of_queue n i ticks
  unfolding dispatch_loop
  loop_queue n [] queues i e h = sym (append-nil _)
  loop_queue n (t ∷ ticks) queues i e h =
      let p : MarketTick D → Bool = λ u. eqb (queue_index n u) i in
      let old = or_no_ticks (get_elem? queues i) in
      loop_queue n ticks (dispatch_tick t queues) i (length-dispatch_tick t queues ∙ e) h
      ∙ ap (λ l. l ++ of_queue n i ticks) (tick_in_queue t queues i (rw e h))
      ∙ ap (λ m. (old ++ (if eqb (queue_index m t) i then t ∷ [] else [])) ++ of_queue n i ticks) e
      ∙ append_assoc old (if p t then t ∷ [] else []) (of_queue n i ticks)
      ∙ ap (λ l. old ++ l) (keep_step p t ticks)

  -- The dispatcher puts all ticks of a symbol into the queue that the checksum of the symbol names,
  -- in the order in which they came, and none of them into another queue, whatever ticks of other
  -- symbols come between. There is at least one queue, and all are empty before.
  pub dispatch_by_symbol :
      (n : ℕ) (ticks : List (MarketTick D)) (s : Text)
      → 0 < n
      → (of_symbol s
            (or_no_ticks (get_elem? (dispatch_ticks ticks (replicate n [])) (checksum s % n)))
          ≡ of_symbol s ticks)
        × ((j : ℕ)
            → j ≢ checksum s % n
            → of_symbol s (or_no_ticks (get_elem? (dispatch_ticks ticks (replicate n [])) j)) ≡ [])
  unfolding dispatch_ticks
  dispatch_by_symbol zero ticks s h = elim h [ ]
  dispatch_by_symbol (suc m) ticks s h =
      let n = suc m in
      let named = text_eq.same_iff in
      (
        ap (of_symbol s) (
              loop_queue n ticks (replicate n []) (checksum s % n) (length-replicate n []) h
              ∙ ap (λ l. l ++ of_queue n (checksum s % n) ticks) (empty_queue n (checksum s % n)))
            ∙ keep_both _ _ ticks
                (λ t e. (eqb_iff _ _).1 (ap (λ k. checksum k % n) ((named t.symbol s).0 e))),
        λ j ne.
            ap (of_symbol s) (
              loop_queue n ticks (replicate n []) j (length-replicate n []) h
              ∙ ap (λ l. l ++ of_queue n j ticks) (empty_queue n j))
            ∙ keep_neither _ _ ticks (λ t e.
              not_eqb _ _ (λ q. ne (sym q ∙ ap (λ k. checksum k % n) ((named t.symbol s).0 e)))),
      )
