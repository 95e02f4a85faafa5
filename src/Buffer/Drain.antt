-- ===== src/Buffer/Drain.antt =====
-- flush empties the buffer where every save succeeds, and keeps all signals where one fails.
use crypto_screener.Base.{
  ℕ, zero, suc, ◌-◌, ◌≤◌, Bool, true, false, List, [], ◌∷◌, eqb_iff, subst, map, take, drop, length,
  ◌≡◌, refl, ◌∙◌, ap, arith, inl, inr, Bool-cases,
}
use crypto_screener.Base.Eq.{text_eq, ==_refl, list_beq}
use crypto_screener.Base.Map.{Map, has_key, lookup, delete}
use crypto_screener.Base.Text.{Text}
use crypto_screener.Domain.Signal.{ArbitrageSignal}
use crypto_screener.Buffer.{Buffer, BufferedSignal, snapshot_batch, ack, ack_one, save_all, flush}
use crypto_screener.Buffer.Sound.{IsSound}

module _ {D : Type 0} where
  abbrev holding : Bool → Map Text (BufferedSignal D) → Buffer D
  holding shut m = record { items = m; closed = shut }

  delete_absent :
      (key : Text) (m : Map Text (BufferedSignal D)) → has_key key m ≡ false → delete key m ≡ m
  unfolding delete lookup
  delete_absent key [] h = refl
  delete_absent key ((k, item) ∷ m) h = elim (Bool-cases (list_beq k key)) [
    | inl hit ↦ cc (rw hit at h)
    | inr miss ↦ rw miss (ap (◌∷◌ (k, item)) (delete_absent key m (rw miss at h)))
  ]

  ack_own :
      (shut : Bool) (item : BufferedSignal D) (m : Map Text (BufferedSignal D))
      → has_key item.signal.id m ≡ false
      → ack_one item (holding shut ((item.signal.id, item) ∷ m)) ≡ holding shut m
  unfolding ack_one lookup delete
  ack_own shut item m h =
      rw (==_refl item.signal.id, (eqb_iff item.version item.version).1 refl)
        (ap (holding shut) (delete_absent item.signal.id m h))

  ack_head :
      (shut : Bool) (key : Text) (item : BufferedSignal D) (m : Map Text (BufferedSignal D))
      → item.signal.id ≡ key
      → has_key key m ≡ false
      → ack_one item (holding shut ((key, item) ∷ m)) ≡ holding shut m
  ack_head shut key item m e h =
      subst
        (λ k. has_key k m ≡ false → ack_one item (holding shut ((k, item) ∷ m)) ≡ holding shut m) e
        (ack_own shut item m) h

  ack-take :
      (shut : Bool) (limit : ℕ) (m : Map Text (BufferedSignal D))
      → IsSound (holding shut m)
      → ack (take limit (map (λ e. e.1) m)) (holding shut m) ≡ holding shut (drop limit m)
  unfolding ack
  ack-take shut zero m h = refl
  ack-take shut (suc limit) [] h = refl
  ack-take shut (suc limit) ((key, item) ∷ m) h =
      ap (ack (take limit (map (λ e. e.1) m))) (ack_head shut key item m h.keyed.0 h.distinct.0)
      ∙ ack-take shut limit m (record { distinct = h.distinct.1; keyed = h.keyed.1 })

  drop-IsSound :
      (shut : Bool) (limit : ℕ) (m : Map Text (BufferedSignal D))
      → IsSound (holding shut m)
      → IsSound (holding shut (drop limit m))
  drop-IsSound shut zero m h = h
  drop-IsSound shut (suc limit) [] h = h
  drop-IsSound shut (suc limit) (e ∷ m) h =
      drop-IsSound shut limit m (record { distinct = h.distinct.1; keyed = h.keyed.1 })

  length-drop :
      (limit : ℕ) (m : Map Text (BufferedSignal D)) → length (drop limit m) ≡ length m - limit
  length-drop zero m = omega arith
  length-drop (suc limit) [] = omega arith
  length-drop (suc limit) (e ∷ m) = omega (arith, length-drop limit m)

  module _ {R : Type 0} (save : R → ArbitrageSignal D → R × Bool) where
    save_all_ok :
        ((repo : R) (s : ArbitrageSignal D) → (save repo s).1 ≡ true)
        → (repo : R) (batch : List (BufferedSignal D)) → (save_all save repo batch).1 ≡ true
    unfolding save_all
    save_all_ok good repo [] = refl
    save_all_ok good repo (item ∷ batch) =
        rw (good repo item.signal) (save_all_ok good (save repo item.signal).0 batch)

    drains :
        (rounds limit : ℕ) (repo : R) (shut : Bool) (m : Map Text (BufferedSignal D))
        → ((repo : R) (s : ArbitrageSignal D) → (save repo s).1 ≡ true)
        → IsSound (holding shut m)
        → length m ≤ rounds
        → (flush save rounds (suc limit) (λ n. []) repo (holding shut m)).1 ≡ holding shut []
    unfolding flush snapshot_batch
    drains zero limit repo shut [] good h le = refl
    drains zero limit repo shut (e ∷ m) good h le = let no : ⊥ = omega arith in absurd no
    drains (suc rounds) limit repo shut [] good h le = refl
    drains (suc rounds) limit repo shut (e ∷ m) good h le =
        let batch = take (suc limit) (map (λ x. x.1) (e ∷ m)) in
        let repo' = (save_all save repo batch).0 in
        rw (save_all_ok good repo batch) (
          ap (λ b. (flush save rounds (suc limit) (λ n. []) repo' b).1)
            (ack-take shut (suc limit) (e ∷ m) h)
          ∙ drains rounds limit repo' shut (drop (suc limit) (e ∷ m)) good
              (drop-IsSound shut (suc limit) (e ∷ m) h)
              (omega (arith, length-drop (suc limit) (e ∷ m))))

    -- Where every save succeeds and nothing is put meanwhile, flush leaves an empty buffer within
    -- as many rounds as there are signals in it, for any positive batch limit. The entries stand
    -- once each under the ids of their signals.
    pub flush_drains :
        (rounds limit : ℕ) (repo : R) (b : Buffer D)
        → ((repo : R) (s : ArbitrageSignal D) → (save repo s).1 ≡ true)
        → IsSound b
        → 1 ≤ limit
        → length b.items ≤ rounds
        → (flush save rounds limit (λ n. []) repo b).1.items ≡ []
    flush_drains rounds zero repo b good h pos le = let no : ⊥ = omega arith in absurd no
    flush_drains rounds (suc limit) repo b good h pos le =
        ap (λ x. x.items) (drains rounds limit repo b.closed b.items good h le)
