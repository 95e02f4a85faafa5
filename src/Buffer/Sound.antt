-- ===== src/Buffer/Sound.antt =====
-- The invariant of the buffer's map: the ids are those of the signals, once each.
use crypto_screener.Base.{
  false, [], ◌∷◌, none, some, ◌≡◌, refl, ap, All, inl, inr, Bool-cases, Option-cases,
}
use crypto_screener.Base.Eq.{text_eq, ==_refl, list_beq, list_beq_iff}
use crypto_screener.Base.Map.{Map, has_key, lookup, Distinct, insert-Distinct, All-insert}
use crypto_screener.Base.Text.{Text, is_empty}
use crypto_screener.Domain.Signal.{ArbitrageSignal}
use crypto_screener.Buffer.{Buffer, BufferedSignal, put}

-- No id stands twice, and each entry stands under the id of its signal.
pub record IsSound {D : Type 0} (b : Buffer D) : Type 0 where
  pub distinct : Distinct b.items
  pub keyed : All (λ (e : Text × BufferedSignal D). e.1.signal.id ≡ e.0) b.items

module _ {D : Type 0} where
  pub put-IsSound : (b : Buffer D) (s : ArbitrageSignal D) → IsSound b → IsSound (put b s).0
  unfolding put
  put-IsSound b s h = elim (Bool-cases (is_empty s.id)) [
    | inl blank ↦ rw blank (record { distinct = h.distinct; keyed = h.keyed })
    | inr named ↦ elim (Bool-cases b.closed) [
      | inl shut ↦ rw (named, shut) (record { distinct = h.distinct; keyed = h.keyed })
      | inr open_ ↦
          rw (named, open_)
            (record {
              distinct = insert-Distinct s.id _ b.items h.distinct;
              keyed = All-insert _ s.id _ b.items h.keyed refl;
            })
    ]
  ]

  -- Every entry is found under its key.
  abbrev pub Found : Map Text (BufferedSignal D) → Text × BufferedSignal D → Type 0
  Found m e = lookup e.0 m ≡ some e.1

  found_tail :
      (key : Text) (item : BufferedSignal D) (m : Map Text (BufferedSignal D)) (k : Text)
      (other : BufferedSignal D)
      → lookup key m ≡ none
      → lookup k m ≡ some other
      → lookup k ((key, item) ∷ m) ≡ some other
  unfolding lookup
  found_tail key item m k other h e = elim (Bool-cases (list_beq key k)) [
    | inl hit ↦ cc (h, e, ap (λ x. lookup x m) ((list_beq_iff key k).0 hit))
    | inr miss ↦ rw miss e
  ]

  Found-later :
      (key : Text) (item : BufferedSignal D) (m xs : Map Text (BufferedSignal D))
      → lookup key m ≡ none
      → All (Found m) xs
      → All (Found ((key, item) ∷ m)) xs
  unfolding lookup
  Found-later key item m [] h k = tt
  Found-later key item m (e ∷ xs) h (k, ks) =
      (found_tail key item m e.0 e.1 h k, Found-later key item m xs h ks)

  pub no_key :
      (key : Text) (m : Map Text (BufferedSignal D)) → has_key key m ≡ false → lookup key m ≡ none
  no_key key m h = elim (Option-cases (lookup key m)) [ inl e ↦ e | inr (item, e) ↦ cc (rw e at h) ]

  pub entries-Found : (m : Map Text (BufferedSignal D)) → Distinct m → All (Found m) m
  unfolding lookup
  entries-Found [] h = tt
  entries-Found ((key, item) ∷ m) (h, hs) =
      (rw (==_refl key) refl, Found-later key item m m (no_key key m h) (entries-Found m hs))
