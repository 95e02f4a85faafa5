-- ===== src/Domain/Config/Fees.antt =====
-- What a fee list that parses holds.
use crypto_screener.Base.{
  false, List, [], ◌∷◌, ◌≡◌, inl, inr, Option-cases, All, Bool-cases, Option, if◌then◌else◌, ◌||◌,
}
use crypto_screener.Base.Eq.{text_eq}
use crypto_screener.Base.Map.{Map, insert, All-insert}
use crypto_screener.Base.Text.{Text, is_empty, trim_space}
use crypto_screener.Decimal.{Decimal, is_negative, greater_than, decimal_zero, Le, below_asym}
use crypto_screener.Domain.Config.{
  ParseResult, ok, bad_fee_part, ◌>>=◌, max_fee, parse_rate, parse_part, parse_parts, parse_fees,
  normalize_name, split_once, split,
}

-- What holds of the result of a parse, if there is one.
abbrev pub Yields : {A : Type 0} → (A → Type 0) → ParseResult A → Type 0
Yields P (ok a) = P a
Yields P (bad_fee_part p) = Unit {0}

pub >>=-Yields :
    {A B : Type 0} (P : A → Type 0) (Q : B → Type 0) (m : ParseResult A) (f : A → ParseResult B)
    → Yields P m
    → ((a : A) → P a → Yields Q (f a))
    → Yields Q (m >>= f)
>>=-Yields P Q (ok a) f h k = k a h
>>=-Yields P Q (bad_fee_part p) f h k = tt

module _ {D : Type 0} ⦃dec : Decimal D⦄ where
  abbrev pub IsFee : D → Type 0
  IsFee v = Le decimal_zero v × Le v max_fee

  abbrev pub IsEntry : Text × D → Type 0
  IsEntry p = (is_empty p.0 ≡ false) × IsFee p.1

  checked_rate :
      (part key : Text) (v : D) (out : Map Text D)
      → is_empty key ≡ false
      → All IsEntry out
      → Yields (All IsEntry) (
          if is_negative v || greater_than v max_fee
          then bad_fee_part part
          else ok (insert key v out))
  checked_rate part key v out named h = elim (Bool-cases (is_negative v)) [
    | inl neg ↦ rw neg tt
    | inr nonneg ↦ elim (Bool-cases (greater_than v max_fee)) [
      | inl over ↦ rw (nonneg, over) tt
      | inr within ↦ rw (nonneg, within) (All-insert IsEntry key v out h (named, (nonneg, within)))
    ]
  ]

  module _ (parse : Text → Option D) where
    parse_rate-Yields :
        (part key value : Text) (out : Map Text D)
        → is_empty key ≡ false
        → All IsEntry out
        → Yields (All IsEntry) (parse_rate parse part key value out)
    unfolding parse_rate
    parse_rate-Yields part key value out named h = elim (Option-cases (parse (trim_space value))) [
      | inl q ↦ rw (q, parse_rate) tt
      | inr (v, q) ↦ rw (q, parse_rate) (checked_rate part key v out named h)
    ]

    parse_part-Yields :
        (part : Text) (out : Map Text D)
        → All IsEntry out
        → Yields (All IsEntry) (parse_part parse part out)
    unfolding parse_part
    parse_part-Yields part out h = elim (Option-cases (split_once b':' part)) [
      | inl q ↦ rw (q, parse_part) tt
      | inr ((k, value), q) ↦
          rw (q, parse_part)
            (elim (Bool-cases (is_empty (normalize_name k))) [
              | inl blank ↦ rw blank tt
              | inr named ↦ rw named (parse_rate-Yields part (normalize_name k) value out named h)
            ])
    ]

    pub parse_parts-Yields :
        (parts : List Text) (out : Map Text D)
        → All IsEntry out
        → Yields (All IsEntry) (parse_parts parse parts out)
    unfolding parse_parts
    parse_parts-Yields [] out h = h
    parse_parts-Yields (raw ∷ rest) out h = elim (Bool-cases (is_empty (trim_space raw))) [
      | inl blank ↦ rw blank (parse_parts-Yields rest out h)
      | inr filled ↦ rw filled (
          >>=-Yields (All IsEntry) (All IsEntry) _ _ (parse_part-Yields (trim_space raw) out h)
            (λ out' h'. parse_parts-Yields rest out' h'))
    ]

    -- Every fee that a list sets has a name, and lies between 0 and 0.01.
    pub parse_fees-Yields : (raw : Text) → Yields (All IsEntry) (parse_fees parse raw)
    unfolding parse_fees
    parse_fees-Yields raw = parse_parts-Yields (split b',' raw) [] tt

pub decimal_zero-IsFee : (D : Type 0) ⦃dec : Decimal D⦄ → IsFee {D = D} decimal_zero
decimal_zero-IsFee D ⦃dec⦄ =
    (dec.below_irrefl _, below_asym {D = D} decimal_zero max_fee (dec.literal_pos 0 2))
