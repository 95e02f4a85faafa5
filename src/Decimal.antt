-- ===== src/Decimal.antt =====
-- github.com/shopspring/decimal is not part of the repository: it is a parameter. `Decimal D` lists
-- the operations the screener calls on a type `D` of decimals, with the documented behaviour that
-- the proofs rely on. Comparisons go by value, so they are a strict weak order (0.1 and 0.10 are
-- two values of `D` neither of which is below the other); `plus` and `minus` are exact;
-- `over` rounds to 16 places.
pub mod Fixed
use crypto_screener.Base.{
  ℕ, suc, Bool, true, false, not, ◌≡◌, ◌⊎◌, inl, inr, arith, Bool-cases, if◌then◌else◌,
}

pub record Decimal (D : Type 0) : Type 0 where
  -- `literal n k` is n * 10^-k: RequireFromString, NewFromInt and NewFromFloat at constants.
  pub literal : ℕ → ℕ → D
  pub zero_value : D
  pub plus : D → D → D
  pub minus : D → D → D
  pub times : D → D → D
  pub over : D → D → D
  -- The integer part of a non-negative value, as IntPart.
  pub int_part : D → ℕ
  pub below : D → D → Bool
  pub below_irrefl : (a : D) → below a a ≡ false
  pub below_trans : (a b c : D) → below a b ≡ true → below b c ≡ true → below a c ≡ true
  pub below_split : (a b c : D) → below a c ≡ true → (below a b ≡ true) ⊎ (below b c ≡ true)
  pub literal_pos : (n k : ℕ) → below zero_value (literal (suc n) k) ≡ true
  -- The default taker fee 0.0005 is within the largest fee 0.01.
  pub default_fee_le_max : below (literal 1 2) (literal 5 4) ≡ false
  -- Taking away what is not negative does not raise a value.
  pub minus_le : (a c : D) → below c zero_value ≡ false → below a (minus a c) ≡ false
  -- Half of a value that is at least 0.01 lies strictly between zero and the value.
  pub half_below : (a : D) → below a (literal 1 2) ≡ false → below (over a (literal 2 0)) a ≡ true
  pub half_pos :
      (a : D) → below a (literal 1 2) ≡ false → below zero_value (over a (literal 2 0)) ≡ true
  -- A percentage between 0 and 100 is a share between 0 and 1.
  pub percent_nonneg :
      (a : D) → below a zero_value ≡ false → below (over a (literal 100 0)) zero_value ≡ false
  pub percent_le_one :
      (a : D)
      → below (literal 100 0) a ≡ false
      → below (literal 1 0) (over a (literal 100 0)) ≡ false

module _ {D : Type 0} ⦃d : Decimal D⦄ where
  abbrev pub decimal_zero : D
  decimal_zero = d.zero_value

  abbrev pub add : D → D → D
  add = d.plus

  abbrev pub sub : D → D → D
  sub = d.minus

  abbrev pub mul : D → D → D
  mul = d.times

  abbrev pub div : D → D → D
  div = d.over

  abbrev pub less_than : D → D → Bool
  less_than = d.below

  abbrev pub greater_than : D → D → Bool
  greater_than a b = d.below b a

  abbrev pub less_than_or_equal : D → D → Bool
  less_than_or_equal a b = not (d.below b a)

  abbrev pub greater_than_or_equal : D → D → Bool
  greater_than_or_equal a b = not (d.below a b)

  abbrev pub is_positive : D → Bool
  is_positive a = d.below d.zero_value a

  abbrev pub is_negative : D → Bool
  is_negative a = d.below a d.zero_value

  abbrev pub is_zero_decimal : D → Bool
  is_zero_decimal a = if d.below a d.zero_value then false else not (d.below d.zero_value a)

  -- `a ≤ b` as a statement.
  abbrev pub Le : D → D → Type 0
  Le a b = d.below b a ≡ false

  pub Le_refl : (a : D) → Le a a
  Le_refl a = d.below_irrefl a

  pub Le_trans : (a b c : D) → Le a b → Le b c → Le a c
  Le_trans a b c p q = elim (Bool-cases (d.below c a)) [
    | inl h ↦ elim (d.below_split c b a h) [ inl x ↦ cc (x, q) | inr x ↦ cc (x, p) ]
    | inr h ↦ h
  ]

  pub below_asym : (a b : D) → d.below a b ≡ true → Le a b
  below_asym a b p = elim (Bool-cases (d.below b a)) [
    | inl h ↦ cc (d.below_trans a b a p h, d.below_irrefl a)
    | inr h ↦ h
  ]

  pub below_le : (a b c : D) → d.below a b ≡ true → Le b c → d.below a c ≡ true
  below_le a b c p q = elim (d.below_split a c b p) [ inl x ↦ x | inr x ↦ cc (x, q) ]

  pub le_below : (a b c : D) → Le a b → d.below b c ≡ true → d.below a c ≡ true
  le_below a b c p q = elim (d.below_split b a c q) [ inl x ↦ cc (x, p) | inr x ↦ x ]

  -- minDecimal of sharded_aggregator.go.
  unfoldable pub min_decimal : D → D → D
  min_decimal a b = if less_than a b then a else b

  pub min_decimal_le : (a b : D) → Le (min_decimal a b) a × Le (min_decimal a b) b
  unfolding min_decimal
  min_decimal_le a b = ground (arith, d.below_irrefl a, d.below_irrefl b, below_asym a b)
