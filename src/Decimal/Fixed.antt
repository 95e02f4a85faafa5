-- ===== src/Decimal/Fixed.antt =====
-- Fixed-point numbers meet what `Decimal` asks for: an integer stands for that many millionths.
use crypto_screener.Base.{
  ℕ, zero, suc, ◌+◌, ◌*◌, ◌-◌, ◌/◌, ◌^◌, ◌<◌, ◌≤◌, ◌≡◌, refl, true, false, ◌⊎◌, arith, leb,
  if◌then◌else◌,
}
use crypto_screener.Base.Int.{
  ℤ, pos, negsuc, pos_part, neg_part, ltb_ℤ, sub_ℕ, ◌+ℤ◌, ◌-ℤ◌, ◌*ℤ◌, -ℤ_parts,
}
use crypto_screener.Decimal.{Decimal}

abbrev pub unit : ℕ
unit = 1000000

abbrev literal : ℕ → ℕ → ℤ
literal n k = if leb k 6 then pos (n * 10 ^ (6 - k)) else if leb 1 n then pos 1 else pos 0

abbrev magnitude : ℤ → ℤ → ℕ
magnitude a b = (pos_part a + neg_part a) * unit / (pos_part b + neg_part b)

abbrev over : ℤ → ℤ → ℤ
over (pos a) (pos b) = pos (a * unit / b)
over (pos a) (negsuc b) = sub_ℕ 0 (a * unit / suc b)
over (negsuc a) (pos b) = sub_ℕ 0 (suc a * unit / b)
over (negsuc a) (negsuc b) = pos (suc a * unit / suc b)

abbrev times : ℤ → ℤ → ℤ
times a b = over (a *ℤ b) (pos (unit * unit))

pub below_split : (a b c : ℤ) → ltb_ℤ a c ≡ true → (ltb_ℤ a b ≡ true) ⊎ (ltb_ℤ b c ≡ true)
below_split a b c h = ground arith

ten_pow_pos : (k : ℕ) → 0 < 10 ^ k
ten_pow_pos zero = omega arith
ten_pow_pos (suc k) = omega (arith, ten_pow_pos k)

one_mul : (n m : ℕ) → m ≤ suc n * m
one_mul n m = grind arith

pub literal_pos : (n k : ℕ) → ltb_ℤ (pos 0) (literal (suc n) k) ≡ true
literal_pos n k = ground (arith, ten_pow_pos (6 - k), one_mul n (10 ^ (6 - k)))

pub half_below : (a : ℤ) → ltb_ℤ a (literal 1 2) ≡ false → ltb_ℤ (over a (literal 2 0)) a ≡ true
half_below (pos a) h = ground arith
half_below (negsuc a) h = ground arith

pub half_pos : (a : ℤ) → ltb_ℤ a (literal 1 2) ≡ false → ltb_ℤ (pos 0) (over a (literal 2 0)) ≡ true
half_pos (pos a) h = ground arith
half_pos (negsuc a) h = ground arith

pub percent_nonneg :
    (a : ℤ) → ltb_ℤ a (pos 0) ≡ false → ltb_ℤ (over a (literal 100 0)) (pos 0) ≡ false
percent_nonneg (pos a) h = ground arith
percent_nonneg (negsuc a) h = ground arith

pub percent_le_one :
    (a : ℤ) → ltb_ℤ (literal 100 0) a ≡ false → ltb_ℤ (literal 1 0) (over a (literal 100 0)) ≡ false
percent_le_one (pos a) h = ground arith
percent_le_one (negsuc a) h = ground arith

pub minus_le : (a c : ℤ) → ltb_ℤ c (pos 0) ≡ false → ltb_ℤ a (a -ℤ c) ≡ false
minus_le a c h = ground (arith, -ℤ_parts a c)

pub below_trans : (a b c : ℤ) → ltb_ℤ a b ≡ true → ltb_ℤ b c ≡ true → ltb_ℤ a c ≡ true
below_trans a b c h k = ground arith

pub below_irrefl : (a : ℤ) → ltb_ℤ a a ≡ false
below_irrefl a = ground arith

instance abbrev pub fixed_decimal : Decimal ℤ
fixed_decimal = record {
  literal = literal;
  zero_value = pos 0;
  plus = ◌+ℤ◌;
  minus = ◌-ℤ◌;
  times = times;
  over = over;
  int_part = λ a. pos_part a / unit;
  below = ltb_ℤ;
  below_irrefl = below_irrefl;
  below_trans = below_trans;
  below_split = below_split;
  literal_pos = literal_pos;
  default_fee_le_max = refl;
  minus_le = minus_le;
  half_below = half_below;
  half_pos = half_pos;
  percent_nonneg = percent_nonneg;
  percent_le_one = percent_le_one;
}
