-- ===== src/Base/Parse.antt =====
-- What the code uses of Go's packages strings and strconv on single arguments and on lists of them,
-- for ASCII texts.
use crypto_screener.Base.Tests.{leb, ltb, eqb, if◌then◌else◌}
use crypto_screener.Base.Text.{Text}
use crypto_screener.Base.Int.{ℤ, pos, sub_ℕ}
use Prim.Native.Nat.{ℕ, ◌+◌, ◌-◌, ◌*◌, ◌^◌}
use mathlib.Core.Bool.{◌&&◌}
use mathlib.Core.Option.{Option, none, some}
use mathlib.Core.List.{List, [], ◌∷◌, ◌++◌, map}

abbrev lower_byte : ℕ → ℕ
lower_byte c = if leb b'A' c && leb c b'Z' then c + 32 else c

-- strings.ToLower
abbrev pub to_lower : Text → Text
to_lower = map lower_byte

-- strings.Join(parts, ",")
unfoldable pub join_comma : List Text → Text
join_comma [] = []
join_comma (s ∷ []) = s
join_comma (s ∷ t ∷ rest) = s ++ (b',' ∷ join_comma (t ∷ rest))

-- The value of a run of digits, after those that were read.
unfoldable pub digits_from : ℕ → Text → Option ℕ
digits_from acc [] = some acc
digits_from acc (c ∷ s) =
    if leb b'0' c && leb c b'9' then digits_from (acc * 10 + (c - b'0')) s else none

abbrev digits : Text → Option ℕ
digits [] = none
digits (c ∷ s) = digits_from 0 (c ∷ s)

abbrev in_range : Option ℕ → Option ℤ
in_range none = none
in_range (some n) = if ltb n (2 ^ 63) then some (pos n) else none

abbrev negated : Option ℕ → Option ℤ
negated none = none
negated (some n) = if leb n (2 ^ 63) then some (sub_ℕ 0 n) else none

-- strconv.Atoi on a 64-bit machine: an optional sign and decimal digits, within int64.
unfoldable pub atoi : Text → Option ℤ
unfolding digits_from
atoi [] = none
atoi (c ∷ s) =
    if eqb c b'-'
    then negated (digits s)
    else if eqb c b'+'
    then in_range (digits s)
    else in_range (digits (c ∷ s))
