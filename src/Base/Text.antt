-- ===== src/Base/Text.antt =====
-- Texts as lists of bytes, with what the code uses of Go's package strings. `ToUpper` and
-- `TrimSpace` are those of ASCII texts; the names and symbols of the exchanges are ASCII.
use Prim.Native.Char.{code}
use Prim.Native.String.{String}
use Prim.Native.Nat.{ℕ, ◌-◌}
use mathlib.Core.Path.{◌≡◌, refl}
use mathlib.Core.Bool.{Bool, true, false, ◌&&◌, ◌||◌, not}
use mathlib.Core.List.{List, [], ◌∷◌, ◌++◌, map}
use native.Mathlib.Omega.{arith}
use crypto_screener.Base.Tests.{leb, eqb, if◌then◌else◌}
use crypto_screener.Base.Lists.{keep_if}

abbrev pub Text : Type 0
Text = List ℕ

-- The bytes of an ASCII literal.
abbrev pub text : String → Text
text String.[] = []
text (String.◌∷◌ c s) = code c ∷ text s

unfoldable pub upper_byte : ℕ → ℕ
upper_byte c = if leb b'a' c && leb c b'z' then c - 32 else c

unfoldable pub to_upper : Text → Text
unfolding upper_byte
to_upper = map upper_byte

abbrev pub is_space : ℕ → Bool
is_space c = eqb c b' ' || (leb 9 c && leb c 13)

unfoldable pub trim_left : Text → Text
trim_left [] = []
trim_left (c ∷ s) = if is_space c then trim_left s else c ∷ s

abbrev pub keep_head : ℕ → Text → Text
keep_head c [] = if is_space c then [] else c ∷ []
keep_head c (d ∷ s) = c ∷ d ∷ s

unfoldable pub trim_right : Text → Text
trim_right [] = []
trim_right (c ∷ s) = keep_head c (trim_right s)

unfoldable pub trim_space : Text → Text
unfolding trim_left trim_right
trim_space s = trim_right (trim_left s)

-- strings.NewReplacer("-", "", "_", "", "/", "").Replace
abbrev pub is_separator : ℕ → Bool
is_separator c = eqb c b'-' || (eqb c b'_' || eqb c b'/')

unfoldable pub strip_separators : Text → Text
strip_separators = keep_if (λ c. not (is_separator c))

-- strings.Join(parts, ":")
unfoldable pub join_colon : List Text → Text
join_colon [] = []
join_colon (s ∷ []) = s
join_colon (s ∷ t ∷ rest) = s ++ (b':' ∷ join_colon (t ∷ rest))

unfoldable pub has_prefix : Text → Text → Bool
has_prefix s [] = true
has_prefix [] (p ∷ ps) = false
has_prefix (c ∷ s) (p ∷ ps) = eqb c p && has_prefix s ps

pub has_prefix-append : (p s : Text) → has_prefix (p ++ s) p ≡ true
unfolding has_prefix
has_prefix-append [] [] = refl
has_prefix-append [] (c ∷ s) = refl
has_prefix-append (c ∷ p) s = ground (arith, has_prefix-append p s)

pub has_prefix-middle :
    (s : Text) (c : ℕ) (rest : Text) → has_prefix (s ++ (c ∷ rest)) (s ++ (c ∷ [])) ≡ true
unfolding has_prefix
has_prefix-middle [] c [] = ground arith
has_prefix-middle [] c (d ∷ rest) = ground arith
has_prefix-middle (d ∷ s) c rest = ground (arith, has_prefix-middle s c rest)

abbrev pub is_empty : Text → Bool
is_empty [] = true
is_empty (c ∷ s) = false

-- strings.HasSuffix, as a prefix of the text read backwards.
unfoldable pub rev_onto : Text → Text → Text
rev_onto [] acc = acc
rev_onto (c ∷ s) acc = rev_onto s (c ∷ acc)

unfoldable pub has_suffix : Text → Text → Bool
has_suffix s p = has_prefix (rev_onto s []) (rev_onto p [])

pub rev_onto-append : (s t acc : Text) → rev_onto (s ++ t) acc ≡ rev_onto t (rev_onto s acc)
unfolding rev_onto
rev_onto-append [] t acc = refl
rev_onto-append (c ∷ s) t acc = rev_onto-append s t (c ∷ acc)
