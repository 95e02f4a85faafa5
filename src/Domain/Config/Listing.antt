-- ===== src/Domain/Config/Listing.antt =====
-- FeesString of internal/domain/config.go, with sort.Strings as an insertion sort: the order of the
-- texts is total, so every sort gives the same list. Decimal.String is the argument `print`.
use crypto_screener.Base.{
  Bool, true, false, List, [], ◌∷◌, ◌++◌, Option, none, some, if◌then◌else◌, map, ltb,
}
use crypto_screener.Base.Eq.{text_eq}
use crypto_screener.Base.Map.{lookup}
use crypto_screener.Base.Parse.{join_comma}
use crypto_screener.Base.Text.{Text}
use crypto_screener.Decimal.{Decimal, decimal_zero}
use crypto_screener.Domain.Config.{ScreenerConfig}

-- s < t for strings, byte by byte.
unfoldable pub text_before : Text → Text → Bool
text_before s [] = false
text_before [] (d ∷ t) = true
text_before (c ∷ s) (d ∷ t) =
    let rest = text_before s t in if ltb c d then true else if ltb d c then false else rest

unfoldable pub place : Text → List Text → List Text
place s [] = s ∷ []
place s (t ∷ ts) = if text_before t s then t ∷ place s ts else s ∷ t ∷ ts

unfoldable pub sort_texts : List Text → List Text
sort_texts [] = []
sort_texts (s ∷ ss) = place s (sort_texts ss)

module _ {D : Type 0} ⦃dec : Decimal D⦄ (print : D → Text) where
  -- What a map read gives for a key that is not there is the zero value.
  abbrev pub or_zero_value : Option D → D
  or_zero_value none = decimal_zero
  or_zero_value (some v) = v

  abbrev pub fee_part : ScreenerConfig D → Text → Text
  fee_part c k = k ++ (b':' ∷ print (or_zero_value (lookup k c.fees)))

  unfoldable pub fees_string : Option (ScreenerConfig D) → Text
  fees_string none = []
  fees_string (some c) = join_comma (map (fee_part c) (sort_texts (map (λ p. p.0) c.fees)))
