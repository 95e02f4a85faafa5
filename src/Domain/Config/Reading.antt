-- ===== src/Domain/Config/Reading.antt =====
-- The texts of fee lists: what strings.Join puts together, strings.Split takes apart, for
-- FeesString and ParseFees of internal/domain/config.go.
pub mod Sorted
pub mod Back
use crypto_screener.Base.{
  ℕ, Bool, true, false, not, ◌&&◌, ◌||◌, List, [], ◌∷◌, ◌++◌, Option, none, some, if◌then◌else◌,
  ◌≡◌, refl, ap, ◌∙◌, All, map, eqb, arith, leb,
}
use crypto_screener.Base.Parse.{join_comma}
use crypto_screener.Base.Text.{
  Text, trim_space, trim_left, trim_right, is_space, is_empty, keep_head,
}
use crypto_screener.Domain.Config.{split, split_once, push_head, cons_first}

abbrev pub Without : ℕ → Text → Type 0
Without sep s = All (λ c. eqb c sep ≡ false) s

abbrev pub IsSolid : Text → Type 0
IsSolid s = All (λ c. is_space c ≡ false) s

trim_right-solid : (s : Text) → IsSolid s → trim_right s ≡ s
unfolding trim_right
trim_right-solid [] h = refl
trim_right-solid (c ∷ []) (h, hs) = rw h refl
trim_right-solid (c ∷ d ∷ s) (h, hs) = ap (keep_head c) (trim_right-solid (d ∷ s) hs)

trim_left-solid : (s : Text) → IsSolid s → trim_left s ≡ s
unfolding trim_left
trim_left-solid [] h = refl
trim_left-solid (c ∷ s) (h, hs) = rw h refl

-- A text without spaces stays.
pub trim_space-solid : (s : Text) → IsSolid s → trim_space s ≡ s
unfolding trim_space
trim_space-solid s h = ap trim_right (trim_left-solid s h) ∙ trim_right-solid s h

split-whole : (sep : ℕ) (s : Text) → Without sep s → split sep s ≡ s ∷ []
unfolding split
split-whole sep [] h = refl
split-whole sep (c ∷ s) (h, hs) = rw h (ap (push_head c) (split-whole sep s hs))

split-append : (sep : ℕ) (s t : Text) → Without sep s → split sep (s ++ (sep ∷ t)) ≡ s ∷ split sep t
unfolding split
split-append sep [] t h = ground arith
split-append sep (c ∷ s) t (h, hs) = rw h (ap (push_head c) (split-append sep s t hs))

pub split_once-append :
    (sep : ℕ) (s t : Text) → Without sep s → split_once sep (s ++ (sep ∷ t)) ≡ some (s, t)
unfolding split_once
split_once-append sep [] t h = ground arith
split_once-append sep (c ∷ s) t (h, hs) = rw h (ap (cons_first c) (split_once-append sep s t hs))

-- Splitting what was joined.
pub split-join_comma :
    (s : Text) (parts : List Text)
    → All (Without b',') (s ∷ parts)
    → split b',' (join_comma (s ∷ parts)) ≡ s ∷ parts
unfolding join_comma
split-join_comma s [] (h, hs) = split-whole b',' s h
split-join_comma s (t ∷ parts) (h, hs) =
    split-append b',' s (join_comma (t ∷ parts)) h ∙ ap (◌∷◌ s) (split-join_comma t parts hs)
