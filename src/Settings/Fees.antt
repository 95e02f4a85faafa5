-- ===== src/Settings/Fees.antt =====
-- validateFees of internal/config/config.go against ParseFees of internal/domain/config.go.
use crypto_screener.Base.{
  Bool, true, false, ◌||◌, List, [], ◌∷◌, Option, none, some, ◌≡◌, ◌⊎◌, refl, ◌∙◌, inl, inr,
  Bool-cases, Option-cases,
}
use crypto_screener.Base.Eq.{text_eq}
use crypto_screener.Base.Map.{Map, insert}
use crypto_screener.Base.Text.{Text, trim_space, to_upper, is_empty}
use crypto_screener.Decimal.{Decimal, is_negative, greater_than}
use crypto_screener.Domain.Config.{
  ParseResult, ok, bad_fee_part, split, split_once, max_fee, normalize_name, parse_rate, parse_part,
  parse_parts, parse_fees,
}
use crypto_screener.Settings.{
  FeeError, expected_pairs, name_is_empty, bad_rate, validate_part, validate_parts, validate_fees,
}

abbrev pub is_ok : {A : Type 0} → ParseResult A → Bool
is_ok (ok a) = true
is_ok (bad_fee_part part) = false

abbrev pub is_none : {A : Type 0} → Option A → Bool
is_none none = true
is_none (some a) = false

upper-empty : (s : Text) → is_empty (to_upper s) ≡ is_empty s
unfolding to_upper
upper-empty [] = refl
upper-empty (c ∷ s) = refl

normalize-empty : (k : Text) → is_empty (normalize_name k) ≡ is_empty (trim_space k)
normalize-empty k = upper-empty (trim_space k)

module _ {D : Type 0} ⦃dec : Decimal D⦄ (parse : Text → Option D) where
  -- One part: both accept it, or both refuse it.
  Agree : Text → Map Text D → Type 0
  Agree part out =
      ((out' : Map Text D) × ((parse_part parse part out ≡ ok out')
          × (validate_part parse part ≡ none)))
      ⊎ ((e : FeeError) × ((parse_part parse part out ≡ bad_fee_part part)
            × (validate_part parse part ≡ some e)))

  part-Agree : (part : Text) (out : Map Text D) → Agree part out
  unfolding Agree parse_part parse_rate validate_part
  part-Agree part out = elim (Option-cases (split_once b':' part)) [
    | inl whole ↦
        inr (expected_pairs part, (rw (parse_part, whole) refl, rw (validate_part, whole) refl))
    | inr ((k, rate), pair) ↦
        let same = normalize-empty k in
        elim (Bool-cases (is_empty (trim_space k))) [
          | inl blank ↦ inr (
            name_is_empty part,
            (rw (parse_part, pair, same ∙ blank) refl, rw (validate_part, pair, blank) refl),
          )
          | inr named ↦
              let key = same ∙ named in
              elim (Option-cases (parse (trim_space rate))) [
                | inl bad ↦ inr (
                  bad_rate part,
                  (
                    rw (parse_part, pair, key, parse_rate, bad) refl,
                    rw (validate_part, pair, named, bad) refl,
                  ),
                )
                | inr (v, read) ↦ elim (Bool-cases (is_negative v || greater_than v max_fee)) [
                  | inl out_of ↦ inr (
                    bad_rate part,
                    (
                      rw (parse_part, pair, key, parse_rate, read, out_of) refl,
                      rw (validate_part, pair, named, read, out_of) refl,
                    ),
                  )
                  | inr good ↦ inl (
                    insert (normalize_name k) v out,
                    (
                      rw (parse_part, pair, key, parse_rate, read, good) refl,
                      rw (validate_part, pair, named, read, good) refl,
                    ),
                  )
                ]
              ]
        ]
  ]

  parts_agree :
      (parts : List Text) (out : Map Text D)
      → is_ok (parse_parts parse parts out) ≡ is_none (validate_parts parse parts)
  unfolding parse_parts Agree
  parts_agree [] out = refl
  parts_agree (raw ∷ rest) out = elim (Bool-cases (is_empty (trim_space raw))) [
    | inl blank ↦ rw blank (parts_agree rest out)
    | inr full ↦ elim (part-Agree (trim_space raw) out) [
      | inl (out', (e, f)) ↦ rw (full, e, f) (parts_agree rest out')
      | inr (err, (e, f)) ↦ rw (full, e, f) refl
    ]
  ]

  -- The check of FEES at the start and the parser of fee lists accept exactly the same texts,
  -- whatever numbers the decimal parser reads in them.
  pub validate_fees-parse_fees :
      (raw : Text) → is_ok (parse_fees parse raw) ≡ is_none (validate_fees parse raw)
  unfolding parse_fees validate_fees
  validate_fees-parse_fees raw = parts_agree (split b',' raw) []
