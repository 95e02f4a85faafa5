-- ===== src/Domain/Config/Reading/Back.antt =====
-- FeesString of internal/domain/config.go read back by ParseFees.
use crypto_screener.Base.{
  true, false, List, [], ◌∷◌, Option, none, some, if◌then◌else◌, ◌≡◌, refl, ap, ◌∙◌, All,
  All-append, map, sym, subst, inl, inr, Option-cases,
}
use crypto_screener.Base.Eq.{text_eq, ◌==◌}
use crypto_screener.Base.Map.{Map, lookup, insert, lookup-insert, All-lookup, is_some}
use crypto_screener.Base.Parse.{join_comma}
use crypto_screener.Base.Text.{Text, to_upper, trim_space, is_empty}
use crypto_screener.Decimal.{Decimal, Le, decimal_zero}
use crypto_screener.Domain.Config.{
  ScreenerConfig, ok, max_fee, normalize_name, parse_rate, parse_part, parse_parts, parse_fees,
  split,
}
use crypto_screener.Domain.Config.Listing.{sort_texts, fee_part, or_zero_value, fees_string}
use crypto_screener.Domain.Config.Reading.{
  Without, IsSolid, trim_space-solid, split_once-append, split-join_comma,
}
use crypto_screener.Domain.Config.Reading.Sorted.{
  member, member-sort_texts, All-sort_texts, member-keys, member_self, either,
}

-- A name as normalize_name leaves it, that holds no space and none of the two separators.
pub record IsName (k : Text) : Type 0 where
  pub solid : IsSolid k
  pub no_comma : Without b',' k
  pub no_colon : Without b':' k
  pub upper : to_upper k ≡ k
  pub named : is_empty k ≡ false

-- The value is kept, as it reads back.
abbrev pub read_option : {D : Type 0} → (D → D) → Option D → Option D
read_option read none = none
read_option read (some v) = some (read v)

module _ {D : Type 0} ⦃dec : Decimal D⦄ (parse : Text → Option D) (print : D → Text) where
  -- How a rate is printed, and what it reads back as.
  pub record IsReadable (read : D → D) (v : D) : Type 0 where
    pub solid : IsSolid (print v)
    pub no_comma : Without b',' (print v)
    pub parsed : parse (print v) ≡ some (read v)
    pub nonneg : Le decimal_zero (read v)
    pub within : Le (read v) max_fee

  module _ (read : D → D) (c : ScreenerConfig D) where
    abbrev rate_of : Text → D
    rate_of k = or_zero_value print (lookup k c.fees)

    abbrev IsGood : Text → Type 0
    IsGood k = IsName k × IsReadable read (rate_of k)

    -- The parts of the list, one after the other.
    abbrev insert_all : List Text → Map Text D → Map Text D
    insert_all [] out = out
    insert_all (k ∷ ks) out = insert_all ks (insert k (read (rate_of k)) out)

    IsSolid-part : (k : Text) → IsGood k → IsSolid (fee_part print c k)
    IsSolid-part k h = All-append _ k _ h.0.solid (refl, h.1.solid)

    part_no_comma : (k : Text) → IsGood k → Without b',' (fee_part print c k)
    part_no_comma k h = All-append _ k _ h.0.no_comma (refl, h.1.no_comma)

    normal : (k : Text) → IsName k → normalize_name k ≡ k
    normal k h = ap to_upper (trim_space-solid k h.solid) ∙ h.upper

    rate_read :
        (part k : Text) (out : Map Text D)
        → IsGood k
        → parse_rate parse part k (print (rate_of k)) out ≡ ok (insert k (read (rate_of k)) out)
    unfolding parse_rate
    rate_read part k out h =
        rw
          (
            parse_rate,
            trim_space-solid (print (rate_of k)) h.1.solid,
            h.1.parsed,
            h.1.nonneg,
            h.1.within,
          )
          refl

    part_read :
        (k : Text) (out : Map Text D)
        → IsGood k
        → parse_part parse (fee_part print c k) out ≡ ok (insert k (read (rate_of k)) out)
    unfolding parse_part
    part_read k out h =
        let cut = split_once-append b':' k (print (rate_of k)) h.0.no_colon in
        rw (parse_part, cut, normal k h.0, h.0.named) (rate_read (fee_part print c k) k out h)

    full_part : (k : Text) → IsName k → is_empty (fee_part print c k) ≡ false
    full_part [] h = refl
    full_part (b ∷ k) h = refl

    parts_read :
        (ks : List Text) (out : Map Text D)
        → All IsGood ks
        → parse_parts parse (map (fee_part print c) ks) out ≡ ok (insert_all ks out)
    unfolding parse_parts
    parts_read [] out h = refl
    parts_read (k ∷ ks) out (h, hs) =
        let trimmed = trim_space-solid (fee_part print c k) (IsSolid-part k h) in
        rw (trimmed, full_part k h.0, part_read k out h)
          (parts_read ks (insert k (read (rate_of k)) out) hs)

    lookup-insert_all :
        (j : Text) (ks : List Text) (out : Map Text D)
        → lookup j (insert_all ks out)
          ≡ (if member j ks then some (read (rate_of j)) else lookup j out)
    lookup-insert_all j [] out = refl
    lookup-insert_all j (k ∷ ks) out =
        lookup-insert_all j ks (insert k (read (rate_of k)) out)
        ∙ ap (λ l. if member j ks then some (read (rate_of j)) else l)
            (lookup-insert k j (read (rate_of k)) out)
        ∙ either (k == j) (member j ks) _ _ _
            (λ hit. ap (λ t. some (read (rate_of t))) ((text_eq.same_iff k j).0 hit))

    -- Every entry has a name and a rate that reads back.
    abbrev pub IsReadableList : Type 0
    IsReadableList = All (λ (p : Text × D). IsName p.0 × IsReadable read p.1) c.fees

    IsGood-of : (k : Text) → IsReadableList → member k (map (λ p. p.0) c.fees) ≡ true → IsGood k
    IsGood-of k h m = elim (Option-cases (lookup k c.fees)) [
      | inl e ↦ cc (sym (member-keys k c.fees) ∙ m, ap is_some e)
      | inr (v, e) ↦
          let here = All-lookup (λ (p : Text × D). IsName p.0 × IsReadable read p.1) k c.fees h e in
          (here.0, subst (IsReadable read) (sym (ap (or_zero_value print) e)) here.1)
    ]

    all-IsGood :
        (ks : List Text)
        → IsReadableList
        → All (λ k. member k (map (λ p. p.0) c.fees) ≡ true) ks
        → All IsGood ks
    all-IsGood [] h m = tt
    all-IsGood (k ∷ ks) h (m, ms) = (IsGood-of k h m, all-IsGood ks h ms)

    all_commas : (ks : List Text) → All IsGood ks → All (Without b',') (map (fee_part print c) ks)
    all_commas [] h = tt
    all_commas (k ∷ ks) (h, hs) = (part_no_comma k h, all_commas ks hs)

    -- What ParseFees makes of a list that has parts.
    read_parts :
        (ks : List Text) (out : Map Text D)
        → All IsGood ks
        → parse_parts parse (split b',' (join_comma (map (fee_part print c) ks))) out
          ≡ ok (insert_all ks out)
    unfolding parse_parts join_comma split trim_space
    read_parts [] out h = refl
    read_parts (k ∷ ks) out h =
        ap (λ l. parse_parts parse l out)
          (split-join_comma (fee_part print c k) (map (fee_part print c) ks)
            (all_commas (k ∷ ks) h))
        ∙ parts_read (k ∷ ks) out h

    insert_all-found :
        (k : Text) (ks : List Text) (o : Option D)
        → lookup k c.fees ≡ o
        → (if is_some o then some (read (rate_of k)) else none) ≡ read_option read o
    insert_all-found k ks none e = refl
    insert_all-found k ks (some v) e = ap (λ t. some (read (or_zero_value print t))) e

    -- ParseFees reads the text of FeesString back to a map that holds for every name the rate that
    -- was there, as it reads back, and nothing for other names. The names are not empty, in upper
    -- case, without spaces, commas and colons; the printed rates hold no space and no comma, and
    -- are read as a rate within the limits.
    pub fees_string-parse_fees :
        IsReadableList
        → (out : Map Text D) × ((parse_fees parse (fees_string print (some c)) ≡ ok out)
            × ((k : Text) → lookup k out ≡ read_option read (lookup k c.fees)))
    unfolding fees_string parse_fees lookup
    fees_string-parse_fees h =
        let keys = map (λ (p : Text × D). p.0) c.fees in
        let ks = sort_texts keys in
        let inside = All-sort_texts (λ k. member k keys ≡ true) keys (member_self keys) in
        (
          insert_all ks [],
          (
            read_parts ks [] (all-IsGood ks h inside),
            λ k.
                lookup-insert_all k ks []
                ∙ ap (λ b. if b then some (read (rate_of k)) else none)
                    (member-sort_texts k keys ∙ member-keys k c.fees)
                ∙ insert_all-found k ks (lookup k c.fees) refl,
          ),
        )
