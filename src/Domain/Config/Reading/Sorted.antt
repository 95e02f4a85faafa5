-- ===== src/Domain/Config/Reading/Sorted.antt =====
-- Membership in a sorted list, for the names of FeesString in internal/domain/config.go.
use crypto_screener.Base.{
  Bool, true, false, List, [], ◌∷◌, if◌then◌else◌, ◌≡◌, refl, ap, ◌∙◌, All, map, arith,
}
use crypto_screener.Base.Eq.{text_eq, ◌==◌, ==_refl}
use crypto_screener.Base.Map.{Map, lookup, has_key}
use crypto_screener.Base.Text.{Text}
use crypto_screener.Domain.Config.Listing.{place, sort_texts}

abbrev pub member : Text → List Text → Bool
member j [] = false
member j (k ∷ ks) = if k == j then true else member j ks

pub member-place :
    (j s : Text) (ts : List Text) → member j (place s ts) ≡ (if s == j then true else member j ts)
unfolding place
member-place j s [] = refl
member-place j s (t ∷ ts) = ground (arith, member-place j s ts)

pub member-sort_texts : (j : Text) (ts : List Text) → member j (sort_texts ts) ≡ member j ts
unfolding sort_texts
member-sort_texts j [] = refl
member-sort_texts j (t ∷ ts) =
    member-place j t (sort_texts ts) ∙ ap (λ b. if t == j then true else b) (member-sort_texts j ts)

pub All-place :
    (P : Text → Type 0) (s : Text) (ts : List Text) → P s → All P ts → All P (place s ts)
unfolding place
All-place P s [] h hs = (h, tt)
All-place P s (t ∷ ts) h (k, ks) = ground (arith, All-place P s ts h ks)

pub All-sort_texts : (P : Text → Type 0) (ts : List Text) → All P ts → All P (sort_texts ts)
unfolding sort_texts
All-sort_texts P [] h = tt
All-sort_texts P (t ∷ ts) (h, hs) = All-place P t _ h (All-sort_texts P ts hs)

pub member-keys :
    {D : Type 0} (j : Text) (m : Map Text D) → member j (map (λ p. p.0) m) ≡ has_key j m
unfolding lookup
member-keys j [] = refl
member-keys j ((k, v) ∷ m) = ground (arith, member-keys j m)

pub member-tail :
    (k : Text) (ks xs : List Text)
    → All (λ j. member j ks ≡ true) xs
    → All (λ j. member j (k ∷ ks) ≡ true) xs
member-tail k ks [] h = tt
member-tail k ks (x ∷ xs) (h, hs) = (ground arith, member-tail k ks xs hs)

pub member_self : (ks : List Text) → All (λ j. member j ks ≡ true) ks
member_self [] = tt
member_self (k ∷ ks) = (rw (==_refl {A = Text} k) refl, member-tail k ks ks (member_self ks))

pub either :
    {A : Type 0} (h m : Bool) (v a l : A)
    → (h ≡ true → v ≡ a)
    → (if m then a else if h then v else l) ≡ (if (if h then true else m) then a else l)
either true true v a l e = refl
either true false v a l e = e refl
either false true v a l e = refl
either false false v a l e = refl
