-- ===== src/Mexc/Varint.antt =====
-- readProtoVarint, readProtoKey and readProtoBytes of adapters/mexc/proto.go against the encoding
-- that the protobuf format defines: seven bits to a byte, the low ones first.
use crypto_screener.Base.{
  ℕ, zero, suc, ◌+◌, ◌-◌, ◌*◌, ◌/◌, ◌%◌, ◌^◌, ◌<◌, false, [], ◌∷◌, ◌++◌, ltb, if◌then◌else◌, length,
  take, drop, ◌≡◌, refl, ◌∙◌, ap, arith, length-append, inl, inr, Bool-cases,
}
use mathlib.Core.List.{append_assoc}
use native.Mathlib.Nat.{mod-eq_of_lt}
use native.Mathlib.Numerals.{towards_suc}
use crypto_screener.Mexc.{
  Bytes, ok, read_varint_from, read_proto_varint, read_proto_key, read_proto_bytes,
}

abbrev put_varint : ℕ → ℕ → Bytes
put_varint zero v = v ∷ []
put_varint (suc k) v =
    let rest = put_varint k (v / 128) in if ltb v 128 then v ∷ [] else (128 + v % 128) ∷ rest

unfoldable pub encode_varint : ℕ → Bytes
encode_varint v = put_varint 9 v

pub shift_seven : (i : ℕ) → 2 ^ (7 * suc i) ≡ 128 * 2 ^ (7 * i)
shift_seven i = let e : 7 * suc i ≡ 7 * i + 7 = omega arith in rw e (simp towards_suc (omega arith))

split_group : (v p : ℕ) → v * p ≡ v % 128 * p + v / 128 * (128 * p)
split_group v p =
    let e : v ≡ v % 128 + v / 128 * 128 = omega arith in omega (arith, ap (λ (n : ℕ). n * p) e)

read_last :
    (i acc b : ℕ) (rest : Bytes)
    → i < 10
    → b < 128
    → b * 2 ^ (7 * i) < 2 ^ 64
    → read_varint_from i acc (b ∷ rest) ≡ ok (acc + b * 2 ^ (7 * i), suc i)
unfolding read_varint_from
read_last i acc b rest few small fits = rw (mod-eq_of_lt small, mod-eq_of_lt fits) (ground arith)

read_more :
    (i acc b : ℕ) (rest : Bytes)
    → i < 10
    → b % 128 * 2 ^ (7 * i) < 2 ^ 64
    → read_varint_from i acc ((128 + b % 128) ∷ rest)
      ≡ read_varint_from (suc i) (acc + b % 128 * 2 ^ (7 * i)) rest
unfolding read_varint_from
read_more i acc b rest few fits =
    let same : (128 + b % 128) % 128 ≡ b % 128 = omega arith in
    rw (same, mod-eq_of_lt fits) (ground arith)

-- The groups of `v`, read from byte `i` on.
read_varint_from-put_varint :
    (k i acc v : ℕ) (rest : Bytes)
    → i + k ≡ 9
    → v * 2 ^ (7 * i) < 2 ^ 64
    → read_varint_from i acc (put_varint k v ++ rest)
      ≡ ok (acc + v * 2 ^ (7 * i), i + length (put_varint k v))
read_varint_from-put_varint zero i acc v rest nine fits =
    let e : i ≡ 9 = omega arith in
    let few : v < 128 = let f = rw e at fits in omega arith in
    read_last i acc v rest (omega arith) few fits
    ∙ ap (λ n. ok (acc + v * 2 ^ (7 * i), n)) (omega arith)
read_varint_from-put_varint (suc k) i acc v rest nine fits = elim (Bool-cases (ltb v 128)) [
  | inl small ↦ rw small (
      read_last i acc v rest (omega arith) (ground arith) fits
      ∙ ap (λ n. ok (acc + v * 2 ^ (7 * i), n)) (omega arith))
  | inr large ↦
      let p = 2 ^ (7 * i) in
      let split = split_group v p in
      let low : v % 128 * p < 2 ^ 64 = omega arith in
      let high : v / 128 * 2 ^ (7 * suc i) < 2 ^ 64 = rw (shift_seven i) (omega arith) in
      let sum : acc + v % 128 * p + v / 128 * 2 ^ (7 * suc i) ≡ acc + v * p =
        rw (shift_seven i) (omega arith) in
      let count : suc i + length (put_varint k (v / 128))
          ≡ i + suc (length (put_varint k (v / 128))) =
        omega arith in
      rw large (
        read_more i acc v (put_varint k (v / 128) ++ rest) (omega arith) low
        ∙ read_varint_from-put_varint k (suc i) (acc + v % 128 * p) (v / 128) rest (omega arith)
            high
        ∙ ap (λ x. ok (x, suc i + length (put_varint k (v / 128)))) sum
        ∙ ap (λ n. ok (acc + v * p, n)) count)
]

pub read_proto_varint-encode_varint :
    (v : ℕ) (rest : Bytes)
    → v < 2 ^ 64
    → read_proto_varint (encode_varint v ++ rest) ≡ ok (v, length (encode_varint v))
unfolding read_proto_varint encode_varint
read_proto_varint-encode_varint v rest h =
    read_varint_from-put_varint 9 0 0 v rest refl (omega arith)
    ∙ ap (λ x. ok (x, 0 + length (put_varint 9 v))) (omega arith)
    ∙ ap (λ n. ok (v, n)) (omega arith)

put_varint-nonempty : (k v : ℕ) → 0 < length (put_varint k v)
put_varint-nonempty zero v = omega arith
put_varint-nonempty (suc k) v = ground arith

pub encode_varint-nonempty : (v : ℕ) → 0 < length (encode_varint v)
unfolding encode_varint
encode_varint-nonempty v = put_varint-nonempty 9 v

pub drop-length : (xs ys : Bytes) → drop (length xs) (xs ++ ys) ≡ ys
drop-length [] ys = refl
drop-length (x ∷ xs) ys = drop-length xs ys

take-length : (xs ys : Bytes) → take (length xs) (xs ++ ys) ≡ xs
take-length [] ys = refl
take-length (x ∷ xs) ys = ap (◌∷◌ x) (take-length xs ys)

abbrev pub encode_key : ℕ → ℕ → Bytes
encode_key field wire = encode_varint (field * 8 + wire)

abbrev pub encode_bytes : Bytes → Bytes
encode_bytes value = encode_varint (length value) ++ value

pub read_proto_key-encode_key :
    (field wire : ℕ) (rest : Bytes)
    → 0 < field
    → wire < 8
    → field * 8 + wire < 2 ^ 64
    → read_proto_key (encode_key field wire ++ rest)
      ≡ ok (field, wire, length (encode_key field wire))
unfolding read_proto_key
read_proto_key-encode_key field wire rest some_ small fits =
    let q : (field * 8 + wire) / 8 ≡ field = omega arith in
    let r : (field * 8 + wire) % 8 ≡ wire = omega arith in
    rw (read_proto_varint-encode_varint (field * 8 + wire) rest fits) (rw (q, r) (ground arith))

pub read_proto_bytes-encode_bytes :
    (value rest : Bytes)
    → length value < 2 ^ 64
    → read_proto_bytes (encode_bytes value ++ rest) ≡ ok (value, length (encode_bytes value))
unfolding read_proto_bytes
read_proto_bytes-encode_bytes value rest fits =
    let size = length value in
    let head_ = encode_varint size in
    let n = length head_ in
    let total : length (head_ ++ (value ++ rest)) - n ≡ size + length rest =
      rw (length-append head_ (value ++ rest), length-append value rest) (omega arith) in
    let no_less : ltb (size + length rest) size ≡ false = ground arith in
    rw (append_assoc head_ value rest, read_proto_varint-encode_varint size (value ++ rest) fits)
      (rw
        (
          total,
          no_less,
          drop-length head_ (value ++ rest),
          take-length value rest,
          length-append head_ value,
        )
        refl)
