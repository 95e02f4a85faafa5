-- ===== src/Mexc.antt =====
-- internal/adapters/mexc/proto.go: the decoder of MEXC's protobuf messages. A byte is a number, a
-- string its bytes; a uint64 is a number below 2 ^ 64, and `int` has 64 bits, so that neither
-- value >> 3 nor a length within the data is changed by the conversion to it.
pub mod Fields
pub mod Varint
pub mod Bounds
pub mod Rounds
pub mod RoundTrip
use crypto_screener.Base.{
  ℕ, zero, suc, ◌+◌, ◌-◌, ◌*◌, ◌/◌, ◌%◌, ◌^◌, Bool, ◌||◌, List, [], ◌∷◌, ltb, leb, if◌then◌else◌,
  length, take, drop, ◌≡◌, refl, ◌⊎◌, inl, inr,
}
use crypto_screener.Base.Eq.{nat_eq, ◌==◌}
use crypto_screener.Base.Int.{ℤ, pos, negsuc}

abbrev pub Bytes : Type 0
Bytes = List ℕ

pub data Context : Type 0 where
  read_wrapper_key read_wrapper_channel read_wrapper_spot_kline decode_public_spot_kline : Context
  read_key : Context
  read_wrapper_field skip_wrapper_field read_varint_field read_bytes_field : ℕ → Context

-- The errors by their messages; `within` is the wrapping of an error in another.
pub data ProtoError : Type 0 where
  varint_exceeds_10_bytes truncated_varint no_spot_kline : ProtoError
  invalid_field_number : ℕ → ProtoError
  length_exceeds : ℕ → ℕ → ProtoError
  truncated_fixed64 truncated_fixed32 : ℕ → ProtoError
  unsupported_wire_type unsupported_wrapper_wire_type : ℕ → ℕ → ProtoError
  within : Context → ProtoError → ProtoError

pub data Result {ℓ} (A : Type ℓ) : Type ℓ where
  ok : A → Result A
  err : ProtoError → Result A

pub Result-cases {ℓ} :
    {A : Type ℓ} (r : Result A) → ((a : A) × (r ≡ ok a)) ⊎ ((e : ProtoError) × (r ≡ err e))
Result-cases (ok a) = inl (a, refl)
Result-cases (err e) = inr (e, refl)

infixl 1 ◌>>=◌
abbrev pub ◌>>=◌ {ℓ κ} : {A : Type ℓ} {B : Type κ} → Result A → (A → Result B) → Result B
ok a >>= f = f a
err e >>= f = err e

-- `if err != nil { return ..., fmt.Errorf(... %w, err) }`.
abbrev pub wrap {ℓ} : {A : Type ℓ} → Context → Result A → Result A
wrap c (ok a) = ok a
wrap c (err e) = err (within c e)

-- The loop of readProtoVarint from byte `i` on. The bits that `|=` sets are above those of `value`,
-- so that it adds them; the shift drops what does not fit 64 bits.
unfoldable pub read_varint_from : ℕ → ℕ → Bytes → Result (ℕ × ℕ)
read_varint_from i value [] = err truncated_varint
read_varint_from i value (b ∷ bytes) =
    let value' = value + b % 128 * 2 ^ (7 * i) % 2 ^ 64 in
    let rest = read_varint_from (suc i) value' bytes in
    if leb 10 i then err varint_exceeds_10_bytes else if ltb b 128 then ok (value', suc i) else rest

unfoldable pub read_proto_varint : Bytes → Result (ℕ × ℕ)
read_proto_varint bytes = read_varint_from 0 0 bytes

-- The field, the wire type and the bytes read.
unfoldable pub read_proto_key : Bytes → Result (ℕ × ℕ × ℕ)
read_proto_key bytes = do
  (value, n) ← read_proto_varint bytes
  if leb (value / 8) 0 then err (invalid_field_number (value / 8)) else ok (value / 8, value % 8, n)

unfoldable pub read_proto_bytes : Bytes → Result (Bytes × ℕ)
read_proto_bytes bytes = do
  (size, n) ← read_proto_varint bytes
  if ltb (length bytes - n) size
      then err (length_exceeds size (length bytes - n))
      else ok (take size (drop n bytes), n + size)

unfoldable pub skip_proto_bytes : Bytes → Result Bytes
skip_proto_bytes bytes = do (value, n) ← read_proto_bytes bytes; ok (drop n bytes)

-- int64(value) of a uint64.
abbrev pub to_int64 : ℕ → ℤ
to_int64 v = if ltb v (2 ^ 63) then pos v else negsuc (2 ^ 64 - v - 1)
