-- ===== src/Mexc/RoundTrip.antt =====
-- The decoder of adapters/mexc/proto.go against the encoding of a message that the protobuf format
-- defines: a message is a list of fields in any order, and a later field wins.
use crypto_screener.Base.{
  ℕ, zero, suc, ◌+◌, ◌*◌, ◌^◌, ◌<◌, ◌≤◌, false, List, [], ◌∷◌, ◌++◌, if◌then◌else◌, length, ◌≡◌,
  refl, ap, ◌∙◌, arith, some, All, length-append, Bool-cases, inl, inr,
}
use mathlib.Core.List.{append_assoc}
use crypto_screener.Base.Eq.{nat_eq, ◌==◌}
use crypto_screener.Mexc.{Bytes, Result, ok, skip_proto_bytes}
use crypto_screener.Mexc.Varint.{
  encode_varint, encode_key, encode_bytes, drop-length, encode_varint-nonempty,
  read_proto_varint-encode_varint, read_proto_key-encode_key, read_proto_bytes-encode_bytes,
}
use crypto_screener.Mexc.Fields.{
  MexcSpotKline, WrapperState, empty_kline, with_out, set_wrapper_varint, set_kline_varint,
  set_kline_bytes, wrapper_bytes, wrapper_field, wrapper_round, payload_field, payload_round,
  rounds, decode_mexc_kline_payload, decode_mexc_spot_kline, finish,
}

-- A field's number and value.
pub data Field : Type 0 where
  varint_field : ℕ → ℕ → Field
  bytes_field : ℕ → Bytes → Field

abbrev pub encode_field : Field → Bytes
encode_field (varint_field n v) = encode_key n 0 ++ encode_varint v
encode_field (bytes_field n value) = encode_key n 2 ++ encode_bytes value

abbrev pub encode_message : List Field → Bytes
encode_message [] = []
encode_message (f ∷ fs) = encode_field f ++ encode_message fs

-- What the format can hold.
abbrev pub IsField : Field → Type 0
IsField (varint_field n v) = (0 < n) × ((n * 8 + 2 < 2 ^ 64) × (v < 2 ^ 64))
IsField (bytes_field n value) = (0 < n) × ((n * 8 + 2 < 2 ^ 64) × (length value < 2 ^ 64))

abbrev pub fold_fields : {S : Type 0} → (Field → S → S) → List Field → S → S
fold_fields apply [] st = st
fold_fields apply (f ∷ fs) st = fold_fields apply fs (apply f st)

-- What a field says of the kline, and of the wrapper.
abbrev pub kline_of : Field → MexcSpotKline → MexcSpotKline
kline_of (varint_field n v) out = set_kline_varint n v out
kline_of (bytes_field n value) out = set_kline_bytes n value out

abbrev pub wrapper_of : Field → WrapperState → WrapperState
wrapper_of (varint_field n v) st = set_wrapper_varint n v st
wrapper_of (bytes_field n value) st =
    if n == 1
    then with_out st (record st.out { channel = value })
    else if n == 3
    then with_out st (record st.out { symbol = value })
    else if n == 4
    then st
    else if n == 308
    then record st { payload = value }
    else st

encode_field-nonempty : (f : Field) → 0 < length (encode_field f)
encode_field-nonempty (varint_field n v) =
    let size = length-append (encode_key n 0) (encode_varint v) in
    let some_ = encode_varint-nonempty (n * 8 + 0) in omega arith
encode_field-nonempty (bytes_field n value) =
    let size = length-append (encode_key n 2) (encode_bytes value) in
    let some_ = encode_varint-nonempty (n * 8 + 2) in omega arith

module _ {S : Type 0} (round : S → Bytes → Result (S × Bytes)) where
  -- One round of the loop, and the fuel that is left.
  rounds-next :
      (fuel : ℕ) (st st' : S) (bytes rest : Bytes)
      → 0 < length bytes
      → length rest < length bytes
      → length bytes ≤ fuel
      → round st bytes ≡ ok (st', rest)
      → (left : ℕ) × ((length rest ≤ left)
          × (rounds round fuel st bytes ≡ rounds round left st' rest))
  rounds-next fuel st st' [] rest some_ less enough e = let no : ⊥ = omega arith in absurd no
  rounds-next zero st st' (b ∷ bytes) rest some_ less enough e =
      let no : ⊥ = omega arith in absurd no
  rounds-next (suc fuel) st st' (b ∷ bytes) rest some_ less enough e =
      (fuel, (omega arith, rw (rounds, e) refl))

  module _ (apply : Field → S → S)
      (reads : (f : Field) (st : S) (rest : Bytes)
        → IsField f
        → round st (encode_field f ++ rest) ≡ ok (apply f st, rest)) where
    rounds-encode_message :
        (fs : List Field) (fuel : ℕ) (st : S)
        → All IsField fs
        → length (encode_message fs) ≤ fuel
        → rounds round fuel st (encode_message fs) ≡ some (ok (fold_fields apply fs st))
    rounds-encode_message [] fuel st h enough = refl
    rounds-encode_message (f ∷ fs) fuel st (h, hs) enough =
        let size = length-append (encode_field f) (encode_message fs) in
        let some_ = encode_field-nonempty f in
        let (left, (enough', same)) =
          rounds-next fuel st (apply f st) (encode_field f ++ encode_message fs) (encode_message fs)
            (omega arith) (omega arith) enough (reads f st (encode_message fs) h) in
        same ∙ rounds-encode_message fs left (apply f st) hs enough'

payload_round-encode_field :
    (f : Field) (out : MexcSpotKline) (rest : Bytes)
    → IsField f
    → payload_round out (encode_field f ++ rest) ≡ ok (kline_of f out, rest)
unfolding payload_round payload_field
payload_round-encode_field (varint_field n v) out rest (some_, (fits, small)) =
    rw
      (
        append_assoc (encode_key n 0) (encode_varint v) rest,
        read_proto_key-encode_key n 0 (encode_varint v ++ rest) some_ (omega arith) (omega arith),
        drop-length (encode_key n 0) (encode_varint v ++ rest),
        read_proto_varint-encode_varint v rest small,
        drop-length (encode_varint v) rest,
      )
      refl
payload_round-encode_field (bytes_field n value) out rest (some_, (fits, small)) =
    rw
      (
        append_assoc (encode_key n 2) (encode_bytes value) rest,
        read_proto_key-encode_key n 2 (encode_bytes value ++ rest) some_ (omega arith) fits,
        drop-length (encode_key n 2) (encode_bytes value ++ rest),
        read_proto_bytes-encode_bytes value rest small,
        drop-length (encode_bytes value) rest,
      )
      refl

wrapper_bytes-encode_bytes :
    (n : ℕ) (value rest : Bytes) (st : WrapperState)
    → length value < 2 ^ 64
    → wrapper_bytes n (encode_bytes value ++ rest) st
      ≡ ok (wrapper_of (bytes_field n value) st, rest)
unfolding wrapper_bytes skip_proto_bytes
wrapper_bytes-encode_bytes n value rest st small =
    let read = read_proto_bytes-encode_bytes value rest small in
    let after = drop-length (encode_bytes value) rest in
    elim (Bool-cases (n == 1)) [
      | inl e ↦ rw (e, read, after) refl
      | inr e ↦ elim (Bool-cases (n == 3)) [
        | inl f ↦ rw (e, f, read, after) refl
        | inr f ↦ elim (Bool-cases (n == 4)) [
          | inl g ↦ rw (e, f, g, read, after) refl
          | inr g ↦ elim (Bool-cases (n == 308)) [
            | inl i ↦ rw (e, f, g, i, read, after) refl
            | inr i ↦ rw (e, f, g, i, read, after) refl
          ]
        ]
      ]
    ]

wrapper_round-encode_field :
    (f : Field) (st : WrapperState) (rest : Bytes)
    → IsField f
    → wrapper_round st (encode_field f ++ rest) ≡ ok (wrapper_of f st, rest)
unfolding wrapper_round wrapper_field
wrapper_round-encode_field (varint_field n v) st rest (some_, (fits, small)) =
    rw
      (
        append_assoc (encode_key n 0) (encode_varint v) rest,
        read_proto_key-encode_key n 0 (encode_varint v ++ rest) some_ (omega arith) (omega arith),
        drop-length (encode_key n 0) (encode_varint v ++ rest),
        read_proto_varint-encode_varint v rest small,
        drop-length (encode_varint v) rest,
      )
      refl
wrapper_round-encode_field (bytes_field n value) st rest (some_, (fits, small)) =
    rw
      (
        append_assoc (encode_key n 2) (encode_bytes value) rest,
        read_proto_key-encode_key n 2 (encode_bytes value ++ rest) some_ (omega arith) fits,
        drop-length (encode_key n 2) (encode_bytes value ++ rest),
      )
      (wrapper_bytes-encode_bytes n value rest st small)

finish-encode_message :
    (st : WrapperState) (ks : List Field)
    → All IsField ks
    → st.payload ≡ encode_message ks
    → 0 < length ks
    → finish (ok st) ≡ some (ok (fold_fields kline_of ks st.out))
unfolding finish decode_mexc_kline_payload
finish-encode_message st [] h e some_ = let no : ⊥ = omega arith in absurd no
finish-encode_message st (k ∷ ks) h e some_ =
    let size = length-append (encode_field k) (encode_message ks) in
    let more = encode_field-nonempty k in
    let full : (length (encode_message (k ∷ ks)) == 0) ≡ false = ground arith in
    let read =
      rounds-encode_message payload_round kline_of payload_round-encode_field (k ∷ ks)
        (length (encode_message (k ∷ ks))) st.out h (omega arith) in
    ap (λ p. finish (ok (record st { payload = p }))) e ∙ rw (full, read) refl

-- The decoder reads back a message that is encoded as the protobuf format defines: fields with
-- varints and strings in any order, known or not, the last one of a number counting, and the kline
-- inside read on top of the wrapper. The numbers are positive and fit a key of 64 bits, the values
-- and lengths fit 64 bits, the payload of field 308 is the encoding of the kline's fields, and
-- there is at least one of these.
pub decode_mexc_spot_kline-encode_message :
    (fs ks : List Field)
    → All IsField fs
    → All IsField ks
    → 0 < length ks
    → let st = fold_fields wrapper_of fs (record { out = empty_kline; payload = [] }) in
      st.payload ≡ encode_message ks
      → decode_mexc_spot_kline (encode_message fs) ≡ some (ok (fold_fields kline_of ks st.out))
unfolding decode_mexc_spot_kline
decode_mexc_spot_kline-encode_message fs ks hf hk some_ e =
    let start : WrapperState = record { out = empty_kline; payload = [] } in
    rw
      (
        decode_mexc_spot_kline,
        rounds-encode_message wrapper_round wrapper_of wrapper_round-encode_field fs
            (length (encode_message fs)) start hf (omega arith),
      )
      (finish-encode_message (fold_fields wrapper_of fs start) ks hk e some_)
