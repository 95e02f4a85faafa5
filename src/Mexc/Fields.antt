-- ===== src/Mexc/Fields.antt =====
-- The two loops of decodeMEXCSpotKline and decodeMEXCKlinePayload, a round each, and the decoder.
-- A loop runs on fuel, with as many rounds as there are bytes.
use crypto_screener.Base.{
  ℕ, zero, suc, ◌||◌, [], ◌∷◌, ltb, if◌then◌else◌, length, drop, Option, none, some, not,
}
use crypto_screener.Base.Eq.{nat_eq, ◌==◌}
use crypto_screener.Base.Text.{Text}
use crypto_screener.Base.Int.{ℤ, pos}
use crypto_screener.Mexc.{
  Bytes, Result, ok, err, ◌>>=◌, wrap, read_proto_key, read_proto_varint, read_proto_bytes,
  skip_proto_bytes, to_int64, read_wrapper_key, read_wrapper_channel, read_wrapper_spot_kline,
  decode_public_spot_kline, read_key, read_wrapper_field, skip_wrapper_field, read_varint_field,
  read_bytes_field, no_spot_kline, truncated_fixed64, truncated_fixed32, unsupported_wire_type,
  unsupported_wrapper_wire_type,
}

pub record MexcSpotKline : Type 0 where
  pub channel : Text
  pub symbol : Text
  pub create_time : ℤ
  pub send_time : ℤ
  pub interval : Text
  pub window_start : ℤ
  pub amount : Text
  pub window_end : ℤ

abbrev pub empty_kline : MexcSpotKline
empty_kline = record {
  channel = [];
  symbol = [];
  create_time = pos 0;
  send_time = pos 0;
  interval = [];
  window_start = pos 0;
  amount = [];
  window_end = pos 0;
}

-- What the loop over the wrapper carries: `out` and `klinePayload`.
pub record WrapperState : Type 0 where
  pub out : MexcSpotKline
  pub payload : Bytes

abbrev pub with_out : WrapperState → MexcSpotKline → WrapperState
with_out st out = record st { out = out }

-- The switch on the fields that a varint sets.
abbrev pub set_wrapper_varint : ℕ → ℕ → WrapperState → WrapperState
set_wrapper_varint field value st =
    if field == 5
    then with_out st (record st.out { create_time = to_int64 value })
    else if field == 6
    then with_out st (record st.out { send_time = to_int64 value })
    else st

-- Wire type 2 in the wrapper.
unfoldable pub wrapper_bytes : ℕ → Bytes → WrapperState → Result (WrapperState × Bytes)
wrapper_bytes field bytes st =
    if field == 1
    then (do
      (value, n) ← wrap read_wrapper_channel (read_proto_bytes bytes)
      ok (with_out st (record st.out { channel = value }), drop n bytes))
    else if (field == 3) || (field == 4)
    then (do
      (value, n) ← wrap (read_wrapper_field field) (read_proto_bytes bytes)
      ok (if field == 3 then with_out st (record st.out { symbol = value }) else st, drop n bytes))
    else if field == 308
    then (do
      (value, n) ← wrap read_wrapper_spot_kline (read_proto_bytes bytes)
      ok (record st { payload = value }, drop n bytes))
    else (do rest ← wrap (skip_wrapper_field field) (skip_proto_bytes bytes); ok (st, rest))

-- The switch on the wire type, after the key.
unfoldable pub wrapper_field : ℕ → ℕ → Bytes → WrapperState → Result (WrapperState × Bytes)
wrapper_field field wire bytes st =
    if wire == 0
    then (do
      (value, n) ← wrap (read_wrapper_field field) (read_proto_varint bytes)
      ok (set_wrapper_varint field value st, drop n bytes))
    else if wire == 2
    then wrapper_bytes field bytes st
    else if wire == 1
    then (if ltb (length bytes) 8 then err (truncated_fixed64 field) else ok (st, drop 8 bytes))
    else if wire == 5
    then (if ltb (length bytes) 4 then err (truncated_fixed32 field) else ok (st, drop 4 bytes))
    else err (unsupported_wrapper_wire_type field wire)

unfoldable pub wrapper_round : WrapperState → Bytes → Result (WrapperState × Bytes)
wrapper_round st bytes = do
  (field, wire, n) ← wrap read_wrapper_key (read_proto_key bytes)
  wrapper_field field wire (drop n bytes) st

abbrev pub set_kline_varint : ℕ → ℕ → MexcSpotKline → MexcSpotKline
set_kline_varint field value out =
    if field == 2
    then record out { window_start = to_int64 value }
    else if field == 9
    then record out { window_end = to_int64 value }
    else out

abbrev pub set_kline_bytes : ℕ → Bytes → MexcSpotKline → MexcSpotKline
set_kline_bytes field value out =
    if field == 1
    then record out { interval = value }
    else if field == 8
    then record out { amount = value }
    else out

unfoldable pub payload_field : ℕ → ℕ → Bytes → MexcSpotKline → Result (MexcSpotKline × Bytes)
payload_field field wire bytes out =
    if wire == 0
    then (do
      (value, n) ← wrap (read_varint_field field) (read_proto_varint bytes)
      ok (set_kline_varint field value out, drop n bytes))
    else if not (wire == 2)
    then err (unsupported_wire_type wire field)
    else (do
      (value, n) ← wrap (read_bytes_field field) (read_proto_bytes bytes)
      ok (set_kline_bytes field value out, drop n bytes))

unfoldable pub payload_round : MexcSpotKline → Bytes → Result (MexcSpotKline × Bytes)
payload_round out bytes = do
  (field, wire, n) ← wrap read_key (read_proto_key bytes)
  payload_field field wire (drop n bytes) out

-- `for len(data) > 0 { ... }`; none when the fuel is spent.
abbrev pub rounds :
    {S : Type 0} → (S → Bytes → Result (S × Bytes)) → ℕ → S → Bytes → Option (Result S)
rounds round fuel st [] = some (ok st)
rounds round zero st (b ∷ bytes) = none
rounds round (suc fuel) st (b ∷ bytes) = elim (round st (b ∷ bytes)) [
  | err e ↦ some (err e)
  | ok (st', rest) ↦ rounds round fuel st' rest
]

unfoldable pub decode_mexc_kline_payload : Bytes → MexcSpotKline → Option (Result MexcSpotKline)
decode_mexc_kline_payload bytes out = rounds payload_round (length bytes) out bytes

-- What is done once the wrapper is read.
unfoldable pub finish : Result WrapperState → Option (Result MexcSpotKline)
finish (err e) = some (err e)
finish (ok st) =
    if length st.payload == 0
    then some (err no_spot_kline)
    else elim (decode_mexc_kline_payload st.payload st.out) [
      | none ↦ none
      | some r ↦ some (wrap decode_public_spot_kline r)
    ]

unfoldable pub decode_mexc_spot_kline : Bytes → Option (Result MexcSpotKline)
decode_mexc_spot_kline bytes =
    elim (rounds wrapper_round (length bytes) (record { out = empty_kline; payload = [] }) bytes) [
      | none ↦ none
      | some r ↦ finish r
    ]
