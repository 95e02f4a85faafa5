-- ===== src/Tests/Wire.antt =====
-- Runs of the theorems on adapters/mexc/proto.go: a message of one kline, and a long varint.
use crypto_screener.Base.{length, ◌<◌, ◌^◌, ◌≡◌, ◌≢◌, [], ◌∷◌, List, refl, none, some, arith}
use crypto_screener.Base.Text.{text}
use crypto_screener.Mexc.{Bytes, ok}
use crypto_screener.Mexc.Varint.{encode_varint}
use crypto_screener.Mexc.Fields.{WrapperState, empty_kline, decode_mexc_spot_kline}
use crypto_screener.Mexc.Rounds.{decode_mexc_spot_kline-total}
use crypto_screener.Mexc.RoundTrip.{
  Field, varint_field, bytes_field, encode_message, fold_fields, wrapper_of, kline_of,
  decode_mexc_spot_kline-encode_message,
}

abbrev kline_fields : List Field
kline_fields =
    bytes_field 1 (text "Min1")
    ∷ varint_field 2 1700000000
    ∷ bytes_field 8 (text "250.5")
    ∷ varint_field 9 1700000060
    ∷ []

abbrev payload : Bytes
payload = encode_message kline_fields

abbrev wrapper_fields : List Field
wrapper_fields =
    bytes_field 1 (text "spot@public.kline")
    ∷ bytes_field 3 (text "BTCUSDT")
    ∷ varint_field 6 1700000061000
    ∷ bytes_field 308 payload
    ∷ []

abbrev start : WrapperState
start = record { out = empty_kline; payload = [] }

decode_mexc_spot_kline-encode_message_example :
    decode_mexc_spot_kline (encode_message wrapper_fields)
    ≡ some
        (ok (fold_fields kline_of kline_fields (fold_fields wrapper_of wrapper_fields start).out))
unfolding encode_varint
decode_mexc_spot_kline-encode_message_example =
    let size : length payload < 2 ^ 64 = ground arith in
    decode_mexc_spot_kline-encode_message wrapper_fields kline_fields
      (
        (ground arith, (ground arith, ground arith)),
        (
          (ground arith, (ground arith, ground arith)),
          (
            (ground arith, (ground arith, ground arith)),
            ((ground arith, (ground arith, size)), tt),
          ),
        ),
      )
      (
        (ground arith, (ground arith, ground arith)),
        (
          (ground arith, (ground arith, ground arith)),
          (
            (ground arith, (ground arith, ground arith)),
            ((ground arith, (ground arith, ground arith)), tt),
          ),
        ),
      )
      (omega arith) refl

decode_mexc_spot_kline-total_example : decode_mexc_spot_kline (255 ∷ 255 ∷ []) ≢ none
decode_mexc_spot_kline-total_example = decode_mexc_spot_kline-total (255 ∷ 255 ∷ [])
