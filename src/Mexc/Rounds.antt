-- ===== src/Mexc/Rounds.antt =====
-- The bytes that a round of the loops of adapters/mexc/proto.go takes, and the end of the loops.
use crypto_screener.Base.{
  ℕ, zero, suc, ◌<◌, ◌≤◌, ◌||◌, not, [], ◌∷◌, ltb, length, drop, ◌≢◌, arith, inl, inr, none,
  Option-cases, Bool-cases,
}
use crypto_screener.Base.Eq.{nat_eq, ◌==◌}
use crypto_screener.Mexc.{
  Bytes, Context, Result, Result-cases, skip_wrapper_field, read_wrapper_key, read_key, ok, err,
  ◌>>=◌, wrap, read_proto_varint, read_proto_key, read_proto_bytes, skip_proto_bytes,
}
use crypto_screener.Mexc.Bounds.{
  OnOk, OnOk-bind, OnOk-mono, OnOk-wrap, OnOk-if, length-drop, read_proto_varint-bounds,
  read_proto_key-bounds, read_proto_bytes-bounds,
}
use crypto_screener.Mexc.Fields.{
  MexcSpotKline, empty_kline, WrapperState, wrapper_bytes, wrapper_field, wrapper_round,
  payload_field, payload_round, rounds, decode_mexc_kline_payload, decode_mexc_spot_kline, finish,
}

module _ {S : Type 0} where
  abbrev pub Shrinks : (S → Bytes → Result (S × Bytes)) → Type 0
  Shrinks round = (st : S) (bytes : Bytes) → OnOk (λ r. length r.1 < length bytes) (round st bytes)

  pub rounds-total :
      (round : S → Bytes → Result (S × Bytes))
      → Shrinks round
      → (fuel : ℕ) (st : S) (bytes : Bytes) → length bytes ≤ fuel
      → rounds round fuel st bytes ≢ none
  rounds-total round h fuel st [] enough = λ e. cc
  rounds-total round h zero st (b ∷ bytes) enough = let no : ⊥ = omega arith in absurd no
  rounds-total round h (suc fuel) st (b ∷ bytes) enough =
      let less = h st (b ∷ bytes) in
      elim (Result-cases (round st (b ∷ bytes))) [
        | inr (e, failed) ↦ rw (rounds, failed) (λ no. cc)
        | inl ((st', rest), done) ↦
            let shorter = rw done at less in
            rw (rounds, done) (rounds-total round h fuel st' rest (omega arith))
      ]

module _ {B : Type 0} (c : Context) (bytes : Bytes) where
  -- A value read, and then the bytes after it.
  bytes_read :
      (f : Bytes × ℕ → B)
      → OnOk
          (λ (x : B × Bytes). length x.1 ≤ length bytes)
          (wrap c (read_proto_bytes bytes) >>= λ a. ok (f a, drop a.1 bytes))
  bytes_read f =
      OnOk-bind _ _ (wrap c (read_proto_bytes bytes)) _
        (OnOk-wrap _ c (read_proto_bytes bytes) (read_proto_bytes-bounds bytes))
        (λ a h. rw (length-drop a.1 bytes) (omega arith))

  varint_read :
      (f : ℕ × ℕ → B)
      → OnOk
          (λ (x : B × Bytes). length x.1 ≤ length bytes)
          (wrap c (read_proto_varint bytes) >>= λ a. ok (f a, drop a.1 bytes))
  varint_read f =
      OnOk-bind _ _ (wrap c (read_proto_varint bytes)) _
        (OnOk-wrap _ c (read_proto_varint bytes) (read_proto_varint-bounds bytes))
        (λ a h. rw (length-drop a.1 bytes) (omega arith))

  -- A key read, and then a field that ends within the bytes.
  key_read :
      (f : ℕ → ℕ → Bytes → Result (B × Bytes))
      → ((field wire : ℕ) (rest : Bytes)
          → OnOk (λ (x : B × Bytes). length x.1 ≤ length rest) (f field wire rest))
      → OnOk
          (λ (x : B × Bytes). length x.1 < length bytes)
          (wrap c (read_proto_key bytes) >>= λ (field, wire, n). f field wire (drop n bytes))
  key_read f h =
      OnOk-bind (λ k. (0 < k.2) × (k.2 ≤ length bytes)) _ (wrap c (read_proto_key bytes)) _
        (OnOk-wrap _ c (read_proto_key bytes)
          (OnOk-mono _ _ (read_proto_key bytes) (λ k (f, (w, r)). r) (read_proto_key-bounds bytes)))
        (λ (field, wire, n) (more, within_).
          OnOk-mono _ _ (f field wire (drop n bytes))
            (λ x less. let l = length-drop n bytes in omega arith) (h field wire (drop n bytes)))

wrapper_bytes-within :
    (field : ℕ) (bytes : Bytes) (st : WrapperState)
    → OnOk (λ r. length r.1 ≤ length bytes) (wrapper_bytes field bytes st)
unfolding wrapper_bytes skip_proto_bytes
wrapper_bytes-within field bytes st =
    OnOk-if _ (field == 1) _ _ (λ e. bytes_read _ bytes _)
      (λ e.
        OnOk-if _ ((field == 3) || (field == 4)) _ _ (λ e. bytes_read _ bytes _)
          (λ e.
            OnOk-if _ (field == 308) _ _ (λ e. bytes_read _ bytes _)
              (λ e.
                OnOk-bind _ _ (wrap (skip_wrapper_field field) (skip_proto_bytes bytes)) _
                  (OnOk-wrap _ _ (skip_proto_bytes bytes) (
                    OnOk-bind _ (λ rest. length rest ≤ length bytes) (read_proto_bytes bytes) _
                      (read_proto_bytes-bounds bytes)
                      (λ a h. rw (length-drop a.1 bytes) (omega arith))))
                  (λ rest h. h))))

wrapper_field-within :
    (field wire : ℕ) (bytes : Bytes) (st : WrapperState)
    → OnOk (λ r. length r.1 ≤ length bytes) (wrapper_field field wire bytes st)
unfolding wrapper_field
wrapper_field-within field wire bytes st =
    OnOk-if _ (wire == 0) _ _ (λ e. varint_read _ bytes _)
      (λ e.
        OnOk-if _ (wire == 2) _ _ (λ e. wrapper_bytes-within field bytes st)
          (λ e.
            OnOk-if _ (wire == 1) _ _
              (λ e.
                OnOk-if _ (ltb (length bytes) 8) _ _ (λ e. tt)
                  (λ e. rw (length-drop 8 bytes) (omega arith)))
              (λ e.
                OnOk-if _ (wire == 5) _ _
                  (λ e.
                    OnOk-if _ (ltb (length bytes) 4) _ _ (λ e. tt)
                      (λ e. rw (length-drop 4 bytes) (omega arith)))
                  (λ e. tt))))

pub wrapper_round-Shrinks : Shrinks wrapper_round
unfolding wrapper_round
wrapper_round-Shrinks st bytes =
    key_read read_wrapper_key bytes (λ field wire rest. wrapper_field field wire rest st)
      (λ field wire rest. wrapper_field-within field wire rest st)

payload_field-within :
    (field wire : ℕ) (bytes : Bytes) (out : MexcSpotKline)
    → OnOk (λ r. length r.1 ≤ length bytes) (payload_field field wire bytes out)
unfolding payload_field
payload_field-within field wire bytes out =
    OnOk-if _ (wire == 0) _ _ (λ e. varint_read _ bytes _)
      (λ e. OnOk-if _ (not (wire == 2)) _ _ (λ e. tt) (λ e. bytes_read _ bytes _))

pub payload_round-Shrinks : Shrinks payload_round
unfolding payload_round
payload_round-Shrinks out bytes =
    key_read read_key bytes (λ field wire rest. payload_field field wire rest out)
      (λ field wire rest. payload_field-within field wire rest out)

finish-total : (r : Result WrapperState) → finish r ≢ none
unfolding finish decode_mexc_kline_payload
finish-total (err e) = λ no. cc
finish-total (ok st) = elim (Bool-cases (length st.payload == 0)) [
  | inl empty ↦ rw empty (λ no. cc)
  | inr full ↦ elim (Option-cases (rounds payload_round (length st.payload) st.out st.payload)) [
    | inl spent ↦ absurd (
        rounds-total payload_round payload_round-Shrinks (length st.payload) st.out st.payload
          (omega arith) spent)
    | inr (r, read) ↦ rw (full, read) (λ no. cc)
  ]
]

-- The decoder ends on all bytes with a message or an error: as many rounds as there are bytes are
-- enough for both loops.
pub decode_mexc_spot_kline-total : (bytes : Bytes) → decode_mexc_spot_kline bytes ≢ none
unfolding decode_mexc_spot_kline
decode_mexc_spot_kline-total bytes =
    let start : WrapperState = record { out = empty_kline; payload = [] } in
    elim (Option-cases (rounds wrapper_round (length bytes) start bytes)) [
      | inl spent ↦ absurd (
          rounds-total wrapper_round wrapper_round-Shrinks (length bytes) start bytes (omega arith)
            spent)
      | inr (r, read) ↦ rw (decode_mexc_spot_kline, read) (finish-total r)
    ]
