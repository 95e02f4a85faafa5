-- ===== src/Mexc/Bounds.antt =====
-- What readProtoVarint, readProtoKey and readProtoBytes of adapters/mexc/proto.go return when they
-- return no error.
use crypto_screener.Base.{
  ℕ, zero, suc, ◌+◌, ◌-◌, ◌*◌, ◌/◌, ◌%◌, ◌^◌, ◌<◌, ◌≤◌, Bool, true, false, [], ◌∷◌, ltb, leb,
  if◌then◌else◌, length, drop, ◌≡◌, refl, arith, inl, inr, Bool-cases,
}
use native.Mathlib.Nat.{pow-le-pow_right, mul-le-mul_right, mod-le}
use crypto_screener.Mexc.{
  Bytes, Result, Context, ok, err, ◌>>=◌, wrap, read_varint_from, read_proto_varint, read_proto_key,
  read_proto_bytes,
}
use crypto_screener.Mexc.Varint.{shift_seven}

-- A property of the value, if there is one.
abbrev pub OnOk {ℓ} : {A : Type ℓ} → (A → Type 0) → Result A → Type 0
OnOk P (ok a) = P a
OnOk P (err e) = Unit {0}

module _ {ℓ κ} {A : Type ℓ} {B : Type κ} where
  pub OnOk-bind :
      (P : A → Type 0) (Q : B → Type 0) (r : Result A) (f : A → Result B)
      → OnOk P r
      → ((a : A) → P a → OnOk Q (f a))
      → OnOk Q (r >>= f)
  OnOk-bind P Q (ok a) f h k = k a h
  OnOk-bind P Q (err e) f h k = tt

module _ {ℓ} {A : Type ℓ} where
  pub OnOk-mono : (P Q : A → Type 0) (r : Result A) → ((a : A) → P a → Q a) → OnOk P r → OnOk Q r
  OnOk-mono P Q (ok a) k h = k a h
  OnOk-mono P Q (err e) k h = tt

  pub OnOk-wrap : (P : A → Type 0) (c : Context) (r : Result A) → OnOk P r → OnOk P (wrap c r)
  OnOk-wrap P c (ok a) h = h
  OnOk-wrap P c (err e) h = tt

  pub OnOk-if :
      (P : A → Type 0) (b : Bool) (x y : Result A)
      → (b ≡ true → OnOk P x)
      → (b ≡ false → OnOk P y)
      → OnOk P (if b then x else y)
  OnOk-if P true x y h k = h refl
  OnOk-if P false x y h k = k refl

pub length-drop : (n : ℕ) (xs : Bytes) → length (drop n xs) ≡ length xs - n
length-drop zero xs = omega arith
length-drop (suc n) [] = omega arith
length-drop (suc n) (x ∷ xs) = rw (length-drop n xs) (omega arith)

abbrev pub IsRead : Bytes → ℕ × ℕ → Type 0
IsRead bytes (value, n) = (value < 2 ^ 64) × ((0 < n) × ((n ≤ 10) × (n ≤ length bytes)))

next_value :
    (i acc b : ℕ)
    → i < 10
    → acc < 2 ^ (7 * i)
    → let v = acc + b % 128 * 2 ^ (7 * i) % 2 ^ 64 in (v < 2 ^ 64) × (v < 2 ^ (7 * suc i))
next_value i acc b few h =
    let p = 2 ^ (7 * i) in
    let digit : b % 128 ≤ 127 = omega arith in
    let part : b % 128 * p ≤ 127 * p = mul-le-mul_right p digit in
    let cut : b % 128 * p % 2 ^ 64 ≤ b % 128 * p = mod-le _ _ in
    let below : acc + b % 128 * p % 2 ^ 64 < 2 ^ (7 * suc i) = rw (shift_seven i) (omega arith) in
    (
      elim (Bool-cases (ltb i 9)) [
        | inl early ↦
            let top : 2 ^ (7 * suc i) ≤ 2 ^ 63 =
              pow-le-pow_right {n = 2} (omega arith) {i = 7 * suc i} {j = 63} (ground arith) in
            omega arith
        | inr last ↦ let e : i ≡ 9 = ground arith in let h' = rw e at h in rw e (omega arith)
      ],
      below,
    )

read_varint_from-bounds :
    (i acc : ℕ) (bytes : Bytes)
    → acc < 2 ^ (7 * i)
    → OnOk
        (λ r. (r.0 < 2 ^ 64) × ((i < r.1) × ((r.1 ≤ 10) × (r.1 ≤ i + length bytes))))
        (read_varint_from i acc bytes)
unfolding read_varint_from
read_varint_from-bounds i acc [] h = tt
read_varint_from-bounds i acc (b ∷ bytes) h =
    let value = acc + b % 128 * 2 ^ (7 * i) % 2 ^ 64 in
    OnOk-if _ (leb 10 i) _ _ (λ e. tt)
      (λ few.
        let (fits, below) = next_value i acc b (ground arith) h in
        OnOk-if _ (ltb b 128) (ok (value, suc i)) (read_varint_from (suc i) value bytes)
          (λ e. (fits, (omega arith, (ground arith, omega arith))))
          (λ e.
            OnOk-mono _ _ (read_varint_from (suc i) value bytes)
              (λ r (small, (more, (ten, most))). (small, (omega arith, (ten, omega arith))))
              (read_varint_from-bounds (suc i) value bytes below)))

-- A varint that is read without an error is below 2^64, and takes at least one byte, at most ten,
-- and no more than there are.
pub read_proto_varint-bounds : (bytes : Bytes) → OnOk (IsRead bytes) (read_proto_varint bytes)
unfolding read_proto_varint
read_proto_varint-bounds bytes =
    OnOk-mono _ (IsRead bytes) (read_varint_from 0 0 bytes)
      (λ r (small, (more, (ten, most))). (small, (more, (ten, omega arith))))
      (read_varint_from-bounds 0 0 bytes (omega arith))

pub read_proto_key-bounds :
    (bytes : Bytes)
    → OnOk
        (λ (field, wire, n). (0 < field) × ((wire < 8) × ((0 < n) × (n ≤ length bytes))))
        (read_proto_key bytes)
unfolding read_proto_key
read_proto_key-bounds bytes =
    OnOk-bind (IsRead bytes) _ (read_proto_varint bytes) _ (read_proto_varint-bounds bytes)
      (λ (value, n) (small, (some_, (ten, within_))).
        OnOk-if _ (leb (value / 8) 0) _ _ (λ e. tt)
          (λ e. (ground arith, (omega arith, (some_, within_)))))

pub read_proto_bytes-bounds :
    (bytes : Bytes) → OnOk (λ (value, n). (0 < n) × (n ≤ length bytes)) (read_proto_bytes bytes)
unfolding read_proto_bytes
read_proto_bytes-bounds bytes =
    OnOk-bind (IsRead bytes) _ (read_proto_varint bytes) _ (read_proto_varint-bounds bytes)
      (λ (size, n) (small, (some_, (ten, within_))).
        OnOk-if _ (ltb (length bytes - n) size) _ _ (λ e. tt) (λ e. (omega arith, ground arith)))
