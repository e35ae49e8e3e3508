-- ===== src/Orm/Values.antt =====
-- A column value that src/orm.rs reads into JSON and writes back.
use db233_rust.Common.{
  ℕ, pos, is_i64, ◌≡◌, ◌<◌, ◌^◌, ltb, refl, Bool, true, false, not, none, some, is_utf8,
  if◌then◌else◌, arith, inl, inr, Bool-cases, Option-cases,
}
use db233_rust.Errors.{ok, panic}
use db233_rust.SqlValue.{Value}
use db233_rust.Json.{Json}
use db233_rust.Extern.{Extern, IsFaithful, is_finite_f32, is_finite_f64}
use db233_rust.Orm.{convert_json_value, convert_mysql_value, convert_number, date_text, time_text}

-- The values that the Rust types hold.
abbrev pub InRange : Value → Type 0
InRange (Value.int i) = is_i64 i ≡ true
InRange (Value.uint u) = u < 2 ^ 64
InRange (Value.float f) = f < 2 ^ 32
InRange (Value.double f) = f < 2 ^ 64
InRange v = Unit

-- The floats that are infinite or not a number.
abbrev pub is_non_finite : Value → Bool
is_non_finite (Value.float f) = not (is_finite_f32 f)
is_non_finite (Value.double f) = not (is_finite_f64 f)
is_non_finite v = false

-- What a value has become after a read and a write: an unsigned integer that fits is signed, a
-- double is a single float, a date or a time is a text, and bytes that are no UTF-8 are base 64.
unfoldable pub readback : {N : Type 0} → Extern N → Value → Value
readback x Value.null = Value.null
readback x (Value.int i) = Value.int i
readback x (Value.uint u) = if ltb u (2 ^ 63) then Value.int (pos u) else Value.uint u
readback x (Value.float f) = Value.float f
readback x (Value.double f) = Value.float (x.narrow f)
readback x (Value.date y m d hh mm ss _) = Value.bytes (date_text y m d hh mm ss)
readback x (Value.time _ _ hh mm ss _) = Value.bytes (time_text hh mm ss)
readback x (Value.bytes b) = Value.bytes (if is_utf8 b then b else x.base64_encode b)

module _ {N : Type 0} (x : Extern N) (good : IsFaithful x) where
  -- Reading a value succeeds unless it is an infinite float or not a number; then it panics.
  convert_mysql_value_total :
      (v : Value)
      → InRange v
      → (is_non_finite v ≡ true → convert_mysql_value x v ≡ panic)
        × (is_non_finite v ≡ false → (j : Json N) × (convert_mysql_value x v ≡ ok j))
  unfolding convert_mysql_value
  convert_mysql_value_total (Value.float f) r =
      let r' = good.widen-lt f r in
      let same = good.is_finite-widen f r in
      (
        λ h. ground (arith, good.f64_refused (x.widen f) r'),
        λ h.
            let (n, made, _, _, _) = good.f64_back (x.widen f) r' (ground arith) in
            (Json.number n, rw made),
      )
  convert_mysql_value_total (Value.double f) r = (
    λ h. ground (arith, good.f64_refused f r),
    λ h. let (n, made, _, _, _) = good.f64_back f r (ground arith) in (Json.number n, rw made),
  )
  convert_mysql_value_total _ r = (λ h. cc, λ h. (_, refl))

  float_number :
      (n : N) (f : ℕ)
      → x.as_i64 n ≡ none
      → x.as_u64 n ≡ none
      → x.as_f64 n ≡ some f
      → convert_number x n ≡ Value.float (x.narrow f)
  unfolding convert_number
  float_number n f hi hu hf = ground arith

  number_back :
      (f : ℕ) (n : N) (fits : f < 2 ^ 64)
      → x.number_of_f64 f ≡ some n
      → (is_finite_f64 f ≡ true) × (convert_number x n ≡ Value.float (x.narrow f))
  number_back f n fits made = elim (Bool-cases (is_finite_f64 f)) [
    | inl finite ↦
        let (m, made', hi, hu, hf) = good.f64_back f fits finite in
        let same : m ≡ n = cc in (finite, cc (float_number m f hi hu hf))
    | inr bad ↦ absurd (cc (good.f64_refused f fits bad))
  ]

  -- A value that is read into JSON and written back arrives as its `readback`.
  pub convert_json_value-convert_mysql_value :
      (v : Value) (j : Json N)
      → InRange v
      → convert_mysql_value x v ≡ ok j
      → convert_json_value x j ≡ readback x v
  unfolding convert_mysql_value convert_json_value readback
  convert_json_value-convert_mysql_value (Value.float f) j r h =
      elim (Option-cases (x.number_of_f64 (x.widen f))) [
        | inl none_made ↦ absurd (ground arith)
        | inr (n, made) ↦
            let (finite, back) = number_back (x.widen f) n (good.widen-lt f r) made in
            ground (arith, good.is_finite-widen f r, good.narrow-widen f r)
      ]
  convert_json_value-convert_mysql_value (Value.double f) j r h =
      elim (Option-cases (x.number_of_f64 f)) [
        | inl none_made ↦ absurd (ground arith)
        | inr (n, made) ↦ let (finite, back) = number_back f n r made in ground arith
      ]
  convert_json_value-convert_mysql_value (Value.int i) j r h = ground (arith, good.i64_back i r)
  convert_json_value-convert_mysql_value (Value.uint u) j r h =
      ground (arith, good.u64_back u r, good.u64_back_large u r)
  convert_json_value-convert_mysql_value _ j r h = ground arith
