-- ===== src/Extern.antt =====
-- What the crate calls and does not contain: `serde_json`, `base64` and the float casts, as operations.
-- `N` stands for `serde_json::Number`.
use db233_rust.Common.{
  ℕ, ℤ, pos, is_i64, ltb, ◌^◌, ◌<◌, ◌≡◌, Option, none, some, Text, if◌then◌else◌, true, Bool, false,
  not, ◌/◌, ◌%◌, ◌==◌,
}
use db233_rust.Errors.{Outcome}
use db233_rust.Json.{Json}

pub record Extern (N : Type 0) : Type 0 where
  -- `Number::as_i64`, `as_u64`, `as_f64`
  pub as_i64 : N → Option ℤ
  pub as_u64 : N → Option ℕ
  pub as_f64 : N → Option ℕ
  -- `Number::from(i64)`, `Number::from(u64)`, `Number::from_f64`
  pub number_of_i64 : ℤ → N
  pub number_of_u64 : ℕ → N
  pub number_of_f64 : ℕ → Option N
  -- `f64::from(f32)` and `f as f32`, on bit patterns
  pub widen : ℕ → ℕ
  pub narrow : ℕ → ℕ
  -- `serde_json::to_string` and `serde_json::from_str` at `serde_json::Value`
  pub json_to_string : Json N → Outcome Text
  pub json_from_str : Text → Outcome (Json N)
  -- `general_purpose::STANDARD.encode`
  pub base64_encode : Text → Text

-- Whether a bit pattern is a number, neither an infinity nor a NaN: its exponent is not all ones.
abbrev pub is_finite_f64 : ℕ → Bool
is_finite_f64 f = not (f / 2 ^ 52 % 2 ^ 11 == 2047)

abbrev pub is_finite_f32 : ℕ → Bool
is_finite_f32 f = not (f / 2 ^ 23 % 2 ^ 8 == 255)

-- What the documentation of `Number` and of the casts says.
pub record IsFaithful {N : Type 0} (x : Extern N) : Type 0 where
  -- an `i64` is read back by `as_i64`
  pub i64_back : (i : ℤ) → is_i64 i ≡ true → x.as_i64 (x.number_of_i64 i) ≡ some i
  -- a `u64` is read back by `as_i64` where it fits, and by `as_u64` otherwise
  pub u64_back :
      (u : ℕ)
      → u < 2 ^ 64
      → x.as_i64 (x.number_of_u64 u) ≡ (if ltb u (2 ^ 63) then some (pos u) else none)
  pub u64_back_large : (u : ℕ) → u < 2 ^ 64 → x.as_u64 (x.number_of_u64 u) ≡ some u
  -- `from_f64` refuses what is not finite, and a float is read back by `as_f64` only
  pub f64_refused : (f : ℕ) → f < 2 ^ 64 → is_finite_f64 f ≡ false → x.number_of_f64 f ≡ none
  pub f64_back :
      (f : ℕ)
      → f < 2 ^ 64
      → is_finite_f64 f ≡ true
      → (n : N) × (x.number_of_f64 f ≡ some n)
        × (x.as_i64 n ≡ none)
        × (x.as_u64 n ≡ none)
        × (x.as_f64 n ≡ some f)
  -- widening is exact
  pub widen-lt : (f : ℕ) → f < 2 ^ 32 → x.widen f < 2 ^ 64
  pub is_finite-widen : (f : ℕ) → f < 2 ^ 32 → is_finite_f64 (x.widen f) ≡ is_finite_f32 f
  pub narrow-widen : (f : ℕ) → f < 2 ^ 32 → is_finite_f32 f ≡ true → x.narrow (x.widen f) ≡ f
