-- ===== src/Tests/Externs.antt =====
-- A small `serde_json` and float casts for the tests, with the laws that the theorems ask for. A single
-- float keeps its bit pattern as a double, and an infinity stands for all that is not finite.
use db233_rust.Common.{
  ◌≡◌, ◌<◌, ◌*◌, ◌^◌, refl, [], ◌∷◌, codes, Text, ℤ, pos, negsuc, is_i64, ℕ, Option, some, none,
  true, if◌then◌else◌, arith,
}
use db233_rust.Errors.{Outcome, fine, failed}
use db233_rust.Json.{Json, Fields}
use db233_rust.Extern.{Extern, IsFaithful, is_finite_f32, is_finite_f64}

pub data Number : Type 0 where
  whole : ℤ → Number
  real : ℕ → Number

abbrev pub whole_i64 : Number → Option ℤ
whole_i64 (whole i) = if is_i64 i then some i else none
whole_i64 (real f) = none

abbrev pub whole_u64 : Number → Option ℕ
whole_u64 (whole (pos n)) = some n
whole_u64 (whole (negsuc n)) = none
whole_u64 (real f) = none

abbrev pub real_f64 : Number → Option ℕ
real_f64 (whole i) = none
real_f64 (real f) = some f

-- The text of an entity is its `id` before its `name`.
abbrev pub parse : Text → Outcome (Json Number)
parse [] = failed (codes "EOF")
parse (id ∷ name) = fine (
    Json.object (
      Fields.field (codes "created_at") (Json.number (whole (pos 7))) (
        Fields.field (codes "id") (Json.number (whole (pos id)))
          (Fields.field (codes "name") (Json.string name) Fields.end))))

abbrev pub extern : Extern Number
extern = record {
  as_i64 = whole_i64;
  as_u64 = whole_u64;
  as_f64 = real_f64;
  number_of_i64 = whole;
  number_of_u64 = λ u. whole (pos u);
  number_of_f64 = λ f. if is_finite_f64 f then some (real f) else none;
  widen = λ f. if is_finite_f32 f then f else 2047 * 2 ^ 52;
  narrow = λ f. f;
  json_to_string = λ _. fine (codes "[]");
  json_from_str = parse;
  base64_encode = λ s. s;
}

widen-lt : (f : ℕ) → f < 2 ^ 32 → extern.widen f < 2 ^ 64
widen-lt f h = ground arith

is_finite-widen : (f : ℕ) → f < 2 ^ 32 → is_finite_f64 (extern.widen f) ≡ is_finite_f32 f
is_finite-widen f h = ground arith

f64_back :
    (f : ℕ)
    → f < 2 ^ 64
    → is_finite_f64 f ≡ true
    → (n : Number) × (extern.number_of_f64 f ≡ some n)
      × (extern.as_i64 n ≡ none)
      × (extern.as_u64 n ≡ none)
      × (extern.as_f64 n ≡ some f)
f64_back f h finite = (real f, ground arith, refl, refl, refl)

pub extern-IsFaithful : IsFaithful extern
extern-IsFaithful = record {
  i64_back = λ i h. ground arith;
  u64_back = λ u h. ground arith;
  u64_back_large = λ u h. refl;
  f64_refused = λ f h bad. ground arith;
  f64_back = f64_back;
  widen-lt = widen-lt;
  is_finite-widen = is_finite-widen;
  narrow-widen = λ f h finite. ground arith;
}
