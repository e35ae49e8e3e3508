-- ===== src/Common/Int.antt =====
-- Rust's `i64` as an integer with its range, and the cast of a `u64` to it.
use db233_rust.Common.Base.{
  ℕ, zero, suc, ◌-◌, ◌^◌, Bool, true, false, ltb, if◌then◌else◌, ◌≡◌, ◌==◌, Bool-cases, inl, inr,
  arith,
}

-- `negsuc n` is -(n + 1).
pub data ℤ : Type 0 where
  pos : ℕ → ℤ
  negsuc : ℕ → ℤ

abbrev pub is_zero : ℤ → Bool
is_zero (pos n) = elim n [ zero ↦ true | suc _ ↦ false ]
is_zero (negsuc n) = false

-- The values of an `i64`.
abbrev pub is_i64 : ℤ → Bool
is_i64 (pos n) = ltb n (2 ^ 63)
is_i64 (negsuc n) = ltb n (2 ^ 63)

-- `u as i64` keeps the bit pattern.
unfoldable pub u64_as_i64 : ℕ → ℤ
u64_as_i64 u = if ltb u (2 ^ 63) then pos u else negsuc (2 ^ 64 - 1 - u)

-- `==` on `i64`
pub same_int : ℤ → ℤ → Bool
same_int (pos m) (pos n) = m == n
same_int (negsuc m) (negsuc n) = m == n
same_int _ _ = false

pub same_int-eq : (a b : ℤ) → same_int a b ≡ true → a ≡ b
unfolding same_int
same_int-eq (pos m) (pos n) h = ground arith
same_int-eq (negsuc m) (negsuc n) h = ground arith
same_int-eq (pos m) (negsuc n) h = cc
same_int-eq (negsuc m) (pos n) h = cc

same_int_refl : (a : ℤ) → same_int a a ≡ true
unfolding same_int
same_int_refl (pos m) = ground arith
same_int_refl (negsuc m) = ground arith

pub same_int-ne : (a b : ℤ) → same_int a b ≡ false → ¬ (a ≡ b)
same_int-ne a b h e = cc (same_int_refl a)

-- ... as a decision.
unfoldable pub ℤ-discrete : Discrete ℤ
unfolding same_int
ℤ-discrete a b = elim (Bool-cases (same_int a b)) [
  | inl e ↦ yes (same_int-eq a b e)
  | inr e ↦ no (same_int-ne a b e)
]

abbrev pub int_eq : ℤ → ℤ → Bool
int_eq a b = elim (ℤ-discrete a b) [ yes _ ↦ true | no _ ↦ false ]
