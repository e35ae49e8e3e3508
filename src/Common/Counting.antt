-- ===== src/Common/Counting.antt =====
-- How often a byte occurs in a formatted text.
use db233_rust.Common.Base.{
  ℕ, zero, suc, ◌+◌, ◌*◌, ◌≡◌, ◌≢◌, refl, List, [], ◌∷◌, ◌++◌, Text, count, count-append, arith,
}
use db233_rust.Common.Format.{join, repeat, trim_end_matches}

-- How often a byte occurs in the parts together.
unfoldable pub count_all : ℕ → List Text → ℕ
count_all c [] = 0
count_all c (s ∷ parts) = count c s + count_all c parts

-- A byte that the separator lacks occurs in a join as often as in the parts.
pub count-join :
    (c : ℕ) (sep : Text) (parts : List Text)
    → count c sep ≡ 0
    → count c (join sep parts) ≡ count_all c parts
unfolding join count_all
count-join c sep [] h = unfold count in refl
count-join c sep (s ∷ []) h = omega arith
count-join c sep (s ∷ t ∷ parts) h = omega (
  arith,
  count-append c s (sep ++ join sep (t ∷ parts)),
  count-append c sep (join sep (t ∷ parts)),
  count-join c sep (t ∷ parts) h,
)

pub count-repeat : (c n : ℕ) (s : Text) → count c (repeat n s) ≡ n * count c s
unfolding repeat
count-repeat c zero s = unfold count in omega arith
count-repeat c (suc n) s = omega (arith, count-append c s (repeat n s), count-repeat c n s)

-- Trimming takes away only the byte that it trims.
pub count-trim_end_matches :
    (c d : ℕ) (s : Text) → c ≢ d → count c (trim_end_matches d s) ≡ count c s
unfolding trim_end_matches count
count-trim_end_matches c d [] h = refl
count-trim_end_matches c d (x ∷ s) h = ground (arith, count-trim_end_matches c d s h)
