-- ===== src/Wal/Lines.antt =====
-- The lines of a file that was written line by line.
use db233_rust.Common.{
  ◌≡◌, refl, ap, List, [], ◌∷◌, ◌++◌, Text, Lacks, append-nil, append_assoc, arith, ◌≢◌, ◌∙◌, sym,
}
use db233_rust.Wal.{strip_cr, lines_from}

-- A line feed behind each line.
unfoldable pub unlines : List Text → Text
unlines [] = []
unlines (l ∷ ls) = l ++ b'\n' ∷ unlines ls

-- What can stand on a line by itself.
abbrev pub IsLine : Text → Type 0
IsLine l = Lacks b'\n' l × Lacks b'\r' l

abbrev pub AreLines : List Text → Type 0
AreLines [] = Unit
AreLines (l ∷ ls) = IsLine l × AreLines ls

strip_cr_lem : (l : Text) → Lacks b'\r' l → strip_cr l ≡ l
unfolding strip_cr
strip_cr_lem [] h = refl
strip_cr_lem (b ∷ []) h = ground arith
strip_cr_lem (b ∷ c ∷ s) h = ap (◌∷◌ b) (strip_cr_lem (c ∷ s) h.1)

lines_from-line :
    (l cur rest : Text)
    → Lacks b'\n' l
    → lines_from cur (l ++ b'\n' ∷ rest) ≡ strip_cr (cur ++ l) ∷ lines_from [] rest
unfolding lines_from
lines_from-line [] cur rest h = rw append-nil
lines_from-line (b ∷ l) cur rest h =
    ground (arith, lines_from-line l (cur ++ b ∷ []) rest h.1, append_assoc cur (b ∷ []) l)

pub lines_from-unlines :
    (ls : List Text) (rest : Text)
    → AreLines ls
    → lines_from [] (unlines ls ++ rest) ≡ ls ++ lines_from [] rest
unfolding unlines
lines_from-unlines [] rest h = refl
lines_from-unlines (l ∷ ls) rest ((feed, ret), h) =
    rw (append_assoc, lines_from-line l [] (unlines ls ++ rest) feed, strip_cr_lem l ret)
      (ap (◌∷◌ l) (lines_from-unlines ls rest h))

-- A last line that no line feed ends is a line of its own.
pub lines_from_last :
    (l cur : Text) → Lacks b'\n' l → cur ++ l ≢ [] → lines_from cur l ≡ (cur ++ l) ∷ []
unfolding lines_from
lines_from_last [] [] h ne = absurd (ne refl)
lines_from_last [] (b ∷ cur) h ne = rw append-nil
lines_from_last (b ∷ l) cur h ne =
    ground (arith, lines_from_last l (cur ++ b ∷ []) h.1, append_assoc cur (b ∷ []) l)

pub unlines-append : (ls ms : List Text) → unlines (ls ++ ms) ≡ unlines ls ++ unlines ms
unfolding unlines
unlines-append [] ms = refl
unlines-append (l ∷ ls) ms =
    ap (λ s. l ++ b'\n' ∷ s) (unlines-append ls ms)
    ∙ sym (append_assoc l (b'\n' ∷ unlines ls) (unlines ms))
