-- ===== src/NamedParams/Reference.antt =====
-- The loop of src/named_params.rs, with its byte indices, computes the expansion of the template.
use Prim.Native.Nat.add
use mathlib.Core.WellFounded.{Acc}
use db233_rust.Common.{
  ℕ, zero, suc, ◌+◌, ◌≤◌, ◌<◌, ◌≡◌, refl, sym, ap, ◌∙◌, List, [], ◌∷◌, ◌++◌, none, some, Text,
  length, take, drop, append-nil, append_assoc, Map, arith,
}
use db233_rust.Errors.{Result, ok, err, panic}
use db233_rust.SqlValue.{Value}
use db233_rust.NamedParams.{
  find, slice, Nearer, Nearer_wf, advances, replace_from, replace_named_parameters,
}
use db233_rust.NamedParams.Template.{done, open_at, hole, outside, inside, scan, template, expand}

-- `find` fails where the scan meets no `{`, and otherwise says where it meets the first one.
scan_no_open : (s lit : Text) → find b'{' s ≡ none → scan (outside lit) s ≡ done (lit ++ s)
unfolding scan find
scan_no_open [] lit h = ap done (sym (append-nil lit))
scan_no_open (c ∷ s) lit h =
    ground (arith, scan_no_open s (lit ++ c ∷ []), append_assoc lit (c ∷ []) s)

scan_at_open :
    (s lit : Text) (k : ℕ)
    → find b'{' s ≡ some k
    → scan (outside lit) s ≡ scan (inside (lit ++ take k s) []) (drop (suc k) s)
unfolding scan find
scan_at_open [] lit k h = cc
scan_at_open (c ∷ s) lit zero h = ground (arith, append-nil lit)
scan_at_open (c ∷ s) lit (suc k) h =
    ground (arith, scan_at_open s (lit ++ c ∷ []) k, append_assoc lit (c ∷ []) (take k s))

scan_no_close :
    (s lit name : Text)
    → find b'}' s ≡ none
    → scan (inside lit name) s ≡ open_at lit (b'{' ∷ (name ++ s))
unfolding scan find
scan_no_close [] lit name h = ap (λ n. open_at lit (b'{' ∷ n)) (sym (append-nil name))
scan_no_close (c ∷ s) lit name h =
    ground (arith, scan_no_close s lit (name ++ c ∷ []), append_assoc name (c ∷ []) s)

scan_at_close :
    (s lit name : Text) (k : ℕ)
    → find b'}' s ≡ some k
    → scan (inside lit name) s ≡ hole lit (name ++ take k s) (scan (outside []) (drop (suc k) s))
unfolding scan find
scan_at_close [] lit name k h = cc
scan_at_close (c ∷ s) lit name zero h = ground (arith, append-nil name)
scan_at_close (c ∷ s) lit name (suc k) h =
    ground (arith, scan_at_close s lit (name ++ c ∷ []) k, append_assoc name (c ∷ []) (take k s))

-- Where `find` points, the byte stands.
drop-find : (c : ℕ) (s : Text) (k : ℕ) → find c s ≡ some k → drop k s ≡ c ∷ drop (suc k) s
unfolding find
drop-find c [] k h = cc
drop-find c (x ∷ s) zero h = ground arith
drop-find c (x ∷ s) (suc k) h = ground (arith, drop-find c s k)

drop-nil : (n : ℕ) → drop {A = ℕ} n [] ≡ []
drop-nil zero = refl
drop-nil (suc n) = refl

drop-drop : (a b : ℕ) (s : Text) → drop b (drop a s) ≡ drop (a + b) s
drop-drop zero b s = ground arith
drop-drop (suc a) b [] = cc (drop-nil b, drop-nil (suc a + b))
drop-drop (suc a) b (x ∷ s) = rw add.suc (drop-drop a b s)

drop_all : (i : ℕ) (s : Text) → length s ≤ i → drop i s ≡ []
drop_all zero [] h = refl
drop_all zero (x ∷ s) h = absurd (omega arith)
drop_all (suc i) [] h = refl
drop_all (suc i) (x ∷ s) h = drop_all i s (omega arith)

-- What the loop has produced so far stands in front of what the rest expands to.
abbrev behind : Text → List Value → Result (Text × List Value) → Result (Text × List Value)
behind out vs (ok (s, ws)) = ok (out ++ s, vs ++ ws)
behind out vs (err e) = err e
behind out vs panic = panic

behind_nothing : (r : Result (Text × List Value)) → behind [] [] r ≡ r
behind_nothing (ok (s, ws)) = refl
behind_nothing (err e) = refl
behind_nothing panic = refl

module _ (sql : Text) (i idx : ℕ) (opens : find b'{' (drop i sql) ≡ some idx) where
  -- The scan from `i` stands inside the placeholder that opens at `idx`.
  scan_opened :
      scan (outside []) (drop i sql)
      ≡ scan (inside (slice i (i + idx) sql) []) (drop (i + idx + 1) sql)
  scan_opened =
      rw (scan_at_open (drop i sql) [] idx opens, drop-drop i (suc idx) sql) (ground (arith))

  scan_hole :
      (jdx : ℕ)
      → find b'}' (drop (i + idx + 1) sql) ≡ some jdx
      → scan (outside []) (drop i sql)
        ≡ hole
            (slice i (i + idx) sql)
            (slice (i + idx + 1) (i + idx + 1 + jdx) sql)
            (scan (outside []) (drop (i + idx + 1 + jdx + 1) sql))
  scan_hole jdx closes =
      scan_opened
      ∙ scan_at_close _ _ [] jdx closes
      ∙ ground (arith, drop-drop (i + idx + 1) (suc jdx) sql)

  scan_open :
      find b'}' (drop (i + idx + 1) sql) ≡ none
      → scan (outside []) (drop i sql) ≡ open_at (slice i (i + idx) sql) (drop (i + idx) sql)
  scan_open closes =
      scan_opened
      ∙ scan_no_close _ _ [] closes
      ∙ ground (
        arith,
        drop-find b'{' (drop i sql) idx opens,
        drop-drop i idx sql,
        drop-drop i (suc idx) sql,
      )

scan_end : (sql : Text) (i : ℕ) → length sql ≤ i → scan (outside []) (drop i sql) ≡ done []
scan_end sql i h = rw (drop_all i sql h) (unfold scan in refl)

module _ (sql : Text) (params : Map Value) where
  replace_from-expand :
      (i : ℕ) (out : Text) (vs : List Value) (w : Acc (Nearer sql) i)
      → replace_from sql params i out vs w
        ≡ behind out vs (expand params (scan (outside []) (drop i sql)))
  unfolding replace_from expand
  replace_from-expand i out vs (Acc.intro _ nearer) =
      let rec = λ (idx jdx : ℕ) (value : Value) (h : i < length sql).
        replace_from-expand (i + idx + 1 + jdx + 1) ((out ++ slice i (i + idx) sql) ++ b'?' ∷ [])
          (vs ++ value ∷ []) (nearer (i + idx + 1 + jdx + 1) (advances sql i idx jdx h)) in
      grind (
        arith,
        rec,
        scan_hole sql i,
        scan_open sql i,
        scan_no_open (drop i sql) [],
        scan_end sql i,
        append-nil,
        append_assoc,
      )

-- For every query and every parameters, the loop terminates and gives the expansion of the query's
-- template: the same text, the same values in the same order, and the same error.
pub replace_named_parameters-expand :
    (sql : Text) (params : Map Value)
    → replace_named_parameters sql params ≡ expand params (template sql)
unfolding replace_named_parameters template
replace_named_parameters-expand sql params =
    replace_from-expand sql params 0 [] [] ((Nearer_wf sql).apply 0) ∙ behind_nothing _
