-- ===== src/NamedParams.antt =====
-- src/named_params.rs: `{name}` placeholders replaced by `?`, by the byte indices of the source.
pub mod Template
pub mod Reference
pub mod Laws
pub mod Batch
use mathlib.Core.WellFounded.{Acc, WellFounded}
use db233_rust.Common.{
  ℕ, zero, suc, ◌+◌, ◌-◌, ◌<◌, true, false, List, [], ◌∷◌, ◌++◌, Option, none, some, Text, codes,
  length, take, drop, ◌==◌, if◌then◌else◌, Map, get, arith, dec_lt,
}
use db233_rust.Errors.{Result, ok, err, parameter_error, ◌>>=◌}
use db233_rust.SqlValue.{Value}

-- `s.find(c)` for a one-byte character.
unfoldable pub find : ℕ → Text → Option ℕ
find c [] = none
find c (x ∷ s) = elim (x == c) [
  | true ↦ some 0
  | false ↦ elim (find c s) [ none ↦ none | some i ↦ some (suc i) ]
]

-- `&s[i..j]`
abbrev pub slice : ℕ → ℕ → Text → Text
slice i j s = take (j - i) (drop i s)

abbrev pub unclosed : Text → Text
unclosed s = codes "unclosed placeholder: " ++ s

abbrev pub missing : Text → Text
missing name = codes "missing required parameter: " ++ name

-- The loop variable `i` comes nearer to the end of the text.
abbrev pub Nearer : Text → ℕ → ℕ → Type 0
Nearer sql j i = length sql - j < length sql - i

module _ (sql : Text) where
  Acc-near : (k i : ℕ) → length sql - i < k → Acc (Nearer sql) i
  Acc-near zero i h = elim h [ ]
  Acc-near (suc k) i h = Acc.intro i (λ j hj. Acc-near k j (omega arith))

  unfoldable pub Nearer_wf : WellFounded (Nearer sql)
  unfolding Acc-near
  Nearer_wf = record { apply = λ i. Acc-near (suc (length sql - i)) i (omega arith) }

-- Behind a placeholder that closes at `end_idx` the loop is nearer to the end.
pub advances : (sql : Text) (i idx jdx : ℕ) → i < length sql → Nearer sql (i + idx + 1 + jdx + 1) i
advances sql i idx jdx inside = omega arith

-- `while i < sql.len()`, with `new_sql` and `values`.
unfoldable pub replace_from :
    (sql : Text) (params : Map Value) (i : ℕ) (new_sql : Text) (values : List Value)
    → Acc (Nearer sql) i
    → Result (Text × List Value)
replace_from sql params i new_sql values (Acc.intro _ nearer) = elim (dec_lt i (length sql)) [
  | no _ ↦ ok (new_sql, values)
  | yes inside ↦ elim (find b'{' (drop i sql)) [
    | none ↦ ok (new_sql ++ drop i sql, values)
    | some idx ↦
        let start_idx = i + idx in
        elim (find b'}' (drop (start_idx + 1) sql)) [
          | none ↦ err (parameter_error (unclosed (drop start_idx sql)))
          | some jdx ↦
              let end_idx = start_idx + 1 + jdx in
              let param_name = slice (start_idx + 1) end_idx sql in
              elim (get param_name params) [
                | none ↦ err (parameter_error (missing param_name))
                | some value ↦
                    replace_from sql params (end_idx + 1)
                      ((new_sql ++ slice i start_idx sql) ++ b'?' ∷ []) (values ++ value ∷ [])
                      (nearer (end_idx + 1) (advances sql i idx jdx inside))
              ]
        ]
  ]
]

unfoldable pub replace_named_parameters : Text → Map Value → Result (Text × List Value)
unfolding replace_from Nearer_wf
replace_named_parameters sql params = replace_from sql params 0 [] [] ((Nearer_wf sql).apply 0)

-- `for params in params_list`
unfoldable pub batch_rows : Text → List (Map Value) → Result (List (List Value))
batch_rows sql [] = ok []
batch_rows sql (params ∷ rest) = do
  (_, values) ← replace_named_parameters sql params
  batch_values ← batch_rows sql rest
  ok (values ∷ batch_values)

unfoldable pub build_batch_named_params :
    Text → List (Map Value) → Result (Text × List (List Value))
build_batch_named_params sql [] = ok (sql, [])
build_batch_named_params sql (first_params ∷ rest) = do
  (new_sql, _) ← replace_named_parameters sql first_params
  batch_values ← batch_rows sql (first_params ∷ rest)
  ok (new_sql, batch_values)
