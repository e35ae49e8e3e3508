-- ===== src/NamedParams/Batch.antt =====
-- `build_batch_named_params` of src/named_params.rs: one text for all rows.
use db233_rust.Common.{
  ◌≡◌, ◌↔◌, refl, List, [], ◌∷◌, map, inl, inr, Text, Map, arith, length, length-map, ap, sym, ◌∙◌,
}
use db233_rust.Errors.{ok, Result-cases, >>=-inverts}
use db233_rust.SqlValue.{Value}
use db233_rust.NamedParams.{replace_named_parameters, batch_rows, build_batch_named_params}
use db233_rust.NamedParams.Laws.{replace_named_parameters_same}

-- Each row is replaced to the same text, with the values of that row.
abbrev pub RowsAre : Text → List (Map Value) → Text → List (List Value) → Type 0
RowsAre sql ps s rows = map (replace_named_parameters sql) ps ≡ map (λ vs. ok (s, vs)) rows

module _ (sql : Text) where
  batch_rows-RowsAre :
      (q : Map Value) (s : Text) (ws : List Value) (ps : List (Map Value))
      (rows : List (List Value))
      → replace_named_parameters sql q ≡ ok (s, ws)
      → batch_rows sql ps ≡ ok rows
      → RowsAre sql ps s rows
  unfolding batch_rows
  batch_rows-RowsAre q s ws [] [] hq h = refl
  batch_rows-RowsAre q s ws [] (r ∷ rows) hq h = cc
  batch_rows-RowsAre q s ws (p ∷ ps) rows hq h =
      elim (Result-cases (replace_named_parameters sql p)) [
        | inr bad ↦ absurd (ground arith)
        | inl ((s', vs), hp) ↦ elim (Result-cases (batch_rows sql ps)) [
          | inr bad ↦ absurd (ground arith)
          | inl (rest, hr) ↦ ground (
            arith,
            batch_rows-RowsAre q s ws ps rest hq hr,
            replace_named_parameters_same sql q p s s' ws vs hq hp,
          )
        ]
      ]

  RowsAre-batch_rows :
      (s : Text) (ps : List (Map Value)) (rows : List (List Value))
      → RowsAre sql ps s rows
      → batch_rows sql ps ≡ ok rows
  unfolding batch_rows
  RowsAre-batch_rows s [] [] h = refl
  RowsAre-batch_rows s [] (r ∷ rows) h = cc
  RowsAre-batch_rows s (p ∷ ps) [] h = cc
  RowsAre-batch_rows s (p ∷ ps) (r ∷ rows) h = ground (arith, RowsAre-batch_rows s ps rows)

module _ (sql : Text) (p : Map Value) (ps : List (Map Value)) (s : Text)
    (rows : List (List Value)) where
  batch_sound : build_batch_named_params sql (p ∷ ps) ≡ ok (s, rows) → RowsAre sql (p ∷ ps) s rows
  unfolding build_batch_named_params
  batch_sound h = elim (Result-cases (replace_named_parameters sql p)) [
    | inr bad ↦ absurd (ground arith)
    | inl ((s', vs), hp) ↦
        let (batch, hb, same) =
          >>=-inverts (batch_rows sql (p ∷ ps)) (λ b. ok (s', b)) (rw hp at h) in
        ground (arith, batch_rows-RowsAre sql p s' vs (p ∷ ps) batch hp hb)
  ]

batch_complete :
    (sql : Text) (p : Map Value) (ps : List (Map Value)) (s : Text) (rows : List (List Value))
    → RowsAre sql (p ∷ ps) s rows
    → build_batch_named_params sql (p ∷ ps) ≡ ok (s, rows)
unfolding build_batch_named_params
batch_complete sql p ps s [] h = cc
batch_complete sql p ps s (r ∷ rows) h =
    ground (arith, RowsAre-batch_rows sql s (p ∷ ps) (r ∷ rows) h)

-- For one row or more, the batch succeeds exactly when every row is replaced to one and the same
-- text, and it then gives that text and the values of each row, in the order of the rows.
pub build_batch_named_params-ok_iff :
    (sql : Text) (p : Map Value) (ps : List (Map Value)) (s : Text) (rows : List (List Value))
    → (build_batch_named_params sql (p ∷ ps) ≡ ok (s, rows)) ↔ RowsAre sql (p ∷ ps) s rows
build_batch_named_params-ok_iff sql p ps s rows =
    (batch_sound sql p ps s rows, batch_complete sql p ps s rows)

-- There is one list of values for each row.
pub length-build_batch_named_params :
    (sql : Text) (ps : List (Map Value)) (s : Text) (rows : List (List Value))
    → build_batch_named_params sql ps ≡ ok (s, rows)
    → length rows ≡ length ps
length-build_batch_named_params sql [] s rows h = unfold build_batch_named_params in ground arith
length-build_batch_named_params sql (p ∷ ps) s rows h =
    sym (length-map (λ vs. ok (s, vs)) rows)
    ∙ ap length (sym (batch_sound sql p ps s rows h))
    ∙ length-map (replace_named_parameters sql) (p ∷ ps)
