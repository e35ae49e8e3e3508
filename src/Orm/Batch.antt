-- ===== src/Orm/Batch.antt =====
-- `build_batch_upsert_sql` of src/orm.rs.
use db233_rust.Common.{
  ◌∷◌, List, [], ◌++◌, none, some, Text, codes, join, repeat, trim_end_matches, length,
  if◌then◌else◌,
}
use db233_rust.Errors.{Result, ok, err, parameter_error, ◌>>=◌}
use db233_rust.SqlValue.{Value}
use db233_rust.Json.{Json, Fields, object_entries, get_field}
use db233_rust.Extern.{Extern}
use db233_rust.Entity.{DbEntity}
use db233_rust.Orm.{convert_json_value}
use db233_rust.Orm.Build.{
  Statement, is_updated, is_new_id, is_json_zero, entity_json, on_duplicate_text,
}

-- `format!("({})", "?,".repeat(n).trim_end_matches(','))`
unfoldable pub row_sql : List Text → Text
row_sql columns =
    codes "(" ++ trim_end_matches b',' (repeat (length columns) (codes "?,")) ++ codes ")"

-- `INSERT INTO {} ({}) VALUES {} ON DUPLICATE KEY UPDATE {}`
unfoldable pub batch_text : Text → List Text → List Text → List Text → Text
batch_text table columns rows_sql update_clause =
    codes "INSERT INTO "
    ++ table
    ++ codes " ("
    ++ join (codes ", ") columns
    ++ codes ") VALUES "
    ++ join (codes ", ") rows_sql
    ++ on_duplicate_text update_clause

module _ {N : Type 0} (x : Extern N) where
  -- The columns and the update clause, from the first entity.
  unfoldable pub batch_columns : List (Text × Json N) → List Text × List Text
  unfolding is_json_zero
  batch_columns [] = ([], [])
  batch_columns ((key, value) ∷ obj) =
      let (columns, update_clause) = batch_columns obj in
      if is_new_id x key value then (columns, update_clause) else (
        key ∷ columns,
        (if is_updated key
            then (key ++ codes " = VALUES(" ++ key ++ codes ")") ∷ update_clause
            else update_clause),
      )

  -- `for col in &columns`, with `row_values`
  unfoldable pub row_values : List Text → Fields N → List Value
  row_values [] obj = []
  row_values (col ∷ columns) obj = elim (get_field col obj) [
    | some value ↦ convert_json_value x value ∷ row_values columns obj
    | none ↦ row_values columns obj
  ]

  -- What one entity adds to `values` and to `rows_sql`.
  unfoldable pub entity_row : List Text → Json N → List Value × List Text
  unfolding row_values row_sql
  entity_row columns (Json.object obj) = (row_values columns obj, row_sql columns ∷ [])
  entity_row columns Json.null = ([], [])
  entity_row columns (Json.bool b) = ([], [])
  entity_row columns (Json.number n) = ([], [])
  entity_row columns (Json.string s) = ([], [])
  entity_row columns (Json.array xs) = ([], [])

  module _ {T : Type 0} (D : DbEntity N T) where
    -- `for entity in entities`, with `values` and `rows_sql`
    unfoldable pub batch_rows : List Text → List T → Result (List Value × List Text)
    batch_rows columns [] = ok ([], [])
    batch_rows columns (entity ∷ entities) = do
      json_val ← entity_json x D entity
      let (row, row_text) = entity_row columns json_val
      (values, rows_sql) ← batch_rows columns entities
      ok (row ++ values, row_text ++ rows_sql)

    unfoldable pub build_batch_upsert_sql : List T → Result Statement
    build_batch_upsert_sql [] = err (parameter_error (codes "empty entities list"))
    build_batch_upsert_sql (first ∷ rest) = do
      json_val ← entity_json x D first
      let (columns, update_clause) = batch_columns (object_entries json_val)
      (values, rows_sql) ← batch_rows columns (first ∷ rest)
      ok (batch_text D.table_name columns rows_sql update_clause, values)
