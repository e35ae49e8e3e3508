-- ===== src/Orm.antt =====
-- src/orm.rs: the values that pass between JSON and MySQL, and the rows read back.
pub mod Build
pub mod Batch
pub mod Placeholders
pub mod BatchPlaceholders
pub mod Clauses
pub mod LostIds
pub mod Embedded
pub mod Rows
pub mod Values
use db233_rust.Common.{
  ℕ, ◌/◌, ◌%◌, ◌^◌, ◌-◌, ℤ, pos, Bool, true, false, not, List, [], ◌∷◌, ◌++◌, Option, none, some,
  Text, codes, decimal, two_digits, is_utf8, ◌==◌, if◌then◌else◌, Map, insert,
}
use db233_rust.Errors.{Result, ok, err, panic, Outcome, fine, failed, map_err, mapping_error, ◌>>=◌}
use db233_rust.SqlValue
use db233_rust.SqlValue.{Value}
use db233_rust.Json
use db233_rust.Json.{Json, Fields, insert_field}
use db233_rust.Extern.{Extern}
use db233_rust.Entity.{DbEntity}

-- `mysql_async::Row`: each column with what `row.get(i)` gives there.
abbrev pub Row : Type 0
Row = List (Text × Option Value)

-- `row.get(i).unwrap_or(Value::NULL)`
abbrev pub cell : Option Value → Value
cell none = Value.null
cell (some v) = v

-- `{}-{:02}-{:02} {:02}:{:02}:{:02}` and `{:02}:{:02}:{:02}`
unfoldable pub time_text : ℕ → ℕ → ℕ → Text
time_text hh mm ss = two_digits hh ++ b':' ∷ (two_digits mm ++ b':' ∷ two_digits ss)

unfoldable pub date_text : ℕ → ℕ → ℕ → ℕ → ℕ → ℕ → Text
unfolding time_text
date_text y m d hh mm ss =
    decimal y ++ b'-' ∷ (two_digits m ++ b'-' ∷ (two_digits d ++ b' ' ∷ time_text hh mm ss))

-- `Number::from_f64(f).unwrap()`
abbrev number_or_panic {ℓ} : {A : Type ℓ} → Option A → Result A
number_or_panic none = panic
number_or_panic (some n) = ok n

module _ {N : Type 0} (x : Extern N) where
  -- The three attempts at a number.
  convert_number : N → Value
  convert_number n = elim (x.as_i64 n) [
    | some i ↦ Value.int i
    | none ↦ elim (x.as_u64 n) [
      | some u ↦ Value.uint u
      | none ↦ elim (x.as_f64 n) [ some f ↦ Value.float (x.narrow f) | none ↦ Value.null ]
    ]
  ]

  -- `serde_json::to_string(&value).unwrap_or_default()`
  nested_text : Json N → Text
  nested_text value = elim (x.json_to_string value) [ fine s ↦ s | failed _ ↦ [] ]

  unfoldable pub convert_json_value : Json N → Value
  unfolding convert_number nested_text
  convert_json_value Json.null = Value.null
  convert_json_value (Json.bool b) = Value.int (if b then pos 1 else pos 0)
  convert_json_value (Json.number n) = convert_number n
  convert_json_value (Json.string s) = Value.bytes s
  convert_json_value (Json.array items) = Value.bytes (nested_text (Json.array items))
  convert_json_value (Json.object fields) = Value.bytes (nested_text (Json.object fields))

  unfoldable pub convert_mysql_value : Value → Result (Json N)
  unfolding date_text time_text
  convert_mysql_value Value.null = ok Json.null
  convert_mysql_value (Value.int i) = ok (Json.number (x.number_of_i64 i))
  convert_mysql_value (Value.uint u) = ok (Json.number (x.number_of_u64 u))
  convert_mysql_value (Value.float f) = do
    n ← number_or_panic (x.number_of_f64 (x.widen f))
    ok (Json.number n)
  convert_mysql_value (Value.double f) = do
    n ← number_or_panic (x.number_of_f64 f)
    ok (Json.number n)
  convert_mysql_value (Value.date y m d hh mm ss _) = ok (Json.string (date_text y m d hh mm ss))
  convert_mysql_value (Value.time _ _ hh mm ss _) = ok (Json.string (time_text hh mm ss))
  convert_mysql_value (Value.bytes b) =
      ok (Json.string (if is_utf8 b then b else x.base64_encode b))

  -- `for (i, col) in columns.iter().enumerate()`, with `map`.
  row_fields : Row → Fields N → Result (Fields N)
  unfolding convert_mysql_value
  row_fields [] map = ok map
  row_fields ((name, value) ∷ columns) map = convert_mysql_value (cell value) >>= λ json_value.
      row_fields columns (insert_field name json_value map)

  unfoldable pub row_to_json : Row → Result (Json N)
  unfolding row_fields
  row_to_json row = do map ← row_fields row Fields.end; ok (Json.object map)

  module _ {T : Type 0} (entity : DbEntity N T) where
    -- `FromRowJson::from_row_json`, and the body of the loop of `query_to_entity`
    unfoldable pub from_row_json : Row → Result T
    unfolding row_to_json
    from_row_json row = do
      json_val ← row_to_json row
      map_err mapping_error (entity.from_value json_val)

    unfoldable pub query_to_entity : List Row → Result (List T)
    unfolding from_row_json
    query_to_entity [] = ok []
    query_to_entity (row ∷ rows) = do
      result ← from_row_json row
      results ← query_to_entity rows
      ok (result ∷ results)

-- The loop over the columns of one row, with `row_map`.
row_map_from : Row → Map Value → Map Value
row_map_from [] row_map = row_map
row_map_from ((name, value) ∷ columns) row_map =
    row_map_from columns (insert name (cell value) row_map)

unfoldable pub query_to_map : List Row → Result (List (Map Value))
unfolding row_map_from
query_to_map [] = ok []
query_to_map (row ∷ rows) = do results ← query_to_map rows; ok (row_map_from row [] ∷ results)
