-- ===== src/Orm/Build.antt =====
-- The statements that src/orm.rs builds for one entity.
use db233_rust.Common.{
  ℤ, is_zero, Bool, false, not, ◌&&◌, List, [], ◌∷◌, ◌++◌, none, some, Text, codes, text_eq, join,
  if◌then◌else◌,
}
use db233_rust.Errors.{Result, ok, map_err, mapping_error, ◌>>=◌}
use db233_rust.SqlValue.{Value}
use db233_rust.Json.{Json, object_entries}
use db233_rust.Extern.{Extern}
use db233_rust.Entity.{DbEntity}
use db233_rust.Orm.{convert_json_value}

-- A statement with its positional parameters.
abbrev pub Statement : Type 0
Statement = Text × List Value

abbrev pub id : Text
id = codes "id"

abbrev pub created_at : Text
created_at = codes "created_at"

-- `key != "id" && key != "created_at"`
abbrev pub is_updated : Text → Bool
is_updated key = not (text_eq key id) && not (text_eq key created_at)

-- `INSERT INTO {} ({}) VALUES ({})`
unfoldable pub insert_text : Text → List Text → List Text → Text
insert_text table columns placeholders =
    codes "INSERT INTO "
    ++ table
    ++ codes " ("
    ++ join (codes ", ") columns
    ++ codes ") VALUES ("
    ++ join (codes ", ") placeholders
    ++ codes ")"

-- `UPDATE {} SET {} WHERE {} = ?`
unfoldable pub update_text : Text → List Text → Text → Text
update_text table set_clause pk_name =
    codes "UPDATE "
    ++ table
    ++ codes " SET "
    ++ join (codes ", ") set_clause
    ++ codes " WHERE "
    ++ pk_name
    ++ codes " = ?"

-- What the two upserts put behind the rows.
unfoldable pub on_duplicate_text : List Text → Text
on_duplicate_text update_clause =
    codes " ON DUPLICATE KEY UPDATE " ++ join (codes ", ") update_clause

-- The four vectors of `build_upsert_sql`.
pub record UpsertParts : Type 0 where
  pub columns : List Text
  pub placeholders : List Text
  pub update_clause : List Text
  pub values : List Value

module _ {N : Type 0} (x : Extern N) where
  -- `value.as_i64() == Some(0)`
  unfoldable pub is_json_zero : Json N → Bool
  is_json_zero (Json.number n) = elim (x.as_i64 n) [ some i ↦ is_zero i | none ↦ false ]
  is_json_zero Json.null = false
  is_json_zero (Json.bool b) = false
  is_json_zero (Json.string s) = false
  is_json_zero (Json.array xs) = false
  is_json_zero (Json.object fs) = false

  -- `key == "id" && value.as_i64() == Some(0)`
  abbrev pub is_new_id : Text → Json N → Bool
  is_new_id key value = text_eq key id && is_json_zero value

  -- The loop of `build_insert_sql`: columns, placeholders and values.
  unfoldable pub insert_parts : List (Text × Json N) → List Text × List Text × List Value
  unfolding is_json_zero
  insert_parts [] = ([], [], [])
  insert_parts ((key, value) ∷ obj) =
      let (columns, placeholders, values) = insert_parts obj in
      if is_new_id key value
      then (columns, placeholders, values)
      else (key ∷ columns, codes "?" ∷ placeholders, convert_json_value x value ∷ values)

  -- The loop of `build_update_sql`: the `SET` clause and values.
  unfoldable pub update_parts : List (Text × Json N) → List Text × List Value
  update_parts [] = ([], [])
  update_parts ((key, value) ∷ obj) =
      let (set_clause, values) = update_parts obj in
      if text_eq key id
      then (set_clause, values)
      else if text_eq key created_at
      then (set_clause, values)
      else ((key ++ codes " = ?") ∷ set_clause, convert_json_value x value ∷ values)

  -- `build_upsert_sql` keeps `update_clause` beside what `build_insert_sql` keeps. The body of its
  -- loop at one entry, and the loop.
  unfoldable pub upsert_entry : Text → Json N → UpsertParts → UpsertParts
  upsert_entry key value p = if is_new_id key value then p else record {
    columns = key ∷ p.columns;
    placeholders = codes "?" ∷ p.placeholders;
    update_clause =
        if is_updated key
        then (key ++ codes " = VALUES(" ++ key ++ codes ")") ∷ p.update_clause
        else p.update_clause;
    values = convert_json_value x value ∷ p.values;
  }

  unfoldable pub upsert_parts : List (Text × Json N) → UpsertParts
  upsert_parts [] = record { columns = []; placeholders = []; update_clause = []; values = [] }
  upsert_parts ((key, value) ∷ obj) = upsert_entry key value (upsert_parts obj)

  module _ {T : Type 0} (D : DbEntity N T) where
    -- `serde_json::to_string(entity)?` and `serde_json::from_str(&json_str)?`, which every builder
    -- begins with.
    unfoldable pub entity_json : T → Result (Json N)
    entity_json entity = do
      json_str ← map_err mapping_error (D.to_string entity)
      map_err mapping_error (x.json_from_str json_str)

    unfoldable pub build_insert_sql : T → Result Statement
    build_insert_sql entity = do
      json_val ← entity_json entity
      let (columns, placeholders, values) = insert_parts (object_entries json_val)
      ok (insert_text D.table_name columns placeholders, values)

    unfoldable pub build_update_sql : T → Result Statement
    build_update_sql entity = do
      json_val ← entity_json entity
      let (set_clause, values) = update_parts (object_entries json_val)
      ok (
        update_text D.table_name set_clause D.primary_key_name,
        values ++ Value.int (D.primary_key_value entity) ∷ [],
      )

    unfoldable pub build_upsert_sql : T → Result Statement
    build_upsert_sql entity = do
      json_val ← entity_json entity
      let p = upsert_parts (object_entries json_val)
      ok (
        insert_text D.table_name p.columns p.placeholders ++ on_duplicate_text p.update_clause,
        p.values,
      )

    unfoldable pub build_delete_sql : T → Statement
    build_delete_sql entity = (
      codes "DELETE FROM " ++ D.table_name ++ codes " WHERE " ++ D.primary_key_name ++ codes " = ?",
      Value.int (D.primary_key_value entity) ∷ [],
    )

-- Only the type is asked for its names.
unfoldable pub build_find_by_id_sql : {N T : Type 0} → DbEntity N T → ℤ → Statement
build_find_by_id_sql D id = (
  codes "SELECT * FROM " ++ D.table_name ++ codes " WHERE " ++ D.primary_key_name ++ codes " = ?",
  Value.int id ∷ [],
)
