-- ===== src/Orm/BatchPlaceholders.antt =====
-- The batch statement of src/orm.rs: one value for each `?` if every entity has the columns of the
-- first one.
use db233_rust.Common.{
  ◌+◌, ◌*◌, ◌≡◌, refl, ap, List, [], ◌∷◌, ◌++◌, some, Text, codes, count, count-append, count_all,
  count-join, count-repeat, count-trim_end_matches, repeat, length, length-append, arith,
  trim_end_matches,
}
use db233_rust.Errors.{ok, >>=-inverts}
use db233_rust.SqlValue.{Value}
use db233_rust.Json.{Json, Fields, object_entries, get_field}
use db233_rust.Extern.{Extern}
use db233_rust.Entity.{DbEntity}
use db233_rust.Orm.{convert_json_value}
use db233_rust.Orm.Build.{Statement, entity_json}
use db233_rust.Orm.Batch.{
  row_sql, batch_columns, row_values, entity_row, batch_rows, build_batch_upsert_sql, batch_text,
}
use db233_rust.Orm.Placeholders.{
  IsPlain, KeysArePlain, IsBalanced, assignment-IsPlain, count-on_duplicate_text,
}

-- A row group has a `?` for each column.
count-row_sql : (columns : List Text) → count b'?' (row_sql columns) ≡ length columns
unfolding row_sql count
count-row_sql columns = omega (
  arith,
  count-append b'?' (codes "(" ++ trim_end_matches b',' (repeat (length columns) (codes "?,")))
      (codes ")"),
  count-append b'?' (codes "(") (trim_end_matches b',' (repeat (length columns) (codes "?,"))),
  count-trim_end_matches b'?' b',' (repeat (length columns) (codes "?,")) (omega arith),
  count-repeat b'?' (length columns) (codes "?,"),
)

count-batch_text :
    (table : Text) (columns rows clause : List Text)
    → IsPlain table
    → count b'?' (batch_text table columns rows clause)
      ≡ count_all b'?' columns + count_all b'?' rows + count_all b'?' clause
unfolding batch_text count
count-batch_text table columns rows clause h = simp count-append (
    omega (
      arith,
      count-join b'?' (codes ", ") columns refl,
      count-join b'?' (codes ", ") rows refl,
      count-on_duplicate_text clause,
    ))

module _ {N : Type 0} (x : Extern N) where
  batch_columns-count :
      (obj : List (Text × Json N))
      → KeysArePlain obj
      → (count_all b'?' (batch_columns x obj).0 ≡ 0) × (count_all b'?' (batch_columns x obj).1 ≡ 0)
  unfolding batch_columns count_all
  batch_columns-count [] h = (refl, refl)
  batch_columns-count ((k, v) ∷ obj) (hk, h) =
      ground (arith, batch_columns-count obj h, assignment-IsPlain k hk)

  -- The object has a value in each of the columns.
  abbrev pub HasColumns : List Text → Fields N → Type 0
  HasColumns [] obj = Unit
  HasColumns (col ∷ columns) obj =
      ((value : Json N) × (get_field col obj ≡ some value)) × HasColumns columns obj

  -- Those values, as the server gets them.
  abbrev pub column_values :
      (columns : List Text) (obj : Fields N) → HasColumns columns obj → List Value
  column_values [] obj h = []
  column_values (col ∷ columns) obj ((value, _), h) =
      convert_json_value x value ∷ column_values columns obj h

  row_values-column_values :
      (columns : List Text) (obj : Fields N) (h : HasColumns columns obj)
      → row_values x columns obj ≡ column_values columns obj h
  unfolding row_values
  row_values-column_values [] obj h = refl
  row_values-column_values (col ∷ columns) obj ((value, found), h) =
      rw (found, row_values)
        (ap (◌∷◌ (convert_json_value x value)) (row_values-column_values columns obj h))

  length-row_values :
      (columns : List Text) (obj : Fields N)
      → HasColumns columns obj
      → length (row_values x columns obj) ≡ length columns
  unfolding row_values
  length-row_values [] obj h = refl
  length-row_values (col ∷ columns) obj ((value, found), h) =
      ground (arith, length-row_values columns obj h)

  module _ {T : Type 0} (D : DbEntity N T) where
    -- Every entity is serialized to an object with the columns.
    abbrev pub IsUniform : List Text → List T → Type 0
    IsUniform columns [] = Unit
    IsUniform columns (e ∷ es) =
        ((obj : Fields N) × (entity_json x D e ≡ ok (Json.object obj)) × HasColumns columns obj)
        × IsUniform columns es

    -- The values of each entity, in the order of the columns.
    abbrev pub entity_values :
        (columns : List Text) (es : List T) → IsUniform columns es → List Value
    entity_values columns [] h = []
    entity_values columns (e ∷ es) ((obj, _, has), h) =
        column_values columns obj has ++ entity_values columns es h

    batch_rows-entity_values :
        (columns : List Text) (es : List T) (values : List Value) (rows : List Text)
        → (h : IsUniform columns es) → batch_rows x D columns es ≡ ok (values, rows)
        → values ≡ entity_values columns es h
    unfolding batch_rows entity_row
    batch_rows-entity_values columns [] values rows h e = ground arith
    batch_rows-entity_values columns (entity ∷ es) values rows ((obj, serialized, has), h) e =
        let (rest, he, same) =
          >>=-inverts (batch_rows x D columns es)
            (λ r. ok (row_values x columns obj ++ r.0, row_sql columns ∷ r.1))
            (rw serialized at e) in
        ground (
          arith,
          batch_rows-entity_values columns es rest.0 rest.1 h he,
          row_values-column_values columns obj has,
        )

    batch_rows-count :
        (columns : List Text) (es : List T) (values : List Value) (rows : List Text)
        → IsUniform columns es
        → batch_rows x D columns es ≡ ok (values, rows)
        → (length values ≡ length es * length columns) × (count_all b'?' rows ≡ length values)
    unfolding batch_rows entity_row count_all
    batch_rows-count columns [] values rows h e = ground arith
    batch_rows-count columns (entity ∷ es) values rows ((obj, serialized, has), h) e =
        let (rest, he, same) =
          >>=-inverts (batch_rows x D columns es)
            (λ r. ok (row_values x columns obj ++ r.0, row_sql columns ∷ r.1))
            (rw serialized at e) in
        ground (
          arith,
          batch_rows-count columns es rest.0 rest.1 h he,
          length-append (row_values x columns obj) rest.0,
          length-row_values columns obj has,
          count-row_sql columns,
        )

-- Whatever the table and the entities: if the names have no `?` and every entity has the columns of
-- the first one, then a batch upsert that is built has one value for each `?`. The values are those
-- of each entity for each of the columns, converted, in the order of the entities and, for one
-- entity, of the columns; there are as many as entities times columns.
pub build_batch_upsert_sql-IsBalanced :
    {N T : Type 0} (x : Extern N) (D : DbEntity N T) (e : T) (es : List T) (json : Json N)
    (st : Statement)
    → entity_json x D e ≡ ok json
    → KeysArePlain (object_entries json)
    → IsPlain D.table_name
    → (uniform : IsUniform x D (batch_columns x (object_entries json)).0 (e ∷ es))
    → build_batch_upsert_sql x D (e ∷ es) ≡ ok st
    → IsBalanced st
      × (st.1 ≡ entity_values x D (batch_columns x (object_entries json)).0 (e ∷ es) uniform)
      × (length st.1 ≡ length (e ∷ es) * length (batch_columns x (object_entries json)).0)
unfolding build_batch_upsert_sql
build_batch_upsert_sql-IsBalanced x D e es json st serialized keys table uniform h =
    let obj = object_entries json in
    let columns = (batch_columns x obj).0 in
    let (rest, hr, same) =
      >>=-inverts (batch_rows x D columns (e ∷ es))
        (λ r. ok (batch_text D.table_name columns r.1 (batch_columns x obj).1, r.0))
        (rw serialized at h) in
    ground (
      arith,
      batch_columns-count x obj keys,
      batch_rows-count x D columns (e ∷ es) rest.0 rest.1 uniform hr,
      batch_rows-entity_values x D columns (e ∷ es) rest.0 rest.1 uniform hr,
      count-batch_text D.table_name columns rest.1 (batch_columns x obj).1 table,
    )
