-- ===== src/Orm/Rows.antt =====
-- The two ways in which src/orm.rs reads a row, as an entity and as a map of values, against each
-- other.
use db233_rust.Common.{
  subst, ◌≡◌, refl, ◌⊎◌, inl, inr, List, [], ◌∷◌, Option, none, some, Text, text_eq, if◌then◌else◌,
  Map, get, insert, get-insert, arith, Bool, true, false,
}
use db233_rust.Errors.{ok, fine, >>=-inverts, failed, Outcome, Db233Error, map_err, mapping_error}
use db233_rust.SqlValue.{Value}
use db233_rust.Json.{Json, Fields, get_field, insert_field}
use db233_rust.Extern.{Extern}
use db233_rust.Entity.{DbEntity}
use db233_rust.Orm.{
  row_fields, row_map_from, Row, cell, convert_mysql_value, row_to_json, from_row_json,
  query_to_entity, query_to_map,
}

map_err-fine :
    {A : Type 0} (kind : Text → Db233Error) (o : Outcome A) (a : A)
    → map_err kind o ≡ ok a
    → o ≡ fine a
map_err-fine kind (fine b) a h = grind arith
map_err-fine kind (failed e) a h = grind arith

module _ {N : Type 0} where
  get_field-insert_field :
      (k c : Text) (v : Json N) (fs : Fields N)
      → get_field c (insert_field k v fs) ≡ (if text_eq k c then some v else get_field c fs)
  unfolding get_field insert_field
  get_field-insert_field k c v Fields.end = refl
  get_field-insert_field k c v (Fields.field j w fs) =
      ground (arith, get_field-insert_field k c v fs)

module _ {N : Type 0} (x : Extern N) where
  -- What a column holds in both readings: nothing, or a value and its conversion.
  abbrev pub SameCell : Option (Json N) → Option Value → Type 0
  SameCell j v =
      ((j ≡ none) × (v ≡ none))
      ⊎ ((w : Value) × (i : Json N) × (v ≡ some w)
          × (j ≡ some i)
          × (convert_mysql_value x w ≡ ok i))

  abbrev pub SameRow : Fields N → Map Value → Type 0
  SameRow fs m = (c : Text) → SameCell (get_field c fs) (get c m)

  SameCell-if :
      (b : Bool) (w : Value) (i : Json N) (j : Option (Json N)) (v : Option Value)
      → convert_mysql_value x w ≡ ok i
      → SameCell j v
      → SameCell (if b then some i else j) (if b then some w else v)
  SameCell-if true w i j v converted same = inr (w, i, refl, refl, converted)
  SameCell-if false w i j v converted same = same

  SameRow-insert :
      (k : Text) (w : Value) (i : Json N) (fs : Fields N) (m : Map Value)
      → convert_mysql_value x w ≡ ok i
      → SameRow fs m
      → SameRow (insert_field k i fs) (insert k w m)
  SameRow-insert k w i fs m converted same c =
      rw (get_field-insert_field k c i fs, get-insert k c w m)
        (SameCell-if (text_eq k c) w i _ _ converted (same c))

  row_fields-SameRow :
      (row : Row) (fs fs' : Fields N) (m : Map Value)
      → SameRow fs m
      → row_fields x row fs ≡ ok fs'
      → SameRow fs' (row_map_from row m)
  unfolding row_fields row_map_from
  row_fields-SameRow [] fs fs' m same h = subst (λ gs. SameRow gs m) (grind arith) same
  row_fields-SameRow ((name, value) ∷ row) fs fs' m same h =
      let (i, converted, rest) = >>=-inverts (convert_mysql_value x (cell value)) _ h in
      row_fields-SameRow row (insert_field name i fs) fs' (insert name (cell value) m)
        (SameRow-insert name (cell value) i fs m converted same) rest

  SameRow-none : SameRow Fields.end []
  unfolding get_field get
  SameRow-none c = inl (refl, refl)

  module _ {T : Type 0} (D : DbEntity N T) where
    -- An entity and a map that are read from one row.
    abbrev pub SameReading : T → Map Value → Type 0
    SameReading e m = (fs : Fields N) × (D.from_value (Json.object fs) ≡ fine e) × SameRow fs m

    abbrev pub SameReadings : List T → List (Map Value) → Type 0
    SameReadings [] [] = Unit
    SameReadings [] (m ∷ ms) = ⊥
    SameReadings (e ∷ es) [] = ⊥
    SameReadings (e ∷ es) (m ∷ ms) = SameReading e m × SameReadings es ms

    from_row_json-SameReading :
        (row : Row) (e : T) → from_row_json x D row ≡ ok e → SameReading e (row_map_from row [])
    unfolding from_row_json row_to_json
    from_row_json-SameReading row e h =
        let (j, read, deserialized) = >>=-inverts (row_to_json x row) _ h in
        let (fs, fields, object) = >>=-inverts (row_fields x row Fields.end) _ read in
        (
          fs,
          map_err-fine mapping_error (D.from_value (Json.object fs)) e (grind arith),
          row_fields-SameRow row Fields.end fs [] SameRow-none fields,
        )

    -- Where rows are read as entities, they are read as maps too, one for each entity: the entity is
    -- what `serde` makes of an object that has the columns of the map and no other entries, each with
    -- its value converted.
    pub query_to_entity-query_to_map :
        (rows : List Row) (es : List T)
        → query_to_entity x D rows ≡ ok es
        → (ms : List (Map Value)) × (query_to_map rows ≡ ok ms) × SameReadings es ms
    unfolding query_to_entity query_to_map
    query_to_entity-query_to_map [] [] h = ([], refl, tt)
    query_to_entity-query_to_map [] (e ∷ es) h = grind arith
    query_to_entity-query_to_map (row ∷ rows) es h =
        let (e, read, rest) = >>=-inverts (from_row_json x D row) _ h in
        let (es', reads, all) = >>=-inverts (query_to_entity x D rows) _ rest in
        let (ms, maps, same) = query_to_entity-query_to_map rows es' reads in
        (
          row_map_from row [] ∷ ms,
          rw maps refl,
          subst (λ l. SameReadings l (row_map_from row [] ∷ ms)) {x = e ∷ es'} {y = es}
              (grind arith) (from_row_json-SameReading row e read, same),
        )
