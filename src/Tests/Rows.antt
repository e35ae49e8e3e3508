-- ===== src/Tests/Rows.antt =====
-- Rows read as entities and as maps: an entity that is its own JSON, and a row with a column twice.
use db233_rust.Common.{
  ◌≡◌, refl, pos, List, [], ◌∷◌, codes, some, none, Map, text_discrete, decimal, two_digits,
}
use db233_rust.Errors.{fine, ok}
use db233_rust.SqlValue.{Value}
use db233_rust.Json.{Json, Fields, insert_field}
use db233_rust.Entity.{DbEntity}
use db233_rust.Orm.{Row, query_to_entity, query_to_map, convert_mysql_value}
use db233_rust.Orm.Rows.{SameReadings, query_to_entity-query_to_map}
use db233_rust.Tests.Externs.{Number, whole, extern}

abbrev objects : DbEntity Number (Json Number)
objects = record {
  table_name = codes "objects";
  primary_key_name = codes "id";
  primary_key_value = λ _. pos 0;
  set_primary_key_value = λ _ e. e;
  to_string = λ _. fine [];
  from_value = fine;
}

abbrev rows : List Row
rows =
    ((codes "id", some (Value.int (pos 5)))
      ∷ (codes "born", some (Value.date 2024 2 3 4 5 6 0))
      ∷ (codes "id", some (Value.int (pos 6)))
      ∷ [])
    ∷ ((codes "name", none) ∷ [])
    ∷ []

abbrev read : List (Json Number)
read =
    Json.object (
      Fields.field (codes "born") (Json.string (codes "2024-02-03 04:05:06"))
        (Fields.field (codes "id") (Json.number (whole (pos 6))) Fields.end))
    ∷ Json.object (Fields.field (codes "name") Json.null Fields.end)
    ∷ []

reads_rows : query_to_entity extern objects rows ≡ ok read
unfolding query_to_entity convert_mysql_value insert_field text_discrete decimal two_digits
reads_rows = refl

query_to_entity-query_to_map_example :
    (ms : List (Map Value)) × (query_to_map rows ≡ ok ms) × SameReadings extern objects read ms
query_to_entity-query_to_map_example =
    query_to_entity-query_to_map extern objects rows read reads_rows
