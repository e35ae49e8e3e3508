-- ===== src/Tests/Orm.antt =====
-- Runs of src/orm.rs on an entity of three fields, and each theorem about it at one.
use db233_rust.Orm.Values.{readback, convert_json_value-convert_mysql_value}
use db233_rust.Orm.LostIds.{IsNew, SameButId, build_batch_upsert_sql_loses_ids}
use db233_rust.Orm.Clauses.{written, settable, names_of, values_of, built-entries}
use db233_rust.Orm.BatchPlaceholders.{
  HasColumns, IsUniform, entity_values, build_batch_upsert_sql-IsBalanced,
}
use db233_rust.Orm.Placeholders.{KeysArePlain, IsPlain, IsBalanced, built-IsBalanced}
use db233_rust.Tests.Externs.{Number, whole, real, extern, extern-IsFaithful}
use db233_rust.Common.{
  ◌≡◌, refl, [], ◌∷◌, codes, Text, pos, ℕ, text_discrete, join, repeat, trim_end_matches, count,
  List, length, map, ◌++◌, ◌*◌, arith, ℤ, suc, negsuc,
}
use db233_rust.Errors.{ok, fine, failed}
use db233_rust.SqlValue.{Value}
use db233_rust.Json.{Json, Fields, get_field, object_entries}
use db233_rust.Entity.{DbEntity}
use db233_rust.Orm.{convert_json_value, convert_mysql_value}
use db233_rust.Orm.Build.{
  build_insert_sql, build_update_sql, build_upsert_sql, insert_text, update_text, on_duplicate_text,
  entity_json, insert_parts, update_parts, upsert_parts, upsert_entry, is_json_zero,
}
use db233_rust.Orm.Batch.{build_batch_upsert_sql, entity_row, batch_columns, batch_rows, batch_text}

program : Unit {0}
unfolding build_insert_sql build_update_sql build_upsert_sql build_batch_upsert_sql insert_text
    update_text on_duplicate_text entity_json insert_parts update_parts upsert_parts upsert_entry
    batch_text batch_columns batch_rows object_entries text_discrete join repeat trim_end_matches
    convert_json_value get_field entity_row
program = tt

abbrev pub absolute : ℤ → ℕ
absolute (pos n) = n
absolute (negsuc n) = suc n

-- An entity is its `id` and its `name`, and `serialize` writes them one after the other.
abbrev pub users : DbEntity Number (ℕ × Text)
users = record {
  table_name = codes "users";
  primary_key_name = codes "id";
  primary_key_value = λ e. pos e.0;
  set_primary_key_value = λ _ e. e;
  to_string = λ e. fine (e.0 ∷ e.1);
  from_value = λ _. failed [];
}

insert_new :
    build_insert_sql extern users (0, codes "Al")
    ≡ ok (
      codes "INSERT INTO users (created_at, name) VALUES (?, ?)",
      Value.int (pos 7) ∷ Value.bytes (codes "Al") ∷ [],
    )
unfolding program
insert_new = refl

pub update_old :
    build_update_sql extern users (5, codes "Al")
    ≡ ok (
      codes "UPDATE users SET name = ? WHERE id = ?",
      Value.bytes (codes "Al") ∷ Value.int (pos 5) ∷ [],
    )
unfolding program
update_old = refl

pub update_renamed :
    build_update_sql extern users (5, codes "Bo")
    ≡ ok (
      codes "UPDATE users SET name = ? WHERE id = ?",
      Value.bytes (codes "Bo") ∷ Value.int (pos 5) ∷ [],
    )
unfolding program
update_renamed = refl

-- The same with ids that are set.
abbrev pub numbered_users : DbEntity Number (ℕ × Text)
numbered_users = record users { set_primary_key_value = λ id e. (absolute id, e.1) }

pub upsert_new :
    build_upsert_sql extern numbered_users (0, codes "Al")
    ≡ ok (
      codes
          "INSERT INTO users (created_at, name) VALUES (?, ?) ON DUPLICATE KEY UPDATE name = VALUES(name)",
      Value.int (pos 7) ∷ Value.bytes (codes "Al") ∷ [],
    )
unfolding program
upsert_new = refl

pub upsert_other :
    build_upsert_sql extern numbered_users (0, codes "Bo")
    ≡ ok (
      codes
          "INSERT INTO users (created_at, name) VALUES (?, ?) ON DUPLICATE KEY UPDATE name = VALUES(name)",
      Value.int (pos 7) ∷ Value.bytes (codes "Bo") ∷ [],
    )
unfolding program
upsert_other = refl

pub upsert_old :
    build_upsert_sql extern users (5, codes "Al")
    ≡ ok (
      codes
          "INSERT INTO users (created_at, id, name) VALUES (?, ?, ?) ON DUPLICATE KEY UPDATE name = VALUES(name)",
      Value.int (pos 7) ∷ Value.int (pos 5) ∷ Value.bytes (codes "Al") ∷ [],
    )
unfolding program
upsert_old = refl

pub batch_of_two :
    build_batch_upsert_sql extern users ((5, codes "Al") ∷ (6, codes "Bo") ∷ [])
    ≡ ok (
      codes
          "INSERT INTO users (created_at, id, name) VALUES (?,?,?), (?,?,?) ON DUPLICATE KEY UPDATE name = VALUES(name)",
      Value.int (pos 7)
          ∷ Value.int (pos 5)
          ∷ Value.bytes (codes "Al")
          ∷ Value.int (pos 7)
          ∷ Value.int (pos 6)
          ∷ Value.bytes (codes "Bo")
          ∷ [],
    )
unfolding program
batch_of_two = refl

-- The JSON of an entity, and that no name has a `?`.
abbrev fields_of : ℕ → Text → Fields Number
fields_of i name = Fields.field (codes "created_at") (Json.number (whole (pos 7))) (
    Fields.field (codes "id") (Json.number (whole (pos i)))
      (Fields.field (codes "name") (Json.string name) Fields.end))

abbrev json : ℕ → Text → Json Number
json i name = Json.object (fields_of i name)

serialized : (i : ℕ) (name : Text) → entity_json extern users (i, name) ≡ ok (json i name)
unfolding entity_json
serialized i name = refl

plain_keys : (i : ℕ) (name : Text) → KeysArePlain (object_entries (json i name))
unfolding object_entries count
plain_keys i name = (refl, (refl, (refl, tt)))

pub users-IsPlain : (IsPlain users.table_name) × (IsPlain users.primary_key_name)
unfolding count
users-IsPlain = (refl, refl)

built-IsBalanced_example : IsBalanced (
  codes
      "INSERT INTO users (created_at, id, name) VALUES (?, ?, ?) ON DUPLICATE KEY UPDATE name = VALUES(name)",
  Value.int (pos 7) ∷ Value.int (pos 5) ∷ Value.bytes (codes "Al") ∷ [],
)
built-IsBalanced_example =
    (built-IsBalanced extern users (5, codes "Al") (json 5 (codes "Al")) (serialized 5 (codes "Al"))
        (plain_keys 5 (codes "Al")) users-IsPlain.0 users-IsPlain.1).1
      _ upsert_old

abbrev columns : List Text
columns = codes "created_at" ∷ codes "id" ∷ codes "name" ∷ []

has_columns : (i : ℕ) (name : Text) → HasColumns extern columns (fields_of i name)
unfolding get_field text_discrete
has_columns i name = ((_, refl), ((_, refl), ((_, refl), tt)))

uniform :
    IsUniform extern users
      (batch_columns extern (object_entries (json 5 (codes "Al")))).0
      ((5, codes "Al") ∷ (6, codes "Bo") ∷ [])
unfolding batch_columns object_entries text_discrete entity_json
uniform = ((_, refl, has_columns 5 (codes "Al")), ((_, refl, has_columns 6 (codes "Bo")), tt))

build_batch_upsert_sql-IsBalanced_example :
    IsBalanced (
      codes
          "INSERT INTO users (created_at, id, name) VALUES (?,?,?), (?,?,?) ON DUPLICATE KEY UPDATE name = VALUES(name)",
      Value.int (pos 7)
          ∷ Value.int (pos 5)
          ∷ Value.bytes (codes "Al")
          ∷ Value.int (pos 7)
          ∷ Value.int (pos 6)
          ∷ Value.bytes (codes "Bo")
          ∷ [],
    )
    × ((Value.int (pos 7)
          ∷ Value.int (pos 5)
          ∷ Value.bytes (codes "Al")
          ∷ Value.int (pos 7)
          ∷ Value.int (pos 6)
          ∷ Value.bytes (codes "Bo")
          ∷ [])
        ≡ entity_values extern users
            (batch_columns extern (object_entries (json 5 (codes "Al")))).0
            ((5, codes "Al") ∷ (6, codes "Bo") ∷ [])
            uniform)
    × (6 ≡ 2 * length (batch_columns extern (object_entries (json 5 (codes "Al")))).0)
build_batch_upsert_sql-IsBalanced_example =
    build_batch_upsert_sql-IsBalanced extern users (5, codes "Al") ((6, codes "Bo") ∷ [])
      (json 5 (codes "Al")) _ (serialized 5 (codes "Al")) (plain_keys 5 (codes "Al"))
      users-IsPlain.0 uniform batch_of_two

abbrev entries_of : List (Text × Json Number)
entries_of = object_entries (json 5 (codes "Al"))

built-entries_example :
    (build_insert_sql extern users (5, codes "Al")
      ≡ ok (
        insert_text
            (codes "users")
            (names_of extern (written extern entries_of))
            (map (λ _. codes "?") (written extern entries_of)),
        values_of extern (written extern entries_of),
      ))
    × (build_upsert_sql extern users (5, codes "Al")
        ≡ ok (
          insert_text
                (codes "users")
                (names_of extern (written extern entries_of))
                (map (λ _. codes "?") (written extern entries_of))
              ++ on_duplicate_text (
                  map
                    (λ e. e.0 ++ codes " = VALUES(" ++ e.0 ++ codes ")")
                    (settable extern entries_of)),
          values_of extern (written extern entries_of),
        ))
    × (build_update_sql extern users (5, codes "Al")
        ≡ ok (
          update_text
              (codes "users")
              (map (λ e. e.0 ++ codes " = ?") (settable extern entries_of))
              (codes "id"),
          values_of extern (settable extern entries_of) ++ Value.int (pos 5) ∷ [],
        ))
built-entries_example =
    built-entries extern users (5, codes "Al") (json 5 (codes "Al")) (serialized 5 (codes "Al"))

is_new : IsNew extern (object_entries (json 0 (codes "Al")))
unfolding object_entries is_json_zero
is_new = (λ e. cc, (λ _. refl, (λ e. cc, tt)))

same_but_id : SameButId extern (fields_of 5 (codes "Bo")) (fields_of 6 (codes "Bo"))
unfolding get_field
same_but_id c h = ground arith

-- The entities 5 and 6 behind a new one give the same statement.
build_batch_upsert_sql_loses_ids_example :
    build_batch_upsert_sql extern users ((0, codes "Al") ∷ (5, codes "Bo") ∷ [])
    ≡ build_batch_upsert_sql extern users ((0, codes "Al") ∷ (6, codes "Bo") ∷ [])
build_batch_upsert_sql_loses_ids_example =
    build_batch_upsert_sql_loses_ids extern users (0, codes "Al") ((5, codes "Bo") ∷ [])
      ((6, codes "Bo") ∷ []) (json 0 (codes "Al")) (serialized 0 (codes "Al")) is_new
      (
        (
          fields_of 5 (codes "Bo"),
          fields_of 6 (codes "Bo"),
          serialized 5 (codes "Bo"),
          serialized 6 (codes "Bo"),
          same_but_id,
        ),
        tt,
      )

-- 1.0
reads_one : convert_mysql_value extern (Value.float 1065353216) ≡ ok (Json.number (real 1065353216))
unfolding convert_mysql_value
reads_one = refl

convert_json_value-convert_mysql_value_example :
    convert_json_value extern (Json.number (real 1065353216))
    ≡ readback extern (Value.float 1065353216)
convert_json_value-convert_mysql_value_example =
    convert_json_value-convert_mysql_value extern extern-IsFaithful (Value.float 1065353216)
      (Json.number (real 1065353216)) (omega arith) reads_one
