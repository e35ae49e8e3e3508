-- ===== src/Entity.antt =====
-- src/entity.rs: the traits, `BaseEntity`, and what the two macros implement.
use db233_rust.Common.{ℤ, pos, Text, codes, Option, List}
use db233_rust.Errors.{Outcome}
use db233_rust.Json.{Json}

-- The trait. `to_string` is `serde_json::to_string` at the type and `from_value` is
-- `serde_json::from_value`: its `Serialize` and `Deserialize` bounds, whose code `serde` derives.
pub record DbEntity (N T : Type 0) : Type 0 where
  pub table_name : Text
  pub primary_key_name : Text
  pub primary_key_value : T → ℤ
  pub set_primary_key_value : ℤ → T → T
  pub to_string : T → Outcome Text
  pub from_value : Json N → Outcome T

-- The trait `EntityMetadata`: the names of the fields and of the columns, either way.
record EntityMetadata : Type 0 where
  column_name : Text → Option Text
  field_name : Text → Option Text
  columns : List (Text × Text)

pub record BaseEntity : Type 0 where
  pub id : ℤ
  pub created_at : ℤ
  pub updated_at : ℤ

-- `BaseEntity::new`, at the time `now`.
unfoldable pub new : ℤ → BaseEntity
new now = record { id = pos 0; created_at = now; updated_at = now }

-- The struct that `define_entity!` declares, its other fields together in `F`.
pub record Inline (F : Type 0) : Type 0 where
  pub id : ℤ
  pub fields : F

-- The struct that `define_entity_with_base!` declares.
pub record WithBase (F : Type 0) : Type 0 where
  pub base : BaseEntity
  pub fields : F

module _ {N F : Type 0} where
  unfoldable pub define_entity :
      Text
      → Text
      → (Inline F → Outcome Text)
      → (Json N → Outcome (Inline F))
      → DbEntity N (Inline F)
  define_entity table pk serialize deserialize = record {
    table_name = table;
    primary_key_name = pk;
    primary_key_value = λ e. e.id;
    set_primary_key_value = λ value e. record e { id = value };
    to_string = serialize;
    from_value = deserialize;
  }

  unfoldable pub define_entity_with_base :
      Text → (WithBase F → Outcome Text) → (Json N → Outcome (WithBase F)) → DbEntity N (WithBase F)
  define_entity_with_base table serialize deserialize = record {
    table_name = table;
    primary_key_name = codes "id";
    primary_key_value = λ e. e.base.id;
    set_primary_key_value = λ value e. record e { base = record e.base { id = value } };
    to_string = serialize;
    from_value = deserialize;
  }
