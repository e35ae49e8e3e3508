-- ===== src/Orm/LostIds.antt =====
-- A batch that begins with a new entity: src/orm.rs takes the columns from that entity, so no other
-- entity's `id` reaches the statement.
use db233_rust.Common.{◌⊎◌, ◌≡◌, ◌≢◌, refl, true, List, [], ◌∷◌, Text, arith}
use db233_rust.Errors.{ok}
use db233_rust.Json.{Json, Fields, object_entries, get_field}
use db233_rust.Extern.{Extern}
use db233_rust.Entity.{DbEntity}
use db233_rust.Orm.Build.{id, is_json_zero, entity_json}
use db233_rust.Orm.Batch.{batch_columns, row_values, entity_row, batch_rows, build_batch_upsert_sql}

abbrev pub LacksName : Text → List Text → Type 0
LacksName c [] = Unit
LacksName c (d ∷ columns) = (d ≢ c) × LacksName c columns

abbrev pub HasName : Text → List Text → Type 0
HasName c [] = ⊥
HasName c (d ∷ columns) = (d ≡ c) ⊎ HasName c columns

module _ {N : Type 0} (x : Extern N) where
  -- Every entry that is called `id` holds the number 0.
  abbrev pub IsNew : List (Text × Json N) → Type 0
  IsNew [] = Unit
  IsNew ((k, v) ∷ obj) = (k ≡ id → is_json_zero x v ≡ true) × IsNew obj

  batch_columns-IsNew :
      (obj : List (Text × Json N)) → IsNew obj → LacksName id (batch_columns x obj).0
  unfolding batch_columns
  batch_columns-IsNew [] h = tt
  batch_columns-IsNew ((k, v) ∷ obj) (hk, h) = ground (arith, batch_columns-IsNew obj h)

  -- Objects that differ in their `id` at most.
  abbrev pub SameButId : Fields N → Fields N → Type 0
  SameButId fs gs = (c : Text) → c ≢ id → get_field c fs ≡ get_field c gs

  row_values-SameButId :
      (columns : List Text) (fs gs : Fields N)
      → LacksName id columns
      → SameButId fs gs
      → row_values x columns fs ≡ row_values x columns gs
  unfolding row_values
  row_values-SameButId [] fs gs lacks same = refl
  row_values-SameButId (c ∷ columns) fs gs (hc, lacks) same =
      ground (arith, same c hc, row_values-SameButId columns fs gs lacks same)

  module _ {T : Type 0} (D : DbEntity N T) where
    -- Two lists of entities, pairwise the same but for the `id`.
    abbrev pub AllSameButId : List T → List T → Type 0
    AllSameButId [] [] = Unit
    AllSameButId [] (e ∷ es) = ⊥
    AllSameButId (e ∷ es) [] = ⊥
    AllSameButId (e ∷ es) (e' ∷ es') =
        ((fs : Fields N) × (gs : Fields N) × (entity_json x D e ≡ ok (Json.object fs))
          × (entity_json x D e' ≡ ok (Json.object gs))
          × SameButId fs gs)
        × AllSameButId es es'

    batch_rows-SameButId :
        (columns : List Text) (es es' : List T)
        → LacksName id columns
        → AllSameButId es es'
        → batch_rows x D columns es ≡ batch_rows x D columns es'
    unfolding batch_rows entity_row
    batch_rows-SameButId columns [] [] lacks h = refl
    batch_rows-SameButId columns [] (e ∷ es) lacks h = absurd h
    batch_rows-SameButId columns (e ∷ es) [] lacks h = absurd h
    batch_rows-SameButId columns (e ∷ es) (e' ∷ es') lacks ((fs, gs, he, he', same), h) = rw (
      he,
      he',
      row_values-SameButId columns fs gs lacks same,
      batch_rows-SameButId columns es es' lacks h,
    )

-- If the first entity of a batch is new (its `id` is 0), the statement does not depend on the `id`
-- of any other entity: entities that are stored already are sent without their `id`.
pub build_batch_upsert_sql_loses_ids :
    {N T : Type 0} (x : Extern N) (D : DbEntity N T) (e : T) (es es' : List T) (json : Json N)
    → entity_json x D e ≡ ok json
    → IsNew x (object_entries json)
    → AllSameButId x D es es'
    → build_batch_upsert_sql x D (e ∷ es) ≡ build_batch_upsert_sql x D (e ∷ es')
unfolding build_batch_upsert_sql batch_rows
build_batch_upsert_sql_loses_ids x D e es es' json serialized new same = rw (
  serialized,
  batch_rows-SameButId x D (batch_columns x (object_entries json)).0 es es'
      (batch_columns-IsNew x (object_entries json) new) same,
)
