-- ===== src/Orm/Clauses.antt =====
-- Which entries of an entity the statements of src/orm.rs write, and in which clause.
use db233_rust.Common.{
  ◌≡◌, refl, ap, Bool, not, List, [], ◌∷◌, ◌++◌, map, Text, codes, arith, if◌then◌else◌, ◌∙◌,
}
use db233_rust.Errors.{Result, ok, ◌>>=◌}
use db233_rust.SqlValue.{Value}
use db233_rust.Json.{Json, object_entries}
use db233_rust.Extern.{Extern}
use db233_rust.Entity.{DbEntity}
use db233_rust.Orm.{convert_json_value}
use db233_rust.Orm.Build.{
  Statement, is_updated, is_new_id, entity_json, insert_parts, update_parts, upsert_parts,
  update_text, build_insert_sql, build_update_sql, build_upsert_sql, on_duplicate_text,
  upsert_entry, UpsertParts, insert_text,
}
use db233_rust.Orm.Batch.{batch_columns}

-- The entries that a test keeps, in their order.
unfoldable pub keep {ℓ} : {A : Type ℓ} → (A → Bool) → List A → List A
keep test [] = []
keep test (a ∷ l) = let rest = keep test l in if test a then a ∷ rest else rest

module _ {N : Type 0} (x : Extern N) where
  abbrev pub Entry : Type 0
  Entry = Text × Json N

  -- The entries that an insert writes: all but a zero `id`.
  abbrev pub written : List Entry → List Entry
  written = keep (λ e. not (is_new_id x e.0 e.1))

  -- The entries that an update sets: all but `id` and `created_at`.
  abbrev pub settable : List Entry → List Entry
  settable = keep (λ e. is_updated e.0)

  abbrev pub values_of : List Entry → List Value
  values_of = map (λ e. convert_json_value x e.1)

  abbrev pub names_of : List Entry → List Text
  names_of = map (λ e. e.0)

  insert_parts-written :
      (obj : List Entry)
      → insert_parts x obj
        ≡ (names_of (written obj), map (λ _. codes "?") (written obj), values_of (written obj))
  unfolding insert_parts keep
  insert_parts-written [] = refl
  insert_parts-written ((k, v) ∷ obj) = ground (arith, insert_parts-written obj)

  update_parts-settable :
      (obj : List Entry)
      → update_parts x obj
        ≡ (map (λ e. e.0 ++ codes " = ?") (settable obj), values_of (settable obj))
  unfolding update_parts keep
  update_parts-settable [] = refl
  update_parts-settable ((k, v) ∷ obj) = ground (arith, update_parts-settable obj)

  -- An upsert collects what an insert does, and the update clause beside it.
  abbrev UpsertOf : List Entry → UpsertParts
  UpsertOf obj = record {
    columns = names_of (written obj);
    placeholders = map (λ _. codes "?") (written obj);
    update_clause = map (λ e. e.0 ++ codes " = VALUES(" ++ e.0 ++ codes ")") (settable obj);
    values = values_of (written obj);
  }

  upsert_entry-UpsertOf :
      (k : Text) (v : Json N) (obj : List Entry)
      → upsert_entry x k v (UpsertOf obj) ≡ UpsertOf ((k, v) ∷ obj)
  unfolding upsert_entry keep
  upsert_entry-UpsertOf k v obj = ground arith

  upsert_parts-UpsertOf : (obj : List Entry) → upsert_parts x obj ≡ UpsertOf obj
  unfolding upsert_parts
  upsert_parts-UpsertOf [] = unfold keep in refl
  upsert_parts-UpsertOf ((k, v) ∷ obj) =
      ap (upsert_entry x k v) (upsert_parts-UpsertOf obj) ∙ upsert_entry-UpsertOf k v obj

  batch_columns-written :
      (obj : List Entry)
      → batch_columns x obj ≡ (
        names_of (written obj),
        map (λ e. e.0 ++ codes " = VALUES(" ++ e.0 ++ codes ")") (settable obj),
      )
  unfolding batch_columns keep
  batch_columns-written [] = refl
  batch_columns-written ((k, v) ∷ obj) = ground (arith, batch_columns-written obj)

module _ {N T : Type 0} (x : Extern N) (D : DbEntity N T) (e : T) (json : Json N)
    (serialized : entity_json x D e ≡ ok json) where
  -- An insert writes every entry but a zero `id`, each with its converted value.
  pub build_insert_sql-written :
      build_insert_sql x D e
      ≡ ok (
        insert_text D.table_name
            (names_of x (written x (object_entries json)))
            (map (λ _. codes "?") (written x (object_entries json))),
        values_of x (written x (object_entries json)),
      )
  unfolding build_insert_sql
  build_insert_sql-written = rw (serialized, insert_parts-written x (object_entries json))

  -- An update sets every entry but `id` and `created_at`, each with its converted value, and binds
  -- the primary key last.
  pub build_update_sql-settable :
      build_update_sql x D e
      ≡ ok (
        update_text D.table_name
            (map (λ e. e.0 ++ codes " = ?") (settable x (object_entries json)))
            D.primary_key_name,
        values_of x (settable x (object_entries json)) ++ Value.int (D.primary_key_value e) ∷ [],
      )
  unfolding build_update_sql
  build_update_sql-settable = rw (serialized, update_parts-settable x (object_entries json))

  -- An upsert is the insert with an update clause behind it, for the entries that an update sets; it
  -- binds the same values.
  pub build_upsert_sql-insert :
      (st : Statement)
      → build_insert_sql x D e ≡ ok st
      → build_upsert_sql x D e
        ≡ ok (
          st.0
              ++ on_duplicate_text (
                  map
                    (λ e. e.0 ++ codes " = VALUES(" ++ e.0 ++ codes ")")
                    (settable x (object_entries json))),
          st.1,
        )
  unfolding build_insert_sql build_upsert_sql
  build_upsert_sql-insert st h =
      let clause =
        map (λ (e : Text × Json N). e.0 ++ codes " = VALUES(" ++ e.0 ++ codes ")")
          (settable x (object_entries json)) in
      rw (serialized, upsert_parts-UpsertOf x (object_entries json))
        (ap (λ (r : Result Statement). r >>= λ s. ok (s.0 ++ on_duplicate_text clause, s.1))
          (rw (serialized, insert_parts-written x (object_entries json)) at h))

  -- An entity whose text parses: an insert writes every entry but a zero `id`, each with its
  -- converted value. An upsert is the insert with an update clause behind it, for the entries but `id`
  -- and `created_at`, and binds the same values. An update sets those entries, each with its
  -- converted value, and binds the primary key last.
  pub built-entries :
      (build_insert_sql x D e
        ≡ ok (
          insert_text D.table_name
              (names_of x (written x (object_entries json)))
              (map (λ _. codes "?") (written x (object_entries json))),
          values_of x (written x (object_entries json)),
        ))
      × (build_upsert_sql x D e
          ≡ ok (
            insert_text D.table_name
                  (names_of x (written x (object_entries json)))
                  (map (λ _. codes "?") (written x (object_entries json)))
                ++ on_duplicate_text (
                    map
                      (λ e. e.0 ++ codes " = VALUES(" ++ e.0 ++ codes ")")
                      (settable x (object_entries json))),
            values_of x (written x (object_entries json)),
          ))
      × (build_update_sql x D e
          ≡ ok (
            update_text D.table_name
                (map (λ e. e.0 ++ codes " = ?") (settable x (object_entries json)))
                D.primary_key_name,
            values_of x (settable x (object_entries json))
                ++ Value.int (D.primary_key_value e) ∷ [],
          ))
  built-entries = (
    build_insert_sql-written,
    build_upsert_sql-insert _ build_insert_sql-written,
    build_update_sql-settable,
  )
