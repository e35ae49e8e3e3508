-- ===== src/Orm/Embedded.antt =====
-- The statements of src/orm.rs for an entity that `define_entity_with_base!` of src/entity.rs
-- declares: the object of its `BaseEntity` is one entry of its JSON.
use db233_rust.Common.{
  length, ◌≡◌, ◌≢◌, inl, inr, refl, ap, sym, ◌∙◌, List, [], ◌∷◌, ◌++◌, map, Text, codes, true, Bool,
  arith, text_discrete,
}
use mathlib.Core.List.{map-map}
use db233_rust.Errors.{Outcome, ok}
use db233_rust.SqlValue.{Value}
use db233_rust.Json.{Json, Fields, entries, insert_field, object_entries}
use db233_rust.Extern.{Extern}
use db233_rust.Entity.{DbEntity, BaseEntity, WithBase, define_entity_with_base}
use db233_rust.Orm.Build.{
  id, is_updated, entity_json, insert_text, update_text, on_duplicate_text, build_insert_sql,
  build_update_sql, build_upsert_sql,
}
use db233_rust.Orm.LostIds.{LacksName, HasName}
use db233_rust.Orm.Clauses.{
  Entry, keep, written, settable, names_of, values_of, build_insert_sql-written,
  build_update_sql-settable, build_upsert_sql-insert,
}

abbrev pub base_name : Text
base_name = codes "base"

base_name-is_updated : is_updated base_name ≡ true
unfolding text_discrete
base_name-is_updated = refl

base_name-id : base_name ≢ id
base_name-id e = omega (arith, ap length e)

HasName-keep :
    (test : Text → Bool) (c : Text) (l : List Text)
    → HasName c l
    → test c ≡ true
    → HasName c (keep test l)
unfolding keep
HasName-keep test c [] m h = absurd m
HasName-keep test c (d ∷ l) (inl e) h = ground arith
HasName-keep test c (d ∷ l) (inr m) h = ground (arith, HasName-keep test c l m h)

module _ {N : Type 0} (x : Extern N) where
  names_of-insert_field :
      (k : Text) (v w : Json N) (fs : Fields N)
      → names_of x (entries (insert_field k v fs)) ≡ names_of x (entries (insert_field k w fs))
  unfolding insert_field entries
  names_of-insert_field k v w Fields.end = refl
  names_of-insert_field k v w (Fields.field j u fs) = ground (arith, names_of-insert_field k v w fs)

  HasName-insert_field :
      (k : Text) (v : Json N) (fs : Fields N)
      → HasName k (names_of x (entries (insert_field k v fs)))
  unfolding insert_field entries
  HasName-insert_field k v Fields.end = inl refl
  HasName-insert_field k v (Fields.field j u fs) = ground (arith, HasName-insert_field k v fs)

  LacksName-insert_field :
      (c k : Text) (v : Json N) (fs : Fields N)
      → k ≢ c
      → LacksName c (names_of x (entries fs))
      → LacksName c (names_of x (entries (insert_field k v fs)))
  unfolding insert_field entries
  LacksName-insert_field c k v Fields.end other lacks = (other, tt)
  LacksName-insert_field c k v (Fields.field j u fs) other (hj, lacks) =
      ground (arith, LacksName-insert_field c k v fs other lacks)

  -- A map that reads the names alone.
  map_names :
      (g : Text → Text) (l : List (Entry x)) (ns : List Text)
      → names_of x l ≡ ns
      → map (λ (e : Entry x). g e.0) l ≡ map g ns
  map_names g l ns e = sym (map-map g (λ (e : Entry x). e.0) l) ∙ ap (map g) e

  written-LacksName : (l : List (Entry x)) → LacksName id (names_of x l) → written x l ≡ l
  unfolding keep
  written-LacksName [] lacks = refl
  written-LacksName ((k, v) ∷ l) (hk, lacks) = ground (arith, written-LacksName l lacks)

  names_of-settable :
      (l : List (Entry x)) → names_of x (settable x l) ≡ keep is_updated (names_of x l)
  unfolding keep
  names_of-settable [] = refl
  names_of-settable ((k, v) ∷ l) = ground (arith, names_of-settable l)

module _ {N F : Type 0} (x : Extern N) (table : Text) (serialize : WithBase F → Outcome Text)
    (deserialize : Json N → Outcome (WithBase F)) where
  -- What `serde` derives for the struct: the fields that the macro is given, by their names, and
  -- `base` with the object of the `BaseEntity`.
  pub record IsDerived (base_fields : BaseEntity → Fields N) (own : F → Fields N) : Type 0 where
    pub derived :
        (e : WithBase F)
        → entity_json x (define_entity_with_base table serialize deserialize) e
          ≡ ok (
              Json.object
                (insert_field base_name (Json.object (base_fields e.base)) (own e.fields)))

  module _ (base_fields : BaseEntity → Fields N) (own : F → Fields N)
      (h : IsDerived base_fields own) (f : F)
      (lacks : LacksName id (names_of x (entries (own f)))) where
    abbrev names : List Text
    names = names_of x (entries (insert_field base_name Json.null (own f)))

    abbrev fields_at : BaseEntity → List (Entry x)
    fields_at b = entries (insert_field base_name (Json.object (base_fields b)) (own f))

    names_of-fields_at : (b : BaseEntity) → names_of x (fields_at b) ≡ names
    names_of-fields_at b = names_of-insert_field x base_name _ Json.null (own f)

    written-fields_at : (b : BaseEntity) → written x (fields_at b) ≡ fields_at b
    written-fields_at b =
        written-LacksName x (fields_at b)
          (LacksName-insert_field x id base_name _ (own f) base_name-id lacks)

    settable-fields_at :
        (b : BaseEntity) → names_of x (settable x (fields_at b)) ≡ keep is_updated names
    settable-fields_at b =
        names_of-settable x (fields_at b) ∙ ap (keep is_updated) (names_of-fields_at b)

    abbrev D : DbEntity N (WithBase F)
    D = define_entity_with_base table serialize deserialize

    build_insert_sql-names :
        (b : BaseEntity)
        → build_insert_sql x D (record { base = b; fields = f })
          ≡ ok (insert_text table names (map (λ _. codes "?") names), values_of x (fields_at b))
    unfolding define_entity_with_base object_entries
    build_insert_sql-names b =
        build_insert_sql-written x D (record { base = b; fields = f }) _
          (h.derived (record { base = b; fields = f }))
        ∙ rw
            (
              written-fields_at b,
              names_of-fields_at b,
              map_names x (λ _. codes "?") (fields_at b) names (names_of-fields_at b),
            )
            refl

    build_upsert_sql-names :
        (b : BaseEntity)
        → build_upsert_sql x D (record { base = b; fields = f })
          ≡ ok (
            insert_text table names (map (λ _. codes "?") names)
                ++ on_duplicate_text
                    (map (λ k. k ++ codes " = VALUES(" ++ k ++ codes ")") (keep is_updated names)),
            values_of x (fields_at b),
          )
    unfolding object_entries
    build_upsert_sql-names b =
        build_upsert_sql-insert x D (record { base = b; fields = f }) _
          (h.derived (record { base = b; fields = f })) _ (build_insert_sql-names b)
        ∙ rw
            (map_names x (λ k. k ++ codes " = VALUES(" ++ k ++ codes ")") (settable x (fields_at b))
              (keep is_updated names) (settable-fields_at b))
            refl

    build_update_sql-names :
        (b : BaseEntity)
        → build_update_sql x D (record { base = b; fields = f })
          ≡ ok (
            update_text table (map (λ k. k ++ codes " = ?") (keep is_updated names)) id,
            values_of x (settable x (fields_at b)) ++ Value.int b.id ∷ [],
          )
    unfolding define_entity_with_base object_entries
    build_update_sql-names b =
        build_update_sql-settable x D (record { base = b; fields = f }) _
          (h.derived (record { base = b; fields = f }))
        ∙ rw
            (map_names x (λ k. k ++ codes " = ?") (settable x (fields_at b)) (keep is_updated names)
              (settable-fields_at b))
            refl

    -- The statements of an entity with an embedded base that serializes as `serde` derives it, where
    -- no field of its own is called `id`: their columns have `base` and no `id`, and are the same
    -- whatever the base is, so a stored entity is inserted and upserted as a new one is, without its
    -- key. An upsert and an update set the column `base`; the update binds the id of the base last.
    pub with_base-columns :
        (columns : List Text) × (LacksName id columns)
        × (HasName base_name columns)
        × (HasName base_name (keep is_updated columns))
        × ((b : BaseEntity)
            → ((values : List Value) × (build_insert_sql x D (record { base = b; fields = f })
                  ≡ ok (insert_text table columns (map (λ _. codes "?") columns), values))
                × (build_upsert_sql x D (record { base = b; fields = f })
                    ≡ ok (
                      insert_text table columns (map (λ _. codes "?") columns)
                          ++ on_duplicate_text (
                              map
                                (λ k. k ++ codes " = VALUES(" ++ k ++ codes ")")
                                (keep is_updated columns)),
                      values,
                    )))
              × ((set_values : List Value) × (build_update_sql x D (record { base = b; fields = f })
                    ≡ ok (
                      update_text table (map (λ k. k ++ codes " = ?") (keep is_updated columns)) id,
                      set_values ++ Value.int b.id ∷ [],
                    ))))
    with_base-columns = (
      names,
      LacksName-insert_field x id base_name Json.null (own f) base_name-id lacks,
      HasName-insert_field x base_name Json.null (own f),
      HasName-keep is_updated base_name names (HasName-insert_field x base_name Json.null (own f))
          base_name-is_updated,
      λ b. ((_, build_insert_sql-names b, build_upsert_sql-names b), (_, build_update_sql-names b)),
    )
