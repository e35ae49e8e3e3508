-- ===== src/Tests/Embedded.antt =====
-- A struct of `define_entity_with_base!` with one field of its own, and the theorem about it.
use db233_rust.Common.{
  ◌≡◌, refl, ℕ, zero, suc, ℤ, pos, negsuc, List, [], ◌∷◌, ◌++◌, map, Text, codes, text_discrete,
  join, ap, length, arith,
}
use db233_rust.Errors.{Outcome, fine, failed, ok}
use db233_rust.SqlValue.{Value}
use db233_rust.Json.{Json, Fields, entries, insert_field, object_entries}
use db233_rust.Extern.{Extern}
use db233_rust.Entity.{BaseEntity, WithBase, DbEntity, define_entity_with_base}
use db233_rust.Orm.Build.{
  id, is_updated, insert_text, update_text, on_duplicate_text, build_insert_sql, build_update_sql,
  build_upsert_sql, entity_json, upsert_parts, upsert_entry,
}
use db233_rust.Orm.LostIds.{LacksName, HasName}
use db233_rust.Orm.Clauses.{keep, names_of}
use db233_rust.Orm.Embedded.{base_name, IsDerived, with_base-columns}
use db233_rust.Tests.Externs.{Number, whole, extern}
use db233_rust.Orm.{convert_json_value}

abbrev pub sign : ℤ → ℕ
sign (pos n) = 0
sign (negsuc n) = 1

abbrev pub size : ℤ → ℕ
size (pos n) = n
size (negsuc n) = n

abbrev pub unpacked : ℕ → ℕ → ℤ
unpacked zero n = pos n
unpacked (suc _) n = negsuc n

pub unpacked-sign : (i : ℤ) → unpacked (sign i) (size i) ≡ i
unpacked-sign (pos n) = refl
unpacked-sign (negsuc n) = refl

abbrev number : ℤ → Json Number
number i = Json.number (whole i)

abbrev base_fields : BaseEntity → Fields Number
base_fields b = Fields.field (codes "created_at") (number b.created_at) (
    Fields.field (codes "id") (number b.id)
      (Fields.field (codes "updated_at") (number b.updated_at) Fields.end))

abbrev own : Text → Fields Number
own name = Fields.field (codes "name") (Json.string name) Fields.end

-- The text of an entity is the three numbers of its base and its name.
abbrev serialize : WithBase Text → Outcome Text
serialize e = fine (
    sign e.base.id
    ∷ size e.base.id
    ∷ sign e.base.created_at
    ∷ size e.base.created_at
    ∷ sign e.base.updated_at
    ∷ size e.base.updated_at
    ∷ e.fields)

abbrev parse : Text → Outcome (Json Number)
parse (s ∷ i ∷ t ∷ c ∷ v ∷ u ∷ name) = fine (
    Json.object (
      insert_field base_name
        (Json.object (
          base_fields
            (record { id = unpacked s i; created_at = unpacked t c; updated_at = unpacked v u })))
        (own name)))
parse _ = failed (codes "EOF")

abbrev nested : Extern Number
nested = record extern { json_from_str = parse }

abbrev players : DbEntity Number (WithBase Text)
players = define_entity_with_base (codes "player_base") serialize (λ _. failed [])

abbrev player : ℤ → WithBase Text
player i = record {
  base = record { id = i; created_at = pos 7; updated_at = pos 8 };
  fields = codes "Al";
}

-- Player 5 is stored already, and is sent without its id.
upsert_player :
    build_upsert_sql nested players (player (pos 5))
    ≡ ok (
      codes
          "INSERT INTO player_base (base, name) VALUES (?, ?) ON DUPLICATE KEY UPDATE base = VALUES(base), name = VALUES(name)",
      Value.bytes (codes "[]") ∷ Value.bytes (codes "Al") ∷ [],
    )
unfolding build_upsert_sql insert_text on_duplicate_text entity_json upsert_parts upsert_entry
    object_entries text_discrete join convert_json_value define_entity_with_base insert_field
upsert_player = refl

players-IsDerived :
    IsDerived nested (codes "player_base") serialize (λ _. failed []) base_fields own
unfolding entity_json define_entity_with_base
players-IsDerived = record {
  derived = λ e.
      rw (unpacked-sign e.base.id, unpacked-sign e.base.created_at, unpacked-sign e.base.updated_at)
        refl;
}

own-LacksName : LacksName id (names_of nested (entries (own (codes "Al"))))
unfolding entries
own-LacksName = (λ e. omega (arith, ap length e), tt)

with_base-columns_example :
    (columns : List Text) × (LacksName id columns)
    × (HasName base_name columns)
    × (HasName base_name (keep is_updated columns))
    × ((b : BaseEntity)
        → ((values : List Value) × (build_insert_sql nested players
                (record { base = b; fields = codes "Al" })
              ≡ ok (
                insert_text (codes "player_base") columns (map (λ _. codes "?") columns),
                values,
              ))
            × (build_upsert_sql nested players (record { base = b; fields = codes "Al" })
                ≡ ok (
                  insert_text (codes "player_base") columns (map (λ _. codes "?") columns)
                      ++ on_duplicate_text (
                          map
                            (λ k. k ++ codes " = VALUES(" ++ k ++ codes ")")
                            (keep is_updated columns)),
                  values,
                )))
          × ((set_values : List Value) × (build_update_sql nested players
                  (record { base = b; fields = codes "Al" })
                ≡ ok (
                  update_text
                      (codes "player_base")
                      (map (λ k. k ++ codes " = ?") (keep is_updated columns))
                      id,
                  set_values ++ Value.int b.id ∷ [],
                ))))
with_base-columns_example =
    with_base-columns nested (codes "player_base") serialize (λ _. failed []) base_fields own
      players-IsDerived (codes "Al") own-LacksName
