-- ===== src/Tests/Examples.antt =====
-- The programs of src/examples: game_server under the name that the compiler gives to the entity of its
-- player, and basic_usage against a server that knows no column `base`.
use db233_rust.Examples.GameServer.Refused.{main_refused}
use db233_rust.Examples.GameServer
use db233_rust.Examples.GameServer.{Derived}
use db233_rust.Examples.BasicUsage.{User}
use db233_rust.Examples.BasicUsage.Refused.{user_fields}
use db233_rust.Tests.Game.{environment}
use db233_rust.Tests.Db.{logging}
use db233_rust.Tests.Repository.{lru}
use db233_rust.Tests.Externs.{Number, extern}
use db233_rust.Tests.EntryFormats.{format}
use db233_rust.Tests.Embedded.{sign, size, unpacked, unpacked-sign}
use db233_rust.Orm.Embedded.{base_name, IsDerived}
use db233_rust.Orm.Build.{entity_json}
use db233_rust.Json.{Json, Fields, insert_field}
use db233_rust.Extern.{Extern}
use db233_rust.Entity.{WithBase, define_entity_with_base}
use db233_rust.Db.{Server}
use db233_rust.Errors.{ok, fine, failed, Outcome}
use db233_rust.Common.{
  ◌≡◌, ◌≢◌, refl, pos, true, codes, length, arith, ap, List, [], ◌∷◌, ◌++◌, Text, take, drop, ◌==◌,
  if◌then◌else◌,
}

-- No entity can be read back.
abbrev derived : Derived Number
derived = record {
  base_type_name = codes "game_server::PlayerBaseEntity";
  bag_type_name = codes "game_server::PlayerBagEntity";
  base_to_string = λ b. fine (codes "{}");
  base_from_value = λ v. failed (codes "missing field");
  bag_to_string = λ b. fine (codes "{}");
  bag_from_value = λ v. failed (codes "missing field");
}

main_refused_example :
    GameServer.main extern format environment logging lru derived true (λ n. pos n) ≢ ok tt
main_refused_example =
    main_refused extern format environment logging lru derived true (λ n. pos n)
      (λ e. omega (arith, ap length e)) (λ e. omega (arith, ap length e))

-- A server that refuses what begins with `I`.
abbrev answer_to : Text → Outcome (Unit {0})
answer_to [] = fine tt
answer_to (c ∷ sql) =
    if c == b'I' then failed (codes "Unknown column 'base' in 'field list'") else fine tt

abbrev strict : Server (List Text)
strict = record logging { exec_drop = λ conn sql values log. (answer_to sql, log) }

take-length : (xs ys : Text) → take (length xs) (xs ++ ys) ≡ xs
take-length [] ys = refl
take-length (x ∷ xs) ys = ap (◌∷◌ x) (take-length xs ys)

drop-length : (xs ys : Text) → drop (length xs) (xs ++ ys) ≡ ys
drop-length [] ys = refl
drop-length (x ∷ xs) ys = drop-length xs ys

-- The text of an entity is its integer and its texts behind their lengths.
abbrev user_text : WithBase User → Outcome Text
user_text e = fine (
    sign e.fields.age ∷ size e.fields.age ∷ length e.fields.name ∷ e.fields.name
    ++ (length e.fields.email ∷ e.fields.email ++ e.fields.status))

abbrev parse_user : Text → Outcome (Json Number)
parse_user (s ∷ a ∷ n ∷ text) = parse_email (drop n text)
  where
    parse_email : Text → Outcome (Json Number)
    parse_email [] = failed (codes "EOF")
    parse_email (m ∷ rest) = fine (
        Json.object (
          insert_field base_name (Json.object Fields.end) (
            user_fields extern (record {
              name = take n text;
              email = take m rest;
              age = unpacked s a;
              status = drop m rest;
            }))))
parse_user text = failed (codes "EOF")

abbrev of_users : Extern Number
of_users = record extern { json_from_str = parse_user }

users-IsDerived :
    IsDerived of_users
      (codes "users")
      user_text
      (λ v. failed [])
      (λ b. Fields.end)
      (user_fields of_users)
unfolding entity_json define_entity_with_base
users-IsDerived = record {
  derived = λ e.
      rw
        (
          drop-length e.fields.name (length e.fields.email ∷ e.fields.email ++ e.fields.status),
          take-length e.fields.name (length e.fields.email ∷ e.fields.email ++ e.fields.status),
          drop-length e.fields.email e.fields.status,
          take-length e.fields.email e.fields.status,
          unpacked-sign e.fields.age,
        )
        refl;
}
