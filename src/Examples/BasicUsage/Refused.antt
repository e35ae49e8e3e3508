-- ===== src/Examples/BasicUsage/Refused.antt =====
-- src/examples/basic_usage.rs against a server whose table is the one that the program makes.
use db233_rust.Common.{ℕ, ℤ, ◌≡◌, ◌≢◌, refl, List, [], ◌∷◌, Text, codes, text_discrete, join, pos}
use db233_rust.Errors.{ok, Outcome, >>=-inverts}
use db233_rust.SqlValue.{Value}
use db233_rust.Wal.{EntryFormat}
use db233_rust.Json.{Json, Fields, insert_field, object_entries}
use db233_rust.Extern.{Extern}
use db233_rust.Entity
use db233_rust.Orm.{convert_json_value}
use db233_rust.Entity.{BaseEntity, WithBase, define_entity_with_base}
use db233_rust.Orm.Build.{
  build_upsert_sql, insert_text, on_duplicate_text, upsert_parts, upsert_entry,
}
use db233_rust.Orm.Embedded.{IsDerived}
use db233_rust.Session.Lru.{Lru}
use db233_rust.Db.{Server, State, exec, save}
use db233_rust.Game
use db233_rust.Game.{Environment, Game}
use db233_rust.Examples.{config, in_db}
use db233_rust.Examples.Answers.{and_then-inverts, IsRefused, exec_refused}
use db233_rust.Examples.BasicUsage.{alice, User, user, users, run, main}

-- What `save` sends for the user.
abbrev pub saved_sql : Text
saved_sql =
    codes
      "INSERT INTO users (age, base, email, name, status) VALUES (?, ?, ?, ?, ?) ON DUPLICATE KEY UPDATE age = VALUES(age), base = VALUES(base), email = VALUES(email), name = VALUES(name), status = VALUES(status)"

-- What `serde` derives for the four fields of the struct.
abbrev pub user_fields : {N : Type 0} → Extern N → User → Fields N
user_fields x u = Fields.field (codes "age") (Json.number (x.number_of_i64 u.age)) (
    Fields.field (codes "email") (Json.string u.email) (
      Fields.field (codes "name") (Json.string u.name)
        (Fields.field (codes "status") (Json.string u.status) Fields.end)))

module _ {N : Type 0} (x : Extern N) (serialize : WithBase User → Outcome Text)
    (deserialize : Json N → Outcome (WithBase User)) (base_fields : BaseEntity → Fields N)
    (h : IsDerived x (codes "users") serialize deserialize base_fields (user_fields x)) where
  abbrev saved_values : ℤ → List Value
  saved_values now =
      convert_json_value x (Json.number (x.number_of_i64 alice.age))
      ∷ convert_json_value x (Json.object (base_fields (Entity.new now)))
      ∷ convert_json_value x (Json.string alice.email)
      ∷ convert_json_value x (Json.string alice.name)
      ∷ convert_json_value x (Json.string alice.status)
      ∷ []

  build_upsert_sql-user :
      (now : ℤ)
      → build_upsert_sql x (users serialize deserialize) (user now)
        ≡ ok (saved_sql, saved_values now)
  unfolding build_upsert_sql insert_text on_duplicate_text upsert_parts upsert_entry object_entries
      text_discrete join define_entity_with_base insert_field user Entity.new
  build_upsert_sql-user now = rw (h.derived (user now)) refl

  module _ {S Settings L : Type 0} (format : EntryFormat) (env : Environment S Settings)
      (server : Server S) (lru : Lru L) (refuses : IsRefused server saved_sql) where
    save_refused :
        (now later : ℤ) (st : State S) (saved : WithBase User)
        → (save server x format (users serialize deserialize) later (user now) st).0 ≢ ok saved
    unfolding save
    save_refused now later st saved done =
        let values = saved_values now in
        let e = build_upsert_sql-user now in
        let (n, sent, _) =
          and_then-inverts (exec server saved_sql values st).0 (exec server saved_sql values st).1 _
            saved (rw e at done) in
        exec_refused server saved_sql values st n refuses sent

    -- Where `serde` derives the entity as documented and the server refuses the statement that `save`
    -- makes of it, which names a column `base` that the program's own table does not have, `main`
    -- does not return `Ok`.
    main_refuses_base :
        (clock : ℕ → ℤ) → main x format env server lru (users serialize deserialize) clock ≢ ok tt
    unfolding main run in_db
    main_refuses_base clock done =
        let (g, made, rest) = >>=-inverts (Game.new env server config (pos 1)) _ done in
        let (saved, sent, _) = and_then-inverts _ _ _ tt rest in
        save_refused (clock 0) (clock 1) _ saved sent
