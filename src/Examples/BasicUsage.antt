-- ===== src/Examples/BasicUsage.antt =====
-- src/examples/basic_usage.rs: a user who is saved, found and changed, and the queries.
pub mod Refused
use db233_rust.Common.{ℕ, ℤ, pos, List, [], ◌∷◌, ◌++◌, Text, codes, Map, insert}
use db233_rust.Errors.{Result, Outcome, ◌>>=◌}
use db233_rust.SqlValue.{Value}
use db233_rust.Wal.{EntryFormat}
use db233_rust.Json.{Json}
use db233_rust.Extern.{Extern}
use db233_rust.Entity
use db233_rust.Entity.{DbEntity, WithBase, define_entity_with_base}
use db233_rust.Session.Lru.{Lru}
use db233_rust.Db.{Server, and_then, save, update, find_by_id, query_to_int64}
use db233_rust.Db.Queries.{query_named, query_named_to_int64_slice}
use db233_rust.Game
use db233_rust.Game.{Environment, Game, close}
use db233_rust.Examples.{config, answer, in_db, in_lines, exec_ignored}

pub record User : Type 0 where
  pub name : Text
  pub email : Text
  pub age : ℤ
  pub status : Text

abbrev pub create_users : Text
create_users =
    in_lines (
      codes "CREATE TABLE IF NOT EXISTS users ("
      ∷ codes "id BIGINT PRIMARY KEY AUTO_INCREMENT,"
      ∷ codes "name VARCHAR(255) NOT NULL,"
      ∷ codes "email VARCHAR(255) UNIQUE,"
      ∷ codes "age INT,"
      ∷ codes "status VARCHAR(32) DEFAULT 'active',"
      ∷ codes "created_at BIGINT,"
      ∷ codes "updated_at BIGINT"
      ∷ [])
    ++ codes "\n        )"

abbrev pub alice : User
alice = record {
  name = codes "Alice";
  email = codes "alice@example.com";
  age = pos 25;
  status = codes "active";
}

abbrev pub user : ℤ → WithBase User
unfolding Entity.new
user now = record { base = Entity.new now; fields = alice }

abbrev pub renamed : WithBase User → WithBase User
renamed u = record u { fields = record u.fields { name = codes "Alice Smith" } }

unfoldable pub params : Map Value
params =
    insert (codes "status") (Value.bytes (codes "active"))
      (insert (codes "minAge") (Value.int (pos 18)) [])

-- `define_entity_with_base!`
abbrev pub users :
    {N : Type 0}
    → (WithBase User → Outcome Text)
    → (Json N → Outcome (WithBase User))
    → DbEntity N (WithBase User)
users serialize deserialize = define_entity_with_base (codes "users") serialize deserialize

module _ {N S Settings L : Type 0} (x : Extern N) (format : EntryFormat)
    (env : Environment S Settings) (server : Server S) (lru : Lru L)
    (D : DbEntity N (WithBase User)) where
  -- `main` behind the table, and `main`, by the readings of the clock in their order.
  unfoldable pub run : (ℕ → ℤ) → Game S L (Unit {0}) → Result (Unit {0}) × Game S L (Unit {0})
  unfolding params
  run clock g = and_then (in_db (save server x format D (clock 1) (user (clock 0))) g) (λ saved g1.
      let (found, g2) = in_db (find_by_id server x format D saved.base.id) g1 in
      and_then (answer found, g2)
        (λ _ g3. and_then (in_db (update server x format D (clock 2) (renamed saved)) g3) (λ _ g4.
          and_then (in_db (query_to_int64 server (codes "SELECT COUNT(*) FROM users") []) g4)
            (λ _ g5.
              and_then
                (in_db
                  (query_named server
                    (codes "SELECT * FROM users WHERE age > {minAge} AND status={status}") params)
                  g5)
                (λ _ g6.
                  and_then
                    (in_db
                      (query_named_to_int64_slice server
                        (codes "SELECT id FROM users WHERE status={status}") params)
                      g6)
                    (λ _ g7. close env server lru g7))))))

  unfoldable pub main : (ℕ → ℤ) → Result (Unit {0})
  unfolding run
  main clock =
      Game.new env server config (pos 1) >>= λ g. (run clock (exec_ignored server create_users g)).0
