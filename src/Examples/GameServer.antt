-- ===== src/Examples/GameServer.antt =====
-- src/examples/game_server.rs: a player who logs in, plays and leaves.
pub mod Refused
use db233_rust.Common.{
  ℕ, ℤ, pos, Bool, true, List, [], ◌∷◌, ◌++◌, Option, none, some, Text, codes, decimal, ◌==◌,
  if◌then◌else◌,
}
use db233_rust.Errors.{Result, ok, panic, Outcome, ◌>>=◌}
use db233_rust.Wal.{EntryFormat}
use db233_rust.Json.{Json}
use db233_rust.Extern.{Extern}
use db233_rust.Entity
use db233_rust.Entity.{DbEntity, WithBase, define_entity_with_base}
use db233_rust.Config.{DbConnectionConfig, GameDbOptions, new_connection, new_spec, default_options}
use db233_rust.Session.{EntityType, Rules, World, put, flush, get_or_load}
use db233_rust.Session.Lru.{Lru}
use db233_rust.Session.Repository.{open_session, close_session}
use db233_rust.Db.{Server, State, and_then, find_by_id}
use db233_rust.Game
use db233_rust.Game.{Environment, Game, init_game_db, close}
use db233_rust.Game.Sessions.{in_repository, in_session}
use db233_rust.Examples.{config, add_assign, in_lines, exec_ignored}

-- The fields of the two entities.
pub record PlayerBase : Type 0 where
  pub name : Text
  pub level : ℤ
  pub exp : ℤ

pub record PlayerBag : Type 0 where
  pub gold : ℤ
  pub items : Text

-- What a session can hold here.
pub data Content : Type 0 where
  player_base : WithBase PlayerBase → Content
  player_bag : WithBase PlayerBag → Content

-- What the compiler and `serde` make of the two types: their names, and how they are written and read.
pub record Derived (N : Type 0) : Type 0 where
  pub base_type_name : Text
  pub bag_type_name : Text
  pub base_to_string : WithBase PlayerBase → Outcome Text
  pub base_from_value : Json N → Outcome (WithBase PlayerBase)
  pub bag_to_string : WithBase PlayerBag → Outcome Text
  pub bag_from_value : Json N → Outcome (WithBase PlayerBag)

abbrev pub registered_base : Text
registered_base = codes "db233::examples::game_server::PlayerBaseEntity"

abbrev pub registered_bag : Text
registered_bag = codes "db233::examples::game_server::PlayerBagEntity"

abbrev pub create_player_base : Text
create_player_base =
    in_lines (
      codes "CREATE TABLE IF NOT EXISTS player_base ("
      ∷ codes "id BIGINT PRIMARY KEY,"
      ∷ codes "name VARCHAR(255) NOT NULL,"
      ∷ codes "level INT DEFAULT 1,"
      ∷ codes "exp BIGINT DEFAULT 0,"
      ∷ codes "created_at BIGINT,"
      ∷ codes "updated_at BIGINT"
      ∷ [])
    ++ codes "\n        )"

abbrev pub create_player_bag : Text
create_player_bag =
    in_lines (
      codes "CREATE TABLE IF NOT EXISTS player_bag ("
      ∷ codes "id BIGINT PRIMARY KEY,"
      ∷ codes "gold BIGINT DEFAULT 0,"
      ∷ codes "items TEXT,"
      ∷ codes "created_at BIGINT,"
      ∷ codes "updated_at BIGINT"
      ∷ [])
    ++ codes "\n        )"

abbrev pub options : GameDbOptions
unfolding new_spec
options = record default_options {
  enable_entity_cache = true;
  cacheable_entities = new_spec registered_base 8000 ∷ new_spec registered_bag 8000 ∷ [];
}

abbrev pub player_id : ℕ
player_id = 1001

-- What is put for a player, at the time `now`: the entity that was found, changed, or a new one. A box
-- of one type holds no entity of the other.
unfoldable pub next_base : Bool → ℤ → Option Content → Result Content
unfolding Entity.new
next_base overflow_checks now (some (player_base b)) = do
  level ← add_assign overflow_checks 32 b.fields.level 1
  ok (player_base (record b { fields = record b.fields { level = level } }))
next_base overflow_checks now (some (player_bag b)) = panic
next_base overflow_checks now none = ok (
    player_base (record {
      base = Entity.new now;
      fields = record { name = codes "Player_" ++ decimal player_id; level = pos 1; exp = pos 0 };
    }))

unfoldable pub next_bag : Bool → ℤ → Option Content → Result Content
unfolding Entity.new
next_bag overflow_checks now (some (player_bag b)) = do
  gold ← add_assign overflow_checks 64 b.fields.gold 100
  ok (player_bag (record b { fields = record b.fields { gold = gold } }))
next_bag overflow_checks now (some (player_base b)) = panic
next_bag overflow_checks now none = ok (
    player_bag
      (record { base = Entity.new now; fields = record { gold = pos 1000; items = codes "[]" } }))

module _ {N S Settings L : Type 0} (x : Extern N) (format : EntryFormat)
    (env : Environment S Settings) (server : Server S) (lru : Lru L) (derived : Derived N)
    (overflow_checks : Bool) where
  abbrev pub base_type : EntityType
  base_type = record { type_name = derived.base_type_name; type_id = 1 }

  abbrev pub bag_type : EntityType
  bag_type = record { type_name = derived.bag_type_name; type_id = 2 }

  -- `define_entity_with_base!`, twice.
  abbrev pub base_entity : DbEntity N (WithBase PlayerBase)
  base_entity =
      define_entity_with_base (codes "player_base") derived.base_to_string derived.base_from_value

  abbrev pub bag_entity : DbEntity N (WithBase PlayerBag)
  bag_entity =
      define_entity_with_base (codes "player_bag") derived.bag_to_string derived.bag_from_value

  -- `find_by_id` at either type.
  unfoldable pub find_content : EntityType → ℤ → State S → Result Content × State S
  find_content T id st =
      if T.type_id == 1
      then and_then (find_by_id server x format base_entity id st)
          (λ b st'. (ok (player_base b), st'))
      else and_then (find_by_id server x format bag_entity id st)
          (λ b st'. (ok (player_bag b), st'))

  -- `get_or_load`, and the `put` of what is made of its answer.
  unfoldable pub visit :
      ℤ
      → ℤ
      → EntityType
      → (Option Content → Result Content)
      → ℕ
      → ℕ
      → Game S L Content
      → Result (Unit {0}) × Game S L Content
  unfolding find_content
  visit now later T next a p g =
      and_then (in_session a p (λ rules w. get_or_load rules find_content now T w) g) (λ found g'.
        and_then (next found, g') (λ e g''. in_session a p (λ rules w. put rules later T e w) g''))

  -- `main` behind `Db::new`, and `main`, by the readings of the clock in their order.
  unfoldable pub run : (ℕ → ℤ) → Game S L Content → Result (Unit {0}) × Game S L Content
  unfolding visit
  run clock g =
      let made = exec_ignored server create_player_bag (exec_ignored server create_player_base g) in
      and_then (init_game_db env server lru config options made) (λ a g1.
        and_then
          (in_repository a
            (open_session lru (clock 0) (pos player_id) (registered_base ∷ registered_bag ∷ [])) g1)
          (λ p g2.
            and_then
              (visit (clock 1) (clock 3) base_type (next_base overflow_checks (clock 2)) a p g2)
              (λ _ g3.
                and_then
                  (visit (clock 4) (clock 6) bag_type (next_bag overflow_checks (clock 5)) a p g3)
                  (λ _ g4. and_then (in_session a p (λ rules w. flush w) g4) (λ _ g5.
                    and_then (in_repository a (close_session lru (pos player_id)) g5)
                      (λ _ g6. close env server lru g6))))))

  unfoldable pub main : (ℕ → ℤ) → Result (Unit {0})
  unfolding run
  main clock = Game.new env server config (pos 1) >>= λ g. (run clock g).0
