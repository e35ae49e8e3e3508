-- ===== src/Examples/PerformanceTest.antt =====
-- src/examples/performance_test.rs: batches of players, reads, and single updates. What is measured and
-- printed is left out; the random numbers are functions of the id of their player.
pub mod Refused
use db233_rust.Common.{
  ℕ, zero, suc, ◌+◌, ◌*◌, ℤ, pos, List, [], ◌∷◌, ◌++◌, map, Text, codes, decimal,
}
use db233_rust.Errors.{Result, ok, Outcome, ◌>>=◌}
use db233_rust.SqlValue.{Value}
use db233_rust.Wal.{EntryFormat}
use db233_rust.Json.{Json}
use db233_rust.Extern.{Extern}
use db233_rust.Entity.{DbEntity, WithBase, define_entity_with_base}
use db233_rust.Session.Lru.{Lru}
use db233_rust.Db.{Server, and_then, exec, save_batch_upsert, update, find_by_ids, query_to_int64}
use db233_rust.Game
use db233_rust.Game.{Environment, Game, close}
use db233_rust.Examples.{config, in_db, in_lines, exec_ignored}

pub record Player : Type 0 where
  pub name : Text
  pub score : ℤ
  pub text_data : Text

-- `thread_rng().gen_range`, for the player of an id.
pub record Random : Type 0 where
  pub score : ℕ → ℕ
  pub level : ℕ → ℕ

abbrev pub create_performance_test : Text
create_performance_test =
    in_lines (
      codes "CREATE TABLE IF NOT EXISTS performance_test ("
      ∷ codes "id BIGINT PRIMARY KEY AUTO_INCREMENT,"
      ∷ codes "name VARCHAR(255) NOT NULL,"
      ∷ codes "score BIGINT DEFAULT 0,"
      ∷ codes "data TEXT,"
      ∷ codes "created_at BIGINT,"
      ∷ codes "updated_at BIGINT"
      ∷ [])
    ++ codes "\n        ) ENGINE=InnoDB DEFAULT CHARSET=utf8mb4"

-- `first..first + n`
unfoldable pub range : ℕ → ℕ → List ℕ
range first zero = []
range first (suc n) = first ∷ range (first + 1) n

abbrev pub with_id : ℕ → Player → WithBase Player
with_id id p = record {
  base = record { id = pos id; created_at = pos 0; updated_at = pos 0 };
  fields = p;
}

abbrev pub player : Random → ℕ → WithBase Player
player random id = with_id id (record {
  name = codes "Player_" ++ decimal id;
  score = pos (random.score id);
  text_data = codes "{\"level\":" ++ decimal (random.level id) ++ codes ",\"items\":[]}";
})

abbrev pub updated_player : ℕ → WithBase Player
updated_player id = with_id id (record {
  name = codes "Player_" ++ decimal id ++ codes "_updated";
  score = pos (id * 100);
  text_data = codes "{}";
})

-- The entities of the batch `i`.
unfoldable pub batch : Random → ℕ → ℕ → List (WithBase Player)
unfolding range
batch random batch_size i = map (player random) (range (i * batch_size + 1) batch_size)

-- `define_entity_with_base!`
abbrev pub players :
    {N : Type 0}
    → (WithBase Player → Outcome Text)
    → (Json N → Outcome (WithBase Player))
    → DbEntity N (WithBase Player)
players serialize deserialize =
    define_entity_with_base (codes "performance_test") serialize deserialize

module _ {N S Settings L : Type 0} (x : Extern N) (format : EntryFormat)
    (env : Environment S Settings) (server : Server S) (lru : Lru L)
    (D : DbEntity N (WithBase Player)) (random : Random) where
  -- The two loops, each call at its own reading of the clock.
  unfoldable pub insert_batches :
      (ℕ → ℤ) → ℕ → List ℕ → Game S L (Unit {0}) → Result (Unit {0}) × Game S L (Unit {0})
  unfolding batch
  insert_batches clock batch_size [] g = (ok tt, g)
  insert_batches clock batch_size (i ∷ is) g =
      and_then (in_db (save_batch_upsert server x format D (clock i) (batch random batch_size i)) g)
        (λ _ g'. insert_batches clock batch_size is g')

  unfoldable pub update_each :
      (ℕ → ℤ) → List ℕ → Game S L (Unit {0}) → Result (Unit {0}) × Game S L (Unit {0})
  update_each clock [] g = (ok tt, g)
  update_each clock (i ∷ is) g =
      and_then (in_db (update server x format D (clock i) (updated_player i)) g)
        (λ _ g'. update_each clock is g')

  -- `main` behind its two first statements, and `main`. The two loops have clocks of their own.
  unfoldable pub run :
      (ℕ → ℤ) → (ℕ → ℤ) → Game S L (Unit {0}) → Result (Unit {0}) × Game S L (Unit {0})
  unfolding insert_batches update_each
  run inserting updating g = and_then (insert_batches inserting 1000 (range 0 10) g) (λ _ g1.
      and_then (in_db (find_by_ids server x format D (map pos (range 1 100))) g1) (λ results g2.
        and_then
          (in_db (query_to_int64 server (codes "SELECT COUNT(*) FROM performance_test") []) g2)
          (λ _ g3.
            and_then
              (in_db (exec server (codes "UPDATE performance_test SET score = score + 1") []) g3)
              (λ _ g4.
                and_then (update_each updating (range 1 100) g4)
                  (λ _ g5. close env server lru g5)))))

  unfoldable pub main : (ℕ → ℤ) → (ℕ → ℤ) → Result (Unit {0})
  unfolding run
  main inserting updating = Game.new env server config (pos 1) >>= λ g.
      (run inserting updating (
        exec_ignored server (codes "TRUNCATE TABLE performance_test")
          (exec_ignored server create_performance_test g))).0
