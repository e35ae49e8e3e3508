-- ===== src/Tests/Game.antt =====
-- A database that is made, given its repository and its journal, and closed; and ids that are read by
-- several tasks.
use db233_rust.Game.Closed.{close-update}
use db233_rust.Game.Initialized.{init_game_db_lem}
use db233_rust.Game.{
  Environment, Database, Game, DatabaseType, new, new_pool, enable_configured, enable_wal,
  init_game_db, close, performance_config, state_of, clone, flush_repository, stop_journal,
}
use db233_rust.Db.Concurrent.Chunks.{AreChunks, concat, chunks_lem}
use db233_rust.Db.Concurrent.Order.{IsQuiet, in_turn, find_by_ids_concurrent-in_turn}
use db233_rust.Db.Concurrent.{chunks, chunk_size, find_by_ids_concurrent}
use db233_rust.Db.{connect, connection_exec, exec, update}
use db233_rust.Session.Repository
use db233_rust.Session.Repository.{Store, register, start_flush_task}
use db233_rust.Session.Repository.History.{IsValid, Reach}
use db233_rust.Session.Repository.Invariant.{new-Reach-IsValid}
use db233_rust.Wal
use db233_rust.Wal.{Journal, next_fault, later_faults}
use db233_rust.Config.{default_connection, default_performance, default_options}
use db233_rust.Errors.{ok, fine}
use db233_rust.Tests.Db.{logging}
use db233_rust.Tests.Repository.{Cache, lru, lru-IsLru}
use db233_rust.Tests.Externs.{extern}
use db233_rust.Tests.EntryFormats.{format}
use db233_rust.Tests.Orm.{users, update_old}
use db233_rust.Common.{◌≡◌, refl, ℤ, pos, List, [], ◌∷◌, Text, codes, some, none, true, length, ◌≤◌}

-- A disk without files.
abbrev pub environment : Environment (List Text) (Unit {0})
environment = record {
  from_url = λ url. fine [];
  build = λ path. fine tt;
  try_deserialize = λ settings. fine default_performance;
  disk = λ path. record { journal_file = none; pending_file = none; faults = []; spills = [] };
}

abbrev made : Game (List Text) Cache Text
made = record {
  server = [];
  db = record {
    pool = record { config = default_connection };
    db_id = pos 1;
    db_type = DatabaseType.my_sql;
    write_journal = none;
    session_repo = none;
  };
  repositories = [];
}

new_made : new environment logging {L = Cache} {E = Text} default_connection (pos 1) ≡ ok made
unfolding new new_pool
new_made = refl

abbrev initialized : Game (List Text) Cache Text
initialized = (init_game_db environment logging lru default_connection default_options made).1

program : Unit {0}
unfolding init_game_db enable_configured enable_wal performance_config Wal.new next_fault
    later_faults clone
program = tt

init_game_db_lem_example : (j : Journal) × (initialized.db.write_journal ≡ some j)
unfolding program
init_game_db_lem_example =
    ((init_game_db_lem environment logging lru default_connection default_options made
          default_performance refl).1
        refl).2
      refl

abbrev journal : Journal
journal = record {
  journal_file = some [];
  pending_file = none;
  buffer = [];
  running = true;
  faults = [];
  spills = [];
}

abbrev repository : Store Cache Database Text
repository = Repository.new lru made.db default_performance.entity_cache []

repository-IsValid : IsValid lru repository
repository-IsValid =
    new-Reach-IsValid lru lru-IsLru made.db default_performance.entity_cache [] repository
      Reach.here

close-update_example :
    update logging extern format users
      (pos 1)
      (5, codes "Al")
      (state_of environment logging lru (close environment logging lru initialized).1)
    ≡ (
      ok 1,
      record (state_of environment logging lru (close environment logging lru initialized).1) {
        server = codes "UPDATE users SET name = ? WHERE id = ?" ∷ [];
      },
    )
unfolding program exec connect connection_exec close flush_repository Repository.flush_all
    Repository.flush_sessions Repository.new stop_journal
close-update_example =
    (close-update environment logging lru initialized 0 repository journal refl refl refl extern
        format users repository-IsValid).2
      (pos 1) (5, codes "Al") _ 1 update_old refl

abbrev ids : List ℤ
ids = pos 5 ∷ pos 6 ∷ pos 7 ∷ []

chunks_lem_example :
    (concat (chunks (chunk_size 3) ids) ≡ ids)
    × AreChunks (chunk_size 3) (chunks (chunk_size 3) ids)
    × (length (chunks (chunk_size 3) ids) ≤ 16)
chunks_lem_example = chunks_lem (pos 5) (pos 6 ∷ pos 7 ∷ [])

logging-IsQuiet : IsQuiet logging (λ sql params. fine [])
logging-IsQuiet = record { connects = λ log. (1, refl); reads = λ conn sql params log. refl }

-- The second task begins first, the others after it in turns.
find_by_ids_concurrent-in_turn_example :
    (find_by_ids_concurrent logging extern format users
      (λ i. codes "panic")
      (1 ∷ 0 ∷ 2 ∷ 1 ∷ [])
      ids
      (record { server = []; write_journal = none })).0
    ≡ (in_turn logging extern format users
        (λ i. codes "panic")
        0
        (chunks (chunk_size 3) ids)
        []
        (record { server = []; write_journal = none })).0
find_by_ids_concurrent-in_turn_example =
    find_by_ids_concurrent-in_turn logging extern format users (λ sql params. fine [])
      logging-IsQuiet (λ i. codes "panic") (1 ∷ 0 ∷ 2 ∷ 1 ∷ []) ids
      (record { server = []; write_journal = none })
