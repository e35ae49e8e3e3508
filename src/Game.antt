-- ===== src/Game.antt =====
-- src/db.rs: `Db` as a handle, from its making to its closing, with the pool of src/connection.rs, the
-- journal of src/wal.rs and the repository of src/session.rs behind it.
pub mod Sessions
pub mod Closed
pub mod Initialized
use db233_rust.Common.{
  ℕ, ℤ, Bool, List, [], ◌∷◌, ◌++◌, Option, none, some, Text, codes, length, get_elem?, set,
  if◌then◌else◌,
}
use db233_rust.Errors.{Result, ok, err, panic, Outcome, map_err, connection_error, ◌>>=◌}
use db233_rust.Config.{
  DbConnectionConfig, PerformanceConfig, GameDbOptions, to_url, default_performance,
  load_performance_config,
}
use db233_rust.Wal
use db233_rust.Wal.{Journal, Fault}
use db233_rust.Session.Lru.{Lru}
use db233_rust.Session.Repository
use db233_rust.Session.Repository.{Store, flush_all}
use db233_rust.Db.{Server, State, and_then}

pub data DatabaseType : Type 0 where
  my_sql : DatabaseType
  postgre_sql : DatabaseType

-- The directory of a journal as it is found, and the faults to come there.
pub record Disk : Type 0 where
  pub journal_file : Option Text
  pub pending_file : Option Text
  pub faults : List (Option Fault)
  pub spills : List ℕ

-- `Opts::from_url` with `Pool::new`, the `config` crate, and the file system.
pub record Environment (S Settings : Type 0) : Type 0 where
  pub from_url : Text → Outcome S
  pub build : Text → Outcome Settings
  pub try_deserialize : Settings → Outcome PerformanceConfig
  pub disk : Text → Disk

-- `DbPool` is its configuration; what it connects to is in `Game`.
pub record DbPool : Type 0 where
  pub config : DbConnectionConfig

-- `Db`. A repository is its address.
pub record Database : Type 0 where
  pub pool : DbPool
  pub db_id : ℤ
  pub db_type : DatabaseType
  pub write_journal : Option Journal
  pub session_repo : Option ℕ

-- The server, and every repository that was made, with the `Db` that is its own.
pub record Game (S L E : Type 0) : Type 0 where
  pub server : S
  pub db : Database
  pub repositories : List (Store L Database E)

-- `impl Clone for Db`
unfoldable pub clone : Database → Database
clone db = record {
  pool = db.pool;
  db_id = db.db_id;
  db_type = db.db_type;
  write_journal = none;
  session_repo = db.session_repo;
}

-- `opts.performance_config_path`, as `transpose()?.unwrap_or_default()` leaves it.
unfoldable pub performance_config :
    {S Settings : Type 0} → Environment S Settings → Option Text → Result PerformanceConfig
performance_config env none = ok default_performance
performance_config env (some path) = load_performance_config env.build env.try_deserialize path

module _ {S Settings : Type 0} (env : Environment S Settings) (server : Server S) where
  -- `DbPool::new`, with what it has connected to.
  unfoldable pub new_pool : DbConnectionConfig → Result (DbPool × S)
  new_pool config = do
    pool ← map_err connection_error (env.from_url (to_url config))
    let tried = server.get_conn pool
    _ ← map_err (λ e. connection_error (codes "failed to connect to database: " ++ e)) tried.0
    ok (record { config = config }, tried.1)

  -- `Db::new`
  unfoldable pub new : {L E : Type 0} → DbConnectionConfig → ℤ → Result (Game S L E)
  new config db_id = do
    pool ← new_pool config
    ok (record {
      server = pool.1;
      db = record {
        pool = pool.0;
        db_id = db_id;
        db_type = my_sql;
        write_journal = none;
        session_repo = none;
      };
      repositories = [];
    })

  unfoldable pub enable_wal : Text → Database → Result (Unit {0}) × Database
  enable_wal path db = elim db.write_journal [
    | some _ ↦ (ok tt, db)
    | none ↦
        let disk = env.disk path in
        and_then (Wal.new disk.journal_file disk.pending_file disk.faults disk.spills, db)
          (λ wj db'. (ok tt, record db' { write_journal = some wj }))
  ]

  -- `if perf_config.enable_local_journal { self.enable_wal(..)?; }`
  unfoldable pub enable_configured : PerformanceConfig → Database → Result (Unit {0}) × Database
  enable_configured perf_config db =
      if perf_config.enable_local_journal
      then enable_wal perf_config.local_journal_path db
      else (ok tt, db)

  module _ {L E : Type 0} (lru : Lru L) where
    -- `init_game_db`: it returns the address of the repository.
    unfoldable pub init_game_db :
        DbConnectionConfig → GameDbOptions → Game S L E → Result ℕ × Game S L E
    init_game_db _config opts g =
        and_then (performance_config env opts.performance_config_path, g)
          (λ perf_config g'.
            let (enabled, db) = enable_configured perf_config g'.db in
            and_then (enabled, record g' { db = db })
              (λ _ g''. (
                ok (length g''.repositories),
                record g'' {
                  db = record g''.db { session_repo = some (length g''.repositories) };
                  repositories =
                      g''.repositories
                      ++ Repository.new lru (clone g''.db) perf_config.entity_cache
                          opts.cacheable_entities
                        ∷ [];
                },
              )))

    -- `sr.flush_all().await?`. No `Arc` has an address outside the list.
    unfoldable pub flush_repository : Game S L E → Result (Unit {0}) × Game S L E
    flush_repository g = elim g.db.session_repo [
      | none ↦ (ok tt, g)
      | some a ↦ elim (get_elem? g.repositories a) [
        | none ↦ (panic, g)
        | some st ↦
            let (r, st') = flush_all lru st in
            (r, record g { repositories = set g.repositories a st' })
      ]
    ]

    -- `wj.stop().await?`
    unfoldable pub stop_journal : Game S L E → Result (Unit {0}) × Game S L E
    stop_journal g = elim g.db.write_journal [
      | none ↦ (ok tt, g)
      | some wj ↦
          let (r, wj') = Wal.stop wj in
          (r, record g { db = record g.db { write_journal = some wj' } })
    ]

    -- `close`, where closing the pool does nothing.
    unfoldable pub close : Game S L E → Result (Unit {0}) × Game S L E
    close g = and_then (flush_repository g) (λ _ g'. stop_journal g')

    -- What the methods of `Db` that are in `Db` work on, and put back.
    abbrev pub state_of : Game S L E → State S
    state_of g = record { server = g.server; write_journal = g.db.write_journal }
