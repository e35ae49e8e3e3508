-- ===== src/Game/Initialized.antt =====
-- What `init_game_db` of src/db.rs leaves, and what the `Db` of its repository records.
use db233_rust.Common.{
  ◌≡◌, refl, true, [], ◌∷◌, ◌++◌, none, some, Option-cases, inl, inr, Text, length, arith,
  get_elem?, get_elem?-append_one,
}
use db233_rust.Errors.{Db233Error, ok, err, Result-cases}
use db233_rust.Config.{DbConnectionConfig, PerformanceConfig, GameDbOptions}
use db233_rust.Wal
use db233_rust.Wal.{Journal}
use db233_rust.Session.Lru.{Lru}
use db233_rust.Session.Repository
use db233_rust.Session.Repository.{Store, start_flush_task}
use db233_rust.Db.{Server}
use db233_rust.Game.{
  Environment, Database, Game, clone, performance_config, enable_wal, enable_configured,
  init_game_db,
}

module _ {S Settings : Type 0} (env : Environment S Settings) (server : Server S) where
  enable_wal_journal :
      (path : Text) (db : Database)
      → (enable_wal env server path db).0 ≡ ok tt
      → (j : Journal) × ((enable_wal env server path db).1.write_journal ≡ some j)
  unfolding enable_wal
  enable_wal_journal path db done = elim (Option-cases db.write_journal) [
    | inr (j, has) ↦ (j, ground arith)
    | inl has_none ↦
        let disk = env.disk path in
        elim (Result-cases (Wal.new disk.journal_file disk.pending_file disk.faults disk.spills)) [
          | inl (j, made) ↦ (j, ground arith)
          | inr failed ↦ absurd (ground arith)
        ]
  ]

  -- The journal after `enable_configured` has answered `Ok`.
  configured_journal :
      (perf : PerformanceConfig) (db : Database)
      → perf.enable_local_journal ≡ true
      → (enable_configured env server perf db).0 ≡ ok tt
      → (j : Journal) × ((enable_configured env server perf db).1.write_journal ≡ some j)
  unfolding enable_configured
  configured_journal perf db wanted done =
      rw (enable_configured, wanted)
        (enable_wal_journal perf.local_journal_path db (rw (enable_configured, wanted) at done))

  module _ {L E : Type 0} (lru : Lru L) (config : DbConnectionConfig) (opts : GameDbOptions)
      (g : Game S L E) (perf : PerformanceConfig)
      (loaded : performance_config env opts.performance_config_path ≡ ok perf) where
    pub init_game_db_done :
        (enable_configured env server perf g.db).0 ≡ ok tt
        → let (enabled, db) = enable_configured env server perf g.db in
          init_game_db env server lru config opts g ≡ (
            ok (length g.repositories),
            record g {
              db = record db { session_repo = some (length g.repositories) };
              repositories =
                  g.repositories
                  ++ Repository.new lru (clone db) perf.entity_cache opts.cacheable_entities ∷ [];
            },
          )
    unfolding init_game_db
    init_game_db_done enabled = ground arith

    new-db :
        (db : Database)
        → (Repository.new {E = E} lru db perf.entity_cache opts.cacheable_entities).db ≡ db
    unfolding Repository.new
    new-db db = refl

    -- With a performance configuration that is found: if the journal that it asks for cannot be
    -- opened, the call is that error. Otherwise it answers the address of a new repository, which is
    -- the database's from then on; where a journal is asked for, the database has one, but the `Db`
    -- that the repository gives to its clients has none, so nothing that they write with it is
    -- recorded.
    pub init_game_db_lem :
        ((e : Db233Error)
          → (enable_configured env server perf g.db).0 ≡ err e
          → (init_game_db env server lru config opts g).0 ≡ err e)
        × ((enable_configured env server perf g.db).0 ≡ ok tt
            → let g' = (init_game_db env server lru config opts g).1 in
              let a = length g.repositories in
              ((init_game_db env server lru config opts g).0 ≡ ok a)
              × (g'.db.session_repo ≡ some a)
              × (perf.enable_local_journal ≡ true → (j : Journal) × (g'.db.write_journal ≡ some j))
              × ((st : Store L Database E) × (get_elem? g'.repositories a ≡ some st)
                  × (st.db.write_journal ≡ none)))
    init_game_db_lem = (
      λ e failed. unfold init_game_db in ground arith,
      λ done. rw (init_game_db_done done) (
        refl,
        refl,
        λ wanted. configured_journal perf g.db wanted done,
        (
          Repository.new lru (clone (enable_configured env server perf g.db).1) perf.entity_cache
              opts.cacheable_entities,
          ground (
            arith,
            get_elem?-append_one g.repositories
                (Repository.new lru (clone (enable_configured env server perf g.db).1)
                  perf.entity_cache opts.cacheable_entities)
                (length g.repositories),
          ),
          rw (new-db (clone (enable_configured env server perf g.db).1)) (unfold clone in refl),
        ),
      ),
    )
