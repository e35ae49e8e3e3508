-- ===== src/Lib.antt =====
-- db233: the ORM and database library for stateful game servers. `NamedParams` and `Orm` make SQL
-- statements with positional parameters; `db.rs` sends them through a connection pool and records
-- what it wrote in the journal of `wal.rs`; `session.rs` caches the entities of a player over
-- `db.rs`.
--
-- Which file models what, with paths from the root of the repository:
--   Errors            src/error.rs: `Db233Error`, its messages, the conversions, `Result`. A panic is
--                     a third outcome of a call.
--   NamedParams       src/named_params.rs: `replace_named_parameters` by byte indices, and
--                     `build_batch_named_params`. Template has the grammar of a query,
--                     Reference the loop against it.
--   SqlValue, Json    `mysql_async::Value` and `serde_json::Value`.
--   Extern            what the crate calls and does not contain: `serde_json`, `base64` and the
--                     float casts, as a record of operations, with their documented laws.
--   Entity            src/entity.rs: the traits, `BaseEntity` and the two macros.
--   Orm               src/orm.rs: conversions of values and rows; Orm/Build and Orm/Batch the
--                     statements of one entity and of a batch, Orm/Rows the two readings of rows,
--                     Orm/Embedded the statements of an entity with a `BaseEntity`.
--   Wal               src/wal.rs: `LocalWriteJournal` over its two files, the buffer of its
--                     writer and a list of the faults to come. Wal/Interleaved cuts `record_write`
--                     and `stop` at the lock of the writer and at each access.
--   Config            src/config.rs: records, defaults and `to_url`.
--   Session           src/session.rs: `Session` and the counts that sessions share. A type `T` is
--                     its name and its identity; the database is an argument of `get_or_load`.
--                     Session/Lru is the crate `lru` as an interface with its documented laws, and
--                     Session/Repository is `SessionRepository`: every session that was made stands
--                     in a heap, an `Arc` is an address in it, and the flush task is its own flag.
--                     Session/Abstract is what a session promises, without the order of its hash maps
--                     and without the clock; Session/Interleaved splits the methods of a session at
--                     their locks and at the await of the database, so that calls cut into one
--                     another; a list of turns says who goes on.
--   Db                src/db.rs and src/connection.rs: the methods of `Db` as functions of the server
--                     and the journal; the pool and the order of a `HashMap` are the record `Server`.
--                     Db/Interleaved has the writing calls on one database at once, each statement
--                     and each access to the journal a step of its own.
--                     Its `executed` is what the server executes of what is to be recorded.
--                     Db/Queries has the queries for texts, lists and named parameters, and
--                     Db/Concurrent `find_by_ids_concurrent`, with the order in which its tasks go on
--                     as an argument: a list of the task that goes on next, up to the await.
--   Game              src/db.rs again, as a handle: `Db::new`, `enable_wal`, `init_game_db`, `clone` and
--                     `close`, over the pool, the journal and the repositories that were made.
--                     Game/Sessions calls the methods of a repository and of its sessions on it.
--   Examples          the three programs of examples/, as clients: Examples/GameServer,
--                     Examples/BasicUsage and Examples/PerformanceTest, without what they print and
--                     measure. What the compiler and `serde` derive for their types is a parameter,
--                     and so are random numbers and the readings of the clock.
--   Tests             runs at concrete inputs, and each theorem at one.
--
-- Texts are lists of UTF-8 bytes, floats their bit patterns, hash maps association lists without
-- repeated keys, in the order in which the map would iterate. The clock is an argument. The loop of
-- `replace_named_parameters` recurs on the distance to the end of the query, so it needs no fuel; all
-- other loops are structural. The decimal digits of a number n are taken with fuel n + 1, which is
-- more than its digits.
--
-- The counters of entities and of affected rows are natural numbers: they stay below 2^64 unless as
-- many calls or rows are counted.
--
-- Not modelled: accessors; `DbPool::close` and the `Drop` of src/connection.rs, which do nothing;
-- src/lib.rs, which declares modules; the tests. Outside Session/Interleaved, Wal/Interleaved and
-- Db/Interleaved, where calls cut into one another, each method is one step and no lock is modelled.
-- In Db/Interleaved a statement and the taking of its connection are one step.
pub mod Common
pub mod Errors
pub mod SqlValue
pub mod NamedParams
pub mod Json
pub mod Extern
pub mod Entity
pub mod Orm
pub mod Wal
pub mod Config
pub mod Session
pub mod Db
pub mod Game
pub mod Examples
mod Tests
