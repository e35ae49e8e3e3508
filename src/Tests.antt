-- ===== src/Tests.antt =====
-- Runs of the model at concrete inputs, and each theorem applied at one.
mod NamedParams
mod Externs
mod EntryFormats
mod Wal
mod Session
mod Interleaved
mod Repository
mod Db
mod Game
mod Examples
mod Writers
mod Orm
mod Embedded
mod Rows
