-- ===== src/Wal/Interleaved.antt =====
-- `record_write` and `stop` of src/wal.rs called at the same time. A call holds the lock of the writer
-- from its first access to its last; between two accesses, and while it waits for the lock, other calls
-- go on.
pub mod Carried
pub mod Held
pub mod Safe
pub mod Complete
use db233_rust.Common.{ℤ, Bool, true, false, List, Text, if◌then◌else◌}
use db233_rust.Errors.{Result, ok, err, panic, map_err, wal_error}
use db233_rust.SqlValue.{Value}
use db233_rust.Extern.{Extern}
use db233_rust.Wal.{WriteEntry, EntryFormat, Journal, write_line, flush, entry_of}

-- The journal, and whether a call holds the lock of its writer.
pub record Shared : Type 0 where
  pub journal : Journal
  pub locked : Bool

-- Where a call is: what it does next. A call of `record_write` keeps its entry to the end.
pub data Writer : Type 0 where
  enters : Text → List Value → Writer
  waits : WriteEntry → Text → Writer
  writes : WriteEntry → Text → Writer
  flushes : WriteEntry → Writer
  stops : Writer
  stop_waits : Writer
  stop_flushes : Writer
  returned : Result (Unit {0}) → Writer

-- `self.writer.lock().await`: who finds the lock taken waits on.
unfoldable pub lock : Writer → Writer → Shared → Writer × Shared
lock waiting holding w = if w.locked then (waiting, w) else (holding, record w { locked = true })

-- The guard is dropped with the answer.
abbrev pub unlock : Result (Unit {0}) → Journal → Writer × Shared
unlock r j = (returned r, record { journal = j; locked = false })

module _ {N : Type 0} (x : Extern N) (format : EntryFormat) where
  -- The flag, the time, and the JSON.
  unfoldable pub enter_record : ℤ → Text → List Value → Shared → Writer × Shared
  enter_record now sql params w =
      if w.journal.running
      then elim (map_err wal_error (format.encode (entry_of x format now sql params))) [
        | ok json_str ↦ (waits (entry_of x format now sql params) json_str, w)
        | err e ↦ (returned (err e), w)
        | panic ↦ (returned panic, w)
      ]
      else (returned (ok tt), w)

  -- `writeln!(writer, "{}", json_str)`, with the lock.
  unfoldable pub write_locked : WriteEntry → Text → Shared → Writer × Shared
  write_locked entry json_str w =
      let (r, j) = write_line json_str w.journal in
      elim r [
        | ok _ ↦ (flushes entry, record w { journal = j })
        | err e ↦ unlock (err e) j
        | panic ↦ unlock panic j
      ]

  -- `writer.flush()`, with the lock.
  unfoldable pub flush_locked : Shared → Writer × Shared
  flush_locked w = let (r, j) = flush w.journal in unlock r j

  -- `self.running.store(false, ..)`
  unfoldable pub lower_running : Shared → Shared
  lower_running w = record w { journal = record w.journal { running = false } }

  -- One access of a call, at the time `now`.
  unfoldable pub step : ℤ → Writer → Shared → Writer × Shared
  unfolding lock enter_record write_locked flush_locked lower_running
  step now (enters sql params) w = enter_record now sql params w
  step now (waits entry json_str) w = lock (waits entry json_str) (writes entry json_str) w
  step now (writes entry json_str) w = write_locked entry json_str w
  step now (flushes entry) w = flush_locked w
  step now stops w = (stop_waits, lower_running w)
  step now stop_waits w = lock stop_waits stop_flushes w
  step now stop_flushes w = flush_locked w
  step now (returned r) w = (returned r, w)
