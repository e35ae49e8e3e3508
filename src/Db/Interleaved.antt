-- ===== src/Db/Interleaved.antt =====
-- The writing methods of src/db.rs called at the same time on one database. Each statement, with the
-- connection that it is run on, is one step, and so is each access to the journal (Wal/Interleaved);
-- between two steps other calls go on.
pub mod Quiet
pub mod Replayed
pub mod Turns
pub mod Raced
pub mod Finished
pub mod Complete
pub mod Permuted
pub mod Executed
pub mod Numbered
use db233_rust.Common.{
  ℕ, ℤ, List, [], ◌∷◌, ◌++◌, Option, none, some, Text, Map, get_elem?, set, map, false,
}
use db233_rust.Errors.{Result, ok, err, panic, ◌>>=◌}
use db233_rust.SqlValue.{Value}
use db233_rust.Extern.{Extern}
use db233_rust.Entity.{DbEntity}
use db233_rust.NamedParams.{replace_named_parameters}
use db233_rust.Orm.Build.{Statement, build_upsert_sql, build_update_sql, build_delete_sql}
use db233_rust.Orm.Batch.{build_batch_upsert_sql}
use db233_rust.Wal.{EntryFormat, Journal}
use db233_rust.Wal.Interleaved
use db233_rust.Wal.Interleaved.{Shared, Writer}
use db233_rust.Db.{Server, State, exec, assign_id}

-- A writing call of a client.
pub data Call (T : Type 0) : Type 0 where
  updates : T → Call T
  saves_batch : T → List T → Call T
  saves : T → Call T
  deletes : T → Call T
  executes : Text → Map Value → Call T
  closes : Call T

-- What a call answers: the rows that it counts, the entity that it saved, or nothing.
pub data Answer (T : Type 0) : Type 0 where
  counted : Result ℕ → Answer T
  saved : Result T → Answer T
  closed : Result (Unit {0}) → Answer T

-- What a call does with a statement that the server has executed.
pub data Goal (T : Type 0) : Type 0 where
  counts : Goal T
  records_count : Goal T
  saves : T → Goal T

-- Where a call is: what it does next. `records` knows the answer of a call that gets recorded.
pub data Thread (T : Type 0) : Type 0 where
  sends : Result Statement → Goal T → Thread T
  numbers : Statement → T → ℕ → Thread T
  records : Answer T → Writer → Thread T
  returned : Answer T → Thread T

-- The calls on a database, the server, and the journal if there is one.
pub record Calls (T S : Type 0) : Type 0 where
  pub threads : List (Thread T)
  pub server : S
  pub write_journal : Option Shared

-- Who goes on: the call at a place, at a time, or another client of the server.
pub data Turn (S : Type 0) : Type 0 where
  goes : ℕ → ℤ → Turn S
  others : S → Turn S

module _ {T : Type 0} where
  -- `?` on the way to an answer.
  abbrev pub failed_with : Goal T → Result ℕ → Answer T
  failed_with counts r = counted r
  failed_with records_count r = counted r
  failed_with (Goal.saves e) r = saved (r >>= λ _. ok e)

  -- The answer of a call behind `record_write(..).await?`, or of the stop of the journal.
  abbrev pub behind : Result (Unit {0}) → Answer T → Answer T
  behind r (counted a) = counted (r >>= λ _. a)
  behind r (saved a) = saved (r >>= λ _. a)
  behind r (closed a) = closed (r >>= λ _. a)

  -- `if let Some(wj) = &self.write_journal`
  unfoldable pub start_record : {S : Type 0} → Statement → Answer T → Calls T S → Thread T
  start_record (sql, values) a c = elim c.write_journal [
    | none ↦ returned a
    | some _ ↦ records a (Writer.enters sql values)
  ]

  abbrev pub recorded_or : Answer T → Writer → Thread T
  recorded_or a (Writer.returned r) = returned (behind r a)
  recorded_or a (Writer.enters sql values) = records a (Writer.enters sql values)
  recorded_or a (Writer.waits e line) = records a (Writer.waits e line)
  recorded_or a (Writer.writes e line) = records a (Writer.writes e line)
  recorded_or a (Writer.flushes e) = records a (Writer.flushes e)
  recorded_or a Writer.stops = records a Writer.stops
  recorded_or a Writer.stop_waits = records a Writer.stop_waits
  recorded_or a Writer.stop_flushes = records a Writer.stop_flushes

module _ {N T S : Type 0} (server : Server S) (x : Extern N) (format : EntryFormat)
    (D : DbEntity N T) where
  -- The call before its first step. Of `Db::close`, the stop of the journal.
  unfoldable pub begin : Call T → Thread T
  begin (updates entity) = sends (build_update_sql x D entity) records_count
  begin (saves_batch first rest) = sends (build_batch_upsert_sql x D (first ∷ rest)) records_count
  begin (Call.saves entity) = sends (build_upsert_sql x D entity) (Goal.saves entity)
  begin (deletes entity) = sends (ok (build_delete_sql x D entity)) counts
  begin (executes sql params) = sends (replace_named_parameters sql params) counts
  begin closes = records (closed (ok tt)) Writer.stops

  abbrev pub alone : Calls T S → State S
  alone c = record { server = c.server; write_journal = none }

  -- What a call does where the server has executed its statement.
  unfoldable pub go_on : Goal T → Statement → ℕ → Calls T S → Thread T
  go_on counts s affected c = returned (counted (ok affected))
  go_on records_count s affected c = start_record s (counted (ok affected)) c
  go_on (Goal.saves entity) s affected c = numbers s entity affected

  unfoldable pub send : Result Statement → Goal T → Calls T S → Thread T × Calls T S
  unfolding go_on
  send (err e) goal c = (returned (failed_with goal (err e)), c)
  send panic goal c = (returned (failed_with goal panic), c)
  send (ok s) goal c =
      let (r, st) = exec server s.0 s.1 (alone c) in
      let c' = record c { server = st.server } in
      elim r [
        | ok affected ↦ (go_on goal s affected c', c')
        | err e ↦ (returned (failed_with goal (err e)), c')
        | panic ↦ (returned (failed_with goal panic), c')
      ]

  unfoldable pub number_entity : Statement → T → ℕ → Calls T S → Thread T × Calls T S
  number_entity s entity affected c =
      let (r, st) = assign_id server x format D entity affected (alone c) in
      let c' = record c { server = st.server } in
      elim r [
        | ok e ↦ (start_record s (saved (ok e)) c', c')
        | err e ↦ (returned (saved (err e)), c')
        | panic ↦ (returned (saved panic), c')
      ]

  unfoldable pub write : ℤ → Answer T → Writer → Calls T S → Thread T × Calls T S
  write now a w c = elim c.write_journal [
    | none ↦ (returned a, c)
    | some shared ↦
        let (w', shared') = Interleaved.step x format now w shared in
        (recorded_or a w', record c { write_journal = some shared' })
  ]

  unfoldable pub step : ℤ → Thread T → Calls T S → Thread T × Calls T S
  unfolding send number_entity write
  step now (sends built goal) c = send built goal c
  step now (numbers s entity affected) c = number_entity s entity affected c
  step now (records a w) c = write now a w c
  step now (returned a) c = (returned a, c)

  unfoldable pub turn : Turn S → Calls T S → Calls T S
  turn (others s) c = record c { server = s }
  turn (goes i now) c = elim (get_elem? c.threads i) [
    | none ↦ c
    | some t ↦ let (t', c') = step now t c in record c' { threads = set c.threads i t' }
  ]

  unfoldable pub turns : List (Turn S) → Calls T S → Calls T S
  turns [] c = c
  turns (u ∷ us) c = turns us (turn u c)

  -- Calls that all begin on one database, whose journal nobody uses.
  abbrev pub begun : List (Call T) → S → Journal → Calls T S
  begun cs s j = record {
    threads = map begin cs;
    server = s;
    write_journal = some (record { journal = j; locked = false });
  }

-- Where a call is in the journal.
abbrev pub writer_of : {T : Type 0} → Thread T → Writer
writer_of (sends built goal) = Writer.returned (ok tt)
writer_of (numbers s entity affected) = Writer.returned (ok tt)
writer_of (records a w) = w
writer_of (returned a) = Writer.returned (ok tt)

abbrev pub writer_at : {T : Type 0} → List (Thread T) → ℕ → Writer
writer_at ts i = elim (get_elem? ts i) [ none ↦ Writer.returned (ok tt) | some t ↦ writer_of t ]
