-- ===== src/Db/Journaled.antt =====
-- What src/db.rs leaves in the journal: which writes are recorded, and in which order with the server.
use db233_rust.NamedParams.Batch.{length-build_batch_named_params}
use db233_rust.NamedParams.{replace_named_parameters, build_batch_named_params}
use db233_rust.Common.{
  refl, ℕ, ◌+◌, ℤ, ◌≡◌, List, [], ◌∷◌, some, Text, arith, length, Map, inl, inr,
}
use db233_rust.Errors.{Db233Error, ok, err, panic, Result-cases}
use db233_rust.SqlValue.{Value}
use db233_rust.Extern.{Extern}
use db233_rust.Entity.{DbEntity}
use db233_rust.Orm.Build.{Statement, build_update_sql, build_delete_sql}
use db233_rust.Wal.{Journal, EntryFormat, record_write}
use db233_rust.Db.{
  Server, State, connect, connection_exec, exec, exec_recorded, record_statement, update, delete,
  exec_rows, exec_update_multi_rows_named, exec_update_named,
}

module _ {S : Type 0} (server : Server S) where
  pub exec_journal :
      (sql : Text) (params : List Value) (st : State S)
      → (exec server sql params st).1.write_journal ≡ st.write_journal
  unfolding exec connect connection_exec
  exec_journal sql params st = ground arith

  pub exec_one :
      (sql : Text) (params : List Value) (st : State S) (n : ℕ)
      → (exec server sql params st).0 ≡ ok n
      → n ≡ 1
  unfolding exec connect connection_exec
  exec_one sql params st n h = ground arith

  pub exec_update_named_journal :
      (sql : Text) (params : Map Value) (st : State S)
      → (exec_update_named server sql params st).1.write_journal ≡ st.write_journal
  unfolding exec_update_named
  exec_update_named_journal sql params st =
      elim (Result-cases (replace_named_parameters sql params)) [
        | inl (s, e) ↦ ground (arith, exec_journal s.0 s.1 st)
        | inr failed ↦ ground arith
      ]

  -- Neither `delete` nor a named update records anything: whatever it does on the server, the
  -- journal is as it was.
  pub delete_unrecorded :
      {N T : Type 0} (x : Extern N) (format : EntryFormat) (D : DbEntity N T) (e : T) (sql : Text)
      (params : Map Value) (st : State S)
      → ((delete server x format D e st).1.write_journal ≡ st.write_journal)
        × ((exec_update_named server sql params st).1.write_journal ≡ st.write_journal)
  unfolding delete
  delete_unrecorded x format D e sql params st = (
    exec_journal (build_delete_sql x D e).0 (build_delete_sql x D e).1 st,
    exec_update_named_journal sql params st,
  )

  exec_rows-total :
      (sql : Text) (rows : List (List Value)) (total : ℕ) (st : State S) (n : ℕ)
      → (exec_rows server sql rows total st).0 ≡ ok n
      → n ≡ total + length rows
  unfolding exec_rows
  exec_rows-total sql [] total st n h = ground arith
  exec_rows-total sql (values ∷ rows) total st n h =
      elim (Result-cases (exec server sql values st).0) [
        | inl (m, e) ↦ ground (
          arith,
          exec_one sql values st m e,
          exec_rows-total sql rows (total + m) (exec server sql values st).1 n,
        )
        | inr failed ↦ ground arith
      ]

  exec_rows-journal :
      (sql : Text) (rows : List (List Value)) (total : ℕ) (st : State S)
      → (exec_rows server sql rows total st).1.write_journal ≡ st.write_journal
  unfolding exec_rows
  exec_rows-journal sql [] total st = refl
  exec_rows-journal sql (values ∷ rows) total st =
      elim (Result-cases (exec server sql values st).0) [
        | inl (m, e) ↦ ground (
          arith,
          exec_journal sql values st,
          exec_rows-journal sql rows (total + m) (exec server sql values st).1,
        )
        | inr failed ↦ ground (arith, exec_journal sql values st)
      ]

  pub exec_update_multi_rows_named-journal :
      (sql : Text) (rows : List (Map Value)) (st : State S)
      → (exec_update_multi_rows_named server sql rows st).1.write_journal ≡ st.write_journal
  unfolding exec_update_multi_rows_named
  exec_update_multi_rows_named-journal sql rows st =
      elim (Result-cases (build_batch_named_params sql rows)) [
        | inl (b, e) ↦ ground (arith, exec_rows-journal b.0 b.1 0 st)
        | inr failed ↦ ground arith
      ]

module _ {N T S : Type 0} (server : Server S) (x : Extern N) (format : EntryFormat)
    (D : DbEntity N T) where
  module _ (now : ℤ) (sql : Text) (values : List Value) (st : State S) (j : Journal)
      (journal : st.write_journal ≡ some j) where
    pub exec_recorded_done :
        (n : ℕ)
        → (exec server sql values st).0 ≡ ok n
        → (exec_recorded server x format D now (ok (sql, values)) st).1.write_journal
          ≡ some (record_write x format now sql values j).1
    unfolding exec_recorded record_statement
    exec_recorded_done n h = ground (arith, exec_journal server sql values st)

    exec_recorded_answer :
        (n : ℕ)
        → (exec server sql values st).0 ≡ ok n
        → (record_write x format now sql values j).0 ≡ ok tt
        → (exec_recorded server x format D now (ok (sql, values)) st).0 ≡ ok n
    unfolding exec_recorded record_statement
    exec_recorded_answer n h written = ground (arith, exec_journal server sql values st)

    pub exec_recorded_refused :
        (e : Db233Error)
        → (exec server sql values st).0 ≡ err e
        → exec_recorded server x format D now (ok (sql, values)) st
          ≡ (err e, (exec server sql values st).1)
    unfolding exec_recorded
    exec_recorded_refused e h = ground arith

    pub exec_recorded_panics :
        (exec server sql values st).0 ≡ panic
        → (exec_recorded server x format D now (ok (sql, values)) st).1.write_journal
          ≡ st.write_journal
    unfolding exec_recorded
    exec_recorded_panics h = ground (arith, exec_journal server sql values st)

-- An update that the server has executed and that the journal fails to record answers with the
-- journal's error, although the server is as the execution left it.
update_unrecorded :
    {N T S : Type 0} (server : Server S) (x : Extern N) (format : EntryFormat) (D : DbEntity N T)
    (now : ℤ) (entity : T) (s : Statement) (st : State S) (j : Journal) (n : ℕ) (e : Db233Error)
    → build_update_sql x D entity ≡ ok s
    → st.write_journal ≡ some j
    → (exec server s.0 s.1 st).0 ≡ ok n
    → (record_write x format now s.0 s.1 j).0 ≡ err e
    → ((update server x format D now entity st).0 ≡ err e)
      × ((update server x format D now entity st).1.server ≡ (exec server s.0 s.1 st).1.server)
unfolding update exec_recorded record_statement
update_unrecorded server x format D now entity s st j n e built journal done failed =
    ground (arith, exec_journal server s.0 s.1 st)

-- A named update of several rows that answers a number answers the number of rows, whatever the
-- statement has changed.
exec_update_multi_rows_named-count :
    {S : Type 0} (server : Server S) (sql : Text) (rows : List (Map Value)) (st : State S) (n : ℕ)
    → (exec_update_multi_rows_named server sql rows st).0 ≡ ok n
    → n ≡ length rows
unfolding exec_update_multi_rows_named
exec_update_multi_rows_named-count server sql rows st n h =
    elim (Result-cases (build_batch_named_params sql rows)) [
      | inl (b, e) ↦ ground (
        arith,
        exec_rows-total server b.0 b.1 0 st n,
        length-build_batch_named_params sql rows b.0 b.1 e,
      )
      | inr failed ↦ ground arith
    ]
