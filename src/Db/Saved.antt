-- ===== src/Db/Saved.antt =====
-- What `save` of src/db.rs does on each of its branches, also to the journal.
use db233_rust.SqlValue.{Value}
use db233_rust.Common.{ℕ, ℤ, is_zero, ◌≡◌, true, false, [], Text, codes, arith, ◌⊎◌, List, some}
use db233_rust.Errors.{Db233Error, ok, err, Result, panic}
use db233_rust.Extern.{Extern}
use db233_rust.Entity.{DbEntity}
use db233_rust.Orm.Build.{Statement, build_upsert_sql}
use db233_rust.Wal.{EntryFormat, Journal, record_write}
use db233_rust.Db.{
  Server, State, exec, query_to_int64, assign_id, save, record_statement, connect, connection_query,
  query_rows, query_map,
}
use db233_rust.Db.Journaled.{exec_one, exec_journal}

-- The statement that `save` asks a new id with.
abbrev pub last_insert_id_sql : Text
last_insert_id_sql = codes "SELECT LAST_INSERT_ID()"

module _ {N T S : Type 0} (server : Server S) (x : Extern N) (format : EntryFormat)
    (D : DbEntity N T) (now : ℤ) (entity : T) (s : Statement) (st : State S)
    (built : build_upsert_sql x D entity ≡ ok s) where
  save_stored :
      (n : ℕ)
      → is_zero (D.primary_key_value entity) ≡ false
      → (exec server s.0 s.1 st).0 ≡ ok n
      → (record_statement server x format now s.0 s.1 (exec server s.0 s.1 st).1).0 ≡ ok tt
      → save server x format D now entity st
        ≡ (ok entity, (record_statement server x format now s.0 s.1 (exec server s.0 s.1 st).1).1)
  unfolding save assign_id
  save_stored n old done written = ground arith

  save_refused :
      (e : Db233Error)
      → (exec server s.0 s.1 st).0 ≡ err e
      → save server x format D now entity st ≡ (err e, (exec server s.0 s.1 st).1)
  unfolding save
  save_refused e refused = ground arith

  save_numbered :
      (n : ℕ) (id : ℤ) (st' : State S)
      → is_zero (D.primary_key_value entity) ≡ true
      → (exec server s.0 s.1 st).0 ≡ ok n
      → query_to_int64 server last_insert_id_sql [] (exec server s.0 s.1 st).1 ≡ (ok id, st')
      → (record_statement server x format now s.0 s.1 st').0 ≡ ok tt
      → save server x format D now entity st ≡ (
        ok (D.set_primary_key_value id entity),
        (record_statement server x format now s.0 s.1 st').1,
      )
  unfolding save assign_id
  save_numbered n id st' new done numbered written =
      ground (arith, exec_one server s.0 s.1 st n done)

  save_unnumbered :
      (n : ℕ) (e : Db233Error) (st' : State S)
      → is_zero (D.primary_key_value entity) ≡ true
      → (exec server s.0 s.1 st).0 ≡ ok n
      → query_to_int64 server last_insert_id_sql [] (exec server s.0 s.1 st).1 ≡ (err e, st')
      → save server x format D now entity st ≡ (err e, st')
  unfolding save assign_id
  save_unnumbered n e st' new done failed = ground (arith, exec_one server s.0 s.1 st n done)

  -- What `save` does with an upsert that was built. If the server refuses it, the call is that error
  -- and records nothing. If the server executes it and the recording succeeds, an entity with an id
  -- is returned as it was, and a new one gets the id that the server tells last. If the server does
  -- not tell it, the call is that error and records nothing, although the upsert is done.
  save_lem :
      ((e : Db233Error)
        → (exec server s.0 s.1 st).0 ≡ err e
        → save server x format D now entity st ≡ (err e, (exec server s.0 s.1 st).1))
      × ((n : ℕ)
          → is_zero (D.primary_key_value entity) ≡ false
          → (exec server s.0 s.1 st).0 ≡ ok n
          → (record_statement server x format now s.0 s.1 (exec server s.0 s.1 st).1).0 ≡ ok tt
          → save server x format D now entity st ≡ (
            ok entity,
            (record_statement server x format now s.0 s.1 (exec server s.0 s.1 st).1).1,
          ))
      × ((n : ℕ) (id : ℤ) (st' : State S)
          → is_zero (D.primary_key_value entity) ≡ true
          → (exec server s.0 s.1 st).0 ≡ ok n
          → query_to_int64 server last_insert_id_sql [] (exec server s.0 s.1 st).1 ≡ (ok id, st')
          → (record_statement server x format now s.0 s.1 st').0 ≡ ok tt
          → save server x format D now entity st ≡ (
            ok (D.set_primary_key_value id entity),
            (record_statement server x format now s.0 s.1 st').1,
          ))
      × ((n : ℕ) (e : Db233Error) (st' : State S)
          → is_zero (D.primary_key_value entity) ≡ true
          → (exec server s.0 s.1 st).0 ≡ ok n
          → query_to_int64 server last_insert_id_sql [] (exec server s.0 s.1 st).1 ≡ (err e, st')
          → save server x format D now entity st ≡ (err e, st'))
  save_lem = (save_refused, save_stored, save_numbered, save_unnumbered)

-- Asking for a number leaves the journal alone.
query_to_int64-journal :
    {S : Type 0} (server : Server S) (sql : Text) (params : List Value) (st : State S)
    → (query_to_int64 server sql params st).1.write_journal ≡ st.write_journal
unfolding query_to_int64 query_map query_rows connect connection_query
query_to_int64-journal server sql params st = ground arith

module _ {N T S : Type 0} (server : Server S) (x : Extern N) (format : EntryFormat)
    (D : DbEntity N T) where
  assign_id-journal :
      (e : T) (n : ℕ) (st : State S)
      → (assign_id server x format D e n st).1.write_journal ≡ st.write_journal
  unfolding assign_id
  assign_id-journal e n st =
      ground (arith, query_to_int64-journal server (codes "SELECT LAST_INSERT_ID()") [] st)

  -- A result that is an error or a panic.
  abbrev pub Fails : {A : Type 0} → Result A → Type 0
  Fails r = ((d : Db233Error) × (r ≡ err d)) ⊎ (r ≡ panic)

  module _ (now : ℤ) (e : T) where
    pub save_unbuilt :
        (st : State S)
        → Fails (build_upsert_sql x D e)
        → (save server x format D now e st).1.write_journal ≡ st.write_journal
    unfolding save
    save_unbuilt st fails = ground arith

    module _ (s : Statement) (st : State S) (built : build_upsert_sql x D e ≡ ok s) where
      pub save_unexecuted :
          Fails (exec server s.0 s.1 st).0
          → (save server x format D now e st).1.write_journal ≡ st.write_journal
      unfolding save
      save_unexecuted fails = ground (arith, exec_journal server s.0 s.1 st)

      module _ (n : ℕ) (done : (exec server s.0 s.1 st).0 ≡ ok n) where
        pub save_without_id :
            Fails (assign_id server x format D e n (exec server s.0 s.1 st).1).0
            → (save server x format D now e st).1.write_journal ≡ st.write_journal
        unfolding save
        save_without_id fails = ground (
          arith,
          exec_journal server s.0 s.1 st,
          assign_id-journal e n (exec server s.0 s.1 st).1,
        )

        pub save_recorded :
            (j : Journal)
            → st.write_journal ≡ some j
            → (e' : T) → (assign_id server x format D e n (exec server s.0 s.1 st).1).0 ≡ ok e'
            → (save server x format D now e st).1.write_journal
              ≡ some (record_write x format now s.0 s.1 j).1
        unfolding save record_statement
        save_recorded j here e' assigned = ground (
          arith,
          exec_journal server s.0 s.1 st,
          assign_id-journal e n (exec server s.0 s.1 st).1,
        )
