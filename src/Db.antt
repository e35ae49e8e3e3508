-- ===== src/Db.antt =====
-- src/db.rs and src/connection.rs: statements sent through the pool, and the journal of what was
-- written. Each method takes the state of the server and the journal, and gives it back.
pub mod Journaled
pub mod Held
pub mod History
pub mod Ids
pub mod Saved
pub mod Queries
pub mod Concurrent
pub mod Interleaved
use db233_rust.Common.{
  ℕ, zero, suc, ◌+◌, ℤ, is_zero, u64_as_i64, Bool, true, false, List, [], ◌∷◌, ◌++◌, Option, none,
  some, map, Text, codes, length, repeat, trim_end_matches, Map, is_utf8, if◌then◌else◌, ltb,
}
use db233_rust.Errors.{
  Result, ok, err, panic, Outcome, map_err, query_error, connection_error, not_found, ◌>>=◌,
}
use db233_rust.SqlValue
use db233_rust.SqlValue.{Value}
use db233_rust.Extern.{Extern}
use db233_rust.Entity.{DbEntity}
use db233_rust.Orm.{Row, query_to_entity, query_to_map}
use db233_rust.Orm.Build.{
  Statement, build_upsert_sql, build_update_sql, build_delete_sql, build_find_by_id_sql,
}
use db233_rust.Orm.Batch.{build_batch_upsert_sql}
use db233_rust.NamedParams.{replace_named_parameters, build_batch_named_params}
use db233_rust.Wal.{Journal, EntryFormat, record_write}

-- What `mysql_async` and the standard library do: a connection out of the pool, the two ways to run
-- a statement, the ping, and the order in which a `HashMap` gives its values.
pub record Server (S : Type 0) : Type 0 where
  pub get_conn : S → Outcome ℕ × S
  pub exec_map : ℕ → Text → List Value → S → Outcome (List Row) × S
  pub exec_drop : ℕ → Text → List Value → S → Outcome (Unit {0}) × S
  pub ping : ℕ → S → Outcome (Unit {0}) × S
  pub in_order : Map Value → List Value

-- The server with its pool, and `write_journal`.
pub record State (S : Type 0) : Type 0 where
  pub server : S
  pub write_journal : Option Journal

-- `?` with a state
abbrev pub and_then {ℓ κ μ} :
    {W : Type ℓ} {A : Type κ} {B : Type μ} → Result A × W → (A → W → Result B × W) → Result B × W
and_then (ok a, w) rest = rest a w
and_then (err e, w) rest = (err e, w)
and_then (panic, w) rest = (panic, w)

-- The first integer among the values, and the first text.
abbrev pub first_integer : List Value → ℤ
first_integer [] = ℤ.pos 0
first_integer (Value.int i ∷ vs) = i
first_integer (Value.uint u ∷ vs) = u64_as_i64 u
first_integer (v ∷ vs) = first_integer vs

module _ {S : Type 0} (server : Server S) where
  -- `DbPool::get_conn`
  pool_conn : State S → Result ℕ × State S
  pool_conn st =
      let (conn, s) = server.get_conn st.server in
      (
        map_err (λ e. connection_error (codes "failed to get connection from pool: " ++ e)) conn,
        record st { server = s },
      )

  -- `DbConnection::new`
  unfoldable pub connect : State S → Result ℕ × State S
  unfolding pool_conn
  connect st = and_then (pool_conn st) (λ conn st'. (ok conn, st'))

  -- `DbConnection::query` and `DbConnection::exec`
  unfoldable pub connection_query : ℕ → Text → List Value → State S → Result (List Row) × State S
  connection_query conn sql params st =
      let (rows, s) = server.exec_map conn sql params st.server in
      (map_err (λ e. query_error (codes "query failed: " ++ e)) rows, record st { server = s })

  unfoldable pub connection_exec : ℕ → Text → List Value → State S → Result ℕ × State S
  connection_exec conn sql params st =
      let (done, s) = server.exec_drop conn sql params st.server in
      (
        (map_err (λ e. query_error (codes "exec failed: " ++ e)) done >>= λ _. ok 1),
        record st { server = s },
      )

  -- `DbConnection::ping`
  unfoldable pub connection_ping : ℕ → State S → Result (Unit {0}) × State S
  connection_ping conn st =
      let (done, s) = server.ping conn st.server in
      (map_err (λ e. connection_error (codes "ping failed: " ++ e)) done, record st { server = s })

  -- `Db::exec`
  unfoldable pub exec : Text → List Value → State S → Result ℕ × State S
  exec sql params st = and_then (connect st) (λ conn st'. connection_exec conn sql params st')

  -- What `Db::query` and `Db::query_map` begin with.
  unfoldable pub query_rows : Text → List Value → State S → Result (List Row) × State S
  query_rows sql params st =
      and_then (connect st) (λ conn st'. connection_query conn sql params st')

  -- `Db::query_map` and `Db::query_to_int64`
  unfoldable pub query_map : Text → List Value → State S → Result (List (Map Value)) × State S
  query_map sql params st =
      and_then (query_rows sql params st) (λ rows st'. (query_to_map rows, st'))

  unfoldable pub query_to_int64 : Text → List Value → State S → Result ℤ × State S
  query_to_int64 sql params st = and_then (query_map sql params st) (λ results st'. elim results [
    | [] ↦ (ok (ℤ.pos 0), st')
    | row ∷ _ ↦ (ok (first_integer (server.in_order row)), st')
  ])

  -- `Db::exec_update_named`
  unfoldable pub exec_update_named : Text → Map Value → State S → Result ℕ × State S
  exec_update_named sql params st =
      and_then (replace_named_parameters sql params, st) (λ s st'. exec s.0 s.1 st')

  -- `for values in batch_values`, with `total_affected`
  unfoldable pub exec_rows : Text → List (List Value) → ℕ → State S → Result ℕ × State S
  exec_rows sql [] total_affected st = (ok total_affected, st)
  exec_rows sql (values ∷ batch_values) total_affected st =
      and_then (exec sql values st)
        (λ affected st'. exec_rows sql batch_values (total_affected + affected) st')

  unfoldable pub exec_update_multi_rows_named :
      Text → List (Map Value) → State S → Result ℕ × State S
  exec_update_multi_rows_named sql params_list st =
      and_then (build_batch_named_params sql params_list, st) (λ b st'. exec_rows b.0 b.1 0 st')

  module _ {N : Type 0} (x : Extern N) (format : EntryFormat) where
    -- `if let Some(wj) = &self.write_journal { wj.record_write(..).await?; }`
    unfoldable pub record_statement : ℤ → Text → List Value → State S → Result (Unit {0}) × State S
    record_statement now sql values st = elim st.write_journal [
      | none ↦ (ok tt, st)
      | some wj ↦
          let (r, wj') = record_write x format now sql values wj in
          (r, record st { write_journal = some wj' })
    ]

    module _ {T : Type 0} (D : DbEntity N T) where
      -- `Db::query`
      unfoldable pub query : Text → List Value → State S → Result (List T) × State S
      query sql params st =
          and_then (query_rows sql params st) (λ rows st'. (query_to_entity x D rows, st'))

      -- The id that `Db::save` gives to a new entity, which it changes in place.
      unfoldable pub assign_id : T → ℕ → State S → Result T × State S
      assign_id entity affected st =
          if is_zero (D.primary_key_value entity)
          then if ltb 0 affected
            then and_then (query_to_int64 (codes "SELECT LAST_INSERT_ID()") [] st)
                (λ last_insert_id st'. (ok (D.set_primary_key_value last_insert_id entity), st'))
            else (ok entity, st)
          else (ok entity, st)

      -- `Db::save`, with the entity as it is where the call returns `Ok`.
      unfoldable pub save : ℤ → T → State S → Result T × State S
      save now entity st =
          and_then (build_upsert_sql x D entity, st)
            (λ statement st'. and_then (exec statement.0 statement.1 st') (λ affected st''.
              and_then (assign_id entity affected st'') (λ saved st'''.
                and_then (record_statement now statement.0 statement.1 st''')
                  (λ _ done. (ok saved, done)))))

      -- `exec` and then the journal, as `Db::update` and `Db::save_batch_upsert` do with what they
      -- have built.
      unfoldable pub exec_recorded : ℤ → Result Statement → State S → Result ℕ × State S
      exec_recorded now built st =
          and_then (built, st)
            (λ statement st'. and_then (exec statement.0 statement.1 st') (λ affected st''.
              and_then (record_statement now statement.0 statement.1 st'')
                (λ _ done. (ok affected, done))))

      unfoldable pub update : ℤ → T → State S → Result ℕ × State S
      update now entity st = exec_recorded now (build_update_sql x D entity) st

      unfoldable pub save_batch_upsert : ℤ → List T → State S → Result ℕ × State S
      save_batch_upsert now [] st = (ok 0, st)
      save_batch_upsert now (first ∷ rest) st =
          exec_recorded now (build_batch_upsert_sql x D (first ∷ rest)) st

      unfoldable pub delete : T → State S → Result ℕ × State S
      delete entity st = let (sql, values) = build_delete_sql x D entity in exec sql values st

      unfoldable pub find_by_id : ℤ → State S → Result T × State S
      find_by_id id st =
          let (sql, values) = build_find_by_id_sql D id in
          and_then (query sql values st) (λ results st'. elim results [
            | [] ↦ (err not_found, st')
            | first ∷ _ ↦ (ok first, st')
          ])

      -- The statement of `Db::find_by_ids`
      unfoldable pub ids_sql : List ℤ → Text
      ids_sql ids =
          codes "SELECT * FROM "
          ++ D.table_name
          ++ codes " WHERE "
          ++ D.primary_key_name
          ++ codes " IN ("
          ++ trim_end_matches b',' (repeat (length ids) (codes "?,"))
          ++ codes ")"

      unfoldable pub find_by_ids : List ℤ → State S → Result (List T) × State S
      find_by_ids [] st = (ok [], st)
      find_by_ids (id ∷ ids) st = query (ids_sql (id ∷ ids)) (map Value.int (id ∷ ids)) st
