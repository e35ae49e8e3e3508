-- ===== src/Db/Concurrent.antt =====
-- `find_by_ids_concurrent` of src/db.rs: one task for each chunk of the ids, in any interleaving.
pub mod Chunks
pub mod Order
use db233_rust.Common.{
  ℕ, zero, suc, ◌+◌, ◌-◌, ◌/◌, ℤ, List, [], ◌∷◌, ◌++◌, map, Text, codes, length,
}
use db233_rust.Errors.{Result, ok, err, panic, query_error}
use db233_rust.SqlValue.{Value}
use db233_rust.Extern.{Extern}
use db233_rust.Entity.{DbEntity}
use db233_rust.Orm.{query_to_entity}
use db233_rust.Wal.{EntryFormat}
use db233_rust.Db.{Server, State, and_then, connect, connection_query, ids_sql, find_by_ids}

-- The chunk that is begun, and the chunks behind it, of the rest of a slice.
chunks_from {ℓ} : {A : Type ℓ} → ℕ → ℕ → List A → List A × List (List A)
chunks_from size room [] = ([], [])
chunks_from size zero (x ∷ xs) =
    let (chunk, rest) = chunks_from size (size - 1) xs in ([], (x ∷ chunk) ∷ rest)
chunks_from size (suc room) (x ∷ xs) =
    let (chunk, rest) = chunks_from size room xs in (x ∷ chunk, rest)

-- `ids.chunks(size)`, for a size above zero
unfoldable pub chunks {ℓ} : {A : Type ℓ} → ℕ → List A → List (List A)
unfolding chunks_from
chunks size [] = []
chunks size (x ∷ xs) = let (chunk, rest) = chunks_from size (size - 1) xs in (x ∷ chunk) ∷ rest

-- `n.div_ceil(16)`
abbrev pub chunk_size : ℕ → ℕ
chunk_size n = (n + 15) / 16

-- How far the task of one chunk has come: before it has a connection, with one, or at its end.
pub data Task (T : Type 0) : Type 0 where
  waiting : List ℤ → Task T
  connected : ℕ → List ℤ → Task T
  done : Result (List T) → Task T

module _ {N T S : Type 0} (server : Server S) (x : Extern N) (format : EntryFormat)
    (D : DbEntity N T) where
  -- What `query` does with a connection.
  unfoldable pub read_chunk : ℕ → List ℤ → State S → Result (List T) × State S
  read_chunk conn chunk st =
      and_then
        (connection_query server conn (ids_sql server x format D chunk) (map Value.int chunk) st)
        (λ rows st'. (query_to_entity x D rows, st'))

  -- A task until its next access to the server is done.
  unfoldable pub step_task : Task T → State S → Task T × State S
  step_task (waiting []) st = (done (ok []), st)
  step_task (waiting (id ∷ ids)) st =
      let (r, st') = connect server st in
      elim r [
        | ok conn ↦ (connected conn (id ∷ ids), st')
        | err e ↦ (done (err e), st')
        | panic ↦ (done panic, st')
      ]
  step_task (connected conn chunk) st = let (r, st') = read_chunk conn chunk st in (done r, st')
  step_task (done r) st = (done r, st)

  unfoldable pub step_at : ℕ → List (Task T) → State S → List (Task T) × State S
  step_at i [] st = ([], st)
  step_at zero (t ∷ ts) st = let (t', st') = step_task t st in (t' ∷ ts, st')
  step_at (suc i) (t ∷ ts) st = let (ts', st') = step_at i ts st in (t ∷ ts', st')

  -- The order in which the runtime lets the tasks go on.
  unfoldable pub run_schedule : List ℕ → List (Task T) → State S → List (Task T) × State S
  run_schedule [] ts st = (ts, st)
  run_schedule (i ∷ schedule) ts st =
      let (ts', st') = step_at i ts st in run_schedule schedule ts' st'

  -- What is left of a task that is awaited.
  unfoldable pub finish : Task T → State S → Result (List T) × State S
  finish (waiting chunk) st = find_by_ids server x format D chunk st
  finish (connected conn chunk) st = read_chunk conn chunk st
  finish (done r) st = (r, st)

  -- What a `JoinError` displays is outside this crate.
  module _ (join_error : ℕ → Text) where
    -- A task that has panicked is a `JoinError`.
    abbrev pub joined : ℕ → Result (List T) → Result (List T)
    joined i (ok rows) = ok rows
    joined i (err e) = err e
    joined i panic = err (query_error (codes "task join error: " ++ join_error i))

    -- `for task in tasks`, with `results`
    unfoldable pub await_all : ℕ → List (Task T) → List T → State S → Result (List T) × State S
    await_all i [] results st = (ok results, st)
    await_all i (t ∷ ts) results st =
        let (r, st') = finish t st in
        and_then (joined i r, st')
          (λ chunk_results st''. await_all (suc i) ts (results ++ chunk_results) st'')

    unfoldable pub find_by_ids_concurrent : List ℕ → List ℤ → State S → Result (List T) × State S
    find_by_ids_concurrent schedule [] st = (ok [], st)
    find_by_ids_concurrent schedule (id ∷ ids) st =
        let tasks = map waiting (chunks (chunk_size (length (id ∷ ids))) (id ∷ ids)) in
        let (tasks', st') = run_schedule schedule tasks st in await_all 0 tasks' [] st'
