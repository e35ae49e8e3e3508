-- ===== src/Db/Concurrent/Order.antt =====
-- `find_by_ids_concurrent` gives the same whatever the order in which its tasks go on.
use db233_rust.Common.{
  ℕ, zero, suc, ◌<◌, ◌≡◌, refl, ℤ, List, [], ◌∷◌, ◌++◌, map, Text, codes, length, arith, inl, inr,
}
use db233_rust.Errors.{Result, ok, Result-cases, Outcome, fine, map_err, query_error, ◌>>=◌}
use db233_rust.SqlValue.{Value}
use db233_rust.Extern.{Extern}
use db233_rust.Entity.{DbEntity}
use db233_rust.Orm.{Row, query_to_entity}
use db233_rust.Wal.{EntryFormat}
use db233_rust.Db.{
  Server, State, and_then, connect, connection_query, query_rows, query, ids_sql, find_by_ids,
}
use db233_rust.Db.Concurrent.{
  Task, chunks, chunk_size, read_chunk, step_task, step_at, run_schedule, finish, joined, await_all,
  find_by_ids_concurrent,
}

-- While the call runs, the pool gives connections and what is read does not change: each statement
-- has one answer, on every connection and in every state of the server.
pub record IsQuiet {S : Type 0} (server : Server S)
    (answer : Text → List Value → Outcome (List Row)) : Type 0 where
  pub connects : (s : S) → (conn : ℕ) × ((server.get_conn s).0 ≡ fine conn)
  pub reads :
      (conn : ℕ) (sql : Text) (params : List Value) (s : S)
      → (server.exec_map conn sql params s).0 ≡ answer sql params

module _ {N T S : Type 0} (server : Server S) (x : Extern N) (format : EntryFormat)
    (D : DbEntity N T) (join_error : ℕ → Text) where
  -- `find_by_ids` on each chunk, one after the other, up to the first that fails.
  unfoldable pub in_turn : ℕ → List (List ℤ) → List T → State S → Result (List T) × State S
  in_turn i [] results st = (ok results, st)
  in_turn i (c ∷ cs) results st =
      let (r, st') = find_by_ids server x format D c st in
      and_then (joined server x format D join_error i r, st')
        (λ more st''. in_turn (suc i) cs (results ++ more) st'')

module _ {N T S : Type 0} (server : Server S) (x : Extern N) (format : EntryFormat)
    (D : DbEntity N T) (answer : Text → List Value → Outcome (List Row))
    (quiet : IsQuiet server answer) where
  -- The answer to one chunk.
  answer_of : List ℤ → Result (List T)
  answer_of [] = ok []
  answer_of (id ∷ ids) =
      map_err (λ e. query_error (codes "query failed: " ++ e))
        (answer (ids_sql server x format D (id ∷ ids)) (map Value.int (id ∷ ids)))
      >>= query_to_entity x D

  read_chunk-answer_of :
      (conn : ℕ) (id : ℤ) (ids : List ℤ) (st : State S)
      → (read_chunk server x format D conn (id ∷ ids) st).0 ≡ answer_of (id ∷ ids)
  unfolding read_chunk connection_query answer_of
  read_chunk-answer_of conn id ids st = ground (
    arith,
    quiet.reads conn (ids_sql server x format D (id ∷ ids)) (map Value.int (id ∷ ids)) st.server,
  )

  find_by_ids-answer_of :
      (ids : List ℤ) (st : State S) → (find_by_ids server x format D ids st).0 ≡ answer_of ids
  unfolding find_by_ids query query_rows connect
  find_by_ids-answer_of [] st = unfold answer_of in refl
  find_by_ids-answer_of (id ∷ ids) st =
      let (conn, connected) = quiet.connects st.server in
      rw connected (unfold read_chunk in read_chunk-answer_of conn id ids _)

  connect-ok : (st : State S) → (connect server st).0 ≡ ok (quiet.connects st.server).0
  unfolding connect
  connect-ok st = rw (quiet.connects st.server).1 refl

  abbrev Agrees : List ℤ → Task T → Type 0
  Agrees c (Task.waiting ids) = ids ≡ c
  Agrees c (Task.connected conn ids) = (ids ≡ c) × (0 < length c)
  Agrees c (Task.done r) = r ≡ answer_of c

  step_task-Agrees :
      (c : List ℤ) (t : Task T) (st : State S)
      → Agrees c t
      → Agrees c (step_task server x format D t st).0
  unfolding step_task
  step_task-Agrees c (Task.waiting []) st h = unfold answer_of in rw (← h) refl
  step_task-Agrees c (Task.waiting (id ∷ ids)) st h =
      rw (Agrees, step_task, connect-ok st) (h, rw (← h) (omega arith))
  step_task-Agrees [] (Task.connected conn ids) st (h, some_id) = absurd (omega arith)
  step_task-Agrees (id ∷ ids) (Task.connected conn js) st (h, some_id) =
      rw h (read_chunk-answer_of conn id ids st)
  step_task-Agrees c (Task.done r) st h = h

  abbrev AllAgree : List (List ℤ) → List (Task T) → Type 0
  AllAgree [] [] = Unit
  AllAgree [] (t ∷ ts) = ⊥
  AllAgree (c ∷ cs) [] = ⊥
  AllAgree (c ∷ cs) (t ∷ ts) = Agrees c t × AllAgree cs ts

  step_at-AllAgree :
      (i : ℕ) (cs : List (List ℤ)) (ts : List (Task T)) (st : State S)
      → AllAgree cs ts
      → AllAgree cs (step_at server x format D i ts st).0
  unfolding step_at
  step_at-AllAgree i [] [] st h = tt
  step_at-AllAgree i [] (t ∷ ts) st h = absurd h
  step_at-AllAgree i (c ∷ cs) [] st h = absurd h
  step_at-AllAgree zero (c ∷ cs) (t ∷ ts) st (here, h) = (step_task-Agrees c t st here, h)
  step_at-AllAgree (suc i) (c ∷ cs) (t ∷ ts) st (here, h) = (here, step_at-AllAgree i cs ts st h)

  run_schedule-AllAgree :
      (schedule : List ℕ) (cs : List (List ℤ)) (ts : List (Task T)) (st : State S)
      → AllAgree cs ts
      → AllAgree cs (run_schedule server x format D schedule ts st).0
  unfolding run_schedule
  run_schedule-AllAgree [] cs ts st h = h
  run_schedule-AllAgree (i ∷ schedule) cs ts st h =
      run_schedule-AllAgree schedule cs _ _ (step_at-AllAgree i cs ts st h)

  start-AllAgree : (cs : List (List ℤ)) → AllAgree cs (map Task.waiting cs)
  start-AllAgree [] = tt
  start-AllAgree (c ∷ cs) = (refl, start-AllAgree cs)

  finish-Agrees :
      (c : List ℤ) (t : Task T) (st : State S)
      → Agrees c t
      → (finish server x format D t st).0 ≡ answer_of c
  unfolding finish
  finish-Agrees c (Task.waiting ids) st h = rw h (find_by_ids-answer_of c st)
  finish-Agrees [] (Task.connected conn ids) st (h, some_id) = absurd (omega arith)
  finish-Agrees (id ∷ ids) (Task.connected conn js) st (h, some_id) =
      rw h (read_chunk-answer_of conn id ids st)
  finish-Agrees c (Task.done r) st h = h

  module _ (join_error : ℕ → Text) where
    await_all-in_turn :
        (i : ℕ) (cs : List (List ℤ)) (ts : List (Task T)) (results : List T) (st st' : State S)
        → AllAgree cs ts
        → (await_all server x format D join_error i ts results st).0
          ≡ (in_turn server x format D join_error i cs results st').0
    unfolding await_all in_turn
    await_all-in_turn i [] [] results st st' h = refl
    await_all-in_turn i [] (t ∷ ts) results st st' h = absurd h
    await_all-in_turn i (c ∷ cs) [] results st st' h = absurd h
    await_all-in_turn i (c ∷ cs) (t ∷ ts) results st st' (here, h) =
        elim (Result-cases (answer_of c)) [
          | inl (rows, e) ↦
              rw (finish-Agrees c t st here, find_by_ids-answer_of c st', e)
                (await_all-in_turn (suc i) cs ts (results ++ rows) _ _ h)
          | inr (inl (m, e)) ↦ rw (finish-Agrees c t st here, find_by_ids-answer_of c st', e) refl
          | inr (inr e) ↦ rw (finish-Agrees c t st here, find_by_ids-answer_of c st', e) refl
        ]

    -- While the pool gives every connection that it is asked for and what is read does not change: in
    -- whatever order the tasks go on, the call returns the entities that `find_by_ids` finds for each
    -- chunk, in the order of the chunks, or the first error in that order, where a panic is the error
    -- of joining its task.
    pub find_by_ids_concurrent-in_turn :
        (schedule : List ℕ) (ids : List ℤ) (st : State S)
        → (find_by_ids_concurrent server x format D join_error schedule ids st).0
          ≡ (in_turn server x format D join_error 0 (chunks (chunk_size (length ids)) ids) [] st).0
    unfolding find_by_ids_concurrent
    find_by_ids_concurrent-in_turn schedule [] st = unfold chunks in_turn in refl
    find_by_ids_concurrent-in_turn schedule (id ∷ ids) st =
        let cs = chunks (chunk_size (length (id ∷ ids))) (id ∷ ids) in
        await_all-in_turn 0 cs _ [] _ st
          (run_schedule-AllAgree schedule cs (map Task.waiting cs) st (start-AllAgree cs))
