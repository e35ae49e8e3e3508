-- ===== src/Db/History.antt =====
-- The journal after any history of writes through src/db.rs.
use db233_rust.Common.{ℤ, ◌≡◌, refl, true, List, [], ◌∷◌, ◌++◌, some, Text, Map, append_assoc}
use db233_rust.Errors.{ok}
use db233_rust.Extern.{Extern}
use db233_rust.SqlValue.{Value}
use db233_rust.Entity.{DbEntity}
use db233_rust.Orm.Build.{build_update_sql, build_upsert_sql}
use db233_rust.Orm.Batch.{build_batch_upsert_sql}
use db233_rust.Wal.{Journal, EntryFormat, WriteEntry, replay}
use db233_rust.Wal.Recovery.{IsJson, replay-IsDurable}
use db233_rust.Db.Held.{Holds, Holds-same, executed, binds_no_float, built-Holds, saved, save-Holds}
use db233_rust.Db.{
  Server, State, update, save_batch_upsert, delete, exec_update_named, save,
  exec_update_multi_rows_named,
}
use db233_rust.Db.Journaled.{
  delete_unrecorded, exec_update_named_journal, exec_update_multi_rows_named-journal,
}

-- A writing call of a client.
pub data Call (T : Type 0) : Type 0 where
  updates : ℤ → T → Call T
  saves_batch : ℤ → T → List T → Call T
  saves : ℤ → T → Call T
  deletes : T → Call T
  executes : Text → Map Value → Call T
  executes_rows : Text → List (Map Value) → Call T

module _ {N T S : Type 0} (server : Server S) (x : Extern N) (format : EntryFormat)
    (D : DbEntity N T) where
  unfoldable pub call : Call T → State S → State S
  call (updates now e) st = (update server x format D now e st).1
  call (saves_batch now e es) st = (save_batch_upsert server x format D now (e ∷ es) st).1
  call (saves now e) st = (save server x format D now e st).1
  call (deletes e) st = (delete server x format D e st).1
  call (executes sql params) st = (exec_update_named server sql params st).1
  call (executes_rows sql rows) st = (exec_update_multi_rows_named server sql rows st).1

  unfoldable pub recorded : Call T → State S → List WriteEntry
  recorded (updates now e) st = executed server x format D now (build_update_sql x D e) st
  recorded (saves_batch now e es) st =
      executed server x format D now (build_batch_upsert_sql x D (e ∷ es)) st
  recorded (saves now e) st = saved server x format D e now (build_upsert_sql x D e) st
  recorded (deletes e) st = []
  recorded (executes sql params) st = []
  recorded (executes_rows sql rows) st = []

  unfoldable pub calls : List (Call T) → State S → State S
  calls [] st = st
  calls (c ∷ cs) st = calls cs (call c st)

  unfoldable pub recorded_all : List (Call T) → State S → List WriteEntry
  recorded_all [] st = []
  recorded_all (c ∷ cs) st = recorded c st ++ recorded_all cs (call c st)

  abbrev pub BindNoFloat : List (Call T) → Type 0
  BindNoFloat [] = Unit
  BindNoFloat (updates now e ∷ cs) =
      (binds_no_float x (build_update_sql x D e) ≡ true) × BindNoFloat cs
  BindNoFloat (saves_batch now e es ∷ cs) =
      (binds_no_float x (build_batch_upsert_sql x D (e ∷ es)) ≡ true) × BindNoFloat cs
  BindNoFloat (saves now e ∷ cs) =
      (binds_no_float x (build_upsert_sql x D e) ≡ true) × BindNoFloat cs
  BindNoFloat (deletes e ∷ cs) = BindNoFloat cs
  BindNoFloat (executes sql params ∷ cs) = BindNoFloat cs
  BindNoFloat (executes_rows sql rows ∷ cs) = BindNoFloat cs

  module _ (json : IsJson format) where
    -- One call, and the calls behind it.
    calls-more :
        (c : Call T) (cs : List (Call T)) (es : List WriteEntry) (st : State S)
        → ((ds : List WriteEntry)
            → Holds format ds (call c st)
            → Holds format (ds ++ recorded_all cs (call c st)) (calls cs (call c st)))
        → Holds format (es ++ recorded c st) (call c st)
        → Holds format (es ++ recorded_all (c ∷ cs) st) (calls (c ∷ cs) st)
    unfolding calls recorded_all
    calls-more c cs es st rest h =
        rw (← append_assoc es (recorded c st) (recorded_all cs (call c st)))
          (rest (es ++ recorded c st) h)

    calls-Holds :
        (cs : List (Call T)) (es : List WriteEntry) (st : State S)
        → BindNoFloat cs
        → Holds format es st
        → Holds format (es ++ recorded_all cs st) (calls cs st)
    calls-Holds [] es st floats h = unfold calls recorded_all in Holds-same format es st st refl h
    calls-Holds (updates now e ∷ cs) es st (float, floats) h =
        calls-more (updates now e) cs es st (λ ds k. calls-Holds cs ds _ floats k)
          (unfold call recorded update in built-Holds server x format D json now _ es st float h)
    calls-Holds (saves_batch now e fs ∷ cs) es st (float, floats) h =
        calls-more (saves_batch now e fs) cs es st (λ ds k. calls-Holds cs ds _ floats k)
          (unfold call recorded save_batch_upsert in
            built-Holds server x format D json now _ es st float h)
    calls-Holds (saves now e ∷ cs) es st (float, floats) h =
        calls-more (saves now e) cs es st (λ ds k. calls-Holds cs ds _ floats k)
          (unfold call recorded in save-Holds server x format D json now e es st float h)
    calls-Holds (deletes e ∷ cs) es st floats h =
        calls-more (deletes e) cs es st (λ ds k. calls-Holds cs ds _ floats k)
          (unfold call recorded in
            Holds-same format es st _ (delete_unrecorded server x format D e [] [] st).0 h)
    calls-Holds (executes sql params ∷ cs) es st floats h =
        calls-more (executes sql params) cs es st (λ ds k. calls-Holds cs ds _ floats k)
          (unfold call recorded in
            Holds-same format es st _ (exec_update_named_journal server sql params st) h)
    calls-Holds (executes_rows sql rows ∷ cs) es st floats h =
        calls-more (executes_rows sql rows) cs es st (λ ds k. calls-Holds cs ds _ floats k)
          (unfold call recorded in
            Holds-same format es st _ (exec_update_multi_rows_named-journal server sql rows st) h)

    -- On a journal that holds some entries, with no fault to come: after any history of updates,
    -- batch upserts, saves, deletes and named updates that binds no float, whatever the server
    -- answers, a replay gives the old entries and then the statements of those updates, batch upserts
    -- and saves that the server executed, each once and in order, and nothing else. A save that the
    -- server executed and that then fails to learn its new id is not among them.
    pub replay-calls :
        (cs : List (Call T)) (es : List WriteEntry) (st : State S)
        → BindNoFloat cs
        → Holds format es st
        → (j : Journal) × ((calls cs st).write_journal ≡ some j)
          × (replay format j ≡ ok (es ++ recorded_all cs st))
    replay-calls cs es st floats h =
        let k = calls-Holds cs es st floats h in
        (k.journal, k.here, replay-IsDurable format _ k.journal k.durable)
