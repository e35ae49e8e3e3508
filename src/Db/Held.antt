-- ===== src/Db/Held.antt =====
-- What one write through src/db.rs adds to a journal.
use db233_rust.Db.Saved.{save_unbuilt, save_unexecuted, save_without_id, save_recorded}
use db233_rust.Common.{
  ℤ, ◌≡◌, refl, true, List, [], ◌∷◌, ◌++◌, some, map, append-nil, ◌∙◌, inl, inr, ℕ, Bool,
}
use db233_rust.Errors.{Result, ok, err, panic, Result-cases}
use db233_rust.Extern.{Extern}
use db233_rust.Entity.{DbEntity}
use db233_rust.Orm.Build.{Statement, build_upsert_sql}
use db233_rust.Wal.{Journal, EntryFormat, WriteEntry, entry_of, to_serde}
use db233_rust.Wal.Recovery.{IsJson, IsDurable, are_loggable, record_write-IsDurable}
use db233_rust.Db.{Server, State, exec, exec_recorded, assign_id, save}
use db233_rust.Db.Journaled.{
  exec_recorded_done, exec_recorded_refused, exec_recorded_panics, exec_journal,
}

-- The journal of a state holds the entries.
pub record Holds {S : Type 0} (format : EntryFormat) (es : List WriteEntry) (st : State S)
    : Type 0 where
  pub journal : Journal
  pub here : st.write_journal ≡ some journal
  pub durable : IsDurable format es journal

module _ {N : Type 0} (x : Extern N) where
  -- Whether a statement that was built binds no float.
  abbrev pub binds_no_float : Result Statement → Bool
  binds_no_float (ok s) = are_loggable (map (to_serde x) s.1)
  binds_no_float (err _) = true
  binds_no_float panic = true

module _ {S : Type 0} (format : EntryFormat) where
  pub Holds-same :
      (es : List WriteEntry) (st st' : State S)
      → st'.write_journal ≡ st.write_journal
      → Holds format es st
      → Holds format (es ++ []) st'
  Holds-same es st st' e h =
      rw append-nil (record { journal = h.journal; here = e ∙ h.here; durable = h.durable })

module _ {N T S : Type 0} (server : Server S) (x : Extern N) (format : EntryFormat)
    (D : DbEntity N T) where
  -- What `update` and `save_batch_upsert` record: the statement that was built, if the server
  -- executed it.
  abbrev pub entry_if : {A : Type 0} → ℤ → Statement → Result A → List WriteEntry
  entry_if now s (ok _) = entry_of x format now s.0 s.1 ∷ []
  entry_if now s (err _) = []
  entry_if now s panic = []

  abbrev pub executed : ℤ → Result Statement → State S → List WriteEntry
  executed now (ok s) st = entry_if now s (exec server s.0 s.1 st).0
  executed now (err _) st = []
  executed now panic st = []

  -- What `save` records: the statement, if the server executed it and the entity has an id then.
  abbrev pub numbered : T → ℤ → Statement → Result ℕ → State S → List WriteEntry
  numbered e now s (ok n) st = entry_if now s (assign_id server x format D e n st).0
  numbered e now s (err _) st = []
  numbered e now s panic st = []

  abbrev pub saved : T → ℤ → Result Statement → State S → List WriteEntry
  saved e now (ok s) st = numbered e now s (exec server s.0 s.1 st).0 (exec server s.0 s.1 st).1
  saved e now (err _) st = []
  saved e now panic st = []

  module _ (json : IsJson format) where
    statement-Holds :
        (now : ℤ) (s : Statement) (es : List WriteEntry) (st : State S)
        → are_loggable (map (to_serde x) s.1) ≡ true
        → Holds format es st
        → Holds format
            (es ++ executed now (ok s) st)
            (exec_recorded server x format D now (ok s) st).1
    statement-Holds now s es st loggable h = elim (Result-cases (exec server s.0 s.1 st).0) [
      | inl (n, done) ↦ rw done (record {
        journal = _;
        here = exec_recorded_done server x format D now s.0 s.1 st h.journal h.here n done;
        durable =
            (record_write-IsDurable x format json es h.journal now s.0 s.1 h.durable
              (unfold entry_of in loggable)).1;
      })
      | inr (inl (e, refused)) ↦ rw refused (
          Holds-same format es st _
            (rw (exec_recorded_refused server x format D now s.0 s.1 st h.journal h.here e refused)
              (exec_journal server s.0 s.1 st))
            h)
      | inr (inr panics) ↦ rw panics (
          Holds-same format es st _
            (exec_recorded_panics server x format D now s.0 s.1 st h.journal h.here panics) h)
    ]

    pub built-Holds :
        (now : ℤ) (built : Result Statement) (es : List WriteEntry) (st : State S)
        → binds_no_float x built ≡ true
        → Holds format es st
        → Holds format
            (es ++ executed now built st)
            (exec_recorded server x format D now built st).1
    built-Holds now (ok s) es st floats h = statement-Holds now s es st floats h
    built-Holds now (err e) es st floats h =
        unfold exec_recorded in Holds-same format es st st refl h
    built-Holds now panic es st floats h = unfold exec_recorded in Holds-same format es st st refl h

    -- `save` in the place of `exec_recorded`.
    module _ (now : ℤ) (e : T) (es : List WriteEntry) (st : State S) where
      save_executed-Holds :
          (s : Statement) (n : ℕ)
          → build_upsert_sql x D e ≡ ok s
          → are_loggable (map (to_serde x) s.1) ≡ true
          → (exec server s.0 s.1 st).0 ≡ ok n
          → Holds format es st
          → Holds format
              (es ++ numbered e now s (ok n) (exec server s.0 s.1 st).1)
              (save server x format D now e st).1
      save_executed-Holds s n built loggable done h =
          elim (Result-cases (assign_id server x format D e n (exec server s.0 s.1 st).1).0) [
            | inl (e', assigned) ↦ rw assigned (record {
              journal = _;
              here =
                  save_recorded server x format D now e s st built n done h.journal h.here e'
                    assigned;
              durable =
                  (record_write-IsDurable x format json es h.journal now s.0 s.1 h.durable
                    (unfold entry_of in loggable)).1;
            })
            | inr (inl (d, refused)) ↦ rw refused (
                Holds-same format es st _
                  (save_without_id server x format D now e s st built n done (inl (d, refused))) h)
            | inr (inr panics) ↦ rw panics (
                Holds-same format es st _
                  (save_without_id server x format D now e s st built n done (inr panics)) h)
          ]

      save_built-Holds :
          (s : Statement)
          → build_upsert_sql x D e ≡ ok s
          → are_loggable (map (to_serde x) s.1) ≡ true
          → Holds format es st
          → Holds format (es ++ saved e now (ok s) st) (save server x format D now e st).1
      save_built-Holds s built loggable h = elim (Result-cases (exec server s.0 s.1 st).0) [
        | inl (n, done) ↦ rw done (save_executed-Holds s n built loggable done h)
        | inr (inl (d, refused)) ↦ rw refused (
            Holds-same format es st _
              (save_unexecuted server x format D now e s st built (inl (d, refused))) h)
        | inr (inr panics) ↦ rw panics (
            Holds-same format es st _
              (save_unexecuted server x format D now e s st built (inr panics)) h)
      ]

      pub save-Holds :
          binds_no_float x (build_upsert_sql x D e) ≡ true
          → Holds format es st
          → Holds format
              (es ++ saved e now (build_upsert_sql x D e) st)
              (save server x format D now e st).1
      save-Holds floats h = elim (Result-cases (build_upsert_sql x D e)) [
        | inl (s, built) ↦ rw built (save_built-Holds s built (rw built at floats) h)
        | inr (inl (d, refused)) ↦ rw refused (
            Holds-same format es st _ (save_unbuilt server x format D now e st (inl (d, refused)))
              h)
        | inr (inr panics) ↦
            rw panics
              (Holds-same format es st _ (save_unbuilt server x format D now e st (inr panics)) h)
      ]
