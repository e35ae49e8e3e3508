-- ===== src/Game/Closed.antt =====
-- What `close` of src/db.rs leaves, and what a write behind it does.
use db233_rust.Common.{ℕ, ℤ, ◌≡◌, refl, some, arith, get_elem?, set, get_elem?-set}
use db233_rust.Errors.{ok}
use db233_rust.Extern.{Extern}
use db233_rust.Entity.{DbEntity}
use db233_rust.Orm.Build.{Statement, build_update_sql}
use db233_rust.Wal
use db233_rust.Wal.{Journal, EntryFormat, record_write}
use db233_rust.Wal.Appends.{record_write-stop}
use db233_rust.Session.Lru.{Lru}
use db233_rust.Session.Repository.{Store, flush_all}
use db233_rust.Session.Repository.History.{IsValid}
use db233_rust.Session.Repository.Flushed.{AreFlushed, flush_all_lem}
use db233_rust.Db.{Server, State, exec, exec_recorded, record_statement, update}
use db233_rust.Db.Journaled.{exec_journal}
use db233_rust.Game.{Environment, Database, Game, close, flush_repository, stop_journal, state_of}

-- The journal takes no notice of a statement that was executed after `stop`.
update-stopped :
    {N T S : Type 0} (server : Server S) (x : Extern N) (format : EntryFormat) (D : DbEntity N T)
    (now : ℤ) (entity : T) (s : Statement) (st : State S) (j : Journal) (n : ℕ)
    → build_update_sql x D entity ≡ ok s
    → st.write_journal ≡ some (Wal.stop j).1
    → (exec server s.0 s.1 st).0 ≡ ok n
    → update server x format D now entity st ≡ (ok n, (exec server s.0 s.1 st).1)
unfolding update exec_recorded record_statement
update-stopped server x format D now entity s st j n built journal done =
    ground (arith, exec_journal server s.0 s.1 st, record_write-stop x format now s.0 s.1 j)

module _ {S Settings L E : Type 0} (env : Environment S Settings) (server : Server S) (lru : Lru L)
    (g : Game S L E) (a : ℕ) (st : Store L Database E) (j : Journal)
    (repo : g.db.session_repo ≡ some a) (at_a : get_elem? g.repositories a ≡ some st)
    (journal : g.db.write_journal ≡ some j) where
  flush_repository_lem : flush_repository env server lru g ≡ (
    (flush_all lru st).0,
    record g { repositories = set g.repositories a (flush_all lru st).1 },
  )
  unfolding flush_repository
  flush_repository_lem = ground arith

  -- With a repository and a journal, all of whose sessions flush.
  close_lem :
      IsValid lru st
      → close env server lru g ≡ (
        (Wal.stop j).0,
        record g {
          db = record g.db { write_journal = some (Wal.stop j).1 };
          repositories = set g.repositories a (flush_all lru st).1;
        },
      )
  unfolding close stop_journal
  close_lem v = ground (arith, flush_repository_lem, (flush_all_lem lru st v).0)

  -- On a database with a repository that is valid and a journal: `close` answers what the stop of the
  -- journal answers, and leaves no cached session with a dirty type. The database can still be used:
  -- an update that the server executes afterwards answers `Ok`, and is not recorded.
  pub close-update :
      {N T : Type 0} (x : Extern N) (format : EntryFormat) (D : DbEntity N T)
      → IsValid lru st
      → let g' = (close env server lru g).1 in
        ((close env server lru g).0 ≡ (Wal.stop j).0)
        × ((st' : Store L Database E) × (get_elem? g'.repositories a ≡ some st')
            × AreFlushed lru (lru.iter st.repo.sessions) st st')
        × ((now : ℤ) (entity : T) (s : Statement) (n : ℕ)
            → build_update_sql x D entity ≡ ok s
            → (exec server s.0 s.1 (state_of env server lru g')).0 ≡ ok n
            → update server x format D now entity (state_of env server lru g')
              ≡ (ok n, (exec server s.0 s.1 (state_of env server lru g')).1))
  close-update x format D v = rw (close_lem v) (
    refl,
    (
      (flush_all lru st).1,
      ground (arith, get_elem?-set g.repositories a a (flush_all lru st).1),
      (flush_all_lem lru st v).1,
    ),
    λ now entity s n built done.
        update-stopped server x format D now entity s _ j n built refl done,
  )
