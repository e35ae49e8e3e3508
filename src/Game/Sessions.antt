-- ===== src/Game/Sessions.antt =====
-- The methods of a repository and of its sessions, called on the repository that src/db.rs has given
-- to its client.
use db233_rust.Common.{ℕ, Option, none, some, get_elem?, set}
use db233_rust.Errors.{Result, panic}
use db233_rust.Session.{Rules, World}
use db233_rust.Session.Repository.{Store}
use db233_rust.Db.{State}
use db233_rust.Game.{Game, Database}

module _ {S L E : Type 0} where
  -- No `Arc` has an address outside the list.
  unfoldable pub in_repository :
      {A : Type 0}
      → ℕ
      → (Store L Database E → Result A × Store L Database E)
      → Game S L E
      → Result A × Game S L E
  in_repository a method g = elim (get_elem? g.repositories a) [
    | none ↦ (panic, g)
    | some st ↦
        let (r, st') = method st in (r, record g { repositories = set g.repositories a st' })
  ]

  -- The session at an address of a store, with the server and the `Db` of the repository.
  unfoldable pub world_of : Store L Database E → Game S L E → ℕ → Option (World (State S) E)
  world_of st g p = elim (get_elem? st.heap p) [
    | none ↦ none
    | some s ↦ some (record {
      session = s;
      counts = st.counts;
      db = record { server = g.server; write_journal = st.db.write_journal };
    })
  ]

  unfoldable pub put_back : ℕ → ℕ → Store L Database E → World (State S) E → Game S L E → Game S L E
  put_back a p st w g = record g {
    server = w.db.server;
    repositories = set g.repositories a (record st {
      heap = set st.heap p w.session;
      counts = w.counts;
      db = record st.db { write_journal = w.db.write_journal };
    });
  }

  unfoldable pub in_session :
      {A : Type 0}
      → ℕ
      → ℕ
      → (Rules → World (State S) E → Result A × World (State S) E)
      → Game S L E
      → Result A × Game S L E
  in_session a p method g = elim (get_elem? g.repositories a) [
    | none ↦ (panic, g)
    | some st ↦ elim (world_of st g p) [
      | none ↦ (panic, g)
      | some w ↦ let (r, w') = method st.repo.rules w in (r, put_back a p st w' g)
    ]
  ]
