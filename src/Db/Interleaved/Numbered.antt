-- ===== src/Db/Interleaved/Numbered.antt =====
-- Two calls of `save` of src/db.rs that each ask for the last id after both have inserted.
use db233_rust.Common.{ℕ, ℤ, pos, ◌≡◌, List, [], ◌∷◌, Option, none, some, map, Text}
use db233_rust.Errors.{ok, fine}
use db233_rust.SqlValue.{Value}
use db233_rust.Extern.{Extern}
use db233_rust.Entity.{DbEntity}
use db233_rust.Orm.Build.{Statement, build_upsert_sql}
use db233_rust.Wal.{EntryFormat}
use db233_rust.Wal.Interleaved.{Shared}
use db233_rust.Db.{Server, State, exec}
use db233_rust.Db.Saved.{last_insert_id_sql}
use db233_rust.Db.Interleaved.{Answer, Thread, Calls, Turn, Call, begin, turns}

-- What MySQL documents of `LAST_INSERT_ID()`, on a pool that hands its one idle connection `conn` to
-- each statement: it is the id that the last insert on that connection was given, in `last`, and
-- neither handing out the connection nor asking changes it.
pub record IsOneConnection {S : Type 0} (server : Server S) (conn : ℕ) (last : S → ℤ) : Type 0 where
  pub hands : (s : S) → (server.get_conn s).0 ≡ fine conn
  pub hands_keeps : (s : S) → last (server.get_conn s).1 ≡ last s
  pub column : Text
  pub tells :
      (s : S)
      → (server.exec_map conn last_insert_id_sql [] s).0
        ≡ fine (((column, some (Value.int (last s))) ∷ []) ∷ [])
  pub tells_keeps : (s : S) → last (server.exec_map conn last_insert_id_sql [] s).1 ≡ last s
  pub orders : (v : Value) → server.in_order ((column, v) ∷ []) ≡ v ∷ []

-- What a call answers if the journal does not fail, once that is known.
abbrev pub answer_in : {T : Type 0} → Thread T → Option (Answer T)
answer_in (Thread.sends built goal) = none
answer_in (Thread.numbers s e n) = none
answer_in (Thread.records a w) = some a
answer_in (Thread.returned a) = some a

module _ {N T S : Type 0} (server : Server S) (x : Extern N) (format : EntryFormat)
    (D : DbEntity N T) where
  abbrev state : S → State S
  state s = record { server = s; write_journal = none }

  -- The calls go on in this order.
  abbrev pub goes_of : List ℕ → List (Turn S)
  goes_of is = map (λ i. Turn.goes i (pos 0)) is

  -- The answers that are known then.
  abbrev pub answers_after : List ℕ → Calls T S → List (Option (Answer T))
  answers_after is c = map answer_in (turns server x format D (goes_of is) c).threads

  -- Two saves that begin at once.
  abbrev pub saving : T → T → S → Option Shared → Calls T S
  saving a b s journal = record {
    threads = map (begin server x format D) (Call.saves a ∷ Call.saves b ∷ []);
    server = s;
    write_journal = journal;
  }

  module _ (conn : ℕ) (last : S → ℤ) (one : IsOneConnection server conn last) where
    -- The server after it has told the last id.
    abbrev told : S → S
    told s = (server.exec_map conn last_insert_id_sql [] (server.get_conn s).1).1

    module _ (a b : T) (sa sb : Statement) (n m : ℕ) (s : S) (st st' : State S)
        (journal : Option Shared) (built_a : build_upsert_sql x D a ≡ ok sa)
        (built_b : build_upsert_sql x D b ≡ ok sb) (new_a : D.primary_key_value a ≡ pos 0)
        (new_b : D.primary_key_value b ≡ pos 0)
        (done_a : exec server sa.0 sa.1 (state s) ≡ (ok n, st))
        (done_b : exec server sb.0 sb.1 (state st.server) ≡ (ok m, st')) where
      abbrev calls_at : List (Thread T) → S → Calls T S
      calls_at ts srv = record { threads = ts; server = srv; write_journal = journal }
