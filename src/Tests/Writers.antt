-- ===== src/Tests/Writers.antt =====
-- Calls of src/db.rs that cut into one another, at concrete inputs.
use mathlib.Core.List.{Perm}
use db233_rust.Wal.Interleaved.Complete.{logged_of}
use db233_rust.Db.Interleaved.Complete.{executed}
use db233_rust.Db.Interleaved.Executed.{turns-executed}
use db233_rust.Db.Interleaved.Replayed.{BindNoFloat, recorded, turns-replay}
use db233_rust.Db.Interleaved.Finished.{HaveReturned, turns-finish}
use db233_rust.Db.Interleaved.Raced.{overtaking, update-reordered}
use db233_rust.Db.Interleaved.Numbered.{saving}
use db233_rust.Db.Interleaved.{Call, Answer, Thread, Turn, Calls, begin, begun, turns, writer_at}
use db233_rust.Wal.Interleaved.{Shared}
use db233_rust.Wal.Interleaved.Held.{holds}
use db233_rust.Db.{Server, exec, connect, connection_exec}
use db233_rust.Wal.Lines.{unlines}
use db233_rust.Wal.Recovery.{IsDurable, are_loggable}
use db233_rust.Wal.{WriteEntry, entry_of, to_serde, replay}
use db233_rust.Tests.Db.{logging, empty_journal}
use db233_rust.Tests.Orm.{users, update_old, update_renamed, numbered_users}
use db233_rust.Tests.Externs.{extern}
use db233_rust.Tests.EntryFormats.{format, format-IsJson}
use db233_rust.SqlValue.{Value}
use db233_rust.Errors.{ok, fine}
use db233_rust.Common.{
  ◌≡◌, refl, ap, sym, subst, ◌∙◌, ℕ, zero, suc, pos, List, [], ◌∷◌, Text, codes, some, none, map,
  true, false,
}

-- Two updates of one user: the server ends with the second name, and a replay with the first.
abbrev two_updates : List (Call (ℕ × Text))
two_updates = Call.updates (5, codes "Al") ∷ Call.updates (5, codes "Bo") ∷ []

abbrev sql : Text
sql = codes "UPDATE users SET name = ? WHERE id = ?"

abbrev first : List Value
first = Value.bytes (codes "Al") ∷ Value.int (pos 5) ∷ []

abbrev second : List Value
second = Value.bytes (codes "Bo") ∷ Value.int (pos 5) ∷ []

empty-IsDurable : IsDurable format [] empty_journal
unfolding unlines
empty-IsDurable = record {
  lines = [];
  are_lines = tt;
  file = refl;
  flushed = refl;
  accepts = refl;
  undisturbed = refl;
}

abbrev start : Calls (ℕ × Text) (List Text)
start = begun logging extern format users two_updates [] empty_journal

abbrev schedule : List (Turn (List Text))
schedule = overtaking logging extern format users (pos 1) (pos 2)

abbrev threads : List (Thread (ℕ × Text))
threads = Thread.returned (Answer.counted (ok 1)) ∷ Thread.returned (Answer.counted (ok 1)) ∷ []

executes_one :
    (values : List Value) (s : List Text)
    → exec logging sql values (record { server = s; write_journal = none })
      ≡ (ok 1, record { server = sql ∷ s; write_journal = none })
unfolding exec connect connection_exec
executes_one values s = refl

first_loggable : are_loggable (entry_of extern format (pos 2) sql first).params ≡ true
unfolding entry_of to_serde
first_loggable = refl

second_loggable : are_loggable (entry_of extern format (pos 1) sql second).params ≡ true
unfolding entry_of to_serde
second_loggable = refl

update-reordered_example :
    (shared : Shared) × (turns logging extern format users schedule start
      ≡ record { threads = threads; server = sql ∷ sql ∷ []; write_journal = some shared })
    × (replay format shared.journal
        ≡ ok (
            entry_of extern format (pos 1) sql second
            ∷ entry_of extern format (pos 2) sql first
            ∷ []))
update-reordered_example =
    update-reordered logging extern format users format-IsJson (5, codes "Al") (5, codes "Bo")
      (sql, first) (sql, second) 1 1 [] [] _ _ empty_journal (pos 1) (pos 2) update_old
      update_renamed first_loggable second_loggable empty-IsDurable (executes_one first [])
      (executes_one second (sql ∷ []))

no_float : BindNoFloat logging extern format users two_updates
unfolding begin to_serde
no_float = (rw update_old refl, (rw update_renamed refl, tt))

-- All have returned behind that schedule.
all_outside :
    (i : ℕ) → holds (writer_at (turns logging extern format users schedule start).threads i) ≡ false
all_outside i =
    let run =
      update-reordered logging extern format users format-IsJson (5, codes "Al") (5, codes "Bo")
        (sql, first) (sql, second) 1 1 [] [] _ _ empty_journal (pos 1) (pos 2) update_old
        update_renamed first_loggable second_loggable empty-IsDurable (executes_one first [])
        (executes_one second (sql ∷ [])) in
    ap (λ (c : Calls (ℕ × Text) (List Text)). holds (writer_at c.threads i)) run.1 ∙ outside i
  where
    outside : (i : ℕ) → holds (writer_at threads i) ≡ false
    outside zero = refl
    outside (suc zero) = refl
    outside (suc (suc i)) = refl

turns-replay_example :
    (shared : Shared) × ((turns logging extern format users schedule start).write_journal
      ≡ some shared)
    × (replay format shared.journal ≡ ok (recorded logging extern format users schedule start))
turns-replay_example =
    turns-replay logging extern format users format-IsJson two_updates [] [] empty_journal schedule
      no_float empty-IsDurable all_outside

-- Both updates are in the journal in the end, though not in the order of the server.
all_returned : HaveReturned (turns logging extern format users schedule start).threads
all_returned =
    let run =
      update-reordered logging extern format users format-IsJson (5, codes "Al") (5, codes "Bo")
        (sql, first) (sql, second) 1 1 [] [] _ _ empty_journal (pos 1) (pos 2) update_old
        update_renamed first_loggable second_loggable empty-IsDurable (executes_one first [])
        (executes_one second (sql ∷ [])) in
    subst HaveReturned (sym (ap (λ (c : Calls (ℕ × Text) (List Text)). c.threads) run.1)) returned
  where
    returned : HaveReturned threads
    returned zero t here = (Answer.counted (ok 1), cc)
    returned (suc zero) t here = (Answer.counted (ok 1), cc)
    returned (suc (suc i)) t here = cc

turns-executed_example :
    (more : List WriteEntry) × (shared : Shared) × ((turns logging extern format users schedule
        start).write_journal
      ≡ some shared)
    × (replay format shared.journal ≡ ok more)
    × Perm (executed logging extern format users schedule start) (map logged_of more)
turns-executed_example =
    turns-executed logging extern format users format-IsJson two_updates [] [] empty_journal
      schedule no_float (tt, (tt, tt)) empty-IsDurable all_returned

turns-finish_example :
    (vs : List (Turn (List Text))) × HaveReturned
      (turns logging extern format users vs (
        turns logging extern format users
          (Turn.goes 0 (pos 1) ∷ Turn.goes 0 (pos 2) ∷ [])
          start)).threads
turns-finish_example =
    turns-finish logging extern format users format-IsJson two_updates [] [] empty_journal
      (Turn.goes 0 (pos 1) ∷ Turn.goes 0 (pos 2) ∷ []) no_float empty-IsDurable

-- A server that numbers what it inserts on its one connection, and tells the last id.
abbrev numbering : Server ℕ
numbering = record {
  get_conn = λ last. (fine 1, last);
  exec_map = λ conn sql values last.
      (fine (((codes "LAST_INSERT_ID()", some (Value.int (pos last))) ∷ []) ∷ []), last);
  exec_drop = λ conn sql values last. (fine tt, suc last);
  ping = λ conn last. (fine tt, last);
  in_order = map (λ e. e.1);
}

abbrev upsert_sql : Text
upsert_sql =
    codes
      "INSERT INTO users (created_at, name) VALUES (?, ?) ON DUPLICATE KEY UPDATE name = VALUES(name)"

abbrev values : Text → List Value
values name = Value.int (pos 7) ∷ Value.bytes name ∷ []

abbrev two_saves : Calls (ℕ × Text) ℕ
two_saves =
    saving numbering extern format numbered_users (0, codes "Al") (0, codes "Bo") 6
      (some (record { journal = empty_journal; locked = false }))
