-- ===== src/Tests/Db.antt =====
-- Runs of src/db.rs against a server that logs what it executes, and each theorem about it at one.
use db233_rust.NamedParams.Laws.{IsBound, replace_named_parameters-ok_iff}
use db233_rust.NamedParams.Template.{template, is_closed, positional, names}
use db233_rust.Tests.NamedParams.{user_query, params, replaced, bound, runs}
use db233_rust.Db.Held.{Holds}
use db233_rust.Db.History.{Call, calls, recorded_all, replay-calls}
use db233_rust.Db.{
  Server, State, connect, connection_exec, exec, exec_rows, exec_update_multi_rows_named,
  connection_ping,
}
use db233_rust.Wal.Lines.{unlines}
use db233_rust.Wal.{
  Journal, record_write, entry_of, to_serde, write_and_flush, write_line, replay, next_fault,
  later_faults,
}
use db233_rust.Orm.Build.{Statement}
use db233_rust.NamedParams.{replace_named_parameters, build_batch_named_params, find, batch_rows}
use db233_rust.Tests.Orm.{users, update_old, batch_of_two, upsert_old}
use db233_rust.Tests.Externs.{extern}
use db233_rust.Tests.EntryFormats.{format, format-IsJson}
use db233_rust.SqlValue.{Value}
use db233_rust.Errors.{ok, err, fine, wal_error}
use db233_rust.Common.{
  ◌≡◌, refl, ℕ, pos, List, [], ◌∷◌, Text, codes, some, none, true, map, arith, Map, dec_lt,
}

-- The server logs the statements that it executes, and finds nothing.
abbrev pub logging : Server (List Text)
logging = record {
  get_conn = λ log. (fine 1, log);
  exec_map = λ conn sql values log. (fine [], log);
  exec_drop = λ conn sql values log. (fine tt, sql ∷ log);
  ping = λ conn log. (fine tt, log);
  in_order = map (λ e. e.1);
}

abbrev pub empty_journal : Journal
empty_journal = record {
  journal_file = some [];
  pending_file = none;
  buffer = [];
  running = true;
  faults = [];
  spills = [];
}

abbrev start : State (List Text)
start = record { server = []; write_journal = some empty_journal }

start-Holds : Holds format [] start
unfolding unlines
start-Holds = record {
  journal = empty_journal;
  here = refl;
  durable = record {
    lines = [];
    are_lines = tt;
    file = refl;
    flushed = refl;
    accepts = refl;
    undisturbed = refl;
  };
}

executes_all :
    (sql : Text) (values : List Value) (log : List Text)
    → (exec logging sql values (record start { server = log })).0 ≡ ok 1
unfolding exec connect connection_exec
executes_all sql values log = refl

pings : connection_ping logging 1 start ≡ (ok tt, start)
unfolding connection_ping
pings = refl

abbrev history : List (Call (ℕ × Text))
history =
    Call.updates (pos 1) (5, codes "Al")
    ∷ Call.deletes (5, codes "Al")
    ∷ Call.saves_batch (pos 2) (5, codes "Al") ((6, codes "Bo") ∷ [])
    ∷ Call.saves (pos 3) (5, codes "Al")
    ∷ Call.executes_rows (codes "DELETE FROM users") []
    ∷ Call.executes (codes "DELETE FROM users") []
    ∷ []

replay-calls_example :
    (j : Journal) × ((calls logging extern format users history start).write_journal ≡ some j)
    × (replay format j ≡ ok (recorded_all logging extern format users history start))
unfolding to_serde
replay-calls_example =
    replay-calls logging extern format users format-IsJson history [] start
      (rw update_old refl, (rw batch_of_two refl, (rw upsert_old refl, tt))) start-Holds

-- A journal whose disk is full.
abbrev full : State (List Text)
full = record start {
  write_journal =
      some (record empty_journal {
        faults = some (record { message = codes "full"; passed = 0 }) ∷ [];
      });
}

abbrev old : Statement
old = (
  codes "UPDATE users SET name = ? WHERE id = ?",
  Value.bytes (codes "Al") ∷ Value.int (pos 5) ∷ [],
)

disk_full :
    (j : Journal)
    → full.write_journal ≡ some j
    → (record_write extern format (pos 1) old.0 old.1 j).0 ≡ err (wal_error (codes "full"))
unfolding record_write write_and_flush write_line next_fault later_faults entry_of to_serde
disk_full j e =
    let (line, encoded, _) =
      format-IsJson.encodes (entry_of extern format (pos 1) old.0 old.1) refl in
    ground arith

abbrev rows : List (Map Value)
rows = [] ∷ [] ∷ []

two_rows : (exec_update_multi_rows_named logging (codes "DELETE FROM users") rows start).0 ≡ ok 2
unfolding exec_update_multi_rows_named exec_rows exec connect connection_exec
    build_batch_named_params replace_named_parameters dec_lt find batch_rows
two_rows = refl

closed_and_bound :
    (is_closed (template user_query) ≡ true)
    × (replaced ≡ positional (template user_query))
    × IsBound params (names (template user_query)) bound
closed_and_bound = (replace_named_parameters-ok_iff user_query params replaced bound).0 runs

-- A database without a journal.
abbrev unlogged : State (List Text)
unlogged = record start { write_journal = none }

abbrev upsert : Text
upsert =
    codes
      "INSERT INTO users (created_at, id, name) VALUES (?, ?, ?) ON DUPLICATE KEY UPDATE name = VALUES(name)"
