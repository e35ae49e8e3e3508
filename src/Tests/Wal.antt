-- ===== src/Tests/Wal.antt =====
-- Runs of src/wal.rs on a journal file, and each theorem about it at one.
use db233_rust.Wal.Recovery.{
  IsDurable, IsLineOf, record_all, entries_of, replay-record_all, replay_torn,
}
use db233_rust.Wal.Lines.{unlines}
use db233_rust.Wal.Appends.{IsOneLine, record_write-IsOneLine, record_write-stop}
use db233_rust.Wal.{Journal, WriteEntry, entry_of, record_write, replay, stop, to_serde}
use db233_rust.Tests.Externs.{extern}
use db233_rust.Tests.EntryFormats.{format, format-IsJson, unknown_letter, decode_torn}
use db233_rust.Common.{
  ◌≡◌, refl, [], ◌∷◌, ◌++◌, codes, pos, ℤ, List, Text, some, none, true, arith, is_utf8,
}
use db233_rust.Errors.{ok, err, wal_error, fine}
use db233_rust.SqlValue.{Value}

abbrev started : Journal
started = record {
  journal_file = some [];
  pending_file = none;
  buffer = [];
  running = true;
  faults = [];
  spills = 2 ∷ [];
}

started-IsDurable : IsDurable format [] started
unfolding unlines
started-IsDurable = record {
  lines = [];
  are_lines = tt;
  file = refl;
  flushed = refl;
  accepts = refl;
  undisturbed = refl;
}

abbrev writes : List (ℤ × Text × List Value)
writes =
    (pos 1, codes "INSERT", Value.int (pos 5) ∷ Value.bytes (codes "Al") ∷ [])
    ∷ (pos 2, codes "UPDATE", Value.null ∷ [])
    ∷ []

replay-record_all_example :
    replay format (record_all extern format format-IsJson writes started)
    ≡ ok (entries_of extern format format-IsJson writes)
unfolding entry_of to_serde
replay-record_all_example =
    replay-record_all extern format format-IsJson writes [] started started-IsDurable
      (refl, (refl, tt))

abbrev entry : WriteEntry
entry = record { timestamp = pos 1; sql = codes "INSERT"; params = [] }

line : (l : Text) × (format.encode entry ≡ fine l) × IsLineOf format entry l
line = format-IsJson.encodes entry refl

-- One whole line, and a torn one behind it.
abbrev torn : Journal
torn = record started { journal_file = some (unlines (line.0 ∷ []) ++ codes "torn") }

replay_torn_example : replay format torn ≡ err (wal_error unknown_letter)
unfolding is_utf8
replay_torn_example =
    replay_torn format (entry ∷ []) (line.0 ∷ []) (codes "torn") unknown_letter torn (line.2, tt)
      (omega arith) (λ e. cc e) refl decode_torn refl refl

-- The disk is full in the middle of a flush.
abbrev full : Journal
full = record started { faults = none ∷ some (record { message = codes "full"; passed = 3 }) ∷ [] }

record_write-IsOneLine_example :
    IsOneLine line.0 full (record_write extern format (pos 1) (codes "INSERT") [] full)
unfolding entry_of
record_write-IsOneLine_example =
    record_write-IsOneLine extern format (pos 1) (codes "INSERT") [] full line.0 refl line.1

record_write-stop_example :
    record_write extern format (pos 1) (codes "INSERT") [] (stop full).1 ≡ (ok tt, (stop full).1)
record_write-stop_example = record_write-stop extern format (pos 1) (codes "INSERT") [] full
