-- ===== src/Wal.antt =====
-- src/wal.rs: the journal, its file and the entries in it. Every access to the file system may fail
-- as the list of faults says, after a part of its bytes.
pub mod Values
pub mod Lines
pub mod Recovery
pub mod Appends
pub mod Interleaved
use db233_rust.Common.{
  ℕ, ℤ, ◌==◌, Bool, true, false, List, [], ◌∷◌, ◌++◌, Option, none, some, map, Text, codes, take,
  drop, is_utf8, if◌then◌else◌, not,
}
use db233_rust.Errors.{Result, ok, err, panic, Outcome, map_err, wal_error, ◌>>=◌}
use db233_rust.SqlValue
use db233_rust.SqlValue.{Value}
use db233_rust.Extern.{Extern}
use db233_rust.Orm.{date_text, time_text}

pub data ValueSerde : Type 0 where
  null : ValueSerde
  int : ℤ → ValueSerde
  uint : ℕ → ValueSerde
  float : ℕ → ValueSerde
  bytes : Text → ValueSerde

pub record WriteEntry : Type 0 where
  pub timestamp : ℤ
  pub sql : Text
  pub params : List ValueSerde

-- `serde_json::to_string` and `serde_json::from_str` at `WriteEntry`, which serde derives.
pub record EntryFormat : Type 0 where
  pub encode : WriteEntry → Outcome Text
  pub decode : Text → Outcome WriteEntry

-- A failing access: its message, and how many bytes went through before it failed.
pub record Fault : Type 0 where
  pub message : Text
  pub passed : ℕ

-- The journal's directory (`none` where a file does not exist), the writer's buffer, the `running`
-- flag, what becomes of the accesses to come, where the end of the list means no fault, and how many
-- bytes of a full buffer the `BufWriter` passes on by itself in the writes to come.
pub record Journal : Type 0 where
  pub journal_file : Option Text
  pub pending_file : Option Text
  pub buffer : Text
  pub running : Bool
  pub faults : List (Option Fault)
  pub spills : List ℕ

-- What the next access meets, and what the accesses behind it meet.
unfoldable pub next_fault : List (Option Fault) → Option Fault
next_fault [] = none
next_fault (f ∷ fs) = f

unfoldable pub later_faults : List (Option Fault) → List (Option Fault)
later_faults [] = []
later_faults (f ∷ fs) = fs

unfoldable pub next_spill : List ℕ → ℕ
next_spill [] = 0
next_spill (n ∷ ns) = n

unfoldable pub later_spills : List ℕ → List ℕ
later_spills [] = []
later_spills (n ∷ ns) = ns

module _ {N : Type 0} (x : Extern N) where
  -- `From<Value> for ValueSerde`
  unfoldable pub to_serde : Value → ValueSerde
  to_serde Value.null = ValueSerde.null
  to_serde (Value.int i) = ValueSerde.int i
  to_serde (Value.uint u) = ValueSerde.uint u
  to_serde (Value.float f) = ValueSerde.float (x.widen f)
  to_serde (Value.double f) = ValueSerde.float f
  to_serde (Value.date y m d hh mm ss _) = ValueSerde.bytes (date_text y m d hh mm ss)
  to_serde (Value.time _ _ hh mm ss _) = ValueSerde.bytes (time_text hh mm ss)
  to_serde (Value.bytes b) = ValueSerde.bytes b

  -- `From<ValueSerde> for Value`
  unfoldable pub from_serde : ValueSerde → Value
  from_serde ValueSerde.null = Value.null
  from_serde (ValueSerde.int i) = Value.int i
  from_serde (ValueSerde.uint u) = Value.uint u
  from_serde (ValueSerde.float f) = Value.float (x.narrow f)
  from_serde (ValueSerde.bytes b) = Value.bytes b

-- `OpenOptions::create(true)`
abbrev pub created : Option Text → Option Text
created none = some []
created (some c) = some c

-- What reaches the open file is appended to it.
abbrev pub appended : Option Text → Text → Option Text
appended none s = none
appended (some c) s = some (c ++ s)

-- `LocalWriteJournal::new` over the files of the directory: the directory, then the file.
unfoldable pub new : Option Text → Option Text → List (Option Fault) → List ℕ → Result Journal
unfolding next_fault later_faults
new journal_file pending_file faults spills = elim (next_fault faults) [
  | some f ↦ err (wal_error f.message)
  | none ↦ elim (next_fault (later_faults faults)) [
    | some f ↦ err (wal_error f.message)
    | none ↦ ok (record {
      journal_file = created journal_file;
      pending_file = pending_file;
      buffer = [];
      running = true;
      faults = later_faults (later_faults faults);
      spills = spills;
    })
  ]
]

-- The buffer takes a text, and passes on what the next spill says.
unfoldable pub buffer_text : Text → Journal → Journal
buffer_text text j =
    let buffer = j.buffer ++ text in
    record j {
      journal_file = appended j.journal_file (take (next_spill j.spills) buffer);
      buffer = drop (next_spill j.spills) buffer;
      faults = later_faults j.faults;
      spills = later_spills j.spills;
    }

-- `writeln!(writer, "{}", line)`
unfoldable pub write_line : Text → Journal → Result (Unit {0}) × Journal
write_line line j = elim (next_fault j.faults) [
  | none ↦ (ok tt, buffer_text (line ++ b'\n' ∷ []) j)
  | some f ↦ (err (wal_error f.message), buffer_text (take f.passed (line ++ b'\n' ∷ [])) j)
]

-- `writer.flush()`
unfoldable pub flush : Journal → Result (Unit {0}) × Journal
flush j =
    let j' = record j { faults = later_faults j.faults } in
    elim (next_fault j.faults) [
      | none ↦ (ok tt, record j' { journal_file = appended j.journal_file j.buffer; buffer = [] })
      | some f ↦ (
        err (wal_error f.message),
        record j' {
          journal_file = appended j.journal_file (take f.passed j.buffer);
          buffer = drop f.passed j.buffer;
        },
      )
    ]

-- The write and the flush of one line.
unfoldable pub write_and_flush : Text → Journal → Result (Unit {0}) × Journal
write_and_flush line j =
    let (r, j') = write_line line j in
    elim r [ ok _ ↦ flush j' | err e ↦ (err e, j') | panic ↦ (panic, j') ]

module _ {N : Type 0} (x : Extern N) (format : EntryFormat) where
  -- The entry of one write, at the time `now`.
  unfoldable pub entry_of : ℤ → Text → List Value → WriteEntry
  entry_of now sql params = record { timestamp = now; sql = sql; params = map (to_serde x) params }

  unfoldable pub record_write : ℤ → Text → List Value → Journal → Result (Unit {0}) × Journal
  record_write now sql params j =
      if j.running
      then elim (map_err wal_error (format.encode (entry_of now sql params))) [
        | ok json_str ↦ write_and_flush json_str j
        | err e ↦ (err e, j)
        | panic ↦ (panic, j)
      ]
      else (ok tt, j)

unfoldable pub stop : Journal → Result (Unit {0}) × Journal
stop j = flush (record j { running = false })

-- `BufRead::lines`: the bytes between line feeds, without the carriage return before one.
pub strip_cr : Text → Text
strip_cr [] = []
strip_cr (b ∷ s) = elim s [ [] ↦ if b == b'\r' then [] else b ∷ [] | c ∷ t ↦ b ∷ strip_cr s ]

unfoldable pub lines_from : Text → Text → List Text
unfolding strip_cr
lines_from [] [] = []
lines_from (b ∷ cur) [] = (b ∷ cur) ∷ []
lines_from cur (b ∷ s) = elim (b == b'\n') [
  | true ↦ strip_cr cur ∷ lines_from [] s
  | false ↦ lines_from (cur ++ b ∷ []) s
]

abbrev pub is_empty {ℓ} : {A : Type ℓ} → List A → Bool
is_empty [] = true
is_empty (a ∷ l) = false

abbrev invalid_utf8 : Text
invalid_utf8 = codes "stream did not contain valid UTF-8"

module _ (format : EntryFormat) where
  -- `for line in reader.lines()`, with the faults to come.
  unfoldable pub read_entries : List Text → List (Option Fault) → Result (List WriteEntry)
  read_entries [] faults = ok []
  read_entries (line ∷ rest) faults = elim (next_fault faults) [
    | some f ↦ err (wal_error f.message)
    | none ↦
        let entries = read_entries rest (later_faults faults) in
        if not (is_utf8 line)
        then err (wal_error invalid_utf8)
        else if is_empty line
        then entries
        else (map_err wal_error (format.decode line) >>= λ entry.
            entries >>= λ more. ok (entry ∷ more))
  ]

  -- Both replays: of no file there is nothing to read.
  unfoldable pub replay_file : Option Text → List (Option Fault) → Result (List WriteEntry)
  replay_file none faults = ok []
  replay_file (some content) faults = elim (next_fault faults) [
    | some f ↦ err (wal_error f.message)
    | none ↦ read_entries (lines_from [] content) (later_faults faults)
  ]

  unfoldable pub replay : Journal → Result (List WriteEntry)
  replay j = replay_file j.journal_file j.faults

  unfoldable pub replay_pending : Journal → Result (List WriteEntry)
  replay_pending j = replay_file j.pending_file j.faults

-- `fs::remove_file`, where a missing file is no error.
unfoldable pub clear_pending : Journal → Result (Unit {0}) × Journal
clear_pending j = elim j.pending_file [
  | none ↦ (ok tt, j)
  | some _ ↦
      let j' = record j { faults = later_faults j.faults } in
      elim (next_fault j.faults) [
        | none ↦ (ok tt, record j' { pending_file = none })
        | some f ↦ (err (wal_error f.message), j')
      ]
]
