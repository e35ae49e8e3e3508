-- ===== src/Wal/Recovery.antt =====
-- What is recorded is replayed: src/wal.rs after any number of writes, and after a torn write.
use db233_rust.Common.{
  ℤ, ◌≡◌, refl, ap, sym, Bool, true, false, List, [], ◌∷◌, ◌++◌, some, map, Text, Lacks, is_utf8,
  append-nil, append_assoc, arith, ◌&&◌, ◌≢◌, take, drop, take-append-drop,
}
use db233_rust.Errors.{ok, err, wal_error, fine, failed, ◌>>=◌, >>=-ok, >>=_assoc}
use db233_rust.SqlValue.{Value}
use db233_rust.Extern.{Extern}
use db233_rust.Wal.{
  ValueSerde, WriteEntry, EntryFormat, Journal, next_fault, later_faults, write_line, flush,
  write_and_flush, entry_of, record_write, lines_from, is_empty, read_entries, replay_file, replay,
  buffer_text, next_spill, later_spills,
}
use db233_rust.Wal.Lines.{
  unlines, AreLines, IsLine, lines_from-unlines, lines_from_last, unlines-append,
}

-- Floats are left out: without its feature `float_roundtrip`, `serde_json` does not promise to read
-- back each float as it was.
abbrev pub is_loggable_value : ValueSerde → Bool
is_loggable_value (ValueSerde.float f) = false
is_loggable_value v = true

abbrev pub are_loggable : List ValueSerde → Bool
are_loggable [] = true
are_loggable (v ∷ vs) = is_loggable_value v && are_loggable vs

-- A line that holds the JSON of an entry, and nothing else.
pub record IsLineOf (format : EntryFormat) (e : WriteEntry) (line : Text) : Type 0 where
  pub decodes : format.decode line ≡ fine e
  pub utf8 : is_utf8 line ≡ true
  pub plain : IsLine line
  pub nonempty : is_empty line ≡ false

-- What the documentation of `serde_json` says of a derived type: JSON text has no control
-- character, and it is read back where no float is in it.
pub record IsJson (format : EntryFormat) : Type 0 where
  pub encodes :
      (e : WriteEntry)
      → are_loggable e.params ≡ true
      → (line : Text) × (format.encode e ≡ fine line) × IsLineOf format e line

module _ (format : EntryFormat) where
  abbrev pub AreLinesOf : List WriteEntry → List Text → Type 0
  AreLinesOf [] [] = Unit
  AreLinesOf [] (l ∷ ls) = ⊥
  AreLinesOf (e ∷ es) [] = ⊥
  AreLinesOf (e ∷ es) (l ∷ ls) = IsLineOf format e l × AreLinesOf es ls

  AreLinesOf-AreLines : (es : List WriteEntry) (ls : List Text) → AreLinesOf es ls → AreLines ls
  AreLinesOf-AreLines [] [] h = tt
  AreLinesOf-AreLines [] (l ∷ ls) h = absurd h
  AreLinesOf-AreLines (e ∷ es) [] h = absurd h
  AreLinesOf-AreLines (e ∷ es) (l ∷ ls) (hl, h) = (hl.plain, AreLinesOf-AreLines es ls h)

  pub AreLinesOf-append :
      (es : List WriteEntry) (ls : List Text) (e : WriteEntry) (l : Text)
      → AreLinesOf es ls
      → IsLineOf format e l
      → AreLinesOf (es ++ e ∷ []) (ls ++ l ∷ [])
  AreLinesOf-append [] [] e l h hl = (hl, tt)
  AreLinesOf-append [] (m ∷ ls) e l h hl = absurd h
  AreLinesOf-append (d ∷ es) [] e l h hl = absurd h
  AreLinesOf-append (d ∷ es) (m ∷ ls) e l (hm, h) hl = (hm, AreLinesOf-append es ls e l h hl)

  -- The lines of a file of entries, and whatever stands behind them.
  read_entries-append :
      (es : List WriteEntry) (ls rest : List Text)
      → AreLinesOf es ls
      → read_entries format (ls ++ rest) []
        ≡ (read_entries format rest [] >>= λ more. ok (es ++ more))
  unfolding read_entries next_fault later_faults
  read_entries-append [] [] rest h = sym (>>=-ok (read_entries format rest []))
  read_entries-append [] (l ∷ ls) rest h = absurd h
  read_entries-append (e ∷ es) [] rest h = absurd h
  read_entries-append (e ∷ es) (l ∷ ls) rest (hl, h) =
      rw (hl.utf8, hl.nonempty, hl.decodes, read_entries-append es ls rest h)
        (>>=_assoc (read_entries format rest []) (λ more. ok (es ++ more)) (λ more. ok (e ∷ more)))

  -- The file holds the lines of the entries, and the writer has nothing left.
  pub record IsDurable (es : List WriteEntry) (j : Journal) : Type 0 where
    pub lines : List Text
    pub are_lines : AreLinesOf es lines
    pub file : j.journal_file ≡ some (unlines lines)
    pub flushed : j.buffer ≡ []
    pub accepts : j.running ≡ true
    pub undisturbed : j.faults ≡ []

  -- What is in the file is replayed, every entry in its order.
  pub replay-IsDurable :
      (es : List WriteEntry) (j : Journal) → IsDurable es j → replay format j ≡ ok es
  unfolding replay replay_file next_fault later_faults
  replay-IsDurable es j d =
      rw
        (
          d.file,
          d.undisturbed,
          ← append-nil (unlines d.lines),
          lines_from-unlines d.lines [] (AreLinesOf-AreLines es d.lines d.are_lines),
          read_entries-append es d.lines _ d.are_lines,
        )
        (unfold lines_from read_entries in ap ok (append-nil es))

-- A write and a flush that meet no fault.
write_and_flush_clean :
    (line c : Text) (j : Journal)
    → j.journal_file ≡ some c
    → j.buffer ≡ []
    → j.faults ≡ []
    → write_and_flush line j ≡ (
      ok tt,
      record j {
        journal_file = some (c ++ (line ++ b'\n' ∷ []));
        buffer = [];
        faults = [];
        spills = later_spills j.spills;
      },
    )
unfolding write_and_flush write_line flush next_fault later_faults buffer_text
write_and_flush_clean line c j file flushed undisturbed = ground (
  arith,
  append_assoc c (take (next_spill j.spills) (line ++ b'\n' ∷ []))
      (drop (next_spill j.spills) (line ++ b'\n' ∷ [])),
  take-append-drop (next_spill j.spills) (line ++ b'\n' ∷ []),
)

module _ {N : Type 0} (x : Extern N) (format : EntryFormat) (json : IsJson format) where
  pub record_write_clean :
      (j : Journal) (now : ℤ) (sql : Text) (params : List Value) (line : Text)
      → j.running ≡ true
      → format.encode (entry_of x format now sql params) ≡ fine line
      → record_write x format now sql params j ≡ write_and_flush line j
  unfolding record_write
  record_write_clean j now sql params line accepts encoded = simp (accepts, encoded)

  -- One write without floats is recorded, and is in the file when the call returns.
  pub record_write-IsDurable :
      (es : List WriteEntry) (j : Journal) (now : ℤ) (sql : Text) (params : List Value)
      → IsDurable format es j
      → are_loggable (entry_of x format now sql params).params ≡ true
      → ((record_write x format now sql params j).0 ≡ ok tt)
        × IsDurable format
            (es ++ entry_of x format now sql params ∷ [])
            (record_write x format now sql params j).1
  unfolding unlines
  record_write-IsDurable es j now sql params d loggable =
      let entry = entry_of x format now sql params in
      let (line, encoded, holds) = json.encodes entry loggable in
      rw
        (
          record_write_clean j now sql params line d.accepts encoded,
          write_and_flush_clean line (unlines d.lines) j d.file d.flushed d.undisturbed,
        )
        (
          refl,
          record {
            lines = d.lines ++ line ∷ [];
            are_lines = AreLinesOf-append format es d.lines entry line d.are_lines holds;
            file = ap some (sym (unlines-append d.lines (line ∷ [])));
            flushed = refl;
            accepts = d.accepts;
            undisturbed = refl;
          },
        )

  -- One call of `record_write`: its time, its statement and its parameters.
  abbrev pub Write : Type 0
  Write = ℤ × Text × List Value

  unfoldable pub record_all : List Write → Journal → Journal
  record_all [] j = j
  record_all ((now, sql, params) ∷ ws) j = record_all ws (record_write x format now sql params j).1

  abbrev pub entries_of : List Write → List WriteEntry
  entries_of = map (λ w. entry_of x format w.0 w.1 w.2)

  abbrev pub AreLoggable : List Write → Type 0
  AreLoggable [] = Unit
  AreLoggable (w ∷ ws) =
      (are_loggable (entry_of x format w.0 w.1 w.2).params ≡ true) × AreLoggable ws

  record_all-IsDurable :
      (ws : List Write) (es : List WriteEntry) (j : Journal)
      → IsDurable format es j
      → AreLoggable ws
      → IsDurable format (es ++ entries_of ws) (record_all ws j)
  unfolding record_all
  record_all-IsDurable [] es j d h = rw append-nil d
  record_all-IsDurable ((now, sql, params) ∷ ws) es j d (hw, h) =
      let (_, d') = record_write-IsDurable es j now sql params d hw in
      rw (← append_assoc es (entry_of x format now sql params ∷ []) (entries_of ws))
        (record_all-IsDurable ws _ _ d' h)

  -- On a journal that holds the lines of some entries, with no fault to come: after any writes
  -- without floats, a replay gives the old entries and then those writes, each once and in order.
  pub replay-record_all :
      (ws : List Write) (es : List WriteEntry) (j : Journal)
      → IsDurable format es j
      → AreLoggable ws
      → replay format (record_all ws j) ≡ ok (es ++ entries_of ws)
  replay-record_all ws es j d h =
      replay-IsDurable format (es ++ entries_of ws) (record_all ws j)
        (record_all-IsDurable ws es j d h)

torn_fails :
    (format : EntryFormat) (torn message : Text)
    → torn ≢ []
    → is_utf8 torn ≡ true
    → format.decode torn ≡ failed message
    → read_entries format (torn ∷ []) [] ≡ err (wal_error message)
unfolding read_entries next_fault later_faults
torn_fails format [] message ne utf8 bad = absurd (ne refl)
torn_fails format (b ∷ s) message ne utf8 bad = rw (utf8, bad)

-- A file that ends in the middle of a line: the journal holds the lines of some entries, and behind
-- them a torn line, which is text but no JSON of an entry. A replay returns none of the entries; it
-- fails with a WAL error.
pub replay_torn :
    (format : EntryFormat) (es : List WriteEntry) (ls : List Text) (torn message : Text)
    (j : Journal)
    → AreLinesOf format es ls
    → Lacks b'\n' torn
    → torn ≢ []
    → is_utf8 torn ≡ true
    → format.decode torn ≡ failed message
    → j.journal_file ≡ some (unlines ls ++ torn)
    → j.faults ≡ []
    → replay format j ≡ err (wal_error message)
unfolding replay replay_file next_fault later_faults
replay_torn format es ls torn message j h lacks ne utf8 bad file undisturbed = rw (
  file,
  undisturbed,
  lines_from-unlines ls torn (AreLinesOf-AreLines format es ls h),
  lines_from_last torn [] lacks ne,
  read_entries-append format es ls (torn ∷ []) h,
  torn_fails format torn message ne utf8 bad,
)
