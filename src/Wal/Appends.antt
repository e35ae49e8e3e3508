-- ===== src/Wal/Appends.antt =====
-- What one write puts into the journal file, whatever faults src/wal.rs meets, and after `stop`.
use db233_rust.Common.{
  ℤ, ◌≡◌, refl, ap, sym, ◌∙◌, List, [], ◌∷◌, ◌++◌, Option, none, some, Text, append-nil,
  append_assoc, arith, take, drop, take-append-drop, Option-cases, inl, inr,
}
use db233_rust.Errors.{Result, ok, err, wal_error, fine}
use db233_rust.Common.{◌⊎◌, true, subst}
use db233_rust.SqlValue.{Value}
use db233_rust.Extern.{Extern}
use db233_rust.Wal.{
  EntryFormat, Journal, appended, write_line, flush, write_and_flush, record_write, stop,
  next_fault, entry_of, buffer_text, next_spill,
}

appended-append :
    (file : Option Text) (s t : Text) → appended (appended file s) t ≡ appended file (s ++ t)
appended-append none s t = refl
appended-append (some c) s t = ap some (append_assoc c s t)

-- A line that is whole in the file behind what the file and the buffer had, with nothing left to
-- flush.
pub record IsWritten (line : Text) (j k : Journal) : Type 0 where
  file : k.journal_file ≡ appended (appended j.journal_file j.buffer) (line ++ b'\n' ∷ [])
  pub flushed : k.buffer ≡ []

-- A line of which some first bytes are behind what the file and the buffer had, in the file or still in
-- the buffer.
pub record IsCutShort (line : Text) (j k : Journal) : Type 0 where
  pub part : Text
  pub rest : Text
  pub whole : part ++ rest ≡ line ++ b'\n' ∷ []
  pub order : appended k.journal_file k.buffer ≡ appended (appended j.journal_file j.buffer) part

-- A write of a line that went well, or one that failed.
abbrev pub IsOneLine : Text → Journal → Result (Unit {0}) × Journal → Type 0
IsOneLine line j (r, k) =
    ((r ≡ ok tt) × IsWritten line j k)
    ⊎ ((message : Text) × (r ≡ err (wal_error message)) × IsCutShort line j k)

buffer_text-order :
    (text : Text) (j : Journal)
    → appended (buffer_text text j).journal_file (buffer_text text j).buffer
      ≡ appended (appended j.journal_file j.buffer) text
unfolding buffer_text
buffer_text-order text j =
    appended-append j.journal_file (take (next_spill j.spills) (j.buffer ++ text)) _
    ∙ ap (appended j.journal_file) (take-append-drop (next_spill j.spills) (j.buffer ++ text))
    ∙ sym (appended-append j.journal_file j.buffer text)

-- The journal behind a flush.
flush-IsOneLine :
    (line : Text) (j k : Journal)
    → appended k.journal_file k.buffer
      ≡ appended (appended j.journal_file j.buffer) (line ++ b'\n' ∷ [])
    → IsOneLine line j (flush k)
unfolding flush
flush-IsOneLine line j k written = elim (Option-cases (next_fault k.faults)) [
  | inl clean ↦ rw (clean, flush) (inl (refl, record { file = written; flushed = refl }))
  | inr (f, hit) ↦
      rw (hit, flush)
        (inr (
          f.message,
          refl,
          record {
            part = line ++ b'\n' ∷ [];
            rest = [];
            whole = append-nil (line ++ b'\n' ∷ []);
            order =
                appended-append k.journal_file (take f.passed k.buffer) (drop f.passed k.buffer)
                ∙ ap (appended k.journal_file) (take-append-drop f.passed k.buffer)
                ∙ written;
          },
        ))
]

write_and_flush-IsOneLine : (line : Text) (j : Journal) → IsOneLine line j (write_and_flush line j)
unfolding write_and_flush write_line
write_and_flush-IsOneLine line j = elim (Option-cases (next_fault j.faults)) [
  | inl clean ↦
      let same : write_and_flush line j ≡ flush (buffer_text (line ++ b'\n' ∷ []) j) =
        ground (arith, clean) in
      subst (IsOneLine line j) (sym same) (
        flush-IsOneLine line j (buffer_text (line ++ b'\n' ∷ []) j)
          (buffer_text-order (line ++ b'\n' ∷ []) j))
  | inr (f, hit) ↦
      let part = take f.passed (line ++ b'\n' ∷ []) in
      let same : write_and_flush line j ≡ (err (wal_error f.message), buffer_text part j) =
        ground (arith, hit) in
      subst (IsOneLine line j) (sym same) (
        inr (
          f.message,
          refl,
          record {
            part = part;
            rest = drop f.passed (line ++ b'\n' ∷ []);
            whole = take-append-drop f.passed (line ++ b'\n' ∷ []);
            order = buffer_text-order part j;
          },
        ))
]

module _ {N : Type 0} (x : Extern N) (format : EntryFormat) where
  -- On a running journal that has an encoding for the entry, whatever faults come: one call of
  -- `record_write` either answers `Ok`, and the file is then what the file and the buffer had, the
  -- encoding once and a line feed, with nothing left in the buffer; or it answers an error, and behind
  -- what the file and the buffer had come only the first bytes of that line, none of them twice. A file that is gone stays gone.
  pub record_write-IsOneLine :
      (now : ℤ) (sql : Text) (params : List Value) (j : Journal) (line : Text)
      → j.running ≡ true
      → format.encode (entry_of x format now sql params) ≡ fine line
      → IsOneLine line j (record_write x format now sql params j)
  unfolding record_write
  record_write-IsOneLine now sql params j line runs encoded =
      let same : record_write x format now sql params j ≡ write_and_flush line j =
        ground (arith, runs, encoded) in
      subst (IsOneLine line j) (sym same) (write_and_flush-IsOneLine line j)

  -- After `stop`, also one whose flush failed, every write returns `Ok` and is lost: neither the
  -- file nor the buffer nor anything else of the journal changes.
  pub record_write-stop :
      (now : ℤ) (sql : Text) (params : List Value) (j : Journal)
      → record_write x format now sql params (stop j).1 ≡ (ok tt, (stop j).1)
  unfolding record_write stop flush
  record_write-stop now sql params j = ground arith
