-- ===== src/Wal/Interleaved/Carried.antt =====
-- The bytes of the journal of src/wal.rs between two accesses: in its file and in the buffer.
use db233_rust.Common.{
  ◌≡◌, refl, ap, sym, ◌∙◌, true, List, [], ◌∷◌, ◌++◌, some, Text, append-nil, append_assoc, arith,
  take, drop, take-append-drop,
}
use db233_rust.Errors.{ok}
use db233_rust.Wal.{
  WriteEntry, EntryFormat, Journal, write_line, flush, replay, buffer_text, next_fault,
  later_faults, next_spill,
}
use db233_rust.Wal.Lines.{unlines, unlines-append}
use db233_rust.Wal.Recovery.{IsLineOf, AreLinesOf, AreLinesOf-append, replay-IsDurable, IsDurable}

-- The file and the buffer behind it are the lines of the entries.
pub record Carries (format : EntryFormat) (es : List WriteEntry) (j : Journal) : Type 0 where
  pub lines : List Text
  pub are_lines : AreLinesOf format es lines
  pub content : Text
  pub file : j.journal_file ≡ some content
  pub order : content ++ j.buffer ≡ unlines lines
  pub undisturbed : j.faults ≡ []

-- Where the buffer is empty, the entries are replayed, whether the journal runs or not.
pub replay-Carries :
    (format : EntryFormat) (es : List WriteEntry) (j : Journal)
    → Carries format es j
    → j.buffer ≡ []
    → replay format j ≡ ok es
unfolding replay
replay-Carries format es j c flushed =
    replay-IsDurable format es (record j { running = true })
      (record {
        lines = c.lines;
        are_lines = c.are_lines;
        file =
            c.file
            ∙ ap some (sym (append-nil c.content) ∙ ap (◌++◌ c.content) (sym flushed) ∙ c.order);
        flushed = flushed;
        accepts = refl;
        undisturbed = c.undisturbed;
      })

pub IsDurable-Carries :
    (format : EntryFormat) (es : List WriteEntry) (j : Journal)
    → IsDurable format es j
    → Carries format es j
IsDurable-Carries format es j d = record {
  lines = d.lines;
  are_lines = d.are_lines;
  content = unlines d.lines;
  file = d.file;
  order = ap (◌++◌ (unlines d.lines)) d.flushed ∙ append-nil (unlines d.lines);
  undisturbed = d.undisturbed;
}

-- A journal without the flag.
abbrev pub SameBytes : Journal → Journal → Type 0
SameBytes j k = (k.journal_file ≡ j.journal_file) × (k.buffer ≡ j.buffer) × (k.faults ≡ j.faults)

pub Carries-same :
    (format : EntryFormat) (es : List WriteEntry) (j k : Journal)
    → SameBytes j k
    → Carries format es j
    → Carries format es k
Carries-same format es j k (file, buffer, faults) c = record {
  lines = c.lines;
  are_lines = c.are_lines;
  content = c.content;
  file = file ∙ c.file;
  order = ap (◌++◌ c.content) buffer ∙ c.order;
  undisturbed = faults ∙ c.undisturbed;
}

pub write_line-ok :
    (line : Text) (j : Journal)
    → j.faults ≡ []
    → write_line line j ≡ (ok tt, buffer_text (line ++ b'\n' ∷ []) j)
unfolding write_line next_fault
write_line-ok line j undisturbed = ground arith

pub buffer_text-Carries :
    (format : EntryFormat) (es : List WriteEntry) (e : WriteEntry) (line : Text) (j : Journal)
    → IsLineOf format e line
    → Carries format es j
    → Carries format (es ++ e ∷ []) (buffer_text (line ++ b'\n' ∷ []) j)
unfolding buffer_text later_faults unlines
buffer_text-Carries format es e line j holds c =
    let more = j.buffer ++ (line ++ b'\n' ∷ []) in
    let n = next_spill j.spills in
    record {
      lines = c.lines ++ line ∷ [];
      are_lines = AreLinesOf-append format es c.lines e line c.are_lines holds;
      content = c.content ++ take n more;
      file = ground (arith, c.file);
      order =
          append_assoc c.content (take n more) (drop n more)
          ∙ ap (◌++◌ c.content) (take-append-drop n more)
          ∙ sym (append_assoc c.content j.buffer (line ++ b'\n' ∷ []))
          ∙ ap (λ (s : Text). s ++ (line ++ b'\n' ∷ [])) c.order
          ∙ sym (unlines-append c.lines (line ∷ []));
      undisturbed = ground (arith, c.undisturbed);
    }

-- A flush that meets no fault.
pub record IsFlushed (format : EntryFormat) (es : List WriteEntry) (j : Journal) : Type 0 where
  pub done : (flush j).0 ≡ ok tt
  pub carried : Carries format es (flush j).1
  pub emptied : (flush j).1.buffer ≡ []

pub flush-IsFlushed :
    (format : EntryFormat) (es : List WriteEntry) (j : Journal)
    → Carries format es j
    → IsFlushed format es j
unfolding flush next_fault later_faults
flush-IsFlushed format es j c = rw c.undisturbed (record {
  done = refl;
  carried = record {
    lines = c.lines;
    are_lines = c.are_lines;
    content = c.content ++ j.buffer;
    file = ground (arith, c.file);
    order = append-nil (c.content ++ j.buffer) ∙ c.order;
    undisturbed = refl;
  };
  emptied = refl;
})
