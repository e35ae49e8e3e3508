-- ===== src/Wal/Interleaved/Complete.antt =====
-- What calls of `record_write` of src/wal.rs carry while nobody stops the journal: no write is lost on
-- its way, and none is doubled.
use db233_rust.Common.{
  ℕ, ℤ, ◌≡◌, refl, ap, ◌∙◌, true, List, [], ◌∷◌, ◌++◌, map, Text, arith, inl, inr, Bool-cases,
  subst,
}
use db233_rust.Extern.{Extern}
use db233_rust.Wal.{
  WriteEntry, ValueSerde, EntryFormat, Journal, entry_of, to_serde, flush, buffer_text,
}
use db233_rust.Wal.Recovery.{IsJson}
use db233_rust.Wal.Interleaved.{Shared, Writer, step, write_locked, flush_locked, lock}
use db233_rust.Wal.Interleaved.Carried.{write_line-ok}
use db233_rust.Wal.Interleaved.Held.{holds, settled, IsReady, Content, flushed, IsSafe, owner}
use db233_rust.Wal.Interleaved.Safe.{enter_running}

-- A statement as the journal keeps it, without its time.
abbrev pub Logged : Type 0
Logged = Text × List ValueSerde

abbrev pub logged_of : WriteEntry → Logged
logged_of e = (e.sql, e.params)

-- A call that does not stop the journal.
abbrev pub IsRecording : Writer → Type 0
IsRecording Writer.stops = ⊥
IsRecording Writer.stop_waits = ⊥
IsRecording Writer.stop_flushes = ⊥
IsRecording w = Unit

pub IsRecording-settled : (w : Writer) → IsRecording w → IsRecording (settled w)
IsRecording-settled (Writer.returned r) h = tt
IsRecording-settled (Writer.enters sql values) h = tt
IsRecording-settled (Writer.waits e line) h = tt
IsRecording-settled (Writer.writes e line) h = tt
IsRecording-settled (Writer.flushes e) h = tt
IsRecording-settled Writer.stops h = h
IsRecording-settled Writer.stop_waits h = h
IsRecording-settled Writer.stop_flushes h = h

module _ {N : Type 0} (x : Extern N) (format : EntryFormat) where
  -- What a call has still to put into the file.
  abbrev pub in_writer : Writer → List Logged
  in_writer (Writer.enters sql params) = (sql, map (to_serde x) params) ∷ []
  in_writer (Writer.waits e line) = logged_of e ∷ []
  in_writer (Writer.writes e line) = logged_of e ∷ []
  in_writer (Writer.flushes e) = logged_of e ∷ []
  in_writer w = []

  pub in_writer-settled : (w : Writer) → in_writer (settled w) ≡ in_writer w
  in_writer-settled (Writer.returned r) = refl
  in_writer-settled (Writer.enters sql values) = refl
  in_writer-settled (Writer.waits e line) = refl
  in_writer-settled (Writer.writes e line) = refl
  in_writer-settled (Writer.flushes e) = refl
  in_writer-settled Writer.stops = refl
  in_writer-settled Writer.stop_waits = refl
  in_writer-settled Writer.stop_flushes = refl

  -- A step of `w` that loses nothing.
  pub record IsComplete (w : Writer) (r : Writer × Shared) : Type 0 where
    pub recording : IsRecording r.0
    pub runs : r.1.journal.running ≡ true
    pub same : in_writer w ≡ map logged_of (flushed x format w) ++ in_writer r.0

  flush-running : (j : Journal) → (flush j).1.running ≡ j.running
  unfolding flush
  flush-running j = ground arith

  module _ (json : IsJson format) (es : List WriteEntry) (at : ℕ → Writer) (k : ℕ) (now : ℤ)
      (s : Shared) (h : IsSafe x format es at s) (runs : s.journal.running ≡ true) where
    pub step-IsComplete :
        (w : Writer) → at k ≡ w → IsRecording w → IsComplete w (step x format now w s)
    unfolding step entry_of
    step-IsComplete (Writer.enters sql params) here open_writer =
        let (line, encoded, _) =
          json.encodes (entry_of x format now sql params)
            (subst (IsReady x format) here (h.ready k)) in
        rw (enter_running x format json es at at k now s h sql params line runs encoded)
          (record { recording = tt; runs = runs; same = refl })
    step-IsComplete (Writer.waits e line) here open_writer = elim (Bool-cases s.locked) [
      | inl shut ↦
          let stays : lock (Writer.waits e line) (Writer.writes e line) s
              ≡ (Writer.waits e line, s) =
            unfold lock in ground arith in
          rw stays (record { recording = tt; runs = runs; same = refl })
      | inr free ↦
          let takes : lock (Writer.waits e line) (Writer.writes e line) s
              ≡ (Writer.writes e line, record s { locked = true }) =
            unfold lock in ground arith in
          rw takes (record { recording = tt; runs = runs; same = refl })
    ]
    step-IsComplete (Writer.writes e line) here open_writer =
        let d = owner x format es at k s h (ap holds here) in
        let (carried, _) = subst (λ (v : Writer). Content x format es v s.journal) here d.content in
        let done : write_locked x format e line s ≡ (
          Writer.flushes e,
          record s { journal = buffer_text (line ++ b'\n' ∷ []) s.journal },
        ) =
          unfold write_locked in ground (arith, write_line-ok line s.journal carried.undisturbed) in
        rw done (record { recording = tt; runs = unfold buffer_text in runs; same = refl })
    step-IsComplete (Writer.flushes e) here open_writer =
        unfold flush_locked in
        record { recording = tt; runs = flush-running s.journal ∙ runs; same = refl }
    step-IsComplete Writer.stops here open_writer = absurd open_writer
    step-IsComplete Writer.stop_waits here open_writer = absurd open_writer
    step-IsComplete Writer.stop_flushes here open_writer = absurd open_writer
    step-IsComplete (Writer.returned r) here open_writer = record {
      recording = tt;
      runs = runs;
      same = refl;
    }
