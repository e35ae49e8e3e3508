-- ===== src/Db/Interleaved/Executed.antt =====
-- The journal of src/db.rs behind calls that cut into one another and have all returned: it ends with
-- what the server executed.
use mathlib.Core.List.{Perm}
use db233_rust.Common.{
  ℕ, Option, true, none, zero, suc, ◌≡◌, refl, ap, ◌∙◌, false, List, [], ◌∷◌, ◌++◌, some, map,
  Option-cases, inl, inr, append-nil, arith, get_elem?, subst,
}
use db233_rust.Errors.{ok}
use db233_rust.Extern.{Extern}
use db233_rust.Entity.{DbEntity}
use db233_rust.Wal.{EntryFormat, WriteEntry, Journal, replay}
use db233_rust.Wal.Recovery.{IsJson, IsDurable}
use db233_rust.Wal.Interleaved.{Shared}
use db233_rust.Wal.Interleaved.Held.{holds}
use db233_rust.Wal.Interleaved.Complete.{logged_of, IsRecording}
use db233_rust.Db.{Server}
use db233_rust.Db.Interleaved.{Thread, Turn, Call, begin, begun, turns, writer_of, writer_at}
use db233_rust.Db.Interleaved.Replayed.{BindNoFloat, recorded, begun-IsFine, turns-replay}
use db233_rust.Db.Interleaved.Finished.{HaveReturned}
use db233_rust.Db.Interleaved.Complete.{executed, in_thread, in_flight}
use db233_rust.Db.Interleaved.Permuted.{IsOpen, first_recording, turns-Perm}
use db233_rust.Wal.Interleaved.{Writer}

abbrev pub LeavesOpen : {T : Type 0} → Call T → Type 0
LeavesOpen Call.closes = ⊥
LeavesOpen (Call.updates e) = Unit
LeavesOpen (Call.saves_batch e es) = Unit
LeavesOpen (Call.saves e) = Unit
LeavesOpen (Call.deletes e) = Unit
LeavesOpen (Call.executes sql params) = Unit

-- No call closes the database.
abbrev pub CloseNothing : {T : Type 0} → List (Call T) → Type 0
CloseNothing [] = Unit
CloseNothing (call ∷ cs) = LeavesOpen call × CloseNothing cs

module _ {N T S : Type 0} (server : Server S) (x : Extern N) (format : EntryFormat)
    (D : DbEntity N T) where
  module _ (json : IsJson format) where
    begin-recording :
        (call : Call T)
        → LeavesOpen call
        → IsRecording (writer_of (begin server x format D call))
          × (in_thread server x format D (begin server x format D call) ≡ [])
    unfolding begin
    begin-recording (Call.updates e) h = (tt, refl)
    begin-recording (Call.saves_batch e es) h = (tt, refl)
    begin-recording (Call.saves e) h = (tt, refl)
    begin-recording (Call.deletes e) h = (tt, refl)
    begin-recording (Call.executes sql params) h = (tt, refl)
    begin-recording Call.closes h = absurd h

    begun-recording :
        (cs : List (Call T)) (i : ℕ) (t : Thread T)
        → CloseNothing cs
        → get_elem? (map (begin server x format D) cs) i ≡ some t
        → IsRecording (writer_of t)
    begun-recording [] i t open_calls at_i = cc
    begun-recording (call ∷ cs) zero t open_calls at_i =
        first_recording server x format D _ t (begin-recording call open_calls.0).0 at_i
    begun-recording (call ∷ cs) (suc i) t open_calls at_i = begun-recording cs i t open_calls.1 at_i

    begun-in_flight :
        (cs : List (Call T))
        → CloseNothing cs
        → in_flight server x format D (map (begin server x format D) cs) ≡ []
    begun-in_flight [] open_calls = refl
    begun-in_flight (call ∷ cs) open_calls =
        rw (begin-recording call open_calls.0).1 (begun-in_flight cs open_calls.1)

    returned-in_flight :
        (ts : List (Thread T)) → HaveReturned ts → in_flight server x format D ts ≡ []
    returned-in_flight [] h = refl
    returned-in_flight (t ∷ ts) h =
        let (a, same) = h 0 t refl in
        ap (λ (v : Thread T). in_thread server x format D v ++ in_flight server x format D ts) same
        ∙ returned-in_flight ts (λ i v at_i. h (suc i) v at_i)

    returned-outside :
        (ts : List (Thread T)) → HaveReturned ts → (i : ℕ) → holds (writer_at ts i) ≡ false
    returned-outside ts h i = elim (Option-cases (get_elem? ts i)) [
      | inl out ↦ ground (arith, out)
      | inr (t, at_i) ↦
          let (a, same) = h i t at_i in
          ap
            (λ (o : Option (Thread T)).
              holds (elim o [ none ↦ Writer.returned (ok tt) | some v ↦ writer_of v ]))
            (at_i ∙ ap some same)
    ]

    begun-IsOpen :
        (cs : List (Call T)) (es : List WriteEntry) (s : S) (j : Journal)
        → BindNoFloat server x format D cs
        → CloseNothing cs
        → IsDurable format es j
        → IsOpen server x format D es (begun server x format D cs s j)
    begun-IsOpen cs es s j floats open_calls d = record {
      fine = begun-IsFine server x format D json cs es s j floats d;
      runs = λ sh here.
          subst (λ (u : Shared). u.journal.running ≡ true)
            (let e : record { journal = j; locked = false } ≡ sh = cc in e) d.accepts;
      recording = λ i t at_i. begun-recording cs i t open_calls at_i;
    }

    -- On a journal that holds some entries, with no fault to come: however calls that write to one
    -- database, and bind no float in what they record, are interleaved, whatever the server answers
    -- and other clients do to it, when all have returned and none of them closes it, a replay gives
    -- the old entries and then, in some order, the statements that were to be recorded and that the
    -- server executed, each once: those of the updates, of the batches, and of the saves whose id got
    -- settled.
    pub turns-executed :
        (cs : List (Call T)) (es : List WriteEntry) (s : S) (j : Journal) (us : List (Turn S))
        → BindNoFloat server x format D cs
        → CloseNothing cs
        → IsDurable format es j
        → HaveReturned (turns server x format D us (begun server x format D cs s j)).threads
        → (more : List WriteEntry) × (shared : Shared) × ((turns server x format D us
              (begun server x format D cs s j)).write_journal
            ≡ some shared)
          × (replay format shared.journal ≡ ok (es ++ more))
          × Perm
              (executed server x format D us (begun server x format D cs s j))
              (map logged_of more)
    turns-executed cs es s j us floats open_calls d all =
        let c = begun server x format D cs s j in
        let end = turns server x format D us c in
        let (shared, here, replayed) =
          turns-replay server x format D json cs es s j us floats d
            (returned-outside end.threads all) in
        let p =
          turns-Perm server x format D json us es c (begun-IsOpen cs es s j floats open_calls d) in
        (
          recorded server x format D us c,
          shared,
          here,
          replayed,
          rw (begun-in_flight cs open_calls, returned-in_flight end.threads all, append-nil) at p,
        )
