-- ===== src/Db/Interleaved/Permuted.antt =====
-- What calls of src/db.rs have in flight, and what the server executes and the journal gets meanwhile.
use mathlib.Core.List.{Perm, map-append, perm_append_comm}
use mathlib.Core.List.Perm
use db233_rust.Common.{
  ℕ, ℤ, ◌≡◌, sym, List, [], ◌∷◌, ◌++◌, some, map, Option-cases, inl, inr, append-nil, append_assoc,
  arith, get_elem?, set, get_elem?-set, ℕ_discrete, subst,
}
use db233_rust.Extern.{Extern}
use db233_rust.Entity.{DbEntity}
use db233_rust.Wal.{EntryFormat, WriteEntry}
use db233_rust.Wal.Recovery.{IsJson}
use db233_rust.Wal.Interleaved.Held.{flushed}
use db233_rust.Wal.Interleaved.Complete.{Logged, logged_of, IsRecording}
use db233_rust.Db.{Server}
use db233_rust.Db.Interleaved.{Thread, Calls, Turn, step, turn, turns, writer_of}
use db233_rust.Db.Interleaved.Replayed.{IsFine, recorded, recorded_in, turn-IsFine}
use db233_rust.Db.Interleaved.Complete.{
  executed_by, executed_in, executed, in_thread, in_flight, get_elem?-IsRest, IsKept, IsRunning,
  step-IsKept,
}

-- Where calls that have nothing to record in front leave off.
regroup {ℓ} :
    {A : Type ℓ} (F F' P P' E L R : List A)
    → Perm F (P ++ R)
    → Perm F' (P' ++ R)
    → P ++ E ≡ L ++ P'
    → Perm (F ++ E) (L ++ F')
regroup F F' P P' E L R before after same = Perm.trans (Perm.append_right E before) (
    Perm.trans
      (rw (append_assoc P R E) (
        Perm.trans (Perm.append_left P (perm_append_comm R E))
          (rw (← append_assoc P E R, same, append_assoc L P' R) Perm.rfl)))
      (Perm.append_left L (Perm.symm after)))

chain :
    (F F' F'' E E' : List Logged) (R R' : List WriteEntry)
    → Perm (F ++ E) (map logged_of R ++ F')
    → Perm (F' ++ E') (map logged_of R' ++ F'')
    → Perm (F ++ (E ++ E')) (map logged_of (R ++ R') ++ F'')
chain F F' F'' E E' R R' one rest =
    rw (map-append, ← append_assoc F E E', append_assoc (map logged_of R) (map logged_of R') F'')
      (Perm.trans (Perm.append_right E' one)
        (rw (append_assoc (map logged_of R) F' E') (Perm.append_left (map logged_of R) rest)))

module _ {N T S : Type 0} (server : Server S) (x : Extern N) (format : EntryFormat)
    (D : DbEntity N T) where
  pub first_recording :
      (u t : Thread T) → IsRecording (writer_of u) → some u ≡ some t → IsRecording (writer_of t)
  first_recording u t h same =
      let e : u ≡ t = cc in subst (λ (v : Thread T). IsRecording (writer_of v)) e h

  -- The calls, of which none stops the journal.
  pub record IsOpen (es : List WriteEntry) (c : Calls T S) : Type 0 where
    pub fine : IsFine server x format D es c
    pub runs : IsRunning server x format D c
    pub recording :
        (i : ℕ) (t : Thread T) → get_elem? c.threads i ≡ some t → IsRecording (writer_of t)

  recording-set :
      (ts : List (Thread T)) (i : ℕ) (t' : Thread T)
      → IsRecording (writer_of t')
      → ((j : ℕ) (t : Thread T) → get_elem? ts j ≡ some t → IsRecording (writer_of t))
      → (j : ℕ) (t : Thread T) → get_elem? (set ts i t') j ≡ some t
      → IsRecording (writer_of t)
  recording-set ts i t' h all j t at_j = elim (ℕ_discrete i j) [
    | yes same ↦ first_recording t' t h (ground (arith, get_elem?-set ts i j t'))
    | no other ↦ all j t (ground (arith, get_elem?-set ts i j t'))
  ]

  module _ (json : IsJson format) where
    kept :
        (es : List WriteEntry) (c : Calls T S) (i : ℕ) (now : ℤ) (t : Thread T)
        → get_elem? c.threads i ≡ some t
        → IsOpen es c
        → IsKept server x format D t c (step server x format D now t c)
    kept es c i now t at_i h =
        step-IsKept server x format D es c h.fine h.runs json i now t at_i (h.recording i t at_i)

    stepped : Calls T S → ℕ → ℤ → Thread T → Calls T S
    stepped c i now t =
        let r = step server x format D now t c in record r.1 { threads = set c.threads i r.0 }

    turn-some :
        (c : Calls T S) (i : ℕ) (now : ℤ) (t : Thread T)
        → get_elem? c.threads i ≡ some t
        → turn server x format D (Turn.goes i now) c ≡ stepped c i now t
    unfolding turn stepped
    turn-some c i now t at_i = ground (arith, at_i)

    turn-IsOpen :
        (es : List WriteEntry) (c : Calls T S) (u : Turn S)
        → IsOpen es c
        → IsOpen (es ++ recorded_in server x format D u c) (turn server x format D u c)
    turn-IsOpen es c (Turn.others s) h = record {
      fine = turn-IsFine server x format D json es c (Turn.others s) h.fine;
      runs = unfold turn in h.runs;
      recording = unfold turn in h.recording;
    }
    turn-IsOpen es c (Turn.goes i now) h =
        let fine = turn-IsFine server x format D json es c (Turn.goes i now) h.fine in
        elim (Option-cases (get_elem? c.threads i)) [
          | inl out ↦
              let same : turn server x format D (Turn.goes i now) c ≡ c =
                unfold turn in ground (arith, out) in
              record {
                fine = fine;
                runs = subst (IsRunning server x format D) (sym same) h.runs;
                recording =
                    subst
                      (λ (d : Calls T S).
                        (j : ℕ) (v : Thread T)
                        → get_elem? d.threads j ≡ some v
                        → IsRecording (writer_of v))
                      (sym same) h.recording;
              }
          | inr (t, at_i) ↦
              let k = kept es c i now t at_i h in
              let same = turn-some c i now t at_i in
              record {
                fine = fine;
                runs = rw same (unfold stepped in k.runs);
                recording = rw same (
                    unfold stepped in
                    recording-set c.threads i (step server x format D now t c).0 k.recording
                      h.recording);
              }
        ]

    -- What was to come and what was executed in this step is in the file, or still to come.
    turn-Perm :
        (es : List WriteEntry) (c : Calls T S) (u : Turn S)
        → IsOpen es c
        → Perm (in_flight server x format D c.threads ++ executed_in server x format D u c) (
            map logged_of (recorded_in server x format D u c)
            ++ in_flight server x format D (turn server x format D u c).threads)
    turn-Perm es c (Turn.others s) h = unfold turn in rw append-nil Perm.rfl
    turn-Perm es c (Turn.goes i now) h = elim (Option-cases (get_elem? c.threads i)) [
      | inl out ↦
          let same : turn server x format D (Turn.goes i now) c ≡ c =
            unfold turn in ground (arith, out) in
          let none_in : recorded_in server x format D (Turn.goes i now) c ≡ [] =
            ground (arith, out) in
          let none_done : executed_in server x format D (Turn.goes i now) c ≡ [] =
            ground (arith, out) in
          rw (same, none_in, none_done, append-nil) Perm.rfl
      | inr (t, at_i) ↦
          let k = kept es c i now t at_i h in
          let t' = (step server x format D now t c).0 in
          let r = get_elem?-IsRest server x format D c.threads i t at_i in
          let one_in : recorded_in server x format D (Turn.goes i now) c
              ≡ flushed x format (writer_of t) =
            ground (arith, at_i) in
          let one_done : executed_in server x format D (Turn.goes i now) c
              ≡ executed_by server x format D t c =
            ground (arith, at_i) in
          rw (turn-some c i now t at_i, one_in, one_done)
            (unfold stepped in
              regroup (in_flight server x format D c.threads)
                (in_flight server x format D (set c.threads i t')) (in_thread server x format D t)
                (in_thread server x format D t') (executed_by server x format D t c)
                (map logged_of (flushed x format (writer_of t))) r.rest r.before (r.after t')
                k.same)
    ]

    pub turns-Perm :
        (us : List (Turn S)) (es : List WriteEntry) (c : Calls T S)
        → IsOpen es c
        → Perm (in_flight server x format D c.threads ++ executed server x format D us c) (
            map logged_of (recorded server x format D us c)
            ++ in_flight server x format D (turns server x format D us c).threads)
    unfolding executed recorded turns
    turns-Perm [] es c h = rw append-nil Perm.rfl
    turns-Perm (u ∷ us) es c h =
        let c' = turn server x format D u c in
        chain (in_flight server x format D c.threads) (in_flight server x format D c'.threads)
          (in_flight server x format D (turns server x format D us c').threads)
          (executed_in server x format D u c) (executed server x format D us c')
          (recorded_in server x format D u c) (recorded server x format D us c')
          (turn-Perm es c u h)
          (turns-Perm us (es ++ recorded_in server x format D u c) c' (turn-IsOpen es c u h))
