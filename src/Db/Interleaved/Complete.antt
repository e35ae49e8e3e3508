-- ===== src/Db/Interleaved/Complete.antt =====
-- What the server executes for calls of src/db.rs that record it, and what the journal then has.
use mathlib.Core.List.{Perm, perm_append_comm}
use mathlib.Core.List.Perm
use db233_rust.Common.{
  ℕ, zero, suc, ℤ, ◌≡◌, refl, ap, sym, ◌∙◌, true, List, [], ◌∷◌, ◌++◌, none, some, map, inl, inr,
  append-nil, append_assoc, arith, get_elem?, set, subst,
}
use db233_rust.Errors.{Result, ok, err, panic, Result-cases}
use db233_rust.Extern.{Extern}
use db233_rust.Entity.{DbEntity}
use db233_rust.Orm.Build.{Statement}
use db233_rust.Wal.{EntryFormat, WriteEntry, to_serde}
use db233_rust.Wal.Recovery.{IsJson}
use db233_rust.Wal.Interleaved
use db233_rust.Wal.Interleaved.{Shared, Writer}
use db233_rust.Wal.Interleaved.Held.{flushed}
use db233_rust.Wal.Interleaved.Complete.{
  Logged, logged_of, IsRecording, in_writer, in_writer-settled, IsRecording-settled,
  step-IsComplete,
}
use db233_rust.Db.{Server, exec, assign_id}
use db233_rust.Db.Interleaved.{
  Answer, Goal, Thread, Calls, Turn, step, turn, send, number_entity, write, start_record, go_on,
  recorded_or, writer_of, writer_at, alone,
}
use db233_rust.Db.Interleaved.Quiet.{recorded_or-writer}
use db233_rust.Db.Interleaved.Replayed.{IsFine}

perm_swap {ℓ} : {A : Type ℓ} (xs ys zs : List A) → Perm (xs ++ (ys ++ zs)) (ys ++ (xs ++ zs))
perm_swap xs ys zs =
    rw (← append_assoc xs ys zs, ← append_assoc ys xs zs)
      (Perm.append_right zs (perm_append_comm xs ys))

module _ {N T S : Type 0} (server : Server S) (x : Extern N) (format : EntryFormat)
    (D : DbEntity N T) where
  -- A statement that was executed, as the journal keeps it.
  abbrev if_done : {A : Type 0} → Result A → Statement → List Logged
  if_done (ok _) s = (s.0, map (to_serde x) s.1) ∷ []
  if_done (err _) s = []
  if_done panic s = []

  -- What the server executes for this call in its next step, where the call then records it: the
  -- statement of an update or a batch, and of a save whose id is settled in that step.
  abbrev pub executed_by : Thread T → Calls T S → List Logged
  executed_by (Thread.sends (ok s) Goal.records_count) c =
      if_done (exec server s.0 s.1 (alone server x format D c)).0 s
  executed_by (Thread.numbers s e n) c =
      if_done (assign_id server x format D e n (alone server x format D c)).0 s
  executed_by (Thread.sends (ok s) Goal.counts) c = []
  executed_by (Thread.sends (ok s) (Goal.saves e)) c = []
  executed_by (Thread.sends (err d) goal) c = []
  executed_by (Thread.sends panic goal) c = []
  executed_by (Thread.records a w) c = []
  executed_by (Thread.returned a) c = []

  abbrev pub executed_in : Turn S → Calls T S → List Logged
  executed_in (Turn.others s) c = []
  executed_in (Turn.goes i now) c = elim (get_elem? c.threads i) [
    | none ↦ []
    | some t ↦ executed_by t c
  ]

  unfoldable pub executed : List (Turn S) → Calls T S → List Logged
  executed [] c = []
  executed (u ∷ us) c = executed_in u c ++ executed us (turn server x format D u c)

  -- What the calls have still to put into the file.
  abbrev pub in_thread : Thread T → List Logged
  in_thread t = in_writer x format (writer_of t)

  abbrev pub in_flight : List (Thread T) → List Logged
  in_flight [] = []
  in_flight (t ∷ ts) = in_thread t ++ in_flight ts

  -- The others, where one call stands at `i`.
  pub record IsRest (ts : List (Thread T)) (i : ℕ) (t : Thread T) : Type 0 where
    pub rest : List Logged
    pub before : Perm (in_flight ts) (in_thread t ++ rest)
    pub after : (t' : Thread T) → Perm (in_flight (set ts i t')) (in_thread t' ++ rest)

  pub get_elem?-IsRest :
      (ts : List (Thread T)) (i : ℕ) (t : Thread T) → get_elem? ts i ≡ some t → IsRest ts i t
  get_elem?-IsRest [] i t here = cc
  get_elem?-IsRest (u ∷ ts) zero t here = record {
    rest = in_flight ts;
    before =
        let same : u ≡ t = cc in
        subst (λ (v : Thread T). Perm (in_thread u ++ in_flight ts) (in_thread v ++ in_flight ts))
          same Perm.rfl;
    after = λ t'. Perm.rfl;
  }
  get_elem?-IsRest (u ∷ ts) (suc i) t here =
      let r = get_elem?-IsRest ts i t here in
      record {
        rest = in_thread u ++ r.rest;
        before =
            Perm.trans (Perm.append_left (in_thread u) r.before)
              (perm_swap (in_thread u) (in_thread t) r.rest);
        after = λ t'.
            Perm.trans (Perm.append_left (in_thread u) (r.after t'))
              (perm_swap (in_thread u) (in_thread t') r.rest);
      }

  -- One step of a call: what it had and what the server executed is in the file, or still to come.
  pub record IsKept (t : Thread T) (c : Calls T S) (r : Thread T × Calls T S) : Type 0 where
    pub recording : IsRecording (writer_of r.0)
    pub runs : (s : Shared) → r.1.write_journal ≡ some s → s.journal.running ≡ true
    pub same :
        in_thread t ++ executed_by t c
        ≡ map logged_of (flushed x format (writer_of t)) ++ in_thread r.0

  -- The journal accepts writes.
  abbrev pub IsRunning : Calls T S → Type 0
  IsRunning c = (s : Shared) → c.write_journal ≡ some s → s.journal.running ≡ true

  start_record-some :
      (s : Statement) (a : Answer T) (c : Calls T S) (shared : Shared)
      → c.write_journal ≡ some shared
      → start_record s a c ≡ Thread.records a (Writer.enters s.0 s.1)
  unfolding start_record
  start_record-some s a c shared here = ground arith

  module _ (es : List WriteEntry) (c : Calls T S) (f : IsFine server x format D es c)
      (runs : IsRunning c) where
    -- A call that starts to record a statement which the server has executed.
    started :
        (t : Thread T) (s : Statement) (a : Answer T) (c' : Calls T S)
        → c'.write_journal ≡ c.write_journal
        → in_thread t ++ executed_by t c ≡ (s.0, map (to_serde x) s.1) ∷ []
        → flushed x format (writer_of t) ≡ []
        → IsKept t c (start_record s a c', c')
    started t s a c' same executed none_flushed =
        rw (start_record-some s a c' f.shared (same ∙ f.here)) (record {
          recording = tt;
          runs = λ sh here. runs sh (sym same ∙ here);
          same =
              executed
              ∙ ap (λ (l : List WriteEntry). map logged_of l ++ ((s.0, map (to_serde x) s.1) ∷ []))
                  (sym none_flushed);
        })

    -- A call that records nothing in this step and goes on to nothing in the journal.
    passed :
        (t t' : Thread T) (c' : Calls T S)
        → c'.write_journal ≡ c.write_journal
        → in_thread t ++ executed_by t c ≡ []
        → flushed x format (writer_of t) ≡ []
        → writer_of t' ≡ Writer.returned (ok tt)
        → IsKept t c (t', c')
    passed t t' c' same executed none_flushed outside = record {
      recording = subst IsRecording (sym outside) tt;
      runs = λ sh here. runs sh (sym same ∙ here);
      same = rw (executed, none_flushed, outside) refl;
    }

    send-IsKept :
        (built : Result Statement) (goal : Goal T)
        → IsKept (Thread.sends built goal) c (send server x format D built goal c)
    unfolding send go_on
    send-IsKept (err e) Goal.counts = passed _ _ c refl refl refl refl
    send-IsKept (err e) Goal.records_count = passed _ _ c refl refl refl refl
    send-IsKept (err e) (Goal.saves d) = passed _ _ c refl refl refl refl
    send-IsKept panic Goal.counts = passed _ _ c refl refl refl refl
    send-IsKept panic Goal.records_count = passed _ _ c refl refl refl refl
    send-IsKept panic (Goal.saves d) = passed _ _ c refl refl refl refl
    send-IsKept (ok s) Goal.counts =
        elim (Result-cases (exec server s.0 s.1 (alone server x format D c)).0) [
          | inl (n, done) ↦ rw (done, send) (passed _ _ _ refl refl refl refl)
          | inr (inl (e, refused)) ↦ rw (refused, send) (passed _ _ _ refl refl refl refl)
          | inr (inr panics) ↦ rw (panics, send) (passed _ _ _ refl refl refl refl)
        ]
    send-IsKept (ok s) (Goal.saves e) =
        elim (Result-cases (exec server s.0 s.1 (alone server x format D c)).0) [
          | inl (n, done) ↦ rw (done, send) (passed _ _ _ refl refl refl refl)
          | inr (inl (e, refused)) ↦ rw (refused, send) (passed _ _ _ refl refl refl refl)
          | inr (inr panics) ↦ rw (panics, send) (passed _ _ _ refl refl refl refl)
        ]
    send-IsKept (ok s) Goal.records_count =
        elim (Result-cases (exec server s.0 s.1 (alone server x format D c)).0) [
          | inl (n, done) ↦
              rw (done, send) (started _ s _ _ refl (ap (λ (r : Result ℕ). if_done r s) done) refl)
          | inr (inl (e, refused)) ↦
              rw (refused, send)
                (passed _ _ _ refl (ap (λ (r : Result ℕ). if_done r s) refused) refl refl)
          | inr (inr panics) ↦
              rw (panics, send)
                (passed _ _ _ refl (ap (λ (r : Result ℕ). if_done r s) panics) refl refl)
        ]

    number_entity-IsKept :
        (s : Statement) (e : T) (n : ℕ)
        → IsKept (Thread.numbers s e n) c (number_entity server x format D s e n c)
    unfolding number_entity
    number_entity-IsKept s e n =
        elim (Result-cases (assign_id server x format D e n (alone server x format D c)).0) [
          | inl (e', done) ↦
              rw (done, number_entity)
                (started _ s _ _ refl (ap (λ (r : Result T). if_done r s) done) refl)
          | inr (inl (d, refused)) ↦
              rw (refused, number_entity)
                (passed _ _ _ refl (ap (λ (r : Result T). if_done r s) refused) refl refl)
          | inr (inr panics) ↦
              rw (panics, number_entity)
                (passed _ _ _ refl (ap (λ (r : Result T). if_done r s) panics) refl refl)
        ]

    write-IsKept :
        (json : IsJson format) (i : ℕ) (now : ℤ) (a : Answer T) (w : Writer)
        → get_elem? c.threads i ≡ some (Thread.records a w)
        → IsRecording w
        → IsKept (Thread.records a w) c (write server x format D now a w c)
    unfolding write
    write-IsKept json i now a w at_i recording =
        let k =
          step-IsComplete x format json es (writer_at c.threads) i now f.shared f.safe
            (runs f.shared f.here) w (ground (arith, at_i)) recording in
        let (w', shared) = Interleaved.step x format now w f.shared in
        let e : write server x format D now a w c
            ≡ (recorded_or a w', record c { write_journal = some shared }) =
          rw (f.here, write) refl in
        let outside = recorded_or-writer server x format D a w' in
        rw e (record {
          recording = subst IsRecording (sym outside) (IsRecording-settled w' k.recording);
          runs = λ sh here.
              let same : shared ≡ sh = cc in
              subst (λ (u : Shared). u.journal.running ≡ true) same k.runs;
          same =
              append-nil (in_writer x format w)
              ∙ k.same
              ∙ ap (λ (l : List Logged). map logged_of (flushed x format w) ++ l)
                  (sym (in_writer-settled x format w') ∙ ap (in_writer x format) (sym outside));
        })

    pub step-IsKept :
        (json : IsJson format) (i : ℕ) (now : ℤ) (t : Thread T)
        → get_elem? c.threads i ≡ some t
        → IsRecording (writer_of t)
        → IsKept t c (step server x format D now t c)
    unfolding step
    step-IsKept json i now (Thread.sends built goal) at_i recording = send-IsKept built goal
    step-IsKept json i now (Thread.numbers s e n) at_i recording = number_entity-IsKept s e n
    step-IsKept json i now (Thread.records a w) at_i recording =
        write-IsKept json i now a w at_i recording
    step-IsKept json i now (Thread.returned a) at_i recording = passed _ _ c refl refl refl refl
