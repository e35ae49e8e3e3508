-- ===== src/Db/Interleaved/Quiet.antt =====
-- What a call of src/db.rs does away from the journal, while other calls go on.
use db233_rust.Common.{ℕ, ◌≡◌, refl, true, false, Option-cases, inl, inr, arith, map}
use db233_rust.Errors.{Result, ok, err, panic, Result-cases}
use db233_rust.Extern.{Extern}
use db233_rust.Entity.{DbEntity}
use db233_rust.Orm.Build.{Statement}
use db233_rust.Wal.{EntryFormat, to_serde}
use db233_rust.Wal.Recovery.{are_loggable}
use db233_rust.Wal.Interleaved.{Writer}
use db233_rust.Wal.Interleaved.Held.{holds, IsReady, settled}
use db233_rust.Db.{Server, exec, assign_id}
use db233_rust.Db.Held.{binds_no_float}
use db233_rust.Db.Interleaved.{
  Answer, Goal, Thread, Calls, send, number_entity, start_record, go_on, recorded_or, writer_of,
  alone,
}

module _ {N T S : Type 0} (server : Server S) (x : Extern N) (format : EntryFormat)
    (D : DbEntity N T) where
  -- No call on the way to the journal binds a float.
  abbrev pub BindsNoFloat : Thread T → Type 0
  BindsNoFloat (Thread.sends built Goal.counts) = Unit
  BindsNoFloat (Thread.sends built Goal.records_count) = binds_no_float x built ≡ true
  BindsNoFloat (Thread.sends built (Goal.saves e)) = binds_no_float x built ≡ true
  BindsNoFloat (Thread.numbers s e n) = are_loggable (map (to_serde x) s.1) ≡ true
  BindsNoFloat (Thread.records a w) = IsReady x format w
  BindsNoFloat (Thread.returned a) = Unit

  pub writer_of-IsReady : (t : Thread T) → BindsNoFloat t → IsReady x format (writer_of t)
  writer_of-IsReady (Thread.sends built goal) h = tt
  writer_of-IsReady (Thread.numbers s e n) h = tt
  writer_of-IsReady (Thread.records a w) h = h
  writer_of-IsReady (Thread.returned a) h = tt

  pub recorded_or-writer : (a : Answer T) (w : Writer) → writer_of (recorded_or a w) ≡ settled w
  recorded_or-writer a (Writer.returned r) = refl
  recorded_or-writer a (Writer.enters sql values) = refl
  recorded_or-writer a (Writer.waits e line) = refl
  recorded_or-writer a (Writer.writes e line) = refl
  recorded_or-writer a (Writer.flushes e) = refl
  recorded_or-writer a Writer.stops = refl
  recorded_or-writer a Writer.stop_waits = refl
  recorded_or-writer a Writer.stop_flushes = refl

  pub recorded_or-floats :
      (a : Answer T) (w : Writer) → IsReady x format (settled w) → BindsNoFloat (recorded_or a w)
  recorded_or-floats a (Writer.returned r) h = tt
  recorded_or-floats a (Writer.enters sql values) h = h
  recorded_or-floats a (Writer.waits e line) h = h
  recorded_or-floats a (Writer.writes e line) h = h
  recorded_or-floats a (Writer.flushes e) h = h
  recorded_or-floats a Writer.stops h = h
  recorded_or-floats a Writer.stop_waits h = h
  recorded_or-floats a Writer.stop_flushes h = h

  -- A step away from the journal: what goes on holds no lock and binds no float.
  pub record IsQuiet (c : Calls T S) (r : Thread T × Calls T S) : Type 0 where
    pub journal : r.1.write_journal ≡ c.write_journal
    pub outside : holds (writer_of r.0) ≡ false
    pub floats : BindsNoFloat r.0

  pub returned-IsQuiet :
      (c c' : Calls T S) (a : Answer T)
      → c'.write_journal ≡ c.write_journal
      → IsQuiet c (Thread.returned a, c')
  returned-IsQuiet c c' a same = record { journal = same; outside = refl; floats = tt }

  start_record-IsQuiet :
      (s : Statement) (a : Answer T) (c c' : Calls T S)
      → are_loggable (map (to_serde x) s.1) ≡ true
      → c'.write_journal ≡ c.write_journal
      → IsQuiet c (start_record s a c', c')
  start_record-IsQuiet s a c c' loggable same = elim (Option-cases c'.write_journal) [
    | inl out ↦
        let e : start_record s a c' ≡ Thread.returned a = unfold start_record in ground arith in
        rw e (returned-IsQuiet c c' a same)
    | inr (shared, here) ↦
        let e : start_record s a c' ≡ Thread.records a (Writer.enters s.0 s.1) =
          unfold start_record in ground arith in
        rw e (record { journal = same; outside = refl; floats = loggable })
  ]

  go_on-IsQuiet :
      (goal : Goal T) (s : Statement) (affected : ℕ) (c c' : Calls T S)
      → BindsNoFloat (Thread.sends (ok s) goal)
      → c'.write_journal ≡ c.write_journal
      → IsQuiet c (go_on server x format D goal s affected c', c')
  unfolding go_on
  go_on-IsQuiet Goal.counts s affected c c' h same = returned-IsQuiet c c' _ same
  go_on-IsQuiet Goal.records_count s affected c c' h same = start_record-IsQuiet s _ c c' h same
  go_on-IsQuiet (Goal.saves e) s affected c c' h same = record {
    journal = same;
    outside = refl;
    floats = h;
  }

  pub send-IsQuiet :
      (built : Result Statement) (goal : Goal T) (c : Calls T S)
      → BindsNoFloat (Thread.sends built goal)
      → IsQuiet c (send server x format D built goal c)
  unfolding send
  send-IsQuiet (err e) goal c h = returned-IsQuiet c c _ refl
  send-IsQuiet panic goal c h = returned-IsQuiet c c _ refl
  send-IsQuiet (ok s) goal c h =
      elim (Result-cases (exec server s.0 s.1 (alone server x format D c)).0) [
        | inl (n, done) ↦ rw (done, send) (go_on-IsQuiet goal s n c _ h refl)
        | inr (inl (e, refused)) ↦ rw (refused, send) (returned-IsQuiet c _ _ refl)
        | inr (inr panics) ↦ rw (panics, send) (returned-IsQuiet c _ _ refl)
      ]

  pub number_entity-IsQuiet :
      (s : Statement) (e : T) (n : ℕ) (c : Calls T S)
      → are_loggable (map (to_serde x) s.1) ≡ true
      → IsQuiet c (number_entity server x format D s e n c)
  unfolding number_entity
  number_entity-IsQuiet s e n c h =
      elim (Result-cases (assign_id server x format D e n (alone server x format D c)).0) [
        | inl (e', done) ↦ rw (done, number_entity) (start_record-IsQuiet s _ c _ h refl)
        | inr (inl (d, refused)) ↦ rw (refused, number_entity) (returned-IsQuiet c _ _ refl)
        | inr (inr panics) ↦ rw (panics, number_entity) (returned-IsQuiet c _ _ refl)
      ]
