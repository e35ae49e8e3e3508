-- ===== src/Db/Interleaved/Finished.antt =====
-- Calls on one database of src/db.rs do not wait for one another for ever.
use db233_rust.Common.{
  dec_lt, ℕ, zero, suc, ◌+◌, ◌≤◌, ◌<◌, ℤ, pos, ◌≡◌, refl, ap, true, false, List, [], ◌∷◌, some,
  Option-cases, inl, inr, ◌⊎◌, arith, get_elem?, set,
}
use db233_rust.Errors.{ok, err, panic, Result-cases}
use db233_rust.Extern.{Extern}
use db233_rust.Entity.{DbEntity}
use db233_rust.Orm.Build.{Statement}
use db233_rust.Wal.{EntryFormat, WriteEntry, Journal}
use db233_rust.Wal.Recovery.{IsJson, IsDurable}
use db233_rust.Wal.Interleaved
use db233_rust.Wal.Interleaved.{
  Shared, Writer, enter_record, write_locked, flush_locked, lower_running, lock,
}
use db233_rust.Wal.Interleaved.Held.{holds}
use db233_rust.Db.{Server, exec, assign_id}
use db233_rust.Db.Interleaved.{
  Answer, Goal, Thread, Calls, Turn, Call, step, turn, turns, send, number_entity, write,
  start_record, go_on, recorded_or, writer_of, writer_at, alone, begun,
}
use db233_rust.Db.Interleaved.Replayed.{
  IsFine, BindNoFloat, turn-IsFine, turns-IsFine, begun-IsFine,
}

-- How many steps a call has left at most, where it does not wait.
abbrev left_in : Writer → ℕ
left_in (Writer.enters sql values) = 5
left_in (Writer.waits e line) = 4
left_in (Writer.writes e line) = 3
left_in (Writer.flushes e) = 2
left_in Writer.stops = 4
left_in Writer.stop_waits = 3
left_in Writer.stop_flushes = 2
left_in (Writer.returned r) = 1

abbrev left : {T : Type 0} → Thread T → ℕ
left (Thread.sends built goal) = 7
left (Thread.numbers s e n) = 6
left (Thread.records a w) = left_in w
left (Thread.returned a) = 0

module _ {N : Type 0} (x : Extern N) (format : EntryFormat) where
  -- A step in the journal that does not wait.
  step-left_in :
      {T : Type 0} (a : Answer T) (w : Writer) (now : ℤ) (s : Shared)
      → (holds w ≡ true) ⊎ (s.locked ≡ false)
      → left (recorded_or a (Interleaved.step x format now w s).0) < left_in w
  unfolding Interleaved.step enter_record write_locked flush_locked lower_running lock
  step-left_in a (Writer.enters sql values) now s free = ground arith
  step-left_in a (Writer.waits e line) now s (inl held) = cc
  step-left_in a (Writer.waits e line) now s (inr free) = ground arith
  step-left_in a (Writer.writes e line) now s free = ground arith
  step-left_in a (Writer.flushes e) now s free = omega arith
  step-left_in a Writer.stops now s free = omega arith
  step-left_in a Writer.stop_waits now s (inl held) = cc
  step-left_in a Writer.stop_waits now s (inr free) = ground arith
  step-left_in a Writer.stop_flushes now s free = omega arith
  step-left_in a (Writer.returned r) now s free = omega arith

abbrev total : {T : Type 0} → List (Thread T) → ℕ
total [] = 0
total (t ∷ ts) = left t + total ts

total-set :
    {T : Type 0} (ts : List (Thread T)) (i : ℕ) (t t' : Thread T)
    → get_elem? ts i ≡ some t
    → total (set ts i t') + left t ≡ total ts + left t'
total-set [] i t t' h = cc
total-set (u ∷ ts) zero t t' h = let same : left u ≡ left t = ground arith in omega (arith, same)
total-set (u ∷ ts) (suc i) t t' h = omega (arith, total-set ts i t t' h)

-- A call that has not returned.
record IsLeft {T : Type 0} (ts : List (Thread T)) (i : ℕ) : Type 0 where
  thread : Thread T
  here : get_elem? ts i ≡ some thread
  more : 0 < left thread

IsLeft-total : {T : Type 0} (ts : List (Thread T)) → 0 < total ts → (i : ℕ) × IsLeft ts i
IsLeft-total [] h = absurd (omega arith)
IsLeft-total (t ∷ ts) h = elim (dec_lt 0 (left t)) [
  | yes more ↦ (0, record { thread = t; here = refl; more = more })
  | no none_left ↦
      let (i, l) = IsLeft-total ts (omega arith) in
      (suc i, record { thread = l.thread; here = l.here; more = l.more })
]

-- Every call has returned.
abbrev pub HaveReturned : {T : Type 0} → List (Thread T) → Type 0
HaveReturned {T} ts =
    (i : ℕ) (t : Thread T) → get_elem? ts i ≡ some t → (a : Answer T) × (t ≡ Thread.returned a)

returned_of_left :
    {T : Type 0} (t : Thread T) → left t ≡ 0 → (a : Answer T) × (t ≡ Thread.returned a)
returned_of_left (Thread.sends built goal) h = absurd (omega arith)
returned_of_left (Thread.numbers s e n) h = absurd (omega arith)
returned_of_left (Thread.records a w) h = absurd (ground arith)
returned_of_left (Thread.returned a) h = (a, refl)

total-HaveReturned : {T : Type 0} (ts : List (Thread T)) → total ts ≡ 0 → HaveReturned ts
total-HaveReturned [] h i t at_i = cc
total-HaveReturned (u ∷ ts) h zero t at_i =
    returned_of_left t (let same : left u ≡ left t = ground arith in omega (arith, same))
total-HaveReturned (u ∷ ts) h (suc i) t at_i = total-HaveReturned ts (omega arith) i t at_i

module _ {N T S : Type 0} (server : Server S) (x : Extern N) (format : EntryFormat)
    (D : DbEntity N T) where
  start_record-left : (s : Statement) (a : Answer T) (c : Calls T S) → left (start_record s a c) ≤ 5
  unfolding start_record
  start_record-left s a c = ground arith

  step-left :
      (now : ℤ) (t : Thread T) (c : Calls T S) (shared : Shared)
      → c.write_journal ≡ some shared
      → 0 < left t
      → (holds (writer_of t) ≡ true) ⊎ (shared.locked ≡ false)
      → left (step server x format D now t c).0 < left t
  unfolding step send number_entity write go_on
  step-left now (Thread.sends (err e) goal) c shared here more free = omega arith
  step-left now (Thread.sends panic goal) c shared here more free = omega arith
  step-left now (Thread.sends (ok s) Goal.counts) c shared here more free = ground arith
  step-left now (Thread.sends (ok s) Goal.records_count) c shared here more free =
      let sent = exec server s.0 s.1 (alone server x format D c) in
      elim (Result-cases sent.0) [
        | inl (n, done) ↦ ground (
          arith,
          start_record-left s (Answer.counted (ok n)) (record c { server = sent.1.server }),
        )
        | inr failed ↦ ground arith
      ]
  step-left now (Thread.sends (ok s) (Goal.saves e)) c shared here more free = ground arith
  step-left now (Thread.numbers s e n) c shared here more free =
      let told = assign_id server x format D e n (alone server x format D c) in
      elim (Result-cases told.0) [
        | inl (e', done) ↦ ground (
          arith,
          start_record-left s (Answer.saved (ok e')) (record c { server = told.1.server }),
        )
        | inr failed ↦ ground arith
      ]
  step-left now (Thread.records a w) c shared here more free =
      ground (arith, here, step-left_in x format a w now shared free)
  step-left now (Thread.returned a) c shared here more free = absurd (omega arith)

  -- Who can go on: the call that holds the lock, or any that is left.
  record CanGo (c : Calls T S) (i : ℕ) : Type 0 where
    thread : Thread T
    here : get_elem? c.threads i ≡ some thread
    nearer : (now : ℤ) → left (step server x format D now thread c).0 < left thread

  IsLeft-CanGo :
      (es : List WriteEntry) (c : Calls T S) (i : ℕ)
      → (f : IsFine server x format D es c) → IsLeft c.threads i
      → (holds (writer_at c.threads i) ≡ true) ⊎ (f.shared.locked ≡ false)
      → CanGo c i
  IsLeft-CanGo es c i f l free = record {
    thread = l.thread;
    here = l.here;
    nearer = λ now. step-left now l.thread c f.shared f.here l.more (ground (arith, l.here));
  }

  holds-left : (t : Thread T) → holds (writer_of t) ≡ true → 0 < left t
  holds-left (Thread.sends built goal) h = cc
  holds-left (Thread.numbers s e n) h = cc
  holds-left (Thread.records a w) h = ground arith
  holds-left (Thread.returned a) h = cc

  holder-IsLeft : (ts : List (Thread T)) (i : ℕ) → holds (writer_at ts i) ≡ true → IsLeft ts i
  holder-IsLeft ts i held = elim (Option-cases (get_elem? ts i)) [
    | inl out ↦ absurd (ground arith)
    | inr (t, here) ↦ record { thread = t; here = here; more = holds-left t (ground (arith, here)) }
  ]

  IsFine-CanGo :
      (es : List WriteEntry) (c : Calls T S)
      → IsFine server x format D es c
      → 0 < total c.threads
      → (i : ℕ) × CanGo c i
  IsFine-CanGo es c f more = elim f.safe.phase [
    | inr (i, d) ↦ (i, IsLeft-CanGo es c i f (holder-IsLeft c.threads i d.here) (inl d.here))
    | inl free ↦
        let (i, l) = IsLeft-total c.threads more in
        (i, IsLeft-CanGo es c i f l (inr free.open_lock))
  ]

  CanGo-total :
      (c : Calls T S) (i : ℕ) (now : ℤ)
      → CanGo c i
      → total (turn server x format D (Turn.goes i now) c).threads < total c.threads
  unfolding turn
  CanGo-total c i now g =
      let t' = (step server x format D now g.thread c).0 in
      let turned : (turn server x format D (Turn.goes i now) c).threads ≡ set c.threads i t' =
        ground (arith, g.here) in
      omega (arith, ap total turned, total-set c.threads i g.thread t' g.here, g.nearer now)

  module _ (json : IsJson format) where
    finish :
        (n : ℕ) (es : List WriteEntry) (c : Calls T S)
        → total c.threads ≤ n
        → IsFine server x format D es c
        → (us : List (Turn S)) × HaveReturned (turns server x format D us c).threads
    unfolding turns
    finish zero es c h f = ([], total-HaveReturned c.threads (omega arith))
    finish (suc n) es c h f = elim (dec_lt 0 (total c.threads)) [
      | no none_left ↦ ([], total-HaveReturned c.threads (omega arith))
      | yes more ↦
          let (i, g) = IsFine-CanGo es c f more in
          let u : Turn S = Turn.goes i (pos 0) in
          let nearer = CanGo-total c i (pos 0) g in
          let (us, all) =
            finish n _ (turn server x format D u c) (omega (arith, nearer))
              (turn-IsFine server x format D json es c u f) in
          (u ∷ us, all)
    ]

    -- No call waits for ever: on a journal that holds some entries, with no fault to come, however far
    -- calls that write to one database or close it, and bind no float, have come, whatever the server
    -- has answered, there are turns after which every one of them has returned.
    pub turns-finish :
        (cs : List (Call T)) (es : List WriteEntry) (s : S) (j : Journal) (us : List (Turn S))
        → BindNoFloat server x format D cs
        → IsDurable format es j
        → (vs : List (Turn S)) × HaveReturned
            (turns server x format D vs
              (turns server x format D us (begun server x format D cs s j))).threads
    turns-finish cs es s j us floats d =
        let c = begun server x format D cs s j in
        let fine =
          turns-IsFine server x format D json us es c
            (begun-IsFine server x format D json cs es s j floats d) in
        let end = turns server x format D us c in
        finish (total end.threads) _ end (omega arith) fine
