-- ===== src/Db/Interleaved/Replayed.antt =====
-- The journal of src/db.rs after calls that have cut into one another.
use db233_rust.Errors.{ok}
use db233_rust.Wal.Interleaved.Carried.{replay-Carries, IsDurable-Carries}
use db233_rust.Common.{
  ℕ, ℤ, ◌≡◌, refl, ◌∙◌, false, List, [], ◌∷◌, ◌++◌, some, Option-cases, inl, inr, append-nil,
  append_assoc, arith, get_elem?, set, get_elem?-set, ℕ_discrete, subst, zero, suc, map,
}
use db233_rust.Extern.{Extern}
use db233_rust.Entity.{DbEntity}
use db233_rust.Wal.{EntryFormat, WriteEntry, Journal, replay}
use db233_rust.Wal.Recovery.{IsJson, IsDurable}
use db233_rust.Wal.Interleaved
use db233_rust.Wal.Interleaved.{Shared, Writer}
use db233_rust.Wal.Interleaved.Held.{holds, IsReady, flushed, IsSafe, Goes, quiet-IsSafe}
use db233_rust.Wal.Interleaved.Safe.{step-IsSafe}
use db233_rust.Db.{Server}
use db233_rust.Db.Interleaved.{
  Answer, Thread, Calls, Turn, step, turn, turns, write, recorded_or, writer_of, writer_at, Call,
  begin, begun,
}
use db233_rust.Db.Interleaved.Quiet.{
  BindsNoFloat, IsQuiet, writer_of-IsReady, recorded_or-writer, recorded_or-floats, send-IsQuiet,
  number_entity-IsQuiet, returned-IsQuiet,
}

module _ {N T S : Type 0} (server : Server S) (x : Extern N) (format : EntryFormat)
    (D : DbEntity N T) where
  -- What the calls put into the journal, in the order in which their flushes end.
  abbrev pub recorded_in : Turn S → Calls T S → List WriteEntry
  recorded_in (Turn.goes i now) c = flushed x format (writer_at c.threads i)
  recorded_in (Turn.others s) c = []

  unfoldable pub recorded : List (Turn S) → Calls T S → List WriteEntry
  recorded [] c = []
  recorded (u ∷ us) c = recorded_in u c ++ recorded us (turn server x format D u c)

  -- No call binds a float in what it records.
  abbrev pub BindNoFloat : List (Call T) → Type 0
  BindNoFloat [] = Unit
  BindNoFloat (call ∷ cs) =
      BindsNoFloat server x format D (begin server x format D call) × BindNoFloat cs

  set-Goes :
      (ts : List (Thread T)) (i : ℕ) (t t' : Thread T)
      → get_elem? ts i ≡ some t
      → Goes x format (writer_at ts) (writer_at (set ts i t')) i (writer_of t')
  set-Goes ts i t t' here = record {
    there = ground (arith, get_elem?-set ts i i t');
    rest = λ j other. ground (arith, get_elem?-set ts i j t');
  }

  -- The journal and all calls, with the entries that the journal has for good.
  pub record IsFine (es : List WriteEntry) (c : Calls T S) : Type 0 where
    pub shared : Shared
    pub here : c.write_journal ≡ some shared
    pub safe : IsSafe x format es (writer_at c.threads) shared
    pub floats :
        (i : ℕ) (t : Thread T) → get_elem? c.threads i ≡ some t → BindsNoFloat server x format D t

  floats-set :
      (ts : List (Thread T)) (i : ℕ) (t' : Thread T)
      → BindsNoFloat server x format D t'
      → ((j : ℕ) (t : Thread T) → get_elem? ts j ≡ some t → BindsNoFloat server x format D t)
      → (j : ℕ) (t : Thread T) → get_elem? (set ts i t') j ≡ some t
      → BindsNoFloat server x format D t
  floats-set ts i t' h all j t at_j = elim (ℕ_discrete i j) [
    | yes same ↦ subst (BindsNoFloat server x format D) (ground (arith, get_elem?-set ts i j t')) h
    | no other ↦ all j t (ground (arith, get_elem?-set ts i j t'))
  ]

  quiet-IsFine :
      (es : List WriteEntry) (c : Calls T S) (i : ℕ) (t : Thread T) (r : Thread T × Calls T S)
      → get_elem? c.threads i ≡ some t
      → holds (writer_of t) ≡ false
      → IsQuiet server x format D c r
      → IsFine es c
      → IsFine es (record r.1 { threads = set c.threads i r.0 })
  quiet-IsFine es c i t r at_i outside q h = record {
    shared = h.shared;
    here = q.journal ∙ h.here;
    safe =
        quiet-IsSafe x format es _ _ i (writer_of r.0) h.shared h.shared
          (set-Goes c.threads i t r.0 at_i) (ground (arith, outside)) q.outside
          (writer_of-IsReady server x format D r.0 q.floats) refl (refl, refl, refl) h.safe;
    floats = floats-set c.threads i r.0 q.floats h.floats;
  }

  module _ (json : IsJson format) where
    write-IsFine :
        (es : List WriteEntry) (c : Calls T S) (i : ℕ) (now : ℤ) (a : Answer T) (w : Writer)
        → get_elem? c.threads i ≡ some (Thread.records a w)
        → IsFine es c
        → let r = write server x format D now a w c in
          IsFine (es ++ flushed x format w) (record r.1 { threads = set c.threads i r.0 })
    unfolding write
    write-IsFine es c i now a w at_i h =
        let (w', shared) = Interleaved.step x format now w h.shared in
        let e : write server x format D now a w c
            ≡ (recorded_or a w', record c { write_journal = some shared }) =
          rw (h.here, write) refl in
        let g = set-Goes c.threads i (Thread.records a w) (recorded_or a w') at_i in
        let safe =
          step-IsSafe x format json es (writer_at c.threads)
            (writer_at (set c.threads i (recorded_or a w'))) i now h.shared h.safe w
            (ground (arith, at_i)) (rw (recorded_or-writer server x format D a w') at g) in
        rw e (record {
          shared = shared;
          here = refl;
          safe = safe;
          floats =
              floats-set c.threads i (recorded_or a w')
                (recorded_or-floats server x format D a w' (
                  subst (IsReady x format) (g.there ∙ recorded_or-writer server x format D a w')
                    (safe.ready i)))
                h.floats;
        })

    step-IsFine :
        (es : List WriteEntry) (c : Calls T S) (i : ℕ) (now : ℤ) (t : Thread T)
        → get_elem? c.threads i ≡ some t
        → IsFine es c
        → let r = step server x format D now t c in
          IsFine
            (es ++ flushed x format (writer_of t))
            (record r.1 { threads = set c.threads i r.0 })
    unfolding step
    step-IsFine es c i now (Thread.sends built goal) at_i h = rw append-nil (
        quiet-IsFine es c i _ _ at_i refl
          (send-IsQuiet server x format D built goal c (h.floats i _ at_i)) h)
    step-IsFine es c i now (Thread.numbers s e n) at_i h = rw append-nil (
        quiet-IsFine es c i _ _ at_i refl
          (number_entity-IsQuiet server x format D s e n c (h.floats i _ at_i)) h)
    step-IsFine es c i now (Thread.records a w) at_i h = write-IsFine es c i now a w at_i h
    step-IsFine es c i now (Thread.returned a) at_i h =
        rw append-nil
          (quiet-IsFine es c i _ _ at_i refl (returned-IsQuiet server x format D c c a refl) h)

    pub turn-IsFine :
        (es : List WriteEntry) (c : Calls T S) (u : Turn S)
        → IsFine es c
        → IsFine (es ++ recorded_in u c) (turn server x format D u c)
    unfolding turn
    turn-IsFine es c (Turn.others s) h =
        rw append-nil
          (record { shared = h.shared; here = h.here; safe = h.safe; floats = h.floats })
    turn-IsFine es c (Turn.goes i now) h = elim (Option-cases (get_elem? c.threads i)) [
      | inl out ↦
          let none_in : recorded_in (Turn.goes i now) c ≡ [] = ground (arith, out) in
          rw (none_in, append-nil, out, turn) h
      | inr (t, at_i) ↦
          let one_in : recorded_in (Turn.goes i now) c ≡ flushed x format (writer_of t) =
            ground (arith, at_i) in
          rw (one_in, at_i, turn) (step-IsFine es c i now t at_i h)
    ]

    pub turns-IsFine :
        (us : List (Turn S)) (es : List WriteEntry) (c : Calls T S)
        → IsFine es c
        → IsFine (es ++ recorded us c) (turns server x format D us c)
    unfolding turns recorded
    turns-IsFine [] es c h = rw append-nil h
    turns-IsFine (u ∷ us) es c h =
        rw (← append_assoc es (recorded_in u c) (recorded us (turn server x format D u c))) (
          turns-IsFine us (es ++ recorded_in u c) (turn server x format D u c)
            (turn-IsFine es c u h))

    begin-outside : (call : Call T) → holds (writer_of (begin server x format D call)) ≡ false
    unfolding begin
    begin-outside (Call.updates e) = refl
    begin-outside (Call.saves_batch e es) = refl
    begin-outside (Call.saves e) = refl
    begin-outside (Call.deletes e) = refl
    begin-outside (Call.executes sql params) = refl
    begin-outside Call.closes = refl

    begun-outside :
        (cs : List (Call T)) (i : ℕ)
        → holds (writer_at (map (begin server x format D) cs) i) ≡ false
    begun-outside [] i = refl
    begun-outside (call ∷ cs) zero = begin-outside call
    begun-outside (call ∷ cs) (suc i) = begun-outside cs i

    begun-floats :
        (cs : List (Call T)) (i : ℕ) (t : Thread T)
        → BindNoFloat cs
        → get_elem? (map (begin server x format D) cs) i ≡ some t
        → BindsNoFloat server x format D t
    begun-floats [] i t floats at_i = cc
    begun-floats (call ∷ cs) zero t floats at_i =
        subst (BindsNoFloat server x format D) (ground arith) floats.0
    begun-floats (call ∷ cs) (suc i) t floats at_i = begun-floats cs i t floats.1 at_i

    BindsNoFloat-IsReady :
        (ts : List (Thread T))
        → ((i : ℕ) (t : Thread T) → get_elem? ts i ≡ some t → BindsNoFloat server x format D t)
        → (i : ℕ) → IsReady x format (writer_at ts i)
    BindsNoFloat-IsReady [] all i = tt
    BindsNoFloat-IsReady (t ∷ ts) all zero = writer_of-IsReady server x format D t (all zero t refl)
    BindsNoFloat-IsReady (t ∷ ts) all (suc i) = BindsNoFloat-IsReady ts (λ j u e. all (suc j) u e) i

    pub begun-IsFine :
        (cs : List (Call T)) (es : List WriteEntry) (s : S) (j : Journal)
        → BindNoFloat cs
        → IsDurable format es j
        → IsFine es (begun server x format D cs s j)
    begun-IsFine cs es s j floats d =
        let all = λ (i : ℕ) (t : Thread T). begun-floats cs i t floats in
        record {
          shared = record { journal = j; locked = false };
          here = refl;
          safe = record {
            ready = BindsNoFloat-IsReady (map (begin server x format D) cs) all;
            phase = inl (record {
              open_lock = refl;
              idle = begun-outside cs;
              carried = IsDurable-Carries format es j d;
              empty = d.flushed;
            });
          };
          floats = all;
        }

    -- On a journal that holds some entries, with no fault to come: however calls that write to one
    -- database or close it, and bind no float in what they record, are interleaved, whatever the
    -- server answers and other clients do to it, whenever no call is at the writer a replay gives the
    -- old entries and then those that the calls have flushed, each once and whole, in the order of
    -- their flushes.
    pub turns-replay :
        (cs : List (Call T)) (es : List WriteEntry) (s : S) (j : Journal) (us : List (Turn S))
        → BindNoFloat cs
        → IsDurable format es j
        → ((i : ℕ)
            → holds
                (writer_at (turns server x format D us (begun server x format D cs s j)).threads i)
              ≡ false)
        → (shared : Shared) × ((turns server x format D us
              (begun server x format D cs s j)).write_journal
            ≡ some shared)
          × (replay format shared.journal ≡ ok (es ++ recorded us (begun server x format D cs s j)))
    turns-replay cs es s j us floats d outside =
        let fine =
          turns-IsFine us es (begun server x format D cs s j) (begun-IsFine cs es s j floats d) in
        elim fine.safe.phase [
          | inl f ↦ (
            fine.shared,
            fine.here,
            replay-Carries format _ fine.shared.journal f.carried f.empty,
          )
          | inr (i, held) ↦ absurd (cc (outside i, held.here))
        ]
