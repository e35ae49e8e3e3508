-- ===== src/Db/Interleaved/Turns.antt =====
-- What the turns of one call of src/db.rs do where no other call goes on between them.
use db233_rust.Common.{
  ℕ, zero, suc, ℤ, ◌≡◌, refl, ap, ◌∙◌, true, false, List, [], ◌∷◌, ◌++◌, some, Text, arith,
  get_elem?, set, get_elem?-set,
}
use db233_rust.Errors.{ok}
use db233_rust.SqlValue.{Value}
use db233_rust.Extern.{Extern}
use db233_rust.Entity.{DbEntity}
use db233_rust.Wal.{
  WriteEntry, EntryFormat, Journal, entry_of, record_write, write_and_flush, buffer_text, flush,
}
use db233_rust.Wal.Recovery.{IsJson, IsDurable, are_loggable, record_write_clean}
use db233_rust.Wal.Interleaved
use db233_rust.Wal.Interleaved.{Shared, Writer, enter_record, write_locked, flush_locked, lock}
use db233_rust.Wal.Interleaved.Carried.{
  write_line-ok, flush-IsFlushed, buffer_text-Carries, IsDurable-Carries,
}
use db233_rust.Db.{Server}
use db233_rust.Db.Interleaved.{
  Answer, Thread, Calls, Turn, step, turn, turns, write, recorded_or, behind,
}

set-set {ℓ} : {A : Type ℓ} (xs : List A) (i : ℕ) (u v : A) → set (set xs i u) i v ≡ set xs i v
set-set [] i u v = refl
set-set (x ∷ xs) zero u v = refl
set-set (x ∷ xs) (suc i) u v = ap (◌∷◌ x) (set-set xs i u v)

-- A journal that nobody uses.
abbrev pub unused : Journal → Shared
unused j = record { journal = j; locked = false }

abbrev used : Journal → Shared
used j = record { journal = j; locked = true }

module _ {N : Type 0} (x : Extern N) (format : EntryFormat) where
  -- The accesses of one write without faults, from the journal `j` to the journal `k`.
  pub record Writes (now : ℤ) (sql : Text) (params : List Value) (j k : Journal) : Type 0 where
    line : Text
    buffered : Journal
    entering :
        Interleaved.step x format now (Writer.enters sql params) (unused j)
        ≡ (Writer.waits (entry_of x format now sql params) line, unused j)
    writing :
        Interleaved.step x format now
          (Writer.writes (entry_of x format now sql params) line)
          (used j)
        ≡ (Writer.flushes (entry_of x format now sql params), used buffered)
    flushing :
        Interleaved.step x format now
          (Writer.flushes (entry_of x format now sql params))
          (used buffered)
        ≡ (Writer.returned (ok tt), unused k)

  -- It leaves the journal that `record_write` leaves.
  pub record_write-Writes :
      (json : IsJson format) (es : List WriteEntry) (now : ℤ) (sql : Text) (params : List Value)
      (j : Journal)
      → are_loggable (entry_of x format now sql params).params ≡ true
      → IsDurable format es j
      → Writes now sql params j (record_write x format now sql params j).1
  unfolding Interleaved.step enter_record write_locked flush_locked
  record_write-Writes json es now sql params j loggable d =
      let (line, encoded, is_line) = json.encodes (entry_of x format now sql params) loggable in
      let b = buffer_text (line ++ b'\n' ∷ []) j in
      let clean = write_line-ok line j d.undisturbed in
      let done : record_write x format now sql params j ≡ flush b =
        record_write_clean x format json j now sql params line d.accepts encoded
        ∙ unfold write_and_flush in ground (arith, clean) in
      record {
        line = line;
        buffered = b;
        entering = ground (arith, d.accepts, encoded);
        writing = ground (arith, clean);
        flushing = ground (
          arith,
          done,
          (flush-IsFlushed format (es ++ entry_of x format now sql params ∷ []) b (
              buffer_text-Carries format es _ line j is_line
                (IsDurable-Carries format es j d))).done,
        );
      }

module _ {N T S : Type 0} (server : Server S) (x : Extern N) (format : EntryFormat)
    (D : DbEntity N T) where
  -- A turn in the journal.
  write-turn :
      (i : ℕ) (now : ℤ) (a : Answer T) (w w' : Writer) (shared shared' : Shared) (c : Calls T S)
      → get_elem? c.threads i ≡ some (Thread.records a w)
      → c.write_journal ≡ some shared
      → Interleaved.step x format now w shared ≡ (w', shared')
      → turn server x format D (Turn.goes i now) c
        ≡ record c { threads = set c.threads i (recorded_or a w'); write_journal = some shared' }
  unfolding turn step write
  write-turn i now a w w' shared shared' c at_i here e = ground (arith, at_i, here, e)

  -- The call at `i` is at `t`, and the journal is `s`.
  abbrev at_in : Calls T S → ℕ → Thread T → Shared → Calls T S
  at_in c i t s = record c { threads = set c.threads i t; write_journal = some s }

  next-turn :
      (i : ℕ) (now : ℤ) (a : Answer T) (u : Thread T) (w w' : Writer) (shared shared' : Shared)
      (c : Calls T S)
      → get_elem? c.threads i ≡ some u
      → Interleaved.step x format now w shared ≡ (w', shared')
      → turn server x format D (Turn.goes i now) (at_in c i (Thread.records a w) shared)
        ≡ at_in c i (recorded_or a w') shared'
  next-turn i now a u w w' shared shared' c at_i e =
      let here : get_elem? (set c.threads i (Thread.records a w)) i ≡ some (Thread.records a w) =
        ground (arith, get_elem?-set c.threads i i (Thread.records a w)) in
      write-turn i now a w w' shared shared' (at_in c i (Thread.records a w) shared) here refl e
      ∙ ap (λ (ts : List (Thread T)). record c { threads = ts; write_journal = some shared' })
          (set-set c.threads i (Thread.records a w) (recorded_or a w'))

  -- The four turns of a write.
  abbrev pub four : ℕ → ℤ → List (Turn S)
  four i now = Turn.goes i now ∷ Turn.goes i now ∷ Turn.goes i now ∷ Turn.goes i now ∷ []

  pub four-turns :
      (i : ℕ) (now : ℤ) (a : Answer T) (sql : Text) (params : List Value) (j k : Journal)
      (c : Calls T S)
      → get_elem? c.threads i ≡ some (Thread.records a (Writer.enters sql params))
      → c.write_journal ≡ some (unused j)
      → Writes x format now sql params j k
      → turns server x format D (four i now) c
        ≡ at_in c i (Thread.returned (behind (ok tt) a)) (unused k)
  unfolding turns Interleaved.step lock
  four-turns i now a sql params j k c at_i here w =
      let e = entry_of x format now sql params in
      let u = Thread.records a (Writer.enters sql params) in
      rw
        (
          write-turn i now a (Writer.enters sql params) (Writer.waits e w.line) (unused j)
              (unused j) c at_i here w.entering,
          next-turn i now a u (Writer.waits e w.line) (Writer.writes e w.line) (unused j) (used j) c
              at_i refl,
          next-turn i now a u (Writer.writes e w.line) (Writer.flushes e) (used j) (used w.buffered)
              c at_i w.writing,
          next-turn i now a u (Writer.flushes e) (Writer.returned (ok tt)) (used w.buffered)
              (unused k) c at_i w.flushing,
        )
        refl

  pub turns-append :
      (us vs : List (Turn S)) (c : Calls T S)
      → turns server x format D (us ++ vs) c
        ≡ turns server x format D vs (turns server x format D us c)
  unfolding turns
  turns-append [] vs c = refl
  turns-append (u ∷ us) vs c = turns-append us vs (turn server x format D u c)
