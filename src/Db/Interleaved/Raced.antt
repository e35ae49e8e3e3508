-- ===== src/Db/Interleaved/Raced.antt =====
-- Calls on one database of src/db.rs that overtake one another.
use db233_rust.Common.{
  ℕ, ℤ, ◌≡◌, refl, ap, ◌∙◌, true, List, [], ◌∷◌, ◌++◌, none, some, append_assoc, arith, get_elem?,
  set,
}
use db233_rust.Errors.{ok}
use db233_rust.Extern.{Extern}
use db233_rust.Entity.{DbEntity}
use db233_rust.Orm.Build.{Statement, build_update_sql}
use db233_rust.Wal.{EntryFormat, WriteEntry, Journal, entry_of, record_write, replay}
use db233_rust.Wal.Recovery.{
  IsJson, IsDurable, are_loggable, record_write-IsDurable, replay-IsDurable,
}
use db233_rust.Wal.Interleaved.{Shared, Writer}
use db233_rust.Db.{Server, State, exec}
use db233_rust.Db.Interleaved.{
  Answer, Goal, Thread, Calls, Turn, Call, begin, begun, step, turn, turns, send, start_record,
  go_on,
}
use db233_rust.Db.Interleaved.Turns.{four, four-turns, record_write-Writes, turns-append, unused}

module _ {N T S : Type 0} (server : Server S) (x : Extern N) (format : EntryFormat)
    (D : DbEntity N T) where
  abbrev state : S → State S
  state s = record { server = s; write_journal = none }

  -- The server executes the statement, and the call comes to the journal.
  send-turn :
      (i : ℕ) (now : ℤ) (s : Statement) (n : ℕ) (st : State S) (shared : Shared) (c : Calls T S)
      → get_elem? c.threads i ≡ some (Thread.sends (ok s) Goal.records_count)
      → c.write_journal ≡ some shared
      → exec server s.0 s.1 (state c.server) ≡ (ok n, st)
      → turn server x format D (Turn.goes i now) c ≡ record c {
        threads = set c.threads i (Thread.records (Answer.counted (ok n)) (Writer.enters s.0 s.1));
        server = st.server;
      }
  unfolding turn step send go_on start_record
  send-turn i now s n st shared c at_i here done = ground (arith, at_i, here, done)

  abbrev entry : ℤ → Statement → WriteEntry
  entry now s = entry_of x format now s.0 s.1

  abbrev pub sending : ℤ → List (Turn S)
  sending now = Turn.goes 0 now ∷ Turn.goes 1 now ∷ []

  -- Both calls are executed in their order; then the second passes the first.
  abbrev pub overtaking : ℤ → ℤ → List (Turn S)
  overtaking now now' =
      sending now ++ (four server x format D 1 now ++ four server x format D 0 now')

  module _ (json : IsJson format) (a b : T) (sa sb : Statement) (n m : ℕ) (es : List WriteEntry)
      (s : S) (st st' : State S) (j : Journal) (now now' : ℤ)
      (built_a : build_update_sql x D a ≡ ok sa) (built_b : build_update_sql x D b ≡ ok sb)
      (no_float_a : are_loggable (entry now' sa).params ≡ true)
      (no_float_b : are_loggable (entry now sb).params ≡ true) (d : IsDurable format es j)
      (done_a : exec server sa.0 sa.1 (state s) ≡ (ok n, st))
      (done_b : exec server sb.0 sb.1 (state st.server) ≡ (ok m, st')) where
    abbrev first_journal : Journal
    first_journal = (record_write x format now sb.0 sb.1 j).1

    abbrev second_journal : Journal
    second_journal = (record_write x format now' sa.0 sa.1 first_journal).1

    abbrev recording : Statement → ℕ → Thread T
    recording s n = Thread.records (Answer.counted (ok n)) (Writer.enters s.0 s.1)

    abbrev both : List (Thread T) → S → Journal → Calls T S
    both ts srv k = record { threads = ts; server = srv; write_journal = some (unused k) }

    both_sent :
        turns server x format D
          (sending now)
          (begun server x format D (Call.updates a ∷ Call.updates b ∷ []) s j)
        ≡ both (recording sa n ∷ recording sb m ∷ []) st'.server j
    unfolding turns begin
    both_sent =
        rw
          (
            built_a,
            built_b,
            send-turn 0 now sa n st (unused j)
                (both
                  (Thread.sends (ok sa) Goal.records_count
                    ∷ Thread.sends (ok sb) Goal.records_count
                    ∷ [])
                  s j)
                refl refl done_a,
            send-turn 1 now sb m st' (unused j)
                (both (recording sa n ∷ Thread.sends (ok sb) Goal.records_count ∷ []) st.server j)
                refl refl done_b,
          )
          refl

    -- Where two updates that bind no float are called at once and no fault is to come, the turns
    -- `overtaking` let the server execute the first before the second; both calls answer `Ok`, and the
    -- journal has the second before the first, so a replay writes them the other way round.
    pub update-reordered :
        (shared : Shared) × (turns server x format D
            (overtaking now now')
            (begun server x format D (Call.updates a ∷ Call.updates b ∷ []) s j)
          ≡ record {
            threads =
                Thread.returned (Answer.counted (ok n))
                ∷ Thread.returned (Answer.counted (ok m))
                ∷ [];
            server = st'.server;
            write_journal = some shared;
          })
        × (replay format shared.journal ≡ ok (es ++ entry now sb ∷ entry now' sa ∷ []))
    update-reordered =
        let (_, held) = record_write-IsDurable x format json es j now sb.0 sb.1 d no_float_b in
        let (_, held') =
          record_write-IsDurable x format json _ first_journal now' sa.0 sa.1 held no_float_a in
        let w = record_write-Writes x format json es now sb.0 sb.1 j no_float_b d in
        let w' = record_write-Writes x format json _ now' sa.0 sa.1 first_journal no_float_a held in
        (
          unused second_journal,
          rw
              (
                turns-append server x format D (sending now),
                both_sent,
                turns-append server x format D (four server x format D 1 now),
                four-turns server x format D 1 now (Answer.counted (ok m)) sb.0 sb.1 j first_journal
                    (both (recording sa n ∷ recording sb m ∷ []) st'.server j) refl refl w,
                four-turns server x format D 0 now' (Answer.counted (ok n)) sa.0 sa.1 first_journal
                    second_journal
                    (both (recording sa n ∷ Thread.returned (Answer.counted (ok m)) ∷ []) st'.server
                      first_journal)
                    refl refl w',
              )
              refl,
          replay-IsDurable format _ second_journal held'
              ∙ ap ok (append_assoc es (entry now sb ∷ []) (entry now' sa ∷ [])),
        )
