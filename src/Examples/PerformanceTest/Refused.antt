-- ===== src/Examples/PerformanceTest/Refused.antt =====
-- src/examples/performance_test.rs against a server whose table is the one that the program makes.
use db233_rust.Common.{
  ℕ, suc, ◌+◌, ◌*◌, ℤ, pos, ◌≡◌, ◌≢◌, refl, List, [], ◌∷◌, ◌++◌, Text, codes, text_discrete, join,
  subst, sym,
}
use db233_rust.Errors.{ok, Outcome, >>=-inverts}
use db233_rust.Wal.{EntryFormat}
use db233_rust.Json.{Json, Fields, insert_field, object_entries}
use db233_rust.Extern.{Extern}
use db233_rust.Entity.{BaseEntity, WithBase, define_entity_with_base}
use db233_rust.Orm.Build.{Statement, on_duplicate_text}
use db233_rust.Orm.Batch.{batch_text, batch_columns, batch_rows, build_batch_upsert_sql}
use db233_rust.Orm.Embedded.{IsDerived}
use db233_rust.Session.Lru.{Lru}
use db233_rust.Db.{Server, State, exec, exec_recorded, save_batch_upsert}
use db233_rust.Game
use db233_rust.Game.{Environment, Game}
use db233_rust.Examples.{config, in_db, exec_ignored}
use db233_rust.Examples.Answers.{and_then-inverts, IsRefused, exec_refused}
use db233_rust.Examples.PerformanceTest.{
  Player, Random, player, range, batch, players, insert_batches, run, main, create_performance_test,
}

-- What the statement of every batch begins with.
abbrev batch_sql : Text
batch_sql = codes "INSERT INTO performance_test (base, data, name, score) VALUES "

-- What `serde` derives for the three fields of the struct.
abbrev player_fields : {N : Type 0} → Extern N → Player → Fields N
player_fields x p = Fields.field (codes "data") (Json.string p.text_data) (
    Fields.field (codes "name") (Json.string p.name)
      (Fields.field (codes "score") (Json.number (x.number_of_i64 p.score)) Fields.end))

module _ {N : Type 0} (x : Extern N) (serialize : WithBase Player → Outcome Text)
    (deserialize : Json N → Outcome (WithBase Player)) (base_fields : BaseEntity → Fields N)
    (h : IsDerived x
      (codes "performance_test")
      serialize
      deserialize
      base_fields
      (player_fields x)) where
  abbrev clause : List Text
  clause =
      codes "base = VALUES(base)"
      ∷ codes "data = VALUES(data)"
      ∷ codes "name = VALUES(name)"
      ∷ codes "score = VALUES(score)"
      ∷ []

  batch_text-columns :
      (rows_sql assignments : List Text)
      → batch_text
          (codes "performance_test")
          (codes "base" ∷ codes "data" ∷ codes "name" ∷ codes "score" ∷ [])
          rows_sql
          assignments
        ≡ batch_sql ++ (join (codes ", ") rows_sql ++ on_duplicate_text assignments)
  unfolding batch_text join
  batch_text-columns rows_sql assignments = refl

  build_batch_upsert_sql-starts :
      (first : WithBase Player) (rest : List (WithBase Player)) (statement : Statement)
      → build_batch_upsert_sql x (players serialize deserialize) (first ∷ rest) ≡ ok statement
      → (text : Text) × (statement.0 ≡ batch_sql ++ text)
  unfolding build_batch_upsert_sql batch_columns insert_field object_entries text_discrete
      define_entity_with_base
  build_batch_upsert_sql-starts first rest statement built =
      let ((values, rows_sql), rows, made) =
        >>=-inverts (batch_rows x (players serialize deserialize) _ (first ∷ rest)) _
          (rw (h.derived first) at built) in
      (
        join (codes ", ") rows_sql ++ on_duplicate_text clause,
        cc (made, batch_text-columns rows_sql clause),
      )

  module _ {S Settings L : Type 0} (format : EntryFormat) (env : Environment S Settings)
      (server : Server S) (lru : Lru L) (random : Random)
      (refuses : (text : Text) → IsRefused server (batch_sql ++ text)) where
    save_batch_upsert_refused :
        (now : ℤ) (first : WithBase Player) (rest : List (WithBase Player)) (st : State S) (n : ℕ)
        → (save_batch_upsert server x format
            (players serialize deserialize)
            now
            (first ∷ rest)
            st).0
          ≢ ok n
    unfolding save_batch_upsert exec_recorded
    save_batch_upsert_refused now first rest st n done =
        let (statement, built, sending) =
          and_then-inverts (build_batch_upsert_sql x (players serialize deserialize) (first ∷ rest))
            st _ n done in
        let (text, e) = build_batch_upsert_sql-starts first rest statement built in
        let (m, sent, _) =
          and_then-inverts (exec server statement.0 statement.1 st).0
            (exec server statement.0 statement.1 st).1 _ n sending in
        exec_refused server statement.0 statement.1 st m
          (subst (IsRefused server) (sym e) (refuses text)) sent

    insert_batches_refused :
        (clock : ℕ → ℤ) (n i : ℕ) (is : List ℕ) (g : Game S L (Unit {0}))
        → (insert_batches x format env server lru
            (players serialize deserialize)
            random
            clock
            (suc n)
            (i ∷ is)
            g).0
          ≢ ok tt
    unfolding insert_batches in_db batch range
    insert_batches_refused clock n i is g done =
        let saving =
          in_db
            (save_batch_upsert server x format (players serialize deserialize) (clock i)
              (batch random (suc n) i))
            g in
        let (m, saved, _) = and_then-inverts saving.0 saving.1 _ tt done in
        save_batch_upsert_refused (clock i) (player random (i * suc n + 1)) _ _ m saved

    -- Where `serde` derives the entity as documented and the server refuses every statement that
    -- names the columns `base`, `data`, `name` and `score`, of which the program's own table lacks
    -- `base`, the program does not get past its first batch: `main` does not return `Ok`.
    main_refuses_batch :
        (inserting updating : ℕ → ℤ)
        → main x format env server lru (players serialize deserialize) random inserting updating
          ≢ ok tt
    unfolding main run range
    main_refuses_batch inserting updating done =
        let (g, made, rest) = >>=-inverts (Game.new env server config (pos 1)) _ done in
        let made_tables =
          exec_ignored server (codes "TRUNCATE TABLE performance_test")
            (exec_ignored server create_performance_test g) in
        let inserts =
          insert_batches x format env server lru (players serialize deserialize) random inserting
            1000 (range 0 10) made_tables in
        let (_, inserted, _) = and_then-inverts inserts.0 inserts.1 _ tt rest in
        insert_batches_refused inserting 999 0 (range 1 9) made_tables inserted
