-- ===== src/Examples/GameServer/Refused.antt =====
-- src/examples/game_server.rs under the names that the compiler gives to its types.
use db233_rust.Game.Initialized.{init_game_db_done}
use db233_rust.Session.Invariant.{contains_key-insert}
use db233_rust.Common.{
  subst, ℕ, ℤ, pos, ◌≡◌, ◌≢◌, refl, false, Bool, List, [], ◌∷◌, ◌++◌, Option, none, some,
  Option-cases, inl, inr, Text, arith, get, insert, contains_key, get-insert, get_elem?, set,
  get_elem?-set, length, get_elem?-append_one, ◌⊎◌, Bool-cases,
}
use db233_rust.Errors.{Result, ok, panic, Result-cases, >>=-inverts}
use db233_rust.Extern.{Extern}
use db233_rust.Wal.{EntryFormat}
use db233_rust.Config.{
  PerformanceConfig, EntityCacheConfig, CacheableEntitySpec, DbConnectionConfig, GameDbOptions,
}
use db233_rust.Session.{EntityType, Rules, World, is_cacheable, put, get_or_load}
use db233_rust.Session.Lru.{Lru}
use db233_rust.Session.Repository
use db233_rust.Session.Repository.{Store, register, open_session, load_types, start_flush_task}
use db233_rust.Db.{Server, State}
use db233_rust.Game
use db233_rust.Game.{
  Environment, Database, Game, init_game_db, performance_config, clone, enable_configured,
}
use db233_rust.Game.Sessions.{in_repository, in_session, world_of, put_back}
use db233_rust.Examples.{config, exec_ignored}
use db233_rust.Examples.Answers.{and_then-inverts}
use db233_rust.Examples.GameServer.{
  Derived, Content, options, registered_base, registered_bag, base_type, next_base, visit, run,
  main, player_id, create_player_base, create_player_bag, find_content,
}

module _ {S L E A : Type 0} (a p : ℕ)
    (method : Rules → World (State S) E → Result A × World (State S) E) (g : Game S L E) where
  -- A call on a session is no call, or the method on the session that is there.
  record IsCall (st : Store L Database E) (w : World (State S) E) : Type 0 where
    here : get_elem? g.repositories a ≡ some st
    result : (in_session a p method g).0 ≡ (method st.repo.rules w).0
    after : (in_session a p method g).1 ≡ put_back a p st (method st.repo.rules w).1 g

  in_session-cases :
      (in_session a p method g ≡ (panic, g))
      ⊎ ((st : Store L Database E) × (w : World (State S) E) × IsCall st w)
  unfolding in_session
  in_session-cases = elim (Option-cases (get_elem? g.repositories a)) [
    | inl out ↦ inl (rw (out, in_session) refl)
    | inr (st, here) ↦ elim (Option-cases (world_of st g p)) [
      | inl out ↦ inl (rw (here, out, in_session) refl)
      | inr (w, there) ↦ inr (
        st,
        w,
        record {
          here = here;
          result = rw (here, there, in_session) refl;
          after = rw (here, there, in_session) refl;
        },
      )
    ]
  ]

module _ {S L E : Type 0} where
  -- The repository at an address keeps no entity under this name.
  abbrev Refuses : ℕ → Text → Game S L E → Type 0
  Refuses a k g =
      (st : Store L Database E)
      → get_elem? g.repositories a ≡ some st
      → is_cacheable st.repo.rules k ≡ false

  put_back-Refuses :
      (a p : ℕ) (k : Text) (st : Store L Database E) (w : World (State S) E) (g : Game S L E)
      → is_cacheable st.repo.rules k ≡ false
      → get_elem? g.repositories a ≡ some st
      → Refuses a k (put_back a p st w g)
  unfolding put_back
  put_back-Refuses a p k st w g refused here st' at_a =
      let new_store = record st {
        heap = set st.heap p w.session;
        counts = w.counts;
        db = record st.db { write_journal = w.db.write_journal };
      } in
      let same : new_store ≡ st' = ground (arith, get_elem?-set g.repositories a a new_store) in
      subst (λ (u : Store L Database E). is_cacheable u.repo.rules k ≡ false) same refused

  in_session-Refuses :
      {A : Type 0} (a p : ℕ) (method : Rules → World (State S) E → Result A × World (State S) E)
      (k : Text) (g : Game S L E)
      → Refuses a k g
      → Refuses a k (in_session a p method g).1
  in_session-Refuses a p method k g refuses = elim (in_session-cases a p method g) [
    | inl out ↦ rw out refuses
    | inr (st, w, c) ↦ rw (c.after) (put_back-Refuses a p k st _ g (refuses st c.here) c.here)
  ]

  put_refused :
      (a p : ℕ) (now : ℤ) (T : EntityType) (e : E) (g : Game S L E)
      → Refuses a T.type_name g
      → (in_session a p (λ rules w. put rules now T e w) g).0 ≢ ok tt
  put_refused a p now T e g refuses done =
      elim (in_session-cases a p (λ rules w. put rules now T e w) g) [
        | inl out ↦ cc (rw out at done)
        | inr (st, w, c) ↦
            let refused = refuses st c.here in let r = c.result in unfold put in ground arith
      ]

contains_key-nil : (k : Text) → contains_key {0} {V = Unit {0}} k [] ≡ false
unfolding contains_key get
contains_key-nil k = refl

two_names :
    (n m k : Text)
    → k ≢ n
    → k ≢ m
    → contains_key {0} {V = Unit {0}} k (insert m tt (insert n tt [])) ≡ false
two_names n m k other other' = ground (
  arith,
  contains_key-insert m k tt (insert n tt []),
  contains_key-insert n k tt [],
  contains_key-nil k,
)

-- The names that a new repository takes for cacheable.
new-cacheable_types :
    {L D : Type 0} (E : Type 0) (lru : Lru L) (db : D) (cache : EntityCacheConfig)
    (specs : List CacheableEntitySpec)
    → (Repository.new {E = E} lru db cache specs).repo.rules.cacheable_types
      ≡ (register specs (record {
        cacheable_types = [];
        entity_type_limits = [];
        entity_type_counts = [];
      })).cacheable_types
unfolding Repository.new start_flush_task
new-cacheable_types E lru db cache specs = ground arith

module _ {S Settings L E : Type 0} (env : Environment S Settings) (server : Server S) (lru : Lru L)
    (conf : DbConnectionConfig) (opts : GameDbOptions) (g : Game S L E) where
  -- What stands at the address that `init_game_db` answers.
  record IsMade (a : ℕ) : Type 0 where
    db : Database
    perf : PerformanceConfig
    here :
        get_elem? (init_game_db env server lru conf opts g).1.repositories a
        ≡ some (Repository.new lru db perf.entity_cache opts.cacheable_entities)

  init_game_db-IsMade : (a : ℕ) → (init_game_db env server lru conf opts g).0 ≡ ok a → IsMade a
  init_game_db-IsMade a done =
      elim (Result-cases (performance_config env opts.performance_config_path)) [
        | inr failed ↦ absurd (unfold init_game_db in ground arith)
        | inl (perf, loaded) ↦ elim (Result-cases (enable_configured env server perf g.db).0) [
          | inr failed ↦ absurd (unfold init_game_db in ground arith)
          | inl (_, enabled) ↦
              let db = clone (enable_configured env server perf g.db).1 in
              let e = init_game_db_done env server lru conf opts g perf loaded enabled in
              record {
                db = db;
                perf = perf;
                here = ground (
                  arith,
                  get_elem?-append_one g.repositories
                      (Repository.new lru db perf.entity_cache opts.cacheable_entities) a,
                );
              }
        ]
      ]

module _ {N S Settings L : Type 0} (x : Extern N) (format : EntryFormat)
    (env : Environment S Settings) (server : Server S) (lru : Lru L) (derived : Derived N)
    (overflow_checks : Bool) where
  visit_refused :
      (now later : ℤ) (T : EntityType) (next : Option Content → Result Content) (a p : ℕ)
      (g : Game S L Content)
      → Refuses a T.type_name g
      → (visit x format env server lru derived overflow_checks now later T next a p g).0 ≢ ok tt
  unfolding visit
  visit_refused now later T next a p g refuses done =
      let load =
        in_session a p
          (λ rules w.
            get_or_load rules (find_content x format env server lru derived overflow_checks) now T
              w)
          g in
      let (found, loaded, rest) = and_then-inverts load.0 load.1 _ tt done in
      let (e, made, putting) = and_then-inverts (next found) load.1 _ tt rest in
      put_refused a p later T e load.1 (in_session-Refuses a p _ T.type_name g refuses) putting

  -- The rules of a repository that has registered the two names.
  registered-Refuses :
      (k : Text)
      → k ≢ registered_base
      → k ≢ registered_bag
      → (db : Database) (perf : PerformanceConfig)
      → is_cacheable
          (Repository.new {E = Content} lru db perf.entity_cache
            options.cacheable_entities).repo.rules
          k
        ≡ false
  unfolding is_cacheable register insert options db233_rust.Common.text_discrete
  registered-Refuses k other other' db perf =
      rw
        (
          new-cacheable_types Content lru db perf.entity_cache options.cacheable_entities,
          is_cacheable,
        )
        (two_names registered_base registered_bag k other other')

  init_game_db-Refuses :
      (k : Text) (a : ℕ) (g : Game S L Content)
      → k ≢ registered_base
      → k ≢ registered_bag
      → (init_game_db env server lru config options g).0 ≡ ok a
      → Refuses a k (init_game_db env server lru config options g).1
  init_game_db-Refuses k a g other other' done st at_a =
      let m = init_game_db-IsMade env server lru config options g a done in
      let same : Repository.new lru m.db m.perf.entity_cache options.cacheable_entities ≡ st =
        grind (arith, m.here) in
      subst (λ (u : Store L Database Content). is_cacheable u.repo.rules k ≡ false) same
        (registered-Refuses k other other' m.db m.perf)

  open_session-rules :
      (now id : ℤ) (types : List Text) (st : Store L Database Content)
      → (open_session lru now id types st).1.repo.rules ≡ st.repo.rules
  unfolding open_session
  open_session-rules now id types st = elim (Bool-cases st.repo.rules.config.enabled) [
    | inr off ↦ ground arith
    | inl on ↦ elim (Result-cases (load_types st.repo.rules types)) [
      | inl (_, done) ↦ ground arith
      | inr failed ↦ ground arith
    ]
  ]

  open_session-Refuses :
      (a : ℕ) (k : Text) (now id : ℤ) (types : List Text) (g : Game S L Content)
      → Refuses a k g
      → Refuses a k (in_repository a (open_session lru now id types) g).1
  unfolding in_repository
  open_session-Refuses a k now id types g refuses st' at_a =
      elim (Option-cases (get_elem? g.repositories a)) [
        | inl out ↦ refuses st' (rw (out, in_repository) at at_a)
        | inr (st, here) ↦
            let after = (open_session lru now id types st).1 in
            let same : after ≡ st' = ground (arith, get_elem?-set g.repositories a a after) in
            subst (λ (u : Store L Database Content). is_cacheable u.repo.rules k ≡ false) same
              (rw (open_session-rules now id types st) (refuses st here))
      ]

  run_refused :
      (clock : ℕ → ℤ) (g : Game S L Content)
      → derived.base_type_name ≢ registered_base
      → derived.base_type_name ≢ registered_bag
      → (run x format env server lru derived overflow_checks clock g).0 ≢ ok tt
  unfolding run
  run_refused clock g other other' done =
      let made = exec_ignored server create_player_bag (exec_ignored server create_player_base g) in
      let init = init_game_db env server lru config options made in
      let (a, initialized, rest) = and_then-inverts init.0 init.1 _ tt done in
      let opening =
        in_repository a
          (open_session lru (clock 0) (pos player_id) (registered_base ∷ registered_bag ∷ []))
          init.1 in
      let (p, opened, rest') = and_then-inverts opening.0 opening.1 _ tt rest in
      let visiting =
        visit x format env server lru derived overflow_checks (clock 1) (clock 3)
          (base_type x format env server lru derived overflow_checks)
          (next_base overflow_checks (clock 2)) a p opening.1 in
      let (_, visited, _) = and_then-inverts visiting.0 visiting.1 _ tt rest' in
      visit_refused (clock 1) (clock 3) _ (next_base overflow_checks (clock 2)) a p opening.1
        (open_session-Refuses a derived.base_type_name (clock 0) (pos player_id) _ init.1
          (init_game_db-Refuses derived.base_type_name a made other other' initialized))
        visited

  -- Under a name of the type of the player's entity that is neither of the two names that the example
  -- registers, the example never succeeds: whatever the database answers and whatever the journal
  -- and the configuration are, `main` does not return `Ok`.
  pub main_refused :
      (clock : ℕ → ℤ)
      → derived.base_type_name ≢ registered_base
      → derived.base_type_name ≢ registered_bag
      → main x format env server lru derived overflow_checks clock ≢ ok tt
  unfolding main
  main_refused clock other other' done =
      let (g, made, rest) = >>=-inverts (Game.new env server config (pos 1)) _ done in
      run_refused clock g other other' rest
