-- ===== src/Session/Repository.antt =====
-- src/session.rs: `SessionRepository` over the sessions that it shares with its clients and with its
-- flush task.
pub mod ByPlayer
pub mod History
pub mod Invariant
pub mod Task
pub mod Flushed
pub mod Evicted
use db233_rust.Common.{
  ℕ, suc, ltb, ◌==◌, ℤ, Bool, true, false, List, [], ◌∷◌, ◌++◌, Option, none, some, map, Text, Map,
  insert, length, if◌then◌else◌, get_elem?, set,
}
use db233_rust.Errors.{Result, ok, err, panic}
use db233_rust.Config.{EntityCacheConfig, CacheableEntitySpec}
use db233_rust.Session.{Set, Rules, Session, World, is_cacheable, flush}
use db233_rust.Session
use db233_rust.Session.Lru.{Lru, Entries}

-- A handle: what it shares with its clones is in `Store`, but for the cache of sessions, which only
-- it and its flush task use. The task is its own `running` flag, as its clone of the handle has one.
pub record Repository (L : Type 0) : Type 0 where
  pub rules : Rules
  pub sessions : L
  pub running : Bool
  pub flush_task : Option Bool

-- Every session that was made, at its address; the counts and the database that they share.
pub record Store (L D E : Type 0) : Type 0 where
  pub repo : Repository L
  pub heap : List (Session E)
  pub counts : Map ℕ
  pub db : D

-- The three maps that the loop over `cacheable_entities` fills.
pub record Registry : Type 0 where
  pub cacheable_types : Set
  pub entity_type_limits : Map ℕ
  pub entity_type_counts : Map ℕ

unfoldable pub register : List CacheableEntitySpec → Registry → Registry
register [] r = r
register (spec ∷ specs) r = register specs (record {
  cacheable_types = insert spec.prototype_name tt r.cacheable_types;
  entity_type_limits = insert spec.prototype_name spec.max_instances r.entity_type_limits;
  entity_type_counts = insert spec.prototype_name 0 r.entity_type_counts;
})

-- `NonZeroUsize::new(..).unwrap_or(1000)`
abbrev pub capacity : EntityCacheConfig → ℕ
capacity config = if config.max_sessions == 0 then 1000 else config.max_sessions

-- `load_entity_type` and the loop that calls it.
abbrev load_entity_type : Text → Result (Unit {0})
load_entity_type entity_type = ok tt

unfoldable pub load_types : Rules → List Text → Result (Unit {0})
load_types rules [] = ok tt
load_types rules (entity_type ∷ rest) =
    let more = load_types rules rest in
    if is_cacheable rules entity_type
    then elim (load_entity_type entity_type) [ ok _ ↦ more | err e ↦ err e | panic ↦ panic ]
    else more

module _ {L : Type 0} where
  -- `impl Clone`
  unfoldable pub clone : Repository L → Repository L
  clone repo = record repo { running = true; flush_task = none }

  -- The task's flag is that of the clone that it was given.
  unfoldable pub start_flush_task : Repository L → Repository L
  unfolding clone
  start_flush_task repo = record repo { flush_task = some (clone repo).running }

module _ {L D E : Type 0} (lru : Lru L) where
  -- `SessionRepository::new`
  unfoldable pub new : D → EntityCacheConfig → List CacheableEntitySpec → Store L D E
  unfolding start_flush_task register
  new db config cacheable_entities =
      let r : Registry =
        register cacheable_entities
          (record { cacheable_types = []; entity_type_limits = []; entity_type_counts = [] }) in
      let repo : Repository L = record {
        rules = record {
          config = config;
          cacheable_types = r.cacheable_types;
          entity_type_limits = r.entity_type_limits;
        };
        sessions = lru.new (capacity config);
        running = true;
        flush_task = none;
      } in
      record {
        repo = if ltb 0 config.session_flush_interval_ms then start_flush_task repo else repo;
        heap = [];
        counts = r.entity_type_counts;
        db = db;
      }

  -- A method of the session at an address. No `Arc` has an address outside the heap.
  unfoldable pub call_session :
      {A : Type 0} → ℕ → (World D E → Result A × World D E) → Store L D E → Result A × Store L D E
  call_session p method st = elim (get_elem? st.heap p) [
    | none ↦ (panic, st)
    | some s ↦
        let (r, w) = method (record { session = s; counts = st.counts; db = st.db }) in
        (r, record st { heap = set st.heap p w.session; counts = w.counts; db = w.db })
  ]

  -- `open_session`, at the time `now`: it returns the address of the new session.
  unfoldable pub open_session : ℤ → ℤ → List Text → Store L D E → Result ℕ × Store L D E
  unfolding load_types
  open_session now player_id entity_types st =
      let repo = st.repo in
      let p = length st.heap in
      let session = Session.new player_id repo.rules now in
      let loaded =
        if repo.rules.config.enabled then load_types repo.rules entity_types else ok tt in
      elim loaded [
        | err e ↦ (err e, st)
        | panic ↦ (panic, st)
        | ok _ ↦ (
          ok p,
          record st {
            repo = record repo { sessions = lru.put player_id p repo.sessions };
            heap = st.heap ++ session ∷ [];
          },
        )
      ]

  unfoldable pub close_session : ℤ → Store L D E → Result (Unit {0}) × Store L D E
  close_session player_id st =
      let (session, sessions) = lru.pop player_id st.repo.sessions in
      let st' = record st { repo = record st.repo { sessions = sessions } } in
      elim session [ none ↦ (ok tt, st') | some p ↦ call_session p flush st' ]

  -- `for session in sessions`
  unfoldable pub flush_sessions : Entries → Store L D E → Result (Unit {0}) × Store L D E
  flush_sessions [] st = (ok tt, st)
  flush_sessions ((_, p) ∷ rest) st =
      let (r, st') = call_session p flush st in
      elim r [ ok _ ↦ flush_sessions rest st' | err e ↦ (err e, st') | panic ↦ (panic, st') ]

  unfoldable pub flush_all : Store L D E → Result (Unit {0}) × Store L D E
  flush_all st = flush_sessions (lru.iter st.repo.sessions) st

  unfoldable pub stop : Store L D E → Store L D E
  stop st = record st { repo = record st.repo { running = false } }

  -- One round of the flush task: it ends where its flag is down, and takes no notice of an error.
  unfoldable pub run_task : Store L D E → Store L D E
  run_task st = elim st.repo.flush_task [
    | none ↦ st
    | some running ↦ elim running [
      | true ↦ (flush_all st).1
      | false ↦ record st { repo = record st.repo { flush_task = none } }
    ]
  ]
