-- ===== src/Session.antt =====
-- src/session.rs: the session of a player, over the entity counts that all sessions share and the
-- database that they read.
pub mod Lru
pub mod Repository
pub mod Owner
pub mod Reads
pub mod Invariant
pub mod Flush
pub mod Drift
pub mod Abstract
pub mod Refinement
pub mod Forgotten
pub mod Interleaved
use db233_rust.Common.{
  ℕ, ◌+◌, ◌-◌, ℤ, Bool, true, false, not, ltb, ◌==◌, List, [], ◌∷◌, Option, none, some, Text, codes,
  Map, get, insert, remove, contains_key, if◌then◌else◌, ◌&&◌,
}
use db233_rust.Errors.{Result, ok, err, panic, session_error}
use db233_rust.Config.{EntityCacheConfig}

-- A `HashSet<String>`.
abbrev pub Set : Type 0
Set = Map (Unit {0})

-- A type `T: DbEntity`, by `type_name::<T>()` and its identity, which names need not tell apart.
pub record EntityType : Type 0 where
  pub type_name : Text
  pub type_id : ℕ

-- `Box<dyn Any>`
pub record Boxed (E : Type 0) : Type 0 where
  pub type_id : ℕ
  pub content : E

-- What a repository fixes at its start.
pub record Rules : Type 0 where
  pub config : EntityCacheConfig
  pub cacheable_types : Set
  pub entity_type_limits : Map ℕ

pub record Session (E : Type 0) : Type 0 where
  pub player_id : ℤ
  pub entities : Map (Boxed E)
  pub dirty_entities : Set
  pub negative_cache : Set
  pub negative_cache_enabled : Bool
  pub last_access : ℤ

-- A session, `entity_type_counts`, which is shared, and the state `D` of the database.
pub record World (D E : Type 0) : Type 0 where
  pub session : Session E
  pub counts : Map ℕ
  pub db : D

-- `usize::MAX`
abbrev pub usize_max : ℕ
usize_max = 18446744073709551615

unfoldable pub is_cacheable : Rules → Text → Bool
is_cacheable rules entity_type = contains_key entity_type rules.cacheable_types

abbrev pub count_or_zero : Text → Map ℕ → ℕ
count_or_zero k counts = elim (get k counts) [ none ↦ 0 | some n ↦ n ]

unfoldable pub can_add_entity : Rules → Map ℕ → Text → Bool
unfolding is_cacheable
can_add_entity rules counts entity_type =
    if not (is_cacheable rules entity_type)
    then false
    else ltb (count_or_zero entity_type counts)
        (elim (get entity_type rules.entity_type_limits) [ none ↦ usize_max | some n ↦ n ])

-- `*counts.entry(..).or_insert(0) += 1`
unfoldable pub increment_entity_count : Text → Map ℕ → Map ℕ
increment_entity_count k counts = insert k (count_or_zero k counts + 1) counts

unfoldable pub decrement_entity_count : Text → Map ℕ → Map ℕ
decrement_entity_count k counts = elim (get k counts) [
  | none ↦ counts
  | some count ↦ if ltb 0 count then insert k (count - 1) counts else counts
]

-- `Session::new`, at the time `now`.
unfoldable pub new : {E : Type 0} → ℤ → Rules → ℤ → Session E
new player_id rules now = record {
  player_id = player_id;
  entities = [];
  dirty_entities = [];
  negative_cache = [];
  negative_cache_enabled = rules.config.negative_cache_enabled;
  last_access = now;
}

-- `entity.downcast_ref::<T>().cloned()`
abbrev pub downcast : {E : Type 0} → EntityType → Option (Boxed E) → Option E
downcast T none = none
downcast T (some b) = if b.type_id == T.type_id then some b.content else none

abbrev pub not_cacheable : Text
not_cacheable = codes "entity type not cacheable"

module _ {D E : Type 0} where
  unfoldable pub touch : ℤ → World D E → World D E
  touch now w = record w { session = record w.session { last_access = now } }

  -- `Session::get`, without its `touch`
  unfoldable pub cached : EntityType → World D E → Option E
  cached T w = downcast T (get T.type_name w.session.entities)

  unfoldable pub get_entity : ℤ → EntityType → World D E → Option E × World D E
  get_entity now T w = let w' = touch now w in (cached T w', w')

  unfoldable pub put : Rules → ℤ → EntityType → E → World D E → Result (Unit {0}) × World D E
  put rules now T entity w =
      let s = w.session in
      if not (is_cacheable rules T.type_name)
      then (err (session_error not_cacheable), touch now w)
      else (
        ok tt,
        record w {
          session = record s {
            entities =
                insert T.type_name (record { type_id = T.type_id; content = entity }) s.entities;
            dirty_entities = insert T.type_name tt s.dirty_entities;
            last_access = now;
          };
          counts = increment_entity_count T.type_name w.counts;
        },
      )

  unfoldable pub mark_dirty : ℤ → EntityType → World D E → World D E
  mark_dirty now T w = record w {
    session = record w.session {
      dirty_entities = insert T.type_name tt w.session.dirty_entities;
      last_access = now;
    };
  }

  -- `for type_name in dirty_entities`
  unfoldable pub flush_each : Set → World D E → World D E
  flush_each [] w = w
  flush_each ((type_name, _) ∷ rest) w = flush_each rest (record w {
    session = record w.session { dirty_entities = remove type_name w.session.dirty_entities };
    counts = decrement_entity_count type_name w.counts;
  })

  unfoldable pub flush : World D E → Result (Unit {0}) × World D E
  flush w = (ok tt, flush_each w.session.dirty_entities w)

  unfoldable pub is_resolved : EntityType → World D E → Bool
  is_resolved T w =
      if contains_key T.type_name w.session.entities
      then true
      else if w.session.negative_cache_enabled
      then contains_key T.type_name w.session.negative_cache
      else false

  unfoldable pub set_negative_cache_enabled : Bool → World D E → World D E
  set_negative_cache_enabled enabled w = record w {
    session = record w.session { negative_cache_enabled = enabled };
  }

  -- The end of `get_or_load`: what `find_by_id` gave, an error taken for `None`.
  unfoldable pub keep_loaded :
      Rules → ℤ → EntityType → Result E → World D E → Result (Option E) × World D E
  keep_loaded rules now T (ok entity) w =
      let (r, w') = put rules now T entity w in
      elim r [ ok _ ↦ (ok (some entity), w') | err e ↦ (err e, w') | panic ↦ (panic, w') ]
  keep_loaded rules now T (err e) w =
      if w.session.negative_cache_enabled
      then (
        ok none,
        record w {
          session = record w.session {
            negative_cache = insert T.type_name tt w.session.negative_cache;
          };
        },
      )
      else (ok none, w)
  keep_loaded rules now T panic w = (panic, w)

  -- `find_by_id` is the database's, at the type and the player's id.
  unfoldable pub get_or_load :
      Rules
      → (EntityType → ℤ → D → Result E × D)
      → ℤ
      → EntityType
      → World D E
      → Result (Option E) × World D E
  get_or_load rules find_by_id now T w =
      let w' = touch now w in
      elim (cached T w') [
        | some entity ↦ (ok (some entity), w')
        | none ↦
            if w.session.negative_cache_enabled && contains_key T.type_name w.session.negative_cache
            then (ok none, w')
            else (let (found, db') = find_by_id T w.session.player_id w.db in
                keep_loaded rules now T found (record w' { db = db' }))
      ]
