-- ===== src/Session/Invariant.antt =====
-- The invariant of a session of src/session.rs, over every history of its operations.
use db233_rust.Common.{
  ℤ, ◌≡◌, refl, Bool, true, false, [], ◌∷◌, Text, Map, get, insert, remove, contains_key,
  get-insert, get-remove, text_eq, arith, if◌then◌else◌, inl, inr, Bool-cases, Option-cases, ◌&&◌,
  ℕ,
}
use db233_rust.Errors.{Result, ok, err, panic}
use db233_rust.Session.{
  Rules, EntityType, World, Session, is_cacheable, touch, cached, put, mark_dirty, flush,
  flush_each, keep_loaded, get_or_load, set_negative_cache_enabled, get_entity, new,
}

-- No name stands twice.
abbrev pub HasNoRepeats : {V : Type 0} → Map V → Type 0
HasNoRepeats [] = Unit
HasNoRepeats ((k, _) ∷ m) = (contains_key k m ≡ false) × HasNoRepeats m

pub contains_key-insert :
    {V : Type 0} (k j : Text) (v : V) (m : Map V)
    → contains_key j (insert k v m) ≡ (if text_eq k j then true else contains_key j m)
unfolding contains_key
contains_key-insert k j v m = ground (arith, get-insert k j v m)

contains_key-remove :
    {V : Type 0} (k j : Text) (m : Map V)
    → contains_key j (remove k m) ≡ (if text_eq k j then false else contains_key j m)
unfolding contains_key
contains_key-remove k j m = ground (arith, get-remove k j m)

pub insert-HasNoRepeats :
    {V : Type 0} (k : Text) (v : V) (m : Map V) → HasNoRepeats m → HasNoRepeats (insert k v m)
unfolding insert
insert-HasNoRepeats k v [] h = unfold contains_key get in (refl, tt)
insert-HasNoRepeats k v ((j, w) ∷ m) (fresh, h) =
    ground (arith, insert-HasNoRepeats k v m h, contains_key-insert k j v m)

pub remove-HasNoRepeats :
    {V : Type 0} (k : Text) (m : Map V) → HasNoRepeats m → HasNoRepeats (remove k m)
unfolding remove
remove-HasNoRepeats k [] h = tt
remove-HasNoRepeats k ((j, w) ∷ m) (fresh, h) =
    ground (arith, remove-HasNoRepeats k m h, contains_key-remove k j m)

-- The three maps of a session have no repeats, and what is cached is of a cacheable type.
pub record IsValid {E : Type 0} (rules : Rules) (s : Session E) : Type 0 where
  pub entities : HasNoRepeats s.entities
  pub dirty : HasNoRepeats s.dirty_entities
  pub negative : HasNoRepeats s.negative_cache
  pub allowed : (k : Text) → contains_key k s.entities ≡ true → is_cacheable rules k ≡ true

pub new-IsValid :
    {E : Type 0} (player_id : ℤ) (rules : Rules) (now : ℤ)
    → IsValid rules (new {E = E} player_id rules now)
unfolding new
new-IsValid player_id rules now = record {
  entities = tt;
  dirty = tt;
  negative = tt;
  allowed = λ k h. absurd (unfold contains_key get in cc h);
}

module _ {D E : Type 0} (rules : Rules) where
  put-IsValid :
      (now : ℤ) (T : EntityType) (entity : E) (w : World D E)
      → IsValid rules w.session
      → IsValid rules (put rules now T entity w).1.session
  unfolding put touch
  put-IsValid now T entity w v = elim (Bool-cases (is_cacheable rules T.type_name)) [
    | inr refused ↦
        rw (refused, put)
          (record {
            entities = v.entities;
            dirty = v.dirty;
            negative = v.negative;
            allowed = v.allowed;
          })
    | inl cacheable ↦
        rw (cacheable, put)
          (record {
            entities = insert-HasNoRepeats T.type_name _ w.session.entities v.entities;
            dirty = insert-HasNoRepeats T.type_name tt w.session.dirty_entities v.dirty;
            negative = v.negative;
            allowed = λ k h. ground (
              arith,
              contains_key-insert T.type_name k (record { type_id = T.type_id; content = entity })
                  w.session.entities,
              v.allowed k,
            );
          })
  ]

  pub flush_each-IsValid :
      (ks : Map (Unit {0})) (w : World D E)
      → IsValid rules w.session
      → IsValid rules (flush_each ks w).session
  unfolding flush_each
  flush_each-IsValid [] w v = v
  flush_each-IsValid ((k, u) ∷ ks) w v = flush_each-IsValid ks _ (record {
    entities = v.entities;
    dirty = remove-HasNoRepeats k w.session.dirty_entities v.dirty;
    negative = v.negative;
    allowed = v.allowed;
  })

  keep_loaded_state :
      (now : ℤ) (T : EntityType) (entity : E) (w : World D E)
      → (keep_loaded rules now T (ok entity) w).1 ≡ (put rules now T entity w).1
  unfolding keep_loaded
  keep_loaded_state now T entity w = ground arith

  keep_loaded-IsValid :
      (now : ℤ) (T : EntityType) (found : Result E) (w : World D E)
      → IsValid rules w.session
      → IsValid rules (keep_loaded rules now T found w).1.session
  keep_loaded-IsValid now T (ok entity) w v =
      rw (keep_loaded_state now T entity w) (put-IsValid now T entity w v)
  keep_loaded-IsValid now T (err e) w v = elim (Bool-cases w.session.negative_cache_enabled) [
    | inr off ↦ unfold keep_loaded in simp off v
    | inl enabled ↦
        unfold keep_loaded in
        simp enabled (record {
          entities = v.entities;
          dirty = v.dirty;
          negative = insert-HasNoRepeats T.type_name tt w.session.negative_cache v.negative;
          allowed = v.allowed;
        })
  ]
  keep_loaded-IsValid now T panic w v = unfold keep_loaded in v

  touch-IsValid :
      (now : ℤ) (w : World D E) → IsValid rules w.session → IsValid rules (touch now w).session
  unfolding touch
  touch-IsValid now w v = record {
    entities = v.entities;
    dirty = v.dirty;
    negative = v.negative;
    allowed = v.allowed;
  }

  get_or_load-IsValid :
      (find_by_id : EntityType → ℤ → D → Result E × D) (now : ℤ) (T : EntityType) (w : World D E)
      → IsValid rules w.session
      → IsValid rules (get_or_load rules find_by_id now T w).1.session
  get_or_load-IsValid find_by_id now T w v =
      let w' = touch now w in
      let v' = touch-IsValid now w v in
      let (found, db') = find_by_id T w.session.player_id w.db in
      let kept =
        keep_loaded-IsValid now T found (record w' { db = db' })
          (record {
            entities = v'.entities;
            dirty = v'.dirty;
            negative = v'.negative;
            allowed = v'.allowed;
          }) in
      unfold get_or_load in
      elim (Option-cases (cached T w')) [
        | inr (entity, e) ↦ rw (e, get_or_load) v'
        | inl e ↦
            elim (Bool-cases (
              w.session.negative_cache_enabled
              && contains_key T.type_name w.session.negative_cache)) [
                | inl absent ↦ rw (e, absent, get_or_load) v'
                | inr asks ↦ rw (e, asks, get_or_load) kept
              ]
      ]

  mark_dirty-IsValid :
      (now : ℤ) (T : EntityType) (w : World D E)
      → IsValid rules w.session
      → IsValid rules (mark_dirty now T w).session
  unfolding mark_dirty
  mark_dirty-IsValid now T w v = record {
    entities = v.entities;
    dirty = insert-HasNoRepeats T.type_name tt w.session.dirty_entities v.dirty;
    negative = v.negative;
    allowed = v.allowed;
  }

  -- One call of a method, at any time, with any arguments and any answer of the database.
  pub data Step (w : World D E) : World D E → Type 0 where
    gets : (now : ℤ) (T : EntityType) → Step w (get_entity now T w).1
    loads :
        (find_by_id : EntityType → ℤ → D → Result E × D) (now : ℤ) (T : EntityType)
        → Step w (get_or_load rules find_by_id now T w).1
    puts : (now : ℤ) (T : EntityType) (entity : E) → Step w (put rules now T entity w).1
    marks : (now : ℤ) (T : EntityType) → Step w (mark_dirty now T w)
    flushes : Step w (flush w).1
    enables : (enabled : Bool) → Step w (set_negative_cache_enabled enabled w)
    -- another session changes the shared counts, or another client the database
    others : (counts : Map ℕ) (db : D) → Step w (record w { counts = counts; db = db })

  pub data Reach (w : World D E) : World D E → Type 0 where
    here : Reach w w
    next : {u v : World D E} → Reach w u → Step u v → Reach w v

  pub Step-IsValid :
      (w u : World D E) → Step w u → IsValid rules w.session → IsValid rules u.session
  unfolding get_entity flush set_negative_cache_enabled
  Step-IsValid w u (gets now T) v = touch-IsValid now w v
  Step-IsValid w u (loads find_by_id now T) v = get_or_load-IsValid find_by_id now T w v
  Step-IsValid w u (puts now T entity) v = put-IsValid now T entity w v
  Step-IsValid w u (marks now T) v = mark_dirty-IsValid now T w v
  Step-IsValid w u flushes v = flush_each-IsValid w.session.dirty_entities w v
  Step-IsValid w u (enables enabled) v = record {
    entities = v.entities;
    dirty = v.dirty;
    negative = v.negative;
    allowed = v.allowed;
  }
  Step-IsValid w u (others counts db) v = v

  Reach-IsValid : (w u : World D E) → Reach w u → IsValid rules w.session → IsValid rules u.session
  Reach-IsValid w u here v = v
  Reach-IsValid w u (next {u = m} r st) v = Step-IsValid m u st (Reach-IsValid w m r v)

-- Over every history of its methods, whatever the database answers and other sessions do in between:
-- a session that was new has no name twice in its dirty set, its negative cache or its cached
-- entities, and caches only entities of cacheable types.
pub Reach-new-IsValid :
    {D E : Type 0} (rules : Rules) (player_id now : ℤ) (counts : Map ℕ) (db : D) (w : World D E)
    → Reach rules (record { session = new player_id rules now; counts = counts; db = db }) w
    → IsValid rules w.session
Reach-new-IsValid rules player_id now counts db w r =
    Reach-IsValid rules _ w r (new-IsValid player_id rules now)
