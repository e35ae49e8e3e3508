-- ===== src/Session/Interleaved.antt =====
-- The calls of src/session.rs on one session at the same time. A call holds a lock for a section of
-- its code; between two sections, and while it awaits the database, other calls go on. Writing
-- `last_access`, which nothing reads, is part of the section behind it.
pub mod Alone
pub mod Safe
pub mod Overwritten
use db233_rust.Common.{
  ℕ, ℤ, Bool, true, false, not, List, [], ◌∷◌, Option, none, some, Text, Map, insert, remove,
  contains_key, if◌then◌else◌, get_elem?, set, map,
}
use db233_rust.Errors.{Result, ok, err, panic, session_error, ◌>>=◌}
use db233_rust.Session.{
  Set, Rules, EntityType, World, is_cacheable, not_cacheable, touch, cached, mark_dirty,
  increment_entity_count, decrement_entity_count, set_negative_cache_enabled,
}
use db233_rust.Session.Abstract.{Call, Answer, resolved, done, loaded, entity, nothing}
use db233_rust.Session.Abstract

-- How the database finds an entity.
abbrev pub Finder : Type 0 → Type 0 → Type 0
Finder D E = EntityType → ℤ → D → Result E × D

-- Where a call is: the section that comes next. A `put` knows what its caller answers with its result.
pub data Thread (D E : Type 0) : Type 0 where
  gets : EntityType → Thread D E
  loads : Finder D E → EntityType → Thread D E
  checks : Finder D E → EntityType → Thread D E
  looks : Finder D E → EntityType → Thread D E
  waits : Finder D E → EntityType → Thread D E
  found : EntityType → Result E → Thread D E
  forgets : EntityType → Thread D E
  puts : EntityType → E → (Result (Unit {0}) → Answer E) → Thread D E
  inserts : EntityType → E → (Result (Unit {0}) → Answer E) → Thread D E
  dirties : EntityType → (Result (Unit {0}) → Answer E) → Thread D E
  counts : EntityType → (Result (Unit {0}) → Answer E) → Thread D E
  marks : EntityType → Thread D E
  collects : Thread D E
  removes : Set → Thread D E
  lowers : Text → Set → Thread D E
  asks : EntityType → Thread D E
  asks_flag : EntityType → Thread D E
  asks_absent : EntityType → Thread D E
  enables : Bool → Thread D E
  finished : Answer E → Thread D E

-- `Ok(entity)` behind `self.put(entity).await?`
abbrev pub loaded_with : {E : Type 0} → E → Result (Unit {0}) → Answer E
loaded_with e r = loaded (r >>= λ _. ok (some e))

module _ {D E : Type 0} where
  unfoldable pub begin : Call D E → Thread D E
  begin (Call.gets T) = gets T
  begin (Call.loads find_by_id T) = loads find_by_id T
  begin (Call.puts T e) = puts T e done
  begin (Call.marks T) = marks T
  begin Call.flushes = collects
  begin (Call.asks T) = asks T
  begin (Call.enables enabled) = enables enabled

  -- `get_or_load`: the cache, the flag, the negative cache, the database, and what it gave.
  unfoldable pub read_cache : ℤ → Finder D E → EntityType → World D E → Thread D E × World D E
  read_cache now find_by_id T w =
      let w' = touch now w in
      (
        elim (cached T w') [
          | some e ↦ finished (loaded (ok (some e)))
          | none ↦ checks find_by_id T
        ],
        w',
      )

  unfoldable pub read_flag : Finder D E → EntityType → World D E → Thread D E × World D E
  read_flag find_by_id T w =
      (if w.session.negative_cache_enabled then looks find_by_id T else waits find_by_id T, w)

  unfoldable pub look_absent : Finder D E → EntityType → World D E → Thread D E × World D E
  look_absent find_by_id T w = (
    if contains_key T.type_name w.session.negative_cache
        then finished (loaded (ok none))
        else waits find_by_id T,
    w,
  )

  unfoldable pub ask_database : Finder D E → EntityType → World D E → Thread D E × World D E
  ask_database find_by_id T w =
      let (r, db) = find_by_id T w.session.player_id w.db in (found T r, record w { db = db })

  unfoldable pub keep_found : EntityType → Result E → World D E → Thread D E × World D E
  keep_found T (ok e) w = (puts T e (loaded_with e), w)
  keep_found T (err _) w =
      (if w.session.negative_cache_enabled then forgets T else finished (loaded (ok none)), w)
  keep_found T panic w = (finished (loaded panic), w)

  unfoldable pub insert_absent : EntityType → World D E → Thread D E × World D E
  insert_absent T w = (
    finished (loaded (ok none)),
    record w {
      session = record w.session {
        negative_cache = insert T.type_name tt w.session.negative_cache;
      };
    },
  )

  -- `put`: the check, the entities, the dirty set, and the shared count.
  unfoldable pub enter_put :
      Rules
      → ℤ
      → EntityType
      → E
      → (Result (Unit {0}) → Answer E)
      → World D E
      → Thread D E × World D E
  enter_put rules now T e back w = (
    if not (is_cacheable rules T.type_name)
        then finished (back (err (session_error not_cacheable)))
        else inserts T e back,
    touch now w,
  )

  unfoldable pub insert_entity : EntityType → E → World D E → World D E
  insert_entity T e w = record w {
    session = record w.session {
      entities =
          insert T.type_name (record { type_id = T.type_id; content = e }) w.session.entities;
    };
  }

  unfoldable pub insert_dirty : EntityType → World D E → World D E
  insert_dirty T w = record w {
    session = record w.session { dirty_entities = insert T.type_name tt w.session.dirty_entities };
  }

  -- `flush`: the next name of those that it has collected.
  unfoldable pub next_name : Set → Thread D E
  next_name [] = finished (done (ok tt))
  next_name (k ∷ ks) = removes (k ∷ ks)

  unfoldable pub remove_mark : Text → World D E → World D E
  remove_mark k w = record w {
    session = record w.session { dirty_entities = remove k w.session.dirty_entities };
  }

  -- `is_resolved`: the entities, the flag, the negative cache.
  unfoldable pub ask_cached : EntityType → World D E → Thread D E
  ask_cached T w =
      if contains_key T.type_name w.session.entities then finished (resolved true) else asks_flag T

  module _ (rules : Rules) where
    -- One section of a call, at the time `now`.
    unfoldable pub step : ℤ → Thread D E → World D E → Thread D E × World D E
    unfolding read_cache read_flag look_absent ask_database keep_found insert_absent enter_put
        insert_entity insert_dirty next_name remove_mark ask_cached
    step now (gets T) w = let w' = touch now w in (finished (entity (cached T w')), w')
    step now (loads find_by_id T) w = read_cache now find_by_id T w
    step now (checks find_by_id T) w = read_flag find_by_id T w
    step now (looks find_by_id T) w = look_absent find_by_id T w
    step now (waits find_by_id T) w = ask_database find_by_id T w
    step now (found T r) w = keep_found T r w
    step now (forgets T) w = insert_absent T w
    step now (puts T e back) w = enter_put rules now T e back w
    step now (inserts T e back) w = (dirties T back, insert_entity T e w)
    step now (dirties T back) w = (counts T back, insert_dirty T w)
    step now (counts T back) w =
        (finished (back (ok tt)), record w { counts = increment_entity_count T.type_name w.counts })
    step now (marks T) w = (finished nothing, mark_dirty now T w)
    step now collects w = (next_name w.session.dirty_entities, w)
    step now (removes []) w = (finished (done (ok tt)), w)
    step now (removes ((k, _) ∷ ks)) w = (lowers k ks, remove_mark k w)
    step now (lowers k ks) w =
        (next_name ks, record w { counts = decrement_entity_count k w.counts })
    step now (asks T) w = (ask_cached T w, w)
    step now (asks_flag T) w =
        (if w.session.negative_cache_enabled then asks_absent T else finished (resolved false), w)
    step now (asks_absent T) w =
        (finished (resolved (contains_key T.type_name w.session.negative_cache)), w)
    step now (enables enabled) w = (finished nothing, set_negative_cache_enabled enabled w)
    step now (finished answer) w = (finished answer, w)

    -- `n` sections of one call, with no other call between them.
    unfoldable pub alone : ℕ → ℤ → Thread D E → World D E → Thread D E × World D E
    alone ℕ.zero now t w = (t, w)
    alone (ℕ.suc n) now t w = let (t', w') = step now t w in alone n now t' w'

-- All the calls that are made on a session, and the session.
pub record Calls (D E : Type 0) : Type 0 where
  pub threads : List (Thread D E)
  pub world : World D E

-- Who goes on: the call at a place, or another session or client, which can change the shared counts
-- and the database.
pub data Turn (D : Type 0) : Type 0 where
  goes : ℕ → ℤ → Turn D
  others : Map ℕ → D → Turn D

module _ {D E : Type 0} (rules : Rules) where
  unfoldable pub turn : Turn D → Calls D E → Calls D E
  turn (goes i now) s = elim (get_elem? s.threads i) [
    | none ↦ s
    | some t ↦
        let (t', w) = step rules now t s.world in
        record s { threads = set s.threads i t'; world = w }
  ]
  turn (others shared db) s = record s { world = record s.world { counts = shared; db = db } }

  unfoldable pub turns : List (Turn D) → Calls D E → Calls D E
  turns [] s = s
  turns (u ∷ us) s = turns us (turn u s)
