-- ===== src/Session/Interleaved/Safe.antt =====
-- What holds of a session of src/session.rs however its calls are interleaved.
use db233_rust.Common.{
  subst, ℕ, ℤ, ◌≡◌, refl, Bool, true, List, [], ◌∷◌, some, Map, arith, map, get_elem?,
  get_elem?-set, Option-cases, inl, inr, ℕ_discrete,
}
use db233_rust.Errors.{Result, ok, err, panic}
use db233_rust.Session.{
  Set, Rules, EntityType, Session, World, is_cacheable, touch, mark_dirty, new,
  set_negative_cache_enabled,
}
use db233_rust.Session.Invariant.{
  IsValid, HasNoRepeats, insert-HasNoRepeats, remove-HasNoRepeats, contains_key-insert, new-IsValid,
}
use db233_rust.Session.Abstract.{Call, Answer}
use db233_rust.Session.Interleaved.{
  Thread, Calls, Turn, begin, step, turn, turns, inserts, finished, next_name, read_cache,
  read_flag, look_absent, insert_entity, goes, others, gets, loads, checks, looks, waits, found,
  forgets, puts, dirties, marks, collects, removes, lowers, asks, asks_flag, asks_absent, enables,
}

module _ {E : Type 0} (rules : Rules) where
  dirty-IsValid :
      (ks : Set) (now : ℤ) (s : Session E)
      → HasNoRepeats ks
      → IsValid rules s
      → IsValid rules (record s { dirty_entities = ks; last_access = now })
  dirty-IsValid ks now s h v = record {
    entities = v.entities;
    dirty = h;
    negative = v.negative;
    allowed = v.allowed;
  }

  negative-IsValid :
      (ks : Set) (s : Session E)
      → HasNoRepeats ks
      → IsValid rules s
      → IsValid rules (record s { negative_cache = ks })
  negative-IsValid ks s h v = record {
    entities = v.entities;
    dirty = v.dirty;
    negative = h;
    allowed = v.allowed;
  }

  flag-IsValid :
      (on : Bool) (s : Session E)
      → IsValid rules s
      → IsValid rules (record s { negative_cache_enabled = on })
  flag-IsValid on s v = record {
    entities = v.entities;
    dirty = v.dirty;
    negative = v.negative;
    allowed = v.allowed;
  }

module _ {D E : Type 0} (rules : Rules) where
  -- A `put` that is about to change the cache has passed its check.
  abbrev IsAllowed : Thread D E → Type 0
  IsAllowed t =
      (T : EntityType) (e : E) (back : Result (Unit {0}) → Answer E)
      → t ≡ inserts T e back
      → is_cacheable rules T.type_name ≡ true

  begin-IsAllowed : (c : Call D E) → IsAllowed (begin c)
  unfolding begin
  begin-IsAllowed (Call.gets S) T e back h = cc
  begin-IsAllowed (Call.loads find_by_id S) T e back h = cc
  begin-IsAllowed (Call.puts S d) T e back h = cc
  begin-IsAllowed (Call.marks S) T e back h = cc
  begin-IsAllowed Call.flushes T e back h = cc
  begin-IsAllowed (Call.asks S) T e back h = cc
  begin-IsAllowed (Call.enables enabled) T e back h = cc

  next_name-IsAllowed : (ks : Set) → IsAllowed (next_name ks)
  unfolding next_name
  next_name-IsAllowed [] T e back h = cc
  next_name-IsAllowed (k ∷ ks) T e back h = cc

  step-IsAllowed : (now : ℤ) (t : Thread D E) (w : World D E) → IsAllowed (step rules now t w).0
  unfolding step
  step-IsAllowed now (gets S) w T e back h = cc
  step-IsAllowed now (loads find_by_id S) w T e back h = unfold read_cache in ground arith
  step-IsAllowed now (checks find_by_id S) w T e back h = unfold read_flag in ground arith
  step-IsAllowed now (looks find_by_id S) w T e back h = unfold look_absent in ground arith
  step-IsAllowed now (waits find_by_id S) w T e back h = cc
  step-IsAllowed now (found S (ok d)) w T e back h = cc
  step-IsAllowed now (found S (err d)) w T e back h = ground arith
  step-IsAllowed now (found S panic) w T e back h = cc
  step-IsAllowed now (forgets S) w T e back h = cc
  step-IsAllowed now (puts S d next) w T e back h = ground arith
  step-IsAllowed now (inserts S d next) w T e back h = cc
  step-IsAllowed now (dirties S next) w T e back h = cc
  step-IsAllowed now (Thread.counts S next) w T e back h = cc
  step-IsAllowed now (marks S) w T e back h = cc
  step-IsAllowed now collects w T e back h = next_name-IsAllowed w.session.dirty_entities T e back h
  step-IsAllowed now (removes []) w T e back h = cc
  step-IsAllowed now (removes ((k, u) ∷ ks)) w T e back h = cc
  step-IsAllowed now (lowers k ks) w T e back h = next_name-IsAllowed ks T e back h
  step-IsAllowed now (asks S) w T e back h = ground arith
  step-IsAllowed now (asks_flag S) w T e back h = ground arith
  step-IsAllowed now (asks_absent S) w T e back h = cc
  step-IsAllowed now (enables enabled) w T e back h = cc
  step-IsAllowed now (finished answer) w T e back h = cc

  -- The sections that change one of the three maps.
  insert_entity-IsValid :
      (T : EntityType) (e : E) (w : World D E)
      → is_cacheable rules T.type_name ≡ true
      → IsValid rules w.session
      → IsValid rules (insert_entity T e w).session
  unfolding insert_entity
  insert_entity-IsValid T e w cacheable v = record {
    entities = insert-HasNoRepeats T.type_name _ w.session.entities v.entities;
    dirty = v.dirty;
    negative = v.negative;
    allowed = λ k h. ground (
      arith,
      contains_key-insert T.type_name k (record { type_id = T.type_id; content = e })
          w.session.entities,
      v.allowed k,
    );
  }

  touch-IsValid :
      (now : ℤ) (w : World D E) → IsValid rules w.session → IsValid rules (touch now w).session
  unfolding touch
  touch-IsValid now w v = dirty-IsValid rules w.session.dirty_entities now w.session v.dirty v

  step-IsValid :
      (now : ℤ) (t : Thread D E) (w : World D E)
      → IsAllowed t
      → IsValid rules w.session
      → IsValid rules (step rules now t w).1.session
  unfolding step
  step-IsValid now (gets T) w a v = touch-IsValid now w v
  step-IsValid now (loads find_by_id T) w a v = touch-IsValid now w v
  step-IsValid now (checks find_by_id T) w a v = v
  step-IsValid now (looks find_by_id T) w a v = v
  step-IsValid now (waits find_by_id T) w a v = v
  step-IsValid now (found T (ok e)) w a v = v
  step-IsValid now (found T (err d)) w a v = v
  step-IsValid now (found T panic) w a v = v
  step-IsValid now (forgets T) w a v =
      negative-IsValid rules _ w.session
        (insert-HasNoRepeats T.type_name tt w.session.negative_cache v.negative) v
  step-IsValid now (puts T e back) w a v = touch-IsValid now w v
  step-IsValid now (inserts T e back) w a v = insert_entity-IsValid T e w (a T e back refl) v
  step-IsValid now (dirties T back) w a v =
      dirty-IsValid rules _ w.session.last_access w.session
        (insert-HasNoRepeats T.type_name tt w.session.dirty_entities v.dirty) v
  step-IsValid now (Thread.counts T back) w a v = v
  step-IsValid now (marks T) w a v =
      unfold mark_dirty in
      dirty-IsValid rules _ now w.session
        (insert-HasNoRepeats T.type_name tt w.session.dirty_entities v.dirty) v
  step-IsValid now collects w a v = v
  step-IsValid now (removes []) w a v = v
  step-IsValid now (removes ((k, u) ∷ ks)) w a v =
      dirty-IsValid rules _ w.session.last_access w.session
        (remove-HasNoRepeats k w.session.dirty_entities v.dirty) v
  step-IsValid now (lowers k ks) w a v = v
  step-IsValid now (asks T) w a v = v
  step-IsValid now (asks_flag T) w a v = v
  step-IsValid now (asks_absent T) w a v = v
  step-IsValid now (enables enabled) w a v =
      unfold set_negative_cache_enabled in flag-IsValid rules enabled w.session v
  step-IsValid now (finished answer) w a v = v

  -- All calls stand where they may, and the session is valid.
  record IsSafe (s : Calls D E) : Type 0 where
    allowed : (i : ℕ) (t : Thread D E) → get_elem? s.threads i ≡ some t → IsAllowed t
    valid : IsValid rules s.world.session

  turn-IsSafe : (u : Turn D) (s : Calls D E) → IsSafe s → IsSafe (turn rules u s)
  unfolding turn
  turn-IsSafe (others shared db) s h = record { allowed = h.allowed; valid = h.valid }
  turn-IsSafe (goes i now) s h = elim (Option-cases (get_elem? s.threads i)) [
    | inl out ↦ rw (out, turn) h
    | inr (t, here) ↦
        rw (here, turn)
          (record {
            allowed = λ j t' at_j. elim (ℕ_discrete i j) [
              | yes same ↦
                  subst IsAllowed
                    (ground (arith, get_elem?-set s.threads i j (step rules now t s.world).0))
                    (step-IsAllowed now t s.world)
              | no other ↦
                  h.allowed j t'
                    (ground (arith, get_elem?-set s.threads i j (step rules now t s.world).0))
            ];
            valid = step-IsValid now t s.world (h.allowed i t here) h.valid;
          })
  ]

  turns-IsSafe : (us : List (Turn D)) (s : Calls D E) → IsSafe s → IsSafe (turns rules us s)
  unfolding turns
  turns-IsSafe [] s h = h
  turns-IsSafe (u ∷ us) s h = turns-IsSafe us (turn rules u s) (turn-IsSafe u s h)

  begun-IsAllowed :
      (cs : List (Call D E)) (i : ℕ) (t : Thread D E)
      → get_elem? (map begin cs) i ≡ some t
      → IsAllowed t
  begun-IsAllowed [] i t h = cc
  begun-IsAllowed (c ∷ cs) ℕ.zero t h = subst IsAllowed (ground arith) (begin-IsAllowed c)
  begun-IsAllowed (c ∷ cs) (ℕ.suc i) t h = begun-IsAllowed cs i t h

-- However the calls on a new session are interleaved, section by section, and whatever the database
-- answers and other sessions do in between: the session has no name twice in its dirty set, its
-- negative cache or its cached entities, and caches only entities of cacheable types.
pub turns-IsValid :
    {D E : Type 0} (rules : Rules) (player_id now : ℤ) (shared : Map ℕ) (db : D)
    (cs : List (Call D E)) (us : List (Turn D))
    → IsValid rules
        (turns rules us (record {
          threads = map begin cs;
          world = record { session = new player_id rules now; counts = shared; db = db };
        })).world.session
turns-IsValid rules player_id now shared db cs us =
    let safe =
      turns-IsSafe rules us _
        (record { allowed = begun-IsAllowed rules cs; valid = new-IsValid player_id rules now }) in
    safe.valid
