-- ===== src/Session/Abstract.antt =====
-- What a session of src/session.rs promises: its state without the order in which its hash maps keep
-- their entries, and without the clock.
use db233_rust.Common.{
  ℕ, ◌+◌, ℤ, Bool, true, false, List, [], ◌∷◌, Option, none, some, Text, text_eq, if◌then◌else◌,
  ◌&&◌, get, contains_key,
}
use db233_rust.Errors.{Result, ok, err, panic, session_error}
use db233_rust.Session.{
  Rules, EntityType, Boxed, World, is_cacheable, downcast, not_cacheable, get_entity, put,
  mark_dirty, flush, is_resolved, set_negative_cache_enabled, get_or_load,
}
use db233_rust.Session.Flush.{lowered}

pub record Abstract (D E : Type 0) : Type 0 where
  pub player_id : ℤ
  pub entity : Text → Option (Boxed E)
  pub is_dirty : Text → Bool
  pub is_absent : Text → Bool
  pub remembers : Bool
  pub count : Text → Option ℕ
  pub db : D

-- A function, changed at one name.
abbrev pub changed : {A : Type 0} → Text → A → (Text → A) → Text → A
changed k a f j = if text_eq k j then a else f j

abbrev pub one_more : Option ℕ → Option ℕ
one_more none = some 1
one_more (some n) = some (n + 1)

-- The methods of a session, and what they answer.
pub data Call (D E : Type 0) : Type 0 where
  gets : EntityType → Call D E
  loads : (EntityType → ℤ → D → Result E × D) → EntityType → Call D E
  puts : EntityType → E → Call D E
  marks : EntityType → Call D E
  flushes : Call D E
  asks : EntityType → Call D E
  enables : Bool → Call D E

pub data Answer (E : Type 0) : Type 0 where
  entity : Option E → Answer E
  loaded : Result (Option E) → Answer E
  done : Result (Unit {0}) → Answer E
  resolved : Bool → Answer E
  nothing : Answer E

module _ {D E : Type 0} where
  abbrev pub view : World D E → Abstract D E
  view w = record {
    player_id = w.session.player_id;
    entity = λ k. get k w.session.entities;
    is_dirty = λ k. contains_key k w.session.dirty_entities;
    is_absent = λ k. contains_key k w.session.negative_cache;
    remembers = w.session.negative_cache_enabled;
    count = λ k. get k w.counts;
    db = w.db;
  }

  module _ (rules : Rules) where
    -- A call of a method at the time `now`, and calls one after the other.
    unfoldable pub call : ℤ → Call D E → World D E → Answer E × World D E
    call now (gets T) w = let (r, w') = get_entity now T w in (entity r, w')
    call now (loads find_by_id T) w =
        let (r, w') = get_or_load rules find_by_id now T w in (loaded r, w')
    call now (puts T e) w = let (r, w') = put rules now T e w in (done r, w')
    call now (marks T) w = (nothing, mark_dirty now T w)
    call now flushes w = let (r, w') = flush w in (done r, w')
    call now (asks T) w = (resolved (is_resolved T w), w)
    call now (enables enabled) w = (nothing, set_negative_cache_enabled enabled w)

    unfoldable pub calls : List (ℤ × Call D E) → World D E → List (Answer E) × World D E
    calls [] w = ([], w)
    calls ((now, c) ∷ cs) w =
        let (answer, w') = call now c w in
        let (answers, last) = calls cs w' in (answer ∷ answers, last)

    abbrev pub putting : EntityType → E → Abstract D E → Abstract D E
    putting T e a = record a {
      entity = changed T.type_name (some (record { type_id = T.type_id; content = e })) a.entity;
      is_dirty = changed T.type_name true a.is_dirty;
      count = changed T.type_name (one_more (a.count T.type_name)) a.count;
    }

    -- An entity that was found is put; any error is remembered as absence, if it may be.
    abbrev pub loading : EntityType → Result E → Abstract D E → Answer E × Abstract D E
    loading T (ok e) a =
        if is_cacheable rules T.type_name
        then (loaded (ok (some e)), putting T e a)
        else (loaded (err (session_error not_cacheable)), a)
    loading T (err _) a =
        if a.remembers
        then (loaded (ok none), record a { is_absent = changed T.type_name true a.is_absent })
        else (loaded (ok none), a)
    loading T panic a = (loaded panic, a)

    -- The same calls on the abstract state.
    unfoldable pub promised : Call D E → Abstract D E → Answer E × Abstract D E
    promised (gets T) a = (entity (downcast T (a.entity T.type_name)), a)
    promised (loads find_by_id T) a = elim (downcast T (a.entity T.type_name)) [
      | some e ↦ (loaded (ok (some e)), a)
      | none ↦
          if a.remembers && a.is_absent T.type_name
          then (loaded (ok none), a)
          else (let (found, db) = find_by_id T a.player_id a.db in
              loading T found (record a { db = db }))
    ]
    promised (puts T e) a =
        if is_cacheable rules T.type_name
        then (done (ok tt), putting T e a)
        else (done (err (session_error not_cacheable)), a)
    promised (marks T) a = (nothing, record a { is_dirty = changed T.type_name true a.is_dirty })
    promised flushes a = (
      done (ok tt),
      record a {
        is_dirty = λ k. false;
        count = λ k. if a.is_dirty k then lowered (a.count k) else a.count k;
      },
    )
    promised (asks T) a = (
      resolved (elim (a.entity T.type_name) [
        | some _ ↦ true
        | none ↦ if a.remembers then a.is_absent T.type_name else false
      ]),
      a,
    )
    promised (enables enabled) a = (nothing, record a { remembers = enabled })

    unfoldable pub promised_all :
        List (ℤ × Call D E) → Abstract D E → List (Answer E) × Abstract D E
    promised_all [] a = ([], a)
    promised_all ((_, c) ∷ cs) a =
        let (answer, a') = promised c a in
        let (answers, last) = promised_all cs a' in (answer ∷ answers, last)
