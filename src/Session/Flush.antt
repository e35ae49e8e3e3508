-- ===== src/Session/Flush.antt =====
-- `flush` of src/session.rs: every dirty mark is cleared and counted down once.
use db233_rust.Session.Invariant.{HasNoRepeats}
use db233_rust.Common.{
  ℕ, ◌-◌, ◌≡◌, refl, false, [], ◌∷◌, Option, none, some, Text, Map, get, remove, contains_key,
  get-insert, get-remove, text_eq, arith, if◌then◌else◌, Option-cases, inl, inr,
}
use db233_rust.Errors.{ok}
use db233_rust.Session.{Set, World, decrement_entity_count, flush_each, flush}

-- A count that a flush has lowered, not below zero.
abbrev pub lowered : Option ℕ → Option ℕ
lowered none = none
lowered (some n) = some (n - 1)

get-decrement_entity_count :
    (k j : Text) (counts : Map ℕ)
    → get j (decrement_entity_count k counts)
      ≡ (if text_eq k j then lowered (get j counts) else get j counts)
unfolding decrement_entity_count
get-decrement_entity_count k j counts = elim (Option-cases (get k counts)) [
  | inl absent ↦ rw (absent, decrement_entity_count) (ground arith)
  | inr (n, present) ↦ ground (arith, get-insert k j (n - 1) counts)
]

module _ {D E : Type 0} where
  flush_each-counts :
      (ks : Set) (w : World D E) (j : Text)
      → HasNoRepeats ks
      → get j (flush_each ks w).counts
        ≡ (if contains_key j ks then lowered (get j w.counts) else get j w.counts)
  unfolding flush_each contains_key get
  flush_each-counts [] w j h = refl
  flush_each-counts ((k, u) ∷ ks) w j (fresh, h) =
      let w' = record w {
        session = record w.session { dirty_entities = remove k w.session.dirty_entities };
        counts = decrement_entity_count k w.counts;
      } in
      ground (arith, flush_each-counts ks w' j h, get-decrement_entity_count k j w.counts)

  pub flush_each-dirty :
      (ks : Set) (w : World D E) (j : Text)
      → get j (flush_each ks w).session.dirty_entities
        ≡ (if contains_key j ks then none else get j w.session.dirty_entities)
  unfolding flush_each contains_key get
  flush_each-dirty [] w j = refl
  flush_each-dirty ((k, u) ∷ ks) w j =
      let w' = record w {
        session = record w.session { dirty_entities = remove k w.session.dirty_entities };
        counts = decrement_entity_count k w.counts;
      } in
      ground (arith, flush_each-dirty ks w' j, get-remove k j w.session.dirty_entities)

  pub flush_each-rest :
      (ks : Set) (w : World D E)
      → ((flush_each ks w).session.entities ≡ w.session.entities)
        × ((flush_each ks w).session.negative_cache ≡ w.session.negative_cache)
        × ((flush_each ks w).db ≡ w.db)
  unfolding flush_each
  flush_each-rest [] w = (refl, refl, refl)
  flush_each-rest ((k, u) ∷ ks) w = flush_each-rest ks _

  -- A flush of a session whose dirty set has no repeats: it succeeds, no type is dirty any more, and
  -- the shared count of each type that was dirty is one lower (never below zero), while every other
  -- count is as it was. The cached entities stay, and nothing has been written to the database.
  pub flush_lem :
      (w : World D E)
      → HasNoRepeats w.session.dirty_entities
      → let w' = (flush w).1 in
        ((flush w).0 ≡ ok tt)
        × ((j : Text) → contains_key j w'.session.dirty_entities ≡ false)
        × ((j : Text)
            → get j w'.counts ≡ (
                if contains_key j w.session.dirty_entities
                then lowered (get j w.counts)
                else get j w.counts))
        × (w'.session.entities ≡ w.session.entities)
        × (w'.db ≡ w.db)
  unfolding flush contains_key
  flush_lem w h =
      let ks = w.session.dirty_entities in
      let (entities, _, db) = flush_each-rest ks w in
      (
        refl,
        λ j. ground (arith, flush_each-dirty ks w j),
        λ j. flush_each-counts ks w j h,
        entities,
        db,
      )
