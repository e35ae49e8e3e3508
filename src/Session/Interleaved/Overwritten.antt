-- ===== src/Session/Interleaved/Overwritten.antt =====
-- What `get_or_load` of src/session.rs does to a `put` that is made while it awaits the database.
use db233_rust.Common.{
  ℕ, ℤ, ◌≡◌, ◌≢◌, refl, ap, ◌∙◌, inl, inr, Option-cases, true, List, [], ◌∷◌, some, arith,
  get_elem?, get_elem?-set, get-insert,
}
use db233_rust.Errors.{Result, ok}
use db233_rust.Session.{EntityType, World, Rules, is_cacheable, cached}
use db233_rust.Session.Abstract.{Answer}
use db233_rust.Session.Interleaved.{
  Finder, Thread, Calls, Turn, step, turn, turns, goes, others, waits, found, puts, inserts,
  loaded_with, ask_database, keep_found, enter_put, insert_entity,
}

-- None of the turns is the call's at this place.
abbrev pub Spares : {D : Type 0} → ℕ → List (Turn D) → Type 0
Spares i [] = Unit
Spares i (goes j now ∷ us) = (j ≢ i) × Spares i us
Spares i (others shared db ∷ us) = Spares i us

module _ {D E : Type 0} (rules : Rules) where
  turn_other :
      (i j : ℕ) (now : ℤ) (s : Calls D E)
      → j ≢ i
      → get_elem? (turn rules (goes j now) s).threads i ≡ get_elem? s.threads i
  unfolding turn
  turn_other i j now s other = elim (Option-cases (get_elem? s.threads j)) [
    | inl out ↦ rw (out, turn) refl
    | inr (t, here) ↦
        rw (here, turn) (ground (arith, get_elem?-set s.threads j i (step rules now t s.world).0))
  ]

  turns-Spares :
      (i : ℕ) (us : List (Turn D)) (s : Calls D E)
      → Spares i us
      → get_elem? (turns rules us s).threads i ≡ get_elem? s.threads i
  unfolding turns turn
  turns-Spares i [] s h = refl
  turns-Spares i (others shared db ∷ us) s h = turns-Spares i us _ h
  turns-Spares i (goes j now ∷ us) s (other, h) =
      turns-Spares i us (turn rules (goes j now) s) h ∙ turn_other i j now s other

  -- A turn of the call at a place.
  record Goes (i : ℕ) (now : ℤ) (t : Thread D E) (s : Calls D E) : Type 0 where
    thread : get_elem? (turn rules (goes i now) s).threads i ≡ some (step rules now t s.world).0
    world : (turn rules (goes i now) s).world ≡ (step rules now t s.world).1

  turn-Goes :
      (i : ℕ) (now : ℤ) (t : Thread D E) (s : Calls D E)
      → get_elem? s.threads i ≡ some t
      → Goes i now t s
  unfolding turn
  turn-Goes i now t s here = record {
    thread = ground (arith, get_elem?-set s.threads i i (step rules now t s.world).0);
    world = ground arith;
  }

  -- The last section of interest: the entity is in the cache.
  cached-insert_entity :
      (T : EntityType) (e : E) (w : World D E) → cached T (insert_entity T e w) ≡ some e
  unfolding cached insert_entity
  cached-insert_entity T e w = ground (
    arith,
    get-insert T.type_name T.type_name (record { type_id = T.type_id; content = e })
        w.session.entities,
  )

  module _ (i : ℕ) (T : EntityType) (e : E)
      (cacheable : is_cacheable rules T.type_name ≡ true) where
    inserts-cached :
        (now : ℤ) (back : Result (Unit {0}) → Answer E) (s : Calls D E)
        → get_elem? s.threads i ≡ some (inserts T e back)
        → cached T (turn rules (goes i now) s).world ≡ some e
    unfolding step
    inserts-cached now back s here =
        rw ((turn-Goes i now _ s here).world) (cached-insert_entity T e s.world)

    enters :
        (now : ℤ) (back : Result (Unit {0}) → Answer E) (w : World D E)
        → (step rules now (puts T e back) w).0 ≡ inserts T e back
    unfolding step enter_put
    enters now back w = ground arith

    found-cached :
        (a b c : ℤ) (s : Calls D E)
        → get_elem? s.threads i ≡ some (found T (ok e))
        → cached T (turns rules (goes i a ∷ goes i b ∷ goes i c ∷ []) s).world ≡ some e
    unfolding turns
    found-cached a b c s here =
        let s1 = turn rules (goes i a) s in
        let s2 = turn rules (goes i b) s1 in
        let at1 : get_elem? s1.threads i ≡ some (puts T e (loaded_with e)) =
          unfold step keep_found in (turn-Goes i a _ s here).thread in
        let at2 : get_elem? s2.threads i ≡ some (inserts T e (loaded_with e)) =
          (turn-Goes i b _ s1 at1).thread ∙ ap some (enters b (loaded_with e) s1.world) in
        inserts-cached c (loaded_with e) s2 at2

    -- A `get_or_load` of a cacheable type that asks the database keeps what it is told: whatever turns
    -- other calls have while it awaits the answer, also those of a `put` of the type from its first to
    -- its last, its own next three turns leave in the cache the entity that the database had when it
    -- was asked, in the place of any that was put since.
    pub waits-cached :
        (find_by_id : Finder D E) (z a b c : ℤ) (us : List (Turn D)) (s : Calls D E)
        → get_elem? s.threads i ≡ some (waits find_by_id T)
        → (find_by_id T s.world.session.player_id s.world.db).0 ≡ ok e
        → Spares i us
        → cached T
            (turns rules
              (goes i a ∷ goes i b ∷ goes i c ∷ [])
              (turns rules us (turn rules (goes i z) s))).world
          ≡ some e
    waits-cached find_by_id z a b c us s here answer spares =
        let s' = turn rules (goes i z) s in
        let at : get_elem? s'.threads i ≡ some (found T (ok e)) =
          (turn-Goes i z _ s here).thread
          ∙ ap some (unfold step ask_database in ap (found T) answer) in
        found-cached a b c (turns rules us s') (turns-Spares i us s' spares ∙ at)
