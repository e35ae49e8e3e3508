-- ===== src/Session/Reads.antt =====
-- What src/session.rs lets a caller read: after a `put`, and from `get_or_load`.
use db233_rust.Common.{ℤ, ◌≡◌, ◌≢◌, true, false, none, some, contains_key, get-insert, arith}
use db233_rust.Errors.{Db233Error, Result, ok, err, session_error}
use db233_rust.Session.{
  Rules, EntityType, World, not_cacheable, is_cacheable, touch, cached, get_entity, put,
  is_resolved, keep_loaded, get_or_load,
}

module _ {D E : Type 0} (rules : Rules) (now : ℤ) (T : EntityType) (entity : E)
    (w : World D E) where
  -- A `put` of a cacheable type succeeds; a `get` of that type then returns the entity, the type is
  -- resolved and dirty, every type of another name reads as before, and the database is not used.
  pub put-get_entity :
      is_cacheable rules T.type_name ≡ true
      → (S : EntityType) (later : ℤ) → S.type_name ≢ T.type_name
      → let w' = (put rules now T entity w).1 in
        ((put rules now T entity w).0 ≡ ok tt)
        × ((get_entity later T w').0 ≡ some entity)
        × (is_resolved T w' ≡ true)
        × (contains_key T.type_name w'.session.dirty_entities ≡ true)
        × ((get_entity later S w').0 ≡ (get_entity later S w).0)
        × (w'.db ≡ w.db)
  unfolding put get_entity cached touch is_resolved contains_key
  put-get_entity cacheable S later other = ground (
    arith,
    get-insert T.type_name T.type_name (record { type_id = T.type_id; content = entity })
        w.session.entities,
    get-insert T.type_name S.type_name (record { type_id = T.type_id; content = entity })
        w.session.entities,
    get-insert T.type_name T.type_name tt w.session.dirty_entities,
  )

module _ {D E : Type 0} (rules : Rules) (find_by_id : EntityType → ℤ → D → Result E × D) where
  -- A type that is known to be absent is answered without the database.
  pub get_or_load_absent :
      (now : ℤ) (T : EntityType) (w : World D E)
      → cached T w ≡ none
      → w.session.negative_cache_enabled ≡ true
      → contains_key T.type_name w.session.negative_cache ≡ true
      → get_or_load rules find_by_id now T w ≡ (ok none, touch now w)
  unfolding get_or_load cached touch
  get_or_load_absent now T w uncached enabled absent = ground arith

  -- The type is not cached, and remembered as absent.
  pub record IsAbsent (T : EntityType) (w : World D E) : Type 0 where
    pub uncached : cached T w ≡ none
    pub enabled : w.session.negative_cache_enabled ≡ true
    pub absent : contains_key T.type_name w.session.negative_cache ≡ true

  pub get_or_load_failed :
      (now : ℤ) (T : EntityType) (w : World D E) (e : Db233Error)
      → cached T w ≡ none
      → w.session.negative_cache_enabled ≡ true
      → (find_by_id T w.session.player_id w.db).0 ≡ err e
      → ((get_or_load rules find_by_id now T w).0 ≡ ok none)
        × IsAbsent T (get_or_load rules find_by_id now T w).1
  unfolding get_or_load keep_loaded cached touch contains_key
  get_or_load_failed now T w e uncached enabled failed =
      ground (arith, get-insert T.type_name T.type_name tt w.session.negative_cache)

  get_or_load-cached :
      (now : ℤ) (T : EntityType) (w : World D E) (entity : E)
      → cached T w ≡ some entity
      → get_or_load rules find_by_id now T w ≡ (ok (some entity), touch now w)
  unfolding get_or_load cached touch
  get_or_load-cached now T w entity here = ground arith

  module _ (now : ℤ) (T : EntityType) (w : World D E) (entity : E) (uncached : cached T w ≡ none)
      (off : w.session.negative_cache_enabled ≡ false)
      (found : (find_by_id T w.session.player_id w.db).0 ≡ ok entity) where
    get_or_load_loaded :
        is_cacheable rules T.type_name ≡ true
        → ((get_or_load rules find_by_id now T w).0 ≡ ok (some entity))
          × (cached T (get_or_load rules find_by_id now T w).1 ≡ some entity)
    unfolding get_or_load keep_loaded cached touch put
    get_or_load_loaded cacheable = ground (
      arith,
      get-insert T.type_name T.type_name (record { type_id = T.type_id; content = entity })
          w.session.entities,
    )

    get_or_load_refused :
        is_cacheable rules T.type_name ≡ false
        → (get_or_load rules find_by_id now T w).0 ≡ err (session_error not_cacheable)
    unfolding get_or_load keep_loaded cached touch put
    get_or_load_refused refused = ground arith

-- What `get_or_load` does with an entity that the database has: a cacheable type is returned, and
-- the next call returns it from the cache without asking the database; a type that is not cacheable
-- is an error, though the entity was found.
get_or_load_found :
    {D E : Type 0} (rules : Rules) (find_by_id find_again : EntityType → ℤ → D → Result E × D)
    (now later : ℤ) (T : EntityType) (w : World D E) (entity : E)
    → cached T w ≡ none
    → w.session.negative_cache_enabled ≡ false
    → (find_by_id T w.session.player_id w.db).0 ≡ ok entity
    → (is_cacheable rules T.type_name ≡ true
        → ((get_or_load rules find_by_id now T w).0 ≡ ok (some entity))
          × (get_or_load rules find_again later T (get_or_load rules find_by_id now T w).1
              ≡ (ok (some entity), touch later (get_or_load rules find_by_id now T w).1)))
      × (is_cacheable rules T.type_name ≡ false
          → (get_or_load rules find_by_id now T w).0 ≡ err (session_error not_cacheable))
get_or_load_found rules find_by_id find_again now later T w entity uncached off found = (
  λ cacheable.
      let (gives, here) =
        get_or_load_loaded rules find_by_id now T w entity uncached off found cacheable in
      (gives, get_or_load-cached rules find_again later T _ entity here),
  get_or_load_refused rules find_by_id now T w entity uncached off found,
)
