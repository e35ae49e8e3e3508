-- ===== src/Session/Owner.antt =====
-- A session of src/session.rs stays the session of its player.
use db233_rust.Common.{ℤ, ◌≡◌, refl, ◌∷◌, [], arith}
use db233_rust.Errors.{Result, ok, err, panic}
use db233_rust.Session.{
  Set, Rules, EntityType, World, touch, get_entity, put, mark_dirty, flush, flush_each,
  set_negative_cache_enabled, keep_loaded, get_or_load,
}
use db233_rust.Session.Invariant.{Step, gets, loads, puts, marks, flushes, enables, others}

module _ {D E : Type 0} where
  flush_each-player_id :
      (ks : Set) (w : World D E) → (flush_each ks w).session.player_id ≡ w.session.player_id
  unfolding flush_each
  flush_each-player_id [] w = refl
  flush_each-player_id (k ∷ ks) w = flush_each-player_id ks _

  pub flush-player_id : (w : World D E) → (flush w).1.session.player_id ≡ w.session.player_id
  unfolding flush
  flush-player_id w = flush_each-player_id w.session.dirty_entities w

  put-player_id :
      (rules : Rules) (now : ℤ) (T : EntityType) (entity : E) (w : World D E)
      → (put rules now T entity w).1.session.player_id ≡ w.session.player_id
  unfolding put touch
  put-player_id rules now T entity w = ground arith

  keep_loaded-player_id :
      (rules : Rules) (now : ℤ) (T : EntityType) (found : Result E) (w : World D E)
      → (keep_loaded rules now T found w).1.session.player_id ≡ w.session.player_id
  unfolding keep_loaded
  keep_loaded-player_id rules now T (ok entity) w =
      ground (arith, put-player_id rules now T entity w)
  keep_loaded-player_id rules now T (err e) w = ground arith
  keep_loaded-player_id rules now T panic w = refl

  get_or_load-player_id :
      (rules : Rules) (find_by_id : EntityType → ℤ → D → Result E × D) (now : ℤ) (T : EntityType)
      (w : World D E)
      → (get_or_load rules find_by_id now T w).1.session.player_id ≡ w.session.player_id
  unfolding get_or_load touch
  get_or_load-player_id rules find_by_id now T w =
      let (found, db) = find_by_id T w.session.player_id w.db in
      ground (arith, keep_loaded-player_id rules now T found (record (touch now w) { db = db }))

  pub Step-player_id :
      (rules : Rules) (w u : World D E) → Step rules w u → u.session.player_id ≡ w.session.player_id
  unfolding get_entity touch mark_dirty set_negative_cache_enabled
  Step-player_id rules w u (gets now T) = refl
  Step-player_id rules w u (loads find_by_id now T) = get_or_load-player_id rules find_by_id now T w
  Step-player_id rules w u (puts now T entity) = put-player_id rules now T entity w
  Step-player_id rules w u (marks now T) = refl
  Step-player_id rules w u flushes = flush-player_id w
  Step-player_id rules w u (enables enabled) = refl
  Step-player_id rules w u (others counts db) = refl
