-- ===== src/Tests/Session.antt =====
-- Runs of src/session.rs on a session of one player, and each theorem about it at one.

use db233_rust.Session.{
  Rules, EntityType, World, new, put, flush, get_entity, is_cacheable, is_resolved, cached,
  can_add_entity,
}
use db233_rust.Session.Reads.{put-get_entity}
use db233_rust.Config.{default_entity_cache}
use db233_rust.Errors.{Result, ok}
use db233_rust.Common.{
  ◌≡◌, refl, [], ◌∷◌, codes, pos, ℤ, ℕ, Text, text_discrete, get, insert, contains_key, some, true,
  false, arith,
}

program : Unit {0}
unfolding put flush get_entity cached get insert contains_key is_cacheable text_discrete new
    can_add_entity
program = tt

abbrev pub hero : EntityType
hero = record { type_name = codes "Hero"; type_id = 1 }

abbrev pub item : EntityType
item = record { type_name = codes "Item"; type_id = 2 }

-- Heroes are cacheable, at most one of them.
abbrev pub rules : Rules
rules = record {
  config = record default_entity_cache { negative_cache_enabled = true };
  cacheable_types = (codes "Hero", tt) ∷ [];
  entity_type_limits = (codes "Hero", 1) ∷ [];
}

-- The database is the number of calls that it has had.
abbrev pub start : World ℕ Text
start = record { session = new (pos 7) rules (pos 0); counts = []; db = 0 }

abbrev pub answers : Result Text → EntityType → ℤ → ℕ → Result Text × ℕ
answers r T player_id calls = (r, 1)

abbrev after_put : World ℕ Text
after_put = (put rules (pos 1) hero (codes "Al") start).1

put-get_entity_example :
    ((put rules (pos 1) hero (codes "Al") start).0 ≡ ok tt)
    × ((get_entity (pos 2) hero after_put).0 ≡ some (codes "Al"))
    × (is_resolved hero after_put ≡ true)
    × (contains_key (codes "Hero") after_put.session.dirty_entities ≡ true)
    × ((get_entity (pos 2) item after_put).0 ≡ (get_entity (pos 2) item start).0)
    × (after_put.db ≡ start.db)
unfolding program
put-get_entity_example =
    put-get_entity rules (pos 1) hero (codes "Al") start refl item (pos 2) (λ e. ground arith)

limit_passed : can_add_entity rules ((codes "Hero", 1) ∷ []) (codes "Hero") ≡ false
unfolding program
limit_passed = refl
