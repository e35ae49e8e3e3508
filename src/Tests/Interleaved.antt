-- ===== src/Tests/Interleaved.antt =====
-- Calls on the session of one player, one after the other and at the same time, and each theorem about
-- them at some.
use db233_rust.Common.{
  ◌≡◌, refl, ℕ, ℤ, pos, List, [], ◌∷◌, codes, Text, some, true, map, text_discrete, insert, get,
  contains_key, arith, get_elem?,
}
use db233_rust.Errors.{ok, err, timeout}
use db233_rust.Session.{is_cacheable, cached, touch, new}
use db233_rust.Session.Invariant.{IsValid, new-IsValid}
use db233_rust.Session.Abstract.{
  Call, Answer, view, calls, promised_all, gets, loads, puts, flushes,
}
use db233_rust.Session.Refinement.{calls-promised}
use db233_rust.Common.{none}
use db233_rust.Session.Forgotten.{get_or_load_forgets_error}
use db233_rust.Session.{World, get_or_load, touch}
use db233_rust.Session.Interleaved.{
  Calls, Turn, begin, step, turn, turns, goes, others, waits, finished,
}
use db233_rust.Session.Interleaved.Safe.{turns-IsValid}
use db233_rust.Session.Interleaved.Overwritten.{waits-cached}
use db233_rust.Tests.Session.{hero, item, rules, start, answers}

start-IsValid : IsValid rules start.session
start-IsValid = new-IsValid (pos 7) rules (pos 0)

-- A load that fails, a `put` that is not allowed, one that is, and a flush.
abbrev some_calls : List (ℤ × Call ℕ Text)
some_calls =
    (pos 1, loads (answers (err timeout)) hero)
    ∷ (pos 2, puts item (codes "Sword"))
    ∷ (pos 3, puts hero (codes "Al"))
    ∷ (pos 4, flushes)
    ∷ (pos 5, gets hero)
    ∷ []

calls-promised_example :
    promised_all rules some_calls (view start)
    ≡ ((calls rules some_calls start).0, view (calls rules some_calls start).1)
calls-promised_example = calls-promised rules some_calls start start-IsValid

-- After a timeout, and with the database back, the hero stays lost through a put of another type.
abbrev after_timeout : World ℕ Text
after_timeout = (get_or_load rules (answers (err timeout)) (pos 1) hero start).1

abbrev between : List (ℤ × Call ℕ Text)
between =
    (pos 2, puts item (codes "Sword"))
    ∷ (pos 3, loads (answers (ok (codes "Al"))) hero)
    ∷ (pos 4, flushes)
    ∷ []

get_or_load_forgets_error_example :
    ((get_or_load rules (answers (err timeout)) (pos 1) hero start).0 ≡ ok none)
    × (get_or_load rules
          (answers (ok (codes "Al")))
          (pos 5)
          hero
          (calls rules between after_timeout).1
        ≡ (ok none, touch (pos 5) (calls rules between after_timeout).1))
unfolding cached new get
get_or_load_forgets_error_example =
    get_or_load_forgets_error rules (answers (err timeout)) (answers (ok (codes "Al"))) (pos 1)
      (pos 5) hero start timeout between start-IsValid refl refl refl
      ((λ e. ground arith), (tt, (tt, tt)))

-- A load that is at the database, and a `put` that has not begun.
abbrev both : Calls ℕ Text
both = record {
  threads = waits (answers (ok (codes "Al"))) hero ∷ begin (puts hero (codes "Bo")) ∷ [];
  world = start;
}

-- The `put` from its first section to its last.
abbrev whole_put : List (Turn ℕ)
whole_put = goes 1 (pos 2) ∷ goes 1 (pos 2) ∷ goes 1 (pos 2) ∷ goes 1 (pos 2) ∷ []

program : Unit {0}
unfolding begin turns turn step cached touch is_cacheable get insert contains_key text_discrete new
program = tt

-- After it the cache has what was put.
after_put :
    (cached hero (turns rules whole_put (turn rules (goes 0 (pos 1)) both)).world
      ≡ some (codes "Bo"))
    × (get_elem? (turns rules whole_put (turn rules (goes 0 (pos 1)) both)).threads 1
        ≡ some (finished (Answer.done (ok tt))))
unfolding program
after_put = (refl, refl)

hero_is_cacheable : is_cacheable rules hero.type_name ≡ true
unfolding program
hero_is_cacheable = refl

waits-cached_example :
    cached hero
      (turns rules
        (goes 0 (pos 3) ∷ goes 0 (pos 4) ∷ goes 0 (pos 5) ∷ [])
        (turns rules whole_put (turn rules (goes 0 (pos 1)) both))).world
    ≡ some (codes "Al")
waits-cached_example =
    waits-cached rules 0 hero (codes "Al") hero_is_cacheable (answers (ok (codes "Al"))) (pos 1)
      (pos 3) (pos 4) (pos 5) whole_put both refl refl (omega arith)

-- Two loads and a flush that cut into one another.
abbrev mixed : List (Call ℕ Text)
mixed =
    loads (answers (ok (codes "Al"))) hero ∷ loads (answers (ok (codes "Bo"))) hero ∷ flushes ∷ []

abbrev cut_in : List (Turn ℕ)
cut_in =
    goes 0 (pos 1)
    ∷ goes 1 (pos 1)
    ∷ goes 0 (pos 2)
    ∷ goes 0 (pos 2)
    ∷ goes 1 (pos 2)
    ∷ others [] 5
    ∷ goes 2 (pos 3)
    ∷ []

turns-IsValid_example :
    IsValid rules
      (turns rules cut_in (record { threads = map begin mixed; world = start })).world.session
turns-IsValid_example = turns-IsValid rules (pos 7) (pos 0) [] 0 mixed cut_in
