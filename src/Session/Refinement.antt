-- ===== src/Session/Refinement.antt =====
-- A session of src/session.rs does what Session/Abstract promises.
use db233_rust.Common.{
  ℕ, ◌+◌, ℤ, ◌≡◌, refl, Bool, true, false, List, [], ◌∷◌, Option, none, some, Text, get, insert,
  contains_key, get-insert, arith, Bool-cases, Option-cases, inl, inr, Map, sym, ◌&&◌,
}
use mathlib.Core.Path.{fun_ext}
use db233_rust.Errors.{session_error, Result, ok, err, panic}
use db233_rust.Session.{
  Set, not_cacheable, Rules, EntityType, World, is_cacheable, downcast, get_entity, put, cached,
  touch, mark_dirty, flush, flush_each, is_resolved, set_negative_cache_enabled, get_or_load,
  keep_loaded, count_or_zero, increment_entity_count,
}
use db233_rust.Session.Invariant.{IsValid, Step, Step-IsValid, contains_key-insert}
use db233_rust.Session.Flush.{flush_lem}
use db233_rust.Session.Abstract.{
  Call, Answer, changed, one_more, view, call, calls, putting, loading, promised, promised_all,
  gets, loads, puts, marks, flushes, asks, enables, loaded,
}

-- The names after an insertion, as functions.
contains_key-changed :
    {V : Type 0} (k : Text) (v : V) (m : Map V)
    → ◌≡◌ {A = Text → Bool}
        (λ j. contains_key j (insert k v m))
        (changed k true (λ j. contains_key j m))
contains_key-changed k v m = fun_ext (λ j. contains_key-insert k j v m)

get-changed :
    {V : Type 0} (k : Text) (v : V) (m : Map V)
    → ◌≡◌ {A = Text → Option V} (λ j. get j (insert k v m)) (changed k (some v) (λ j. get j m))
get-changed k v m = fun_ext (λ j. get-insert k j v m)

increment-changed :
    (k : Text) (counts : Map ℕ)
    → ◌≡◌ {A = Text → Option ℕ}
        (λ j. get j (increment_entity_count k counts))
        (changed k (one_more (get k counts)) (λ j. get j counts))
unfolding increment_entity_count
increment-changed k counts = fun_ext (λ j. elim (Option-cases (get k counts)) [
  | inl absent ↦ rw (absent, count_or_zero) (get-insert k j 1 counts)
  | inr (n, here) ↦ rw (here, count_or_zero) (get-insert k j (n + 1) counts)
])

module _ {D E : Type 0} where
  -- What a flush leaves alone beside the entities and the database.
  flush_each-fixed :
      (ks : Set) (w : World D E)
      → ((flush_each ks w).session.player_id ≡ w.session.player_id)
        × ((flush_each ks w).session.negative_cache ≡ w.session.negative_cache)
        × ((flush_each ks w).session.negative_cache_enabled ≡ w.session.negative_cache_enabled)
  unfolding flush_each
  flush_each-fixed [] w = (refl, refl, refl)
  flush_each-fixed (k ∷ ks) w = flush_each-fixed ks _

  flush-fixed :
      (w : World D E)
      → ((flush w).1.session.player_id ≡ w.session.player_id)
        × ((flush w).1.session.negative_cache ≡ w.session.negative_cache)
        × ((flush w).1.session.negative_cache_enabled ≡ w.session.negative_cache_enabled)
  unfolding flush
  flush-fixed w = flush_each-fixed w.session.dirty_entities w

module _ {D E : Type 0} (rules : Rules) where
  -- The world after a `put` that is allowed.
  put-putting :
      (now : ℤ) (T : EntityType) (e : E) (w : World D E)
      → is_cacheable rules T.type_name ≡ true
      → ((put rules now T e w).0 ≡ ok tt)
        × (view (put rules now T e w).1 ≡ putting rules T e (view w))
  unfolding put
  put-putting now T e w cacheable =
      rw (cacheable, put)
        (
          refl,
          λ i. record (view w) {
            entity =
                get-changed T.type_name (record { type_id = T.type_id; content = e })
                  w.session.entities i;
            is_dirty = contains_key-changed T.type_name tt w.session.dirty_entities i;
            count = increment-changed T.type_name w.counts i;
          },
        )

  put_refused :
      (now : ℤ) (T : EntityType) (e : E) (w : World D E)
      → is_cacheable rules T.type_name ≡ false
      → put rules now T e w ≡ (err (session_error not_cacheable), touch now w)
  unfolding put
  put_refused now T e w refused = ground arith

  -- A method keeps its promise: the answer, and the state as it can be seen.
  abbrev Keeps : ℤ → Call D E → World D E → Type 0
  Keeps now c w = promised rules c (view w) ≡ ((call rules now c w).0, view (call rules now c w).1)

  puts-Keeps : (now : ℤ) (T : EntityType) (e : E) (w : World D E) → Keeps now (puts T e) w
  unfolding call promised
  puts-Keeps now T e w = elim (Bool-cases (is_cacheable rules T.type_name)) [
    | inl cacheable ↦
        let (answer, after) = put-putting now T e w cacheable in
        rw (cacheable, promised) (λ i. (Answer.done (sym answer i), sym after i))
    | inr refused ↦ rw (refused, put_refused now T e w refused) (unfold touch in refl)
  ]

  keep_loaded_refused :
      (now : ℤ) (T : EntityType) (e : E) (w : World D E)
      → is_cacheable rules T.type_name ≡ false
      → keep_loaded rules now T (ok e) w ≡ (err (session_error not_cacheable), touch now w)
  unfolding keep_loaded
  keep_loaded_refused now T e w refused = ground (arith, put_refused now T e w)

  loading-Keeps :
      (now : ℤ) (T : EntityType) (found : Result E) (w : World D E)
      → loading rules T found (view w)
        ≡ (loaded (keep_loaded rules now T found w).0, view (keep_loaded rules now T found w).1)
  unfolding keep_loaded
  loading-Keeps now T (ok e) w = elim (Bool-cases (is_cacheable rules T.type_name)) [
    | inl cacheable ↦
        let (answer, after) = put-putting now T e w cacheable in
        rw (cacheable, answer, keep_loaded) (λ i. (loaded (ok (some e)), sym after i))
    | inr refused ↦ rw (refused, keep_loaded_refused now T e w refused) (unfold touch in refl)
  ]
  loading-Keeps now T (err e) w = elim (Bool-cases w.session.negative_cache_enabled) [
    | inl on ↦ simp on (λ i. (
      loaded (ok none),
      record (view w) {
        is_absent = sym (contains_key-changed T.type_name tt w.session.negative_cache) i;
        remembers = true;
      },
    ))
    | inr off ↦ simp off
  ]
  loading-Keeps now T panic w = refl

  loads-Keeps :
      (now : ℤ) (find_by_id : EntityType → ℤ → D → Result E × D) (T : EntityType) (w : World D E)
      → Keeps now (loads find_by_id T) w
  unfolding call promised get_or_load cached touch
  loads-Keeps now find_by_id T w =
      let (found, db) = find_by_id T w.session.player_id w.db in
      let absent = contains_key T.type_name w.session.negative_cache in
      elim (Option-cases (downcast T (get T.type_name w.session.entities))) [
        | inr (e, here) ↦ rw (here, promised, call, get_or_load, cached, touch) refl
        | inl missing ↦
            rw (missing, promised, call, get_or_load, cached, touch)
              (elim (Bool-cases (w.session.negative_cache_enabled && absent)) [
                | inl known ↦ rw (known, get_or_load) refl
                | inr unknown ↦
                    rw (unknown, get_or_load)
                      (loading-Keeps now T found (record (touch now w) { db = db }))
              ])
      ]

  flushes-Keeps : (now : ℤ) (w : World D E) → IsValid rules w.session → Keeps now flushes w
  unfolding call promised
  flushes-Keeps now w v =
      let (answer, clean, counts, entities, db) = flush_lem w v.dirty in
      let (player_id, negative, enabled) = flush-fixed w in
      λ i. (
        Answer.done (sym answer i),
        record {
          player_id = sym player_id i;
          entity = λ k. get k (sym entities i);
          is_dirty = λ k. sym (clean k) i;
          is_absent = λ k. contains_key k (sym negative i);
          remembers = sym enabled i;
          count = λ k. sym (counts k) i;
          db = sym db i;
        },
      )

  asks-Keeps : (now : ℤ) (T : EntityType) (w : World D E) → Keeps now (asks T) w
  unfolding call promised is_resolved contains_key
  asks-Keeps now T w = ground arith

  call-Keeps : (now : ℤ) (c : Call D E) (w : World D E) → IsValid rules w.session → Keeps now c w
  call-Keeps now (gets T) w v = unfold call promised get_entity cached touch in refl
  call-Keeps now (loads find_by_id T) w v = loads-Keeps now find_by_id T w
  call-Keeps now (puts T e) w v = puts-Keeps now T e w
  call-Keeps now (marks T) w v =
      unfold call promised mark_dirty in
      (λ i. (
        Answer.nothing,
        record (view w) {
          is_dirty = sym (contains_key-changed T.type_name tt w.session.dirty_entities) i;
        },
      ))
  call-Keeps now flushes w v = flushes-Keeps now w v
  call-Keeps now (asks T) w v = asks-Keeps now T w
  call-Keeps now (enables enabled) w v = unfold call promised set_negative_cache_enabled in refl

  -- Each call is a step of a history.
  pub call-Step :
      (now : ℤ) (c : Call D E) (w : World D E)
      → IsValid rules w.session
      → IsValid rules (call rules now c w).1.session
  unfolding call
  call-Step now (gets T) w v = Step-IsValid rules w _ (Step.gets now T) v
  call-Step now (loads find_by_id T) w v = Step-IsValid rules w _ (Step.loads find_by_id now T) v
  call-Step now (puts T e) w v = Step-IsValid rules w _ (Step.puts now T e) v
  call-Step now (marks T) w v = Step-IsValid rules w _ (Step.marks now T) v
  call-Step now flushes w v = Step-IsValid rules w _ Step.flushes v
  call-Step now (asks T) w v = v
  call-Step now (enables enabled) w v = Step-IsValid rules w _ (Step.enables enabled) v

  -- From a session without repeats, any calls of its methods at any times give the answers that
  -- Session/Abstract promises, and leave the session as promised. What is promised forgets the order
  -- in which the hash maps keep their entries and the time of each call: neither is ever seen.
  pub calls-promised :
      (cs : List (ℤ × Call D E)) (w : World D E)
      → IsValid rules w.session
      → promised_all rules cs (view w) ≡ ((calls rules cs w).0, view (calls rules cs w).1)
  unfolding calls promised_all
  calls-promised [] w v = refl
  calls-promised ((now, c) ∷ cs) w v =
      rw (call-Keeps now c w v, calls-promised cs (call rules now c w).1 (call-Step now c w v)) refl
