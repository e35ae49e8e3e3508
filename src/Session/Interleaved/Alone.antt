-- ===== src/Session/Interleaved/Alone.antt =====
-- A call of src/session.rs with no other call between its sections is the method.
use db233_rust.Common.{
  subst, ℕ, zero, suc, ◌+◌, ◌*◌, ◌-◌, ◌≤◌, ℤ, ◌≡◌, refl, Bool, true, false, [], ◌∷◌, none, some,
  length, if◌then◌else◌, arith, Bool-cases, Option-cases, inl, inr, contains_key, ◌&&◌,
}
use db233_rust.Errors.{◌>>=◌, Result, ok, err, panic}
use db233_rust.Session.{
  Set, Rules, EntityType, World, is_cacheable, touch, cached, put, get_entity, flush, flush_each,
  keep_loaded, get_or_load, is_resolved,
}
use db233_rust.Session.Abstract.{Call, Answer, call, loaded, done}
use db233_rust.Session.Interleaved.{
  Finder, Thread, begin, loaded_with, step, alone, next_name, finished, puts, loads, found, waits,
  read_cache, read_flag, look_absent, ask_database, ask_cached, checks, looks,
}

-- The sections of a flush that has collected these names.
abbrev twice : Set → ℕ
twice [] = 0
twice (k ∷ ks) = suc (suc (twice ks))

twice-length : (ks : Set) → twice ks ≡ 2 * length ks
twice-length [] = omega arith
twice-length (k ∷ ks) = omega (arith, twice-length ks)

module _ {D E : Type 0} (rules : Rules) (now : ℤ) where
  alone-finished :
      (n : ℕ) (a : Answer E) (w : World D E) → alone rules n now (finished a) w ≡ (finished a, w)
  unfolding alone step
  alone-finished zero a w = refl
  alone-finished (suc n) a w = alone-finished n a w

  alone-add :
      (n m : ℕ) (t : Thread D E) (w : World D E)
      → alone rules (n + m) now t w
        ≡ (let (t', w') = alone rules n now t w in alone rules m now t' w')
  unfolding alone
  alone-add zero m t w = let e : 0 + m ≡ m = omega arith in rw e refl
  alone-add (suc n) m t w =
      let e : suc n + m ≡ suc (n + m) = omega arith in
      let (t', w') = step rules now t w in rw e (alone-add n m t' w')

  puts-alone :
      (T : EntityType) (e : E) (back : Result (Unit {0}) → Answer E) (w : World D E)
      → alone rules 4 now (puts T e back) w
        ≡ (finished (back (put rules now T e w).0), (put rules now T e w).1)
  unfolding alone step put touch
  puts-alone T e back w = elim (Bool-cases (is_cacheable rules T.type_name)) [
    | inl cacheable ↦ rw (cacheable) refl
    | inr refused ↦ rw (refused) refl
  ]

  keep_loaded-put :
      (T : EntityType) (e : E) (w : World D E)
      → keep_loaded rules now T (ok e) w
        ≡ ((put rules now T e w).0 >>= λ _. ok (some e), (put rules now T e w).1)
  unfolding keep_loaded
  keep_loaded-put T e w = ground arith

  found-alone :
      (T : EntityType) (r : Result E) (w : World D E)
      → alone rules 5 now (found T r) w
        ≡ (finished (loaded (keep_loaded rules now T r w).0), (keep_loaded rules now T r w).1)
  unfolding alone step
  found-alone T (ok e) w = rw (keep_loaded-put T e w) (puts-alone T e (loaded_with e) w)
  found-alone T (err e) w =
      unfold keep_loaded in
      elim (Bool-cases w.session.negative_cache_enabled) [
        | inl on ↦ rw (on, keep_loaded) refl
        | inr off ↦ rw (off, keep_loaded) refl
      ]
  found-alone T panic w = unfold keep_loaded in refl

  -- Some sections, and those behind them.
  runs-alone :
      (n m : ℕ) (t t' : Thread D E) (w w' : World D E) (last : Thread D E × World D E)
      → alone rules n now t w ≡ (t', w')
      → alone rules m now t' w' ≡ last
      → alone rules (n + m) now t w ≡ last
  runs-alone n m t t' w w' last first rest = rw (alone-add n m t w, first) rest

  ends-alone :
      (n m : ℕ) (t : Thread D E) (a : Answer E) (w w' : World D E)
      → alone rules n now t w ≡ (finished a, w')
      → alone rules (n + m) now t w ≡ (finished a, w')
  ends-alone n m t a w w' first = runs-alone n m t _ w w' _ first (alone-finished m a w')

  module _ (find_by_id : Finder D E) (T : EntityType) (w : World D E) where
    -- The sections of `get_or_load` before it asks the database.
    cached-alone :
        (e : E)
        → cached T (touch now w) ≡ some e
        → alone rules 1 now (loads find_by_id T) w ≡ (finished (loaded (ok (some e))), touch now w)
    unfolding alone step read_cache
    cached-alone e here = ground arith

    module _ (missing : cached T (touch now w) ≡ none) where
      missing-alone : alone rules 1 now (loads find_by_id T) w ≡ (checks find_by_id T, touch now w)
      unfolding alone step read_cache
      missing-alone = ground arith

      flag-alone :
          (on : Bool)
          → w.session.negative_cache_enabled ≡ on
          → alone rules 2 now (loads find_by_id T) w
            ≡ (if on then looks find_by_id T else waits find_by_id T, touch now w)
      flag-alone on flag =
          runs-alone 1 1 _ _ w (touch now w) _ missing-alone
            (unfold alone step read_flag touch in simp flag)

      absent-alone :
          (known : Bool)
          → w.session.negative_cache_enabled ≡ true
          → contains_key T.type_name w.session.negative_cache ≡ known
          → alone rules 3 now (loads find_by_id T) w
            ≡ (if known then finished (loaded (ok none)) else waits find_by_id T, touch now w)
      absent-alone known flag in_cache =
          runs-alone 2 1 _ _ w (touch now w) _ (flag-alone true flag)
            (unfold alone step look_absent touch in simp in_cache)

      -- The same branches of the method.
      loads_known :
          w.session.negative_cache_enabled ≡ true
          → contains_key T.type_name w.session.negative_cache ≡ true
          → get_or_load rules find_by_id now T w ≡ (ok none, touch now w)
      unfolding get_or_load
      loads_known flag known = ground arith

      loads_unknown :
          w.session.negative_cache_enabled && contains_key T.type_name w.session.negative_cache
            ≡ false
          → get_or_load rules find_by_id now T w
            ≡ keep_loaded rules now T
                (find_by_id T w.session.player_id w.db).0
                (record (touch now w) { db = (find_by_id T w.session.player_id w.db).1 })
      unfolding get_or_load
      loads_unknown unknown = ground arith

      -- From the database on.
      waits-alone :
          (n : ℕ)
          → alone rules n now (loads find_by_id T) w ≡ (waits find_by_id T, touch now w)
          → w.session.negative_cache_enabled && contains_key T.type_name w.session.negative_cache
            ≡ false
          → alone rules (n + 6) now (loads find_by_id T) w ≡ (
            finished (loaded (get_or_load rules find_by_id now T w).0),
            (get_or_load rules find_by_id now T w).1,
          )
      waits-alone n before unknown =
          let (r, db) = find_by_id T w.session.player_id w.db in
          runs-alone n 6 _ _ w (touch now w) _ before (
            rw (loads_unknown unknown) (
              unfold alone step ask_database touch in
              found-alone T r (record (touch now w) { db = db })))

    loads_here :
        (e : E)
        → cached T (touch now w) ≡ some e
        → get_or_load rules find_by_id now T w ≡ (ok (some e), touch now w)
    unfolding get_or_load
    loads_here e here = ground arith

    missing-alone_end :
        cached T (touch now w) ≡ none
        → alone rules 9 now (loads find_by_id T) w ≡ (
          finished (loaded (get_or_load rules find_by_id now T w).0),
          (get_or_load rules find_by_id now T w).1,
        )
    missing-alone_end missing = elim (Bool-cases w.session.negative_cache_enabled) [
      | inr off ↦
          ends-alone 8 1 _ _ w _ (waits-alone missing 2 (flag-alone missing false off) (simp off))
      | inl on ↦ elim (Bool-cases (contains_key T.type_name w.session.negative_cache)) [
        | inl known ↦
            rw (loads_known missing on known)
              (ends-alone 3 6 _ _ w (touch now w) (absent-alone missing true on known))
        | inr unknown ↦
            waits-alone missing 3 (absent-alone missing false on unknown) (simp (on, unknown))
      ]
    ]

    loads-alone : alone rules 9 now (loads find_by_id T) w ≡ (
      finished (loaded (get_or_load rules find_by_id now T w).0),
      (get_or_load rules find_by_id now T w).1,
    )
    loads-alone = elim (Option-cases (cached T (touch now w))) [
      | inr (e, here) ↦
          rw (loads_here e here) (ends-alone 1 8 _ _ w (touch now w) (cached-alone e here))
      | inl missing ↦ missing-alone_end missing
    ]

  removes-alone :
      (ks : Set) (w : World D E)
      → alone rules (twice ks) now (next_name ks) w ≡ (finished (done (ok tt)), flush_each ks w)
  unfolding alone step flush_each
  removes-alone [] w = refl
  removes-alone (k ∷ ks) w = removes-alone ks _

  asks-alone :
      (T : EntityType) (w : World D E)
      → alone rules 3 now (begin (Call.asks T)) w
        ≡ (finished (Answer.resolved (is_resolved T w)), w)
  unfolding begin alone step ask_cached is_resolved
  asks-alone T w = ground arith

  -- The sections that a call has at most.
  abbrev sections : Call D E → World D E → ℕ
  sections (Call.gets T) w = 1
  sections (Call.loads find_by_id T) w = 9
  sections (Call.puts T e) w = 4
  sections (Call.marks T) w = 1
  sections Call.flushes w = suc (twice w.session.dirty_entities)
  sections (Call.asks T) w = 3
  sections (Call.enables enabled) w = 1

  sections-le :
      (c : Call D E) (w : World D E) → sections c w ≤ 9 + 2 * length w.session.dirty_entities
  sections-le (Call.gets T) w = omega arith
  sections-le (Call.loads find_by_id T) w = omega arith
  sections-le (Call.puts T e) w = omega arith
  sections-le (Call.marks T) w = omega arith
  sections-le Call.flushes w = omega (arith, twice-length w.session.dirty_entities)
  sections-le (Call.asks T) w = omega arith
  sections-le (Call.enables enabled) w = omega arith

  sections-alone :
      (c : Call D E) (w : World D E)
      → alone rules (sections c w) now (begin c) w
        ≡ (finished (call rules now c w).0, (call rules now c w).1)
  unfolding begin call
  sections-alone (Call.gets T) w = unfold alone step get_entity in refl
  sections-alone (Call.loads find_by_id T) w = loads-alone find_by_id T w
  sections-alone (Call.puts T e) w = puts-alone T e done w
  sections-alone (Call.marks T) w = unfold alone step in refl
  sections-alone Call.flushes w =
      unfold alone step flush in removes-alone w.session.dirty_entities w
  sections-alone (Call.asks T) w = asks-alone T w
  sections-alone (Call.enables enabled) w = unfold alone step in refl

  -- Every call comes to its end: where no other call goes on between its sections, it has finished
  -- after 9 sections and two more for each dirty type, whatever the database answers. It then has the
  -- answer of the method, and the session, the counts and the database are as the method leaves them.
  alone-call :
      (c : Call D E) (w : World D E) (n : ℕ)
      → 9 + 2 * length w.session.dirty_entities ≤ n
      → alone rules n now (begin c) w ≡ (finished (call rules now c w).0, (call rules now c w).1)
  alone-call c w n enough =
      let k = sections c w in
      let split : k + (n - k) ≡ n = omega (arith, sections-le c w) in
      subst
        (λ m.
          alone rules m now (begin c) w ≡ (finished (call rules now c w).0, (call rules now c w).1))
        split (ends-alone k (n - k) (begin c) _ w _ (sections-alone c w))
