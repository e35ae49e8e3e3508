-- ===== src/Session/Forgotten.antt =====
-- The negative cache of src/session.rs after a load that failed, through any later calls.
use db233_rust.Common.{
  ℤ, ◌≡◌, refl, ap, ◌≢◌, true, List, [], ◌∷◌, none, arith, sym, Option-cases, inl, inr, Bool-cases,
}
use db233_rust.Errors.{Db233Error, Result, ok, err, panic}
use db233_rust.Session.{
  Rules, EntityType, World, touch, downcast, cached, get_or_load, is_cacheable,
}
use db233_rust.Common.{subst}
use db233_rust.Session.Invariant.{IsValid}
use db233_rust.Session.Abstract.{
  Abstract, Call, view, call, calls, loading, promised, promised_all, gets, loads, puts, marks,
  flushes, asks, enables,
}
use db233_rust.Session.Reads.{get_or_load_failed, get_or_load_absent}
use db233_rust.Session.Refinement.{call-Step, calls-promised}

-- A call that neither puts an entity under the name of the type nor switches the negative cache off.
abbrev pub LeavesAbsent : {D E : Type 0} → EntityType → Call D E → Type 0
LeavesAbsent T (gets S) = Unit
LeavesAbsent T (loads find_by_id S) = Unit
LeavesAbsent T (puts S e) = S.type_name ≢ T.type_name
LeavesAbsent T (marks S) = Unit
LeavesAbsent T flushes = Unit
LeavesAbsent T (asks S) = Unit
LeavesAbsent T (enables enabled) = enabled ≡ true

abbrev pub AllLeaveAbsent : {D E : Type 0} → EntityType → List (ℤ × Call D E) → Type 0
AllLeaveAbsent T [] = Unit
AllLeaveAbsent T ((_, c) ∷ cs) = LeavesAbsent T c × AllLeaveAbsent T cs

-- Nothing is cached for the type, and it is remembered as absent.
record IsMissing {D E : Type 0} (T : EntityType) (a : Abstract D E) : Type 0 where
  uncached : downcast T (a.entity T.type_name) ≡ none
  enabled : a.remembers ≡ true
  absent : a.is_absent T.type_name ≡ true

module _ {D E : Type 0} (rules : Rules) (T : EntityType) where
  loading-IsMissing :
      (S : EntityType) (found : Result E) (a : Abstract D E)
      → S.type_name ≢ T.type_name
      → IsMissing T a
      → IsMissing T (loading rules S found a).1
  loading-IsMissing S (ok e) a other h = elim (Bool-cases (is_cacheable rules S.type_name)) [
    | inl cacheable ↦ rw cacheable (record {
      uncached = ground (arith, other, h.uncached);
      enabled = h.enabled;
      absent = h.absent;
    })
    | inr refused ↦ rw refused h
  ]
  loading-IsMissing S (err e) a other h =
      rw h.enabled
        (record { uncached = h.uncached; enabled = refl; absent = ground (arith, h.absent) })
  loading-IsMissing S panic a other h = h

  loads-IsMissing :
      (S : EntityType) (find_by_id : EntityType → ℤ → D → Result E × D) (a : Abstract D E)
      → IsMissing T a
      → IsMissing T (promised rules (loads find_by_id S) a).1
  unfolding promised
  loads-IsMissing S find_by_id a h = elim (Option-cases (downcast S (a.entity S.type_name))) [
    | inr (e, here) ↦
        let stays : (promised rules (loads find_by_id S) a).1 ≡ a = ground (arith, here) in
        subst (IsMissing T) (sym stays) h
    | inl out ↦ elim (Bool-cases (a.is_absent S.type_name)) [
      | inl known ↦
          let stays : (promised rules (loads find_by_id S) a).1 ≡ a =
            ground (arith, out, known, h.enabled) in
          subst (IsMissing T) (sym stays) h
      | inr unknown ↦
          let (found, db) = find_by_id S a.player_id a.db in
          let asks_database : (promised rules (loads find_by_id S) a).1
              ≡ (loading rules S found (record a { db = db })).1 =
            ground (arith, out, unknown, h.enabled) in
          let other : S.type_name ≢ T.type_name =
            λ same. cc (ap a.is_absent same, unknown, h.absent) in
          subst (IsMissing T) (sym asks_database) (
            loading-IsMissing S found (record a { db = db }) other
              (record { uncached = h.uncached; enabled = h.enabled; absent = h.absent }))
    ]
  ]

  puts-IsMissing :
      (S : EntityType) (e : E) (a : Abstract D E)
      → S.type_name ≢ T.type_name
      → IsMissing T a
      → IsMissing T (promised rules (puts S e) a).1
  unfolding promised
  puts-IsMissing S e a other h = elim (Bool-cases (is_cacheable rules S.type_name)) [
    | inl cacheable ↦
        rw (cacheable, promised)
          (record {
            uncached = ground (arith, other, h.uncached);
            enabled = h.enabled;
            absent = h.absent;
          })
    | inr refused ↦ rw (refused, promised) h
  ]

  promised-IsMissing :
      (c : Call D E) (a : Abstract D E)
      → LeavesAbsent T c
      → IsMissing T a
      → IsMissing T (promised rules c a).1
  unfolding promised
  promised-IsMissing (gets S) a leaves h = h
  promised-IsMissing (loads find_by_id S) a leaves h = loads-IsMissing S find_by_id a h
  promised-IsMissing (puts S e) a leaves h = puts-IsMissing S e a leaves h
  promised-IsMissing (marks S) a leaves h = record {
    uncached = h.uncached;
    enabled = h.enabled;
    absent = h.absent;
  }
  promised-IsMissing flushes a leaves h = record {
    uncached = h.uncached;
    enabled = h.enabled;
    absent = h.absent;
  }
  promised-IsMissing (asks S) a leaves h = h
  promised-IsMissing (enables enabled) a leaves h = record {
    uncached = h.uncached;
    enabled = leaves;
    absent = h.absent;
  }

  promised_all-IsMissing :
      (cs : List (ℤ × Call D E)) (a : Abstract D E)
      → AllLeaveAbsent T cs
      → IsMissing T a
      → IsMissing T (promised_all rules cs a).1
  unfolding promised_all
  promised_all-IsMissing [] a leave h = h
  promised_all-IsMissing ((_, c) ∷ cs) a (leaves, leave) h =
      promised_all-IsMissing cs (promised rules c a).1 leave (promised-IsMissing c a leaves h)

-- Any error of the database, not only `NotFound`, is remembered as absence. Take a session without
-- repeats whose negative cache is on, and a load that fails of a type that is not cached: it gives
-- `None`. After any further calls that neither put an entity under the type's name nor switch the
-- negative cache off, a load of the type still gives `None`, whatever the database would give by
-- then, and does not ask it.
pub get_or_load_forgets_error :
    {D E : Type 0} (rules : Rules) (find_by_id find_again : EntityType → ℤ → D → Result E × D)
    (now later : ℤ) (T : EntityType) (w : World D E) (e : Db233Error) (cs : List (ℤ × Call D E))
    → IsValid rules w.session
    → cached T w ≡ none
    → w.session.negative_cache_enabled ≡ true
    → (find_by_id T w.session.player_id w.db).0 ≡ err e
    → AllLeaveAbsent T cs
    → let w' = (get_or_load rules find_by_id now T w).1 in
      let w'' = (calls rules cs w').1 in
      ((get_or_load rules find_by_id now T w).0 ≡ ok none)
      × (get_or_load rules find_again later T w'' ≡ (ok none, touch later w''))
unfolding cached get_or_load call
get_or_load_forgets_error rules find_by_id find_again now later T w e cs valid uncached enabled
      failed leave =
    let (gives_none, k) = get_or_load_failed rules find_by_id now T w e uncached enabled failed in
    let w' = (get_or_load rules find_by_id now T w).1 in
    let first : IsMissing T (view w') = record {
      uncached = k.uncached;
      enabled = k.enabled;
      absent = k.absent;
    } in
    let after =
      subst (IsMissing T)
        (ap (λ r. r.1)
          (calls-promised rules cs w' (call-Step rules now (loads find_by_id T) w valid)))
        (promised_all-IsMissing rules T cs (view w') leave first) in
    (
      gives_none,
      get_or_load_absent rules find_again later T (calls rules cs w').1 after.uncached after.enabled
          after.absent,
    )
