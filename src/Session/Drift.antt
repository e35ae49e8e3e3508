-- ===== src/Session/Drift.antt =====
-- The entity counts of src/session.rs count calls of `put`, not cached entities, and no limit stops them.
use db233_rust.Common.{ℕ, zero, suc, ◌+◌, ◌≡◌, true, ℤ, get-insert, arith}
use db233_rust.Session.{
  Rules, EntityType, World, is_cacheable, count_or_zero, increment_entity_count, put,
}

module _ {D E : Type 0} (rules : Rules) (now : ℤ) (T : EntityType) (entity : E) where
  -- `put` of the same entity `n` times.
  unfoldable pub put_times : ℕ → World D E → World D E
  put_times zero w = w
  put_times (suc n) w = put_times n (put rules now T entity w).1

  put-counts :
      (w : World D E)
      → is_cacheable rules T.type_name ≡ true
      → count_or_zero T.type_name (put rules now T entity w).1.counts
        ≡ count_or_zero T.type_name w.counts + 1
  unfolding put increment_entity_count
  put-counts w cacheable =
      ground (
        arith,
        get-insert T.type_name T.type_name (count_or_zero T.type_name w.counts + 1) w.counts,
      )

  -- Whatever its limit, `n` puts of one cacheable type raise the count of that type by `n`, although
  -- the session holds one entity of the type at most.
  pub put_times-counts :
      (n : ℕ) (w : World D E)
      → is_cacheable rules T.type_name ≡ true
      → count_or_zero T.type_name (put_times n w).counts ≡ count_or_zero T.type_name w.counts + n
  unfolding put_times
  put_times-counts zero w cacheable = omega arith
  put_times-counts (suc n) w cacheable =
      omega
        (arith, put_times-counts n (put rules now T entity w).1 cacheable, put-counts w cacheable)
