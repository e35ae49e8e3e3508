-- ===== src/Orm/Placeholders.antt =====
-- The statements of src/orm.rs have one value for each `?`, where no name of theirs has a `?`.
use db233_rust.Common.{
  ◌+◌, ◌≡◌, refl, List, [], ◌∷◌, ◌++◌, Text, codes, count, count-append, count_all, count-join,
  join, length, length-append, arith, ℤ,
}
use db233_rust.Errors.{ok}
use db233_rust.SqlValue.{Value}
use db233_rust.Json.{Json, object_entries}
use db233_rust.Extern.{Extern}
use db233_rust.Entity.{DbEntity}
use db233_rust.Orm.Build.{
  Statement, entity_json, insert_parts, update_parts, upsert_parts, build_insert_sql,
  build_update_sql, build_upsert_sql, insert_text, update_text, on_duplicate_text, upsert_entry,
  UpsertParts, build_delete_sql, build_find_by_id_sql,
}

-- A name without `?`.
abbrev pub IsPlain : Text → Type 0
IsPlain s = count b'?' s ≡ 0

abbrev pub KeysArePlain : {A : Type 0} → List (Text × A) → Type 0
KeysArePlain [] = Unit
KeysArePlain ((k, _) ∷ obj) = IsPlain k × KeysArePlain obj

-- As many `?` as values.
abbrev pub IsBalanced : Statement → Type 0
IsBalanced (sql, values) = count b'?' sql ≡ length values

pub assignment-IsPlain :
    (k : Text) → IsPlain k → IsPlain (k ++ codes " = VALUES(" ++ k ++ codes ")")
unfolding count
assignment-IsPlain k h = simp count-append (omega arith)

module _ {N : Type 0} (x : Extern N) where
  insert_parts-count :
      (obj : List (Text × Json N))
      → KeysArePlain obj
      → (count_all b'?' (insert_parts x obj).0 ≡ 0)
        × (count_all b'?' (insert_parts x obj).1 ≡ length (insert_parts x obj).2)
  unfolding insert_parts count_all count
  insert_parts-count [] h = (refl, refl)
  insert_parts-count ((k, v) ∷ obj) (hk, h) = ground (arith, insert_parts-count obj h)

  update_parts-count :
      (obj : List (Text × Json N))
      → KeysArePlain obj
      → count_all b'?' (update_parts x obj).0 ≡ length (update_parts x obj).1
  unfolding update_parts count_all count
  update_parts-count [] h = refl
  update_parts-count ((k, v) ∷ obj) (hk, h) =
      ground (arith, update_parts-count obj h, count-append b'?' k (codes " = ?"))

  -- The upsert's columns and update clause have no `?`, and a placeholder stands for each value.
  abbrev PartsBalanced : UpsertParts → Type 0
  PartsBalanced p =
      (count_all b'?' p.columns ≡ 0)
      × (count_all b'?' p.placeholders ≡ length p.values)
      × (count_all b'?' p.update_clause ≡ 0)

  upsert_entry-PartsBalanced :
      (k : Text) (v : Json N) (p : UpsertParts)
      → IsPlain k
      → PartsBalanced p
      → PartsBalanced (upsert_entry x k v p)
  unfolding upsert_entry count_all count
  upsert_entry-PartsBalanced k v p hk h = ground (arith, assignment-IsPlain k hk)

  upsert_parts-PartsBalanced :
      (obj : List (Text × Json N)) → KeysArePlain obj → PartsBalanced (upsert_parts x obj)
  unfolding upsert_parts count_all
  upsert_parts-PartsBalanced [] h = (refl, refl, refl)
  upsert_parts-PartsBalanced ((k, v) ∷ obj) (hk, h) =
      upsert_entry-PartsBalanced k v (upsert_parts x obj) hk (upsert_parts-PartsBalanced obj h)

module _ (columns placeholders : List Text) where
  count-insert_text :
      (table : Text)
      → IsPlain table
      → count b'?' (insert_text table columns placeholders)
        ≡ count_all b'?' columns + count_all b'?' placeholders
  unfolding insert_text count
  count-insert_text table h = simp count-append (
      omega (
        arith,
        count-join b'?' (codes ", ") columns refl,
        count-join b'?' (codes ", ") placeholders refl,
      ))

pub count-on_duplicate_text :
    (clause : List Text) → count b'?' (on_duplicate_text clause) ≡ count_all b'?' clause
unfolding on_duplicate_text count
count-on_duplicate_text clause = omega (
  arith,
  count-append b'?' (codes " ON DUPLICATE KEY UPDATE ") (join (codes ", ") clause),
  count-join b'?' (codes ", ") clause refl,
)

count-update_text :
    (table : Text) (clause : List Text) (pk : Text)
    → IsPlain table
    → IsPlain pk
    → count b'?' (update_text table clause pk) ≡ count_all b'?' clause + 1
unfolding update_text count
count-update_text table clause pk ht hp =
    simp count-append (omega (arith, count-join b'?' (codes ", ") clause refl))

module _ {N T : Type 0} (x : Extern N) (D : DbEntity N T) (e : T) (json : Json N)
    (serialized : entity_json x D e ≡ ok json) (keys : KeysArePlain (object_entries json))
    (table : IsPlain D.table_name) where
  build_insert_sql-IsBalanced : (st : Statement) → build_insert_sql x D e ≡ ok st → IsBalanced st
  unfolding build_insert_sql
  build_insert_sql-IsBalanced st h =
      let obj = object_entries json in
      ground (
        arith,
        insert_parts-count x obj keys,
        count-insert_text (insert_parts x obj).0 (insert_parts x obj).1 D.table_name table,
      )

  build_upsert_sql-IsBalanced : (st : Statement) → build_upsert_sql x D e ≡ ok st → IsBalanced st
  unfolding build_upsert_sql
  build_upsert_sql-IsBalanced st h =
      let obj = object_entries json in
      ground (
        arith,
        upsert_parts-PartsBalanced x obj keys,
        count-insert_text (upsert_parts x obj).columns (upsert_parts x obj).placeholders
            D.table_name table,
        count-on_duplicate_text (upsert_parts x obj).update_clause,
        count-append b'?'
            (insert_text D.table_name (upsert_parts x obj).columns
              (upsert_parts x obj).placeholders)
            (on_duplicate_text (upsert_parts x obj).update_clause),
      )

  build_update_sql-IsBalanced :
      (st : Statement) → IsPlain D.primary_key_name → build_update_sql x D e ≡ ok st → IsBalanced st
  unfolding build_update_sql
  build_update_sql-IsBalanced st pk h =
      let obj = object_entries json in
      ground (
        arith,
        update_parts-count x obj keys,
        count-update_text D.table_name (update_parts x obj).0 D.primary_key_name table pk,
        length-append (update_parts x obj).1 (Value.int (D.primary_key_value e) ∷ []),
      )

  -- Of an entity that serializes, where the names of the table, of its primary key and of the fields
  -- have no `?`: each of the statements that insert it, upsert it, update it, delete it or find one
  -- by its id has as many `?` as values are bound.
  pub built-IsBalanced :
      IsPlain D.primary_key_name
      → ((st : Statement) → build_insert_sql x D e ≡ ok st → IsBalanced st)
        × ((st : Statement) → build_upsert_sql x D e ≡ ok st → IsBalanced st)
        × ((st : Statement) → build_update_sql x D e ≡ ok st → IsBalanced st)
        × IsBalanced (build_delete_sql x D e)
        × ((id : ℤ) → IsBalanced (build_find_by_id_sql D id))
  unfolding build_delete_sql build_find_by_id_sql count
  built-IsBalanced pk = (
    build_insert_sql-IsBalanced,
    build_upsert_sql-IsBalanced,
    λ st h. build_update_sql-IsBalanced st pk h,
    simp count-append (omega arith),
    λ id. simp count-append (omega arith),
  )
