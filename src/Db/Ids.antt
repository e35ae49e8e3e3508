-- ===== src/Db/Ids.antt =====
-- What src/db.rs reads by id: the statement of several ids, and the answers of one.
use db233_rust.Orm.Build.{build_find_by_id_sql}
use db233_rust.Common.{
  ℤ, ◌≡◌, List, [], ◌∷◌, codes, arith, length, count, count-append, count-repeat,
  count-trim_end_matches, repeat, map, length-map, inl, inr,
}
use db233_rust.Errors.{Result, ok, err, not_found, Result-cases, ◌>>=◌}
use db233_rust.SqlValue.{Value}
use db233_rust.Extern.{Extern}
use db233_rust.Entity.{DbEntity}
use db233_rust.Wal.{EntryFormat}
use db233_rust.Orm.{Row, query_to_entity}
use db233_rust.Orm.Placeholders.{IsPlain, IsBalanced}
use db233_rust.Db.{Server, State, query_rows, query, ids_sql, find_by_id}

module _ {N T S : Type 0} (server : Server S) (x : Extern N) (format : EntryFormat)
    (D : DbEntity N T) where
  abbrev pub first_or_not_found : List T → Result T
  first_or_not_found [] = err not_found
  first_or_not_found (first ∷ rest) = ok first

  -- Where the names of the table and of its primary key have no `?`, `find_by_ids` binds one value
  -- for each `?` of its statement.
  ids_sql-IsBalanced :
      (ids : List ℤ)
      → IsPlain D.table_name
      → IsPlain D.primary_key_name
      → IsBalanced (ids_sql server x format D ids, map Value.int ids)
  unfolding ids_sql count
  ids_sql-IsBalanced ids table pk = simp count-append (
      omega (
        arith,
        table,
        pk,
        length-map Value.int ids,
        count-trim_end_matches b'?' b',' (repeat (length ids) (codes "?,")) (omega arith),
        count-repeat b'?' (length ids) (codes "?,"),
      ))

  -- Where the server answers with rows, `find_by_id` reads all of them: it returns the entity of the
  -- first row, `NotFound` if there is no row, and the error or panic of any row that is no entity.
  find_by_id-rows :
      (id : ℤ) (st st' : State S) (rows : List Row)
      → query_rows server (build_find_by_id_sql D id).0 (build_find_by_id_sql D id).1 st
        ≡ (ok rows, st')
      → find_by_id server x format D id st ≡ (query_to_entity x D rows >>= first_or_not_found, st')
  unfolding find_by_id query
  find_by_id-rows id st st' rows h = elim (Result-cases (query_to_entity x D rows)) [
    | inl ([], e) ↦ ground arith
    | inl (first ∷ rest, e) ↦ ground arith
    | inr failed ↦ ground arith
  ]
