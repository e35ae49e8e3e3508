-- ===== src/Db/Queries.antt =====
-- The queries of src/db.rs for texts and lists, and its queries with named parameters.
use db233_rust.Common.{
  ℤ, u64_as_i64, List, [], ◌∷◌, Text, Map, is_utf8, if◌then◌else◌, ◌≡◌, refl, true,
}
use db233_rust.Errors.{Result, ok}
use db233_rust.SqlValue.{Value}
use db233_rust.NamedParams.{replace_named_parameters}
use db233_rust.NamedParams.Laws.{IsBound, replace_named_parameters-ok_iff}
use db233_rust.NamedParams.Template.{template, is_closed, positional, names}
use db233_rust.Db.{Server, State, and_then, query_map, query_to_int64, exec_update_named, exec}

-- The first text among the values that is UTF-8.
abbrev pub first_text : List Value → Text
first_text [] = []
first_text (Value.bytes b ∷ vs) = let rest = first_text vs in if is_utf8 b then b else rest
first_text (v ∷ vs) = first_text vs

-- `row.into_values().next()`, and what is pushed for it.
abbrev pub pushed_integer : List Value → List ℤ → List ℤ
pushed_integer [] output = output
pushed_integer (Value.int i ∷ vs) output = i ∷ output
pushed_integer (Value.uint u ∷ vs) output = u64_as_i64 u ∷ output
pushed_integer (v ∷ vs) output = output

abbrev pub pushed_text : List Value → List Text → List Text
pushed_text [] output = output
pushed_text (Value.bytes b ∷ vs) output = if is_utf8 b then b ∷ output else output
pushed_text (v ∷ vs) output = output

module _ {S : Type 0} (server : Server S) where
  unfoldable pub query_to_string : Text → List Value → State S → Result Text × State S
  query_to_string sql params st = and_then (query_map server sql params st) (λ results st'.
      elim results [ [] ↦ (ok [], st') | row ∷ _ ↦ (ok (first_text (server.in_order row)), st') ])

  -- `for row in results`, with `output`
  unfoldable pub integers_of : List (Map Value) → List ℤ
  integers_of [] = []
  integers_of (row ∷ results) = pushed_integer (server.in_order row) (integers_of results)

  unfoldable pub texts_of : List (Map Value) → List Text
  texts_of [] = []
  texts_of (row ∷ results) = pushed_text (server.in_order row) (texts_of results)

  unfoldable pub query_to_int64_slice : Text → List Value → State S → Result (List ℤ) × State S
  query_to_int64_slice sql params st =
      and_then (query_map server sql params st) (λ results st'. (ok (integers_of results), st'))

  unfoldable pub query_to_string_slice : Text → List Value → State S → Result (List Text) × State S
  query_to_string_slice sql params st =
      and_then (query_map server sql params st) (λ results st'. (ok (texts_of results), st'))

  unfoldable pub query_named : Text → Map Value → State S → Result (List (Map Value)) × State S
  query_named sql params st =
      and_then (replace_named_parameters sql params, st) (λ s st'. query_map server s.0 s.1 st')

  unfoldable pub query_named_to_int64 : Text → Map Value → State S → Result ℤ × State S
  query_named_to_int64 sql params st =
      and_then (replace_named_parameters sql params, st)
        (λ s st'. query_to_int64 server s.0 s.1 st')

  unfoldable pub query_named_to_string : Text → Map Value → State S → Result Text × State S
  query_named_to_string sql params st =
      and_then (replace_named_parameters sql params, st) (λ s st'. query_to_string s.0 s.1 st')

  unfoldable pub query_named_to_int64_slice : Text → Map Value → State S → Result (List ℤ) × State S
  query_named_to_int64_slice sql params st =
      and_then (replace_named_parameters sql params, st) (λ s st'. query_to_int64_slice s.0 s.1 st')

  unfoldable pub query_named_to_string_slice :
      Text → Map Value → State S → Result (List Text) × State S
  query_named_to_string_slice sql params st =
      and_then (replace_named_parameters sql params, st)
        (λ s st'. query_to_string_slice s.0 s.1 st')

  -- Where every brace of a query is closed and every name has a value, the named query, update and
  -- the four reads of values are those with positional parameters, on the positional text and the
  -- values in the order of their names.
  query_named-positional :
      (sql : Text) (params : Map Value) (values : List Value) (st : State S)
      → is_closed (template sql) ≡ true
      → IsBound params (names (template sql)) values
      → let text = positional (template sql) in
        (query_named sql params st ≡ query_map server text values st)
        × (exec_update_named server sql params st ≡ exec server text values st)
        × (query_named_to_int64 sql params st ≡ query_to_int64 server text values st)
        × (query_named_to_string sql params st ≡ query_to_string text values st)
        × (query_named_to_int64_slice sql params st ≡ query_to_int64_slice text values st)
        × (query_named_to_string_slice sql params st ≡ query_to_string_slice text values st)
  unfolding query_named exec_update_named query_named_to_int64 query_named_to_string
      query_named_to_int64_slice query_named_to_string_slice
  query_named-positional sql params values st closed bound =
      let e =
        (replace_named_parameters-ok_iff sql params (positional (template sql)) values).1
          (closed, refl, bound) in
      rw e (refl, refl, refl, refl, refl, refl)
