-- ===== src/Tests/NamedParams.antt =====
-- Runs of src/named_params.rs, its own tests among them.
use db233_rust.NamedParams.Batch.{RowsAre, build_batch_named_params-ok_iff}
use db233_rust.NamedParams.Laws.{IsBound, replace_named_parameters-ok_iff}
use db233_rust.NamedParams.Reference.{replace_named_parameters-expand}
use db233_rust.NamedParams.Template.{expand, template, is_closed, positional, names}
use db233_rust.Common.{
  ◌≡◌, refl, [], ◌∷◌, codes, pos, text_discrete, get, dec_lt, Map, Text, List, ◌↔◌, true,
}
use db233_rust.Errors.{ok, err, parameter_error}
use db233_rust.SqlValue.{Value}
use db233_rust.NamedParams.{
  find, replace_named_parameters, missing, unclosed, build_batch_named_params,
}

program : Unit {0}
unfolding find replace_named_parameters text_discrete get dec_lt
program = tt

abbrev pub params : Map Value
params = (codes "userId", Value.int (pos 123)) ∷ (codes "status", Value.bytes (codes "active")) ∷ []

test_replace_named_parameters :
    replace_named_parameters
      (codes "SELECT * FROM users WHERE id={userId} AND status={status}")
      params
    ≡ ok (
      codes "SELECT * FROM users WHERE id=? AND status=?",
      Value.int (pos 123) ∷ Value.bytes (codes "active") ∷ [],
    )
unfolding program
test_replace_named_parameters = refl

test_missing_parameter :
    replace_named_parameters (codes "id={userId}") []
    ≡ err (parameter_error (missing (codes "userId")))
unfolding program
test_missing_parameter = refl

test_unclosed_placeholder :
    replace_named_parameters (codes "id={userId") params
    ≡ err (parameter_error (unclosed (codes "{userId")))
unfolding program
test_unclosed_placeholder = refl

abbrev pub user_query : Text
user_query = codes "id={userId} AND s={status}"

abbrev pub replaced : Text
replaced = codes "id=? AND s=?"

abbrev pub bound : List Value
bound = Value.int (pos 123) ∷ Value.bytes (codes "active") ∷ []

pub runs : replace_named_parameters user_query params ≡ ok (replaced, bound)
unfolding program
runs = refl

replace_named_parameters-expand_example :
    replace_named_parameters user_query params ≡ expand params (template user_query)
replace_named_parameters-expand_example = replace_named_parameters-expand user_query params

replace_named_parameters-ok_iff_example :
    (replace_named_parameters user_query params ≡ ok (replaced, bound)) ↔ (
      (is_closed (template user_query) ≡ true)
      × (replaced ≡ positional (template user_query))
      × IsBound params (names (template user_query)) bound)
replace_named_parameters-ok_iff_example =
    replace_named_parameters-ok_iff user_query params replaced bound

build_batch_named_params-ok_iff_example :
    (build_batch_named_params user_query (params ∷ params ∷ []) ≡ ok (replaced, bound ∷ bound ∷ []))
    ↔ RowsAre user_query (params ∷ params ∷ []) replaced (bound ∷ bound ∷ [])
build_batch_named_params-ok_iff_example =
    build_batch_named_params-ok_iff user_query params (params ∷ []) replaced (bound ∷ bound ∷ [])
