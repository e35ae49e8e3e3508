-- ===== src/NamedParams/Laws.antt =====
-- When src/named_params.rs succeeds, and with what.
use db233_rust.Common.{
  ◌+◌, ◌≡◌, ◌↔◌, refl, sym, ap, ◌∙◌, true, List, [], ◌∷◌, map, some, Text, length, length-map, Map,
  get, arith, count, count-append, inl, inr, Option,
}
use db233_rust.Errors.{ok, Result-cases}
use db233_rust.SqlValue.{Value}
use db233_rust.NamedParams.{replace_named_parameters}
use db233_rust.NamedParams.Template.{
  Template, done, open_at, hole, template, print, expand, positional, names, is_closed, literals,
  IsReadable, template-print,
}
use db233_rust.NamedParams.Reference.{replace_named_parameters-expand}

-- The values that the parameters give to the placeholders.
abbrev pub IsBound : Map Value → List Text → List Value → Type 0
IsBound params ns vs = map (λ n. get n params) ns ≡ map some vs

module _ (params : Map Value) where
  expand-ok :
      (t : Template) (s : Text) (vs : List Value)
      → expand params t ≡ ok (s, vs)
      → (is_closed t ≡ true) × (s ≡ positional t) × IsBound params (names t) vs
  unfolding expand is_closed positional names
  expand-ok (done lit) s vs h = ground arith
  expand-ok (open_at lit rest) s vs h = cc
  expand-ok (hole lit name t) s vs h = elim (Result-cases (expand params t)) [
    | inl ((s', vs'), e) ↦ ground (arith, expand-ok t s' vs' e)
    | inr bad ↦ absurd (ground arith)
  ]

  ok-expand :
      (t : Template) (vs : List Value)
      → is_closed t ≡ true
      → IsBound params (names t) vs
      → expand params t ≡ ok (positional t, vs)
  unfolding expand is_closed positional names
  ok-expand (done lit) [] c b = refl
  ok-expand (done lit) (v ∷ vs) c b = cc
  ok-expand (open_at lit rest) vs c b = cc
  ok-expand (hole lit name t) [] c b = cc
  ok-expand (hole lit name t) (v ∷ vs) c b = ground (arith, ok-expand t vs)

-- The replacement succeeds exactly when every `{` is closed and every name has a value; it then
-- gives the text with `?` for each placeholder, and the values of the names in their order.
pub replace_named_parameters-ok_iff :
    (sql : Text) (params : Map Value) (s : Text) (vs : List Value)
    → (replace_named_parameters sql params ≡ ok (s, vs)) ↔ (
        (is_closed (template sql) ≡ true)
        × (s ≡ positional (template sql))
        × IsBound params (names (template sql)) vs)
replace_named_parameters-ok_iff sql params s vs = rw replace_named_parameters-expand (
  expand-ok params (template sql) s vs,
  λ h. ok-expand params (template sql) vs h.0 h.2 ∙ ap (λ x. ok (x, vs)) (sym h.1),
)

count-positional :
    (t : Template)
    → is_closed t ≡ true
    → count b'?' (positional t) ≡ length (names t) + count b'?' (literals t)
unfolding positional names is_closed literals count
count-positional (done lit) h = omega arith
count-positional (open_at lit rest) h = cc
count-positional (hole lit name t) h = omega (
  arith,
  count-positional t h,
  count-append b'?' lit (b'?' ∷ positional t),
  count-append b'?' lit (literals t),
)

-- A successful replacement binds one value to each `?` that it writes: the `?` of the result are
-- those of the query's own literals and one for each value.
replace_named_parameters-count :
    (sql : Text) (params : Map Value) (s : Text) (vs : List Value)
    → replace_named_parameters sql params ≡ ok (s, vs)
    → count b'?' s ≡ length vs + count b'?' (literals (template sql))
replace_named_parameters-count sql params s vs h =
    let (closed, text, bound) = (replace_named_parameters-ok_iff sql params s vs).0 h in
    rw text (
      omega (
        arith,
        count-positional (template sql) closed,
        ap length bound,
        length-map (λ n. get n params) (names (template sql)),
        length-map {B = Option Value} some vs,
      ))

-- A query that is written as literals and placeholders, no literal with a `{` and no name with a
-- `}`, is replaced as it was meant.
replace_named_parameters-print :
    (t : Template) (params : Map Value)
    → IsReadable t
    → replace_named_parameters (print t) params ≡ expand params t
replace_named_parameters-print t params h =
    replace_named_parameters-expand (print t) params ∙ ap (expand params) (template-print t h)

-- The replaced text does not depend on the parameters.
pub replace_named_parameters_same :
    (sql : Text) (p q : Map Value) (s s' : Text) (vs ws : List Value)
    → replace_named_parameters sql p ≡ ok (s, vs)
    → replace_named_parameters sql q ≡ ok (s', ws)
    → s ≡ s'
replace_named_parameters_same sql p q s s' vs ws hp hq =
    ((replace_named_parameters-ok_iff sql p s vs).0 hp).1
    ∙ sym ((replace_named_parameters-ok_iff sql q s' ws).0 hq).1
