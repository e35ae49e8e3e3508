-- ===== src/NamedParams/Template.antt =====
-- What a query with named parameters is: literals and placeholders, read in one pass over the text
-- with no index, and their expansion under given parameters.
use db233_rust.Common.{
  ◌≡◌, Bool, true, false, List, [], ◌∷◌, ◌++◌, none, some, Text, ◌==◌, append-nil, append_assoc, ap,
  Map, get, arith, sym, Lacks,
}
use db233_rust.Errors.{Result, ok, err, parameter_error, ◌>>=◌}
use db233_rust.SqlValue.{Value}
use db233_rust.NamedParams.{unclosed, missing}

pub data Template : Type 0 where
  -- the literal after the last placeholder
  done : Text → Template
  -- a literal, and the rest from a `{` that nothing closes
  open_at : Text → Text → Template
  -- a literal, the name of the placeholder behind it, and what follows
  hole : Text → Text → Template → Template

pub data Mode : Type 0 where
  outside : Text → Mode
  inside : Text → Text → Mode

unfoldable pub scan : Mode → Text → Template
scan (outside lit) [] = done lit
scan (outside lit) (c ∷ s) = elim (c == b'{') [
  | true ↦ scan (inside lit []) s
  | false ↦ scan (outside (lit ++ c ∷ [])) s
]
scan (inside lit name) [] = open_at lit (b'{' ∷ name)
scan (inside lit name) (c ∷ s) = elim (c == b'}') [
  | true ↦ hole lit name (scan (outside []) s)
  | false ↦ scan (inside lit (name ++ c ∷ [])) s
]

unfoldable pub template : Text → Template
unfolding scan
template = scan (outside [])

-- The text that a template stands for.
unfoldable pub print : Template → Text
print (done lit) = lit
print (open_at lit rest) = lit ++ rest
print (hole lit name t) = lit ++ b'{' ∷ (name ++ b'}' ∷ print t)

unfoldable pub expand : Map Value → Template → Result (Text × List Value)
expand params (done lit) = ok (lit, [])
expand params (open_at lit rest) = err (parameter_error (unclosed rest))
expand params (hole lit name t) = elim (get name params) [
  | none ↦ err (parameter_error (missing name))
  | some value ↦ do (sql, values) ← expand params t; ok (lit ++ b'?' ∷ sql, value ∷ values)
]

-- The text with `?` for each placeholder, whatever the parameters.
unfoldable pub positional : Template → Text
positional (done lit) = lit
positional (open_at lit rest) = lit ++ rest
positional (hole lit name t) = lit ++ b'?' ∷ positional t

unfoldable pub names : Template → List Text
names (done lit) = []
names (open_at lit rest) = []
names (hole lit name t) = name ∷ names t

unfoldable pub is_closed : Template → Bool
is_closed (done lit) = true
is_closed (open_at lit rest) = false
is_closed (hole lit name t) = is_closed t

-- The literals, one after the other.
unfoldable pub literals : Template → Text
literals (done lit) = lit
literals (open_at lit rest) = lit
literals (hole lit name t) = lit ++ literals t

-- The templates that a text can have: literals without `{` and names without `}`.
abbrev pub IsReadable : Template → Type 0
IsReadable (done lit) = Lacks b'{' lit
IsReadable (open_at lit []) = ⊥
IsReadable (open_at lit (c ∷ name)) = (c ≡ b'{') × Lacks b'{' lit × Lacks b'}' name
IsReadable (hole lit name t) = Lacks b'{' lit × Lacks b'}' name × IsReadable t

abbrev pending : Mode → Text
pending (outside lit) = lit
pending (inside lit name) = lit ++ b'{' ∷ name

print-scan : (m : Mode) (s : Text) → print (scan m s) ≡ pending m ++ s
unfolding print scan
print-scan (outside lit) [] = sym (append-nil lit)
print-scan (outside lit) (c ∷ s) = ground (
  arith,
  print-scan (inside lit []) s,
  print-scan (outside (lit ++ c ∷ [])) s,
  append_assoc lit (c ∷ []) s,
  append_assoc lit (b'{' ∷ []) s,
)
print-scan (inside lit name) [] = sym (append-nil (lit ++ b'{' ∷ name))
print-scan (inside lit name) (c ∷ s) = ground (
  arith,
  print-scan (outside []) s,
  print-scan (inside lit (name ++ c ∷ [])) s,
  append_assoc lit (b'{' ∷ name) (c ∷ s),
  append_assoc lit (b'{' ∷ (name ++ c ∷ [])) s,
  append_assoc name (c ∷ []) s,
)

-- A template prints as the text that it was read from.
pub print-template : (s : Text) → print (template s) ≡ s
unfolding template
print-template s = print-scan (outside []) s

scan-literal :
    (lit s pre : Text)
    → Lacks b'{' lit
    → scan (outside pre) (lit ++ s) ≡ scan (outside (pre ++ lit)) s
unfolding scan
scan-literal [] s pre h = rw append-nil
scan-literal (c ∷ lit) s pre h =
    ground (arith, scan-literal lit s (pre ++ c ∷ []) h.1, append_assoc pre (c ∷ []) lit)

scan-name :
    (name s lit pre : Text)
    → Lacks b'}' name
    → scan (inside lit pre) (name ++ s) ≡ scan (inside lit (pre ++ name)) s
unfolding scan
scan-name [] s lit pre h = rw append-nil
scan-name (c ∷ name) s lit pre h =
    ground (arith, scan-name name s lit (pre ++ c ∷ []) h.1, append_assoc pre (c ∷ []) name)

-- A readable template is read back from its text.
pub template-print : (t : Template) → IsReadable t → template (print t) ≡ t
unfolding template print scan
template-print (done lit) h = rw append-nil at (scan-literal lit [] [] h)
template-print (open_at lit []) h = absurd h
template-print (open_at lit (c ∷ name)) (opens, hl, hn) =
    rw (opens, scan-literal lit _ [] hl) (rw append-nil at (scan-name name [] lit [] hn))
template-print (hole lit name t) (hl, hn, ht) =
    rw (scan-literal lit _ [] hl, scan-name name _ lit [] hn)
      (ap (hole lit name) (template-print t ht))
