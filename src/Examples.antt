-- ===== src/Examples.antt =====
-- The example programs of the repository, as clients of the library.
pub mod Answers
pub mod GameServer
pub mod BasicUsage
pub mod PerformanceTest
use db233_rust.Common.{
  ℕ, ◌+◌, ◌-◌, ◌^◌, ℤ, pos, negsuc, Bool, true, leb, ltb, List, [], ◌∷◌, ◌++◌, Text, codes, join,
  if◌then◌else◌,
}
use db233_rust.Errors.{Result, ok, err, panic}
use db233_rust.SqlValue.{Value}
use db233_rust.Db.{Server, State, exec}
use db233_rust.Config.{DbConnectionConfig, new_connection}
use db233_rust.Game.{Game}

-- All three programs go to one server.
abbrev pub config : DbConnectionConfig
unfolding new_connection
config = new_connection (codes "127.0.0.1") 3306 (codes "root") (codes "root") (codes "db233_rust")

-- What a call answers, errors included, for a caller who goes on.
abbrev pub answer : {A : Type 0} → Result A → Result (Result A)
answer (ok a) = ok (ok a)
answer (err e) = ok (err e)
answer panic = panic

-- `a += n` on a signed integer of `bits` bits, where `n` is not negative: an overflow panics, or wraps
-- in a build without overflow checks.
abbrev plus : ℤ → ℕ → ℤ
plus (pos m) n = pos (m + n)
plus (negsuc m) n = if leb n m then negsuc (m - n) else pos (n - m - 1)

abbrev fitted : Bool → ℕ → ℤ → Result ℤ
fitted overflow_checks bits (pos m) =
    if ltb m (2 ^ (bits - 1))
    then ok (pos m)
    else if overflow_checks
    then panic
    else ok (negsuc (2 ^ bits - 1 - m))
fitted overflow_checks bits (negsuc m) = ok (negsuc m)

abbrev pub add_assign : Bool → ℕ → ℤ → ℕ → Result ℤ
add_assign overflow_checks bits a n = fitted overflow_checks bits (plus a n)

-- A text of several lines.
abbrev pub in_lines : List Text → Text
in_lines = join (codes "\n            ")

-- A method of `Db` that works on the server and the journal, called on a database.
unfoldable pub in_db :
    {S L E A : Type 0} → (State S → Result A × State S) → Game S L E → Result A × Game S L E
in_db method g =
    let (r, st) = method (record { server = g.server; write_journal = g.db.write_journal }) in
    (r, record g { server = st.server; db = record g.db { write_journal = st.write_journal } })

-- `let _ = db.exec(..).await;`
unfoldable pub exec_ignored : {S L E : Type 0} → Server S → Text → Game S L E → Game S L E
exec_ignored server sql g = (in_db (exec server sql []) g).1
