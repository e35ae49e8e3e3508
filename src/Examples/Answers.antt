-- ===== src/Examples/Answers.antt =====
-- The answer of a chain of calls that has succeeded, for the programs of src/examples.
use db233_rust.Common.{ℕ, ◌≡◌, ◌≢◌, refl, arith, List, Text}
use db233_rust.Errors.{Result, ok, err, panic, failed}
use db233_rust.SqlValue.{Value}
use db233_rust.Db.{Server, State, and_then, connect, connection_exec, exec}

-- Where a chain has succeeded, its first call has, and the rest behind it.
pub and_then-inverts :
    {W A B : Type 0} (r : Result A) (w : W) (rest : A → W → Result B × W) (b : B)
    → (and_then (r, w) rest).0 ≡ ok b
    → (a : A) × (r ≡ ok a) × ((rest a w).0 ≡ ok b)
and_then-inverts (ok a) w rest b h = (a, refl, h)
and_then-inverts (err e) w rest b h = cc
and_then-inverts panic w rest b h = cc

-- The server refuses a statement, on every connection and in every state.
pub record IsRefused {S : Type 0} (server : Server S) (sql : Text) : Type 0 where
  pub refused :
      (conn : ℕ) (values : List Value) (s : S)
      → (message : Text) × ((server.exec_drop conn sql values s).0 ≡ failed message)

pub exec_refused :
    {S : Type 0} (server : Server S) (sql : Text) (values : List Value) (st : State S) (n : ℕ)
    → IsRefused server sql
    → (exec server sql values st).0 ≢ ok n
unfolding exec connection_exec
exec_refused server sql values st n refuses done =
    let (conn, connected, sending) =
      and_then-inverts (connect server st).0 (connect server st).1 _ n done in
    let (message, e) = refuses.refused conn values (connect server st).1.server in
    ground (arith, e, sending)
