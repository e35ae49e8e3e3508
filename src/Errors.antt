-- ===== src/Errors.antt =====
-- src/error.rs: the error type, its messages, the conversions from outside errors, and `Result`.
use db233_rust.Common.{Text, codes, ◌++◌, ◌≡◌, refl, ◌⊎◌, inl, inr}

pub data Db233Error : Type 0 where
  connection_error : Text → Db233Error
  query_error : Text → Db233Error
  parameter_error : Text → Db233Error
  mapping_error : Text → Db233Error
  session_error : Text → Db233Error
  wal_error : Text → Db233Error
  config_error : Text → Db233Error
  timeout : Db233Error
  not_found : Db233Error
  unknown : Text → Db233Error

-- `to_string`, as the `#[error(..)]` attributes give it.
unfoldable pub display : Db233Error → Text
display (connection_error m) = codes "database connection error: " ++ m
display (query_error m) = codes "query error: " ++ m
display (parameter_error m) = codes "parameter error: " ++ m
display (mapping_error m) = codes "entity mapping error: " ++ m
display (session_error m) = codes "session error: " ++ m
display (wal_error m) = codes "WAL error: " ++ m
display (config_error m) = codes "config error: " ++ m
display timeout = codes "timeout"
display not_found = codes "not found"
display (unknown m) = codes "unknown error: " ++ m

-- What a call does: it returns `Ok` or `Err`, or it panics.
pub data Result {ℓ} (A : Type ℓ) : Type ℓ where
  ok : A → Result A
  err : Db233Error → Result A
  panic : Result A

-- `?`
infixl 5 ◌>>=◌
abbrev pub ◌>>=◌ {ℓ κ} : {A : Type ℓ} {B : Type κ} → Result A → (A → Result B) → Result B
panic >>= rest = panic
err message >>= rest = err message
ok value >>= rest = rest value

-- An error that is not `Db233Error`, by the text that it displays: what a library call returns.
pub data Outcome {ℓ} (A : Type ℓ) : Type ℓ where
  fine : A → Outcome A
  failed : Text → Outcome A

-- `.map_err(|e| wrap(e.to_string()))`
abbrev pub map_err {ℓ} : {A : Type ℓ} → (Text → Db233Error) → Outcome A → Result A
map_err wrap (fine a) = ok a
map_err wrap (failed e) = err (wrap e)

-- `mysql_async::Error`, by what the conversion asks of it.
pub data MysqlError : Type 0 where
  io : Text → MysqlError
  other : Text → MysqlError

-- The three `From` conversions.
unfoldable pub from_mysql : MysqlError → Db233Error
from_mysql (io e) = connection_error e
from_mysql (other e) = query_error e

unfoldable pub from_io : Text → Db233Error
from_io e = wal_error e

unfoldable pub from_serde_json : Text → Db233Error
from_serde_json e = mapping_error e

-- To split on a computed result and keep the equation.
abbrev pub Result-cases {ℓ} :
    {A : Type ℓ} (r : Result A)
    → ((a : A) × (r ≡ ok a)) ⊎ (((e : Db233Error) × (r ≡ err e)) ⊎ (r ≡ panic))
Result-cases (ok a) = inl (a, refl)
Result-cases (err e) = inr (inl (e, refl))
Result-cases panic = inr (inr refl)

-- Where `?` went on to an `Ok`, both calls were `Ok`.
pub >>=-inverts {ℓ κ} :
    {A : Type ℓ} {B : Type κ} {b : B} (call : Result A) (rest : A → Result B)
    → call >>= rest ≡ ok b
    → (a : A) × (call ≡ ok a) × (rest a ≡ ok b)
>>=-inverts panic rest e = cc
>>=-inverts (err _) rest e = cc
>>=-inverts (ok value) rest e = (value, refl, e)

-- The laws of `?`.
pub >>=-ok {ℓ} : {A : Type ℓ} (m : Result A) → (m >>= λ a. ok a) ≡ m
>>=-ok (ok a) = refl
>>=-ok (err e) = refl
>>=-ok panic = refl

pub >>=_assoc {ℓ κ μ} :
    {A : Type ℓ} {B : Type κ} {C : Type μ} (m : Result A) (f : A → Result B) (g : B → Result C)
    → ((m >>= f) >>= g) ≡ (m >>= λ a. f a >>= g)
>>=_assoc (ok a) f g = refl
>>=_assoc (err e) f g = refl
>>=_assoc panic f g = refl

abbrev pub Outcome-cases {ℓ} :
    {A : Type ℓ} (r : Outcome A) → ((a : A) × (r ≡ fine a)) ⊎ ((e : Text) × (r ≡ failed e))
Outcome-cases (fine a) = inl (a, refl)
Outcome-cases (failed e) = inr (e, refl)
