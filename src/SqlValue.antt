-- ===== src/SqlValue.antt =====
-- `mysql_async::Value`, with the constructors that src/orm.rs, src/wal.rs and src/db.rs match on.
-- A float is its IEEE 754 bit pattern.
use db233_rust.Common.{ℕ, ℤ, Bool, Text}

pub data Value : Type 0 where
  null : Value
  int : ℤ → Value
  uint : ℕ → Value
  float : ℕ → Value
  double : ℕ → Value
  -- year, month, day, hours, minutes, seconds, microseconds
  date : ℕ → ℕ → ℕ → ℕ → ℕ → ℕ → ℕ → Value
  -- sign, days, hours, minutes, seconds, microseconds
  time : Bool → ℕ → ℕ → ℕ → ℕ → ℕ → Value
  bytes : Text → Value
