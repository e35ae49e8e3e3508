-- ===== src/Wal/Values.antt =====
-- What a replay makes of the parameters of a recorded write.
use db233_rust.Common.{◌≡◌, ◌<◌, ◌^◌, refl, true}
use db233_rust.SqlValue.{Value}
use db233_rust.Extern.{Extern, IsFaithful, is_finite_f32}
use db233_rust.Orm.{date_text, time_text}
use db233_rust.Wal.{to_serde, from_serde}

-- The value that a replay binds: a double has become a single float, a date or a time its text, and
-- all else is as it was.
unfoldable pub replayed : {N : Type 0} → Extern N → Value → Value
replayed x (Value.double f) = Value.float (x.narrow f)
replayed x (Value.date y m d hh mm ss _) = Value.bytes (date_text y m d hh mm ss)
replayed x (Value.time _ _ hh mm ss _) = Value.bytes (time_text hh mm ss)
replayed x Value.null = Value.null
replayed x (Value.int i) = Value.int i
replayed x (Value.uint u) = Value.uint u
replayed x (Value.float f) = Value.float f
replayed x (Value.bytes b) = Value.bytes b

-- The single floats that come back as they were: bit patterns of finite numbers.
abbrev pub IsFiniteFloat : Value → Type 0
IsFiniteFloat (Value.float f) = (f < 2 ^ 32) × (is_finite_f32 f ≡ true)
IsFiniteFloat v = Unit

-- A parameter that goes through the journal comes back as its `replayed` value.
from_serde-to_serde :
    {N : Type 0} (x : Extern N) (v : Value)
    → IsFaithful x
    → IsFiniteFloat v
    → from_serde x (to_serde x v) ≡ replayed x v
unfolding from_serde to_serde replayed
from_serde-to_serde x (Value.float f) good (fits, finite) = rw (good.narrow-widen f fits finite)
from_serde-to_serde x _ good h = refl
