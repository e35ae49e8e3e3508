-- ===== src/Tests/EntryFormats.antt =====
-- A line format for the entries of src/wal.rs, in place of JSON: numbers in unary, read from the right.
use db233_rust.Common.{
  ℕ, zero, suc, ◌<◌, ◌≡◌, refl, ap, ℤ, pos, negsuc, List, [], ◌∷◌, Option, none, some, Text, codes,
  true, is_utf8, is_utf8-ascii, arith, ◌==◌, if◌then◌else◌, map, ◌≤◌, ◌∙◌,
}
use db233_rust.Errors.{Outcome, fine, failed}
use db233_rust.Wal.{ValueSerde, WriteEntry, EntryFormat}
use db233_rust.Wal.Lines.{IsLine}
use db233_rust.Wal.Recovery.{IsJson}

-- What has been read: a number, a text, and the entry so far.
record Reading : Type 0 where
  number : ℕ
  text : Text
  timestamp : ℤ
  params : List ValueSerde

abbrev begin : Reading
begin = record { number = 0; text = []; timestamp = pos 0; params = [] }

abbrev parsed : ValueSerde → Reading → Reading
parsed v r = record { number = 0; text = []; timestamp = r.timestamp; params = v ∷ r.params }

-- A letter in front of what has been read.
data Letter : Type 0 where
  one : Letter
  char : Letter
  null : Letter
  positive : Letter
  negative : Letter
  unsigned : Letter
  float : Letter
  bytes : Letter
  after_epoch : Letter
  before_epoch : Letter

abbrev step : Letter → Reading → Reading
step one r = record r { number = suc r.number }
step char r = record r { number = 0; text = r.number ∷ r.text }
step null r = parsed ValueSerde.null r
step positive r = parsed (ValueSerde.int (pos r.number)) r
step negative r = parsed (ValueSerde.int (negsuc r.number)) r
step unsigned r = parsed (ValueSerde.uint r.number) r
step float r = parsed (ValueSerde.float r.number) r
step bytes r = parsed (ValueSerde.bytes r.text) r
step after_epoch r = record r { number = 0; timestamp = pos r.number }
step before_epoch r = record r { number = 0; timestamp = negsuc r.number }

abbrev read : List Letter → Reading
read [] = begin
read (l ∷ ls) = step l (read ls)

abbrev unary : ℕ → List Letter → List Letter
unary zero s = s
unary (suc n) s = one ∷ unary n s

abbrev write_text : Text → List Letter → List Letter
write_text [] s = s
write_text (b ∷ t) s = char ∷ unary b (write_text t s)

abbrev write_value : ValueSerde → List Letter → List Letter
write_value ValueSerde.null s = null ∷ s
write_value (ValueSerde.int (pos n)) s = positive ∷ unary n s
write_value (ValueSerde.int (negsuc n)) s = negative ∷ unary n s
write_value (ValueSerde.uint n) s = unsigned ∷ unary n s
write_value (ValueSerde.float n) s = float ∷ unary n s
write_value (ValueSerde.bytes b) s = bytes ∷ write_text b s

abbrev write_values : List ValueSerde → List Letter
write_values [] = []
write_values (v ∷ vs) = write_value v (write_values vs)

abbrev write_time : ℤ → List Letter → List Letter
write_time (pos n) s = after_epoch ∷ unary n s
write_time (negsuc n) s = before_epoch ∷ unary n s

abbrev letters : WriteEntry → List Letter
letters e = write_text e.sql (write_time e.timestamp (write_values e.params))

abbrev reading : ℕ → Text → ℤ → List ValueSerde → Reading
reading n t time ps = record { number = n; text = t; timestamp = time; params = ps }

module _ (t : Text) (time : ℤ) (ps : List ValueSerde) where
  read-unary :
      (n : ℕ) (s : List Letter)
      → read s ≡ reading 0 t time ps
      → read (unary n s) ≡ reading n t time ps
  read-unary zero s h = h
  read-unary (suc n) s h = ap (step one) (read-unary n s h)

read-write_text :
    (b : Text) (s : List Letter) (time : ℤ) (ps : List ValueSerde)
    → read s ≡ reading 0 [] time ps
    → read (write_text b s) ≡ reading 0 b time ps
read-write_text [] s time ps h = h
read-write_text (c ∷ b) s time ps h =
    ap (step char) (read-unary b time ps c (write_text b s) (read-write_text b s time ps h))

read-write_value :
    (v : ValueSerde) (s : List Letter) (ps : List ValueSerde)
    → read s ≡ reading 0 [] (pos 0) ps
    → read (write_value v s) ≡ reading 0 [] (pos 0) (v ∷ ps)
read-write_value ValueSerde.null s ps h = ap (step null) h
read-write_value (ValueSerde.int (pos n)) s ps h =
    ap (step positive) (read-unary [] (pos 0) ps n s h)
read-write_value (ValueSerde.int (negsuc n)) s ps h =
    ap (step negative) (read-unary [] (pos 0) ps n s h)
read-write_value (ValueSerde.uint n) s ps h = ap (step unsigned) (read-unary [] (pos 0) ps n s h)
read-write_value (ValueSerde.float n) s ps h = ap (step float) (read-unary [] (pos 0) ps n s h)
read-write_value (ValueSerde.bytes b) s ps h = ap (step bytes) (read-write_text b s (pos 0) ps h)

read-write_values : (ps : List ValueSerde) → read (write_values ps) ≡ reading 0 [] (pos 0) ps
read-write_values [] = refl
read-write_values (v ∷ ps) = read-write_value v (write_values ps) ps (read-write_values ps)

read-write_time :
    (time : ℤ) (s : List Letter) (ps : List ValueSerde)
    → read s ≡ reading 0 [] (pos 0) ps
    → read (write_time time s) ≡ reading 0 [] time ps
read-write_time (pos n) s ps h = ap (step after_epoch) (read-unary [] (pos 0) ps n s h)
read-write_time (negsuc n) s ps h = ap (step before_epoch) (read-unary [] (pos 0) ps n s h)

read-letters : (e : WriteEntry) → read (letters e) ≡ reading 0 e.sql e.timestamp e.params
read-letters e =
    read-write_text e.sql _ e.timestamp e.params
      (read-write_time e.timestamp _ e.params (read-write_values e.params))

abbrev byte : Letter → ℕ
byte one = b'1'
byte char = b'c'
byte null = b'n'
byte positive = b'+'
byte negative = b'-'
byte unsigned = b'u'
byte float = b'f'
byte bytes = b'b'
byte after_epoch = b'a'
byte before_epoch = b'z'

abbrev letter : ℕ → Option Letter
letter b =
    if b == b'1'
    then some one
    else if b == b'c'
    then some char
    else if b == b'n'
    then some null
    else if b == b'+'
    then some positive
    else if b == b'-'
    then some negative
    else if b == b'u'
    then some unsigned
    else if b == b'f'
    then some float
    else if b == b'b'
    then some bytes
    else if b == b'a'
    then some after_epoch
    else if b == b'z'
    then some before_epoch
    else none

letter-byte : (l : Letter) → letter (byte l) ≡ some l
letter-byte one = refl
letter-byte char = refl
letter-byte null = refl
letter-byte positive = refl
letter-byte negative = refl
letter-byte unsigned = refl
letter-byte float = refl
letter-byte bytes = refl
letter-byte after_epoch = refl
letter-byte before_epoch = refl

byte-lt : (l : Letter) → (32 ≤ byte l) × (byte l < 128)
byte-lt one = omega arith
byte-lt char = omega arith
byte-lt null = omega arith
byte-lt positive = omega arith
byte-lt negative = omega arith
byte-lt unsigned = omega arith
byte-lt float = omega arith
byte-lt bytes = omega arith
byte-lt after_epoch = omega arith
byte-lt before_epoch = omega arith

abbrev spell : Text → Option (List Letter)
spell [] = some []
spell (b ∷ s) = elim (letter b) [
  | none ↦ none
  | some l ↦ elim (spell s) [ none ↦ none | some ls ↦ some (l ∷ ls) ]
]

spell_more :
    (b : ℕ) (s : Text) (l : Letter) (ls : List Letter)
    → letter b ≡ some l
    → spell s ≡ some ls
    → spell (b ∷ s) ≡ some (l ∷ ls)
spell_more b s l ls h k = ground arith

spell-map : (ls : List Letter) → spell (map byte ls) ≡ some ls
spell-map [] = refl
spell-map (l ∷ ls) = spell_more (byte l) (map byte ls) l ls (letter-byte l) (spell-map ls)

abbrev pub unknown_letter : Text
unknown_letter = codes "unknown letter"

abbrev decode : Text → Outcome WriteEntry
decode [] = failed unknown_letter
decode (b ∷ s) =
    if b == b'{'
    then elim (spell s) [
      | none ↦ failed unknown_letter
      | some ls ↦
          (let r = read ls in
            fine (record { timestamp = r.timestamp; sql = r.text; params = r.params }))
    ]
    else failed unknown_letter

pub format : EntryFormat
format = record { encode = λ e. fine (b'{' ∷ map byte (letters e)); decode = decode }

plain : (ls : List Letter) → IsLine (map byte ls)
plain [] = (tt, tt)
plain (l ∷ ls) = ground (arith, byte-lt l, plain ls)

is_utf8-map : (ls : List Letter) → is_utf8 (map byte ls) ≡ true
is_utf8-map [] = unfold is_utf8 in refl
is_utf8-map (l ∷ ls) = is_utf8-ascii (byte l) (map byte ls) (byte-lt l).1 ∙ is_utf8-map ls

pub format-IsJson : IsJson format
unfolding format
format-IsJson = record {
  encodes = λ e h. (
    _,
    refl,
    record {
      decodes = rw (spell-map (letters e), read-letters e) refl;
      utf8 = is_utf8-ascii b'{' (map byte (letters e)) (omega arith) ∙ is_utf8-map (letters e);
      plain = ground (arith, plain (letters e));
      nonempty = refl;
    },
  );
}

pub decode_torn : format.decode (codes "torn") ≡ failed unknown_letter
unfolding format
decode_torn = refl
