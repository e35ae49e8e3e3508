-- ===== src/Session/Repository/ByPlayer.antt =====
-- Entries by player: looked up, taken out and counted.
use db233_rust.Common.{
  ℕ, zero, suc, ◌≤◌, ◌≡◌, ℤ, int_eq, List, [], ◌∷◌, none, some, length, take, if◌then◌else◌, arith,
  Bool-cases, inl, inr, ℤ-discrete, subst,
}
use db233_rust.Session.Lru.{Entries, lookup, without}

pub lookup-without :
    (k j : ℤ) (es : Entries) → lookup j (without k es) ≡ (if int_eq k j then none else lookup j es)
unfolding lookup without
lookup-without k j [] = ground arith
lookup-without k j ((i, p) ∷ es) = ground (arith, lookup-without k j es)

pub length-without : (k : ℤ) (es : Entries) → length (without k es) ≤ length es
unfolding without
length-without k [] = omega arith
length-without k ((i, p) ∷ es) = ground (arith, length-without k es)

pub length-take-le : {A : Type 0} (n : ℕ) (l : List A) → length (take n l) ≤ n
length-take-le zero l = omega arith
length-take-le (suc n) [] = omega arith
length-take-le (suc n) (a ∷ l) = omega (arith, length-take-le n l)

-- A predicate of each entry.
abbrev pub Every : (ℤ → ℕ → Type 0) → Entries → Type 0
Every P [] = Unit
Every P ((k, p) ∷ es) = P k p × Every P es

pub Every-take : (P : ℤ → ℕ → Type 0) (n : ℕ) (es : Entries) → Every P es → Every P (take n es)
Every-take P zero es h = tt
Every-take P (suc n) [] h = tt
Every-take P (suc n) ((k, p) ∷ es) (here, h) = (here, Every-take P n es h)

pub Every-without :
    (P : ℤ → ℕ → Type 0) (k : ℤ) (es : Entries) → Every P es → Every P (without k es)
unfolding without
Every-without P k [] h = tt
Every-without P k ((j, p) ∷ es) (here, h) = elim (Bool-cases (int_eq j k)) [
  | inl same ↦ rw same (Every-without P k es h)
  | inr other ↦ rw other (here, Every-without P k es h)
]

pub Every-map :
    (P Q : ℤ → ℕ → Type 0) (es : Entries)
    → ((k : ℤ) (p : ℕ) → P k p → Q k p)
    → Every P es
    → Every Q es
Every-map P Q [] f h = tt
Every-map P Q ((k, p) ∷ es) f (here, h) = (f k p here, Every-map P Q es f h)

pub Every-lookup :
    (P : ℤ → ℕ → Type 0) (k : ℤ) (p : ℕ) (es : Entries) → Every P es → lookup k es ≡ some p → P k p
unfolding lookup
Every-lookup P k p [] h e = cc
Every-lookup P k p ((j, q) ∷ es) (here, h) e = elim (ℤ-discrete j k) [
  | yes same ↦ subst (λ i. P i p) same (subst (P j) (ground arith) here)
  | no other ↦ Every-lookup P k p es h (ground arith)
]
