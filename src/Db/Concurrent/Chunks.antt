-- ===== src/Db/Concurrent/Chunks.antt =====
-- The chunks of `find_by_ids_concurrent`.
use db233_rust.Common.{
  ℕ, zero, suc, ◌+◌, ◌-◌, ◌*◌, ◌≤◌, ◌<◌, ◌≡◌, refl, ap, ◌⊎◌, inl, inr, List, [], ◌∷◌, ◌++◌, length,
  arith,
}
use db233_rust.Db.Concurrent.{chunks_from, chunks, chunk_size}

few_lem :
    (m size n : ℕ) → 0 < size → m * size + (size - 1) < n + size → n + 1 ≤ 16 * size → suc m ≤ 16
few_lem m size n pos few fits = grind arith

module _ {ℓ} {A : Type ℓ} where
  abbrev pub concat : List (List A) → List A
  concat [] = []
  concat (xs ∷ xss) = xs ++ concat xss

  -- Every chunk has an element, and no more than the size.
  abbrev pub AreChunks : ℕ → List (List A) → Type 0
  AreChunks size [] = Unit
  AreChunks size (c ∷ cs) = (0 < length c) × (length c ≤ size) × AreChunks size cs

  chunks_from-concat :
      (size room : ℕ) (xs : List A)
      → (chunks_from size room xs).0 ++ concat (chunks_from size room xs).1 ≡ xs
  unfolding chunks_from
  chunks_from-concat size room [] = refl
  chunks_from-concat size zero (x ∷ xs) = ap (◌∷◌ x) (chunks_from-concat size (size - 1) xs)
  chunks_from-concat size (suc room) (x ∷ xs) = ap (◌∷◌ x) (chunks_from-concat size room xs)

  chunks_from-AreChunks :
      (size room : ℕ) (xs : List A)
      → 0 < size
      → (length (chunks_from size room xs).0 ≤ room) × AreChunks size (chunks_from size room xs).1
  unfolding chunks_from
  chunks_from-AreChunks size room [] h = (omega arith, tt)
  chunks_from-AreChunks size zero (x ∷ xs) h =
      let (short, more) = chunks_from-AreChunks size (size - 1) xs h in
      (omega arith, (omega arith, omega (arith, short), more))
  chunks_from-AreChunks size (suc room) (x ∷ xs) h =
      let (short, more) = chunks_from-AreChunks size room xs h in (omega (arith, short), more)

  -- There is no chunk more than the elements need.
  chunks_from-few :
      (size room : ℕ) (xs : List A)
      → 0 < size
      → (length (chunks_from size room xs).1 ≡ 0)
        ⊎ (length (chunks_from size room xs).1 * size + room < length xs + size)
  unfolding chunks_from
  chunks_from-few size room [] h = inl refl
  chunks_from-few size zero (x ∷ xs) h = elim (chunks_from-few size (size - 1) xs h) [
    | inl none_behind ↦ inr (rw none_behind (grind arith))
    | inr few ↦ inr (grind arith)
  ]
  chunks_from-few size (suc room) (x ∷ xs) h = elim (chunks_from-few size room xs h) [
    | inl none_behind ↦ inl none_behind
    | inr few ↦ inr (omega arith)
  ]

  -- For one id or more: there are at most 16 chunks, each with at least one id and at most
  -- `chunk_size` of them, and one behind the other they are the ids.
  pub chunks_lem :
      (x : A) (xs : List A)
      → let cs = chunks (chunk_size (length (x ∷ xs))) (x ∷ xs) in
        (concat cs ≡ x ∷ xs) × AreChunks (chunk_size (length (x ∷ xs))) cs × (length cs ≤ 16)
  unfolding chunks
  chunks_lem x xs =
      let size = chunk_size (length (x ∷ xs)) in
      let (short, more) = chunks_from-AreChunks size (size - 1) xs (omega arith) in
      (
        ap (◌∷◌ x) (chunks_from-concat size (size - 1) xs),
        (omega arith, omega (arith, short), more),
        elim (chunks_from-few size (size - 1) xs (omega arith)) [
          | inl none_behind ↦ omega arith
          | inr few ↦
              few_lem (length (chunks_from size (size - 1) xs).1) size (length xs) (omega arith) few
                (omega arith)
        ],
      )
