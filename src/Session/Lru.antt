-- ===== src/Session/Lru.antt =====
-- The crate `lru`, which src/session.rs keeps its sessions in: `LruCache<i64, Arc<Session>>` as an
-- interface, where an `Arc` is the address of what it points to.
use db233_rust.Common.{
  ℕ, ◌-◌, ◌<◌, ◌≡◌, ℤ, int_eq, List, [], ◌∷◌, Option, none, some, take, if◌then◌else◌,
}

-- Its entries, the one used last in front.
abbrev pub Entries : Type 0
Entries = List (ℤ × ℕ)

unfoldable pub lookup : ℤ → Entries → Option ℕ
lookup k [] = none
lookup k ((j, p) ∷ es) = if int_eq j k then some p else lookup k es

unfoldable pub without : ℤ → Entries → Entries
without k [] = []
without k ((j, p) ∷ es) = let rest = without k es in if int_eq j k then rest else (j, p) ∷ rest

pub record Lru (L : Type 0) : Type 0 where
  pub new : ℕ → L
  pub put : ℤ → ℕ → L → L
  pub pop : ℤ → L → Option ℕ × L
  pub iter : L → Entries
  pub cap : L → ℕ

-- What its documentation says: `put` makes its key the one used last, dropping the one used least
-- recently where a new key finds the cache full; `pop` takes a key out; `iter` goes from the entry
-- used last to the one used least recently. A capacity is not zero.
pub record IsLru {L : Type 0} (lru : Lru L) : Type 0 where
  pub iter-new : (n : ℕ) → lru.iter (lru.new n) ≡ []
  pub cap-new : (n : ℕ) → 0 < n → lru.cap (lru.new n) ≡ n
  pub cap-put : (k : ℤ) (p : ℕ) (l : L) → lru.cap (lru.put k p l) ≡ lru.cap l
  pub cap-pop : (k : ℤ) (l : L) → lru.cap (lru.pop k l).1 ≡ lru.cap l
  pub iter-put :
      (k : ℤ) (p : ℕ) (l : L)
      → lru.iter (lru.put k p l) ≡ (k, p) ∷ take (lru.cap l - 1) (without k (lru.iter l))
  pub pop-lookup : (k : ℤ) (l : L) → (lru.pop k l).0 ≡ lookup k (lru.iter l)
  pub iter-pop : (k : ℤ) (l : L) → lru.iter (lru.pop k l).1 ≡ without k (lru.iter l)
