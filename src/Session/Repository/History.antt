-- ===== src/Session/Repository/History.antt =====
-- The histories of a repository of src/session.rs, and what a valid store of sessions is.
use db233_rust.Common.{
  ℕ, ◌≤◌, ◌==◌, ◌≡◌, refl, subst, ℤ, List, [], ◌∷◌, ◌++◌, Option, none, some, Option-cases, inl,
  inr, Text, length, take, arith, get_elem?, set, get_elem?-set, get_elem?-append_one, Bool-cases,
}
use db233_rust.Session.{Rules, Session, World}
use db233_rust.Session.Invariant
use db233_rust.Session.Lru.{Lru, Entries, without}
use db233_rust.Session.Repository.{
  Store, capacity, open_session, close_session, flush_all, stop, run_task,
}
use db233_rust.Session.Repository.ByPlayer.{Every, Every-take, Every-without, Every-map}

-- An address of a session of this player.
abbrev pub IsSessionOf : {E : Type 0} → ℤ → Option (Session E) → Type 0
IsSessionOf k none = ⊥
IsSessionOf k (some s) = s.player_id ≡ k

abbrev pub AreValid : {E : Type 0} → Rules → List (Session E) → Type 0
AreValid {E} rules heap =
    (p : ℕ) (s : Session E) → get_elem? heap p ≡ some s → Invariant.IsValid rules s

-- The cache is within its capacity, each of its entries is a session of its player, and every session
-- that was ever made is valid.
pub record IsValid {L D E : Type 0} (lru : Lru L) (st : Store L D E) : Type 0 where
  pub capped : lru.cap st.repo.sessions ≡ capacity st.repo.rules.config
  pub bounded : length (lru.iter st.repo.sessions) ≤ capacity st.repo.rules.config
  pub placed : Every (λ k p. IsSessionOf k (get_elem? st.heap p)) (lru.iter st.repo.sessions)
  pub sessions :
      (p : ℕ) (s : Session E) → get_elem? st.heap p ≡ some s → Invariant.IsValid st.repo.rules s

-- One call of a method of the repository, one round of its task, or one call of a method of a
-- session, which a client may hold on to after it has left the cache.
module _ {L D E : Type 0} (lru : Lru L) where
  pub data Step (st : Store L D E) : Store L D E → Type 0 where
    opens :
        (now player_id : ℤ) (entity_types : List Text)
        → Step st (open_session lru now player_id entity_types st).1
    closes : (player_id : ℤ) → Step st (close_session lru player_id st).1
    flushes : Step st (flush_all lru st).1
    stops : Step st (stop lru st)
    runs : Step st (run_task lru st)
    acts :
        (p : ℕ) (s : Session E) (w : World D E)
        → get_elem? st.heap p ≡ some s
        → Invariant.Step st.repo.rules (record { session = s; counts = st.counts; db = st.db }) w
        → Step st (record st { heap = set st.heap p w.session; counts = w.counts; db = w.db })

  pub data Reach (st : Store L D E) : Store L D E → Type 0 where
    here : Reach st st
    next : {u v : Store L D E} → Reach st u → Step u v → Reach st v

pub get_elem?-length : {A : Type 0} (xs : List A) → get_elem? xs (length xs) ≡ none
get_elem?-length [] = refl
get_elem?-length (x ∷ xs) = get_elem?-length xs

module _ {E : Type 0} where
  pub IsSessionOf-append :
      (heap : List (Session E)) (s : Session E) (k : ℤ) (p : ℕ)
      → IsSessionOf k (get_elem? heap p)
      → IsSessionOf k (get_elem? (heap ++ s ∷ []) p)
  IsSessionOf-append heap s k p h =
      ground (arith, get_elem?-append_one heap s p, get_elem?-length heap)

  pub open_session-placed :
      (player_id : ℤ) (s : Session E) (heap : List (Session E)) (n : ℕ) (es : Entries)
      → s.player_id ≡ player_id
      → Every (λ k p. IsSessionOf k (get_elem? heap p)) es
      → Every
          (λ k p. IsSessionOf k (get_elem? (heap ++ s ∷ []) p))
          ((player_id, length heap) ∷ take n (without player_id es))
  open_session-placed player_id s heap n es own h = (
    ground (arith, get_elem?-append_one heap s (length heap)),
    Every-map _ _ (take n (without player_id es)) (IsSessionOf-append heap s)
        (Every-take _ n (without player_id es) (Every-without _ player_id es h)),
  )

  pub AreValid-append :
      (rules : Rules) (heap : List (Session E)) (s : Session E)
      → Invariant.IsValid rules s
      → AreValid rules heap
      → AreValid rules (heap ++ s ∷ [])
  AreValid-append rules heap s v vs p t e = elim (Bool-cases (p == length heap)) [
    | inl last ↦ subst (Invariant.IsValid rules) (ground (arith, get_elem?-append_one heap s p)) v
    | inr old ↦ vs p t (ground (arith, get_elem?-append_one heap s p))
  ]

  pub AreValid-set :
      (rules : Rules) (heap : List (Session E)) (i : ℕ) (s : Session E)
      → Invariant.IsValid rules s
      → AreValid rules heap
      → AreValid rules (set heap i s)
  AreValid-set rules heap i s v vs p t e = elim (Option-cases (get_elem? heap p)) [
    | inl out ↦ absurd (ground (arith, get_elem?-set heap i p s))
    | inr (u, at_p) ↦ elim (Bool-cases (i == p)) [
      | inl at_i ↦ subst (Invariant.IsValid rules) (ground (arith, get_elem?-set heap i p s)) v
      | inr other ↦ vs p t (ground (arith, get_elem?-set heap i p s))
    ]
  ]

  pub IsSessionOf-set :
      (heap : List (Session E)) (i : ℕ) (s s' : Session E) (k : ℤ) (p : ℕ)
      → get_elem? heap i ≡ some s
      → s'.player_id ≡ s.player_id
      → IsSessionOf k (get_elem? heap p)
      → IsSessionOf k (get_elem? (set heap i s') p)
  IsSessionOf-set heap i s s' k p at_i same h = ground (arith, get_elem?-set heap i p s')
