-- ===== src/Session/Repository/Evicted.antt =====
-- What becomes of a session of src/session.rs that leaves the cache for want of room.
use db233_rust.Common.{
  ℕ, zero, suc, ◌-◌, ◌≡◌, ◌≢◌, refl, ap, ◌∙◌, ℤ, List, [], ◌∷◌, ◌++◌, none, Text, length, take,
  arith, get_elem?, get_elem?-append_one, length-append,
}
use db233_rust.Session
use db233_rust.Session.{Session}
use db233_rust.Session.Lru.{Lru, IsLru, Entries, lookup, without}
use db233_rust.Session.Repository.{Store, open_session, flush_all}
use db233_rust.Session.Repository.ByPlayer.{Every}
use db233_rust.Session.Repository.History.{IsSessionOf, IsValid, get_elem?-length}
use db233_rust.Session.Repository.Invariant.{
  open_session_lem, open_session-IsValid, flush_sessions-IsValid,
}
use db233_rust.Session.Repository.Task.{flush_sessions-repo}
use db233_rust.Session.Repository.Flushed.{Misses, flush_all_lem}

without_absent : (k : ℤ) (es : Entries) → lookup k es ≡ none → without k es ≡ es
unfolding lookup without
without_absent k [] h = refl
without_absent k ((j, p) ∷ es) h = ground (arith, without_absent k es)

take-length-append : {A : Type 0} (xs ys : List A) → take (length xs) (xs ++ ys) ≡ xs
take-length-append [] ys = refl
take-length-append (x ∷ xs) ys = ap (◌∷◌ x) (take-length-append xs ys)

take-append_one :
    {A : Type 0} (xs : List A) (x : A) → take (length (xs ++ x ∷ []) - 1) (xs ++ x ∷ []) ≡ xs
take-append_one xs x =
    let shorter : length (xs ++ x ∷ []) - 1 ≡ length xs =
      omega (arith, length-append xs (x ∷ [])) in
    rw shorter (take-length-append xs (x ∷ []))

-- A session that is there is not at the end of the heap.
length-ne-live :
    {E : Type 0} (heap : List (Session E)) (k : ℤ) (p : ℕ)
    → IsSessionOf k (get_elem? heap p)
    → length heap ≢ p
length-ne-live heap k p h e = rw (← e, get_elem?-length heap) at h

Every-last :
    (P : ℤ → ℕ → Type 0) (es : Entries) (k : ℤ) (p : ℕ) → Every P (es ++ (k, p) ∷ []) → P k p
Every-last P [] k p h = h.0
Every-last P ((j, q) ∷ es) k p h = Every-last P es k p h.1

module _ {L D E : Type 0} (lru : Lru L) (good : IsLru lru) where
  -- `n` rounds of the flush task.
  unfoldable pub flush_times : ℕ → Store L D E → Store L D E
  flush_times zero st = st
  flush_times (suc n) st = flush_times n (flush_all lru st).1

  flush_all-missed :
      (q : ℕ) (st : Store L D E)
      → IsValid lru st
      → Misses q (lru.iter st.repo.sessions)
      → (get_elem? (flush_all lru st).1.heap q ≡ get_elem? st.heap q)
        × Misses q (lru.iter (flush_all lru st).1.repo.sessions)
        × IsValid lru (flush_all lru st).1
  flush_all-missed q st v misses = (
    (flush_all_lem lru st v).1.missed q misses,
    unfold flush_all in rw (flush_sessions-repo lru (lru.iter st.repo.sessions) st) misses,
    unfold flush_all in flush_sessions-IsValid lru good (lru.iter st.repo.sessions) st v,
  )

  flush_times-missed :
      (n q : ℕ) (st : Store L D E)
      → IsValid lru st
      → Misses q (lru.iter st.repo.sessions)
      → get_elem? (flush_times n st).heap q ≡ get_elem? st.heap q
  unfolding flush_times
  flush_times-missed zero q st v misses = refl
  flush_times-missed (suc n) q st v misses =
      let (same, misses', v') = flush_all-missed q st v misses in
      flush_times-missed n q (flush_all lru st).1 v' misses' ∙ same

  -- The entries that stay when a new player finds the cache full.
  open_session-iter_full :
      (now player_id : ℤ) (entity_types : List Text) (st : Store L D E) (front : Entries) (k : ℤ)
      (p : ℕ)
      → lru.iter st.repo.sessions ≡ front ++ (k, p) ∷ []
      → length (lru.iter st.repo.sessions) ≡ lru.cap st.repo.sessions
      → lookup player_id (lru.iter st.repo.sessions) ≡ none
      → lru.iter (open_session lru now player_id entity_types st).1.repo.sessions
        ≡ (player_id, length st.heap) ∷ front
  open_session-iter_full now player_id entity_types st front k p entries full absent = rw (
    open_session_lem lru good now player_id entity_types st,
    good.iter-put player_id (length st.heap) st.repo.sessions,
    without_absent player_id (lru.iter st.repo.sessions) absent,
    ← full,
    entries,
    take-append_one front (k, p),
  )

  -- Nothing is flushed on an eviction, and nothing after it: where the cache is full, with a session
  -- at `p` as its last entry and as no other, and a session is opened for a player who has none, the
  -- session at `p` leaves the cache and is as it was, with its dirty types, after any number of
  -- flushes of all sessions.
  pub evicted_unflushed :
      (now player_id : ℤ) (entity_types : List Text) (st : Store L D E) (front : Entries) (k : ℤ)
      (p n : ℕ)
      → IsValid lru st
      → lru.iter st.repo.sessions ≡ front ++ (k, p) ∷ []
      → Misses p front
      → length (lru.iter st.repo.sessions) ≡ lru.cap st.repo.sessions
      → lookup player_id (lru.iter st.repo.sessions) ≡ none
      → let st' = (open_session lru now player_id entity_types st).1 in
        Misses p (lru.iter st'.repo.sessions)
        × (get_elem? (flush_times n st').heap p ≡ get_elem? st.heap p)
  evicted_unflushed now player_id entity_types st front k p n v entries misses full absent =
      let st' = (open_session lru now player_id entity_types st).1 in
      let left =
        open_session-iter_full now player_id entity_types st front k p entries full absent in
      let distinct : length st.heap ≢ p =
        length-ne-live st.heap k p (Every-last _ front k p (rw entries at (v.placed))) in
      let gone : Misses p (lru.iter st'.repo.sessions) = rw left (distinct, misses) in
      (
        gone,
        flush_times-missed n p st' (open_session-IsValid lru good now player_id entity_types st v)
              gone
            ∙ rw (open_session_lem lru good now player_id entity_types st) (
                ground (
                  arith,
                  get_elem?-append_one st.heap (Session.new player_id st.repo.rules now) p,
                )),
      )
