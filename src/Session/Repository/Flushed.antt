-- ===== src/Session/Repository/Flushed.antt =====
-- Which sessions `flush_all` of src/session.rs reaches.
use db233_rust.Common.{
  ℕ, ◌≡◌, ◌≢◌, refl, sym, ◌∙◌, ℤ, false, List, [], ◌∷◌, some, Option-cases, inl, inr, Text,
  contains_key, arith, get_elem?, get_elem?-set, subst, ℕ_discrete,
}
use db233_rust.Errors.{ok}
use db233_rust.Session.{Session, World, flush}
use db233_rust.Session.Flush.{flush_each-dirty, flush_each-rest}
use db233_rust.Session.Owner.{flush-player_id}
use db233_rust.Session.Lru.{Lru, Entries}
use db233_rust.Session.Repository.{Store, flush_all, flush_sessions, call_session}
use db233_rust.Session.Repository.ByPlayer.{Every, Every-map}
use db233_rust.Session.Repository.History.{IsSessionOf, IsSessionOf-set, IsValid}

-- No type of the session is dirty.
abbrev pub IsClean : {E : Type 0} → Session E → Type 0
IsClean s = (j : Text) → contains_key j s.dirty_entities ≡ false

abbrev pub IsCleanAt : {E : Type 0} → List (Session E) → ℕ → Type 0
IsCleanAt {E} heap p = (s : Session E) → get_elem? heap p ≡ some s → IsClean s

-- No entry is at the address.
abbrev pub Misses : ℕ → Entries → Type 0
Misses q es = Every (λ k p. p ≢ q) es

module _ {D E : Type 0} where
  flush-IsClean : (w : World D E) → IsClean (flush w).1.session
  unfolding flush contains_key
  flush-IsClean w j = ground (arith, flush_each-dirty w.session.dirty_entities w j)

  flush-ok : (w : World D E) → (flush w).0 ≡ ok tt
  unfolding flush
  flush-ok w = refl

  flush-db : (w : World D E) → (flush w).1.db ≡ w.db
  unfolding flush
  flush-db w = (flush_each-rest w.session.dirty_entities w).2

module _ {L D E : Type 0} (lru : Lru L) where
  -- One session that is there.
  record IsFlushedAt (p : ℕ) (st st' : Store L D E) : Type 0 where
    clean : IsCleanAt st'.heap p
    others : (q : ℕ) → p ≢ q → get_elem? st'.heap q ≡ get_elem? st.heap q
    owner :
        (q : ℕ) (k : ℤ) → IsSessionOf k (get_elem? st.heap q) → IsSessionOf k (get_elem? st'.heap q)
    db : st'.db ≡ st.db

  flush_session_lem :
      (p : ℕ) (s : Session E) (st : Store L D E)
      → get_elem? st.heap p ≡ some s
      → ((call_session lru p flush st).0 ≡ ok tt) × IsFlushedAt p st (call_session lru p flush st).1
  unfolding call_session
  flush_session_lem p s st at_p =
      let w : World D E = record { session = s; counts = st.counts; db = st.db } in
      let s' = (flush w).1.session in
      rw (at_p, call_session)
        (
          flush-ok w,
          record {
            clean = λ t e j.
                let same : s' ≡ t = ground (arith, get_elem?-set st.heap p p s') in
                subst (λ (u : Session E). contains_key j u.dirty_entities ≡ false) same
                  (flush-IsClean w j);
            others = λ q other. ground (arith, get_elem?-set st.heap p q s');
            owner = λ q k h. IsSessionOf-set st.heap p s s' k q at_p (flush-player_id w) h;
            db = flush-db w;
          },
        )

  clean_kept :
      (p q : ℕ) (st st' : Store L D E)
      → IsFlushedAt p st st'
      → IsCleanAt st.heap q
      → IsCleanAt st'.heap q
  clean_kept p q st st' f h = elim (ℕ_discrete p q) [
    | yes e ↦ subst (IsCleanAt st'.heap) e f.clean
    | no other ↦ λ s e. h s (sym (f.others q other) ∙ e)
  ]

  -- What a flush of some entries leaves of a store.
  pub record AreFlushed (es : Entries) (st st' : Store L D E) : Type 0 where
    pub clean : Every (λ k p. IsCleanAt st'.heap p) es
    pub kept : (q : ℕ) → IsCleanAt st.heap q → IsCleanAt st'.heap q
    pub missed : (q : ℕ) → Misses q es → get_elem? st'.heap q ≡ get_elem? st.heap q
    pub db : st'.db ≡ st.db

  AreFlushed-more :
      (k : ℤ) (p : ℕ) (es : Entries) (st m st' : Store L D E)
      → IsFlushedAt p st m
      → AreFlushed es m st'
      → AreFlushed ((k, p) ∷ es) st st'
  AreFlushed-more k p es st m st' f fs = record {
    clean = (fs.kept p f.clean, fs.clean);
    kept = λ q h. fs.kept q (clean_kept p q st m f h);
    missed = λ q misses. fs.missed q misses.1 ∙ f.others q misses.0;
    db = fs.db ∙ f.db;
  }

  AreSessions : Entries → Store L D E → Type 0
  AreSessions es st = Every (λ k p. IsSessionOf k (get_elem? st.heap p)) es

  flush_sessions_lem :
      (es : Entries) (st : Store L D E)
      → AreSessions es st
      → ((flush_sessions lru es st).0 ≡ ok tt) × AreFlushed es st (flush_sessions lru es st).1
  unfolding flush_sessions AreSessions
  flush_sessions_lem [] st h =
      (refl, record { clean = tt; kept = λ q h. h; missed = λ q h. refl; db = refl })
  flush_sessions_lem ((k, p) ∷ es) st (here, h) = elim (Option-cases (get_elem? st.heap p)) [
    | inl out ↦ absurd (rw out at here)
    | inr (s, at_p) ↦
        let (done, f) = flush_session_lem p s st at_p in
        let m = (call_session lru p flush st).1 in
        let (all_done, fs) = flush_sessions_lem es m (Every-map _ _ es (λ j q. f.owner q j) h) in
        rw (done, flush_sessions) (all_done, AreFlushed-more k p es st m _ f fs)
  ]

  -- On a store that is valid, `flush_all` succeeds; after it no session of the cache has a dirty type,
  -- a session without dirty types stays one, a session outside the cache is as it was, and nothing
  -- has been written to the database.
  pub flush_all_lem :
      (st : Store L D E)
      → IsValid lru st
      → ((flush_all lru st).0 ≡ ok tt)
        × AreFlushed (lru.iter st.repo.sessions) st (flush_all lru st).1
  unfolding flush_all AreSessions
  flush_all_lem st v = flush_sessions_lem (lru.iter st.repo.sessions) st v.placed
