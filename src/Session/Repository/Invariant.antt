-- ===== src/Session/Repository/Invariant.antt =====
-- What holds of the sessions of src/session.rs after any history of the repository, of its task and of
-- the sessions' own methods.
use db233_rust.Session.Owner.{flush-player_id, Step-player_id}
use db233_rust.Common.{
  ℕ, ◌-◌, ◌<◌, ◌≡◌, refl, ◌∙◌, ℤ, Bool, false, List, [], ◌∷◌, ◌++◌, Option, none, some,
  Option-cases, inl, inr, Text, length, arith, get_elem?, set, Bool-cases,
}
use db233_rust.Errors.{ok, Result-cases}
use db233_rust.Config.{EntityCacheConfig, CacheableEntitySpec}
use db233_rust.Session
use db233_rust.Session.{Rules, Session, World, is_cacheable, flush, flush_each}
use db233_rust.Session.Invariant
use db233_rust.Session.Lru.{Lru, IsLru, Entries, without}
use db233_rust.Session.Repository.{
  Store, new, capacity, open_session, close_session, flush_all, flush_sessions, stop, run_task,
  call_session, load_types, start_flush_task,
}
use db233_rust.Session.Repository.ByPlayer.{
  Every-without, Every-map, length-without, length-take-le,
}
use db233_rust.Session.Repository.History.{
  IsValid, Step, Reach, opens, closes, flushes, stops, runs, acts, here, next, open_session-placed,
  AreValid-append, AreValid-set, IsSessionOf-set,
}

load_types-ok : (rules : Rules) (entity_types : List Text) → load_types rules entity_types ≡ ok tt
unfolding load_types
load_types-ok rules [] = refl
load_types-ok rules (t ∷ ts) = ground (arith, load_types-ok rules ts)

capacity_pos : (config : EntityCacheConfig) → 0 < capacity config
capacity_pos config = ground arith

module _ {L D E : Type 0} (lru : Lru L) (good : IsLru lru) where
  -- `open_session` succeeds, and this is what it leaves.
  pub open_session_lem :
      (now player_id : ℤ) (entity_types : List Text) (st : Store L D E)
      → open_session lru now player_id entity_types st ≡ (
        ok (length st.heap),
        record st {
          repo = record st.repo { sessions = lru.put player_id (length st.heap) st.repo.sessions };
          heap = st.heap ++ Session.new player_id st.repo.rules now ∷ [];
        },
      )
  unfolding open_session
  open_session_lem now player_id entity_types st =
      ground (arith, load_types-ok st.repo.rules entity_types)

  pub open_session-IsValid :
      (now player_id : ℤ) (entity_types : List Text) (st : Store L D E)
      → IsValid lru st
      → IsValid lru (open_session lru now player_id entity_types st).1
  open_session-IsValid now player_id entity_types st v =
      let l = st.repo.sessions in
      rw (open_session_lem now player_id entity_types st) (record {
        capped = good.cap-put player_id (length st.heap) l ∙ v.capped;
        bounded = rw (good.iter-put player_id (length st.heap) l) (
            omega (
              arith,
              length-take-le (lru.cap l - 1) (without player_id (lru.iter l)),
              v.capped,
              capacity_pos st.repo.rules.config,
            ));
        placed = rw (good.iter-put player_id (length st.heap) l) (
            open_session-placed player_id _ st.heap _ (lru.iter l) (unfold Session.new in refl)
              v.placed);
        sessions =
            AreValid-append st.repo.rules st.heap _
              (Invariant.new-IsValid player_id st.repo.rules now) v.sessions;
      })

  -- A session whose content has changed, and with it the counts and the database.
  changed-IsValid :
      (p : ℕ) (s : Session E) (w : World D E) (st : Store L D E)
      → get_elem? st.heap p ≡ some s
      → w.session.player_id ≡ s.player_id
      → Invariant.IsValid st.repo.rules w.session
      → IsValid lru st
      → IsValid lru (record st { heap = set st.heap p w.session; counts = w.counts; db = w.db })
  changed-IsValid p s w st at_p same valid v = record {
    capped = v.capped;
    bounded = v.bounded;
    placed =
        Every-map _ _ (lru.iter st.repo.sessions)
          (λ k q. IsSessionOf-set st.heap p s w.session k q at_p same) v.placed;
    sessions = AreValid-set st.repo.rules st.heap p w.session valid v.sessions;
  }

  flush_session-IsValid :
      (p : ℕ) (st : Store L D E) → IsValid lru st → IsValid lru (call_session lru p flush st).1
  unfolding call_session
  flush_session-IsValid p st v = elim (Option-cases (get_elem? st.heap p)) [
    | inl out ↦ rw (out, call_session) v
    | inr (s, at_p) ↦
        let w : World D E = record { session = s; counts = st.counts; db = st.db } in
        rw (at_p, call_session)
          (changed-IsValid p s (flush w).1 st at_p (flush-player_id w)
            (unfold flush in
              Invariant.flush_each-IsValid st.repo.rules s.dirty_entities w (v.sessions p s at_p))
            v)
  ]

  pub flush_sessions-IsValid :
      (es : Entries) (st : Store L D E) → IsValid lru st → IsValid lru (flush_sessions lru es st).1
  unfolding flush_sessions
  flush_sessions-IsValid [] st v = v
  flush_sessions-IsValid ((k, p) ∷ es) st v =
      let flushed = flush_session-IsValid p st v in
      elim (Result-cases (call_session lru p flush st).0) [
        | inl (u, e) ↦ rw (e, flush_sessions) (flush_sessions-IsValid es _ flushed)
        | inr (inl (m, e)) ↦ rw (e, flush_sessions) flushed
        | inr (inr e) ↦ rw (e, flush_sessions) flushed
      ]

  close_session-IsValid :
      (player_id : ℤ) (st : Store L D E)
      → IsValid lru st
      → IsValid lru (close_session lru player_id st).1
  unfolding close_session
  close_session-IsValid player_id st v =
      let l = st.repo.sessions in
      let popped : IsValid lru
          (record st { repo = record st.repo { sessions = (lru.pop player_id l).1 } }) =
        record {
          capped = good.cap-pop player_id l ∙ v.capped;
          bounded =
              rw (good.iter-pop player_id l)
                (omega (arith, length-without player_id (lru.iter l), v.bounded));
          placed = rw (good.iter-pop player_id l) (Every-without _ player_id (lru.iter l) v.placed);
          sessions = v.sessions;
        } in
      elim (Option-cases (lru.pop player_id l).0) [
        | inl absent ↦ rw (absent, close_session) popped
        | inr (p, found) ↦ rw (found, close_session) (flush_session-IsValid p _ popped)
      ]

  kept-IsValid :
      (st : Store L D E) (running : Bool) (task : Option Bool)
      → IsValid lru st
      → IsValid lru (record st { repo = record st.repo { running = running; flush_task = task } })
  kept-IsValid st running task v = record {
    capped = v.capped;
    bounded = v.bounded;
    placed = v.placed;
    sessions = v.sessions;
  }

  run_task-IsValid : (st : Store L D E) → IsValid lru st → IsValid lru (run_task lru st)
  unfolding run_task flush_all
  run_task-IsValid st v = elim (Option-cases st.repo.flush_task) [
    | inl absent ↦ rw (absent, run_task) v
    | inr (flag, task) ↦ elim (Bool-cases flag) [
      | inl up ↦ rw (task, up, run_task) (flush_sessions-IsValid (lru.iter st.repo.sessions) st v)
      | inr down ↦ rw (task, down, run_task) (kept-IsValid st st.repo.running none v)
    ]
  ]

  Step-IsValid : (st u : Store L D E) → Step lru st u → IsValid lru st → IsValid lru u
  Step-IsValid st u (opens now player_id entity_types) v =
      open_session-IsValid now player_id entity_types st v
  Step-IsValid st u (closes player_id) v = close_session-IsValid player_id st v
  Step-IsValid st u flushes v =
      unfold flush_all in flush_sessions-IsValid (lru.iter st.repo.sessions) st v
  Step-IsValid st u stops v = unfold stop in kept-IsValid st false st.repo.flush_task v
  Step-IsValid st u runs v = run_task-IsValid st v
  Step-IsValid st u (acts p s w at_p act) v =
      let w0 : World D E = record { session = s; counts = st.counts; db = st.db } in
      changed-IsValid p s w st at_p (Step-player_id st.repo.rules w0 w act)
        (Invariant.Step-IsValid st.repo.rules w0 w act (v.sessions p s at_p)) v

  Reach-IsValid : (st u : Store L D E) → Reach lru st u → IsValid lru st → IsValid lru u
  Reach-IsValid st u here v = v
  Reach-IsValid st u (next {u = m} r one) v = Step-IsValid m u one (Reach-IsValid st m r v)

  empty-IsValid :
      (st : Store L D E)
      → st.heap ≡ []
      → lru.iter st.repo.sessions ≡ []
      → lru.cap st.repo.sessions ≡ capacity st.repo.rules.config
      → IsValid lru st
  empty-IsValid st no_heap no_entries capped = record {
    capped = capped;
    bounded = rw no_entries (omega arith);
    placed = rw no_entries tt;
    sessions = λ p s e. absurd (ground arith);
  }

  new-IsValid :
      (db : D) (config : EntityCacheConfig) (specs : List CacheableEntitySpec)
      → IsValid lru (new {E = E} lru db config specs)
  unfolding new start_flush_task
  new-IsValid db config specs =
      empty-IsValid _ (ground arith) (ground (arith, good.iter-new (capacity config)))
        (ground (arith, good.cap-new (capacity config), capacity_pos config))

  -- After any history of a repository that was new: the cache holds at most `max_sessions` sessions,
  -- or 1000 where that is zero, each of them a session of the player that it is kept for; and every
  -- session that was ever opened is valid, also one that has left the cache.
  pub new-Reach-IsValid :
      (db : D) (config : EntityCacheConfig) (specs : List CacheableEntitySpec) (st : Store L D E)
      → Reach lru (new lru db config specs) st
      → IsValid lru st
  new-Reach-IsValid db config specs st r = Reach-IsValid _ st r (new-IsValid db config specs)
