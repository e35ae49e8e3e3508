-- ===== src/Session/Repository/Task.antt =====
-- The flush task of src/session.rs against `stop`.
use db233_rust.Common.{
  ℕ, ◌<◌, ◌≡◌, refl, ℤ, true, false, inl, inr, List, Option, none, some, Option-cases, arith, Text,
  ◌∷◌, [], ap, Bool, ◌≢◌, ◌∙◌,
}
use db233_rust.Errors.{Result, Result-cases}
use db233_rust.Config.{EntityCacheConfig, CacheableEntitySpec}
use db233_rust.Session.{World, flush}
use db233_rust.Session.Lru.{Lru, Entries}
use db233_rust.Session.Repository.{
  Repository, Store, new, start_flush_task, open_session, close_session, flush_all, flush_sessions,
  stop, run_task, call_session,
}
use db233_rust.Session.Repository.History.{
  Step, Reach, opens, closes, flushes, stops, runs, acts, here, next,
}

module _ {L D E : Type 0} (lru : Lru L) where
  call_session-repo :
      {A : Type 0} (p : ℕ) (method : World D E → Result A × World D E) (st : Store L D E)
      → (call_session lru p method st).1.repo ≡ st.repo
  unfolding call_session
  call_session-repo p method st = ground arith

  pub flush_sessions-repo :
      (es : Entries) (st : Store L D E) → (flush_sessions lru es st).1.repo ≡ st.repo
  unfolding flush_sessions
  flush_sessions-repo [] st = refl
  flush_sessions-repo ((k, p) ∷ es) st = elim (Result-cases (call_session lru p flush st).0) [
    | inl (u, e) ↦ ground (
      arith,
      call_session-repo p flush st,
      flush_sessions-repo es (call_session lru p flush st).1,
    )
    | inr failed ↦ ground (arith, call_session-repo p flush st)
  ]

  close_session-task :
      (player_id : ℤ) (st : Store L D E)
      → (close_session lru player_id st).1.repo.flush_task ≡ st.repo.flush_task
  unfolding close_session
  close_session-task player_id st = elim (Option-cases (lru.pop player_id st.repo.sessions).0) [
    | inl absent ↦ rw (absent, close_session) refl
    | inr (p, found) ↦
        rw (found, close_session)
          (ap (λ (r : Repository L). r.flush_task) (call_session-repo p flush _))
  ]

  run_task-task :
      (st : Store L D E) (b : Option Bool)
      → st.repo.flush_task ≡ b
      → b ≢ some false
      → (run_task lru st).repo.flush_task ≡ b
  unfolding run_task flush_all
  run_task-task st none e up = ground arith
  run_task-task st (some true) e up =
      ground (arith, flush_sessions-repo (lru.iter st.repo.sessions) st)
  run_task-task st (some false) e up = absurd (up refl)

  open_session-task :
      (now player_id : ℤ) (entity_types : List Text) (st : Store L D E)
      → (open_session lru now player_id entity_types st).1.repo.flush_task ≡ st.repo.flush_task
  unfolding open_session
  open_session-task now player_id entity_types st = ground arith

  Step-task :
      (st u : Store L D E) (b : Option Bool)
      → Step lru st u
      → b ≢ some false
      → st.repo.flush_task ≡ b
      → u.repo.flush_task ≡ b
  unfolding flush_all stop
  Step-task st u b (opens now player_id entity_types) up e =
      open_session-task now player_id entity_types st ∙ e
  Step-task st u b (closes player_id) up e = close_session-task player_id st ∙ e
  Step-task st u b flushes up e =
      ap (λ (r : Repository L). r.flush_task) (flush_sessions-repo (lru.iter st.repo.sessions) st)
      ∙ e
  Step-task st u b stops up e = e
  Step-task st u b runs up e = run_task-task st b e up
  Step-task st u b (acts p s w at_p act) up e = e

  Reach-task :
      (st u : Store L D E) (b : Option Bool)
      → Reach lru st u
      → b ≢ some false
      → st.repo.flush_task ≡ b
      → u.repo.flush_task ≡ b
  Reach-task st u b here up e = e
  Reach-task st u b (next {u = m} r one) up e = Step-task m u b one up (Reach-task st m b r up e)

  -- `stop` does not end the flush task: with a flush interval above zero, after any history of a
  -- repository, also one with calls of `stop`, the next round of the task flushes all sessions and
  -- leaves the task running.
  pub Reach-run_task :
      (db : D) (config : EntityCacheConfig) (specs : List CacheableEntitySpec) (st : Store L D E)
      → 0 < config.session_flush_interval_ms
      → Reach lru (new lru db config specs) st
      → (run_task lru (stop lru st) ≡ (flush_all lru (stop lru st)).1)
        × ((run_task lru (stop lru st)).repo.flush_task ≡ some true)
  unfolding new start_flush_task run_task
  Reach-run_task db config specs st often r =
      let runs : (stop lru st).repo.flush_task ≡ some true =
        unfold stop in
        Reach-task (new lru db config specs) st (some true) r (λ e. cc e) (ground arith) in
      (rw runs refl, run_task-task (stop lru st) (some true) runs (λ e. cc e))
