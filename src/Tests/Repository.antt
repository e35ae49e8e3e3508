-- ===== src/Tests/Repository.antt =====
-- Runs of the repository of src/session.rs with room for one session, and each theorem about it at
-- one.
use db233_rust.Session.Repository.History.{IsValid, Step, Reach}
use db233_rust.Session.Repository.Invariant.{new-Reach-IsValid}
use db233_rust.Session.Repository.Task.{Reach-run_task}
use db233_rust.Session.Repository.Flushed.{AreFlushed, Misses, flush_all_lem}
use db233_rust.Session.Repository.Evicted.{flush_times, evicted_unflushed}
use db233_rust.Session.Repository.{
  Store, new, register, start_flush_task, clone, open_session, load_types, close_session, flush_all,
  flush_sessions, call_session, stop, run_task,
}
use db233_rust.Session.Lru.{Lru, IsLru, Entries, lookup, without}
use db233_rust.Session.Invariant
use db233_rust.Session
use db233_rust.Session.{
  Session, World, put, is_cacheable, increment_entity_count, flush, flush_each,
}
use db233_rust.Config.{EntityCacheConfig, CacheableEntitySpec, default_entity_cache}
use db233_rust.Errors.{ok}
use db233_rust.Tests.Session.{hero}
use db233_rust.Common.{
  ◌≡◌, refl, ℕ, ◌-◌, pos, List, [], ◌∷◌, Text, codes, some, true, arith, take, get_elem?, set,
  contains_key, get, insert, text_discrete, ℤ-discrete,
}

-- A cache as its capacity and its entries.
pub record Cache : Type 0 where
  capacity : ℕ
  entries : Entries

abbrev pub lru : Lru Cache
lru = record {
  new = λ n. record { capacity = n; entries = [] };
  put = λ k p l. record l { entries = (k, p) ∷ take (l.capacity - 1) (without k l.entries) };
  pop = λ k l. (lookup k l.entries, record l { entries = without k l.entries });
  iter = λ l. l.entries;
  cap = λ l. l.capacity;
}

pub lru-IsLru : IsLru lru
lru-IsLru = record {
  iter-new = λ n. refl;
  cap-new = λ n h. refl;
  cap-put = λ k p l. refl;
  cap-pop = λ k l. refl;
  iter-put = λ k p l. refl;
  pop-lookup = λ k l. refl;
  iter-pop = λ k l. refl;
}

abbrev config : EntityCacheConfig
config = record default_entity_cache { max_sessions = 1 }

abbrev specs : List CacheableEntitySpec
specs = record { prototype_name = codes "Hero"; max_instances = 1 } ∷ []

abbrev start : Store Cache ℕ Text
start = new lru 0 config specs

abbrev opened : Store Cache ℕ Text
opened = (open_session lru (pos 1) (pos 7) [] start).1

abbrev session : Session Text
session = Session.new (pos 7) opened.repo.rules (pos 1)

abbrev world : World ℕ Text
world = record { session = session; counts = opened.counts; db = opened.db }

abbrev written : World ℕ Text
written = (put opened.repo.rules (pos 2) hero (codes "Al") world).1

-- The session of player 7 has put a hero.
abbrev dirty : Store Cache ℕ Text
dirty = record opened {
  heap = set opened.heap 0 written.session;
  counts = written.counts;
  db = written.db;
}

program : Unit {0}
unfolding new register start_flush_task clone open_session load_types close_session flush_all
    flush_sessions call_session put flush flush_each is_cacheable contains_key get insert lookup
    without text_discrete ℤ-discrete increment_entity_count
program = tt

opened_session : get_elem? opened.heap 0 ≡ some session
unfolding program
opened_session = refl

history : Reach lru start dirty
history =
    Reach.next (Reach.next Reach.here (Step.opens (pos 1) (pos 7) []))
      (Step.acts 0 session written opened_session (Invariant.Step.puts (pos 2) hero (codes "Al")))

new-Reach-IsValid_example : IsValid lru dirty
new-Reach-IsValid_example = new-Reach-IsValid lru lru-IsLru 0 config specs dirty history

dirty-IsValid : IsValid lru dirty
dirty-IsValid = new-Reach-IsValid lru lru-IsLru 0 config specs dirty history

Reach-run_task_example :
    (run_task lru (stop lru dirty) ≡ (flush_all lru (stop lru dirty)).1)
    × ((run_task lru (stop lru dirty)).repo.flush_task ≡ some true)
Reach-run_task_example = Reach-run_task lru 0 config specs dirty (omega arith) history

flush_all_lem_example :
    ((flush_all lru dirty).0 ≡ ok tt)
    × AreFlushed lru (lru.iter dirty.repo.sessions) dirty (flush_all lru dirty).1
flush_all_lem_example = flush_all_lem lru dirty dirty-IsValid

-- A session for player 8 takes the room of the one of player 7, which stays dirty.
evicted_unflushed_example :
    Misses 0 (lru.iter (open_session lru (pos 3) (pos 8) [] dirty).1.repo.sessions)
    × (get_elem? (flush_times lru lru-IsLru 5 (open_session lru (pos 3) (pos 8) [] dirty).1).heap 0
        ≡ get_elem? dirty.heap 0)
unfolding program
evicted_unflushed_example =
    evicted_unflushed lru lru-IsLru (pos 3) (pos 8) [] dirty [] (pos 7) 0 5 dirty-IsValid refl tt
      refl refl
