-- ===== src/RocksDbEngine/ThreadPool.antt =====
-- Enterprise/RocksDBEngine/IndexBuilderThreadPool.{h,cpp}: the threads of the index build, as steps
-- of one pool. The mutex is held by a submitter between its check and its push, and by a worker
-- between a false wait condition and its sleep; a condition variable wakes only who sleeps. A
-- `submit` that is refused changes nothing and is no step. A wake-up without a notification, which
-- C++ allows and no program can count on, is no step either. A task is a number; `accepted` and
-- `finished` record what was taken and what has run.
pub mod Accounting
pub mod LostWakeup
mod Examples
use open_arango_dbcore.Prelude.{
  ℕ, suc, ◌≡◌, Bool, true, false, Option, none, some, List, [], ◌∷◌, ◌++◌, map, get_elem?, set,
  replicate,
}

pub data Worker : Type 0 where
  idle deciding sleeping exited : Worker
  running : (task : ℕ) → Worker

-- How far `shutdown` is: not called, the flag set, everyone notified and the joins begun.
pub data Shutdown : Type 0 where
  not_called flagged notified : Shutdown

pub record IndexBuilderThreadPool : Type 0 where
  pub workers : List Worker
  pub task_queue : List ℕ
  pub shutdown : Bool
  pub stage : Shutdown
  pub submitting : Option ℕ
  pub owed : ℕ
  pub accepted : List ℕ
  pub finished : List ℕ

unfoldable pub new_pool : ℕ → IndexBuilderThreadPool
new_pool num_threads = record {
  workers = replicate num_threads idle;
  task_queue = [];
  shutdown = false;
  stage = not_called;
  submitting = none;
  owed = 0;
  accepted = [];
  finished = [];
}

unfoldable pub none_deciding : List Worker → Bool
none_deciding [] = true
none_deciding (deciding ∷ rest) = false
none_deciding (idle ∷ rest) = none_deciding rest
none_deciding (sleeping ∷ rest) = none_deciding rest
none_deciding (exited ∷ rest) = none_deciding rest
none_deciding (running task ∷ rest) = none_deciding rest

pub record LockFree (p : IndexBuilderThreadPool) : Type 0 where
  pub no_submitter : p.submitting ≡ none
  pub no_worker : none_deciding p.workers ≡ true

unfoldable pub woken : Worker → Worker
woken idle = idle
woken deciding = deciding
woken sleeping = idle
woken exited = exited
woken (running task) = running task

-- One step of some thread.
pub data Step : IndexBuilderThreadPool → IndexBuilderThreadPool → Type 0 where
  -- submit: the check under the lock
  begin_submit :
      (p : IndexBuilderThreadPool) (task : ℕ)
      → LockFree p
      → p.shutdown ≡ false
      → Step p (record p { submitting = some task })
  -- submit: the push, and the lock's release; a notification is owed
  push :
      (p : IndexBuilderThreadPool) (task : ℕ)
      → p.submitting ≡ some task
      → Step p (record p {
        submitting = none;
        task_queue = p.task_queue ++ task ∷ [];
        accepted = p.accepted ++ task ∷ [];
        owed = suc p.owed;
      })
  -- notify_one, if a worker sleeps
  notify_one :
      (p : IndexBuilderThreadPool) (i owed : ℕ)
      → p.owed ≡ suc owed
      → get_elem? p.workers i ≡ some sleeping
      → Step p (record p { workers = set p.workers i idle; owed = owed })
  -- notify_one, if none does
  notify_nobody :
      (p : IndexBuilderThreadPool) (owed : ℕ)
      → p.owed ≡ suc owed
      → ((i : ℕ) → ¬ (get_elem? p.workers i ≡ some sleeping))
      → Step p (record p { owed = owed })
  -- workerLoop: the wait condition is false
  wait :
      (p : IndexBuilderThreadPool) (i : ℕ)
      → LockFree p
      → get_elem? p.workers i ≡ some idle
      → p.shutdown ≡ false
      → p.task_queue ≡ []
      → Step p (record p { workers = set p.workers i deciding })
  -- workerLoop: the wait blocks and gives the lock up
  sleep :
      (p : IndexBuilderThreadPool) (i : ℕ)
      → get_elem? p.workers i ≡ some deciding
      → Step p (record p { workers = set p.workers i sleeping })
  -- workerLoop: the front task is taken
  take_task :
      (p : IndexBuilderThreadPool) (i task : ℕ) (rest : List ℕ)
      → LockFree p
      → get_elem? p.workers i ≡ some idle
      → p.task_queue ≡ task ∷ rest
      → Step p (record p { workers = set p.workers i (running task); task_queue = rest })
  -- workerLoop: the task returns
  finish_task :
      (p : IndexBuilderThreadPool) (i task : ℕ)
      → get_elem? p.workers i ≡ some (running task)
      → Step p (record p { workers = set p.workers i idle; finished = p.finished ++ task ∷ [] })
  -- workerLoop: the return
  leave :
      (p : IndexBuilderThreadPool) (i : ℕ)
      → LockFree p
      → get_elem? p.workers i ≡ some idle
      → p.shutdown ≡ true
      → p.task_queue ≡ []
      → Step p (record p { workers = set p.workers i exited })
  -- shutdown: the exchange of the flag, which takes no lock
  set_flag :
      (p : IndexBuilderThreadPool)
      → p.stage ≡ not_called
      → Step p (record p { stage = flagged; shutdown = true })
  -- shutdown: notify_all
  notify_all :
      (p : IndexBuilderThreadPool)
      → p.stage ≡ flagged
      → Step p (record p { stage = notified; workers = map woken p.workers })

pub data Steps : IndexBuilderThreadPool → IndexBuilderThreadPool → Type 0 where
  here : (p : IndexBuilderThreadPool) → Steps p p
  one_more : (p q r : IndexBuilderThreadPool) → Step p q → Steps q r → Steps p r
