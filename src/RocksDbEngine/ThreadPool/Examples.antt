-- ===== src/RocksDbEngine/ThreadPool/Examples.antt =====
-- Runs of the pool modelled in ThreadPool.antt.
use open_arango_dbcore.Prelude.{◌≡◌, refl, false, none, some, [], ◌∷◌, get_elem?}
use open_arango_dbcore.RocksDbEngine.ThreadPool.{
  idle, deciding, sleeping, notified, not_called, IndexBuilderThreadPool, new_pool, begin_submit,
  push, wait, Steps, here, one_more, none_deciding,
}
use open_arango_dbcore.RocksDbEngine.ThreadPool.LostWakeup.{shutdown_strands}
use open_arango_dbcore.RocksDbEngine.ThreadPool.Accounting.{Accounted, pool-Accounted}

-- One worker, and task 7 being submitted.
abbrev with_submitter : IndexBuilderThreadPool
with_submitter = record {
  workers = idle ∷ [];
  task_queue = [];
  shutdown = false;
  stage = not_called;
  submitting = some 7;
  owed = 0;
  accepted = [];
  finished = [];
}

abbrev with_task : IndexBuilderThreadPool
with_task = record with_submitter {
  submitting = none;
  task_queue = 7 ∷ [];
  owed = 1;
  accepted = 7 ∷ [];
}

submits : Steps (new_pool 1) with_task
unfolding new_pool none_deciding
submits =
    one_more (new_pool 1) with_submitter with_task
      (begin_submit (new_pool 1) 7 (record { no_submitter = refl; no_worker = refl }) refl)
      (one_more with_submitter with_task with_task (push with_submitter 7 refl) (here with_task))

pool-Accounted_example : Accounted with_task
pool-Accounted_example = pool-Accounted 1 with_task submits

-- One worker that has found nothing to do.
abbrev about_to_sleep : IndexBuilderThreadPool
about_to_sleep = record {
  workers = deciding ∷ [];
  task_queue = [];
  shutdown = false;
  stage = not_called;
  submitting = none;
  owed = 0;
  accepted = [];
  finished = [];
}

finds_nothing : Steps (new_pool 1) about_to_sleep
unfolding new_pool none_deciding
finds_nothing =
    one_more (new_pool 1) about_to_sleep about_to_sleep
      (wait (new_pool 1) 0 (record { no_submitter = refl; no_worker = refl }) refl refl refl)
      (here about_to_sleep)

shutdown_strands_example :
    (q : IndexBuilderThreadPool) × Steps about_to_sleep q
    × (q.stage ≡ notified)
    × ((r : IndexBuilderThreadPool) → Steps q r → get_elem? r.workers 0 ≡ some sleeping)
shutdown_strands_example = shutdown_strands about_to_sleep 0 refl refl refl refl
