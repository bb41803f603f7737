-- ===== src/RocksDbEngine/ThreadPool/Accounting.antt =====
-- IndexBuilderThreadPool.cpp loses no task, and runs none twice.
use open_arango_dbcore.Prelude.{
  ℕ, zero, suc, ◌+◌, ◌≡◌, refl, sym, some, List, [], ◌∷◌, ◌++◌, map, get_elem?, set, ◌==◌,
  if◌then◌else◌, count, nat_key, arith,
}
use open_arango_dbcore.RocksDbEngine.ThreadPool.{
  Worker, idle, deciding, sleeping, exited, running, IndexBuilderThreadPool, woken, new_pool, Step,
  begin_submit, push, notify_one, notify_nobody, wait, sleep, take_task, finish_task, leave,
  set_flag, notify_all, Steps, here, one_more,
}

-- How many times a worker runs the task.
unfoldable pub runs_task : ℕ → Worker → ℕ
runs_task t (running u) = if u == t then 1 else 0
runs_task t idle = 0
runs_task t deciding = 0
runs_task t sleeping = 0
runs_task t exited = 0

unfoldable pub running_count : ℕ → List Worker → ℕ
running_count t [] = 0
running_count t (w ∷ workers) = runs_task t w + running_count t workers

running_count-set :
    (t i : ℕ) (workers : List Worker) (before after : Worker)
    → get_elem? workers i ≡ some before
    → running_count t (set workers i after) + runs_task t before
      ≡ running_count t workers + runs_task t after
unfolding running_count
running_count-set t i [] before after h = absurd (ground (arith, h))
running_count-set t zero (w ∷ workers) before after h =
    let same : w ≡ before = cc in rw (sym same) (omega arith)
running_count-set t (suc i) (w ∷ workers) before after h =
    omega (arith, running_count-set t i workers before after h)

running_count-woken :
    (t : ℕ) (workers : List Worker) → running_count t (map woken workers) ≡ running_count t workers
unfolding running_count runs_task woken
running_count-woken t [] = refl
running_count-woken t (idle ∷ workers) = omega (arith, running_count-woken t workers)
running_count-woken t (deciding ∷ workers) = omega (arith, running_count-woken t workers)
running_count-woken t (sleeping ∷ workers) = omega (arith, running_count-woken t workers)
running_count-woken t (exited ∷ workers) = omega (arith, running_count-woken t workers)
running_count-woken t (running u ∷ workers) = omega (arith, running_count-woken t workers)

count-append : (t : ℕ) (a b : List ℕ) → count t (a ++ b) ≡ count t a + count t b
unfolding count
count-append t [] b = omega arith
count-append t (x ∷ a) b = ground (arith, count-append t a b)

-- Every accepted task is queued, running or finished, as often as it was accepted.
abbrev pub Accounted : IndexBuilderThreadPool → Type 0
Accounted p =
    (t : ℕ)
    → count t p.accepted ≡ count t p.finished + (count t p.task_queue + running_count t p.workers)

Step-Accounted : (p q : IndexBuilderThreadPool) → Step p q → Accounted p → Accounted q
unfolding count runs_task
Step-Accounted p q (begin_submit _ task free up) h t = h t
Step-Accounted p q (push _ task mine) h t =
    omega
      (arith, h t, count-append t p.accepted (task ∷ []), count-append t p.task_queue (task ∷ []))
Step-Accounted p q (notify_one _ i owed due asleep) h t =
    omega (arith, h t, running_count-set t i p.workers sleeping idle asleep)
Step-Accounted p q (notify_nobody _ owed due nobody) h t = h t
Step-Accounted p q (wait _ i free at up empty) h t =
    omega (arith, h t, running_count-set t i p.workers idle deciding at)
Step-Accounted p q (sleep _ i at) h t =
    omega (arith, h t, running_count-set t i p.workers deciding sleeping at)
Step-Accounted p q (take_task _ i task rest free at front) h t =
    let before : count t p.task_queue ≡ (if task == t then suc (count t rest) else count t rest) =
      rw front refl in
    let moved : running_count t (set p.workers i (running task)) + 0
        ≡ running_count t p.workers + (if task == t then 1 else 0) =
      running_count-set t i p.workers idle (running task) at in
    ground (arith, h t, before, moved)
Step-Accounted p q (finish_task _ i task at) h t =
    let moved : running_count t (set p.workers i idle) + (if task == t then 1 else 0)
        ≡ running_count t p.workers + 0 =
      running_count-set t i p.workers (running task) idle at in
    ground (arith, h t, count-append t p.finished (task ∷ []), moved)
Step-Accounted p q (leave _ i free at down empty) h t =
    omega (arith, h t, running_count-set t i p.workers idle exited at)
Step-Accounted p q (set_flag _ fresh) h t = h t
Step-Accounted p q (notify_all _ raised) h t = omega (arith, h t, running_count-woken t p.workers)

Steps-Accounted : (p q : IndexBuilderThreadPool) → Steps p q → Accounted p → Accounted q
Steps-Accounted p q (here _) h = h
Steps-Accounted p q (one_more _ r _ first rest) h =
    Steps-Accounted r q rest (Step-Accounted p r first h)

new_pool-Accounted : (n : ℕ) → Accounted (new_pool n)
unfolding new_pool count running_count runs_task
new_pool-Accounted zero t = omega arith
new_pool-Accounted (suc n) t = omega (arith, new_pool-Accounted n t)

-- However the threads interleave, in a pool of any size, each task that `submit` accepted is in the
-- queue, being run or finished, and that as often as it was accepted.
pub pool-Accounted : (n : ℕ) (p : IndexBuilderThreadPool) → Steps (new_pool n) p → Accounted p
pool-Accounted n p run = Steps-Accounted (new_pool n) p run (new_pool-Accounted n)
