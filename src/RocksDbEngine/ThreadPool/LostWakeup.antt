-- ===== src/RocksDbEngine/ThreadPool/LostWakeup.antt =====
-- IndexBuilderThreadPool.cpp: `shutdown` sets its flag without the mutex, so that a worker between
-- its check and its sleep misses the notification.
use open_arango_dbcore.Prelude.{
  ℕ, zero, suc, ◌≡◌, ◌≢◌, refl, ◌∙◌, true, none, some, List, [], ◌∷◌, map, get_elem?, set,
  get_elem?-set_ne, arith,
}
use open_arango_dbcore.RocksDbEngine.ThreadPool.{
  Worker, idle, deciding, sleeping, exited, running, not_called, flagged, notified,
  IndexBuilderThreadPool, woken, Step, begin_submit, push, notify_one, notify_nobody, wait, sleep,
  take_task, finish_task, leave, set_flag, notify_all, Steps, here, one_more,
}

-- After the notification, with nothing owed and nobody submitting, worker `i` sleeps.
pub record Stranded (i : ℕ) (p : IndexBuilderThreadPool) : Type 0 where
  pub flag : p.shutdown ≡ true
  pub told : p.stage ≡ notified
  pub nobody : p.submitting ≡ none
  pub nothing_owed : p.owed ≡ 0
  pub asleep : get_elem? p.workers i ≡ some sleeping

same_worker :
    (i j : ℕ) (workers : List Worker) (before : Worker)
    → get_elem? workers i ≡ some sleeping
    → get_elem? workers j ≡ some before
    → j ≡ i
    → before ≡ sleeping
same_worker i j workers before asleep other e = cc

-- Another worker's change.
elsewhere :
    (i j : ℕ) (workers : List Worker) (before after : Worker)
    → get_elem? workers i ≡ some sleeping
    → get_elem? workers j ≡ some before
    → before ≢ sleeping
    → get_elem? (set workers j after) i ≡ some sleeping
elsewhere i j workers before after asleep other awake =
    let apart : j ≢ i = λ e. awake (same_worker i j workers before asleep other e) in
    get_elem?-set_ne workers after apart ∙ asleep

Step-Stranded : (i : ℕ) (p q : IndexBuilderThreadPool) → Step p q → Stranded i p → Stranded i q
Step-Stranded i p q (begin_submit _ task free up) s = absurd (ground (arith, up, s.flag))
Step-Stranded i p q (push _ task mine) s = absurd (ground (arith, mine, s.nobody))
Step-Stranded i p q (notify_one _ j owed due other) s = absurd (ground (arith, due, s.nothing_owed))
Step-Stranded i p q (notify_nobody _ owed due nobody) s =
    absurd (ground (arith, due, s.nothing_owed))
Step-Stranded i p q (wait _ j free other up empty) s = absurd (ground (arith, up, s.flag))
Step-Stranded i p q (sleep _ j other) s = record {
  flag = s.flag;
  told = s.told;
  nobody = s.nobody;
  nothing_owed = s.nothing_owed;
  asleep = elsewhere i j p.workers deciding sleeping s.asleep other (λ e. cc);
}
Step-Stranded i p q (take_task _ j task rest free other front) s = record {
  flag = s.flag;
  told = s.told;
  nobody = s.nobody;
  nothing_owed = s.nothing_owed;
  asleep = elsewhere i j p.workers idle (running task) s.asleep other (λ e. cc);
}
Step-Stranded i p q (finish_task _ j task other) s = record {
  flag = s.flag;
  told = s.told;
  nobody = s.nobody;
  nothing_owed = s.nothing_owed;
  asleep = elsewhere i j p.workers (running task) idle s.asleep other (λ e. cc);
}
Step-Stranded i p q (leave _ j free other down empty) s = record {
  flag = s.flag;
  told = s.told;
  nobody = s.nobody;
  nothing_owed = s.nothing_owed;
  asleep = elsewhere i j p.workers idle exited s.asleep other (λ e. cc);
}
Step-Stranded i p q (set_flag _ fresh) s = absurd (ground (arith, fresh, s.told))
Step-Stranded i p q (notify_all _ raised) s = absurd (ground (arith, raised, s.told))

Steps-Stranded : (i : ℕ) (p q : IndexBuilderThreadPool) → Steps p q → Stranded i p → Stranded i q
Steps-Stranded i p q (here _) s = s
Steps-Stranded i p q (one_more _ r _ first rest) s =
    Steps-Stranded i r q rest (Step-Stranded i p r first s)

get_elem?-set_found :
    (workers : List Worker) (i : ℕ) (before after : Worker)
    → get_elem? workers i ≡ some before
    → get_elem? (set workers i after) i ≡ some after
get_elem?-set_found [] i before after h = absurd (ground (arith, h))
get_elem?-set_found (x ∷ workers) zero before after h = refl
get_elem?-set_found (x ∷ workers) (suc i) before after h =
    get_elem?-set_found workers i before after h

get_elem?-map :
    (i : ℕ) (workers : List Worker) (w : Worker)
    → get_elem? workers i ≡ some w
    → get_elem? (map woken workers) i ≡ some (woken w)
unfolding woken
get_elem?-map i [] w h = absurd (ground (arith, h))
get_elem?-map zero (x ∷ workers) w h = ground (arith, h)
get_elem?-map (suc i) (x ∷ workers) w h = get_elem?-map i workers w h

-- Whenever a worker has found its wait condition false and does not sleep yet, `shutdown` has not
-- been called, nobody is submitting and no notification is owed, the pool has a run in which
-- `shutdown` sets its flag and notifies everyone and the worker then sleeps; and however that run
-- goes on, by the steps of the model, the worker still sleeps, so that its join does not return.
pub shutdown_strands :
    (p : IndexBuilderThreadPool) (i : ℕ)
    → get_elem? p.workers i ≡ some deciding
    → p.stage ≡ not_called
    → p.submitting ≡ none
    → p.owed ≡ 0
    → (q : IndexBuilderThreadPool) × Steps p q
      × (q.stage ≡ notified)
      × ((r : IndexBuilderThreadPool) → Steps q r → get_elem? r.workers i ≡ some sleeping)
unfolding woken
shutdown_strands p i decided fresh nobody nothing =
    let raised : IndexBuilderThreadPool = record p { stage = flagged; shutdown = true } in
    let told : IndexBuilderThreadPool = record raised {
      stage = notified;
      workers = map woken p.workers;
    } in
    let asleep : IndexBuilderThreadPool = record told {
      workers = set (map woken p.workers) i sleeping;
    } in
    let still : get_elem? (map woken p.workers) i ≡ some deciding =
      get_elem?-map i p.workers deciding decided in
    (
      asleep,
      one_more p raised asleep (set_flag p fresh) (
          one_more raised told asleep (notify_all raised refl)
            (one_more told asleep asleep (sleep told i still) (here asleep))),
      refl,
      λ r run.
          (Steps-Stranded i asleep r run (record {
            flag = refl;
            told = refl;
            nobody = nobody;
            nothing_owed = nothing;
            asleep = get_elem?-set_found (map woken p.workers) i deciding sleeping still;
          })).asleep,
    )
