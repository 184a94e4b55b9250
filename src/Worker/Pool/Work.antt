-- ===== src/Worker/Pool/Work.antt =====
-- internal/worker/pool.go: tasks are dispatched to workers and run by them, and the pool is started,
-- checked, measured and stopped. `engine.processTask` between the two halves of
-- processTaskEnhanced is in Worker/Engine: its error is the argument of `judge_task`.
use engine_api_workflow.Common.{
  ◌≡◌, refl, ℕ, zero, suc, ◌+◌, ◌*◌, ◌/◌, ◌+ℤ◌, ℤ, pos, negsuc, String, Bool, true, false, Option,
  none, some, List, [], ◌∷◌, ◌++◌, length, if◌then◌else◌, ltb, ◌==◌, ◌&◌, decimal, ◌&&◌,
}
use engine_api_workflow.Models.Value.{second}
use engine_api_workflow.Models.Task.{QueueTask}
use engine_api_workflow.Queue.Named.{Server, Json}
use engine_api_workflow.Worker.Pool.{
  Activity, unoccupied, occupied, closing, leaving, Pool, Fraction, exceeds, since, PoolWorkerStats,
  PoolMetrics, HealthStatus, Worker, Call, ◌>>=◌, ◌>>◌, pure, get_pool, modify, read_lock, lock,
  unlock,
}
use engine_api_workflow.Worker.Pool.Scale.{change_worker, drop_worker, create_worker, stop_worker}

-- The least loaded of the workers that are active and healthy, the first of equals; `best` is what
-- the loop has so far.
abbrev pub is_available : Worker → Bool
is_available w = w.is_active && w.is_healthy

abbrev pub is_better : Worker → Option Worker → Bool
is_better w none = true
is_better w (some best) = ltb (length w.waiting) (length best.waiting)

unfoldable pub best_from : Option Worker → List Worker → Option Worker
best_from best [] = best
best_from best (w ∷ ws) = best_from (if is_available w && is_better w best then some w else best) ws

abbrev pub has_room : Worker → Bool
has_room w = ltb (length w.waiting) w.capacity

abbrev pub with_task : QueueTask → Worker → Worker
with_task task w = record w { waiting = w.waiting ++ task ∷ [] }

-- performHealthCheck, worker by worker.
abbrev pub timeout_issue : Worker → String
timeout_issue w = "Worker " & (decimal w.id & ": heartbeat timeout")

-- The rate's text is left out.
abbrev pub rate_issue : Worker → String
rate_issue w = "Worker " & (decimal w.id & ": high error rate")

abbrev pub half : Fraction
half = record { top = 1; bottom = 2 }

abbrev pub issue_of : ℕ → ℕ → Worker → Option String
issue_of max_idle now w =
    if ltb max_idle (since now w.last_heartbeat)
    then some (timeout_issue w)
    else if exceeds w.stats.error_rate half
    then some (rate_issue w)
    else none

abbrev pub add_issue : Option String → List String → List String
add_issue none l = l
add_issue (some x) l = x ∷ l

unfoldable pub issues_of : ℕ → ℕ → List Worker → List String
issues_of max_idle now [] = []
issues_of max_idle now (w ∷ ws) = add_issue (issue_of max_idle now w) (issues_of max_idle now ws)

abbrev pub health_of : ℕ → ℕ → List Worker → HealthStatus
health_of max_idle now ws =
    let issues = issues_of max_idle now ws in
    record {
      is_healthy = length issues == 0;
      unhealthy_count = length issues;
      last_check_time = now;
      issues = issues;
    }

abbrev pub begin_check : ℕ → Pool → Pool
begin_check now p = record p { health = record p.health { last_check_time = now; issues = [] } }

-- updateMetrics
unfoldable pub total_of : (PoolWorkerStats → ℕ) → List Worker → ℕ
total_of f [] = 0
total_of f (w ∷ ws) = f w.stats + total_of f ws

abbrev pub per_second : ℕ → ℕ → Fraction
per_second n time = record { top = n * second; bottom = time }

-- The average and the throughput are set only when a task was processed.
abbrev pub measured : ℕ → ℕ → PoolMetrics → PoolMetrics
measured run_time time m =
    let n = m.total_tasks_processed in
    if ltb 0 n
    then record m { average_process_time = run_time / n; throughput_per_second = per_second n time }
    else m

unfoldable pub metrics_of : List Worker → ℕ → PoolMetrics → PoolMetrics
unfolding total_of
metrics_of ws now m =
    let time = since now m.last_reset_time in
    measured (total_of (λ w. w.total_run_time) ws) time (record m {
      total_tasks_processed = total_of (λ w. w.tasks_processed) ws;
      total_tasks_succeeded = total_of (λ w. w.tasks_succeeded) ws;
      total_tasks_failed = total_of (λ w. w.tasks_failed) ws;
      up_time = time;
    })

-- processTaskEnhanced up to the call of processTask, and from its return on.
abbrev pub begin_task : QueueTask → ℕ → Worker → Worker
begin_task task now w = record w {
  activity = occupied task now;
  stats = record w.stats { is_idle = false; last_task_time = now };
  last_heartbeat = now;
}

abbrev pub judge : Option String → ℕ → ℕ → Worker → Worker
judge (some msg) now started w = record w {
  activity = closing started;
  stats = record w.stats {
    tasks_failed = suc w.stats.tasks_failed;
    last_error = msg;
    last_error_time = now;
  };
  is_healthy = false;
}
judge none now started w = record w {
  activity = closing started;
  stats = record w.stats { tasks_succeeded = suc w.stats.tasks_succeeded };
  is_healthy = true;
}

-- The deferred function. Nothing is divided by a zero uptime.
abbrev pub rate_since : ℕ → ℕ → Fraction → Fraction
rate_since n zero f = f
rate_since n (suc time) f = per_second n (suc time)

abbrev pub account : ℕ → ℕ → Worker → Worker
account started now w =
    let n = suc w.stats.tasks_processed in
    let run_time = w.stats.total_run_time + since now started in
    record w {
      activity = leaving;
      stats = record w.stats {
        is_idle = true;
        tasks_processed = n;
        total_run_time = run_time;
        average_task_time = run_time / n;
        tasks_per_second = rate_since n (since now w.start_time) w.stats.tasks_per_second;
        error_rate = record { top = w.stats.tasks_failed; bottom = n };
      };
    }

-- What is done where the worker's goroutine is; the numbers are starts of tasks.
abbrev pub by_activity : {A : Type 0} → Activity → A → (ℕ → A) → (ℕ → A) → A → A
by_activity unoccupied a f g b = a
by_activity (occupied task started) a f g b = f started
by_activity (closing started) a f g b = g started
by_activity leaving a f g b = b

pub by_activity_lem {ℓ} :
    {A : Type 0} (P : A → Type ℓ) (x : Activity) {a b : A} {f g : ℕ → A}
    → (x ≡ unoccupied → P a)
    → ((task : QueueTask) (n : ℕ) → x ≡ occupied task n → P (f n))
    → ((n : ℕ) → x ≡ closing n → P (g n))
    → (x ≡ leaving → P b)
    → P (by_activity x a f g b)
by_activity_lem P unoccupied ha hf hg hb = ha refl
by_activity_lem P (occupied task n) ha hf hg hb = hf task n refl
by_activity_lem P (closing n) ha hf hg hb = hg n refl
by_activity_lem P leaving ha hf hg hb = hb refl

module _ (json : Json) (server : Server) where
  open server use {Store}

  abbrev pub set_worker : Worker → Call Store (Unit {0})
  set_worker w = modify (λ p. record p { workers = change_worker w p.workers })

  abbrev pub change_load : ℤ → Call Store (Unit {0})
  change_load n = modify (λ p. record p { current_load = p.current_load +ℤ n })

  abbrev pub skipped : ℕ → Call Store (Unit {0})
  skipped started = pure tt

  abbrev pub take_next : ℕ → Worker → List QueueTask → Call Store (Unit {0})
  take_next now w [] = pure tt
  take_next now w (task ∷ rest) = set_worker (begin_task task now (record w { waiting = rest }))

  unfoldable pub send_task : QueueTask → Option Worker → Call Store Bool
  unfolding change_worker
  send_task task none = pure false
  send_task task (some w) =
      if has_room w
      then set_worker (with_task task w) >> (change_load (pos 1) >> pure true)
      else pure false

  unfoldable pub dispatch_to_optimal_worker : QueueTask → Call Store Bool
  unfolding best_from send_task
  dispatch_to_optimal_worker task = do
    read_lock
    p ← get_pool
    send_task task (best_from none p.workers)

  unfoldable pub perform_health_check : ℕ → Call Store (Unit {0})
  unfolding issues_of
  perform_health_check now = do
    modify (begin_check now)
    read_lock
    modify (λ p. record p { health = health_of p.config.max_idle_time now p.workers })

  unfoldable pub update_metrics : ℕ → Call Store (Unit {0})
  unfolding metrics_of
  update_metrics now = do
    read_lock
    modify (λ p. record p { metrics = metrics_of p.workers now p.metrics })

  -- What a worker's own goroutines do: it starts, beats, takes a task, counts its result, adds it to its
  -- figures, and leaves it.
  -- They lock the worker, not the map.
  unfoldable pub run_worker : Worker → Call Store (Unit {0})
  unfolding change_worker
  run_worker w = set_worker (record w { is_active = true })

  unfoldable pub beat : ℕ → Worker → Call Store (Unit {0})
  unfolding change_worker
  beat now w = set_worker (record w { last_heartbeat = now })

  unfoldable pub take_task : ℕ → Worker → Call Store (Unit {0})
  unfolding change_worker
  take_task now w = by_activity w.activity (take_next now w w.waiting) skipped skipped (pure tt)

  -- The section after processTask returned.
  unfoldable pub judge_task : Option String → ℕ → Worker → Call Store (Unit {0})
  unfolding change_worker
  judge_task failure now w =
      by_activity w.activity (pure tt) (λ started. set_worker (judge failure now started w)) skipped
        (pure tt)

  -- The section of the deferred function.
  unfoldable pub account_task : ℕ → Worker → Call Store (Unit {0})
  unfolding change_worker
  account_task now w =
      by_activity w.activity (pure tt) skipped (λ started. set_worker (account started now w))
        (pure tt)

  -- The end of the deferred function.
  unfoldable pub leave_task : Worker → Call Store (Unit {0})
  unfolding change_worker
  leave_task w =
      by_activity w.activity (pure tt) skipped skipped
        (set_worker (record w { activity = unoccupied }) >> change_load (negsuc 0))

  -- The goroutine of removeWorker, five seconds later: it deletes without the lock.
  unfoldable pub delete_doomed : Call Store (Unit {0})
  unfolding drop_worker
  delete_doomed = do
    p ← get_pool
    elim p.doomed [
      | [] ↦ pure tt
      | id ∷ rest ↦ modify (λ q. record q { workers = drop_worker id q.workers; doomed = rest })
    ]

  -- The workers `i` to `i + n - 1` of Start.
  unfoldable pub create_from : ℕ → ℕ → ℕ → Call Store (Unit {0})
  unfolding create_worker
  create_from i zero now = pure tt
  create_from i (suc n) now = create_worker json server i now >> create_from (suc i) n now

  unfoldable pub start : ℕ → Call Store (Unit {0})
  unfolding create_from
  start now = do
    p ← get_pool
    modify
        (λ q. record q { is_running = true; metrics = record q.metrics { last_reset_time = now } })
    create_from 0 p.min_workers now

  unfoldable pub stop_all : List Worker → Call Store (Unit {0})
  unfolding stop_worker
  stop_all [] = pure tt
  stop_all (w ∷ ws) = stop_worker json server w >> stop_all ws

  -- The goroutine of Stop up to its `p.wg.Wait()`.
  unfoldable pub stop : Call Store (Unit {0})
  unfolding stop_all
  stop = do
    modify (λ q. record q { is_running = false })
    lock
    p ← get_pool
    stop_all p.workers
    unlock
