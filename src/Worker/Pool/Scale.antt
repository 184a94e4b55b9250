-- ===== src/Worker/Pool/Scale.antt =====
-- internal/worker/pool.go: workers are created and removed, and the pool is scaled.
use engine_api_workflow.Common.{
  ℕ, suc, ◌+◌, ◌-◌, ◌*◌, String, true, false, Option, none, some, List, [], ◌∷◌, ◌++◌, length,
  if◌then◌else◌, ltb, leb, ◌==◌, ◌&◌, decimal, ◌&&◌,
}
use engine_api_workflow.Models.Value.{minute}
use engine_api_workflow.Queue.Redis.{Result, ok, err}
use engine_api_workflow.Queue.Named.{Server, Json, queue_length}
use engine_api_workflow.Worker.Pool.{
  unoccupied, Fraction, exceeds, since, PoolWorkerStats, Worker, ScalingEvent, Pool, Call, ends,
  crashes, ◌>>=◌, ◌>>◌, pure, get_pool, modify, read_lock, lock, unlock,
}

abbrev pub new_stats : PoolWorkerStats
new_stats = record {
  tasks_processed = 0;
  tasks_succeeded = 0;
  tasks_failed = 0;
  last_task_time = 0;
  total_run_time = 0;
  is_idle = true;
  average_task_time = 0;
  tasks_per_second = record { top = 0; bottom = 1 };
  error_rate = record { top = 0; bottom = 1 };
  last_error_time = 0;
  last_error = "";
}

-- The worker that createWorker makes; `Run` will set `is_active`.
abbrev pub new_worker : ℕ → ℕ → ℕ → Worker
new_worker id capacity now = record {
  id = id;
  waiting = [];
  capacity = capacity;
  activity = unoccupied;
  stopped = false;
  is_active = false;
  stats = new_stats;
  start_time = now;
  last_heartbeat = now;
  is_healthy = true;
  task_timeout = 30 * minute;
}

-- An entry of the map is set: the worker of that id, if there is one, is replaced.
unfoldable pub put_worker : Worker → List Worker → List Worker
put_worker w [] = w ∷ []
put_worker w (v ∷ ws) = let rest = put_worker w ws in if v.id == w.id then w ∷ ws else v ∷ rest

-- The worker of that id is changed in place, if the map has it.
unfoldable pub change_worker : Worker → List Worker → List Worker
change_worker w [] = []
change_worker w (v ∷ ws) =
    let rest = change_worker w ws in if v.id == w.id then w ∷ ws else v ∷ rest

unfoldable pub find_worker : ℕ → List Worker → Option Worker
find_worker id [] = none
find_worker id (w ∷ ws) = let rest = find_worker id ws in if w.id == id then some w else rest

unfoldable pub drop_worker : ℕ → List Worker → List Worker
drop_worker id [] = []
drop_worker id (w ∷ ws) = let rest = drop_worker id ws in if w.id == id then ws else w ∷ rest

unfoldable pub total_waiting : List Worker → ℕ
total_waiting [] = 0
total_waiting (w ∷ ws) = length w.waiting + total_waiting ws

abbrev pub average : List Worker → Fraction
average [] = record { top = 0; bottom = 1 }
average (w ∷ ws) = record { top = total_waiting (w ∷ ws); bottom = length (w ∷ ws) }

-- One more than the largest id, which is -1 when there is none.
unfoldable pub get_next_worker_id : List Worker → ℕ
get_next_worker_id [] = 0
get_next_worker_id (w ∷ ws) =
    let rest = get_next_worker_id ws in if leb rest w.id then suc w.id else rest

-- The worker that started first: `oldest` and its start are what the loop has so far.
abbrev pub older : Worker → Option Worker → Worker
older w none = w
older w (some oldest) = if ltb w.start_time oldest.start_time then w else oldest

unfoldable pub oldest_from : Option Worker → List Worker → Option Worker
oldest_from oldest [] = oldest
oldest_from oldest (w ∷ ws) = oldest_from (some (older w oldest)) ws

abbrev pub stop_flags : Worker → Worker
stop_flags w = record w { is_active = false; stopped = true }

abbrev pub length_or_zero : Result ℕ → ℕ
length_or_zero (ok n) = n
length_or_zero (err e) = 0

abbrev pub drop_event : {A : Type 0} → List A → List A
drop_event [] = []
drop_event (x ∷ xs) = xs

abbrev pub capped : List ScalingEvent → List ScalingEvent
capped l = if ltb 100 (length l) then drop_event l else l

abbrev pub recorded : ScalingEvent → Pool → Pool
recorded event p = record p {
  scaling_history = capped (p.scaling_history ++ event ∷ []);
  metrics = record p.metrics { scaling_events = suc p.metrics.scaling_events };
}

abbrev pub activate_emergency_mode : String → Pool → Pool
activate_emergency_mode reason p =
    if p.emergency_mode then p else record p { emergency_mode = true; emergency_reason = reason }

abbrev pub deactivate_emergency_mode : Pool → Pool
deactivate_emergency_mode p =
    if p.emergency_mode then record p { emergency_mode = false; emergency_reason = "" } else p

module _ (json : Json) (server : Server) where
  open server use {Store}

  unfoldable pub get_queue_length : Call Store ℕ
  unfolding queue_length
  get_queue_length p s =
      let (r, t) = queue_length json server "workflow_queue" s in (ends (length_or_zero r), (p, t))

  unfoldable pub calculate_average_load : Call Store Fraction
  calculate_average_load = do read_lock; p ← get_pool; pure (average p.workers)

  unfoldable pub get_worker_count : Call Store ℕ
  get_worker_count = do read_lock; p ← get_pool; pure (length p.workers)

  unfoldable pub record_scaling_event : String → ℕ → ℕ → String → ℕ → Call Store (Unit {0})
  unfolding get_queue_length calculate_average_load
  record_scaling_event action from to reason now = do
    n ← get_queue_length
    load ← calculate_average_load
    modify (
        recorded (record {
          timestamp = now;
          action = action;
          from_workers = from;
          to_workers = to;
          reason = reason;
          queue_length = n;
          avg_load = load;
        }))

  unfoldable pub create_worker : ℕ → ℕ → Call Store (Unit {0})
  unfolding record_scaling_event put_worker
  create_worker id now = do
    lock
    modify (λ p. record p {
      workers = put_worker (new_worker id p.config.task_channel_size now) p.workers;
    })
    unlock
    p ← get_pool
    record_scaling_event "scale_up" (length p.workers - 1) (length p.workers) "worker_created" now

  -- `Worker.Stop`: a channel is closed once.
  unfoldable pub stop_worker : Worker → Call Store (Unit {0})
  unfolding change_worker
  stop_worker w =
      if w.stopped
      then (λ p s. (crashes, (p, s)))
      else modify (λ p. record p { workers = change_worker (stop_flags w) p.workers })

  -- The lock is held to the end of the call.
  unfoldable pub remove_worker : ℕ → ℕ → Call Store (Unit {0})
  unfolding find_worker stop_worker record_scaling_event
  remove_worker id now = do
    lock
    p ← get_pool
    elim (find_worker id p.workers) [
      | none ↦ pure tt
      | some w ↦ do
        stop_worker w
        modify (λ q. record q { doomed = id ∷ q.doomed })
        record_scaling_event "scale_down" (length p.workers) (length p.workers - 1) "worker_removed"
            now
    ]
    unlock

  unfoldable pub scale_up : String → ℕ → Call Store (Unit {0})
  unfolding get_worker_count create_worker get_next_worker_id
  scale_up reason now = do
    count ← get_worker_count
    p ← get_pool
    if leb p.max_workers count then pure tt else create_worker (get_next_worker_id p.workers) now

  unfoldable pub scale_down : String → ℕ → Call Store (Unit {0})
  unfolding get_worker_count remove_worker oldest_from
  scale_down reason now = do
    count ← get_worker_count
    p ← get_pool
    if leb count p.min_workers then pure tt else (elim (oldest_from none p.workers) [
      | none ↦ pure tt
      | some w ↦ remove_worker w.id now
    ])

  abbrev pub scaled_at : ℕ → Pool → Pool
  scaled_at now p = record p { last_scale_time = now }

  unfoldable pub scale_by_load : Fraction → ℕ → ℕ → Call Store (Unit {0})
  unfolding scale_up scale_down
  scale_by_load load count now = do
    p ← get_pool
    if exceeds load p.config.scaling_threshold && ltb count p.max_workers
        then scale_up "high_average_load" now >> modify (scaled_at now)
        else if exceeds p.config.downscale_threshold load && ltb p.min_workers count
        then scale_down "low_average_load" now >> modify (scaled_at now)
        else pure tt

  abbrev pub emergency_text : ℕ → String
  emergency_text n = "queue length exceeded threshold: " & decimal n

  unfoldable pub evaluate_load : ℕ → Call Store (Unit {0})
  unfolding calculate_average_load get_queue_length get_worker_count scale_up scale_by_load
  evaluate_load now = do
    load ← calculate_average_load
    n ← get_queue_length
    count ← get_worker_count
    p ← get_pool
    if ltb p.config.emergency_threshold n
        then modify (activate_emergency_mode (emergency_text n))
          >> scale_up "emergency_high_queue" now
        else modify deactivate_emergency_mode >> scale_by_load load count now

  unfoldable pub evaluate_and_scale : ℕ → Call Store (Unit {0})
  unfolding evaluate_load
  evaluate_and_scale now = do
    p ← get_pool
    if ltb (since now p.last_scale_time) p.config.max_scaling_frequency
        then pure tt
        else evaluate_load now
