-- ===== src/Worker/Pool.antt =====
-- internal/worker/pool.go: the data of the pool and of its workers, its locks, and what scales it.
-- Every loop of the pool is a sequence of calls of these operations. A call reads the clock once.
-- The map of workers is a list, in the order of the iteration; the logger's calls are left out.
-- Ratios in floating point are fractions: on counts below 2^50 the comparisons with 0.8, 0.3 and
-- 0.5 are the same.
pub mod Scale
pub mod Work
pub mod Events
pub mod Rules
pub mod Lock
pub mod Deadlock
pub mod Lists
pub mod Starved
pub mod Standstill
pub mod Dispatch
pub mod Health
pub mod Fit
pub mod Always
pub mod Upkeep
pub mod Runs
use engine_api_workflow.Common.{
  ℕ, zero, suc, ◌+◌, ◌-◌, ◌*◌, ◌/◌, ℤ, pos, String, Bool, true, false, Option, none, some, List, [],
  ◌∷◌, ◌++◌, length, if◌then◌else◌, ltb, leb, ◌==◌, ◌&◌, decimal, ◌&&◌, is_some,
}
use engine_api_workflow.Models.Value.{second, minute}
use engine_api_workflow.Models.Task.{QueueTask}
use engine_api_workflow.Queue.Redis.{Result, ok, err}
use engine_api_workflow.Queue.Named.{Server, Json, queue_length}

pub record Fraction : Type 0 where
  pub top : ℕ
  pub bottom : ℕ

abbrev pub exceeds : Fraction → Fraction → Bool
exceeds a b = ltb (b.top * a.bottom) (a.top * b.bottom)

-- `time.Since`, with a clock that does not go back.
abbrev pub since : ℕ → ℕ → ℕ
since now t = now - t

pub record PoolWorkerStats : Type 0 where
  pub tasks_processed : ℕ
  pub tasks_succeeded : ℕ
  pub tasks_failed : ℕ
  pub last_task_time : ℕ
  pub total_run_time : ℕ
  pub is_idle : Bool
  pub average_task_time : ℕ
  pub tasks_per_second : Fraction
  pub error_rate : Fraction
  pub last_error_time : ℕ
  pub last_error : String

-- Where the goroutine of a worker is: between two tasks, or in processTaskEnhanced, with the start of
-- the task: in the task, past the section that counts its result, and past that of the deferred function.
pub data Activity : Type 0 where
  unoccupied : Activity
  occupied : QueueTask → ℕ → Activity
  closing : ℕ → Activity
  leaving : Activity

-- `waiting` is what the channel holds; `stopped` says that the stop channel is closed.
pub record Worker : Type 0 where
  pub id : ℕ
  pub waiting : List QueueTask
  pub capacity : ℕ
  pub activity : Activity
  pub stopped : Bool
  pub is_active : Bool
  pub stats : PoolWorkerStats
  pub start_time : ℕ
  pub last_heartbeat : ℕ
  pub is_healthy : Bool
  pub task_timeout : ℕ

pub record PoolConfig : Type 0 where
  pub scaling_interval : ℕ
  pub health_check_interval : ℕ
  pub task_channel_size : ℕ
  pub heartbeat_interval : ℕ
  pub max_idle_time : ℕ
  pub scaling_threshold : Fraction
  pub downscale_threshold : Fraction
  pub emergency_threshold : ℕ
  pub enable_auto_scaling : Bool
  pub enable_health_checks : Bool
  pub max_scaling_frequency : ℕ

pub record ScalingEvent : Type 0 where
  pub timestamp : ℕ
  pub action : String
  pub from_workers : ℕ
  pub to_workers : ℕ
  pub reason : String
  pub queue_length : ℕ
  pub avg_load : Fraction

pub record PoolMetrics : Type 0 where
  pub total_tasks_processed : ℕ
  pub total_tasks_succeeded : ℕ
  pub total_tasks_failed : ℕ
  pub average_process_time : ℕ
  pub throughput_per_second : Fraction
  pub up_time : ℕ
  pub last_reset_time : ℕ
  pub scaling_events : ℕ

pub record HealthStatus : Type 0 where
  pub is_healthy : Bool
  pub unhealthy_count : ℕ
  pub last_check_time : ℕ
  pub issues : List String

-- `locked` says that a goroutine holds workersMutex for writing, `doomed` are the workers that
-- removeWorker's goroutines are to delete, and `current_load` is the engine's counter.
pub record Pool : Type 0 where
  pub workers : List Worker
  pub max_workers : ℕ
  pub min_workers : ℕ
  pub is_running : Bool
  pub locked : Bool
  pub doomed : List ℕ
  pub scaling_history : List ScalingEvent
  pub last_scale_time : ℕ
  pub emergency_mode : Bool
  pub emergency_reason : String
  pub health : HealthStatus
  pub metrics : PoolMetrics
  pub config : PoolConfig
  pub current_load : ℤ

-- How a call ends: it returns, waits for ever for a lock, or panics.
pub data Ending {ℓ} (A : Type ℓ) : Type ℓ where
  ends : A → Ending A
  hangs : Ending A
  crashes : Ending A

abbrev pub Call : Type 0 → Type 0 → Type 0
Call S A = Pool → S → Ending A × (Pool × S)

module _ {S A B : Type 0} where
  abbrev pub go_on : Ending A → (A → Call S B) → Call S B
  go_on (ends a) f p s = f a p s
  go_on hangs f p s = (hangs, (p, s))
  go_on crashes f p s = (crashes, (p, s))

  infixl 10 ◌>>=◌ ◌>>◌
  unfoldable pub ◌>>=◌ : Call S A → (A → Call S B) → Call S B
  ◌>>=◌ m f p s = let (r, (q, t)) = m p s in go_on r f q t

  abbrev pub ◌>>◌ : Call S A → Call S B → Call S B
  m >> n = m >>= λ _. n

module _ {S : Type 0} where
  abbrev pub pure : {A : Type 0} → A → Call S A
  pure a p s = (ends a, (p, s))

  abbrev pub get_pool : Call S Pool
  get_pool p s = (ends p, (p, s))

  abbrev pub modify : (Pool → Pool) → Call S (Unit {0})
  modify f p s = (ends tt, (f p, s))

  -- RLock: a reader gives the lock back within its call.
  abbrev pub read_lock : Call S (Unit {0})
  read_lock p s = if p.locked then (hangs, (p, s)) else (ends tt, (p, s))

  abbrev pub lock : Call S (Unit {0})
  lock p s = if p.locked then (hangs, (p, s)) else (ends tt, (record p { locked = true }, s))

  abbrev pub unlock : Call S (Unit {0})
  unlock = modify λ p. record p { locked = false }

abbrev pub default_pool_config : PoolConfig
default_pool_config = record {
  scaling_interval = 30 * second;
  health_check_interval = 15 * second;
  task_channel_size = 10;
  heartbeat_interval = 30 * second;
  max_idle_time = 5 * minute;
  scaling_threshold = record { top = 4; bottom = 5 };
  downscale_threshold = record { top = 3; bottom = 10 };
  emergency_threshold = 100;
  enable_auto_scaling = true;
  enable_health_checks = true;
  max_scaling_frequency = minute;
}

abbrev pub new_worker_pool : ℕ → ℕ → ℕ → Pool
new_worker_pool min_workers max_workers now = record {
  workers = [];
  max_workers = max_workers;
  min_workers = min_workers;
  is_running = false;
  locked = false;
  doomed = [];
  scaling_history = [];
  last_scale_time = 0;
  emergency_mode = false;
  emergency_reason = "";
  health = record { is_healthy = true; unhealthy_count = 0; last_check_time = 0; issues = [] };
  metrics = record {
    total_tasks_processed = 0;
    total_tasks_succeeded = 0;
    total_tasks_failed = 0;
    average_process_time = 0;
    throughput_per_second = record { top = 0; bottom = 1 };
    up_time = 0;
    last_reset_time = now;
    scaling_events = 0;
  };
  config = default_pool_config;
  current_load = pos 0;
}
