-- ===== src/Models/Task.antt =====
-- internal/models/queue.go: a task of the queue and the methods on it. `now` is what time.Now()
-- returns in the call; an `error` is its message. Counters are not negative.
pub mod Alias
pub mod Retry
pub mod Stamps
use engine_api_workflow.Common.{
  ℕ, zero, suc, ◌+◌, ℤ, pos, sub_ℕ, String, Bool, true, false, ◌&&◌, ◌||◌, Option, none, some, ltb,
  leb, ltb_ℤ, ◌==◌, if◌then◌else◌, str_eq, is_some, not,
}
use engine_api_workflow.Models.Value.{Fields}

pub data TaskStatus : Type 0 where
  pending queued processing completed failed cancelled retrying scheduled : TaskStatus

abbrev pub is_active : TaskStatus → Bool
is_active queued = true
is_active processing = true
is_active retrying = true
is_active _ = false

pub is_completed : TaskStatus → Bool
is_completed completed = true
is_completed failed = true
is_completed cancelled = true
is_completed _ = false

abbrev pub is_failed : TaskStatus → Bool
is_failed failed = true
is_failed _ = false

-- `TaskPriority.String`.
abbrev pub priority_name : ℤ → String
priority_name (pos p) =
    if p == 1
    then "low"
    else if p == 5
    then "normal"
    else if p == 8
    then "high"
    else if p == 10
    then "critical"
    else "normal"
priority_name _ = "normal"

-- The `Config` pointer, which none of the operations below reads, is left out.
pub record QueueTask : Type 0 where
  pub id : String
  pub workflow_id : String
  pub execution_id : Option String
  pub user_id : String
  pub task_name : String
  pub task_type : String
  pub status : TaskStatus
  pub priority : ℤ
  pub queue_name : String
  pub payload : Fields
  pub result : Option Fields
  pub scheduled_at : Option ℕ
  pub created_at : ℕ
  pub started_at : Option ℕ
  pub processed_at : Option ℕ
  pub completed_at : Option ℕ
  pub updated_at : ℕ
  pub attempts : ℕ
  pub max_attempts : ℕ
  pub retry_count : ℕ
  pub max_retries : ℕ
  pub last_attempt : Option ℕ
  pub next_retry : Option ℕ
  pub last_error : String
  pub error_message : String
  pub results : Option Fields
  pub kind : String

-- The `if x == 0 { x = y }` of the alias fields.
abbrev pub or_alias : ℕ → ℕ → ℕ
or_alias n m = if n == 0 then m else n

pub can_retry : QueueTask → Bool
can_retry t =
    is_failed t.status
    && ltb (or_alias t.retry_count t.attempts) (or_alias t.max_retries t.max_attempts)

abbrev pub or_else {ℓ} : {A : Type ℓ} → Option A → Option A → Option A
or_else none b = b
or_else (some a) b = some a

-- `startTime`: StartedAt, or else ProcessedAt.
abbrev pub start_time : QueueTask → Option ℕ
start_time t = or_else t.started_at t.processed_at

abbrev pub duration_between : Option ℕ → Option ℕ → Option ℤ
duration_between (some start) (some done) = some (sub_ℕ done start)
duration_between _ _ = none

abbrev pub get_duration : QueueTask → Option ℤ
get_duration t = duration_between (start_time t) t.completed_at

abbrev pub is_expired : QueueTask → ℤ → ℕ → Bool
is_expired t timeout now = elim (start_time t) [
  | none ↦ false
  | some start ↦ ltb_ℤ timeout (sub_ℕ now start)
]

abbrev pub get_wait_time : QueueTask → ℕ → ℤ
get_wait_time t now =
    let until = elim (start_time t) as (λ _. ℕ) [ none ↦ now | some start ↦ start ] in
    let since = elim t.scheduled_at as (λ _. ℕ) [ none ↦ t.created_at | some at ↦ at ] in
    sub_ℕ until since

pub update_status : TaskStatus → ℕ → QueueTask → QueueTask
update_status processing now t = record t {
  status = processing;
  updated_at = now;
  started_at = or_else t.started_at (some now);
  processed_at = or_else t.processed_at (some now);
}
update_status completed now t = record t {
  status = completed;
  updated_at = now;
  completed_at = or_else t.completed_at (some now);
}
update_status failed now t = record t {
  status = failed;
  updated_at = now;
  completed_at = or_else t.completed_at (some now);
}
update_status cancelled now t = record t {
  status = cancelled;
  updated_at = now;
  completed_at = or_else t.completed_at (some now);
}
update_status s now t = record t { status = s; updated_at = now }

pub add_error : String → ℕ → QueueTask → QueueTask
add_error msg now t =
    let u = record t {
      last_error = msg;
      error_message = msg;
      retry_count = t.retry_count + 1;
      attempts = t.attempts + 1;
      updated_at = now;
    } in
    if leb (or_alias u.max_retries u.max_attempts) u.retry_count
    then record u { status = failed; completed_at = some now }
    else record u { status = retrying; last_attempt = some now }

-- One block of SyncAliasFields: fill whichever of the two is empty from the other.
abbrev pub sync_counts : ℕ → ℕ → ℕ × ℕ
sync_counts a b = if a == 0 && ltb 0 b then (b, b) else if b == 0 && ltb 0 a then (a, a) else (a, b)

abbrev pub sync_texts : String → String → String × String
sync_texts a b =
    if str_eq a "" && not (str_eq b "")
    then (b, b)
    else if str_eq b "" && not (str_eq a "")
    then (a, a)
    else (a, b)

abbrev pub sync_maps : Option Fields → Option Fields → Option Fields × Option Fields
sync_maps none (some b) = (some b, some b)
sync_maps (some a) none = (some a, some a)
sync_maps a b = (a, b)

pub sync_alias_fields : QueueTask → QueueTask
sync_alias_fields t = record t {
  attempts = (sync_counts t.attempts t.retry_count).0;
  retry_count = (sync_counts t.attempts t.retry_count).1;
  max_attempts = (sync_counts t.max_attempts t.max_retries).0;
  max_retries = (sync_counts t.max_attempts t.max_retries).1;
  error_message = (sync_texts t.error_message t.last_error).0;
  last_error = (sync_texts t.error_message t.last_error).1;
  kind = (sync_texts t.kind t.task_type).0;
  task_type = (sync_texts t.kind t.task_type).1;
  results = (sync_maps t.results t.result).0;
  result = (sync_maps t.results t.result).1;
}
