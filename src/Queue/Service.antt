-- ===== src/Queue/Service.antt =====
-- internal/services/queue_service.go: tasks in lists under names, by priority, and in one sorted set
-- of those for later. The server is that of Queue/Named; encoding/json on its tasks is a parameter.
pub mod Rounds
pub mod Travel
use engine_api_workflow.Common.{
  ℕ, ◌+◌, ℤ, pos, String, ◌≡◌, Bool, true, false, List, [], ◌∷◌, Option, none, some, str_eq,
  if◌then◌else◌, ◌&◌, decimal, leb, ◌==◌, zero, suc,
}
use engine_api_workflow.Models.Value.{Value, Fields, field, end, text, object, unix}
use engine_api_workflow.Queue.Redis.{
  Exec, Result, ok, err, ◌>>=◌, ◌>>◌, pure, or_raise, ignore_error, marshal_failed,
  unmarshal_failed,
}
use engine_api_workflow.Queue.Named.{Server, lpush, zadd, zrem, del}

-- `QueueTask` of this file. A nil `scheduled_at` is `none`, a zero `created_at` is 0.
pub record ServiceTask : Type 0 where
  pub id : String
  pub kind : String
  pub payload : Fields
  pub retry_count : ℕ
  pub max_retries : ℕ
  pub created_at : ℕ
  pub scheduled_at : Option ℕ

abbrev pub task_type_workflow_execution : String
task_type_workflow_execution = "workflow_execution"

abbrev pub task_type_notification : String
task_type_notification = "notification"

abbrev pub queue_high : String
queue_high = "queue:high"

abbrev pub queue_default : String
queue_default = "queue:default"

abbrev pub queue_low : String
queue_low = "queue:low"

abbrev pub queue_scheduled : String
queue_scheduled = "queue:scheduled"

abbrev pub queue_failed : String
queue_failed = "queue:failed"

-- encoding/json on tasks: what was written reads back.
pub record TaskJson : Type 0 where
  pub marshal : ServiceTask → Option String
  pub unmarshal : String → Option ServiceTask
  pub unmarshal-marshal : (t : ServiceTask) (m : String) → marshal t ≡ some m → unmarshal m ≡ some t

-- The fields that EnqueueTask sets where they are empty.
abbrev pub with_id : ℕ → ServiceTask → ServiceTask
with_id now t = if str_eq t.id "" then record t { id = t.kind & ("_" & decimal now) } else t

abbrev pub with_created : ℕ → ServiceTask → ServiceTask
with_created now t = if t.created_at == 0 then record t { created_at = now } else t

abbrev pub with_max : ServiceTask → ServiceTask
with_max t = if t.max_retries == 0 then record t { max_retries = 3 } else t

abbrev pub filled : ℕ → ServiceTask → ServiceTask
filled now t = with_max (with_created now (with_id now t))

-- Where RetryFailedTask sends a task, and as what.
abbrev pub retried : ServiceTask → String × ServiceTask
retried t =
    if leb t.max_retries t.retry_count
    then (queue_failed, t)
    else (queue_low, record t { retry_count = suc t.retry_count })

abbrev pub take_at_most : ℕ → List String → List String
take_at_most zero l = []
take_at_most (suc n) [] = []
take_at_most (suc n) (x ∷ l) = x ∷ take_at_most n l

abbrev pub names_or_default : List String → List String
names_or_default [] = queue_high ∷ queue_default ∷ queue_low ∷ []
names_or_default (k ∷ ks) = k ∷ ks

abbrev pub queue_for : ServiceTask → String
queue_for t = if str_eq t.kind task_type_workflow_execution then queue_high else queue_default

module _ (json : TaskJson) (server : Server) where
  open json use {marshal, unmarshal}
  open server use {Store, exec, brpop, zrange_by_score}

  unfoldable pub enqueue_task : String → ServiceTask → ℕ → Exec Store (Unit {0})
  enqueue_task queue_name task now = do
    m ← or_raise (marshal (filled now task)) marshal_failed
    exec (lpush queue_name m ∷ [])

  -- No task in 30 seconds is no error.
  unfoldable pub dequeue_task : List String → Exec Store (Option ServiceTask)
  dequeue_task queue_names = do
    popped ← brpop (names_or_default queue_names)
    elim popped [
      | none ↦ pure none
      | some (k, m) ↦ do task ← or_raise (unmarshal m) unmarshal_failed; pure (some task)
    ]

  abbrev pub new_task : String → Fields → ServiceTask
  new_task kind payload = record {
    id = "";
    kind = kind;
    payload = payload;
    retry_count = 0;
    max_retries = 0;
    created_at = 0;
    scheduled_at = none;
  }

  unfoldable pub enqueue_workflow_execution : String → Fields → ℕ → Exec Store (Unit {0})
  unfolding enqueue_task
  enqueue_workflow_execution workflow_id trigger_data now =
      enqueue_task queue_high
        (new_task task_type_workflow_execution
          (field "workflow_id" (text workflow_id) (field "trigger_data" (object trigger_data) end)))
        now

  unfoldable pub enqueue_notification :
      String → String → String → Fields → ℕ → Exec Store (Unit {0})
  unfolding enqueue_task
  enqueue_notification kind recipient message metadata now =
      enqueue_task queue_default
        (new_task task_type_notification (
          field "notification_type" (text kind) (
            field "recipient" (text recipient)
              (field "message" (text message) (field "metadata" (object metadata) end)))))
        now

  unfoldable pub schedule_task : ServiceTask → ℕ → Exec Store (Unit {0})
  schedule_task task execute_at = do
    m ← or_raise (marshal (record task { scheduled_at = some execute_at })) marshal_failed
    exec (zadd queue_scheduled (pos (unix execute_at)) m ∷ [])

  -- A task that cannot be read, removed or enqueued is logged, and the next one is taken.
  unfoldable pub move_task : String → ℕ → Exec Store (Unit {0})
  unfolding enqueue_task
  move_task m now = do
    task ← or_raise (unmarshal m) unmarshal_failed
    exec (zrem queue_scheduled m ∷ [])
    enqueue_task (queue_for task) task now

  unfoldable pub move_tasks : List String → ℕ → Exec Store (Unit {0})
  unfolding move_task
  move_tasks [] now = pure tt
  move_tasks (m ∷ ms) now = ignore_error (move_task m now) >> move_tasks ms now

  unfoldable pub process_scheduled_tasks : ℕ → Exec Store (Unit {0})
  unfolding move_tasks
  process_scheduled_tasks now = do
    ms ← zrange_by_score queue_scheduled (pos 0) (pos (unix now))
    move_tasks (take_at_most 100 ms) now

  unfoldable pub retry_failed_task : ServiceTask → ℕ → Exec Store (Unit {0})
  unfolding enqueue_task
  retry_failed_task task now = let (k, t) = retried task in enqueue_task k t now

  unfoldable pub clear_queue : String → Exec Store (Unit {0})
  clear_queue queue_name = exec (del queue_name ∷ [])
