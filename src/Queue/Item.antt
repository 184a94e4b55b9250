-- ===== src/Queue/Item.antt =====
-- internal/repository/redis/queue_repository.go: the items of the queue and their conversions.
use engine_api_workflow.Common.{
  has_underscore-append_right, true, has_underscore, ℕ, ℤ, String, ◌≡◌, Option, none, some, str_eq,
  if◌then◌else◌, decimal, has_underscore, has_underscore-append_right, has_underscore-underscore,
  true, ◌&◌,
}
use engine_api_workflow.Models.Value.{Fields}
use engine_api_workflow.Models.Task.{
  TaskStatus, pending, processing, completed, failed, cancelled, QueueTask, or_else,
}

-- `QueueItem`. The status is the text that the repository writes.
pub record QueueItem : Type 0 where
  pub id : String
  pub workflow_id : String
  pub execution_id : String
  pub user_id : String
  pub payload : Fields
  pub priority : ℤ
  pub max_retries : ℕ
  pub retry_count : ℕ
  pub created_at : ℕ
  pub processed_at : Option ℕ
  pub completed_at : Option ℕ
  pub failed_at : Option ℕ
  pub error : String
  pub status : String
  pub delay_until : Option ℕ

-- encoding/json on items: what was written reads back, and whether an item can be written depends
-- on its payload alone, the one field that can hold any value.
pub record Codec : Type 0 where
  pub marshal : QueueItem → Option String
  pub unmarshal : String → Option QueueItem
  pub unmarshal-marshal : (i : QueueItem) (m : String) → marshal i ≡ some m → unmarshal m ≡ some i
  pub marshal_payload :
      (i j : QueueItem) (m : String)
      → i.payload ≡ j.payload
      → marshal i ≡ some m
      → (n : String) × (marshal j ≡ some n)

-- `fmt.Sprintf("%s_%d", executionID, time.Now().UnixNano())`; the clock counts from year 1.
unfoldable pub item_id : String → ℕ → String
item_id execution_id nanos = execution_id & ("_" & decimal nanos)

pub has_underscore-item_id :
    (execution_id : String) (nanos : ℕ) → has_underscore (item_id execution_id nanos) ≡ true
unfolding item_id
has_underscore-item_id execution_id nanos =
    has_underscore-append_right execution_id ("_" & decimal nanos)
      (has_underscore-underscore (decimal nanos))

-- `stringToTaskStatus`; "queued" is mapped to pending.
unfoldable pub string_to_task_status : String → TaskStatus
string_to_task_status s =
    if str_eq s "pending"
    then pending
    else if str_eq s "processing"
    then processing
    else if str_eq s "completed"
    then completed
    else if str_eq s "failed"
    then failed
    else if str_eq s "cancelled"
    then cancelled
    else if str_eq s "queued"
    then pending
    else pending

-- `convertQueueItemToTask`: the task gets the fresh ObjectID `new_id`, not the item's ID.
unfoldable pub convert_queue_item_to_task : String → ℕ → QueueItem → QueueTask
convert_queue_item_to_task new_id now item = record {
  id = new_id;
  workflow_id = item.workflow_id;
  execution_id = some item.execution_id;
  user_id = item.user_id;
  task_name = "workflow_execution";
  task_type = "workflow";
  status = string_to_task_status item.status;
  priority = item.priority;
  queue_name = "main";
  payload = item.payload;
  result = none;
  scheduled_at = none;
  created_at = item.created_at;
  started_at = item.processed_at;
  processed_at = none;
  completed_at = or_else item.failed_at item.completed_at;
  updated_at = now;
  attempts = item.retry_count;
  max_attempts = item.max_retries;
  retry_count = 0;
  max_retries = 0;
  last_attempt = none;
  next_retry = none;
  last_error = "";
  error_message = item.error;
  results = none;
  kind = "";
}
