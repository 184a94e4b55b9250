-- ===== src/Queue/Pipelines.antt =====
-- internal/repository/redis/queue_repository.go: what the operations of the repository write, the
-- changed items and the pipelines of commands, and the loops over the members of a set. `now` is
-- the clock's reading in the call, and delays are not negative. A score is a whole number of
-- seconds or a negated priority.
use engine_api_workflow.Common.{
  ℕ, ◌+◌, ℤ, pos, negsuc, neg, String, List, [], ◌∷◌, ◌++◌, Bool, false, Option, none, some, ltb,
  if◌then◌else◌, str_eq,
}
use engine_api_workflow.Models.Value.{Fields, unix}
use engine_api_workflow.Queue.Item.{QueueItem, Codec, item_id}
use engine_api_workflow.Queue.Redis.{
  workflow_queue, delayed_queue, processing_set, completed_set, failed_set, queued, total, delayed,
  processing, completed, failed, retries, Command, zadd, zrem, sadd, srem, hincrby,
}

abbrev pub one : ℤ
one = pos 1

abbrev pub minus_one : ℤ
minus_one = negsuc 0

-- The item that Enqueue and EnqueueDelayed build.
abbrev pub new_item : String → String → String → Fields → ℤ → ℕ → String → Option ℕ → QueueItem
new_item workflow_id execution_id user_id payload priority now status delay_until = record {
  id = item_id execution_id now;
  workflow_id = workflow_id;
  execution_id = execution_id;
  user_id = user_id;
  payload = payload;
  priority = priority;
  max_retries = 3;
  retry_count = 0;
  created_at = now;
  processed_at = none;
  completed_at = none;
  failed_at = none;
  error = "";
  status = status;
  delay_until = delay_until;
}

-- Changes that the operations make to an item before it is written back.
abbrev pub as_processing : ℕ → QueueItem → QueueItem
as_processing now i = record i { status = "processing"; processed_at = some now }

abbrev pub as_released : QueueItem → QueueItem
as_released i = record i { status = "queued"; delay_until = none }

abbrev pub as_completed : ℕ → QueueItem → QueueItem
as_completed now i = record i { status = "completed"; completed_at = some now }

abbrev pub as_failed : ℕ → QueueItem → QueueItem
as_failed now i = record i { status = "failed"; failed_at = some now }

abbrev pub as_retry : String → QueueItem → QueueItem
as_retry msg i = record i {
  retry_count = i.retry_count + 1;
  status = "queued";
  error = msg;
  processed_at = none;
}

abbrev pub as_requeued : QueueItem → QueueItem
as_requeued i = record i { status = "queued"; processed_at = none; retry_count = i.retry_count + 1 }

abbrev pub as_timed_out : ℕ → QueueItem → QueueItem
as_timed_out now i = record i {
  status = "failed";
  failed_at = some now;
  error = "Processing timeout - maximum retries exceeded";
}

abbrev pub as_restarted : QueueItem → QueueItem
as_restarted i = record i {
  status = "queued";
  retry_count = 0;
  error = "";
  failed_at = none;
  processed_at = none;
}

abbrev pub with_status : String → String → QueueItem → QueueItem
with_status status msg i = record i {
  status = status;
  error = if str_eq msg "" then i.error else msg;
}

-- The pipelines that the operations send.
abbrev pub enqueue_commands : ℤ → String → List Command
enqueue_commands priority m =
    zadd workflow_queue (neg priority) m ∷ hincrby queued one ∷ hincrby total one ∷ []

abbrev pub delay_commands : ℕ → String → List Command
delay_commands score m =
    zadd delayed_queue (pos score) m ∷ hincrby delayed one ∷ hincrby total one ∷ []

abbrev pub start_commands : String → List Command
start_commands m = sadd processing_set m ∷ hincrby queued minus_one ∷ hincrby processing one ∷ []

abbrev pub release_commands : QueueItem → String → String → List Command
release_commands i m n =
    zrem delayed_queue m
    ∷ zadd workflow_queue (neg i.priority) n
    ∷ hincrby delayed minus_one
    ∷ hincrby queued one
    ∷ []

abbrev pub completed_commands : String → String → List Command
completed_commands m n =
    srem processing_set m
    ∷ sadd completed_set n
    ∷ hincrby processing minus_one
    ∷ hincrby completed one
    ∷ []

abbrev pub failed_commands : String → String → List Command
failed_commands m n =
    srem processing_set m
    ∷ sadd failed_set n
    ∷ hincrby processing minus_one
    ∷ hincrby failed one
    ∷ []

-- requeueForRetry: with a delay, and without.
abbrev pub retry_later_commands : ℕ → String → String → List Command
retry_later_commands score m n =
    srem processing_set m
    ∷ zadd delayed_queue (pos score) n
    ∷ hincrby delayed one
    ∷ hincrby processing minus_one
    ∷ hincrby retries one
    ∷ []

abbrev pub retry_now_commands : QueueItem → String → String → List Command
retry_now_commands i m n =
    srem processing_set m
    ∷ zadd workflow_queue (neg i.priority) n
    ∷ hincrby queued one
    ∷ hincrby processing minus_one
    ∷ hincrby retries one
    ∷ []

abbrev pub retry_commands : ℕ → QueueItem → ℕ → String → String → List Command
retry_commands delay i now m n =
    if ltb 0 delay then retry_later_commands (unix (now + delay)) m n else retry_now_commands i m n

-- The cleanup of a stale item: back into the queue, or failed.
abbrev pub expire_retry_commands : QueueItem → String → String → List Command
expire_retry_commands i m n =
    srem processing_set m
    ∷ zadd workflow_queue (neg i.priority) n
    ∷ hincrby queued one
    ∷ hincrby processing minus_one
    ∷ []

abbrev pub expire_fail_commands : String → String → List Command
expire_fail_commands m f =
    srem processing_set m
    ∷ sadd failed_set f
    ∷ hincrby failed one
    ∷ hincrby processing minus_one
    ∷ []

abbrev pub restart_commands : QueueItem → String → String → List Command
restart_commands i m n =
    srem failed_set m
    ∷ zadd workflow_queue (neg i.priority) n
    ∷ hincrby failed minus_one
    ∷ hincrby queued one
    ∷ []

module _ (codec : Codec) where
  open codec use {marshal, unmarshal}

  -- `for _, member := range members.Val()`: the first that decodes to an item with this ID.
  unfoldable pub find_item : String → List String → Option (String × QueueItem)
  find_item task_id [] = none
  find_item task_id (m ∷ ms) = elim (unmarshal m) [
    | none ↦ find_item task_id ms
    | some i ↦ if str_eq i.id task_id then some (m, i) else find_item task_id ms
  ]

  -- One round of the loop of moveDelayedToQueue.
  unfoldable pub release_one : String → List Command
  release_one m = elim (unmarshal m) [
    | none ↦ []
    | some i ↦ elim (marshal (as_released i)) [ none ↦ [] | some n ↦ release_commands i m n ]
  ]

  unfoldable pub release_all : List String → List Command
  unfolding release_one
  release_all [] = []
  release_all (m ∷ ms) = release_one m ++ release_all ms

  -- `item.ProcessedAt != nil && item.ProcessedAt.Before(staleThreshold)`.
  abbrev pub is_stale : ℕ → ℕ → QueueItem → Bool
  is_stale timeout now i = elim i.processed_at [
    | none ↦ false
    | some started ↦ ltb (started + timeout) now
  ]

  -- One round of the loop of CleanupStaleProcessing: the commands, and by how much staleCount grows.
  abbrev pub expire_one : ℕ → QueueItem → String → String → List Command × ℕ
  expire_one now i m n =
      if ltb (i.retry_count + 1) i.max_retries
      then (expire_retry_commands i m n, 1)
      else elim (marshal (as_timed_out now (as_requeued i))) [
        | none ↦ (srem processing_set m ∷ [], 0)
        | some f ↦ (expire_fail_commands m f, 1)
      ]

  unfoldable pub clean_one : ℕ → ℕ → String → List Command × ℕ
  clean_one timeout now m = elim (unmarshal m) [
    | none ↦ ([], 0)
    | some i ↦
        if is_stale timeout now i
        then elim (marshal (as_requeued i)) [ none ↦ ([], 0) | some n ↦ expire_one now i m n ]
        else ([], 0)
  ]

  unfoldable pub clean_all : ℕ → ℕ → List String → List Command × ℕ
  unfolding clean_one
  clean_all timeout now [] = ([], 0)
  clean_all timeout now (m ∷ ms) =
      let (cs, n) = clean_one timeout now m in
      let (ds, k) = clean_all timeout now ms in (cs ++ ds, n + k)
