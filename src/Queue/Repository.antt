-- ===== src/Queue/Repository.antt =====
-- internal/repository/redis/queue_repository.go: the operations of the queue repository, each the
-- calls that it makes in their order.
use engine_api_workflow.Common.{
  ℕ, ◌+◌, ◌-◌, ◌*◌, ℤ, pos, String, [], ◌∷◌, Option, none, some, ltb, leb, if◌then◌else◌,
}
use engine_api_workflow.Models.Value.{Fields, second, unix}
use engine_api_workflow.Models.Task.{QueueTask}
use engine_api_workflow.Queue.Item.{QueueItem, Codec, convert_queue_item_to_task}
use engine_api_workflow.Queue.Redis.{
  Redis, Exec, ok, err, queue_empty, task_not_found, marshal_failed, unmarshal_failed,
  not_implemented, ◌>>=◌, ◌>>◌, pure, raise, or_raise, ignore_error, workflow_queue, delayed_queue,
  SetKey, processing_set, completed_set, failed_set, sadd, srem,
}
use engine_api_workflow.Queue.Pipelines.{
  new_item, as_processing, as_completed, as_failed, as_retry, as_restarted, with_status,
  enqueue_commands, delay_commands, start_commands, completed_commands, failed_commands,
  retry_commands, restart_commands, find_item, release_all, clean_all,
}

module _ (codec : Codec) (redis : Redis) where
  open codec use {marshal, unmarshal}
  open redis use {Store, exec, zpop_min, zrange_first, zrange_by_score, smembers}

  unfoldable pub enqueue : String → String → String → Fields → ℤ → ℕ → Exec Store (Unit {0})
  enqueue workflow_id execution_id user_id payload priority now = do
    m ←
        or_raise
          (marshal (new_item workflow_id execution_id user_id payload priority now "queued" none))
          marshal_failed
    exec (enqueue_commands priority m)

  unfoldable pub enqueue_delayed :
      String → String → String → Fields → ℤ → ℕ → ℕ → Exec Store (Unit {0})
  enqueue_delayed workflow_id execution_id user_id payload priority delay now = do
    m ←
        or_raise
          (marshal (
            new_item workflow_id execution_id user_id payload priority now "delayed"
              (some (now + delay))))
          marshal_failed
    exec (delay_commands (unix (now + delay)) m)

  unfoldable pub enqueue_at : String → String → String → Fields → ℤ → ℕ → ℕ → Exec Store (Unit {0})
  enqueue_at workflow_id execution_id user_id payload priority scheduled_at now =
      if leb scheduled_at now
      then enqueue workflow_id execution_id user_id payload priority now
      else enqueue_delayed workflow_id execution_id user_id payload priority (scheduled_at - now)
          now

  unfoldable pub move_delayed_to_queue : ℕ → Exec Store (Unit {0})
  move_delayed_to_queue now = do
    ms ← zrange_by_score delayed_queue (pos 0) (pos (unix now))
    elim ms [ [] ↦ pure tt | m ∷ rest ↦ exec (release_all codec (m ∷ rest)) ]

  -- What Dequeue does with the member that ZPOPMIN gave.
  unfoldable pub start_item : String → ℕ → String → Exec Store QueueTask
  start_item new_id now m = do
    i ← or_raise (unmarshal m) unmarshal_failed
    n ← or_raise (marshal (as_processing now i)) marshal_failed
    exec (start_commands n)
    pure (convert_queue_item_to_task new_id now (as_processing now i))

  -- `new_id` is the ObjectID that the conversion makes.
  unfoldable pub dequeue : String → ℕ → Exec Store QueueTask
  dequeue new_id now = do
    ignore_error (move_delayed_to_queue now)
    popped ← zpop_min workflow_queue
    m ← or_raise popped queue_empty
    start_item new_id now m

  unfoldable pub mark_completed : String → ℕ → Exec Store (Unit {0})
  mark_completed task_id now = do
    ms ← smembers processing_set
    (m, i) ← or_raise (find_item codec task_id ms) task_not_found
    n ← or_raise (marshal (as_completed now i)) marshal_failed
    exec (completed_commands m n)

  -- `moveFromProcessing(ctx, taskID, FailedSet, "failed")`.
  unfoldable pub move_to_failed : String → ℕ → Exec Store (Unit {0})
  move_to_failed task_id now = do
    ms ← smembers processing_set
    (m, i) ← or_raise (find_item codec task_id ms) task_not_found
    n ← or_raise (marshal (as_failed now i)) marshal_failed
    exec (failed_commands m n)

  -- The delay grows with the square of the new retry count.
  unfoldable pub requeue_for_retry : QueueItem → String → String → ℕ → Exec Store (Unit {0})
  requeue_for_retry i m msg now = do
    n ← or_raise (marshal (as_retry msg i)) marshal_failed
    exec (retry_commands ((i.retry_count + 1) * (i.retry_count + 1) * second) i now m n)

  unfoldable pub mark_failed : String → Option String → ℕ → Exec Store (Unit {0})
  mark_failed task_id cause now = do
    ms ← smembers processing_set
    (m, i) ← or_raise (find_item codec task_id ms) task_not_found
    if ltb i.retry_count i.max_retries
        then requeue_for_retry i m (elim cause [ none ↦ "" | some msg ↦ msg ]) now
        else move_to_failed task_id now

  -- CleanupStaleProcessingTasks; CleanupStaleProcessing is the same without the count.
  unfoldable pub cleanup_stale_processing_tasks : ℕ → ℕ → Exec Store ℕ
  cleanup_stale_processing_tasks timeout now = do
    ms ← smembers processing_set
    let (cs, n) = clean_all codec timeout now ms
    if ltb 0 n then exec cs else pure tt
    pure n

  unfoldable pub cleanup_stale_processing : ℕ → ℕ → Exec Store (Unit {0})
  cleanup_stale_processing timeout now = do cleanup_stale_processing_tasks timeout now; pure tt

  unfoldable pub requeue_failed_task : String → Exec Store (Unit {0})
  requeue_failed_task task_id = do
    ms ← smembers failed_set
    (m, i) ← or_raise (find_item codec task_id ms) task_not_found
    n ← or_raise (marshal (as_restarted i)) marshal_failed
    exec (restart_commands i m n)

  -- The round of UpdateTaskStatus over one set: the item is rewritten in place if it is found there,
  -- and else the rest goes on. A set that cannot be read is passed over.
  unfoldable pub rewrite_found :
      SetKey
      → String
      → String
      → Exec Store (Unit {0})
      → Option (String × QueueItem)
      → Exec Store (Unit {0})
  rewrite_found k status msg next none = next
  rewrite_found k status msg next (some (m, i)) = do
    n ← or_raise (marshal (with_status status msg i)) marshal_failed
    exec (srem k m ∷ sadd k n ∷ [])

  unfoldable pub update_in :
      SetKey → String → String → String → Exec Store (Unit {0}) → Exec Store (Unit {0})
  update_in k task_id status msg next s = elim (smembers k s).0 [
    | err e ↦ next (smembers k s).1
    | ok ms ↦ rewrite_found k status msg next (find_item codec task_id ms) (smembers k s).1
  ]

  unfoldable pub update_task_status : String → String → String → Exec Store (Unit {0})
  update_task_status task_id status msg = update_in processing_set task_id status msg (
      update_in completed_set task_id status msg
        (update_in failed_set task_id status msg (raise task_not_found)))

  unfoldable pub get_oldest_pending_task : String → ℕ → Exec Store QueueTask
  get_oldest_pending_task new_id now = do
    first ← zrange_first workflow_queue
    m ← or_raise first queue_empty
    i ← or_raise (unmarshal m) unmarshal_failed
    pure (convert_queue_item_to_task new_id now i)

  unfoldable pub reschedule_task : String → ℕ → Exec Store (Unit {0})
  reschedule_task task_id at = raise not_implemented
