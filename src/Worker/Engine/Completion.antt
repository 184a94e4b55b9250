-- ===== src/Worker/Engine/Completion.antt =====
-- How the engine's handling of a task ends, in the queue that its task came from.
use engine_api_workflow.Common.{ℕ, ◌≡◌, ◌<◌, refl, String, false, none, some, arith, has_underscore}
use engine_api_workflow.Models.Workflow.{Workflow}
use engine_api_workflow.Models.Task.{QueueTask}
use engine_api_workflow.Queue.Redis.{Redis, IsReliable, task_not_found}
use engine_api_workflow.Queue.Item.{Codec, QueueItem, convert_queue_item_to_task}
use engine_api_workflow.Queue.Repository.{mark_completed}
use engine_api_workflow.Queue.Balance.{IsBalanced}
use engine_api_workflow.Queue.History.{Reach}
use engine_api_workflow.Queue.Identity.{Reach-not_found}
use engine_api_workflow.Worker.Retry.{RetryPolicy, RetryManager, should_retry, is_retryable_error}
use engine_api_workflow.Worker.Executor.{returns, World, WorkflowExecutor}
use engine_api_workflow.Worker.Executor.Steps.{execute}
use engine_api_workflow.Worker.Engine.{of_queue, settle_task, process_task}

-- A task taken from the queue has a retry count of zero, whatever its item's is: with a policy that
-- allows an attempt, whether the engine retries it depends on the error's text only.
pub should_retry-convert :
    (new_id msg : String) (now : ℕ) (item : QueueItem) (p : RetryPolicy)
    → 0 < p.max_attempts
    → should_retry (convert_queue_item_to_task new_id now item) msg p
      ≡ is_retryable_error msg p.retryable_errors
unfolding should_retry convert_queue_item_to_task
should_retry-convert new_id msg now item p some_attempt = ground arith

module _ (codec : Codec) (redis : Redis) (sure : IsReliable redis) where
  open redis use {Store, view}

  module _ (world : World) (e : WorkflowExecutor world.State) where
    -- After any history of the queue from a balanced database, a task whose identifier has no
    -- underscore, as every ObjectID's hex text, and whose workflow runs with success ends with the
    -- error that the task is not found, and the queue is as before.
    pub process_task-not_found :
        {s t : Store} (manager : RetryManager) (w : Workflow) (task : QueueTask) (x y : world.State)
        → Reach codec redis s t
        → IsBalanced codec (view s)
        → has_underscore task.id ≡ false
        → execute world e w task.user_id task.id task.payload x ≡ returns (none, y)
        → (u : Store) × (process_task codec redis world e manager (some w) task x t
            ≡ returns (some (of_queue task_not_found), (y, u)))
          × (view u ≡ view t)
    unfolding process_task settle_task
    process_task-not_found {s} {t} manager w task x y r b plain ran =
        let (missing, same, _, _) =
          Reach-not_found codec redis sure task.id none (world.now y) r b plain in
        (
          (mark_completed codec redis task.id (world.now y) t).1,
          rw (process_task, ran, settle_task, missing) refl,
          same,
        )
