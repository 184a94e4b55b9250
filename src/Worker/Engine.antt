-- ===== src/Worker/Engine.antt =====
-- internal/worker/engine.go and internal/worker/retry.go: what the engine does with a task that was
-- taken from the queue. The workflow that MongoDB answers with is an argument.
pub mod Completion
use engine_api_workflow.Common.{
  ℕ, ◌+◌, String, Bool, true, false, Option, none, some, if◌then◌else◌, not, ◌&◌, decimal,
}
use engine_api_workflow.Models.Task.{QueueTask}
use engine_api_workflow.Models.Workflow.{Workflow}
use engine_api_workflow.Queue.Redis.{Redis, Exec, Result, ok, err, QueueError}
use engine_api_workflow.Queue.Item.{Codec}
use engine_api_workflow.Queue.Repository.{enqueue_at, mark_completed, mark_failed}
use engine_api_workflow.Worker.Retry.{
  RetryPolicy, RetryManager, Floats, calculate_retry_time, should_retry, get_workflow_retry_policy,
}
use engine_api_workflow.Worker.Executor.{Outcome, returns, panics, World, WorkflowExecutor}
use engine_api_workflow.Worker.Executor.Steps.{execute}

pub data TaskError : Type 0 where
  no_workflow : TaskError
  failed_execution : String → TaskError
  of_queue : QueueError → TaskError

abbrev pub queue_error : {A : Type 0} → Result A → Option TaskError
queue_error (ok a) = none
queue_error (err e) = some (of_queue e)

module _ (codec : Codec) (redis : Redis) where
  open redis use {Store}

  unfoldable pub handle_max_retries_exceeded : QueueTask → String → ℕ → Exec Store (Unit {0})
  unfolding mark_failed
  handle_max_retries_exceeded task msg now =
      mark_failed codec redis task.id
        (some ("Max retries exceeded (" & (decimal task.retry_count & ("): " & msg)))) now

  unfoldable pub schedule_retry :
      Floats → QueueTask → String → RetryPolicy → ℕ → Exec Store (Unit {0})
  unfolding should_retry enqueue_at handle_max_retries_exceeded
  schedule_retry F task msg policy now =
      if not (should_retry task msg policy)
      then handle_max_retries_exceeded task msg now
      else enqueue_at codec redis task.workflow_id
          (elim task.execution_id [ none ↦ "" | some id ↦ id ]) task.user_id task.payload
          task.priority (calculate_retry_time F policy task.retry_count now) now

  -- What follows the execution.
  unfoldable pub settle_task :
      RetryManager → Workflow → QueueTask → Option String → ℕ → Store → Option TaskError × Store
  unfolding schedule_retry mark_completed should_retry get_workflow_retry_policy
  settle_task manager w task none now s =
      let (r, t) = mark_completed codec redis task.id now s in (queue_error r, t)
  settle_task manager w task (some msg) now s =
      let policy = get_workflow_retry_policy manager w in
      if should_retry task msg policy
      then (let (r, t) = schedule_retry manager.floats task msg policy now s in (queue_error r, t))
      else (some (failed_execution msg), s)

  module _ (world : World) (e : WorkflowExecutor world.State) where
    unfoldable pub process_task :
        RetryManager
        → Option Workflow
        → QueueTask
        → world.State
        → Store
        → Outcome (Option TaskError × (world.State × Store))
    unfolding execute settle_task
    process_task manager none task x s = returns (some no_workflow, (x, s))
    process_task manager (some w) task x s =
        elim (execute world e w task.user_id task.id task.payload x) [
          | panics ↦ panics
          | returns (failure, x') ↦
              let (error, s') = settle_task manager w task failure (world.now x') s in
              returns (error, (x', s'))
        ]
