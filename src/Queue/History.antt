-- ===== src/Queue/History.antt =====
-- Histories of the queue: any sequence of the repository's operations, in any order.
use engine_api_workflow.Common.{ℕ, ◌≡◌, ℤ, String, Option}
use engine_api_workflow.Models.Value.{Fields}
use engine_api_workflow.Queue.Redis.{Redis, IsReliable}
use engine_api_workflow.Queue.Item.{Codec, item_id}
use engine_api_workflow.Queue.Repository.{
  enqueue, enqueue_delayed, enqueue_at, dequeue, mark_completed, mark_failed,
  cleanup_stale_processing_tasks, requeue_failed_task, update_task_status,
}
use engine_api_workflow.Queue.Census.{holders}
use engine_api_workflow.Queue.Balance.{IsBalanced}
use engine_api_workflow.Queue.Counters.{
  enqueue-IsBalanced, enqueue_delayed-IsBalanced, enqueue_at-IsBalanced, dequeue-IsBalanced,
}
use engine_api_workflow.Queue.Counters.Settled.{
  mark_completed-IsBalanced, mark_failed-IsBalanced, cleanup_stale_processing_tasks-IsBalanced,
  requeue_failed_task-IsBalanced, update_task_status-IsBalanced,
}

module _ (codec : Codec) (redis : Redis) where
  open redis use {Store, view}

  -- A task is enqueued under an ID that no item of the queue has: it holds the clock's nanoseconds.
  pub data Step : Store → Store → Type 0 where
    enqueues :
        (workflow_id execution_id user_id : String) (payload : Fields) (priority : ℤ) (now : ℕ)
        {s : Store}
        → holders codec (item_id execution_id now) (view s) ≡ 0
        → Step s (enqueue codec redis workflow_id execution_id user_id payload priority now s).1
    delays :
        (workflow_id execution_id user_id : String) (payload : Fields) (priority : ℤ)
        (delay now : ℕ) {s : Store}
        → holders codec (item_id execution_id now) (view s) ≡ 0
        → Step s
            (enqueue_delayed codec redis workflow_id execution_id user_id payload priority delay now
              s).1
    schedules :
        (workflow_id execution_id user_id : String) (payload : Fields) (priority : ℤ) (at now : ℕ)
        {s : Store}
        → holders codec (item_id execution_id now) (view s) ≡ 0
        → Step s
            (enqueue_at codec redis workflow_id execution_id user_id payload priority at now s).1
    dequeues : (new_id : String) (now : ℕ) {s : Store} → Step s (dequeue codec redis new_id now s).1
    completes :
        (task_id : String) (now : ℕ) {s : Store}
        → Step s (mark_completed codec redis task_id now s).1
    fails :
        (task_id : String) (cause : Option String) (now : ℕ) {s : Store}
        → Step s (mark_failed codec redis task_id cause now s).1
    cleans :
        (timeout now : ℕ) {s : Store}
        → Step s (cleanup_stale_processing_tasks codec redis timeout now s).1
    requeues : (task_id : String) {s : Store} → Step s (requeue_failed_task codec redis task_id s).1
    updates :
        (task_id status msg : String) {s : Store}
        → Step s (update_task_status codec redis task_id status msg s).1

  pub data Reach (s : Store) : Store → Type 0 where
    here : Reach s s
    next : {t u : Store} → Reach s t → Step t u → Reach s u

  module _ (sure : IsReliable redis) where
    Step-IsBalanced :
        {s t : Store} → Step s t → IsBalanced codec (view s) → IsBalanced codec (view t)
    Step-IsBalanced (enqueues w e u p k now {s} fresh) b =
        enqueue-IsBalanced codec redis sure w e u p k now s fresh b
    Step-IsBalanced (delays w e u p k d now {s} fresh) b =
        enqueue_delayed-IsBalanced codec redis sure w e u p k d now s fresh b
    Step-IsBalanced (schedules w e u p k at now {s} fresh) b =
        enqueue_at-IsBalanced codec redis sure w e u p k at now s fresh b
    Step-IsBalanced (dequeues new_id now {s}) b = dequeue-IsBalanced codec redis sure new_id now s b
    Step-IsBalanced (completes task_id now {s}) b =
        mark_completed-IsBalanced codec redis sure task_id now s b
    Step-IsBalanced (fails task_id cause now {s}) b =
        mark_failed-IsBalanced codec redis sure task_id cause now s b
    Step-IsBalanced (cleans timeout now {s}) b =
        cleanup_stale_processing_tasks-IsBalanced codec redis sure timeout now s b
    Step-IsBalanced (requeues task_id {s}) b =
        requeue_failed_task-IsBalanced codec redis sure task_id s b
    Step-IsBalanced (updates task_id status msg {s}) b =
        update_task_status-IsBalanced codec redis sure task_id status msg s b

    -- On a connection that does not fail, and from a balanced database, every history of the
    -- repository's operations leaves it balanced, provided that each enqueued item has an ID that
    -- no item in the queue has: the counters queued, delayed, processing, completed and failed are
    -- the sizes of the five collections, the counter total is the number of items in them, no item
    -- ID stands in them twice, and every queued member is one that the codec wrote.
    pub Reach-IsBalanced :
        {s t : Store} → Reach s t → IsBalanced codec (view s) → IsBalanced codec (view t)
    Reach-IsBalanced here b = b
    Reach-IsBalanced (next r st) b = Step-IsBalanced st (Reach-IsBalanced r b)
