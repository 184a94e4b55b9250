-- ===== src/Worker/Pool/Events.antt =====
-- What the goroutines of internal/worker/pool.go do, in any order: the ticks of the three loops, the
-- dispatcher, the workers and the deletions. Each section of a worker under its lock is an event, the
-- first one with the reception of its task; a turn of a loop or of the dispatcher is one event, as a
-- whole. A goroutine that hangs is taken to go on all the same.
use engine_api_workflow.Common.{
  ℕ, zero, suc, ◌+◌, String, Bool, true, false, Option, none, some, List, [], ◌∷◌,
}
use engine_api_workflow.Models.Task.{QueueTask}
use engine_api_workflow.Queue.Named.{Server, Json}
use engine_api_workflow.Worker.Pool.{
  Worker, Pool, Call, Ending, ends, hangs, crashes, ◌>>=◌, ◌>>◌, pure, get_pool, modify,
}
use engine_api_workflow.Worker.Pool.Scale.{find_worker, evaluate_and_scale}
use engine_api_workflow.Worker.Pool.Work.{
  dispatch_to_optimal_worker, perform_health_check, update_metrics, run_worker, beat, take_task,
  judge_task, account_task, leave_task, delete_doomed,
}

-- `shuffles i`: the iteration of a Go map may have any order; swaps of neighbours make each of them.
pub data PoolEvent : Type 0 where
  scales : ℕ → PoolEvent
  checks : ℕ → PoolEvent
  measures : ℕ → PoolEvent
  dispatches : QueueTask → PoolEvent
  runs : ℕ → PoolEvent
  beats : ℕ → ℕ → PoolEvent
  takes : ℕ → ℕ → PoolEvent
  judges : ℕ → Option String → ℕ → PoolEvent
  accounts : ℕ → ℕ → PoolEvent
  leaves : ℕ → PoolEvent
  deletes : PoolEvent
  shuffles : ℕ → PoolEvent

unfoldable pub swap_at : {A : Type 0} → ℕ → List A → List A
swap_at i [] = []
swap_at i (x ∷ []) = x ∷ []
swap_at zero (x ∷ (y ∷ l)) = y ∷ (x ∷ l)
swap_at (suc i) (x ∷ (y ∷ l)) = x ∷ swap_at i (y ∷ l)

module _ (json : Json) (server : Server) where
  open server use {Store}

  unfoldable pub with_worker : ℕ → (Worker → Call Store (Unit {0})) → Call Store (Unit {0})
  unfolding find_worker
  with_worker id f = do
    p ← get_pool
    elim (find_worker id p.workers) [ none ↦ pure tt | some w ↦ f w ]

  -- Whether the event put a task into a worker's channel.
  unfoldable pub step : PoolEvent → Call Store Bool
  unfolding swap_at with_worker evaluate_and_scale dispatch_to_optimal_worker perform_health_check
      update_metrics run_worker beat take_task judge_task account_task leave_task delete_doomed
  step (scales now) = evaluate_and_scale json server now >> pure false
  step (checks now) = perform_health_check json server now >> pure false
  step (measures now) = update_metrics json server now >> pure false
  step (dispatches task) = dispatch_to_optimal_worker json server task
  step (runs id) = with_worker id (run_worker json server) >> pure false
  step (beats id now) = with_worker id (beat json server now) >> pure false
  step (takes id now) = with_worker id (take_task json server now) >> pure false
  step (judges id failure now) = with_worker id (judge_task json server failure now) >> pure false
  step (accounts id now) = with_worker id (account_task json server now) >> pure false
  step (leaves id) = with_worker id (leave_task json server) >> pure false
  step deletes = delete_doomed json server >> pure false
  step (shuffles i) = modify (λ p. record p { workers = swap_at i p.workers }) >> pure false

  abbrev pub count_dispatch : Ending Bool → ℕ
  count_dispatch (ends true) = 1
  count_dispatch (ends false) = 0
  count_dispatch hangs = 0
  count_dispatch crashes = 0

  -- The number of tasks that were dispatched, and the state at the end.
  abbrev pub run_events : List PoolEvent → Pool → Store → ℕ × (Pool × Store)
  run_events [] p s = (0, (p, s))
  run_events (e ∷ es) p s =
      let (r, (q, t)) = step e p s in
      let (n, last) = run_events es q t in (count_dispatch r + n, last)
