-- ===== src/Tests/Pools.antt =====
-- The pool of workers at small pools.
use engine_api_workflow.Common.{
  none, List, ℕ, ◌*◌, ◌≤◌, ◌<◌, ◌≡◌, refl, ◌⊎◌, ◌↔◌, true, false, [], ◌∷◌, arith, All, length, pos,
  ◌+ℤ◌,
}
use engine_api_workflow.Models.Value.{minute}
use engine_api_workflow.Queue.Named.{queue_length}
use engine_api_workflow.Worker.Pool.{Worker, Pool, ends, hangs, new_worker_pool}
use engine_api_workflow.Worker.Pool.Scale.{
  total_waiting, new_worker, evaluate_and_scale, change_worker,
}
use engine_api_workflow.Worker.Pool.Work.{
  start, dispatch_to_optimal_worker, perform_health_check, with_task,
}
use engine_api_workflow.Worker.Pool.Events.{
  judges, takes, dispatches, runs, PoolEvent, scales, checks, shuffles, run_events,
}
use engine_api_workflow.Worker.Pool.Deadlock.{evaluate_and_scale-deadlocks}
use engine_api_workflow.Worker.Pool.Standstill.{run_events-Starved}
use engine_api_workflow.Worker.Pool.Dispatch.{
  dispatch_to_optimal_worker-picks, AreUnavailable, IsBest,
}
use engine_api_workflow.Worker.Pool.Health.{perform_health_check_iff, IsSound}
use engine_api_workflow.Worker.Pool.Fit.{IsFit}
use engine_api_workflow.Worker.Pool.Runs.{start-run_events}
use engine_api_workflow.Tests.NamedQueues.{
  named_memory, named_memory-NeverFails, empty_keys, text_json,
}
use engine_api_workflow.Tests.Values.{task}

abbrev ready : ℕ → Worker
ready id = record (new_worker id 10 0) { is_active = true }

abbrev two_workers : Pool
two_workers = record (new_worker_pool 1 5 0) { workers = ready 0 ∷ ready 1 ∷ [] }

abbrev later : ℕ
later = 10 * minute

evaluate_and_scale-deadlocks_example :
    let r = evaluate_and_scale text_json named_memory later two_workers empty_keys in
    (r.0 ≡ hangs) × ((run_events text_json named_memory (checks later ∷ []) r.1.0 r.1.1).0 ≡ 0)
unfolding queue_length total_waiting
evaluate_and_scale-deadlocks_example =
    evaluate_and_scale-deadlocks text_json named_memory later (checks later ∷ []) two_workers
      empty_keys refl (refl, (refl, tt)) refl refl refl refl refl

abbrev ill : ℕ → Worker
ill id = record (ready id) { is_healthy = false }

abbrev ill_workers : Pool
ill_workers = record two_workers { workers = ill 0 ∷ ill 1 ∷ [] }

run_events-Starved_example :
    (run_events text_json named_memory (checks 3 ∷ scales 5 ∷ []) ill_workers empty_keys).0 ≡ 0
run_events-Starved_example =
    run_events-Starved text_json named_memory named_memory-NeverFails (checks 3 ∷ scales 5 ∷ [])
      ill_workers empty_keys (((refl, refl, refl), ((refl, refl, refl), tt)), refl)

perform_health_check_iff_example :
    let r = perform_health_check text_json named_memory later two_workers empty_keys in
    (r ≡ (ends tt, (record two_workers { health = r.1.0.health }, empty_keys)))
    × ((r.1.0.health.is_healthy ≡ true) ↔ All (IsSound (5 * minute) later) (ready 0 ∷ ready 1 ∷ []))
perform_health_check_iff_example =
    perform_health_check_iff text_json named_memory later two_workers empty_keys refl

-- A worker takes a task, counts its success, and the pool is scaled before the task is accounted.
abbrev one_task : List PoolEvent
one_task = runs 1 ∷ dispatches task ∷ takes 1 4 ∷ judges 1 none 5 ∷ shuffles 0 ∷ scales later ∷ []

start-run_events_example :
    let r = start text_json named_memory 3 (new_worker_pool 2 4 1) empty_keys in
    let p = (run_events text_json named_memory one_task r.1.0 r.1.1).1.0 in
    (length p.workers ≤ p.max_workers) × (length p.scaling_history ≤ 100) × All IsFit p.workers
start-run_events_example =
    start-run_events text_json named_memory 2 4 1 3 one_task empty_keys (omega arith)

dispatch_to_optimal_worker-picks_example :
    let r = dispatch_to_optimal_worker text_json named_memory task two_workers empty_keys in
    ((r ≡ (ends false, (two_workers, empty_keys))) × AreUnavailable two_workers.workers)
    ⊎ ((w : Worker) × IsBest w two_workers.workers
        × (((r ≡ (ends false, (two_workers, empty_keys))) × (w.capacity ≤ length w.waiting))
            ⊎ ((r ≡ (
              ends true,
              (
                record two_workers {
                  workers = change_worker (with_task task w) two_workers.workers;
                  current_load = two_workers.current_load +ℤ pos 1;
                },
                empty_keys,
              ),
            ))
                × (length w.waiting < w.capacity))))
dispatch_to_optimal_worker-picks_example =
    dispatch_to_optimal_worker-picks text_json named_memory task two_workers empty_keys refl
