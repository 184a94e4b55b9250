-- ===== src/Worker/Pool/Runs.antt =====
-- The pool of internal/worker/pool.go from its start on, whatever its goroutines do.
use engine_api_workflow.Common.{
  ℕ, zero, suc, ◌≤◌, ◌≡◌, refl, sym, ap, ◌∙◌, Bool, true, false, List, [], ◌∷◌, ◌++◌, Option, none,
  some, arith, All, length, length-append, pos,
}
use engine_api_workflow.Models.Task.{QueueTask}
use engine_api_workflow.Queue.Named.{Server, Json}
use engine_api_workflow.Worker.Pool.{
  Worker, Pool, Call, Ending, ends, hangs, crashes, ◌>>=◌, ◌>>◌, pure,
}
use engine_api_workflow.Worker.Pool.Work.{
  begin_check, best_from, send_task, with_task, has_room, dispatch_to_optimal_worker,
  perform_health_check, update_metrics, run_worker, beat, create_from, start, set_worker,
  change_load,
}
use engine_api_workflow.Worker.Pool.Events.{
  PoolEvent, scales, checks, measures, dispatches, runs, beats, takes, judges, accounts, leaves,
  deletes, shuffles, step, run_events,
}
use engine_api_workflow.Worker.Pool.Lists.{swap_at-All}
use engine_api_workflow.Worker.Pool.Rules.{
  Holds, Triple, if-Triple, bind-Triple, pure-Triple, get_pool-Triple,
}
use engine_api_workflow.Worker.Pool.Fit.{
  IsFit, length-swap_at, best_from-All, Fit, Kept, Keeps, change, read_lock-Fit, set_worker-Keeps,
}
use engine_api_workflow.Worker.Pool.{new_worker_pool}
use engine_api_workflow.Worker.Pool.Always.{Growing, create_worker-grows}
use engine_api_workflow.Worker.Pool.Upkeep.{
  evaluate_and_scale-Keeps, with_worker-Keeps, take_task-Keeps, judge_task-Keeps,
  account_task-Keeps, leave_task-Keeps, delete_doomed-Keeps,
}

module _ (json : Json) (server : Server) where
  open server use {Store}

  abbrev Dispatched : Bool → Pool → Store → Type 0
  Dispatched b = Fit json server

  send_task-Fit :
      (task : QueueTask) (p : Pool)
      → Triple
          (λ q s. (p ≡ q) × Fit json server q s)
          (send_task json server task (best_from none p.workers))
          Dispatched
          (Fit json server)
  unfolding send_task Keeps
  send_task-Fit task p = go (best_from none p.workers) refl
    where
      go :
          (o : Option Worker)
          → best_from none p.workers ≡ o
          → Triple
              (λ q s. (p ≡ q) × Fit json server q s)
              (send_task json server task o)
              Dispatched
              (Fit json server)
      go none e = pure-Triple false λ q s h. h.1
      go (some w) e =
          if-Triple {m = sent} {n = pure false} (has_room w)
            (λ room. record {
              holds = λ q s (same, k).
                  let here : best_from none q.workers ≡ some w =
                    ap (λ x. best_from none x.workers) (sym same) ∙ e in
                  let fit =
                    best_from-All IsFit q.workers none w here (λ v x. absurd (ground (arith, x)))
                      k.0 in
                  let fits : length (w.waiting ++ task ∷ []) ≤ w.capacity =
                    ground (arith, room, length-append w.waiting (task ∷ [])) in
                  (bind-Triple (set_worker-Keeps json server (with_task task w) (fit.0, fits)) λ a.
                      bind-Triple (change json server _ λ x y h. h)
                        λ b. pure-Triple true λ x y h. h).holds
                    q s k;
            })
            (λ full. pure-Triple false λ q s h. h.1)
        where
          sent : Call Store Bool
          sent =
              set_worker json server (with_task task w)
              >> (change_load json server (pos 1) >> pure true)

  then_false :
      {m : Call Store (Unit {0})}
      → Triple (Fit json server) m (Kept json server) (Fit json server)
      → Triple (Fit json server) (m >>= λ a. pure false) Dispatched (Fit json server)
  then_false h = bind-Triple h λ a. pure-Triple false λ p s k. k

  step-Fit :
      (e : PoolEvent) → Triple (Fit json server) (step json server e) Dispatched (Fit json server)
  unfolding step Keeps perform_health_check update_metrics run_worker beat
      dispatch_to_optimal_worker
  step-Fit (scales now) = then_false (evaluate_and_scale-Keeps json server now)
  step-Fit (checks now) = then_false (
      bind-Triple (change json server (begin_check now) λ p s h. h)
        λ a. bind-Triple (read_lock-Fit json server) λ u. change json server _ λ p s h. h)
  step-Fit (measures now) =
      then_false (bind-Triple (read_lock-Fit json server) λ u. change json server _ λ p s h. h)
  step-Fit (dispatches task) =
      bind-Triple (read_lock-Fit json server)
        λ u. bind-Triple get_pool-Triple λ p. send_task-Fit task p
  step-Fit (runs id) =
      then_false (with_worker-Keeps json server id _ λ w h. set_worker-Keeps json server _ h)
  step-Fit (beats id now) =
      then_false (with_worker-Keeps json server id _ λ w h. set_worker-Keeps json server _ h)
  step-Fit (takes id now) =
      then_false (with_worker-Keeps json server id _ (take_task-Keeps json server now))
  step-Fit (judges id failure now) =
      then_false (with_worker-Keeps json server id _ (judge_task-Keeps json server failure now))
  step-Fit (accounts id now) =
      then_false (with_worker-Keeps json server id _ (account_task-Keeps json server now))
  step-Fit (leaves id) =
      then_false (with_worker-Keeps json server id _ (leave_task-Keeps json server))
  step-Fit deletes = then_false (delete_doomed-Keeps json server)
  step-Fit (shuffles i) = then_false (
      change json server _ λ p s (all, few, short).
        (swap_at-All IsFit i p.workers all, omega (arith, few, length-swap_at i p.workers), short))

  ending-Fit :
      {A : Type 0} (r : Ending A × (Pool × Store))
      → Holds (λ a. Fit json server) (Fit json server) r
      → Fit json server r.1.0 r.1.1
  ending-Fit (ends a, (p, s)) h = h
  ending-Fit (hangs, (p, s)) h = h
  ending-Fit (crashes, (p, s)) h = h

  run_events-Fit :
      (es : List PoolEvent) (p : Pool) (s : Store)
      → Fit json server p s
      → let r = run_events json server es p s in Fit json server r.1.0 r.1.1
  run_events-Fit [] p s h = h
  run_events-Fit (e ∷ es) p s h =
      let r = step json server e p s in
      run_events-Fit es r.1.0 r.1.1 (ending-Fit r ((step-Fit e).holds p s h))

  create_from-Fit :
      (i n now : ℕ)
      → Triple
          (Growing json server i n)
          (create_from json server i n now)
          (Kept json server)
          (Fit json server)
  unfolding create_from
  create_from-Fit i zero now = pure-Triple tt λ p s h. h.1
  create_from-Fit i (suc n) now =
      bind-Triple (create_worker-grows json server i n i now) λ a. create_from-Fit (suc i) n now

  start-Fit :
      (min max made now : ℕ) (s : Store)
      → min ≤ max
      → let r = start json server now (new_worker_pool min max made) s in
        Fit json server r.1.0 r.1.1
  unfolding start ◌>>=◌
  start-Fit min max made now s h =
      ending-Fit (start json server now (new_worker_pool min max made) s) (
        (create_from-Fit 0 min now).holds _ s
          ((omega arith, omega (arith, h)), (tt, omega arith, omega arith)))

  -- A pool that is started with a least number of workers that is not above the greatest, in any
  -- order of the events that follow, has no more workers than its greatest number, and a history of at
  -- most 100 changes; each worker's processed tasks, and the one whose result it counted last while it
  -- is not yet among them, are those that succeeded and those that failed, and its channel holds no more
  -- tasks than it has room for.
  pub start-run_events :
      (min max made now : ℕ) (es : List PoolEvent) (s : Store)
      → min ≤ max
      → let r = start json server now (new_worker_pool min max made) s in
        let p = (run_events json server es r.1.0 r.1.1).1.0 in
        (length p.workers ≤ p.max_workers) × (length p.scaling_history ≤ 100) × All IsFit p.workers
  start-run_events min max made now es s h =
      let r = start json server now (new_worker_pool min max made) s in
      let (all, few, short) = run_events-Fit es r.1.0 r.1.1 (start-Fit min max made now s h) in
      (few, short, all)
