-- ===== src/Worker/Pool/Standstill.antt =====
-- A worker that fails a task is unhealthy until it succeeds in one, and an unhealthy worker is sent
-- none.
use engine_api_workflow.Common.{
  ◌&&◌, String, sym, String, ◌∙◌, ap, ℕ, Bool, true, false, List, [], ◌∷◌, ◌≡◌, refl, Option, none,
  some, arith, All,
}
use engine_api_workflow.Models.Task.{QueueTask}
use engine_api_workflow.Queue.Named.{Server, Json, NeverFails}
use engine_api_workflow.Worker.Pool.{
  Worker, Pool, Call, Ending, ends, hangs, crashes, ◌>>=◌, modify, pure,
}
use engine_api_workflow.Worker.Pool.Scale.{drop_worker, find_worker}
use engine_api_workflow.Worker.Pool.Work.{
  begin_check, beat, run_worker, update_metrics, perform_health_check, is_better, is_available,
  send_task, best_from, take_task, judge_task, account_task, leave_task, dispatch_to_optimal_worker,
  delete_doomed,
}
use engine_api_workflow.Worker.Pool.Lists.{drop_worker-All, find_worker-All, swap_at-All}
use engine_api_workflow.Worker.Pool.Events.{
  PoolEvent, scales, checks, measures, dispatches, runs, beats, takes, judges, accounts, leaves,
  deletes, shuffles, step, run_events, with_worker, count_dispatch,
}
use engine_api_workflow.Worker.Pool.Rules.{
  Holds, Triple, weaken, bind-Triple, pure-Triple, get_pool-Triple,
}
use engine_api_workflow.Worker.Pool.Starved.{
  IsStarving, Starved, Kept, Keeps, change, skip, set_worker-Keeps, read_lock-Starved,
  evaluate_and_scale-Keeps,
}

module _ (json : Json) (server : Server) (sure : NeverFails server) where
  open server use {Store}

  with_worker-Keeps :
      (id : ℕ) (f : Worker → Call Store (Unit {0}))
      → ((w : Worker) → IsStarving w → Keeps json server sure (f w))
      → Keeps json server sure (with_worker json server id f)
  unfolding Keeps with_worker
  with_worker-Keeps id f h = bind-Triple get_pool-Triple λ p. go p (find_worker id p.workers) refl
    where
      go :
          (p : Pool) (o : Option Worker)
          → find_worker id p.workers ≡ o
          → Triple
              (λ q s. (p ≡ q) × (Starved json server sure) q s)
              (elim o [ none ↦ pure tt | some w ↦ f w ])
              (Kept json server sure)
              (Starved json server sure)
      go p none e = weaken (λ q s k. k.1) (skip json server sure)
      go p (some w) e = record {
        holds = λ q s (same, (all, calm)).
            let here : find_worker id q.workers ≡ some w =
              ap (λ x. find_worker id x.workers) (sym same) ∙ e in
            (h w (find_worker-All IsStarving id q.workers w here all)).holds q s (all, calm);
      }

  take_task-Keeps :
      (now : ℕ) (w : Worker) → IsStarving w → Keeps json server sure (take_task json server now w)
  unfolding Keeps take_task
  take_task-Keeps now w (ill, empty, idle) = rw idle (rw empty (skip json server sure))

  judge_task-Keeps :
      (failure : Option String) (now : ℕ) (w : Worker)
      → IsStarving w
      → Keeps json server sure (judge_task json server failure now w)
  unfolding Keeps judge_task
  judge_task-Keeps failure now w (ill, empty, idle) = rw idle (skip json server sure)

  account_task-Keeps :
      (now : ℕ) (w : Worker)
      → IsStarving w
      → Keeps json server sure (account_task json server now w)
  unfolding Keeps account_task
  account_task-Keeps now w (ill, empty, idle) = rw idle (skip json server sure)

  leave_task-Keeps : (w : Worker) → IsStarving w → Keeps json server sure (leave_task json server w)
  unfolding Keeps leave_task
  leave_task-Keeps w (ill, empty, idle) = rw idle (skip json server sure)

  delete_doomed-Keeps : Keeps json server sure (delete_doomed json server)
  unfolding Keeps delete_doomed
  delete_doomed-Keeps = bind-Triple get_pool-Triple λ p. weaken (λ q s h. h.1) (go p.doomed)
    where
      go :
          (l : List ℕ)
          → Keeps json server sure (elim l [
            | [] ↦ pure tt
            | id ∷ rest ↦
                modify (λ q. record q { workers = drop_worker id q.workers; doomed = rest })
          ])
      go [] = (skip json server sure)
      go (id ∷ rest) =
          change json server sure _
            λ p s (all, calm). (drop_worker-All IsStarving id p.workers all, calm)

  best_from-none : (ws : List Worker) → All IsStarving ws → best_from none ws ≡ none
  unfolding best_from
  best_from-none [] all = refl
  best_from-none (w ∷ ws) ((ill, empty, idle), all) =
      let shut : (is_available w && is_better w none) ≡ false = ground (arith, ill) in
      rw shut (best_from-none ws all)

  abbrev Idle : Bool → Pool → Store → Type 0
  Idle b p s = (b ≡ false) × (Starved json server sure) p s

  dispatch-Idle :
      (task : QueueTask)
      → Triple
          (Starved json server sure)
          (dispatch_to_optimal_worker json server task)
          Idle
          (Starved json server sure)
  unfolding dispatch_to_optimal_worker send_task
  dispatch-Idle task = bind-Triple (read_lock-Starved json server sure) λ u.
      bind-Triple get_pool-Triple λ p. record {
        holds = λ q s (same, (all, calm)).
            let nobody : best_from none p.workers ≡ none =
              ap (λ x. best_from none x.workers) same ∙ best_from-none q.workers all in
            rw nobody (refl, (all, calm));
      }

  then_false :
      {m : Call Store (Unit {0})}
      → Triple (Starved json server sure) m (Kept json server sure) (Starved json server sure)
      → Triple (Starved json server sure) (m >>= λ a. pure false) Idle (Starved json server sure)
  then_false h = bind-Triple h λ a. pure-Triple false λ p s k. (refl, k)

  step-Idle :
      (e : PoolEvent)
      → Triple (Starved json server sure) (step json server e) Idle (Starved json server sure)
  unfolding step Keeps perform_health_check update_metrics run_worker beat
  step-Idle (scales now) = then_false (evaluate_and_scale-Keeps json server sure now)
  step-Idle (checks now) = then_false (
      bind-Triple (change json server sure (begin_check now) λ p s h. h) λ a.
        bind-Triple (read_lock-Starved json server sure) λ u. change json server sure _ λ p s h. h)
  step-Idle (measures now) =
      then_false
        (bind-Triple (read_lock-Starved json server sure) λ u. change json server sure _ λ p s h. h)
  step-Idle (dispatches task) = dispatch-Idle task
  step-Idle (runs id) =
      then_false (with_worker-Keeps id _ λ w h. set_worker-Keeps json server sure _ h)
  step-Idle (beats id now) =
      then_false (with_worker-Keeps id _ λ w h. set_worker-Keeps json server sure _ h)
  step-Idle (takes id now) = then_false (with_worker-Keeps id _ (take_task-Keeps now))
  step-Idle (judges id failure now) =
      then_false (with_worker-Keeps id _ (judge_task-Keeps failure now))
  step-Idle (accounts id now) = then_false (with_worker-Keeps id _ (account_task-Keeps now))
  step-Idle (leaves id) = then_false (with_worker-Keeps id _ leave_task-Keeps)
  step-Idle deletes = then_false delete_doomed-Keeps
  step-Idle (shuffles i) =
      then_false (
        change json server sure _ λ p s (all, calm). (swap_at-All IsStarving i p.workers all, calm))

  count-Idle :
      (r : Ending Bool × (Pool × Store))
      → Holds Idle (Starved json server sure) r
      → (count_dispatch json server r.0 ≡ 0) × (Starved json server sure) r.1.0 r.1.1
  count-Idle (ends true, (p, s)) (none_done, h) = absurd (ground (arith, none_done))
  count-Idle (ends false, (p, s)) (none_done, h) = (refl, h)
  count-Idle (hangs, (p, s)) h = (refl, h)
  count-Idle (crashes, (p, s)) h = (refl, h)

  -- On a connection that does not fail, once every worker of the pool is unhealthy, has no task and
  -- has none in its channel, and the list that the pool measures as its queue is not long enough
  -- for an emergency, no events dispatch a task any more, whatever their order.
  pub run_events-Starved :
      (es : List PoolEvent) (p : Pool) (s : Store)
      → (Starved json server sure) p s
      → (run_events json server es p s).0 ≡ 0
  run_events-Starved [] p s h = refl
  run_events-Starved (e ∷ es) p s h =
      let (none_now, still) = count-Idle (step json server e p s) ((step-Idle e).holds p s h) in
      let r = step json server e p s in
      let later = run_events-Starved es r.1.0 r.1.1 still in omega (arith, none_now, later)
