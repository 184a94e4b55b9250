-- ===== src/Worker/Pool/Upkeep.antt =====
-- The ticks of scalingMonitor and the changes of the workers keep the pool fit.
use engine_api_workflow.Common.{
  subst, ◌+◌, ◌≡◌, ℕ, ◌≤◌, Bool, true, false, ◌&&◌, List, [], ◌∷◌, Option, none, some, arith,
  length, ltb, if◌then◌else◌, String,
}
use engine_api_workflow.Models.Task.{QueueTask}
use engine_api_workflow.Queue.Named.{Server, Json}
use engine_api_workflow.Worker.Pool.{
  Activity, unoccupied, occupied, closing, leaving, Fraction, Worker, Pool, Call, ◌>>◌, modify,
  pure, since, exceeds,
}
use engine_api_workflow.Worker.Pool.Scale.{
  drop_worker, get_queue_length, calculate_average_load, scale_up, scale_down, scale_by_load,
  evaluate_load, evaluate_and_scale, deactivate_emergency_mode,
}
use engine_api_workflow.Worker.Pool.Work.{
  by_activity_lem, skipped, take_next, take_task, judge, judge_task, account_task, leave_task,
  delete_doomed,
}
use engine_api_workflow.Worker.Pool.Events.{with_worker}
use engine_api_workflow.Worker.Pool.Lists.{drop_worker-All}
use engine_api_workflow.Worker.Pool.Rules.{
  weaken, if-Triple, bind-Triple, pure-Triple, get_pool-Triple,
}
use engine_api_workflow.Worker.Pool.Fit.{
  unaccounted, IsFit, length-drop_worker, Fit, Kept, Keeps, change, skip, read_lock-Fit,
  set_worker-Keeps,
}
use engine_api_workflow.Worker.Pool.Always.{
  get_worker_count-Counted, scale_up-Keeps, scale_down-Keeps, found-Keeps,
}

module _ (json : Json) (server : Server) where
  open server use {Store}

  mode-Fit :
      (b : Bool) (p q : Pool) (s : Store)
      → Fit json server p s
      → Fit json server q s
      → Fit json server (if b then p else q) s
  mode-Fit true p q s h k = h
  mode-Fit false p q s h k = k

  then_scaled :
      (m : Call Store (Unit {0})) (now : ℕ)
      → Keeps json server m
      → Keeps json server (m >> modify (λ p. record p { last_scale_time = now }))
  unfolding Keeps
  then_scaled m now h = bind-Triple h λ a. change json server _ λ p s k. k

  scale_by_load-Keeps :
      (load : Fraction) (count now : ℕ)
      → Keeps json server (scale_by_load json server load count now)
  unfolding Keeps scale_by_load
  scale_by_load-Keeps load count now = bind-Triple get_pool-Triple λ p.
      weaken (λ q s h. h.1)
        (if-Triple {m = up}
          {n = if exceeds p.config.downscale_threshold load && ltb p.min_workers count
            then down
            else pure tt}
          (exceeds load p.config.scaling_threshold && ltb count p.max_workers)
          (λ e.
            then_scaled (scale_up json server "high_average_load" now) now
              (scale_up-Keeps json server "high_average_load" now))
          (λ e.
            if-Triple {m = down} {n = pure tt}
              (exceeds p.config.downscale_threshold load && ltb p.min_workers count)
              (λ d.
                then_scaled (scale_down json server "low_average_load" now) now
                  (scale_down-Keeps json server "low_average_load" now))
              (λ d. skip json server)))
    where
      up : Call Store (Unit {0})
      up =
          scale_up json server "high_average_load" now
          >> modify (λ p. record p { last_scale_time = now })

      down : Call Store (Unit {0})
      down =
          scale_down json server "low_average_load" now
          >> modify (λ p. record p { last_scale_time = now })

  evaluate_load-Keeps : (now : ℕ) → Keeps json server (evaluate_load json server now)
  unfolding Keeps evaluate_load calculate_average_load get_queue_length
  evaluate_load-Keeps now =
      bind-Triple {Q = Kept json server}
        (bind-Triple (read_lock-Fit json server)
          λ u. bind-Triple get_pool-Triple λ p. pure-Triple _ λ q s h. h.1)
        λ load.
          bind-Triple {Q = Kept json server} (record { holds = λ p s h. h })
            λ n. bind-Triple (get_worker_count-Counted json server) λ count.
              bind-Triple get_pool-Triple λ p.
                weaken (λ q s h. h.1.1)
                  (if-Triple
                    {n = modify deactivate_emergency_mode
                      >> scale_by_load json server load count now}
                    (ltb p.config.emergency_threshold n)
                    (λ e.
                      bind-Triple
                        (change json server _ λ q s h. mode-Fit q.emergency_mode q _ s h h)
                        λ a. scale_up-Keeps json server "emergency_high_queue" now)
                    (λ e.
                      bind-Triple
                        (change json server _ λ q s h. mode-Fit q.emergency_mode _ q s h h)
                        λ a. scale_by_load-Keeps load count now))

  pub evaluate_and_scale-Keeps : (now : ℕ) → Keeps json server (evaluate_and_scale json server now)
  unfolding Keeps evaluate_and_scale
  evaluate_and_scale-Keeps now = bind-Triple get_pool-Triple λ p.
      weaken (λ q s h. h.1)
        (if-Triple {n = evaluate_load json server now}
          (ltb (since now p.last_scale_time) p.config.max_scaling_frequency) (λ e. skip json server)
          (λ e. evaluate_load-Keeps now))

  pub with_worker-Keeps :
      (id : ℕ) (f : Worker → Call Store (Unit {0}))
      → ((w : Worker) → IsFit w → Keeps json server (f w))
      → Keeps json server (with_worker json server id f)
  unfolding Keeps with_worker
  with_worker-Keeps id f h = bind-Triple get_pool-Triple λ p. found-Keeps json server id p f h

  -- What is left alone where nothing is done.
  idle : (n : ℕ) → Keeps json server (skipped json server n)
  idle n = skip json server

  -- The sum of a fit worker whose goroutine is at `x`.
  sum_at :
      (w : Worker) (x : Activity)
      → IsFit w
      → w.activity ≡ x
      → w.stats.tasks_processed + unaccounted x ≡ w.stats.tasks_succeeded + w.stats.tasks_failed
  sum_at w x (sums, fits) at =
      subst
        (λ y.
          w.stats.tasks_processed + unaccounted y ≡ w.stats.tasks_succeeded + w.stats.tasks_failed)
        at sums

  take_next-Keeps :
      (now : ℕ) (w : Worker) (l : List QueueTask)
      → w.stats.tasks_processed + 0 ≡ w.stats.tasks_succeeded + w.stats.tasks_failed
      → length l ≤ w.capacity
      → Keeps json server (take_next json server now w l)
  take_next-Keeps now w [] sums fits = skip json server
  take_next-Keeps now w (task ∷ rest) sums fits =
      set_worker-Keeps json server _ (sums, omega (arith, fits))

  pub take_task-Keeps :
      (now : ℕ) (w : Worker) → IsFit w → Keeps json server (take_task json server now w)
  unfolding take_task
  take_task-Keeps now w fit =
      by_activity_lem (Keeps json server) w.activity
        (λ e. take_next-Keeps now w w.waiting (sum_at w unoccupied fit e) fit.1) (λ t n e. idle n)
        (λ n e. idle n) (λ e. skip json server)

  judge-IsFit :
      (failure : Option String) (now started : ℕ) (w : Worker)
      → w.stats.tasks_processed ≡ w.stats.tasks_succeeded + w.stats.tasks_failed
      → length w.waiting ≤ w.capacity
      → IsFit (judge failure now started w)
  judge-IsFit none now started w sums fits = (omega (arith, sums), fits)
  judge-IsFit (some msg) now started w sums fits = (omega (arith, sums), fits)

  pub judge_task-Keeps :
      (failure : Option String) (now : ℕ) (w : Worker)
      → IsFit w
      → Keeps json server (judge_task json server failure now w)
  unfolding judge_task
  judge_task-Keeps failure now w fit =
      by_activity_lem (Keeps json server) w.activity (λ e. skip json server)
        (λ t n e.
          let sums = sum_at w (occupied t n) fit e in
          set_worker-Keeps json server _ (judge-IsFit failure now n w (omega arith) fit.1))
        (λ n e. idle n) (λ e. skip json server)

  pub account_task-Keeps :
      (now : ℕ) (w : Worker) → IsFit w → Keeps json server (account_task json server now w)
  unfolding account_task
  account_task-Keeps now w fit =
      by_activity_lem (Keeps json server) w.activity (λ e. skip json server) (λ t n e. idle n)
        (λ n e.
          let sums = sum_at w (closing n) fit e in
          set_worker-Keeps json server _ (omega arith, fit.1))
        (λ e. skip json server)

  pub leave_task-Keeps : (w : Worker) → IsFit w → Keeps json server (leave_task json server w)
  unfolding Keeps leave_task
  leave_task-Keeps w fit =
      by_activity_lem (Keeps json server) w.activity (λ e. skip json server) (λ t n e. idle n)
        (λ n e. idle n)
        (λ e.
          bind-Triple (set_worker-Keeps json server _ (sum_at w leaving fit e, fit.1))
            λ a. change json server _ λ p s h. h)

  pub delete_doomed-Keeps : Keeps json server (delete_doomed json server)
  unfolding Keeps delete_doomed
  delete_doomed-Keeps = bind-Triple get_pool-Triple λ p. weaken (λ q s h. h.1) (go p.doomed)
    where
      go :
          (l : List ℕ)
          → Keeps json server (elim l [
            | [] ↦ pure tt
            | id ∷ rest ↦
                modify (λ q. record q { workers = drop_worker id q.workers; doomed = rest })
          ])
      go [] = skip json server
      go (id ∷ rest) = change json server _ λ p s (all, few, short). (
        drop_worker-All IsFit id p.workers all,
        omega (arith, few, length-drop_worker id p.workers),
        short,
      )
