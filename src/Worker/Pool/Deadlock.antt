-- ===== src/Worker/Pool/Deadlock.antt =====
-- The scaling down of internal/worker/pool.go.
use engine_api_workflow.Common.{
  if_true, if_false, ◌∙◌, ◌⊎◌, String, sym, ◌==◌, ℕ, true, false, List, [], ◌∷◌, ◌≡◌, refl, none,
  some, arith, Bool-cases, inl, inr, All, length, ltb, leb,
}
use engine_api_workflow.Queue.Named.{Server, Json, queue_length}
use engine_api_workflow.Worker.Pool.{
  read_lock, Worker, Pool, Ending, ends, hangs, ◌>>=◌, since, exceeds,
}
use engine_api_workflow.Worker.Pool.Scale.{
  deactivate_emergency_mode, remove_worker, stop_worker, record_scaling_event,
  calculate_average_load, get_queue_length, find_worker, scale_down, get_worker_count, oldest_from,
  older, average, scale_by_load, evaluate_load, evaluate_and_scale, length_or_zero,
}
use engine_api_workflow.Worker.Pool.Events.{PoolEvent, run_events}
use engine_api_workflow.Worker.Pool.Rules.{bind-ends, read_lock-free}
use engine_api_workflow.Worker.Pool.Lock.{run_events-Locked}

abbrev IsRunning : Worker → Type 0
IsRunning w = w.stopped ≡ false

HasId : ℕ → List Worker → Type 0
HasId id [] = ⊥
HasId id (w ∷ ws) = (w.id ≡ id) ⊎ HasId id ws

oldest_from-some :
    (o : Worker) (ws : List Worker)
    → (w : Worker) × (oldest_from (some o) ws ≡ some w) × ((w.id ≡ o.id) ⊎ HasId w.id ws)
unfolding oldest_from HasId
oldest_from-some o [] = (o, refl, inl refl)
oldest_from-some o (v ∷ ws) =
    let (w, e, from) = oldest_from-some (older v (some o)) ws in
    elim (Bool-cases (ltb v.start_time o.start_time)) [
      | inl earlier ↦
          (w, e, elim from [ inl h ↦ inr (inl (ground (arith, h, earlier))) | inr h ↦ inr (inr h) ])
      | inr later ↦
          (w, e, elim from [ inl h ↦ inl (ground (arith, h, later)) | inr h ↦ inr (inr h) ])
    ]

find_worker-IsRunning :
    (id : ℕ) (ws : List Worker)
    → HasId id ws
    → All IsRunning ws
    → (w : Worker) × (find_worker id ws ≡ some w) × IsRunning w
unfolding find_worker HasId
find_worker-IsRunning id [] h all = absurd h
find_worker-IsRunning id (w ∷ ws) h (r, all) = elim (Bool-cases (w.id == id)) [
  | inl same ↦ (w, rw same refl, r)
  | inr other ↦ elim h [
    | inl e ↦ absurd (ground (arith, e, other))
    | inr k ↦ let (v, found, runs) = find_worker-IsRunning id ws k all in (v, rw other found, runs)
  ]
]

oldest_from-found :
    (ws : List Worker) (n : ℕ)
    → ltb n (length ws) ≡ true
    → All IsRunning ws
    → (w v : Worker) × (oldest_from none ws ≡ some w) × (find_worker w.id ws ≡ some v) × IsRunning v
unfolding oldest_from HasId
oldest_from-found [] n many all = absurd (ground (arith, many))
oldest_from-found (w ∷ ws) n many all =
    let (o, e, from) = oldest_from-some w ws in
    let has : HasId o.id (w ∷ ws) = elim from [ inl h ↦ inl (sym h) | inr h ↦ inr h ] in
    let (v, found, runs) = find_worker-IsRunning o.id (w ∷ ws) has all in (o, v, e, found, runs)

module _ (json : Json) (server : Server) where
  open server use {Store}

  abbrev Deadlocks : Ending (Unit {0}) × (Pool × Store) → Type 0
  Deadlocks (r, (p, s)) = (r ≡ hangs) × (p.locked ≡ true)

  remove_worker-hangs :
      (id now : ℕ) (w : Worker) (p : Pool) (s : Store)
      → p.locked ≡ false
      → find_worker id p.workers ≡ some w
      → w.stopped ≡ false
      → Deadlocks (remove_worker json server id now p s)
  unfolding remove_worker ◌>>=◌ stop_worker record_scaling_event calculate_average_load
      get_queue_length
  remove_worker-hangs id now w p s free found runs = rw (free, found, runs) (refl, refl)

  get_worker_count-free :
      (p : Pool) (s : Store)
      → p.locked ≡ false
      → get_worker_count json server p s ≡ (ends (length p.workers), (p, s))
  unfolding get_worker_count ◌>>=◌
  get_worker_count-free p s free = bind-ends read_lock _ (read_lock-free p s free)

  average-free :
      (p : Pool) (s : Store)
      → p.locked ≡ false
      → calculate_average_load json server p s ≡ (ends (average p.workers), (p, s))
  unfolding calculate_average_load ◌>>=◌
  average-free p s free = bind-ends read_lock _ (read_lock-free p s free)

  scale_down-hangs :
      (reason : String) (now : ℕ) (p : Pool) (s : Store)
      → p.locked ≡ false
      → ltb p.min_workers (length p.workers) ≡ true
      → All IsRunning p.workers
      → Deadlocks (scale_down json server reason now p s)
  unfolding scale_down ◌>>=◌
  scale_down-hangs reason now p s free many running =
      let (w, v, oldest, found, runs) = oldest_from-found p.workers p.min_workers many running in
      let few : leb (length p.workers) p.min_workers ≡ false = ground (arith, many) in
      let e : scale_down json server reason now p s ≡ remove_worker json server w.id now p s =
        bind-ends (get_worker_count json server) _ (get_worker_count-free p s free)
        ∙ rw (few, oldest) refl in
      rw e (remove_worker-hangs w.id now v p s free found runs)

  scale_by_load-hangs :
      (now : ℕ) (p : Pool) (s : Store)
      → p.locked ≡ false
      → exceeds (average p.workers) p.config.scaling_threshold ≡ false
      → exceeds p.config.downscale_threshold (average p.workers) ≡ true
      → ltb p.min_workers (length p.workers) ≡ true
      → All IsRunning p.workers
      → Deadlocks (scale_by_load json server (average p.workers) (length p.workers) now p s)
  unfolding scale_by_load ◌>>=◌
  scale_by_load-hangs now p s free calm low many running =
      let down = scale_down-hangs "low_average_load" now p s free many running in
      let e : (scale_down json server "low_average_load" now p s).0 ≡ hangs = down.0 in
      rw (calm, low, many, e) (refl, down.1)

  evaluate_load-hangs :
      (now : ℕ) (p : Pool) (s : Store)
      → p.locked ≡ false
      → All IsRunning p.workers
      → ltb p.config.emergency_threshold
          (length_or_zero (queue_length json server "workflow_queue" s).0)
        ≡ false
      → exceeds (average p.workers) p.config.scaling_threshold ≡ false
      → exceeds p.config.downscale_threshold (average p.workers) ≡ true
      → ltb p.min_workers (length p.workers) ≡ true
      → Deadlocks (evaluate_load json server now p s)
  unfolding evaluate_load ◌>>=◌ get_queue_length
  evaluate_load-hangs now p s free running short calm low many =
      let t = (queue_length json server "workflow_queue" s).1 in
      let e : evaluate_load json server now p s
          ≡ scale_by_load json server (average p.workers) (length p.workers) now
              (deactivate_emergency_mode p) t =
        bind-ends (calculate_average_load json server) _ (average-free p s free)
        ∙ bind-ends (get_worker_count json server) _ (get_worker_count-free p t free)
        ∙ rw short refl in
      elim (Bool-cases p.emergency_mode) [
        | inl on ↦
            let off : Pool = record p { emergency_mode = false; emergency_reason = "" } in
            let now_off : deactivate_emergency_mode p ≡ off = if_true off p on in
            rw (e, now_off) (scale_by_load-hangs now off t free calm low many running)
        | inr off ↦
            let same : deactivate_emergency_mode p ≡ p =
              if_false (record p { emergency_mode = false; emergency_reason = "" }) p off in
            rw (e, same) (scale_by_load-hangs now p t free calm low many running)
      ]

  evaluate_and_scale-hangs :
      (now : ℕ) (p : Pool) (s : Store)
      → p.locked ≡ false
      → All IsRunning p.workers
      → ltb (since now p.last_scale_time) p.config.max_scaling_frequency ≡ false
      → ltb p.config.emergency_threshold
          (length_or_zero (queue_length json server "workflow_queue" s).0)
        ≡ false
      → exceeds (average p.workers) p.config.scaling_threshold ≡ false
      → exceeds p.config.downscale_threshold (average p.workers) ≡ true
      → ltb p.min_workers (length p.workers) ≡ true
      → Deadlocks (evaluate_and_scale json server now p s)
  unfolding evaluate_and_scale ◌>>=◌
  evaluate_and_scale-hangs now p s free running rested short calm low many =
      rw rested (evaluate_load-hangs now p s free running short calm low many)

  -- Where the pool's lock is free, no worker was stopped, the last change is long enough ago, the
  -- length read for the queue is no emergency, the average load is not above the threshold for a
  -- further worker, but below the one for a worker less, and there are more workers than the least
  -- number, evaluateAndScale hangs with the lock held: of any events that follow, none dispatches a task.
  pub evaluate_and_scale-deadlocks :
      (now : ℕ) (es : List PoolEvent) (p : Pool) (s : Store)
      → p.locked ≡ false
      → All IsRunning p.workers
      → ltb (since now p.last_scale_time) p.config.max_scaling_frequency ≡ false
      → ltb p.config.emergency_threshold
          (length_or_zero (queue_length json server "workflow_queue" s).0)
        ≡ false
      → exceeds (average p.workers) p.config.scaling_threshold ≡ false
      → exceeds p.config.downscale_threshold (average p.workers) ≡ true
      → ltb p.min_workers (length p.workers) ≡ true
      → let r = evaluate_and_scale json server now p s in
        (r.0 ≡ hangs) × ((run_events json server es r.1.0 r.1.1).0 ≡ 0)
  evaluate_and_scale-deadlocks now es p s free running rested short calm low many =
      let (hang, held) = evaluate_and_scale-hangs now p s free running rested short calm low many in
      let r = evaluate_and_scale json server now p s in
      (hang, run_events-Locked json server es r.1.0 r.1.1 held)
