-- ===== src/Worker/Pool/Starved.antt =====
-- The pool when every worker is unhealthy and has nothing to do: scaling does not help it.
use engine_api_workflow.Common.{
  ◌-◌, ◌&&◌, String, sym, leb, String, ◌∙◌, ap, ℕ, Bool, true, false, List, [], ◌∷◌, ◌≡◌, refl,
  Option, none, some, if◌then◌else◌, arith, All, length, ltb,
}
use engine_api_workflow.Queue.Named.{Server, Json, NeverFails, queue_length}
use engine_api_workflow.Worker.Pool.{
  unoccupied, Fraction, Worker, Pool, Call, crashes, ◌>>=◌, ◌>>◌, read_lock, get_pool, modify, pure,
  since, exceeds,
}
use engine_api_workflow.Worker.Pool.Scale.{
  scale_up, scaled_at, oldest_from, emergency_text, evaluate_load, evaluate_and_scale,
  scale_by_load, deactivate_emergency_mode, activate_emergency_mode, scale_down, find_worker,
  stop_flags, average, total_waiting, get_queue_length, get_worker_count, calculate_average_load,
  remove_worker, stop_worker, record_scaling_event,
}
use engine_api_workflow.Worker.Pool.Work.{set_worker}
use engine_api_workflow.Worker.Pool.Lists.{change_worker-All, find_worker-All}
use engine_api_workflow.Worker.Pool.Rules.{
  read_lock-Triple, lock-Triple, fact-Triple, Triple, weaken, if-Triple, bind-Triple, modify-Triple,
  pure-Triple, get_pool-Triple,
}

-- It has nothing to do and is not sent anything.
abbrev pub IsStarving : Worker → Type 0
IsStarving w = (w.is_healthy ≡ false) × (w.waiting ≡ []) × (w.activity ≡ unoccupied)

module _ (json : Json) (server : Server) (sure : NeverFails server) where
  open server use {Store, view}

  -- The list that the pool measures is not long enough for an emergency.
  abbrev pub IsCalm : Pool → Store → Type 0
  IsCalm p s = ltb p.config.emergency_threshold (length ((view s).lists "workflow_queue")) ≡ false

  abbrev pub Starved : Pool → Store → Type 0
  Starved p s = All IsStarving p.workers × IsCalm p s

  abbrev pub Kept : {A : Type 0} → A → Pool → Store → Type 0
  Kept a = Starved

  pub read_lock-Starved : Triple Starved read_lock Kept Starved
  read_lock-Starved = read_lock-Triple λ p s h. h

  total_waiting-zero : (ws : List Worker) → All IsStarving ws → total_waiting ws ≡ 0
  unfolding total_waiting
  total_waiting-zero [] all = refl
  total_waiting-zero (w ∷ ws) ((ill, empty, idle), all) =
      let none_here : length w.waiting ≡ 0 = ap length empty in
      omega (arith, none_here, total_waiting-zero ws all)

  average-zero : (ws : List Worker) → All IsStarving ws → (average ws).top ≡ 0
  average-zero [] all = refl
  average-zero (w ∷ ws) all = total_waiting-zero (w ∷ ws) all

  abbrev NoLoad : Fraction → Pool → Store → Type 0
  NoLoad load p s = (load.top ≡ 0) × Starved p s

  calculate_average_load-Starved :
      Triple Starved (calculate_average_load json server) NoLoad Starved
  unfolding calculate_average_load
  calculate_average_load-Starved = bind-Triple read_lock-Starved λ u.
      bind-Triple get_pool-Triple λ p. pure-Triple (average p.workers) λ q s (same, (all, calm)).
        (ap (λ x. (average x.workers).top) same ∙ average-zero q.workers all, (all, calm))

  abbrev Short : ℕ → Pool → Store → Type 0
  Short n p s = (ltb p.config.emergency_threshold n ≡ false) × Starved p s

  get_queue_length-Starved : Triple Starved (get_queue_length json server) Short Starved
  unfolding get_queue_length queue_length
  get_queue_length-Starved = record {
    holds = λ p s (all, calm).
        let (n, answered) = sure.llen_answers "workflow_queue" s in
        let (right, same) = server.llen_effect "workflow_queue" s n answered in
        rw (answered, right, same) (calm, (all, calm));
  }

  unfoldable pub Keeps : Call Store (Unit {0}) → Type 0
  Keeps m = Triple Starved m Kept Starved

  pub skip : Keeps (pure tt)
  unfolding Keeps
  skip = pure-Triple tt λ p s h. h

  pub change :
      (f : Pool → Pool)
      → ((p : Pool) (s : Store) → Starved p s → Starved (f p) s)
      → Keeps (modify f)
  unfolding Keeps
  change f h = modify-Triple f h

  crash : Keeps (λ p s. (crashes, (p, s)))
  unfolding Keeps
  crash = record { holds = λ p s h. h }

  record_scaling_event-Keeps :
      (action : String) (from to : ℕ) (reason : String) (now : ℕ)
      → Keeps (record_scaling_event json server action from to reason now)
  unfolding Keeps record_scaling_event
  record_scaling_event-Keeps action from to reason now = bind-Triple get_queue_length-Starved λ n.
      bind-Triple (weaken (λ p s h. h.1) calculate_average_load-Starved)
        λ load. modify-Triple _ λ p s h. h.1

  pub set_worker-Keeps : (w : Worker) → IsStarving w → Keeps (set_worker json server w)
  set_worker-Keeps w h =
      change _ λ p s (all, calm). (change_worker-All IsStarving w p.workers h all, calm)

  stop_worker-Keeps : (w : Worker) → IsStarving w → Keeps (stop_worker json server w)
  unfolding Keeps stop_worker
  stop_worker-Keeps w h =
      if-Triple {n = modify _} w.stopped (λ e. crash)
        λ e.
          change _
            λ p s (all, calm). (change_worker-All IsStarving (stop_flags w) p.workers h all, calm)

  remove_worker-Keeps : (id now : ℕ) → Keeps (remove_worker json server id now)
  unfolding Keeps remove_worker
  remove_worker-Keeps id now = bind-Triple (lock-Triple (λ p s h. h) (λ p s h. h)) λ u.
      bind-Triple get_pool-Triple
        λ p. bind-Triple (found p (find_worker id p.workers) refl) λ v. change _ λ q s h. h
    where
      found :
          (p : Pool) (o : Option Worker)
          → find_worker id p.workers ≡ o
          → Triple
              (λ q s. (p ≡ q) × Starved q s)
              (elim o [
                | none ↦ pure tt
                | some w ↦ do
                  stop_worker json server w
                  modify (λ q. record q { doomed = id ∷ q.doomed })
                  record_scaling_event json server "scale_down"
                      (length p.workers)
                      (length p.workers - 1)
                      "worker_removed"
                      now
              ])
              Kept
              Starved
      found p none e = weaken (λ q s h. h.1) skip
      found p (some w) e = record {
        holds = λ q s (same, (all, calm)).
            let here : find_worker id q.workers ≡ some w =
              ap (λ x. find_worker id x.workers) (sym same) ∙ e in
            let ill = find_worker-All IsStarving id q.workers w here all in
            (bind-Triple (stop_worker-Keeps w ill) λ a.
                bind-Triple (change _ λ x y h. h) λ b. record_scaling_event-Keeps _ _ _ _ now).holds
              q s (all, calm);
      }

  get_worker_count-Triple :
      {P : Pool → Store → Type 0}
      → ((p : Pool) (s : Store) → P p s → Starved p s)
      → Triple P (get_worker_count json server) (λ a. P) Starved
  unfolding get_worker_count
  get_worker_count-Triple out =
      bind-Triple (read_lock-Triple out)
        λ u. bind-Triple get_pool-Triple λ p. pure-Triple _ λ q s h. h.1

  scale_down-Keeps : (reason : String) (now : ℕ) → Keeps (scale_down json server reason now)
  unfolding Keeps scale_down
  scale_down-Keeps reason now = bind-Triple (get_worker_count-Triple λ p s h. h) λ count.
      bind-Triple get_pool-Triple λ p.
        weaken (λ q s h. h.1)
          (if-Triple
            {n = elim (oldest_from none p.workers) [
              | none ↦ pure tt
              | some w ↦ remove_worker json server w.id now
            ]}
            (leb count p.min_workers) (λ e. skip) (λ e. go (oldest_from none p.workers)))
    where
      go :
          (o : Option Worker)
          → Keeps (elim o [ none ↦ pure tt | some w ↦ remove_worker json server w.id now ])
      go none = skip
      go (some w) = remove_worker-Keeps w.id now

  no_load : (load f : Fraction) (b : Bool) → load.top ≡ 0 → (exceeds load f && b) ≡ false
  no_load load f b h = ground (arith, h)

  abbrev lower : ℕ → Call Store (Unit {0})
  lower now = scale_down json server "low_average_load" now >> modify (scaled_at json server now)

  lower-Keeps : (now : ℕ) → Keeps (lower now)
  unfolding Keeps
  lower-Keeps now = bind-Triple (scale_down-Keeps "low_average_load" now) λ a. change _ λ p s h. h

  scale_by_load-Keeps :
      (load : Fraction) (count now : ℕ)
      → load.top ≡ 0
      → Keeps (scale_by_load json server load count now)
  unfolding Keeps scale_by_load
  scale_by_load-Keeps load count now zero_load = bind-Triple get_pool-Triple λ p.
      weaken (λ q s h. h.1)
        (if-Triple
          {n = if exceeds p.config.downscale_threshold load && ltb p.min_workers count
            then lower now
            else pure tt}
          (exceeds load p.config.scaling_threshold && ltb count p.max_workers)
          (λ e. absurd (
            ground (
              arith,
              e,
              no_load load p.config.scaling_threshold (ltb count p.max_workers) zero_load,
            )))
          (λ e.
            if-Triple {m = lower now} {n = pure tt}
              (exceeds p.config.downscale_threshold load && ltb p.min_workers count)
              (λ d. lower-Keeps now) (λ d. skip)))

  deactivate-Starved :
      (p : Pool) (s : Store) → Starved p s → Starved (deactivate_emergency_mode p) s
  deactivate-Starved p s h = go p.emergency_mode
    where
      go :
          (b : Bool)
          → Starved (if b then record p { emergency_mode = false; emergency_reason = "" } else p) s
      go true = h
      go false = h

  above-Keeps :
      (load : Fraction) (n now : ℕ)
      → load.top ≡ 0
      → Triple
          (Short n)
          (do
            count ← get_worker_count json server
            p ← get_pool
            if ltb p.config.emergency_threshold n
                then modify (activate_emergency_mode (emergency_text json server n))
                  >> scale_up json server "emergency_high_queue" now
                else modify deactivate_emergency_mode >> scale_by_load json server load count now)
          Kept
          Starved
  unfolding Keeps
  above-Keeps load n now zero_load = bind-Triple (get_worker_count-Triple λ p s h. h.1) λ count.
      bind-Triple get_pool-Triple λ p.
        if-Triple {n = modify deactivate_emergency_mode >> scale_by_load json server load count now}
          (ltb p.config.emergency_threshold n)
          (λ e. record {
            holds = λ q s (same, (short, h)).
                absurd (ground (arith, e, short, ap (λ x. x.config.emergency_threshold) same));
          })
          (λ e.
            weaken (λ q s h. h.1.1)
              (bind-Triple (change _ deactivate-Starved)
                λ a. scale_by_load-Keeps load count now zero_load))

  evaluate_load-Keeps : (now : ℕ) → Keeps (evaluate_load json server now)
  unfolding Keeps evaluate_load
  evaluate_load-Keeps now = bind-Triple calculate_average_load-Starved λ load.
      fact-Triple
        λ zero_load. bind-Triple get_queue_length-Starved λ n. above-Keeps load n now zero_load

  pub evaluate_and_scale-Keeps : (now : ℕ) → Keeps (evaluate_and_scale json server now)
  unfolding Keeps evaluate_and_scale
  evaluate_and_scale-Keeps now = bind-Triple get_pool-Triple λ p.
      weaken (λ q s h. h.1)
        (if-Triple {n = evaluate_load json server now}
          (ltb (since now p.last_scale_time) p.config.max_scaling_frequency) (λ e. skip)
          (λ e. evaluate_load-Keeps now))
