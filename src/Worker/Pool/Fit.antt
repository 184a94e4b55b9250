-- ===== src/Worker/Pool/Fit.antt =====
-- What holds of the pool of internal/worker/pool.go from its start on, whatever its goroutines do.
use engine_api_workflow.Common.{
  subst, ℕ, zero, suc, ◌+◌, ◌≤◌, ◌≡◌, inl, inr, Bool, true, false, ◌&&◌, List, [], ◌∷◌, ◌++◌,
  Option, some, arith, Bool-cases, All, length, length-append, ltb, ◌==◌, if◌then◌else◌, String,
}
use engine_api_workflow.Queue.Named.{Server, Json}
use engine_api_workflow.Worker.Pool.{
  Activity, unoccupied, occupied, closing, leaving, ScalingEvent, Worker, Pool, Call, crashes,
  read_lock, lock, modify, pure,
}
use engine_api_workflow.Worker.Pool.Scale.{
  put_worker, change_worker, drop_worker, drop_event, capped, record_scaling_event,
  get_queue_length, calculate_average_load,
}
use engine_api_workflow.Worker.Pool.Work.{best_from, is_better, is_available, set_worker}
use engine_api_workflow.Worker.Pool.Events.{swap_at}
use engine_api_workflow.Worker.Pool.Lists.{change_worker-All}
use engine_api_workflow.Worker.Pool.Rules.{
  strengthen, Triple, weaken, bind-Triple, modify-Triple, pure-Triple, get_pool-Triple,
  read_lock-Triple, lock-Triple,
}

-- One while a task has its result counted and is not yet among those that were processed.
abbrev pub unaccounted : Activity → ℕ
unaccounted unoccupied = 0
unaccounted (occupied task started) = 0
unaccounted (closing started) = 1
unaccounted leaving = 0

-- Each task that it processed, and the unaccounted one, succeeded or failed, and its channel holds no
-- more than it can.
abbrev pub IsFit : Worker → Type 0
IsFit w =
    (w.stats.tasks_processed + unaccounted w.activity
      ≡ w.stats.tasks_succeeded + w.stats.tasks_failed)
    × (length w.waiting ≤ w.capacity)

length-if :
    (b : Bool) (xs ys : List Worker) (n : ℕ)
    → length xs ≤ n
    → length ys ≤ n
    → length (if b then xs else ys) ≤ n
length-if true xs ys n h k = h
length-if false xs ys n h k = k

pub length-put_worker : (w : Worker) (ws : List Worker) → length (put_worker w ws) ≤ suc (length ws)
unfolding put_worker
length-put_worker w [] = omega arith
length-put_worker w (v ∷ ws) =
    length-if (v.id == w.id) _ _ _ (omega arith) (omega (arith, length-put_worker w ws))

pub length-change_worker : (w : Worker) (ws : List Worker) → length (change_worker w ws) ≤ length ws
unfolding change_worker
length-change_worker w [] = omega arith
length-change_worker w (v ∷ ws) =
    length-if (v.id == w.id) _ _ _ (omega arith) (omega (arith, length-change_worker w ws))

pub length-drop_worker : (id : ℕ) (ws : List Worker) → length (drop_worker id ws) ≤ length ws
unfolding drop_worker
length-drop_worker id [] = omega arith
length-drop_worker id (v ∷ ws) =
    length-if (v.id == id) _ _ _ (omega arith) (omega (arith, length-drop_worker id ws))

pub length-swap_at : (i : ℕ) (ws : List Worker) → length (swap_at i ws) ≤ length ws
unfolding swap_at
length-swap_at i [] = omega arith
length-swap_at i (x ∷ []) = omega arith
length-swap_at zero (x ∷ (y ∷ l)) = omega arith
length-swap_at (suc i) (x ∷ (y ∷ l)) = omega (arith, length-swap_at i (y ∷ l))

length-drop_event : (l : List ScalingEvent) (n : ℕ) → length l ≤ suc n → length (drop_event l) ≤ n
length-drop_event [] n h = omega arith
length-drop_event (x ∷ l) n h = omega (arith, h)

length-capped :
    (l : List ScalingEvent) (e : ScalingEvent)
    → length l ≤ 100
    → length (capped (l ++ e ∷ [])) ≤ 100
length-capped l e h =
    let one_more = length-append l (e ∷ []) in
    elim (Bool-cases (ltb 100 (length (l ++ e ∷ [])))) [
      | inl over ↦ rw over (length-drop_event (l ++ e ∷ []) 100 (omega (arith, h, one_more)))
      | inr fits ↦ rw fits (ground (arith, fits))
    ]

pub best_from-All :
    (P : Worker → Type 0) (ws : List Worker) (b : Option Worker) (w : Worker)
    → best_from b ws ≡ some w
    → ((v : Worker) → b ≡ some v → P v)
    → All P ws
    → P w
unfolding best_from
best_from-All P [] b w h k all = k w h
best_from-All P (v ∷ ws) b w h k (x, all) = elim (Bool-cases (is_available v && is_better v b)) [
  | inl better ↦
      let e : best_from (some v) ws ≡ some w = rw better at h in
      best_from-All P ws (some v) w e
        (λ u same. let eq : v ≡ u = ground (arith, same) in subst P eq x) all
  | inr worse ↦ let e : best_from b ws ≡ some w = rw worse at h in best_from-All P ws b w e k all
]

module _ (json : Json) (server : Server) where
  open server use {Store}

  abbrev pub Fit : Pool → Store → Type 0
  Fit p s =
      All IsFit p.workers × (length p.workers ≤ p.max_workers) × (length p.scaling_history ≤ 100)

  abbrev pub Kept : {A : Type 0} → A → Pool → Store → Type 0
  Kept a = Fit

  unfoldable pub Keeps : Call Store (Unit {0}) → Type 0
  Keeps m = Triple Fit m Kept Fit

  pub change :
      (f : Pool → Pool) → ((p : Pool) (s : Store) → Fit p s → Fit (f p) s) → Keeps (modify f)
  unfolding Keeps
  change f h = modify-Triple f h

  pub skip : Keeps (pure tt)
  unfolding Keeps
  skip = pure-Triple tt λ p s h. h

  pub crash : Keeps (λ p s. (crashes, (p, s)))
  unfolding Keeps
  crash = record { holds = λ p s h. h }

  pub read_lock-Fit : Triple Fit read_lock Kept Fit
  read_lock-Fit = read_lock-Triple λ p s h. h

  pub lock-Fit : Triple Fit lock Kept Fit
  lock-Fit = lock-Triple (λ p s h. h) (λ p s h. h)

  pub set_worker-Keeps : (w : Worker) → IsFit w → Keeps (set_worker json server w)
  set_worker-Keeps w h = change _ λ p s (all, few, short). (
    change_worker-All IsFit w p.workers h all,
    omega (arith, few, length-change_worker w p.workers),
    short,
  )

  -- What is known of the workers stays known.
  pub record_scaling_event-frame :
      (R : List Worker → ℕ → Type 0) (action : String) (from to : ℕ) (reason : String) (now : ℕ)
      → Triple
          (λ p s. R p.workers p.max_workers × Fit p s)
          (record_scaling_event json server action from to reason now)
          (λ a p s. R p.workers p.max_workers × Fit p s)
          Fit
  unfolding record_scaling_event get_queue_length calculate_average_load
  record_scaling_event-frame R action from to reason now =
      bind-Triple {Q = λ n p s. R p.workers p.max_workers × Fit p s} (record { holds = λ p s h. h })
        λ n.
          bind-Triple {Q = λ n p s. R p.workers p.max_workers × Fit p s}
            (bind-Triple (read_lock-Triple λ p s h. h.1)
              λ u. bind-Triple get_pool-Triple λ p. pure-Triple _ λ q s h. h.1)
            λ load.
              modify-Triple _ λ p s (r, (all, few, short)).
                (r, (all, few, length-capped p.scaling_history _ short))

  pub record_scaling_event-Keeps :
      (action : String) (from to : ℕ) (reason : String) (now : ℕ)
      → Keeps (record_scaling_event json server action from to reason now)
  unfolding Keeps
  record_scaling_event-Keeps action from to reason now =
      weaken (λ p s h. (tt, h))
        (strengthen (λ a p s h. h.1)
          (record_scaling_event-frame (λ ws n. Unit) action from to reason now))
