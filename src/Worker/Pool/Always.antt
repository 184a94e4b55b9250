-- ===== src/Worker/Pool/Always.antt =====
-- What every event keeps: workers that are fit, no more of them than allowed, and a history of bounded
-- length.
use engine_api_workflow.Common.{
  ℕ, suc, ◌+◌, ◌≤◌, ◌<◌, ◌≡◌, refl, sym, ap, ◌∙◌, List, Option, none, some, arith, length, leb,
  String,
}
use engine_api_workflow.Queue.Named.{Server, Json}
use engine_api_workflow.Worker.Pool.{Worker, Pool, Call, modify, pure}
use engine_api_workflow.Worker.Pool.Scale.{
  find_worker, new_worker, create_worker, stop_worker, remove_worker, get_worker_count, scale_up,
  scale_down, oldest_from, stop_flags, get_next_worker_id,
}
use engine_api_workflow.Worker.Pool.Lists.{put_worker-All, find_worker-All}
use engine_api_workflow.Worker.Pool.Rules.{
  strengthen, Triple, weaken, if-Triple, bind-Triple, modify-Triple, pure-Triple, get_pool-Triple,
  lock-Triple,
}
use engine_api_workflow.Worker.Pool.Fit.{
  IsFit, length-put_worker, Fit, Kept, Keeps, change, skip, crash, read_lock-Fit, lock-Fit,
  set_worker-Keeps, record_scaling_event-Keeps, record_scaling_event-frame,
}

module _ (json : Json) (server : Server) where
  open server use {Store}

  -- There is room for a worker.
  abbrev pub Roomy : Pool → Store → Type 0
  Roomy p s = (length p.workers < p.max_workers) × Fit json server p s

  abbrev pub Counted : ℕ → Pool → Store → Type 0
  Counted n p s = (n ≡ length p.workers) × Fit json server p s

  pub get_worker_count-Counted :
      Triple (Fit json server) (get_worker_count json server) Counted (Fit json server)
  unfolding get_worker_count
  get_worker_count-Counted = bind-Triple (read_lock-Fit json server) λ u.
      bind-Triple get_pool-Triple
        λ p. pure-Triple _ λ q s (same, h). (ap (λ x. length x.workers) same, h)

  -- At most `n` workers, and room for `k` more.
  abbrev pub RoomFor : ℕ → ℕ → List Worker → ℕ → Type 0
  RoomFor n k ws max = (length ws ≤ n) × (n + k ≤ max)

  abbrev pub Growing : ℕ → ℕ → Pool → Store → Type 0
  Growing n k p s = RoomFor n k p.workers p.max_workers × Fit json server p s

  pub create_worker-grows :
      (n k id now : ℕ)
      → Triple
          (Growing n (suc k))
          (create_worker json server id now)
          (λ a. Growing (suc n) k)
          (Fit json server)
  unfolding create_worker
  create_worker-grows n k id now = bind-Triple (lock-Triple (λ p s h. h.1) (λ p s h. h)) λ u.
      bind-Triple {Q = λ a. Growing (suc n) k}
        (modify-Triple _ λ p s ((few_now, room), (all, few, short)).
          let w = new_worker id p.config.task_channel_size now in
          let more = length-put_worker w p.workers in
          (
            (omega (arith, more, few_now), omega (arith, room)),
            (
              put_worker-All IsFit w p.workers (omega arith, omega arith) all,
              omega (arith, room, few_now, more),
              short,
            ),
          ))
        λ v. bind-Triple {Q = λ a. Growing (suc n) k} (modify-Triple _ λ p s h. h) λ x.
          bind-Triple get_pool-Triple λ p.
            weaken (λ q s h. h.1)
              (record_scaling_event-frame json server (RoomFor (suc n) k) _ _ _ _ now)

  pub create_worker-Keeps :
      (id now : ℕ)
      → Triple Roomy (create_worker json server id now) (Kept json server) (Fit json server)
  create_worker-Keeps id now = record {
    holds = λ p s (room, h).
        (strengthen (λ a q t k. k.1) (create_worker-grows (length p.workers) 0 id now)).holds p s
          ((omega arith, omega (arith, room)), h);
  }

  pub scale_up-Keeps :
      (reason : String) (now : ℕ) → Keeps json server (scale_up json server reason now)
  unfolding Keeps scale_up
  scale_up-Keeps reason now = bind-Triple get_worker_count-Counted λ count.
      bind-Triple get_pool-Triple λ p.
        if-Triple {n = create_worker json server (get_next_worker_id p.workers) now}
          (leb p.max_workers count) (λ e. weaken (λ q s h. h.1.1) (skip json server))
          (λ e.
            weaken
              (λ q s (same, (count_is, h)).
                (ground (arith, e, count_is, ap (λ x. x.max_workers) same), h))
              (create_worker-Keeps (get_next_worker_id p.workers) now))

  stop_worker-Keeps : (w : Worker) → IsFit w → Keeps json server (stop_worker json server w)
  unfolding Keeps stop_worker
  stop_worker-Keeps w h =
      if-Triple {n = modify _} w.stopped (λ e. crash json server)
        λ e. set_worker-Keeps json server (stop_flags w) h

  pub found-Keeps :
      (id : ℕ) (p : Pool) (f : Worker → Call Store (Unit {0}))
      → ((w : Worker) → IsFit w → Keeps json server (f w))
      → Triple
          (λ q s. (p ≡ q) × Fit json server q s)
          (elim (find_worker id p.workers) [ none ↦ pure tt | some w ↦ f w ])
          (Kept json server)
          (Fit json server)
  unfolding Keeps
  found-Keeps id p f h = go (find_worker id p.workers) refl
    where
      go :
          (o : Option Worker)
          → find_worker id p.workers ≡ o
          → Triple
              (λ q s. (p ≡ q) × Fit json server q s)
              (elim o [ none ↦ pure tt | some w ↦ f w ])
              (Kept json server)
              (Fit json server)
      go none e = weaken (λ q s k. k.1) (skip json server)
      go (some w) e = record {
        holds = λ q s (same, k).
            let here : find_worker id q.workers ≡ some w =
              ap (λ x. find_worker id x.workers) (sym same) ∙ e in
            (h w (find_worker-All IsFit id q.workers w here k.0)).holds q s k;
      }

  remove_worker-Keeps : (id now : ℕ) → Keeps json server (remove_worker json server id now)
  unfolding Keeps remove_worker
  remove_worker-Keeps id now = bind-Triple (lock-Fit json server) λ u.
      bind-Triple get_pool-Triple λ p.
        bind-Triple
          (found-Keeps id p _ λ w fit. bind-Triple (stop_worker-Keeps w fit) λ a.
            bind-Triple (change json server _ λ x y h. h)
              λ b. record_scaling_event-Keeps json server _ _ _ _ now)
          λ v. change json server _ λ q s h. h

  pub scale_down-Keeps :
      (reason : String) (now : ℕ) → Keeps json server (scale_down json server reason now)
  unfolding Keeps scale_down
  scale_down-Keeps reason now = bind-Triple get_worker_count-Counted λ count.
      bind-Triple get_pool-Triple λ p.
        weaken (λ q s h. h.1.1)
          (if-Triple
            {n = elim (oldest_from none p.workers) [
              | none ↦ pure tt
              | some w ↦ remove_worker json server w.id now
            ]}
            (leb count p.min_workers) (λ e. skip json server)
            (λ e. go (oldest_from none p.workers)))
    where
      go :
          (o : Option Worker)
          → Keeps json server
              (elim o [ none ↦ pure tt | some w ↦ remove_worker json server w.id now ])
      go none = skip json server
      go (some w) = remove_worker-Keeps w.id now
