-- ===== src/Worker/Pool/Dispatch.antt =====
-- dispatchToOptimalWorker of internal/worker/pool.go.
use engine_api_workflow.Common.{
  ◌≤◌, ◌<◌, ◌≡◌, refl, ◌∙◌, ◌⊎◌, inl, inr, true, false, ◌&&◌, List, [], ◌∷◌, none, some, arith,
  Bool-cases, All, length, pos, ◌+ℤ◌,
}
use engine_api_workflow.Models.Task.{QueueTask}
use engine_api_workflow.Queue.Named.{Server, Json}
use engine_api_workflow.Worker.Pool.{Worker, Pool, ends, ◌>>=◌, read_lock}
use engine_api_workflow.Worker.Pool.Scale.{change_worker}
use engine_api_workflow.Worker.Pool.Work.{
  is_available, is_better, best_from, has_room, with_task, send_task, dispatch_to_optimal_worker,
}
use engine_api_workflow.Worker.Pool.Rules.{bind-ends, read_lock-free}

abbrev pub In : Worker → List Worker → Type 0
In w [] = ⊥
In w (v ∷ ws) = (v ≡ w) ⊎ In w ws

-- Of the workers that are available none has fewer tasks in its channel.
abbrev pub IsLeast : Worker → List Worker → Type 0
IsLeast w ws = All (λ v. (is_available v ≡ false) ⊎ (length w.waiting ≤ length v.waiting)) ws

abbrev pub AreUnavailable : List Worker → Type 0
AreUnavailable ws = All (λ v. is_available v ≡ false) ws

-- A worker that is available and least loaded.
abbrev pub IsBest : Worker → List Worker → Type 0
IsBest w ws = In w ws × (is_available w ≡ true) × IsLeast w ws

best_from-some :
    (b : Worker) (ws : List Worker)
    → is_available b ≡ true
    → (w : Worker) × (best_from (some b) ws ≡ some w)
      × ((b ≡ w) ⊎ In w ws)
      × (is_available w ≡ true)
      × (length w.waiting ≤ length b.waiting)
      × IsLeast w ws
unfolding best_from
best_from-some b [] h = (b, refl, inl refl, h, omega arith, tt)
best_from-some b (v ∷ ws) h = elim (Bool-cases (is_available v && is_better v (some b))) [
  | inl better ↦
      let up : is_available v ≡ true = ground (arith, better) in
      let less : length v.waiting < length b.waiting = ground (arith, better) in
      let (w, e, from, ok, below, least) = best_from-some v ws up in
      (w, rw better e, inr from, ok, omega (arith, less, below), (inr below, least))
  | inr worse ↦
      let (w, e, from, ok, below, least) = best_from-some b ws h in
      let first : (is_available v ≡ false) ⊎ (length w.waiting ≤ length v.waiting) =
        elim (Bool-cases (is_available v)) [
          | inl up ↦ inr (ground (arith, worse, up, below))
          | inr down ↦ inl down
        ] in
      (w, rw worse e, elim from [ inl x ↦ inl x | inr x ↦ inr (inr x) ], ok, below, (first, least))
]

best_from-cases :
    (ws : List Worker)
    → ((best_from none ws ≡ none) × AreUnavailable ws)
      ⊎ ((w : Worker) × (best_from none ws ≡ some w) × IsBest w ws)
unfolding best_from
best_from-cases [] = inl (refl, tt)
best_from-cases (v ∷ ws) = elim (Bool-cases (is_available v)) [
  | inl up ↦
      let better : (is_available v && is_better v none) ≡ true = ground (arith, up) in
      let (w, e, from, ok, below, least) = best_from-some v ws up in
      inr (w, rw better e, (from, ok, (inr below, least)))
  | inr down ↦
      let worse : (is_available v && is_better v none) ≡ false = ground (arith, down) in
      elim (best_from-cases ws) [
        | inl (e, all) ↦ inl (rw worse e, (down, all))
        | inr (w, e, (here, ok, least)) ↦ inr (w, rw worse e, (inr here, ok, (inl down, least)))
      ]
]

module _ (json : Json) (server : Server) where
  open server use {Store}

  -- Where the lock is free, dispatchToOptimalWorker returns false and changes nothing when no worker is
  -- active and healthy, or when the channel of one that is, and has the fewest tasks of those, is
  -- full; otherwise it returns true, and has put the task at the end of the channel of such a worker and
  -- counted it.
  pub dispatch_to_optimal_worker-picks :
      (task : QueueTask) (p : Pool) (s : Store)
      → p.locked ≡ false
      → let r = dispatch_to_optimal_worker json server task p s in
        ((r ≡ (ends false, (p, s))) × AreUnavailable p.workers)
        ⊎ ((w : Worker) × IsBest w p.workers
            × (((r ≡ (ends false, (p, s))) × (w.capacity ≤ length w.waiting))
                ⊎ ((r ≡ (
                  ends true,
                  (
                    record p {
                      workers = change_worker (with_task task w) p.workers;
                      current_load = p.current_load +ℤ pos 1;
                    },
                    s,
                  ),
                ))
                    × (length w.waiting < w.capacity))))
  unfolding dispatch_to_optimal_worker send_task ◌>>=◌
  dispatch_to_optimal_worker-picks task p s free =
      let e : dispatch_to_optimal_worker json server task p s
          ≡ send_task json server task (best_from none p.workers) p s =
        bind-ends read_lock _ (read_lock-free p s free) in
      elim (best_from-cases p.workers) [
        | inl (nobody, all) ↦ inl (e ∙ rw nobody refl, all)
        | inr (w, best, is_best) ↦ elim (Bool-cases (has_room w)) [
          | inl room ↦ inr (w, is_best, inr (e ∙ rw (best, room) refl, ground (arith, room)))
          | inr full ↦ inr (w, is_best, inl (e ∙ rw (best, full) refl, ground (arith, full)))
        ]
      ]
