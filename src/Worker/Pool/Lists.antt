-- ===== src/Worker/Pool/Lists.antt =====
-- What holds of every worker of the pool, through the changes of the map.
use engine_api_workflow.Common.{
  subst, ℕ, zero, suc, Bool, true, false, List, [], ◌∷◌, ◌≡◌, some, arith, Bool-cases, inl, inr,
  All, ◌==◌, if◌then◌else◌,
}
use engine_api_workflow.Worker.Pool.{Worker}
use engine_api_workflow.Worker.Pool.Scale.{put_worker, change_worker, find_worker, drop_worker}
use engine_api_workflow.Worker.Pool.Events.{swap_at}

module _ (P : Worker → Type 0) where
  if-All : (b : Bool) (xs ys : List Worker) → All P xs → All P ys → All P (if b then xs else ys)
  if-All true xs ys h k = h
  if-All false xs ys h k = k

  pub put_worker-All : (w : Worker) (ws : List Worker) → P w → All P ws → All P (put_worker w ws)
  unfolding put_worker
  put_worker-All w [] h all = (h, tt)
  put_worker-All w (v ∷ ws) h (k, all) =
      if-All (v.id == w.id) _ _ (h, all) (k, put_worker-All w ws h all)

  pub change_worker-All :
      (w : Worker) (ws : List Worker) → P w → All P ws → All P (change_worker w ws)
  unfolding change_worker
  change_worker-All w [] h all = tt
  change_worker-All w (v ∷ ws) h (k, all) =
      if-All (v.id == w.id) _ _ (h, all) (k, change_worker-All w ws h all)

  pub drop_worker-All : (id : ℕ) (ws : List Worker) → All P ws → All P (drop_worker id ws)
  unfolding drop_worker
  drop_worker-All id [] all = tt
  drop_worker-All id (v ∷ ws) (k, all) = if-All (v.id == id) _ _ all (k, drop_worker-All id ws all)

  pub find_worker-All :
      (id : ℕ) (ws : List Worker) (w : Worker) → find_worker id ws ≡ some w → All P ws → P w
  unfolding find_worker
  find_worker-All id [] w h all = absurd (ground (arith, h))
  find_worker-All id (v ∷ ws) w h (k, all) = elim (Bool-cases (v.id == id)) [
    | inl here ↦ let same : v ≡ w = ground (arith, h, here) in subst P same k
    | inr other ↦
        let later : find_worker id ws ≡ some w = ground (arith, h, other) in
        find_worker-All id ws w later all
  ]

  pub swap_at-All : (i : ℕ) (ws : List Worker) → All P ws → All P (swap_at i ws)
  unfolding swap_at
  swap_at-All i [] all = all
  swap_at-All i (x ∷ []) all = all
  swap_at-All zero (x ∷ (y ∷ l)) (h, (k, all)) = (k, (h, all))
  swap_at-All (suc i) (x ∷ (y ∷ l)) (h, all) = (h, swap_at-All i (y ∷ l) all)
