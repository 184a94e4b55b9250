-- ===== src/Worker/Pool/Health.antt =====
-- performHealthCheck and updateMetrics of internal/worker/pool.go.
use engine_api_workflow.Common.{
  ==_iff, Option-cases, ℕ, ◌*◌, ◌≤◌, ◌≡◌, refl, inl, inr, true, false, List, [], ◌∷◌, none, arith,
  All, length, ◌↔◌,
}
use engine_api_workflow.Queue.Named.{Server, Json}
use engine_api_workflow.Worker.Pool.{Worker, Pool, ends, ◌>>=◌, read_lock, since}
use engine_api_workflow.Worker.Pool.Work.{
  begin_check, health_of, issue_of, issues_of, perform_health_check,
}
use engine_api_workflow.Worker.Pool.Rules.{bind-ends, read_lock-free}

-- It beat in time and its recorded error rate is at most a half.
abbrev pub IsSound : ℕ → ℕ → Worker → Type 0
IsSound max_idle now w =
    (since now w.last_heartbeat ≤ max_idle)
    × (w.stats.error_rate.top * 2 ≤ w.stats.error_rate.bottom)

issue_of_iff :
    (max_idle now : ℕ) (w : Worker) → (issue_of max_idle now w ≡ none) ↔ IsSound max_idle now w
issue_of_iff max_idle now w = ground arith

issues_of_iff :
    (max_idle now : ℕ) (ws : List Worker)
    → (length (issues_of max_idle now ws) ≡ 0) ↔ All (IsSound max_idle now) ws
unfolding issues_of
issues_of_iff max_idle now [] = (λ h. tt, λ h. refl)
issues_of_iff max_idle now (w ∷ ws) =
    let (forth, back) = issue_of_iff max_idle now w in
    let (forths, backs) = issues_of_iff max_idle now ws in
    elim (Option-cases (issue_of max_idle now w)) [
      | inl fine ↦ rw fine (λ h. (forth fine, forths h), λ (h, all). backs all)
      | inr (x, bad) ↦
          rw bad (λ h. absurd (ground (arith, h)), λ (h, all). absurd (ground (arith, bad, back h)))
    ]

module _ (json : Json) (server : Server) where
  open server use {Store}

  -- Where the lock is free, performHealthCheck returns, changes nothing but the health status, and
  -- finds the pool healthy exactly when every worker's last heartbeat is not too long ago and
  -- its recorded error rate is at most a half.
  pub perform_health_check_iff :
      (now : ℕ) (p : Pool) (s : Store)
      → p.locked ≡ false
      → let r = perform_health_check json server now p s in
        (r ≡ (ends tt, (record p { health = r.1.0.health }, s)))
        × ((r.1.0.health.is_healthy ≡ true) ↔ All (IsSound p.config.max_idle_time now) p.workers)
  unfolding perform_health_check ◌>>=◌
  perform_health_check_iff now p s free =
      let q : Pool = record p { health = health_of p.config.max_idle_time now p.workers } in
      let e : perform_health_check json server now p s ≡ (ends tt, (q, s)) =
        bind-ends read_lock _ (read_lock-free (begin_check now p) s free) in
      let (forth, back) = issues_of_iff p.config.max_idle_time now p.workers in
      let zero_iff = ==_iff (length (issues_of p.config.max_idle_time now p.workers)) 0 in
      rw e (refl, (λ h. forth (zero_iff.0 h), λ all. zero_iff.1 (back all)))
