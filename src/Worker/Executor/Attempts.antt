-- ===== src/Worker/Executor/Attempts.antt =====
-- The attempts at a step.
use engine_api_workflow.Common.{
  none, Option, ◌↔◌, some, ℕ, zero, suc, ◌+◌, ◌≡◌, ◌≤◌, ◌⊎◌, inl, inr, refl, sym, subst, ◌∙◌, true,
  pos, negsuc, arith, Bool-cases, ap,
}
use engine_api_workflow.Models.Value.{Value, null, boolean, number, text, array, object}
use engine_api_workflow.Models.Workflow.{find_step, WorkflowStep, Workflow}
use engine_api_workflow.Worker.Executor.{
  get_var, Outcome-cases, returns, panics, ExecutionContext, Action, WorkflowExecutor, World,
}
use engine_api_workflow.Worker.Executor.Actions.{execute_step}
use engine_api_workflow.Worker.Executor.Delays.{max_retries, rounds}
use engine_api_workflow.Worker.Executor.Steps.{
  conclude, Round, conclude_last, take_step, Run, pause, succeeded, attempt_step, run_step,
}

module _ (world : World) (e : WorkflowExecutor world.State) (w : Workflow) where
  open world use {State}

  attempt_step_bounds :
      (k attempt n : ℕ) (step : WorkflowStep) (ctx : ExecutionContext) (s : State)
      (a : Action State)
      → attempt_step world e w (suc k) attempt step ctx s ≡ returns (some (n, a))
      → (attempt ≤ n) × (n ≤ k + attempt) × ((succeeded world e w a ≡ true) ⊎ (n ≡ k + attempt))
  unfolding attempt_step
  attempt_step_bounds zero attempt n step ctx s a h =
      elim (Outcome-cases (execute_step world e step ctx (pause world e w step attempt s))) [
        | inl p ↦ absurd (ground (arith, h, p))
        | inr (b, p) ↦ elim (Bool-cases (succeeded world e w b)) [
          | inl good ↦
              let same : attempt ≡ n = ground (arith, h, p, good) in
              (omega arith, omega arith, inr (omega arith))
          | inr bad ↦
              let same : attempt ≡ n = ground (arith, h, p, bad) in
              (omega arith, omega arith, inr (omega arith))
        ]
      ]
  attempt_step_bounds (suc k) attempt n step ctx s a h =
      elim (Outcome-cases (execute_step world e step ctx (pause world e w step attempt s))) [
        | inl p ↦ absurd (ground (arith, h, p))
        | inr (b, p) ↦ elim (Bool-cases (succeeded world e w b)) [
          | inl good ↦
              let same : attempt ≡ n = ground (arith, h, p, good) in
              let same_action : b ≡ a = ground (arith, h, p, good) in
              (omega arith, omega arith, inl (ap (succeeded world e w) (sym same_action) ∙ good))
          | inr bad ↦
              let rest : attempt_step world e w (suc k) (suc attempt) step b.context b.state
                  ≡ returns (some (n, a)) =
                ground (arith, h, p, bad) in
              let (low, high, out) =
                attempt_step_bounds k (suc attempt) n step b.context b.state a rest in
              (
                omega arith,
                omega arith,
                elim out [ inl good ↦ inl good | inr last ↦ inr (omega arith) ],
              )
        ]
      ]

  -- When the attempts at a step end, and its limit of retries is not negative, the number of
  -- retries is within the limit, and if the step did not succeed, the limit is used up.
  pub attempt_step-exhausts :
      (step : WorkflowStep) (ctx : ExecutionContext) (s : State) (m n : ℕ) (a : Action State)
      → max_retries w step ≡ pos m
      → attempt_step world e w (rounds (max_retries w step)) 0 step ctx s ≡ returns (some (n, a))
      → (n ≤ m) × ((succeeded world e w a ≡ true) ⊎ (n ≡ m))
  attempt_step-exhausts step ctx s m n a limit h =
      let run : attempt_step world e w (suc m) 0 step ctx s ≡ returns (some (n, a)) =
        subst (λ x. attempt_step world e w (rounds x) 0 step ctx s ≡ returns (some (n, a))) limit
          h in
      let (low, high, out) = attempt_step_bounds m 0 n step ctx s a run in
      (omega arith, elim out [ inl good ↦ inl good | inr last ↦ inr (omega arith) ])

  -- The limit is not negative, unless the configuration says so.
  max_retries-cases :
      (step : WorkflowStep)
      → ((m : ℕ) × (get_var "max_retries" step.config ≡ some (number (negsuc m))))
        ⊎ ((m : ℕ) × (max_retries w step ≡ pos m))
  unfolding max_retries
  max_retries-cases step = go (get_var "max_retries" step.config) refl
    where
      go :
          (o : Option Value)
          → get_var "max_retries" step.config ≡ o
          → ((m : ℕ) × (get_var "max_retries" step.config ≡ some (number (negsuc m))))
            ⊎ ((m : ℕ) × (max_retries w step ≡ pos m))
      go none here = inr (w.retry_attempts, rw (max_retries, here) refl)
      go (some (number (negsuc m))) here = inl (m, here)
      go (some (number (pos m))) here = inr (m, rw (max_retries, here) refl)
      go (some null) here = inr (w.retry_attempts, rw (max_retries, here) refl)
      go (some (boolean b)) here = inr (w.retry_attempts, rw (max_retries, here) refl)
      go (some (text t)) here = inr (w.retry_attempts, rw (max_retries, here) refl)
      go (some (array l)) here = inr (w.retry_attempts, rw (max_retries, here) refl)
      go (some (object l)) here = inr (w.retry_attempts, rw (max_retries, here) refl)

  -- An action that does not panic leaves a result after one attempt at least.
  attempt_step-some :
      (k attempt : ℕ) (step : WorkflowStep) (ctx : ExecutionContext) (s : State)
      → ((ctx : ExecutionContext) (s : State) → ¬ (execute_step world e step ctx s ≡ panics))
      → (last : ℕ × Action State) × (attempt_step world e w (suc k) attempt step ctx s
          ≡ returns (some last))
  unfolding attempt_step
  attempt_step-some zero attempt step ctx s calm =
      elim (Outcome-cases (execute_step world e step ctx (pause world e w step attempt s))) [
        | inl p ↦ absurd (calm ctx (pause world e w step attempt s) p)
        | inr (a, p) ↦ elim (Bool-cases (succeeded world e w a)) [
          | inl good ↦ ((attempt, a), rw (attempt_step, p, good) refl)
          | inr bad ↦ ((attempt, a), rw (attempt_step, p, bad) refl)
        ]
      ]
  attempt_step-some (suc k) attempt step ctx s calm =
      elim (Outcome-cases (execute_step world e step ctx (pause world e w step attempt s))) [
        | inl p ↦ absurd (calm ctx (pause world e w step attempt s) p)
        | inr (a, p) ↦ elim (Bool-cases (succeeded world e w a)) [
          | inl good ↦ ((attempt, a), rw (attempt_step, p, good) refl)
          | inr bad ↦
              let (last, rest) = attempt_step-some k (suc attempt) step a.context a.state calm in
              (last, ground (arith, p, bad, rest))
        ]
      ]

  run_step-returns :
      (step : WorkflowStep) (r : Run State) (m : ℕ)
      → ((ctx : ExecutionContext) (s : State) → ¬ (execute_step world e step ctx s ≡ panics))
      → max_retries w step ≡ pos m
      → (out : Round State) × (run_step world e w step r ≡ returns out)
  unfolding run_step conclude_last
  run_step-returns step r m calm limit =
      let ((n, a), made) = attempt_step-some m 0 step r.context r.state calm in
      (conclude world e w step n a r, rw (limit, run_step) (rw made refl))

  -- A run that comes to an enabled step whose action never panics panics there exactly when the
  -- step's configuration sets a negative limit of retries.
  pub take_step-panics_iff :
      (step : WorkflowStep) (r : Run State)
      → find_step r.current_step_id w.steps ≡ some step
      → step.is_enabled ≡ true
      → ((ctx : ExecutionContext) (s : State) → ¬ (execute_step world e step ctx s ≡ panics))
      → (take_step world e w r ≡ panics)
        ↔ ((m : ℕ) × (get_var "max_retries" step.config ≡ some (number (negsuc m))))
  unfolding take_step run_step attempt_step conclude_last max_retries
  take_step-panics_iff step r found enabled calm = (forth, back)
    where
      forth :
          take_step world e w r ≡ panics
          → (m : ℕ) × (get_var "max_retries" step.config ≡ some (number (negsuc m)))
      forth h = elim (max_retries-cases step) [
        | inl negative ↦ negative
        | inr (m, limit) ↦
            let (out, ran) = run_step-returns step r m calm limit in
            absurd (ground (arith, found, enabled, ran, h))
      ]

      back :
          (m : ℕ) × (get_var "max_retries" step.config ≡ some (number (negsuc m)))
          → take_step world e w r ≡ panics
      back (m, here) =
          let limit : max_retries w step ≡ negsuc m = rw (max_retries, here) refl in
          let none_made : run_step world e w step r ≡ panics = rw (limit, run_step) refl in
          ground (arith, found, enabled, none_made)
