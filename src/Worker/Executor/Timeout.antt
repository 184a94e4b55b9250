-- ===== src/Worker/Executor/Timeout.antt =====
-- Cancelling the context.
use engine_api_workflow.Common.{
  none, some, Option, ◌⊎◌, ◌∷◌, List-cases, str_eq, ℕ, zero, suc, ◌≡◌, refl, sym, ap, ◌∙◌, true,
  false, String, List, arith, Bool-cases, Option-cases, inl, inr,
}
use engine_api_workflow.Models.Workflow.{WorkflowStep, Workflow, find_step}
use engine_api_workflow.Worker.Executor.{
  Action, Outcome, Outcome-cases, returns, panics, ExecutionContext, WorkflowExecutor, World,
}
use engine_api_workflow.Worker.Executor.Actions.{
  execute_notification_action, execute_integration_action, execute_database_action_simulated,
  execute_delay_action, execute_condition_action, execute_webhook_action_simulated,
  execute_slack_action_simulated, execute_email_action_simulated, execute_http_action_simulated,
  select_action, execute_step,
}
use engine_api_workflow.Worker.Executor.Delays.{max_retries, rounds}
use engine_api_workflow.Worker.Executor.Steps.{
  conclude_last, check_count, pause, next_id, attempt_step, Run, Round, continues, breaks,
  ExecutionResult, check_context, skip_step, record_step, keep_outputs, conclude, run_step,
  take_step, run_steps, max_steps, start_run, finish, execute_workflow,
}

-- The same world, with a context that is never cancelled before a step.
abbrev pub never_done : World → World
never_done world = record world { is_done = λ _. false }

module _ {S : Type 0} where
  -- A run but for its verdict.
  abbrev forget : Run S → Run S
  forget r = record r { success = true; error_message = "" }

  abbrev forget_round : Round S → Round S
  forget_round (continues r) = continues (forget r)
  forget_round (breaks r) = breaks (forget r)

module _ {A B : Type 0} where
  abbrev pub map_outcome : (A → B) → Outcome A → Outcome B
  map_outcome f (returns a) = returns (f a)
  map_outcome f panics = panics

module _ (world : World) (e : WorkflowExecutor world.State) (w : Workflow) where
  open world use {State}

  check_context-forget : (r : Run State) → forget (check_context world e w r) ≡ forget r
  unfolding check_context
  check_context-forget r = ground arith

  execute_step-never_done :
      (step : WorkflowStep) (ctx : ExecutionContext) (s : State)
      → execute_step world e step ctx s ≡ execute_step (never_done world) e step ctx s
  unfolding execute_step select_action execute_http_action_simulated execute_email_action_simulated
      execute_slack_action_simulated execute_webhook_action_simulated execute_condition_action
      execute_delay_action execute_database_action_simulated execute_integration_action
      execute_notification_action
  execute_step-never_done step ctx s = refl

  attempt_step-never_done :
      (k attempt : ℕ) (step : WorkflowStep) (ctx : ExecutionContext) (s : State)
      → attempt_step world e w k attempt step ctx s
        ≡ attempt_step (never_done world) e w k attempt step ctx s
  unfolding attempt_step
  attempt_step-never_done zero attempt step ctx s = refl
  attempt_step-never_done (suc k) attempt step ctx s =
      elim (Outcome-cases (execute_step world e step ctx (pause world e w step attempt s))) [
        | inl p ↦
            let q = sym (execute_step-never_done step ctx (pause world e w step attempt s)) ∙ p in
            ground (arith, p, q)
        | inr (a, p) ↦
            let q = sym (execute_step-never_done step ctx (pause world e w step attempt s)) ∙ p in
            let rest = attempt_step-never_done k (suc attempt) step a.context a.state in
            ground (arith, p, q, rest)
      ]

  conclude-forget :
      (step : WorkflowStep) (k : ℕ) (a : Action State) (r : Run State)
      → forget_round (conclude world e w step k a r)
        ≡ forget_round (conclude (never_done world) e w step k a (forget r))
  unfolding conclude record_step keep_outputs next_id
  conclude-forget step k a r = ground arith

  conclude_last-forget :
      (step : WorkflowStep) (last : Option (ℕ × Action State)) (r : Run State)
      → map_outcome forget_round (conclude_last world e w step last r)
        ≡ map_outcome forget_round (conclude_last (never_done world) e w step last (forget r))
  unfolding conclude_last
  conclude_last-forget step none r = refl
  conclude_last-forget step (some (k, a)) r = ap returns (conclude-forget step k a r)

  run_step-forget :
      (step : WorkflowStep) (r : Run State)
      → map_outcome forget_round (run_step world e w step r)
        ≡ map_outcome forget_round (run_step (never_done world) e w step (forget r))
  unfolding run_step
  run_step-forget step r =
      let n = rounds (max_retries w step) in
      let same = attempt_step-never_done n 0 step r.context r.state in
      elim (Outcome-cases (attempt_step world e w n 0 step r.context r.state)) [
        | inl p ↦ let q = sym same ∙ p in ground (arith, p, q)
        | inr (last, p) ↦
            let q = sym same ∙ p in
            let c = conclude_last-forget step last r in ground (arith, p, q, c)
      ]

  take_step-forget :
      (r : Run State)
      → map_outcome forget_round (take_step world e w r)
        ≡ map_outcome forget_round (take_step (never_done world) e w (forget r))
  unfolding take_step skip_step
  take_step-forget r = elim (Option-cases (find_step r.current_step_id w.steps)) [
    | inl missing ↦ ground (arith, missing)
    | inr (step, found) ↦
        let ran = run_step-forget step r in
        elim (Bool-cases step.is_enabled) [
          | inl on ↦ ground (arith, found, on, ran)
          | inr off ↦ ground (arith, found, off)
        ]
  ]

module _ (world : World) (e : WorkflowExecutor world.State) (w : Workflow) where
  open world use {State}

  -- A round, in either world, from runs that differ in their verdicts at most.
  round-forget :
      (r r' : Run State)
      → forget r ≡ forget r'
      → map_outcome forget_round (take_step world e w (check_context world e w r))
        ≡ map_outcome forget_round
            (take_step (never_done world) e w (check_context (never_done world) e w r'))
  unfolding check_context
  round-forget r r' same =
      take_step-forget world e w (check_context world e w r)
      ∙ ap (λ q. map_outcome forget_round (take_step (never_done world) e w q))
          (check_context-forget world e w r ∙ same)
      ∙ sym (take_step-forget (never_done world) e w r')

  after_round :
      (k : ℕ) (r r' : Run State)
      → str_eq r.current_step_id "" ≡ false
      → str_eq r'.current_step_id "" ≡ false
      → (t : Outcome (Round State)) → take_step world e w (check_context world e w r) ≡ t
      → (t' : Outcome (Round State))
      → take_step (never_done world) e w (check_context (never_done world) e w r') ≡ t'
      → map_outcome forget_round t ≡ map_outcome forget_round t'
      → ((a b : Run State)
          → forget a ≡ forget b
          → map_outcome forget (run_steps world e w k a)
            ≡ map_outcome forget (run_steps (never_done world) e w k b))
      → map_outcome forget (run_steps world e w (suc k) r)
        ≡ map_outcome forget (run_steps (never_done world) e w (suc k) r')
  unfolding run_steps
  after_round k r r' more more' panics p panics p' round later = ground (arith, more, more', p, p')
  after_round k r r' more more' (returns (continues a)) p (returns (continues b)) p' round later =
      let ab : forget a ≡ forget b = ground (arith, round) in
      let rest = later a b ab in ground (arith, more, more', p, p', rest)
  after_round k r r' more more' (returns (breaks a)) p (returns (breaks b)) p' round later =
      let ab : forget a ≡ forget b = ground (arith, round) in ground (arith, more, more', p, p', ab)
  after_round k r r' more more' _ p _ p' round later = absurd (ground (arith, round))

  run_steps-forget :
      (k : ℕ) (r r' : Run State)
      → forget r ≡ forget r'
      → map_outcome forget (run_steps world e w k r)
        ≡ map_outcome forget (run_steps (never_done world) e w k r')
  unfolding run_steps
  run_steps-forget zero r r' same = ap returns same
  run_steps-forget (suc k) r r' same =
      let at : r.current_step_id ≡ r'.current_step_id = ap (λ q. q.current_step_id) same in
      let round = round-forget r r' same in
      elim (Bool-cases (str_eq r.current_step_id "")) [
        | inl ends ↦
            let ends' : str_eq r'.current_step_id "" ≡ true = rw⁻¹ at ends in
            ground (arith, ends, ends', same)
        | inr more ↦
            let more' : str_eq r'.current_step_id "" ≡ false = rw⁻¹ at more in
            after_round k r r' more more' (take_step world e w (check_context world e w r)) refl
              (take_step (never_done world) e w (check_context (never_done world) e w r')) refl
              round (run_steps-forget k)
      ]

module _ {S : Type 0} where
  -- A result but for its verdict.
  abbrev pub but_verdict : (String ⊎ ExecutionResult) × S → (String ⊎ ExecutionResult) × S
  but_verdict (inl msg, t) = (inl msg, t)
  but_verdict (inr x, t) = (inr record x { success = true; error_message = "" }, t)

module _ (world : World) (e : WorkflowExecutor world.State) (w : Workflow) where
  open world use {State}

  abbrev outcome_of : State → Run State → (String ⊎ ExecutionResult) × State
  outcome_of s r = (inr (finish world e w s r), r.state)

  finish-forget :
      (s : State) (o : Outcome (Run State))
      → map_outcome
          (λ r. but_verdict (inr (finish world e w s (check_count world e w r)), r.state))
          o
        ≡ map_outcome (outcome_of s) (map_outcome forget o)
  unfolding check_count
  finish-forget s panics = refl
  finish-forget s (returns r) = ground arith

  execute_workflow-forget :
      (ctx : ExecutionContext) (s : State) (first : WorkflowStep) (rest : List WorkflowStep)
      → w.steps ≡ first ∷ rest
      → map_outcome but_verdict (execute_workflow world e w ctx s)
        ≡ map_outcome (outcome_of s) (
            map_outcome forget
              (run_steps world e w (max_steps world e w) (start_run world e w first.id ctx s)))
  unfolding execute_workflow
  execute_workflow-forget ctx s first rest full =
      let o = run_steps world e w (max_steps world e w) (start_run world e w first.id ctx s) in
      let last = finish-forget s o in
      elim (Outcome-cases o) [
        | inl p ↦ ground (arith, full, p, last)
        | inr (r, p) ↦ ground (arith, full, p, last)
      ]

module _ (world : World) (e : WorkflowExecutor world.State) (w : Workflow) where
  open world use {State}

  -- The check of the context decides the verdict at most: with a context that is never found to be
  -- cancelled, the run panics alike, leaves the same records, variables and times, and leaves the
  -- world alike.
  pub execute_workflow-never_done :
      (ctx : ExecutionContext) (s : State)
      → map_outcome but_verdict (execute_workflow world e w ctx s)
        ≡ map_outcome but_verdict (execute_workflow (never_done world) e w ctx s)
  unfolding execute_workflow
  execute_workflow-never_done ctx s = elim (List-cases w.steps) [
    | inl empty ↦ ground (arith, empty)
    | inr (first, rest, full) ↦
        let start = start_run world e w first.id ctx s in
        execute_workflow-forget world e w ctx s first rest full
        ∙ ap (map_outcome (outcome_of world e w s))
            (run_steps-forget world e w (max_steps world e w) start start refl)
        ∙ sym (execute_workflow-forget (never_done world) e w ctx s first rest full)
  ]
