-- ===== src/Tests/Workers.antt =====
-- The theorems on the workers at small workflows.
use engine_api_workflow.Common.{
  ◌↔◌, ℕ, ◌+◌, ◌*◌, ◌^◌, ◌≡◌, ◌≤◌, ◌<◌, ◌⊎◌, refl, String, [], ◌∷◌, map, All, true, false, Option,
  none, some, pos, negsuc, arith, length, leb, if◌then◌else◌, pos_part, inr,
}
use engine_api_workflow.Models.Value.{end, field, number}
use engine_api_workflow.Models.Workflow.{Workflow, WorkflowStep, find_step}
use engine_api_workflow.Worker.Executor.{
  World, WorkflowExecutor, ExecutionContext, returns, panics, get_next_step_id, get_var, Action,
}
use engine_api_workflow.Worker.Executor.Actions.{
  execute_step, select_action, execute_integration_action,
}
use engine_api_workflow.Worker.Executor.Delays.{
  max_retries, rounds, five_minutes, calculate_retry_delay,
}
use engine_api_workflow.Worker.Executor.Steps.{
  take_step, execute_workflow, ExecutionResult, attempt_step, Run, start_run, succeeded, execute,
}
use engine_api_workflow.Worker.Executor.Chain.{execute_workflow-Chain, IsReady}
use engine_api_workflow.Worker.Executor.Records.{execute_workflow-records, Good, Named}
use engine_api_workflow.Worker.Executor.Timeout.{
  execute_workflow-never_done, never_done, map_outcome, but_verdict,
}
use engine_api_workflow.Worker.Executor.Attempts.{attempt_step-exhausts, take_step-panics_iff}
use engine_api_workflow.Worker.Executor.Backoff.{calculate_retry_delay-eq}
use engine_api_workflow.Tests.Values.{workflow_of}

-- The clock is the state; nothing is ever cancelled.
abbrev pub clock : World
clock = record {
  State = ℕ;
  now = λ s. s;
  is_done = λ s. false;
  ctx_error = λ s. "context canceled";
  sleep = λ n s. s + n;
  wait = λ d s. (false, s + pos_part d);
  add_step_execution = λ id x s. s;
}

abbrev pub no_executors : WorkflowExecutor ℕ
no_executors = record {
  http_executor = none;
  email_executor = none;
  slack_executor = none;
  webhook_executor = none;
  transform_executor = none;
  database_executor = none;
}

abbrev pub step_of : String → Option String → WorkflowStep
step_of id next = record {
  id = id;
  name = id;
  kind = "integration";
  config = end;
  next_step_id = next;
  conditions = [];
  position = record { x = pos 0; y = pos 0 };
  description = "";
  is_enabled = true;
}

abbrev pub two_steps : Workflow
two_steps = workflow_of (step_of "s1" (some "s2") ∷ step_of "s2" none ∷ [])

abbrev context : ExecutionContext
context = record {
  workflow_id = "w1";
  log_id = "a1";
  user_id = "u1";
  trigger_data = end;
  metadata = end;
  variables = end;
}

first-IsReady : IsReady clock no_executors two_steps (step_of "s1" (some "s2"))
unfolding find_step max_retries get_var execute_step select_action execute_integration_action
first-IsReady = record {
  enabled = refl;
  named = refl;
  found = refl;
  retries = (2, refl);
  acts = λ ctx s. (_, refl, refl, refl, refl);
}

second-IsReady : IsReady clock no_executors two_steps (step_of "s2" none)
unfolding find_step max_retries get_var execute_step select_action execute_integration_action
second-IsReady = record {
  enabled = refl;
  named = refl;
  found = refl;
  retries = (2, refl);
  acts = λ ctx s. (_, refl, refl, refl, refl);
}

execute_workflow-Chain_example :
    (result : ExecutionResult) × (t : ℕ) × (execute_workflow clock no_executors two_steps context 0
      ≡ returns (inr result, t))
    × (result.success ≡ true)
    × (map (λ x. x.step_id) result.steps_executed ≡ "s1" ∷ "s2" ∷ [])
unfolding get_next_step_id
execute_workflow-Chain_example =
    execute_workflow-Chain clock no_executors two_steps (λ s. refl) context 0 (omega arith)
      (first-IsReady, (second-IsReady, tt)) (refl, (refl, tt))

-- The result of that run.
two_done :
    (result : ExecutionResult) × (t : ℕ) × (execute_workflow clock no_executors two_steps context 0
      ≡ returns (inr result, t))
    × (result.success ≡ true)
    × (map (λ x. x.step_id) result.steps_executed ≡ "s1" ∷ "s2" ∷ [])
unfolding get_next_step_id
two_done =
    execute_workflow-Chain clock no_executors two_steps (λ s. refl) context 0 (omega arith)
      (first-IsReady, (second-IsReady, tt)) (refl, (refl, tt))

pub two_executed :
    (y : ℕ) × (execute clock no_executors two_steps "u1" "a1" end 0 ≡ returns (none, y))
unfolding execute
two_executed = let (result, t, ran, good, ids) = two_done in (t, ground (arith, ran, good))

execute_workflow-never_done_example :
    map_outcome but_verdict (execute_workflow clock no_executors two_steps context 0)
    ≡ map_outcome but_verdict (execute_workflow (never_done clock) no_executors two_steps context 0)
execute_workflow-never_done_example =
    execute_workflow-never_done clock no_executors two_steps context 0

execute_workflow-records_example :
    let steps = (two_done.0).steps_executed in
    All (Named clock no_executors two_steps) steps
    × (length steps ≤ 2 * 2)
    × ((two_done.0.success ≡ false) ⊎ (All Good steps × (length steps < 2 * 2)))
execute_workflow-records_example =
    execute_workflow-records clock no_executors two_steps context 0 two_done.1 two_done.0 two_done.2

-- The first step's action succeeds at once.
first_attempt :
    (a : Action ℕ) × (attempt_step clock no_executors two_steps
        (rounds (max_retries two_steps (step_of "s1" none)))
        0
        (step_of "s1" none)
        context
        0
      ≡ returns (some (0, a)))
unfolding max_retries get_var attempt_step execute_step select_action execute_integration_action
first_attempt = (_, refl)

attempt_step-exhausts_example :
    (0 ≤ 2) × ((succeeded clock no_executors two_steps first_attempt.0 ≡ true) ⊎ (◌≡◌ {A = ℕ} 0 2))
unfolding max_retries get_var
attempt_step-exhausts_example =
    attempt_step-exhausts clock no_executors two_steps (step_of "s1" none) context 0 2 0
      first_attempt.0 refl first_attempt.1

-- A step whose configuration limits its retries to a negative number.
abbrev limited : WorkflowStep
limited = record (step_of "s1" none) { config = field "max_retries" (number (negsuc 0)) end }

abbrev limited_workflow : Workflow
limited_workflow = workflow_of (limited ∷ [])

abbrev started : Run ℕ
started = start_run clock no_executors limited_workflow "s1" context 0

take_step-panics_iff_example :
    (take_step clock no_executors limited_workflow started ≡ panics)
    ↔ ((m : ℕ) × (get_var "max_retries" limited.config ≡ some (number (negsuc m))))
unfolding find_step execute_step select_action execute_integration_action
take_step-panics_iff_example =
    take_step-panics_iff clock no_executors limited_workflow limited started refl refl
      (λ ctx s p. absurd (ground (arith, p)))

-- The third attempt after five seconds: twenty of them.
calculate_retry_delay-eq_example :
    calculate_retry_delay 2 5000000000 "exponential"
    ≡ pos (if leb (5000000000 * 2 ^ 2) five_minutes then 5000000000 * 2 ^ 2 else five_minutes)
calculate_retry_delay-eq_example =
    calculate_retry_delay-eq 2 5000000000 "exponential" refl refl (omega arith) (omega arith)
