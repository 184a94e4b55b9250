-- ===== src/Worker/Executor/Steps.antt =====
-- internal/worker/executor.go: the run of a workflow, step after step, and of a step, attempt after
-- attempt. The source bounds its loop by twice the number of steps, so the rounds that are left are
-- the structural argument; a step's attempts are bounded likewise.
use engine_api_workflow.Common.{
  ℕ, zero, suc, ◌+◌, ◌-◌, ◌*◌, String, Bool, true, false, ◌&&◌, ◌||◌, not, Option, none, some, List,
  [], ◌∷◌, ◌++◌, if◌then◌else◌, str_eq, leb, is_some, ◌&◌, decimal, length, ◌⊎◌, inl, inr, ◌==◌,
}
use engine_api_workflow.Models.Value.{boolean, object, Fields, end, field}
use engine_api_workflow.Models.Workflow.{WorkflowStep, Workflow, find_step}
use engine_api_workflow.Worker.Executor.Delays.{
  calculate_retry_delay, max_retries, retry_delay, backoff_strategy, rounds,
}
use engine_api_workflow.Worker.Executor.{
  Outcome, returns, panics, ExecutionContext, StepExecution, Action, WorkflowExecutor, World,
  set_var, get_next_step_id, create_step_execution,
}
use engine_api_workflow.Worker.Executor.Actions.{new_result, execute_step}

-- The run so far: the result, the loop's variables, the context and the world.
pub record Run (S : Type 0) : Type 0 where
  pub success : Bool
  pub error_message : String
  pub steps_executed : List StepExecution
  pub current_step_id : String
  pub count : ℕ
  pub context : ExecutionContext
  pub state : S

-- A round of the loop goes on to the next round, or leaves the loop.
pub data Round (S : Type 0) : Type 0 where
  continues breaks : Run S → Round S

pub record ExecutionResult : Type 0 where
  pub success : Bool
  pub error_message : String
  pub steps_executed : List StepExecution
  pub final_variables : Fields
  pub duration : ℕ
  pub completed_at : ℕ

-- `step_<id>_<key>` for every output.
unfoldable pub store_outputs : String → Fields → Fields → Fields
unfolding set_var
store_outputs id end vars = vars
store_outputs id (field k v out) vars =
    store_outputs id out (set_var ("step_" & (id & ("_" & k))) v vars)

unfoldable pub update_variables : String → Option Fields → Fields → Fields
unfolding store_outputs set_var
update_variables id none vars = vars
update_variables id (some out) vars =
    set_var "last_step_output" (object out) (store_outputs id out vars)

abbrev pub skipped_output : Fields
skipped_output = field "skipped" (boolean true) end

module _ (world : World) (e : WorkflowExecutor world.State) (w : Workflow) where
  open world use {State, now, is_done, wait, add_step_execution}

  abbrev pub pause : WorkflowStep → ℕ → State → State
  pause step zero s = s
  pause step (suc n) s =
      (wait (calculate_retry_delay (suc n) (retry_delay w step) (backoff_strategy step)) s).1

  abbrev pub succeeded : Action State → Bool
  succeeded a = not (is_some a.failure) && a.result.success

  -- The attempts from `attempt` on, `k` of them at most: the number of the last one and what it
  -- left. With none at all the step's result stays the nil pointer that it is declared as.
  unfoldable pub attempt_step :
      ℕ → ℕ → WorkflowStep → ExecutionContext → State → Outcome (Option (ℕ × Action State))
  unfolding execute_step
  attempt_step zero attempt step ctx s = returns none
  attempt_step (suc k) attempt step ctx s =
      elim (execute_step world e step ctx (pause step attempt s)) [
        | panics ↦ panics
        | returns a ↦ elim (succeeded a || k == 0) [
          | true ↦ returns (some (attempt, a))
          | false ↦ attempt_step k (suc attempt) step a.context a.state
        ]
      ]

  abbrev pub fail : String → Run State → Run State
  fail msg r = record r { success = false; error_message = msg }

  -- The `select` on the context: its `break` leaves the `select` only.
  unfoldable pub check_context : Run State → Run State
  check_context r = if is_done r.state then fail "Workflow execution timeout" r else r

  unfoldable pub skip_step : WorkflowStep → Run State → Run State
  unfolding create_step_execution get_next_step_id
  skip_step step r =
      let skipped = record new_result { output = some skipped_output } in
      let exec = create_step_execution step skipped none 0 (now r.state) in
      record r {
        steps_executed =
            r.steps_executed ++ record exec { status = "skipped"; output = skipped_output } ∷ [];
        current_step_id = get_next_step_id step;
        count = r.count + 1;
      }

  -- The record of the step, in the result and in the log.
  unfoldable pub record_step : WorkflowStep → ℕ → Action State → Run State → Run State
  unfolding create_step_execution
  record_step step retry_count a r =
      let exec = create_step_execution step a.result a.failure retry_count (now a.state) in
      record r {
        steps_executed = r.steps_executed ++ exec ∷ [];
        context = a.context;
        state = add_step_execution a.context.log_id exec a.state;
      }

  unfoldable pub keep_outputs : WorkflowStep → Action State → Run State → Run State
  keep_outputs step a r =
      let vars = update_variables step.id a.result.output r.context.variables in
      record r { context = record r.context { variables = vars } }

  unfoldable pub next_id : WorkflowStep → Action State → String
  unfolding get_next_step_id
  next_id step a =
      if str_eq a.result.next_step_id "" then get_next_step_id step else a.result.next_step_id

  -- What follows the attempts.
  unfoldable pub conclude : WorkflowStep → ℕ → Action State → Run State → Round State
  unfolding record_step keep_outputs next_id
  conclude step retry_count a r =
      let recorded = record_step step retry_count a r in
      elim a.failure [
        | some cause ↦ breaks (
            fail
              ("Step '"
                & (step.id
                    & ("' failed after " & (decimal (retry_count + 1) & (" attempts: " & cause)))))
              recorded)
        | none ↦
            let kept = keep_outputs step a recorded in
            if not a.result.success
            then breaks (fail a.result.error_message kept)
            else continues
                (record kept { current_step_id = next_id step a; count = kept.count + 1 })
      ]

  -- createStepExecution reads the duration of the result, which a nil pointer does not have.
  unfoldable pub conclude_last :
      WorkflowStep → Option (ℕ × Action State) → Run State → Outcome (Round State)
  unfolding conclude
  conclude_last step none r = panics
  conclude_last step (some (retry_count, a)) r = returns (conclude step retry_count a r)

  unfoldable pub run_step : WorkflowStep → Run State → Outcome (Round State)
  unfolding attempt_step conclude_last
  run_step step r = elim (attempt_step (rounds (max_retries w step)) 0 step r.context r.state) [
    | panics ↦ panics
    | returns last ↦ conclude_last step last r
  ]

  -- The body of the loop, past the check of the context.
  unfoldable pub take_step : Run State → Outcome (Round State)
  unfolding run_step skip_step find_step
  take_step r = elim (find_step r.current_step_id w.steps) [
    | none ↦ returns (breaks (fail ("Step with ID '" & (r.current_step_id & "' not found")) r))
    | some step ↦
        if step.is_enabled then run_step step r else returns (continues (skip_step step r))
  ]

  unfoldable pub run_steps : ℕ → Run State → Outcome (Run State)
  unfolding take_step check_context
  run_steps zero r = returns r
  run_steps (suc k) r = elim (str_eq r.current_step_id "") [
    | true ↦ returns r
    | false ↦ elim (take_step (check_context r)) [
      | panics ↦ panics
      | returns (breaks r') ↦ returns r'
      | returns (continues r') ↦ run_steps k r'
    ]
  ]

  abbrev pub max_steps : ℕ
  max_steps = length w.steps * 2

  -- The check after the loop.
  unfoldable pub check_count : Run State → Run State
  check_count r =
      if leb max_steps r.count
      then fail "Maximum steps exceeded - possible infinite loop detected" r
      else r

  abbrev pub start_context : ExecutionContext → ExecutionContext
  start_context ctx = record ctx {
    variables =
        set_var "metadata" (object ctx.metadata)
          (set_var "trigger_data" (object ctx.trigger_data) ctx.variables);
  }

  abbrev pub start_run : String → ExecutionContext → State → Run State
  start_run first ctx s = record {
    success = true;
    error_message = "";
    steps_executed = [];
    current_step_id = first;
    count = 0;
    context = start_context ctx;
    state = s;
  }

  abbrev pub finish : State → Run State → ExecutionResult
  finish start r = record {
    success = r.success;
    error_message = r.error_message;
    steps_executed = r.steps_executed;
    final_variables = r.context.variables;
    duration = now r.state - now start;
    completed_at = now start;
  }

  -- The run's result or an error, and the world after it.
  unfoldable pub execute_workflow :
      ExecutionContext → State → Outcome ((String ⊎ ExecutionResult) × State)
  unfolding run_steps check_count
  execute_workflow ctx s = elim w.steps [
    | [] ↦ returns (inl "workflow has no steps to execute", s)
    | first ∷ rest ↦ elim (run_steps max_steps (start_run first.id ctx s)) [
      | panics ↦ panics
      | returns r ↦ returns (inr (finish s (check_count r)), r.state)
    ]
  ]

  -- The engine's entry: the error that it sees, if any.
  unfoldable pub execute : String → String → Fields → State → Outcome (Option String × State)
  unfolding execute_workflow
  execute user_id log_id trigger_data s =
      let ctx : ExecutionContext = record {
        workflow_id = w.id;
        log_id = log_id;
        user_id = user_id;
        trigger_data = trigger_data;
        metadata = end;
        variables = end;
      } in
      elim (execute_workflow ctx s) [
        | panics ↦ panics
        | returns (inl msg, s') ↦ returns (some msg, s')
        | returns (inr result, s') ↦
            if result.success
            then returns (none, s')
            else returns (some ("workflow execution failed: " & result.error_message), s')
      ]
