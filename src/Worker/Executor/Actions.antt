-- ===== src/Worker/Executor/Actions.antt =====
-- internal/worker/executor.go: executeStep and the native and simulated actions of a step.
use engine_api_workflow.Common.{
  ℕ, ◌+◌, ◌-◌, ℤ, pos, String, true, false, Option, none, some, if◌then◌else◌, str_eq, ◌&◌,
}
use engine_api_workflow.Models.Value.{Value, boolean, number, text, object, Fields, end, field}
use engine_api_workflow.Worker.Executor.{
  Outcome, returns, panics, milliseconds, ExecutionContext, StepResult, Action, ActionExecutor,
  WorkflowExecutor, World, get_var, evaluate_conditions,
}

-- The result that an action starts from.
abbrev pub new_result : StepResult
new_result = record {
  success = true;
  output = some end;
  error_message = "";
  next_step_id = "";
  duration = 0;
}

module _ {S : Type 0} where
  abbrev pub done_with : Fields → ExecutionContext → S → Outcome (Action S)
  done_with output ctx s = returns record {
    result = record new_result { output = some output };
    failure = none;
    context = ctx;
    state = s;
  }

  unfoldable pub execute_transform_action_simulated : ActionExecutor S
  execute_transform_action_simulated step ctx s =
      done_with
        (field "transform_completed" (boolean true) (
          field "message"
            (text "Transform action simulated (fallback) - real executor not configured")
            (field "mode" (text "simulated") end)))
        ctx s

  -- A nil real executor is replaced by the simulated one.
  abbrev pub or_simulated : Option (ActionExecutor S) → ActionExecutor S → ActionExecutor S
  or_simulated none simulated = simulated
  or_simulated (some real) simulated = real

module _ (world : World) where
  open world use {State, now, sleep, wait, ctx_error}

  unfoldable pub execute_http_action_simulated : ActionExecutor State
  execute_http_action_simulated step ctx s =
      let s' = sleep (milliseconds 100) s in
      done_with
        (field "http_response"
          (object (
            field "status" (text "success") (
              field "status_code" (number (pos 200)) (
                field "message" (text "HTTP action simulated successfully") (
                  field "timestamp" (number (pos (now s')))
                    (field "mode" (text "simulated") end))))))
          end)
        ctx s'

  -- The email, Slack and webhook actions: a pause, and a mark under a key of their own.
  abbrev pub simulated : ℕ → String → String → ActionExecutor State
  simulated pause key message step ctx s =
      let s' = sleep (milliseconds pause) s in
      done_with
        (field key (boolean true) (
          field "message" (text message)
            (field "timestamp" (number (pos (now s'))) (field "mode" (text "simulated") end))))
        ctx s'

  unfoldable pub execute_email_action_simulated : ActionExecutor State
  execute_email_action_simulated = simulated 50 "email_sent" "Email action simulated successfully"

  unfoldable pub execute_slack_action_simulated : ActionExecutor State
  execute_slack_action_simulated = simulated 75 "slack_sent" "Slack action simulated successfully"

  unfoldable pub execute_webhook_action_simulated : ActionExecutor State
  execute_webhook_action_simulated =
      simulated 150 "webhook_called" "Webhook action simulated successfully"

  unfoldable pub execute_database_action_simulated : ActionExecutor State
  execute_database_action_simulated step ctx s =
      done_with
        (field "database_operation" (text "completed") (
          field "message" (text "Database action simulated successfully")
            (field "mode" (text "simulated") end)))
        ctx (sleep (milliseconds 200) s)

  unfoldable pub execute_integration_action : ActionExecutor State
  execute_integration_action step ctx s =
      done_with
        (field "integration_completed" (boolean true)
          (field "message" (text "Integration action simulated successfully") end))
        ctx (sleep (milliseconds 300) s)

  unfoldable pub execute_notification_action : ActionExecutor State
  execute_notification_action step ctx s =
      done_with
        (field "notification_sent" (boolean true)
          (field "message" (text "Notification action simulated successfully") end))
        ctx (sleep (milliseconds 100) s)

  unfoldable pub execute_condition_action : ActionExecutor State
  unfolding evaluate_conditions
  execute_condition_action step ctx s = elim (evaluate_conditions step.conditions ctx.variables) [
    | panics ↦ panics
    | returns next ↦
        let output = field "condition_evaluated" (boolean true) (
          field "next_step" (text next)
            (field "message" (text "Condition action evaluated successfully") end)) in
        returns record {
          result = record new_result { output = some output; next_step_id = next };
          failure = none;
          context = ctx;
          state = s;
        }
  ]

  -- A delay that is there and is no number makes the type assertion panic.
  abbrev pub delay_ms : Option Value → Outcome ℤ
  delay_ms none = returns (pos 1000)
  delay_ms (some (number n)) = returns n
  delay_ms (some _) = panics

  abbrev pub to_milliseconds : ℤ → ℤ
  to_milliseconds (pos n) = pos (milliseconds n)
  to_milliseconds (ℤ.negsuc n) = ℤ.negsuc (milliseconds n + 999999)

  unfoldable pub execute_delay_action : ActionExecutor State
  unfolding get_var
  execute_delay_action step ctx s = elim (delay_ms (get_var "delay_ms" step.config)) [
    | panics ↦ panics
    | returns ms ↦
        let (ended, s') = wait (to_milliseconds ms) s in
        if ended
        then returns
            record { result = new_result; failure = some (ctx_error s'); context = ctx; state = s' }
        else done_with
            (field "delay_completed" (boolean true) (
              field "delay_duration_ms" (number ms)
                (field "message" (text "Delay action completed successfully") end)))
            ctx s'
  ]

  abbrev pub unsupported : ActionExecutor State
  unsupported step ctx s = returns record {
    result = new_result;
    failure = some ("unsupported action type: " & step.kind);
    context = ctx;
    state = s;
  }

  -- The switch on the action type (internal/models/types.go).
  unfoldable pub select_action : WorkflowExecutor State → String → ActionExecutor State
  select_action e kind =
      if str_eq kind "http"
      then or_simulated e.http_executor execute_http_action_simulated
      else if str_eq kind "email"
      then or_simulated e.email_executor execute_email_action_simulated
      else if str_eq kind "slack"
      then or_simulated e.slack_executor execute_slack_action_simulated
      else if str_eq kind "webhook"
      then or_simulated e.webhook_executor execute_webhook_action_simulated
      else if str_eq kind "transform"
      then or_simulated e.transform_executor execute_transform_action_simulated
      else if str_eq kind "condition"
      then execute_condition_action
      else if str_eq kind "delay"
      then execute_delay_action
      else if str_eq kind "database"
      then or_simulated e.database_executor execute_database_action_simulated
      else if str_eq kind "integration"
      then execute_integration_action
      else if str_eq kind "notification"
      then execute_notification_action
      else unsupported

  -- What follows the action: the duration, and an error makes the result a failure.
  abbrev pub settle : ℕ → Action State → Action State
  settle start a =
      let timed = record a.result { duration = now a.state - start } in
      record a {
        result = elim a.failure [
          | none ↦ timed
          | some e ↦ record timed { success = false; error_message = e }
        ];
      }

  unfoldable pub execute_step : WorkflowExecutor State → ActionExecutor State
  unfolding select_action
  execute_step e step ctx s = elim (select_action e step.kind step ctx s) [
    | panics ↦ panics
    | returns a ↦ returns (settle (now s) a)
  ]
