-- ===== src/Worker/Executor/Delays.antt =====
-- internal/worker/executor.go: how often, and after which pauses, a step is tried.
use engine_api_workflow.Common.{
  to_int64, mul_int64, ℕ, zero, suc, ◌*◌, ◌^◌, ℤ, pos, negsuc, String, some, if◌then◌else◌, str_eq,
  ltb_ℤ,
}
use engine_api_workflow.Models.Value.{number, text, second, minute}
use engine_api_workflow.Models.Workflow.{WorkflowStep, Workflow}
use engine_api_workflow.Worker.Executor.{milliseconds, get_var}

-- `1 << attempt`.
unfoldable pub shift_one : ℕ → ℤ
shift_one attempt = to_int64 (2 ^ attempt)

abbrev pub five_minutes : ℕ
five_minutes = 5 * minute

unfoldable pub exponential_delay : ℕ → ℕ → ℤ
unfolding mul_int64 shift_one
exponential_delay attempt base_delay =
    let delay = mul_int64 (pos base_delay) (shift_one attempt) in
    if ltb_ℤ (pos five_minutes) delay then pos five_minutes else delay

unfoldable pub calculate_retry_delay : ℕ → ℕ → String → ℤ
unfolding mul_int64
calculate_retry_delay attempt base_delay strategy =
    if str_eq strategy "linear"
    then mul_int64 (pos base_delay) (pos attempt)
    else if str_eq strategy "exponential"
    then exponential_delay attempt base_delay
    else if str_eq strategy "fixed"
    then pos base_delay
    else exponential_delay attempt base_delay

-- The settings of a step's attempts: the workflow's, unless the step's configuration has numbers.
unfoldable pub max_retries : Workflow → WorkflowStep → ℤ
unfolding get_var
max_retries w step = elim (get_var "max_retries" step.config) [
  | some (number n) ↦ n
  | _ ↦ pos w.retry_attempts
]

unfoldable pub retry_delay : Workflow → WorkflowStep → ℕ
unfolding get_var
retry_delay w step =
    let delay : ℤ = elim (get_var "retry_delay_ms" step.config) [
      | some (number n) ↦ n
      | _ ↦ pos w.retry_delay_ms
    ] in
    elim delay [ pos (suc n) ↦ milliseconds (suc n) | _ ↦ 5 * second ]

unfoldable pub backoff_strategy : WorkflowStep → String
unfolding get_var
backoff_strategy step = elim (get_var "retry_backoff" step.config) [
  | some (text s) ↦ s
  | _ ↦ "exponential"
]

-- The rounds of `for attempt := 0; attempt <= maxRetries; attempt++`.
abbrev pub rounds : ℤ → ℕ
rounds (pos n) = suc n
rounds (negsuc n) = zero
