-- ===== src/Worker/Executor.antt =====
-- internal/worker/executor.go: the data of an execution, its conditions and its records. The real
-- executors of actions are fields of the executor, so any function may stand for them; what they and the
-- rest of the program see of the outside (clock, context, log) is `World`. Durations are
-- nanoseconds; the logger's calls are left out.
pub mod Actions
pub mod Delays
pub mod Steps
pub mod Backoff
pub mod Records
pub mod Chain
pub mod Attempts
pub mod Timeout
use engine_api_workflow.Common.{
  refl, inr, inl, ◌⊎◌, ◌≡◌, ℕ, ◌+◌, ◌-◌, ◌*◌, ◌/◌, ℤ, pos, String, Bool, true, false, ◌&&◌, ◌||◌,
  not, Option, none, some, List, [], ◌∷◌, if◌then◌else◌, str_eq, ltb_ℤ, is_some, is_empty, ◌&◌,
}
use engine_api_workflow.Models.Value.{
  Value, null, boolean, number, text, array, object, Fields, end, field,
}
use engine_api_workflow.Models.Workflow.{WorkflowStep, WorkflowCondition}

-- A call returns, or Go panics in it.
pub data Outcome {ℓ} (A : Type ℓ) : Type ℓ where
  returns : A → Outcome A
  panics : Outcome A

pub Outcome-cases {ℓ} : {A : Type ℓ} (o : Outcome A) → (o ≡ panics) ⊎ ((a : A) × (o ≡ returns a))
Outcome-cases panics = inl refl
Outcome-cases (returns a) = inr (a, refl)

abbrev pub milliseconds : ℕ → ℕ
milliseconds n = n * 1000000

pub record ExecutionContext : Type 0 where
  pub workflow_id : String
  pub log_id : String
  pub user_id : String
  pub trigger_data : Fields
  pub metadata : Fields
  pub variables : Fields

-- A nil map of outputs is `none`.
pub record StepResult : Type 0 where
  pub success : Bool
  pub output : Option Fields
  pub error_message : String
  pub next_step_id : String
  pub duration : ℕ

-- `StepExecution` of internal/models/log.go. A nil time or duration is `none`.
pub record StepExecution : Type 0 where
  pub step_id : String
  pub step_name : String
  pub action_type : String
  pub status : String
  pub started_at : ℕ
  pub completed_at : Option ℕ
  pub duration : Option ℕ
  pub input : Fields
  pub output : Fields
  pub error_message : String
  pub retry_count : ℕ
  pub execution_time : ℕ

-- What an action leaves: its result, its error, and the context and the world as it left them.
pub record Action (S : Type 0) : Type 0 where
  pub result : StepResult
  pub failure : Option String
  pub context : ExecutionContext
  pub state : S

abbrev pub ActionExecutor : Type 0 → Type 0
ActionExecutor S = WorkflowStep → ExecutionContext → S → Outcome (Action S)

-- `WorkflowExecutor`: a nil executor is `none`.
pub record WorkflowExecutor (S : Type 0) : Type 0 where
  pub http_executor : Option (ActionExecutor S)
  pub email_executor : Option (ActionExecutor S)
  pub slack_executor : Option (ActionExecutor S)
  pub webhook_executor : Option (ActionExecutor S)
  pub transform_executor : Option (ActionExecutor S)
  pub database_executor : Option (ActionExecutor S)

-- The clock, the context's cancellation, and the log service. `wait` is a `select` on the context
-- and a timer: it tells whether the context ended first.
pub record World : Type 1 where
  pub State : Type 0
  pub now : State → ℕ
  pub is_done : State → Bool
  pub ctx_error : State → String
  pub sleep : ℕ → State → State
  pub wait : ℤ → State → Bool × State
  pub add_step_execution : String → StepExecution → State → State

-- A map's entry, and the map with an entry set.
unfoldable pub get_var : String → Fields → Option Value
get_var k end = none
get_var k (field j v m) = if str_eq j k then some v else get_var k m

unfoldable pub set_var : String → Value → Fields → Fields
set_var k v end = field k v end
set_var k v (field j u m) = if str_eq j k then field j v m else field j u (set_var k v m)

-- `==` on interface values: it panics on two maps and on two slices.
unfoldable pub value_equal : Value → Value → Outcome Bool
value_equal null null = returns true
value_equal (boolean a) (boolean b) = returns (if a then b else not b)
value_equal (number a) (number b) = returns (not (ltb_ℤ a b) && not (ltb_ℤ b a))
value_equal (text a) (text b) = returns (str_eq a b)
value_equal (array a) (array b) = panics
value_equal (object a) (object b) = panics
value_equal _ _ = returns false

unfoldable pub greater : Value → Value → Bool
greater (number v) (number target) = ltb_ℤ target v
greater _ _ = false

-- Whether a condition selects its next step, given the value of its field.
unfoldable pub condition_holds : WorkflowCondition → Value → Outcome Bool
unfolding value_equal greater
condition_holds c v =
    if str_eq c.operator "eq"
    then value_equal v c.value
    else if str_eq c.operator "neq"
    then elim (value_equal v c.value) [ returns b ↦ returns (not b) | panics ↦ panics ]
    else if str_eq c.operator "gt"
    then returns (greater v c.value)
    else returns false

unfoldable pub evaluate_conditions : List WorkflowCondition → Fields → Outcome String
unfolding condition_holds get_var
evaluate_conditions [] vars = returns ""
evaluate_conditions (c ∷ cs) vars = elim (get_var c.key vars) [
  | none ↦ evaluate_conditions cs vars
  | some v ↦ elim (condition_holds c v) [
    | panics ↦ panics
    | returns true ↦ returns c.next_step
    | returns false ↦ evaluate_conditions cs vars
  ]
]

unfoldable pub get_next_step_id : WorkflowStep → String
get_next_step_id step =
    let by_condition : String = elim step.conditions [ [] ↦ "" | c ∷ cs ↦ c.next_step ] in
    elim step.next_step_id [
      | none ↦ by_condition
      | some id ↦ if str_eq id "" then by_condition else id
    ]

unfoldable pub create_step_execution :
    WorkflowStep → StepResult → Option String → ℕ → ℕ → StepExecution
create_step_execution step result failure retry_count now =
    let ms = result.duration / 1000000 in
    let failed = is_some failure || not result.success in
    record {
      step_id = step.id;
      step_name = step.name;
      action_type = step.kind;
      status = if failed then "failed" else "completed";
      started_at = now - result.duration;
      completed_at = some now;
      duration = some ms;
      input = step.config;
      output = elim result.output [ none ↦ end | some o ↦ o ];
      error_message =
          if failed then elim failure [ some e ↦ e | none ↦ result.error_message ] else "";
      retry_count = retry_count;
      execution_time = ms;
    }
