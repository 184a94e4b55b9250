-- ===== src/Models/Workflow.antt =====
-- internal/models/workflow.go and internal/models/types.go: workflows, their steps, and the methods
-- on them. Numbers that the validation keeps from being negative are natural numbers; the triggers'
-- and webhooks' contents, which no method here reads, are left out.
pub mod Tags
pub mod Defaults
use engine_api_workflow.Common.{
  ℕ, ◌+◌, ℤ, String, ◌≡◌, Bool, true, false, ◌&&◌, not, Option, none, some, List, [], ◌∷◌, ◌++◌,
  is_empty, is_some, str_eq, ◌==◌, if◌then◌else◌,
}
use engine_api_workflow.Models.Value.{Value, Fields}

pub record Position : Type 0 where
  pub x : ℤ
  pub y : ℤ

pub record WorkflowCondition : Type 0 where
  pub key : String
  pub operator : String
  pub value : Value
  pub next_step : String

pub record WorkflowStep : Type 0 where
  pub id : String
  pub name : String
  pub kind : String
  pub config : Fields
  pub next_step_id : Option String
  pub conditions : List WorkflowCondition
  pub position : Position
  pub description : String
  pub is_enabled : Bool

pub record WorkflowTrigger : Type 0 where
  pub kind : String
  pub config : Fields
  pub url : String
  pub secret : String

-- Of WorkflowStats, the counters.
pub record WorkflowStats : Type 0 where
  pub total_executions : ℕ
  pub successful_runs : ℕ
  pub failed_runs : ℕ
  pub successful_executions : ℕ
  pub failed_executions : ℕ

pub record Workflow : Type 0 where
  pub id : String
  pub name : String
  pub description : String
  pub user_id : String
  pub status : String
  pub steps : List WorkflowStep
  pub triggers : List WorkflowTrigger
  pub tags : List String
  pub category : String
  pub priority : ℕ
  pub version : ℕ
  pub version_name : String
  pub parent_workflow_id : Option String
  pub active : Option Bool
  pub timeout_minutes : ℕ
  pub retry_attempts : ℕ
  pub retry_delay_ms : ℕ
  pub max_concurrent : ℕ
  pub environment : String
  pub stats : Option WorkflowStats
  pub created_at : ℕ
  pub updated_at : ℕ
  pub deleted_at : Option ℕ

abbrev pub active_or_unset : Option Bool → Bool
active_or_unset none = true
active_or_unset (some b) = b

unfoldable pub is_active : Workflow → Bool
is_active w = str_eq w.status "active" && (not (is_some w.deleted_at) && active_or_unset w.active)

unfoldable pub can_be_executed : Workflow → Bool
unfolding is_active
can_be_executed w = is_active w && (not (is_empty w.steps) && not (is_empty w.triggers))

-- The loop that looks a step up: the first with the ID.
unfoldable pub find_step : String → List WorkflowStep → Option WorkflowStep
find_step id [] = none
find_step id (s ∷ ss) = if str_eq s.id id then some s else find_step id ss

abbrev pub get_step_by_id : Workflow → String → Option WorkflowStep
get_step_by_id w id = find_step id w.steps

abbrev pub get_first_step : Workflow → Option WorkflowStep
get_first_step w = elim w.steps [ [] ↦ none | s ∷ _ ↦ some s ]

unfoldable pub contains : String → List String → Bool
contains tag [] = false
contains tag (t ∷ ts) = if str_eq t tag then true else contains tag ts

unfoldable pub has_tag : Workflow → String → Bool
unfolding contains
has_tag w tag = contains tag w.tags

unfoldable pub add_tag : Workflow → String → Workflow
unfolding has_tag
add_tag w tag = if has_tag w tag then w else record w { tags = w.tags ++ tag ∷ [] }

-- `append(w.Tags[:i], w.Tags[i+1:]...)` at the first match.
unfoldable pub drop_first : String → List String → List String
drop_first tag [] = []
drop_first tag (t ∷ ts) = if str_eq t tag then ts else t ∷ drop_first tag ts

unfoldable pub remove_tag : Workflow → String → Workflow
unfolding drop_first
remove_tag w tag = record w { tags = drop_first tag w.tags }

unfoldable pub increment_version : Workflow → ℕ → Workflow
increment_version w now = record w { version = w.version + 1; updated_at = now }

abbrev pub or_default : ℕ → ℕ → ℕ
or_default n d = if n == 0 then d else n

abbrev pub zero_stats : WorkflowStats
zero_stats = record {
  total_executions = 0;
  successful_runs = 0;
  failed_runs = 0;
  successful_executions = 0;
  failed_executions = 0;
}

unfoldable pub set_defaults : Workflow → ℕ → Workflow
set_defaults w now = record w {
  status = if str_eq w.status "" then "draft" else w.status;
  priority = or_default w.priority 3;
  timeout_minutes = or_default w.timeout_minutes 30;
  retry_attempts = or_default w.retry_attempts 3;
  retry_delay_ms = or_default w.retry_delay_ms 5000;
  max_concurrent = or_default w.max_concurrent 10;
  version = or_default w.version 1;
  created_at = or_default w.created_at now;
  updated_at = now;
  active = elim w.active [ none ↦ some true | some b ↦ some b ];
  stats = elim w.stats [ none ↦ some zero_stats | some s ↦ some s ];
}
