-- ===== src/Tests/Values.antt =====
-- The theorems on the models at small values.
use engine_api_workflow.Common.{
  ◌≡◌, refl, List, [], ◌∷◌, true, false, none, some, pos, str_eq, if◌then◌else◌,
}
use engine_api_workflow.Models.Value.{end}
use engine_api_workflow.Models.Task.{QueueTask, processing, add_error, can_retry}
use engine_api_workflow.Models.Workflow.{
  Workflow, WorkflowStep, has_tag, add_tag, remove_tag, contains,
}
use engine_api_workflow.Models.Task.Retry.{can_retry-add_error}
use engine_api_workflow.Models.Workflow.Tags.{tags_lem, DistinctTags}

abbrev pub task : QueueTask
task = record {
  id = "a1";
  workflow_id = "w1";
  execution_id = some "e1";
  user_id = "u1";
  task_name = "workflow_execution";
  task_type = "workflow";
  status = processing;
  priority = pos 2;
  queue_name = "main";
  payload = end;
  result = none;
  scheduled_at = none;
  created_at = 1;
  started_at = some 2;
  processed_at = none;
  completed_at = some 7;
  updated_at = 7;
  attempts = 0;
  max_attempts = 3;
  retry_count = 1;
  max_retries = 0;
  last_attempt = none;
  next_retry = none;
  last_error = "";
  error_message = "";
  results = none;
  kind = "";
}

abbrev pub workflow_of : List WorkflowStep → Workflow
workflow_of steps = record {
  id = "w1";
  name = "one";
  description = "";
  user_id = "u1";
  status = "active";
  steps = steps;
  triggers = [];
  tags = "daily" ∷ "mail" ∷ [];
  category = "";
  priority = 2;
  version = 1;
  version_name = "";
  parent_workflow_id = none;
  active = some true;
  timeout_minutes = 0;
  retry_attempts = 2;
  retry_delay_ms = 0;
  max_concurrent = 0;
  environment = "";
  stats = none;
  created_at = 1;
  updated_at = 1;
  deleted_at = none;
}

can_retry-add_error_example : can_retry (add_error "timeout" 9 task) ≡ false
can_retry-add_error_example = can_retry-add_error "timeout" 9 task

tags_lem_example :
    let w = workflow_of [] in
    (has_tag (add_tag w "sales") "mail"
      ≡ (if str_eq "sales" "mail" then true else has_tag w "mail"))
    × (has_tag (remove_tag w "sales") "mail"
        ≡ (if str_eq "sales" "mail" then false else has_tag w "mail"))
    × DistinctTags (add_tag w "sales").tags
    × DistinctTags (remove_tag w "sales").tags
unfolding contains
tags_lem_example = tags_lem (workflow_of []) "sales" "mail" (refl, (refl, tt))
