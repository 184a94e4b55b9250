-- ===== src/Tests/Retries.antt =====
-- The theorems on the retry manager and the engine at small values.
use engine_api_workflow.Common.{
  ltb_ℤ, to_int64, add_int64, mul_int64, ltb, leb, ◌%◌, ◌-◌, ◌/◌, ◌^◌, ℤ, negsuc, sub_ℕ,
  if◌then◌else◌, pos_part, ℕ, ◌*◌, ◌≡◌, ◌↔◌, ◌++◌, refl, List, [], ◌∷◌, true, none, some, pos,
  arith, has_underscore,
}
use engine_api_workflow.Models.Value.{end}
use engine_api_workflow.Queue.Redis.{task_not_found}
use engine_api_workflow.Queue.Item.{QueueItem, convert_queue_item_to_task}
use engine_api_workflow.Queue.Pipelines.{new_item}
use engine_api_workflow.Worker.Retry.{
  get_default_retry_policy, RetryManager, simple_contains, custom_backoff_calculation, Floats,
  fibonacci_from, should_retry, is_retryable_error,
}
use engine_api_workflow.Worker.Retry.Search.{simple_contains_iff}
use engine_api_workflow.Worker.Retry.Delay.{custom_backoff_calculation-eq, fibonacci}
use engine_api_workflow.Worker.Executor.{returns}
use engine_api_workflow.Worker.Engine.{of_queue, process_task}
use engine_api_workflow.Worker.Engine.Completion.{should_retry-convert, process_task-not_found}
use engine_api_workflow.Tests.Format.{text_codec}
use engine_api_workflow.Tests.Server.{memory, memory-IsReliable}
use engine_api_workflow.Tests.Queues.{one_running, queue_history, start-IsBalanced}
use engine_api_workflow.Tests.Values.{task}
use engine_api_workflow.Tests.Workers.{clock, no_executors, two_steps, two_executed}

simple_contains_iff_example :
    (simple_contains (97 ∷ 98 ∷ 99 ∷ []) (98 ∷ []) ≡ true)
    ↔ ((pre : List ℕ) × (post : List ℕ) × (97 ∷ 98 ∷ 99 ∷ [] ≡ pre ++ ((98 ∷ []) ++ post)))
simple_contains_iff_example = simple_contains_iff (97 ∷ 98 ∷ 99 ∷ []) (98 ∷ [])

-- Exact jitter, and powers of two that are cut off where amd64 cuts them off.
abbrev exact_jitter : ℕ → ℕ → ℤ
exact_jitter delay nanos =
    let k = nanos % 1000 in
    if leb k 500 then pos (delay * (500 - k) / 10000) else sub_ℕ 0 (delay * (k - 500) / 10000)

abbrev exact : Floats
exact = record {
  scaled = λ base multiplier n.
      if ltb (base * 2 ^ n) (2 ^ 63) then pos (base * 2 ^ n) else negsuc (2 ^ 63 - 1);
  jitter = λ delay nanos. exact_jitter (pos_part delay) nanos;
}

custom_backoff_calculation-eq_example :
    custom_backoff_calculation 4 get_default_retry_policy
    ≡ to_int64 (get_default_retry_policy.base_delay * fibonacci 4)
unfolding get_default_retry_policy
custom_backoff_calculation-eq_example =
    custom_backoff_calculation-eq 4 get_default_retry_policy (omega arith)

-- After 41 retries the custom strategy's delay is negative.
custom_overflow : ltb_ℤ (custom_backoff_calculation 41 get_default_retry_policy) (pos 0) ≡ true
unfolding custom_backoff_calculation fibonacci_from add_int64 mul_int64 get_default_retry_policy
custom_overflow = refl

-- An item that was tried nine times.
abbrev tired : QueueItem
tired = record (new_item "w1" "e1" "u1" end (pos 2) 5 "queued" none) { retry_count = 9 }

should_retry-convert_example :
    should_retry (convert_queue_item_to_task "a1" 9 tired) "timeout" get_default_retry_policy
    ≡ is_retryable_error "timeout" get_default_retry_policy.retryable_errors
unfolding get_default_retry_policy
should_retry-convert_example =
    should_retry-convert "a1" "timeout" 9 tired get_default_retry_policy (omega arith)

abbrev manager : RetryManager
manager = record { floats = exact; policies = []; default_policy = get_default_retry_policy }

process_task-not_found_example :
    (u : memory.Store) × (process_task text_codec memory clock no_executors manager
        (some two_steps)
        task
        0
        one_running
      ≡ returns (some (of_queue task_not_found), (two_executed.0, u)))
    × (memory.view u ≡ memory.view one_running)
unfolding has_underscore
process_task-not_found_example =
    process_task-not_found text_codec memory memory-IsReliable clock no_executors manager two_steps
      task 0 two_executed.0 queue_history start-IsBalanced refl two_executed.1
