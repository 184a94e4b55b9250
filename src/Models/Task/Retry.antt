-- ===== src/Models/Task/Retry.antt =====
-- AddError and CanRetry: how a task uses up its attempts.
use engine_api_workflow.Common.{ℕ, ◌+◌, ◌≡◌, ◌≤◌, ◌↔◌, String, List, [], ◌∷◌, false, arith, length}
use engine_api_workflow.Models.Task.{QueueTask, failed, or_alias, can_retry, add_error}

-- A task that has just had an error added is never one that CanRetry lets through: it is either
-- retrying, or failed with its attempts used up.
pub can_retry-add_error :
    (msg : String) (now : ℕ) (t : QueueTask) → can_retry (add_error msg now t) ≡ false
unfolding can_retry add_error
can_retry-add_error msg now t = ground arith

abbrev pub add_errors : List (String × ℕ) → QueueTask → QueueTask
add_errors [] t = t
add_errors ((msg, now) ∷ es) t = add_errors es (add_error msg now t)

abbrev pub limit : QueueTask → ℕ
limit t = or_alias t.max_retries t.max_attempts

add_error-limit : (msg : String) (now : ℕ) (t : QueueTask) → limit (add_error msg now t) ≡ limit t
unfolding add_error
add_error-limit msg now t = ground arith

add_error-count :
    (msg : String) (now : ℕ) (t : QueueTask) → (add_error msg now t).retry_count ≡ t.retry_count + 1
unfolding add_error
add_error-count msg now t = ground arith

add_error-failed_iff :
    (msg : String) (now : ℕ) (t : QueueTask)
    → ((add_error msg now t).status ≡ failed) ↔ (limit t ≤ t.retry_count + 1)
unfolding add_error
add_error-failed_iff msg now t = (λ h. ground arith, λ h. ground arith)

-- After one or more errors a task is failed exactly when its retry count plus the number of errors
-- has reached the limit; its retry count has grown by that number.
pub add_errors-failed_iff :
    (msg : String) (now : ℕ) (es : List (String × ℕ)) (t : QueueTask)
    → let u = add_errors ((msg, now) ∷ es) t in
      ((u.status ≡ failed) ↔ (limit t ≤ t.retry_count + length es + 1))
      × (u.retry_count ≡ t.retry_count + length es + 1)
add_errors-failed_iff msg now [] t = (
  (
    λ h. omega (arith, (add_error-failed_iff msg now t).0 h),
    λ h. (add_error-failed_iff msg now t).1 (omega arith),
  ),
  omega (arith, add_error-count msg now t),
)
add_errors-failed_iff msg now ((m, n) ∷ es) t =
    let u = add_error msg now t in
    let ih = add_errors-failed_iff m n es u in
    (
      (
        λ h. omega (arith, ih.0.0 h, add_error-limit msg now t, add_error-count msg now t),
        λ h. ih.0.1 (omega (arith, add_error-limit msg now t, add_error-count msg now t)),
      ),
      omega (arith, ih.1, add_error-count msg now t),
    )
