-- ===== src/Services/Batches.antt =====
-- internal/services/notification_service.go: the batches that the worker starts, of the pending, the
-- scheduled and the failed notifications. `asked` is when the repository was asked, `now` the time of
-- the calls after it, `finished` the end of the batch.
use engine_api_workflow.Common.{
  ℕ, ◌+◌, ◌-◌, String, true, false, List, [], ◌∷◌, ◌++◌, Option, none, some, length, if◌then◌else◌,
}
use engine_api_workflow.Models.Notification.{
  EmailNotification, can_retry, calculate_next_retry, notification_status_pending,
}
use engine_api_workflow.Repository.Notifications.{get_pending, get_scheduled, get_failed_for_retry}
use engine_api_workflow.Services.{Backend, World, ServiceStats, SendFailure}
use engine_api_workflow.Services.Sending.{save, send_notification_now}

pub data BatchError : Type 0 where
  already_in_progress not_readable : BatchError

-- An error of a batch, without the flag Recoverable, which nothing reads.
pub record ProcessingError : Type 0 where
  pub notification_id : String
  pub failure : SendFailure

pub record ProcessingResult : Type 0 where
  pub processed_count : ℕ
  pub success_count : ℕ
  pub error_count : ℕ
  pub errors : List ProcessingError
  pub duration : ℕ

abbrev pub empty_result : ℕ → ProcessingResult
empty_result n = record {
  processed_count = n;
  success_count = 0;
  error_count = 0;
  errors = [];
  duration = 0;
}

abbrev pub counted_in : String → Option SendFailure → ProcessingResult → ProcessingResult
counted_in id none r = record r { success_count = r.success_count + 1 }
counted_in id (some e) r = record r {
  error_count = r.error_count + 1;
  errors = r.errors ++ record { notification_id = id; failure = e } ∷ [];
}

unfoldable pub update_processing_stats : ℕ → ProcessingResult → ServiceStats → ServiceStats
update_processing_stats finished r s = record s {
  last_processing_time = finished;
  processing_duration = r.duration;
  emails_sent_today = s.emails_sent_today + r.success_count;
  emails_failed_today = s.emails_failed_today + r.error_count;
}

-- What RetryFailedNotifications stores before it sends.
abbrev pub next_attempt : ℕ → EmailNotification → EmailNotification
next_attempt now n =
    let n = record n { attempts = n.attempts + 1 } in
    record n { next_retry_at = some (calculate_next_retry now n) }

module _ (B : Backend) where
  unfoldable pub process_each :
      ℕ → List EmailNotification → ProcessingResult → World B → ProcessingResult × World B
  process_each now [] r w = (r, w)
  process_each now (n ∷ l) r w =
      let (e, (n', w)) = send_notification_now B now n w in
      process_each now l (counted_in n'.id e r) w

  -- The batch, between the two settings of isProcessing.
  unfoldable pub process_batch : ℕ → ℕ → ℕ → World B → Option BatchError × World B
  process_batch asked now finished w =
      elim (get_pending B.notification_store asked 100 w.notifications) [
        | none ↦ (some not_readable, w)
        | some [] ↦ (none, w)
        | some (n ∷ l) ↦
            let (r, w) = process_each now (n ∷ l) (empty_result (length (n ∷ l))) w in
            let r = record r { duration = finished - asked } in
            (none, record w { stats = update_processing_stats finished r w.stats })
      ]

  unfoldable pub process_pending_notifications : ℕ → ℕ → ℕ → World B → Option BatchError × World B
  process_pending_notifications asked now finished w =
      let (e, w') = process_batch asked now finished (record w { is_processing = true }) in
      if w.is_processing
      then (some already_in_progress, w)
      else (e, record w' { is_processing = false })

  unfoldable pub process_scheduled : ℕ → EmailNotification → World B → World B
  process_scheduled now n w =
      let (n, (e, w)) = save B now (record n { status = notification_status_pending }) w in
      elim e [ some _ ↦ w | none ↦ (send_notification_now B now n w).1.1 ]

  unfoldable pub process_each_scheduled : ℕ → List EmailNotification → World B → World B
  process_each_scheduled now [] w = w
  process_each_scheduled now (n ∷ l) w = process_each_scheduled now l (process_scheduled now n w)

  unfoldable pub process_scheduled_notifications : ℕ → ℕ → World B → Option BatchError × World B
  process_scheduled_notifications asked now w =
      elim (get_scheduled B.notification_store asked 50 w.notifications) [
        | none ↦ (some not_readable, w)
        | some l ↦ (none, process_each_scheduled now l w)
      ]

  -- The notification is returned as the loop leaves it.
  unfoldable pub retry_once : ℕ → EmailNotification → World B → EmailNotification × World B
  retry_once now n w =
      let (n, (e, w)) = save B now (next_attempt now n) w in
      elim e [ some _ ↦ (n, w) | none ↦ (send_notification_now B now n w).1 ]

  unfoldable pub retry_failed : ℕ → EmailNotification → World B → EmailNotification × World B
  retry_failed now n w = let tried = retry_once now n w in if can_retry now n then tried else (n, w)

  unfoldable pub retry_each : ℕ → List EmailNotification → World B → World B
  retry_each now [] w = w
  retry_each now (n ∷ l) w = retry_each now l (retry_failed now n w).1

  unfoldable pub retry_failed_notifications : ℕ → ℕ → World B → Option BatchError × World B
  retry_failed_notifications asked now w =
      elim (get_failed_for_retry B.notification_store asked 25 w.notifications) [
        | none ↦ (some not_readable, w)
        | some l ↦ (none, retry_each now l w)
      ]
