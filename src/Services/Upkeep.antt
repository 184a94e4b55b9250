-- ===== src/Services/Upkeep.antt =====
-- internal/services/notification_service.go: a notification is cancelled or sent again, and old ones are
-- removed.
use engine_api_workflow.Common.{ℕ, String, not, ◌&&◌, [], Option, none, some, str_eq, if◌then◌else◌}
use engine_api_workflow.Models.Notification.{
  EmailNotification, notification_status_pending, notification_status_scheduled,
}
use engine_api_workflow.Repository.Notifications.{
  NotificationFailure, get_by_id, cleanup_old, notification_status_cancelled,
}
use engine_api_workflow.Services.{Backend, World, SendFailure}
use engine_api_workflow.Services.Sending.{save, send_notification_now}

pub data UpkeepError : Type 0 where
  repository_failed : NotificationFailure → UpkeepError
  wrong_status : String → UpkeepError
  not_sent : SendFailure → UpkeepError

abbrev pub repository_error : Option NotificationFailure → Option UpkeepError
repository_error none = none
repository_error (some e) = some (repository_failed e)

abbrev pub send_failure : Option SendFailure → Option UpkeepError
send_failure none = none
send_failure (some e) = some (not_sent e)

abbrev pub reset_for_resend : ℕ → EmailNotification → EmailNotification
reset_for_resend now n = record n {
  status = notification_status_pending;
  attempts = 0;
  errors = [];
  next_retry_at = none;
  updated_at = now;
}

module _ (B : Backend) where
  abbrev pub cancel_found : ℕ → EmailNotification → World B → Option UpkeepError × World B
  cancel_found now n w =
      if not (str_eq n.status notification_status_pending)
        && not (str_eq n.status notification_status_scheduled)
      then (some (wrong_status n.status), w)
      else (let (_, (e, w)) = save B now (record n { status = notification_status_cancelled }) w in
          (repository_error e, w))

  unfoldable pub cancel_notification : ℕ → String → World B → Option UpkeepError × World B
  cancel_notification now id w =
      let (n, e) = get_by_id B.notification_store id w.notifications in
      elim n [ none ↦ (repository_error e, w) | some n ↦ cancel_found now n w ]

  unfoldable pub resend_found : ℕ → EmailNotification → World B → Option UpkeepError × World B
  resend_found now n w =
      let (n, (e, w)) = save B now (reset_for_resend now n) w in
      let (f, (_, sent)) = send_notification_now B now n w in
      elim e [ some e ↦ (some (repository_failed e), w) | none ↦ (send_failure f, sent) ]

  unfoldable pub resend_notification : ℕ → String → World B → Option UpkeepError × World B
  resend_notification now id w =
      let (n, e) = get_by_id B.notification_store id w.notifications in
      elim n [ none ↦ (repository_error e, w) | some n ↦ resend_found now n w ]

  unfoldable pub cleanup_old_notifications :
      ℕ → ℕ → World B → (ℕ × Option NotificationFailure) × World B
  cleanup_old_notifications now older_than w =
      let (r, s) = cleanup_old B.notification_store now older_than w.notifications in
      (r, record w { notifications = s })
