-- ===== src/Tests/Mailing.antt =====
-- The theorems of the service of e-mails on concrete worlds.
use engine_api_workflow.Common.{
  any, ◌+◌, ◌*◌, ◌≡◌, refl, ◌⊎◌, pos, String, Bool, true, false, List, [], ◌∷◌, Option, none, some,
  is_some, length, arith, if◌then◌else◌, str_eq,
}
use engine_api_workflow.Models.Notification.{
  EmailNotification, SendEmailRequest, of_request, validate,
}
use engine_api_workflow.Repository.{failed}
use engine_api_workflow.Repository.Notifications.{
  get_pending, find_notifications, update, set_document,
}
use engine_api_workflow.Worker.Retry.{starts_with}
use engine_api_workflow.Services.Sending.{
  save, deliver, message_of, settle_sent, after_error, handle_send_error, is_recoverable_error,
  occurs, send_error, settle_unsent,
}
use engine_api_workflow.Services.Batches.{process_batch, process_each, update_processing_stats}
use engine_api_workflow.Models.Notification.{total_size, calculate_next_retry, double_delay}
use engine_api_workflow.Models.Notification.Pattern.{
  matches_local, matches_domain, matches_letters, is_blank, byte_length,
}
use engine_api_workflow.Services.{Message}
use engine_api_workflow.Services.Sending.{is_recoverable_error, send_notification_now}
use engine_api_workflow.Services.Overdue.{process_scheduled_notifications-idle, overdue_is_stuck}
use engine_api_workflow.Services.Counts.{IsCounting, process_pending_notifications-counts}
use engine_api_workflow.Services.Batches.{
  process_batch, process_pending_notifications, process_scheduled_notifications, retry_once,
}
use engine_api_workflow.Services.Upkeep.{cancel_found, resend_found, resend_notification}
use engine_api_workflow.Services.Attempts.{IsSound}
use engine_api_workflow.Services.Attempts.Commands.{
  Command, send, pending_batch, scheduled_batch, retry_batch, cancel, resend, cleanup, run_commands,
  run_commands-IsSound,
}
use engine_api_workflow.Services.Requests.{
  validate_send_email_request, send_email, validation_failed, no_recipients, not_saved,
}
use engine_api_workflow.Services.Refusals.{send_email-refused}
use engine_api_workflow.Services.History.{resend_notification-HasErrors, HasErrors}
use engine_api_workflow.Tests.Notifications.{request}
use engine_api_workflow.Tests.Mail.{backend, world_of, in_memory-IsLawful, post_office}

abbrev pub waiting : EmailNotification
waiting = record (of_request 500 request) { id = "n1"; max_attempts = pos 3; scheduled_at = none }

abbrev lost : EmailNotification
lost = record waiting { id = "n2"; to = "lost@mail.org" ∷ [] }

abbrev due : EmailNotification
due = record waiting { id = "n3"; status = "scheduled"; scheduled_at = some 900 }

process_scheduled_notifications-idle_example :
    (process_scheduled_notifications backend 1000 1001 (world_of (due ∷ []))).1
    ≡ world_of (due ∷ [])
process_scheduled_notifications-idle_example =
    process_scheduled_notifications-idle backend (in_memory-IsLawful EmailNotification) 1000 1001
      (world_of (due ∷ [])) (omega arith)

overdue_is_stuck_example :
    let w = world_of (due ∷ []) in
    ((is_some (send_notification_now backend 1001 due w).0 ≡ true)
      × ((send_notification_now backend 1001 due w).1.1 ≡ w))
    × ((is_some (cancel_found backend 1001 due w).0 ≡ true)
        × ((cancel_found backend 1001 due w).1 ≡ w))
    × ((is_some (resend_found backend 1001 due w).0 ≡ true)
        × ((resend_found backend 1001 due w).1 ≡ w))
    × ((retry_once backend 1001 due w).1 ≡ w)
overdue_is_stuck_example = overdue_is_stuck backend 1001 due (world_of (due ∷ [])) refl

abbrev answered : Bool → Message → List Message → Option String × List Message
answered b m s = if b then (some "dial tcp: i/o timeout", s) else (none, m ∷ s)

answered-sent :
    (b : Bool) (m : Message) (s : List Message)
    → (answered b m s).0 ≡ none
    → length (answered b m s).1 ≡ length s + 1
answered-sent true m s e = absurd (ground (arith, e))
answered-sent false m s e = omega arith

answered-refused :
    (b : Bool) (m : Message) (s : List Message) (text : String)
    → (answered b m s).0 ≡ some text
    → length (answered b m s).1 ≡ length s
answered-refused true m s text e = refl
answered-refused false m s text e = absurd (ground (arith, e))

abbrev office_count : IsCounting post_office
office_count = record {
  taken = length;
  taken-sent = λ m s e. answered-sent (any (λ a. str_eq a "lost@mail.org") m.to) m s e;
  taken-refused =
      λ m s text e. answered-refused (any (λ a. str_eq a "lost@mail.org") m.to) m s text e;
}

process_pending_notifications-counts_example :
    let w = world_of (waiting ∷ lost ∷ []) in
    let w' = (process_pending_notifications backend 600 601 700 w).1 in
    (w'.stats.emails_sent_today + 2 * length w.mail
      ≡ w.stats.emails_sent_today + 2 * length w'.mail)
    × (w'.is_processing ≡ w.is_processing)
process_pending_notifications-counts_example =
    process_pending_notifications-counts backend office_count 600 601 700
      (world_of (waiting ∷ lost ∷ []))

sound : IsSound waiting
sound = record {
  within = omega arith;
  at_least_one = omega arith;
  at_most_ten = omega arith;
  known = refl;
}

abbrev commands : List Command
commands =
    send "n9" 500 request
    ∷ pending_batch 600 601 700
    ∷ scheduled_batch 1000 1001
    ∷ retry_batch 2000 2001
    ∷ cancel 2100 "n1"
    ∷ resend 2200 "n1"
    ∷ cleanup 9000 10
    ∷ []

run_commands-IsSound_example :
    (in_memory-IsLawful EmailNotification).Every IsSound
      (run_commands backend commands (world_of (waiting ∷ []))).notifications
run_commands-IsSound_example =
    run_commands-IsSound backend (in_memory-IsLawful EmailNotification) commands
      (world_of (waiting ∷ [])) (sound, tt)

abbrev no_one : SendEmailRequest
no_one = record request { to = [] }

send_email-refused_example :
    let w = world_of (waiting ∷ []) in
    (w.mail ≡ w.mail)
    × (w.stats ≡ w.stats)
    × ((w.notifications ≡ w.notifications)
        ⊎ ((text : String) × (validation_failed no_recipients ≡ not_saved (failed text))))
unfolding send_email validate_send_email_request
send_email-refused_example =
    send_email-refused backend "n9" 500 no_one (world_of (waiting ∷ [])) (world_of (waiting ∷ []))
      (validation_failed no_recipients) refl

abbrev on_record : EmailNotification
on_record = record waiting {
  status = "failed";
  errors =
      record {
        timestamp = 550;
        error_code = "SEND_ERROR";
        message = "dial tcp: i/o timeout";
        details = "";
        recoverable = true;
        context = none;
      }
      ∷ [];
}

resend_notification-HasErrors_example :
    (in_memory-IsLawful EmailNotification).Every HasErrors
      (resend_notification backend 600 "n1" (world_of (on_record ∷ []))).1.notifications
resend_notification-HasErrors_example =
    resend_notification-HasErrors backend (in_memory-IsLawful EmailNotification) 600 "n1"
      (world_of (on_record ∷ [])) (refl, tt)

-- One of the two is sent, and the statistics say two.
sent_twice :
    let w =
      (process_pending_notifications backend 600 601 700 (world_of (waiting ∷ lost ∷ []))).1 in
    (w.stats.emails_sent_today ≡ 2) × (w.stats.emails_failed_today ≡ 2) × (length w.mail ≡ 1)
unfolding process_pending_notifications process_batch get_pending find_notifications process_each
    send_notification_now save update validate matches_local is_blank byte_length total_size deliver
    message_of settle_sent set_document matches_domain matches_letters calculate_next_retry
    double_delay update_processing_stats after_error handle_send_error is_recoverable_error occurs
    send_error settle_unsent starts_with
sent_twice = (refl, refl, refl)
