-- ===== src/Services/Requests.antt =====
-- internal/services/notification_service.go: requests to send an e-mail, and the shapes of them that the
-- service makes itself. `new_id` is what NewObjectID returns.
use engine_api_workflow.Common.{
  ℕ, String, Bool, false, not, ◌&&◌, ◌||◌, List, [], ◌∷◌, Option, none, some, pos, is_empty, str_eq,
  ◌&◌, if◌then◌else◌,
}
use engine_api_workflow.Models.Value.{Fields, text, end, field}
use engine_api_workflow.Models.Notification.{
  EmailNotification, SendEmailRequest, to_email_notification, should_process, is_valid_priority,
}
use engine_api_workflow.Repository.Notifications.{NotificationFailure, create}
use engine_api_workflow.Services.{Backend, World}
use engine_api_workflow.Services.Sending.{send_notification_now}
use engine_api_workflow.Services.Templating.{RenderError, process_template}

abbrev pub is_valid_type : String → Bool
is_valid_type t =
    str_eq t "custom"
    || str_eq t "welcome"
    || str_eq t "password_reset"
    || str_eq t "system_alert"
    || str_eq t "workflow"
    || str_eq t "user_activity"
    || str_eq t "backup"
    || str_eq t "scheduled"
    || str_eq t "reminder"

pub data RequestError : Type 0 where
  no_recipients no_subject_or_template no_body_or_template : RequestError
  invalid_type invalid_priority : RequestError

unfoldable pub validate_send_email_request : SendEmailRequest → Option RequestError
validate_send_email_request req =
    if is_empty req.to
    then some no_recipients
    else if str_eq req.subject "" && str_eq req.template_name ""
    then some no_subject_or_template
    else if str_eq req.body "" && str_eq req.template_name ""
    then some no_body_or_template
    else if not (is_valid_type req.kind)
    then some invalid_type
    else if not (is_valid_priority req.priority)
    then some invalid_priority
    else none

pub data SendEmailError : Type 0 where
  validation_failed : RequestError → SendEmailError
  template_failed : RenderError → SendEmailError
  not_saved : NotificationFailure → SendEmailError

pub data SendResult : Type 0 where
  created : EmailNotification → SendResult
  refused : SendEmailError → SendResult

abbrev pub custom_request : List String → String → String → Bool → SendEmailRequest
custom_request to subject body is_html = record {
  kind = "custom";
  priority = "normal";
  to = to;
  cc = [];
  bcc = [];
  subject = subject;
  body = body;
  is_html = is_html;
  template_name = "";
  template_data = none;
  scheduled_at = none;
  max_attempts = pos 0;
  user_id = none;
  workflow_id = none;
  execution_id = none;
}

abbrev pub templated_request : String → List String → Option Fields → SendEmailRequest
templated_request name to fields = record (custom_request to "" "" false) {
  template_name = name;
  template_data = fields;
}

-- `upper` is the level in upper case, `time` the formatted time.
abbrev pub alert_request : String → String → String → String → List String → SendEmailRequest
alert_request level upper time message recipients =
    record (custom_request recipients ("[" & (upper & "] System Alert"))
      ("System Alert: " & (message & ("\n\nTime: " & (time & ("\nLevel: " & level))))) false) {
        kind = "system_alert";
        priority = if str_eq level "critical" then "critical" else "high";
      }

abbrev pub error_of : SendResult → Option SendEmailError
error_of (created n) = none
error_of (refused e) = some e

module _ (B : Backend) where
  -- The notification as it is stored: with its template, if it has one.
  unfoldable pub prepared :
      ℕ → SendEmailRequest → World B → (Option RenderError × EmailNotification) × World B
  prepared now req w =
      let n = to_email_notification now req in
      if str_eq req.template_name ""
      then ((none, n), w)
      else process_template B n req.template_name req.template_data w

  -- An error of the sending is logged, and the notification is returned.
  unfoldable pub sent_if_due : ℕ → EmailNotification → World B → SendResult × World B
  sent_if_due now n w =
      let (_, (n', w')) = send_notification_now B now n w in
      if should_process now n then (created n', w') else (created n, w)

  unfoldable pub stored_and_sent : String → ℕ → EmailNotification → World B → SendResult × World B
  stored_and_sent new_id now n w =
      let (n, (e, s)) = create B.notification_store new_id now n w.notifications in
      let w = record w { notifications = s } in
      elim e [ some e ↦ (refused (not_saved e), w) | none ↦ sent_if_due now n w ]

  unfoldable pub send_email : String → ℕ → SendEmailRequest → World B → SendResult × World B
  send_email new_id now req w = elim (validate_send_email_request req) [
    | some e ↦ (refused (validation_failed e), w)
    | none ↦
        let ((e, n), w) = prepared now req w in
        elim e [ some e ↦ (refused (template_failed e), w) | none ↦ stored_and_sent new_id now n w ]
  ]

  unfoldable pub send_simple_email :
      String → ℕ → List String → String → String → Bool → World B → SendResult × World B
  send_simple_email new_id now to subject body is_html w =
      send_email new_id now (custom_request to subject body is_html) w

  unfoldable pub send_templated_email :
      String → ℕ → String → List String → Option Fields → World B → Option SendEmailError × World B
  send_templated_email new_id now name to fields w =
      let (r, w) = send_email new_id now (templated_request name to fields) w in (error_of r, w)

  -- `date` is the formatted date.
  unfoldable pub send_welcome_email :
      String → ℕ → String → String → String → World B → Option SendEmailError × World B
  send_welcome_email new_id now date user_email user_name w =
      send_templated_email new_id now "welcome" (user_email ∷ [])
        (some (
          field "UserName" (text user_name)
            (field "Email" (text user_email) (field "Date" (text date) end))))
        w

  unfoldable pub send_system_alert :
      String
      → ℕ
      → String
      → String
      → String
      → String
      → List String
      → World B
      → Option SendEmailError × World B
  send_system_alert new_id now level upper time message recipients w =
      let (r, w) = send_email new_id now (alert_request level upper time message recipients) w in
      (error_of r, w)

  unfoldable pub send_password_reset_email :
      String → ℕ → String → String → String → World B → Option SendEmailError × World B
  send_password_reset_email new_id now user_email reset_token reset_url w =
      send_templated_email new_id now "password-reset" (user_email ∷ [])
        (some (
          field "ResetToken" (text reset_token)
            (field "ResetURL" (text reset_url) (field "ExpiresIn" (text "24 hours") end))))
        w
