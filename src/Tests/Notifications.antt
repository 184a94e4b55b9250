-- ===== src/Tests/Notifications.antt =====
-- E-mail notifications: a request, what becomes of it, and what is accepted.
use engine_api_workflow.Common.{true, ◌+◌, ◌≡◌, ◌↔◌, refl, false, [], ◌∷◌, none, some, pos}
use engine_api_workflow.Models.Notification.{
  EmailNotification, SendEmailRequest, total_size, validate, invalid_address, to_email_notification,
  calculate_next_retry,
}
use engine_api_workflow.Models.Notification.Pattern.{
  matches_email, matches_local, is_blank, byte_length,
}
use engine_api_workflow.Models.Notification.Validation.{validate_iff, IsSendable}
use engine_api_workflow.Models.Notification.Address.{matches_email_iff, IsAddress, codes}
use engine_api_workflow.Models.Notification.Backoff.{calculate_next_retry-eq, with_jitter}

abbrev pub request : SendEmailRequest
request = record {
  kind = "custom";
  priority = "high";
  to = "ana.perez+x@mail.example.org" ∷ [];
  cc = [];
  bcc = [];
  subject = "Hola";
  body = "texto";
  is_html = false;
  template_name = "";
  template_data = none;
  scheduled_at = some 900;
  max_attempts = pos 0;
  user_id = none;
  workflow_id = none;
  execution_id = none;
}

unfoldable pub notification : EmailNotification
unfolding to_email_notification
notification = to_email_notification 500 request

accepted : validate 600 notification ≡ none
unfolding validate notification matches_local is_blank byte_length total_size
accepted = refl

refused : validate 600 (record notification { to = "ana@mail" ∷ [] }) ≡ some invalid_address
unfolding validate notification matches_local
refused = refl

validate_iff_example : (validate 600 notification ≡ none) ↔ IsSendable 600 notification
validate_iff_example = validate_iff 600 notification

calculate_next_retry-eq_example :
    calculate_next_retry 7 notification ≡ 7 + with_jitter notification.attempts
calculate_next_retry-eq_example = calculate_next_retry-eq 7 notification

matches_email_iff_example : (matches_email "a@b.io" ≡ true) ↔ IsAddress (codes "a@b.io")
matches_email_iff_example = matches_email_iff "a@b.io"
