-- ===== src/Tests/Failing.antt =====
-- The service of e-mails where the mail service is never reached, and its templates.
use engine_api_workflow.Common.{
  ℕ, List, ◌+◌, ◌≡◌, refl, pos, false, [], ◌∷◌, none, some, if◌then◌else◌, ltb_ℤ,
}
use engine_api_workflow.Models.Notification.{
  EmailNotification, SendEmailRequest, of_request, validate, can_retry,
}
use engine_api_workflow.Models.Template.{EmailTemplate, invalid_subject}
use engine_api_workflow.Repository.{Collection, Reply, counted, found, IsLawful, failed}
use engine_api_workflow.Worker.Retry.{starts_with}
use engine_api_workflow.Services.Sending.{
  save, deliver, message_of, settle_sent, after_error, handle_send_error, is_recoverable_error,
  occurs, send_error, settle_unsent,
}
use engine_api_workflow.Models.Notification.{total_size, calculate_next_retry, double_delay}
use engine_api_workflow.Models.Notification.Pattern.{
  matches_local, matches_domain, matches_letters, is_blank, byte_length,
}
use engine_api_workflow.Repository.Templates.{get_by_name}
use engine_api_workflow.Services.{Backend, World, EmailService, Message}
use engine_api_workflow.Services.Sending.{is_recoverable_error, send_notification_now}
use engine_api_workflow.Services.Batches.{retry_failed}
use engine_api_workflow.Services.Attempts.Burnt.{retry_failed-attempts}
use engine_api_workflow.Services.Cache.{
  update_template, get_template_by_name, create_default_templates, invalid_template,
  get_template_from_cache, invalidate_template_cache,
}
use engine_api_workflow.Services.Coherence.{update_template-cached}
use engine_api_workflow.Services.Defaults.{
  create_default_templates-none, get_default_templates, welcome_template,
}
use engine_api_workflow.Tests.Mail.{in_memory-FindsHeld, backend, world_of, in_memory, no_stats}
use engine_api_workflow.Repository.Notifications.{get_pending, find_notifications}
use engine_api_workflow.Models.Notification.Pattern.{matches_local, is_blank, byte_length}
use engine_api_workflow.Models.Notification.{total_size}
use engine_api_workflow.Services.Batches.{process_pending_notifications}
use engine_api_workflow.Services.Delivery.{process_pending_notifications-sends, after_all}
use engine_api_workflow.Tests.Mailing.{waiting}

-- A mail service that is never reached.
abbrev out_of_reach : EmailService
out_of_reach = record { State = ℕ; send = λ m k. (some "connection reset", k + 1) }

abbrev failing : Backend
failing = record {
  notification_store = in_memory EmailNotification;
  template_store = in_memory EmailTemplate;
  mailer = out_of_reach;
  parse = λ s. some "function \"default\" not defined";
  is_duplicate_key = λ s. false;
  render_text = λ s fields. some s;
  render_html = λ s fields. some s;
}

abbrev failed_once : EmailNotification
failed_once = record waiting { status = "failed"; attempts = 1; next_retry_at = some 550 }

abbrev failing_world : World failing
failing_world = record {
  notifications = failed_once ∷ [];
  templates = [];
  mail = 1;
  template_cache = [];
  is_processing = false;
  stats = no_stats;
}

retry_failed-attempts_example : (retry_failed failing 600 failed_once failing_world).0.attempts ≡ (
    if ltb_ℤ (pos (failed_once.attempts + 1)) failed_once.max_attempts
    then failed_once.attempts + 2
    else failed_once.attempts + 1)
unfolding validate can_retry is_recoverable_error engine_api_workflow.Services.Sending.occurs
    engine_api_workflow.Worker.Retry.starts_with
    engine_api_workflow.Models.Notification.Pattern.matches_local
    engine_api_workflow.Models.Notification.Pattern.is_blank
    engine_api_workflow.Models.Notification.Pattern.byte_length
    engine_api_workflow.Models.Notification.total_size
retry_failed-attempts_example =
    retry_failed-attempts failing 600 "connection reset" in_memory-FindsHeld (λ m s. refl) refl
      failed_once failing_world refl refl refl

abbrev old_welcome : EmailTemplate
old_welcome = record welcome_template { id = "t1"; name = "greeting" }

abbrev templates_world : World backend
templates_world = record (world_of []) {
  templates = old_welcome ∷ [];
  template_cache = ("greeting", old_welcome) ∷ [];
}

abbrev renamed_world : World backend
renamed_world = record templates_world {
  templates = record welcome_template { id = "t1"; updated_at = 800 } ∷ [];
}

abbrev new_welcome : EmailTemplate
new_welcome = record welcome_template { id = "t1" }

update_template-cached_example :
    ((get_template_by_name backend "welcome" renamed_world).0.0
      ≡ (get_by_name
          (in_memory EmailTemplate)
          backend.parse
          backend.is_duplicate_key
          "welcome"
          renamed_world.templates).0)
    × ((get_template_by_name backend "greeting" renamed_world).0 ≡ (some old_welcome, none))
unfolding update_template engine_api_workflow.Models.Template.validate_template
    engine_api_workflow.Models.Notification.Pattern.is_blank
    engine_api_workflow.Models.Notification.Pattern.byte_length
    engine_api_workflow.Models.Template.validate_template_syntax
    engine_api_workflow.Repository.Templates.update_template_document
    engine_api_workflow.Repository.Templates.set_template invalidate_template_cache
    get_template_from_cache
update_template-cached_example =
    update_template-cached backend 800 new_welcome old_welcome "greeting" templates_world
      renamed_world refl refl refl

no_default_templates :
    create_default_templates failing (λ k. "t") 800 get_default_templates failing_world
    ≡ (some (invalid_template (invalid_subject "function \"default\" not defined")), failing_world)
unfolding get_by_name
no_default_templates =
    create_default_templates-none failing (λ k. "t") 800 "function \"default\" not defined"
      failing_world refl refl

abbrev accepting : Backend
accepting = record failing { mailer = record { State = List Message; send = λ m l. (none, m ∷ l) } }

abbrev accepting_world : World accepting
accepting_world = record {
  notifications = waiting ∷ [];
  templates = [];
  mail = [];
  template_cache = [];
  is_processing = false;
  stats = no_stats;
}

process_pending_notifications-sends_example :
    let (e, w') = process_pending_notifications accepting 600 700 601 accepting_world in
    (e ≡ none) × (w'.mail ≡ after_all accepting.mailer (waiting ∷ []) [])
unfolding validate get_pending find_notifications matches_local is_blank byte_length total_size
process_pending_notifications-sends_example =
    process_pending_notifications-sends accepting 700 in_memory-FindsHeld (λ m s. refl) 600 601
      (waiting ∷ []) accepting_world refl refl (refl, tt)
