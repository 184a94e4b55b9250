-- ===== src/Services.antt =====
-- internal/services/notification_service.go: the service that stores and sends e-mails. Here are what it
-- is built on and what it keeps; its children are its parts.
pub mod Sending
pub mod Cache
pub mod Templating
pub mod Requests
pub mod Batches
pub mod Upkeep
pub mod Delivery
pub mod Overdue
pub mod Counts
pub mod Attempts
pub mod Refusals
pub mod Coherence
pub mod History
pub mod Defaults
use engine_api_workflow.Common.{ℕ, String, Bool, List, Option}
use engine_api_workflow.Models.Value.{Fields}
use engine_api_workflow.Models.Notification.{EmailNotification}
use engine_api_workflow.Models.Template.{EmailTemplate}
use engine_api_workflow.Repository.{Collection}
use engine_api_workflow.Repository.Notifications.{NotificationFailure}

pub data MailPriority : Type 0 where
  priority_low priority_normal priority_high priority_critical : MailPriority

-- The fields of email.Message that the service fills.
pub record Message : Type 0 where
  pub to : List String
  pub cc : List String
  pub bcc : List String
  pub subject : String
  pub text_body : String
  pub html_body : String
  pub priority : MailPriority

-- email.EmailService: a message that is not sent has the text of an error.
pub record EmailService : Type 1 where
  pub State : Type 0
  pub send : Message → State → Option String × State

-- The two collections, the mail service, and what the packages text/template and html/template and the
-- driver do: `parse` returns the error of a text, the renderings none for an error.
pub record Backend : Type 1 where
  pub notification_store : Collection EmailNotification
  pub template_store : Collection EmailTemplate
  pub mailer : EmailService
  pub parse : String → Option String
  pub is_duplicate_key : String → Bool
  pub render_text : String → Option Fields → Option String
  pub render_html : String → Option Fields → Option String

pub record ServiceStats : Type 0 where
  pub emails_sent_today : ℕ
  pub emails_failed_today : ℕ
  pub last_processing_time : ℕ
  pub processing_duration : ℕ
  pub templates_cached : ℕ
  pub active_templates : ℕ

-- The service with the states of what it is built on.
pub record World (B : Backend) : Type 0 where
  pub notifications : B.notification_store.State
  pub templates : B.template_store.State
  pub mail : B.mailer.State
  pub template_cache : List (String × EmailTemplate)
  pub is_processing : Bool
  pub stats : ServiceStats

pub data SendFailure : Type 0 where
  update_failed : NotificationFailure → SendFailure
  mail_failed : String → SendFailure
