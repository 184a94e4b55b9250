-- ===== src/Models/Notification.antt =====
-- internal/models/notification.go: an e-mail notification, its validation and its retries. `now` is
-- what time.Now() returns in the call. Sizes of attachments are not negative.
pub mod Pattern
pub mod Validation
pub mod Backoff
pub mod Schedule
pub mod Address
use Prim.Native.Char.{code}
use engine_api_workflow.Common.{
  ℕ, zero, suc, ◌+◌, ◌*◌, ◌/◌, ◌-◌, ℤ, pos, String, Bool, true, false, not, ◌&&◌, ◌||◌, List, [],
  ◌∷◌, ◌++◌, Option, none, some, length, is_empty, any, ltb, leb, ltb_ℤ, ◌==◌, str_eq,
  if◌then◌else◌, is_some,
}
use Prim.Native.String
use engine_api_workflow.Models.Notification.Pattern.{
  matches_local, matches_email, byte_length, is_blank,
}
use engine_api_workflow.Models.Value.{Fields, minute, hour}

-- The statuses are texts in the source.
abbrev pub notification_status_pending : String
notification_status_pending = "pending"

abbrev pub notification_status_sent : String
notification_status_sent = "sent"

abbrev pub notification_status_failed : String
notification_status_failed = "failed"

abbrev pub notification_status_scheduled : String
notification_status_scheduled = "scheduled"

abbrev pub is_valid_status : String → Bool
is_valid_status s =
    str_eq s notification_status_pending
    || str_eq s "processing"
    || str_eq s notification_status_sent
    || str_eq s notification_status_failed
    || str_eq s "cancelled"
    || str_eq s notification_status_scheduled

abbrev pub is_valid_priority : String → Bool
is_valid_priority p = str_eq p "low" || str_eq p "normal" || str_eq p "high" || str_eq p "critical"

abbrev pub max_email_recipients : ℕ
max_email_recipients = 100

abbrev pub max_subject_length : ℕ
max_subject_length = 200

abbrev pub max_body_length : ℕ
max_body_length = 1000000

abbrev pub max_attachment_size : ℕ
max_attachment_size = 26214400

abbrev pub max_attachments : ℕ
max_attachments = 10

abbrev pub default_max_attempts : ℤ
default_max_attempts = pos 3

abbrev pub default_retry_delay : ℕ
default_retry_delay = 5 * minute

abbrev pub max_retry_delay : ℕ
max_retry_delay = 24 * hour

pub record EmailAttachment : Type 0 where
  pub filename : String
  pub content_type : String
  pub size : ℕ
  pub data_bytes : String
  pub storage_path : String
  pub inline : Bool
  pub content_id : String

pub record NotificationError : Type 0 where
  pub timestamp : ℕ
  pub error_code : String
  pub message : String
  pub details : String
  pub recoverable : Bool
  pub context : Option Fields

pub record EmailNotification : Type 0 where
  pub id : String
  pub kind : String
  pub status : String
  pub priority : String
  pub to : List String
  pub cc : List String
  pub bcc : List String
  pub subject : String
  pub body : String
  pub is_html : Bool
  pub template_name : String
  pub template_data : Option Fields
  pub attachments : List EmailAttachment
  pub scheduled_at : Option ℕ
  pub sent_at : Option ℕ
  pub attempts : ℕ
  pub max_attempts : ℤ
  pub last_attempt_at : Option ℕ
  pub next_retry_at : Option ℕ
  pub errors : List NotificationError
  pub message_id : String
  pub provider_data : Option Fields
  pub user_id : Option String
  pub workflow_id : Option String
  pub execution_id : Option String
  pub created_at : ℕ
  pub updated_at : ℕ
  pub created_by : Option String

pub record SendEmailRequest : Type 0 where
  pub kind : String
  pub priority : String
  pub to : List String
  pub cc : List String
  pub bcc : List String
  pub subject : String
  pub body : String
  pub is_html : Bool
  pub template_name : String
  pub template_data : Option Fields
  pub scheduled_at : Option ℕ
  pub max_attempts : ℤ
  pub user_id : Option String
  pub workflow_id : Option String
  pub execution_id : Option String

pub data ValidationError : Type 0 where
  no_recipient too_many_recipients invalid_address no_subject subject_too_long : ValidationError
  no_body body_too_long too_many_attachments attachment_too_large total_too_large : ValidationError
  wrong_max_attempts scheduled_in_past : ValidationError

-- The `if … { return err }` of a function, in order.
abbrev pub first_error : List (Bool × ValidationError) → Option ValidationError
first_error [] = none
first_error ((b, e) ∷ l) = if b then some e else first_error l

unfoldable pub total_size : List EmailAttachment → ℕ
total_size [] = 0
total_size (a ∷ l) = a.size + total_size l

abbrev pub is_past : ℕ → Option ℕ → Bool
is_past now none = false
is_past now (some t) = ltb t now

abbrev pub is_future : ℕ → Option ℕ → Bool
is_future now none = false
is_future now (some t) = ltb now t

abbrev pub guards : ℕ → EmailNotification → List (Bool × ValidationError)
guards now n =
    (is_empty n.to, no_recipient)
    ∷ (ltb max_email_recipients (length n.to), too_many_recipients)
    ∷ (any (λ e. not (matches_email e)) (n.to ++ n.cc ++ n.bcc), invalid_address)
    ∷ (is_blank n.subject, no_subject)
    ∷ (ltb max_subject_length (byte_length n.subject), subject_too_long)
    ∷ (is_blank n.body && str_eq n.template_name "", no_body)
    ∷ (ltb max_body_length (byte_length n.body), body_too_long)
    ∷ (ltb max_attachments (length n.attachments), too_many_attachments)
    ∷ (any (λ a. ltb max_attachment_size a.size) n.attachments, attachment_too_large)
    ∷ (ltb (max_attachment_size * 2) (total_size n.attachments), total_too_large)
    ∷ (ltb_ℤ n.max_attempts (pos 1) || ltb_ℤ (pos 10) n.max_attempts, wrong_max_attempts)
    ∷ (is_past now n.scheduled_at, scheduled_in_past)
    ∷ []

unfoldable pub validate : ℕ → EmailNotification → Option ValidationError
validate now n = first_error (guards now n)

unfoldable pub can_retry : ℕ → EmailNotification → Bool
can_retry now n =
    str_eq n.status notification_status_failed
    && ltb_ℤ (pos n.attempts) n.max_attempts
    && (not (is_some n.next_retry_at) || is_past now n.next_retry_at)

unfoldable pub is_scheduled : ℕ → EmailNotification → Bool
is_scheduled now n = is_future now n.scheduled_at

unfoldable pub should_process : ℕ → EmailNotification → Bool
should_process now n =
    if not (str_eq n.status notification_status_pending)
      && not (str_eq n.status notification_status_scheduled)
    then false
    else if is_future now n.scheduled_at
    then false
    else true

unfoldable pub add_error :
    String → String → String → Bool → ℕ → EmailNotification → EmailNotification
add_error error_code message details recoverable now n = record n {
  errors =
      n.errors
      ++ record {
        timestamp = now;
        error_code = error_code;
        message = message;
        details = details;
        recoverable = recoverable;
        context = none;
      }
        ∷ [];
}

unfoldable pub get_last_error : List NotificationError → Option NotificationError
get_last_error [] = none
get_last_error (e ∷ []) = some e
get_last_error (e ∷ (f ∷ l)) = get_last_error (f ∷ l)

-- The loop for i from 1 to attempts - 1; `n` rounds are left.
unfoldable pub double_delay : ℕ → ℕ → ℕ
double_delay zero delay = delay
double_delay (suc n) delay =
    let rest = double_delay n (delay * 2) in
    if ltb max_retry_delay (delay * 2) then max_retry_delay else rest

-- A tenth is added: on the delays of the loop the product with 0.1 in floating point is exact.
unfoldable pub calculate_next_retry : ℕ → EmailNotification → ℕ
unfolding double_delay
calculate_next_retry now n =
    if n.attempts == 0
    then now + default_retry_delay
    else (let delay = double_delay (n.attempts - 1) default_retry_delay in
        now + (delay + delay / 10))

abbrev pub is_delivered : EmailNotification → Bool
is_delivered n = str_eq n.status notification_status_sent

abbrev pub or_default_attempts : EmailNotification → EmailNotification
or_default_attempts n =
    if not (ltb_ℤ n.max_attempts (pos 0)) && not (ltb_ℤ (pos 0) n.max_attempts)
    then record n { max_attempts = default_max_attempts }
    else n

abbrev pub as_scheduled : EmailNotification → EmailNotification
as_scheduled n =
    if is_some n.scheduled_at then record n { status = notification_status_scheduled } else n

abbrev pub of_request : ℕ → SendEmailRequest → EmailNotification
of_request now req = record {
  id = "";
  kind = req.kind;
  status = notification_status_pending;
  priority = req.priority;
  to = req.to;
  cc = req.cc;
  bcc = req.bcc;
  subject = req.subject;
  body = req.body;
  is_html = req.is_html;
  template_name = req.template_name;
  template_data = req.template_data;
  attachments = [];
  scheduled_at = req.scheduled_at;
  sent_at = none;
  attempts = 0;
  max_attempts = req.max_attempts;
  last_attempt_at = none;
  next_retry_at = none;
  errors = [];
  message_id = "";
  provider_data = none;
  user_id = req.user_id;
  workflow_id = req.workflow_id;
  execution_id = req.execution_id;
  created_at = now;
  updated_at = now;
  created_by = none;
}

unfoldable pub to_email_notification : ℕ → SendEmailRequest → EmailNotification
to_email_notification now req = as_scheduled (or_default_attempts (of_request now req))
