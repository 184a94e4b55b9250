-- ===== src/Services/Sending.antt =====
-- internal/services/notification_service.go: one notification is sent. The service changes the
-- notification that its caller holds, so it is returned. `now` is what time.Now() returns in the call.
use engine_api_workflow.Common.{
  ℕ, ◌+◌, ◌==◌, pos, String, Bool, ◌&&◌, ◌||◌, List, [], ◌∷◌, ◌++◌, Option, none, some, leb, ltb_ℤ,
  not, any, map, str_eq, if◌then◌else◌,
}
use engine_api_workflow.Models.Notification.{
  EmailNotification, NotificationError, calculate_next_retry, notification_status_failed,
  notification_status_sent,
}
use engine_api_workflow.Repository.Notifications.{NotificationFailure, update}
use engine_api_workflow.Services.{
  Backend, World, Message, MailPriority, priority_low, priority_normal, priority_high,
  priority_critical, SendFailure, update_failed, mail_failed, ServiceStats,
}
use engine_api_workflow.Worker.Retry.{codes, starts_with}

abbrev pub notification_status_processing : String
notification_status_processing = "processing"

-- strings.ToLower, for the letters that it makes ASCII ones.
abbrev pub lower_code : ℕ → ℕ
lower_code c =
    if leb 65 c && leb c 90 then c + 32 else if c == 304 then 105 else if c == 8490 then 107 else c

unfoldable pub occurs : List ℕ → List ℕ → Bool
occurs sub [] = starts_with sub []
occurs sub (c ∷ cs) = starts_with sub (c ∷ cs) || occurs sub cs

abbrev pub recoverable_keywords : List String
recoverable_keywords =
    "timeout" ∷ "temporary" ∷ "network" ∷ "connection" ∷ "dial" ∷ "read" ∷ "write" ∷ "broken pipe"
    ∷ "connection reset" ∷ "i/o timeout" ∷ []

unfoldable pub is_recoverable_error : String → Bool
is_recoverable_error text =
    any (λ keyword. occurs (codes keyword) (map lower_code (codes text))) recoverable_keywords

abbrev pub mail_priority : String → MailPriority
mail_priority p =
    if str_eq p "high"
    then priority_high
    else if str_eq p "critical"
    then priority_critical
    else if str_eq p "low"
    then priority_low
    else priority_normal

unfoldable pub message_of : EmailNotification → Message
message_of n = record {
  to = n.to;
  cc = n.cc;
  bcc = n.bcc;
  subject = n.subject;
  text_body = if n.is_html then "" else n.body;
  html_body = if n.is_html then n.body else "";
  priority = mail_priority n.priority;
}

-- The error that a failed sending leaves on the notification.
unfoldable pub send_error : ℕ → String → NotificationError
send_error now text = record {
  timestamp = now;
  error_code = "SEND_ERROR";
  message = text;
  details = "";
  recoverable = is_recoverable_error text;
  context = none;
}

abbrev pub appended : NotificationError → EmailNotification → EmailNotification
appended e n = record n { errors = n.errors ++ e ∷ [] }

-- The next state of a notification that was not sent.
unfoldable pub after_error : ℕ → Bool → EmailNotification → EmailNotification
after_error now recoverable n =
    if not (ltb_ℤ (pos n.attempts) n.max_attempts)
    then record n { status = notification_status_failed }
    else if recoverable
    then record n {
      next_retry_at = some (calculate_next_retry now n);
      attempts = n.attempts + 1;
      status = notification_status_failed;
    }
    else record n { status = notification_status_failed }

abbrev pub one_more_sent : ServiceStats → ServiceStats
one_more_sent s = record s { emails_sent_today = s.emails_sent_today + 1 }

abbrev pub one_more_failed : ServiceStats → ServiceStats
one_more_failed s = record s { emails_failed_today = s.emails_failed_today + 1 }

module _ (B : Backend) where
  -- Update of the repository, on the service's state.
  unfoldable pub save :
      ℕ → EmailNotification → World B → EmailNotification × (Option NotificationFailure × World B)
  save now n w =
      let (n, (e, s)) = update B.notification_store now n w.notifications in
      (n, (e, record w { notifications = s }))

  unfoldable pub handle_send_error :
      ℕ → String → EmailNotification → World B → EmailNotification × World B
  handle_send_error now text n w =
      let (n, (_, w)) = save now (appended (send_error now text) n) w in
      let (n, (_, w)) = save now (after_error now (is_recoverable_error text) n) w in
      (n, record w { stats = one_more_failed w.stats })

  abbrev pub Sent : Type 0
  Sent = Option SendFailure × (EmailNotification × World B)

  -- The message was taken: the status becomes sent, whether or not it can be stored.
  unfoldable pub settle_sent : ℕ → EmailNotification → World B → Sent
  settle_sent now n w =
      let (n, (_, w)) = save now (record n { status = notification_status_sent }) w in
      (none, (n, record w { stats = one_more_sent w.stats }))

  unfoldable pub settle_unsent : ℕ → String → EmailNotification → World B → Sent
  settle_unsent now text n w = (some (mail_failed text), handle_send_error now text n w)

  unfoldable pub deliver : ℕ → EmailNotification → World B → Sent
  deliver now n w =
      let (e, mail) = B.mailer.send (message_of n) w.mail in
      let w = record w { mail = mail } in
      elim e [ some text ↦ settle_unsent now text n w | none ↦ settle_sent now n w ]

  unfoldable pub send_notification_now : ℕ → EmailNotification → World B → Sent
  send_notification_now now n w =
      let (n, (e, w)) = save now (record n { status = notification_status_processing }) w in
      elim e [ some e ↦ (some (update_failed e), (n, w)) | none ↦ deliver now n w ]
