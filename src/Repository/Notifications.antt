-- ===== src/Repository/Notifications.antt =====
-- internal/repository/notification_repository.go: the notifications that are stored, one document each.
-- `now` is what time.Now() returns in the call.
use engine_api_workflow.Common.{
  ℕ, ◌+◌, ◌-◌, pos, String, Bool, false, not, ◌&&◌, ◌||◌, List, [], ◌∷◌, ◌++◌, Option, none, some,
  ltb, leb, ltb_ℤ, str_eq, is_some, if◌then◌else◌,
}
use engine_api_workflow.Models.Value.{Fields, end, field}
use engine_api_workflow.Models.Notification.{
  EmailNotification, NotificationError, ValidationError, validate, notification_status_pending,
  notification_status_sent, notification_status_failed, notification_status_scheduled,
}
use engine_api_workflow.Repository.{
  Collection, ascending, Reply, counted, broken, RepositoryError, invalid, failed, one_matched,
  or_not_found,
}

abbrev pub notification_status_cancelled : String
notification_status_cancelled = "cancelled"

abbrev pub NotificationFailure : Type 0
NotificationFailure = RepositoryError ValidationError

abbrev pub has_id : String → EmailNotification → Bool
has_id id n = str_eq n.id id

-- `$lte` on a time that may be missing.
abbrev pub not_after : ℕ → Option ℕ → Bool
not_after now none = false
not_after now (some t) = leb t now

abbrev pub kept_if_empty : {A : Type 0} → List A → List A → List A
kept_if_empty [] old = old
kept_if_empty (x ∷ l) old = x ∷ l

abbrev pub kept_if_none : {A : Type 0} → Option A → Option A → Option A
kept_if_none none old = old
kept_if_none (some x) old = some x

abbrev pub kept_if_no_fields : Option Fields → Option Fields → Option Fields
kept_if_no_fields none old = old
kept_if_no_fields (some end) old = old
kept_if_no_fields (some (field k v l)) old = some (field k v l)

abbrev pub kept_if_blank : String → String → String
kept_if_blank new old = if str_eq new "" then old else new

-- `$set` with the notification as the document: a field that is marked omitempty and is empty is not
-- in the document, and keeps what is stored.
unfoldable pub set_document : EmailNotification → EmailNotification → EmailNotification
set_document n old = record {
  id = old.id;
  kind = n.kind;
  status = n.status;
  priority = n.priority;
  to = n.to;
  cc = kept_if_empty n.cc old.cc;
  bcc = kept_if_empty n.bcc old.bcc;
  subject = n.subject;
  body = n.body;
  is_html = n.is_html;
  template_name = kept_if_blank n.template_name old.template_name;
  template_data = kept_if_no_fields n.template_data old.template_data;
  attachments = kept_if_empty n.attachments old.attachments;
  scheduled_at = kept_if_none n.scheduled_at old.scheduled_at;
  sent_at = kept_if_none n.sent_at old.sent_at;
  attempts = n.attempts;
  max_attempts = n.max_attempts;
  last_attempt_at = kept_if_none n.last_attempt_at old.last_attempt_at;
  next_retry_at = kept_if_none n.next_retry_at old.next_retry_at;
  errors = kept_if_empty n.errors old.errors;
  message_id = kept_if_blank n.message_id old.message_id;
  provider_data = kept_if_no_fields n.provider_data old.provider_data;
  user_id = kept_if_none n.user_id old.user_id;
  workflow_id = kept_if_none n.workflow_id old.workflow_id;
  execution_id = kept_if_none n.execution_id old.execution_id;
  created_at = n.created_at;
  updated_at = n.updated_at;
  created_by = kept_if_none n.created_by old.created_by;
}

abbrev pub stamped : String → ℕ → EmailNotification → EmailNotification
stamped new_id now n = record n {
  id = if str_eq n.id "" then new_id else n.id;
  created_at = now;
  updated_at = now;
}

abbrev pub touched : ℕ → EmailNotification → EmailNotification
touched now n = record n { updated_at = now }

abbrev pub is_pending_by : ℕ → EmailNotification → Bool
is_pending_by now n =
    str_eq n.status notification_status_pending
    && (not (is_some n.scheduled_at) || not_after now n.scheduled_at)

abbrev pub is_due_by : ℕ → EmailNotification → Bool
is_due_by now n = str_eq n.status notification_status_scheduled && not_after now n.scheduled_at

abbrev pub is_retryable_by : ℕ → EmailNotification → Bool
is_retryable_by now n =
    str_eq n.status notification_status_failed
    && ltb_ℤ (pos n.attempts) n.max_attempts
    && (not (is_some n.next_retry_at) || not_after now n.next_retry_at)

abbrev pub is_old_by : ℕ → EmailNotification → Bool
is_old_by cutoff n =
    ltb n.created_at cutoff
    && (str_eq n.status notification_status_sent || str_eq n.status notification_status_cancelled)

abbrev pub with_status : ℕ → String → EmailNotification → EmailNotification
with_status now status n = record n {
  status = status;
  updated_at = now;
  sent_at = if str_eq status notification_status_sent then some now else n.sent_at;
}

abbrev pub with_attempt : ℕ → Option ℕ → EmailNotification → EmailNotification
with_attempt now next_retry_at n = record n {
  attempts = n.attempts + 1;
  last_attempt_at = some now;
  updated_at = now;
  next_retry_at = kept_if_none next_retry_at n.next_retry_at;
}

abbrev pub with_error : ℕ → NotificationError → EmailNotification → EmailNotification
with_error now e n = record n { errors = n.errors ++ e ∷ []; updated_at = now }

abbrev pub deleted_count : {S : Type 0} → Reply × S → (ℕ × Option NotificationFailure) × S
deleted_count (counted k, s) = ((k, none), s)
deleted_count (broken text, s) = ((0, some (failed text)), s)

module _ (C : Collection EmailNotification) where
  -- The notification that the caller holds has its identifier and its times afterwards.
  abbrev pub insert_one_of : EmailNotification → C.State → Option NotificationFailure × C.State
  insert_one_of n s =
      let (e, s) = C.insert_one n s in
      elim e [ none ↦ (none, s) | some text ↦ (some (failed text), s) ]

  unfoldable pub create :
      String
      → ℕ
      → EmailNotification
      → C.State
      → EmailNotification × (Option NotificationFailure × C.State)
  create new_id now n s =
      let n = stamped new_id now n in
      (n, elim (validate now n) [ some e ↦ (some (invalid e), s) | none ↦ insert_one_of n s ])

  unfoldable pub get_by_id :
      String → C.State → Option EmailNotification × Option NotificationFailure
  get_by_id id s = or_not_found (C.find_one (has_id id) [] s)

  unfoldable pub update :
      ℕ → EmailNotification → C.State → EmailNotification × (Option NotificationFailure × C.State)
  update now n s =
      let n = touched now n in
      (
        n,
        elim (validate now n) [
          | some e ↦ (some (invalid e), s)
          | none ↦ one_matched (C.update_one (has_id n.id) (set_document n) s)
        ],
      )

  unfoldable pub remove : String → C.State → Option NotificationFailure × C.State
  remove id s = one_matched (C.delete_one (has_id id) s)

  unfoldable pub find_notifications :
      (EmailNotification → Bool) → ℕ → String → C.State → Option (List EmailNotification)
  find_notifications filter limit sort_field s = C.find filter (ascending sort_field ∷ []) limit s

  unfoldable pub get_pending : ℕ → ℕ → C.State → Option (List EmailNotification)
  get_pending now limit s = find_notifications (is_pending_by now) limit "created_at" s

  unfoldable pub get_scheduled : ℕ → ℕ → C.State → Option (List EmailNotification)
  get_scheduled now limit s = find_notifications (is_due_by now) limit "scheduled_at" s

  unfoldable pub get_failed_for_retry : ℕ → ℕ → C.State → Option (List EmailNotification)
  get_failed_for_retry now limit s =
      find_notifications (is_retryable_by now) limit "next_retry_at" s

  unfoldable pub cleanup_old : ℕ → ℕ → C.State → (ℕ × Option NotificationFailure) × C.State
  cleanup_old now older_than s = deleted_count (C.delete_many (is_old_by (now - older_than)) s)

  unfoldable pub find_by_message_id :
      String → C.State → Option EmailNotification × Option NotificationFailure
  find_by_message_id message_id s =
      or_not_found (C.find_one (λ n. str_eq n.message_id message_id) [] s)

  unfoldable pub update_status :
      ℕ → String → String → C.State → Option NotificationFailure × C.State
  update_status now id status s = one_matched (C.update_one (has_id id) (with_status now status) s)

  unfoldable pub increment_attempts :
      ℕ → String → Option ℕ → C.State → Option NotificationFailure × C.State
  increment_attempts now id next_retry_at s =
      one_matched (C.update_one (has_id id) (with_attempt now next_retry_at) s)

  unfoldable pub push_error :
      ℕ → String → NotificationError → C.State → Option NotificationFailure × C.State
  push_error now id e s = one_matched (C.update_one (has_id id) (with_error now e) s)
