-- ===== src/Models/Notification/Schedule.antt =====
-- What becomes of a request to send: ToEmailNotification, IsScheduled, ShouldProcess, CanRetry and
-- IsDelivered of internal/models/notification.go.
use engine_api_workflow.Common.{
  ltb_ℤ, ◌&&◌, ℕ, ◌≡◌, refl, ◌⊎◌, inl, inr, pos, Bool, true, false, not, is_some, Bool-cases,
  if◌then◌else◌,
}
use engine_api_workflow.Models.Notification.{
  default_max_attempts, of_request, EmailNotification, SendEmailRequest, to_email_notification,
  should_process, is_scheduled, can_retry, is_delivered, is_future, as_scheduled,
  or_default_attempts, notification_status_scheduled, notification_status_pending,
}

or_default_attempts-status : (n : EmailNotification) → (or_default_attempts n).status ≡ n.status
or_default_attempts-status n =
    go (not (ltb_ℤ n.max_attempts (pos 0)) && not (ltb_ℤ (pos 0) n.max_attempts))
  where
    go :
        (b : Bool)
        → (if b then record n { max_attempts = default_max_attempts } else n).status ≡ n.status
    go true = refl
    go false = refl

-- What depends on the status and the schedule only.
abbrev IsFresh : ℕ → EmailNotification → Type 0
IsFresh now n =
    (should_process now n ≡ not (is_scheduled now n))
    × (can_retry now n ≡ false)
    × (is_delivered n ≡ false)

fresh :
    (now : ℕ) (n : EmailNotification)
    → (n.status ≡ notification_status_pending) ⊎ (n.status ≡ notification_status_scheduled)
    → IsFresh now n
unfolding should_process is_scheduled can_retry
fresh now n (inl e) = rw e (
  elim (Bool-cases (is_future now n.scheduled_at)) [
    | inl later ↦ rw later refl
    | inr due ↦ rw due refl
  ],
  refl,
  refl,
)
fresh now n (inr e) = rw e (
  elim (Bool-cases (is_future now n.scheduled_at)) [
    | inl later ↦ rw later refl
    | inr due ↦ rw due refl
  ],
  refl,
  refl,
)

as_scheduled-status :
    (n : EmailNotification)
    → n.status ≡ notification_status_pending
    → ((as_scheduled n).status ≡ notification_status_pending)
      ⊎ ((as_scheduled n).status ≡ notification_status_scheduled)
as_scheduled-status n h = go (is_some n.scheduled_at)
  where
    go :
        (b : Bool)
        → ((if b then record n { status = notification_status_scheduled } else n).status
            ≡ notification_status_pending)
          ⊎ ((if b then record n { status = notification_status_scheduled } else n).status
              ≡ notification_status_scheduled)
    go true = inr refl
    go false = inl h

-- A notification that was just made from a request, at any later time, is to be processed exactly when
-- it is not scheduled for a time after that, is never one to retry and never delivered.
pub should_process-to_email_notification :
    (made now : ℕ) (req : SendEmailRequest)
    → let n = to_email_notification made req in
      (should_process now n ≡ not (is_scheduled now n))
      × (can_retry now n ≡ false)
      × (is_delivered n ≡ false)
unfolding to_email_notification should_process is_scheduled can_retry
should_process-to_email_notification made now req = fresh now (to_email_notification made req) (
    as_scheduled-status (or_default_attempts (of_request made req))
      (or_default_attempts-status (of_request made req)))
