-- ===== src/Services/Overdue.antt =====
-- What the repository's validation does to a notification whose scheduled time has passed: the
-- operations of internal/services/notification_service.go that store it first.
use engine_api_workflow.Common.{
  ◌&&◌, str_eq, not, inr, inl, ℕ, ◌<◌, ◌≡◌, refl, ap, ◌∙◌, true, List, [], ◌∷◌, Option, none, some,
  is_some, All, Option-cases, Bool-cases, arith,
}
use engine_api_workflow.Models.Notification.{EmailNotification, ValidationError, validate, is_past}
use engine_api_workflow.Models.Notification.Validation.{validate_iff}
use engine_api_workflow.Repository.{ascending, IsLawful, invalid}
use engine_api_workflow.Repository.Notifications.{
  update, touched, not_after, is_due_by, get_scheduled, find_notifications,
}
use engine_api_workflow.Services.{Backend, World}
use engine_api_workflow.Services.Sending.{save, send_notification_now}
use engine_api_workflow.Services.Batches.{
  next_attempt, process_scheduled, process_each_scheduled, process_scheduled_notifications,
  retry_once,
}
use engine_api_workflow.Services.Upkeep.{reset_for_resend, cancel_found, resend_found}

abbrev pub IsOverdue : ℕ → EmailNotification → Type 0
IsOverdue now n = is_past now n.scheduled_at ≡ true

validate-IsOverdue :
    (now : ℕ) (n : EmailNotification)
    → IsOverdue now n
    → (e : ValidationError) × (validate now n ≡ some e)
validate-IsOverdue now n h = elim (Option-cases (validate now n)) [
  | inl accepted ↦
      let (_, _, _, _, _, _, _, fresh) = (validate_iff now n).0 accepted in
      absurd (ground (arith, h, fresh))
  | inr refused ↦ refused
]

module _ (B : Backend) (now : ℕ) where
  save_refused :
      (n : EmailNotification) (w : World B) (e : ValidationError)
      → validate now (touched now n) ≡ some e
      → save B now n w ≡ (touched now n, (some (invalid e), w))
  unfolding save update
  save_refused n w e refused = rw (refused, save, update) refl

  -- Storing it fails in its validation, and the world stays as it was.
  save-IsOverdue :
      (n : EmailNotification) (w : World B)
      → IsOverdue now n
      → (e : ValidationError) × (save B now n w ≡ (touched now n, (some (invalid e), w)))
  save-IsOverdue n w h =
      let (e, refused) = validate-IsOverdue now (touched now n) h in (e, save_refused n w e refused)

  -- For a notification whose scheduled time has passed, to send it, to cancel it and to send it
  -- again end with an error, and with a retry of it too the mail service, the collections, the
  -- cache and the statistics stay as they were.
  pub overdue_is_stuck :
      (n : EmailNotification) (w : World B)
      → IsOverdue now n
      → ((is_some (send_notification_now B now n w).0 ≡ true)
          × ((send_notification_now B now n w).1.1 ≡ w))
        × ((is_some (cancel_found B now n w).0 ≡ true) × ((cancel_found B now n w).1 ≡ w))
        × ((is_some (resend_found B now n w).0 ≡ true) × ((resend_found B now n w).1 ≡ w))
        × ((retry_once B now n w).1 ≡ w)
  unfolding send_notification_now resend_found retry_once
  overdue_is_stuck n w h =
      let (_, sending) = save-IsOverdue (record n { status = "processing" }) w h in
      let (_, cancelling) = save-IsOverdue (record n { status = "cancelled" }) w h in
      let (_, resetting) = save-IsOverdue (reset_for_resend now n) w h in
      let (_, retrying) = save-IsOverdue (next_attempt now n) w h in
      (
        (
          rw (sending, send_notification_now) refl,
          rw (sending, send_notification_now) (rw sending refl),
        ),
        (elim (Bool-cases (not (str_eq n.status "pending") && not (str_eq n.status "scheduled"))) [
          | inl wrong ↦ (rw wrong refl, rw wrong refl)
          | inr right ↦ (rw (right, cancelling) refl, rw (right, cancelling) refl)
        ]),
        (rw (resetting, resend_found) refl, rw (resetting, resend_found) (rw resetting refl)),
        rw (retrying, retry_once) (rw retrying refl),
      )

  process_scheduled-IsOverdue :
      (n : EmailNotification) (w : World B) → IsOverdue now n → process_scheduled B now n w ≡ w
  unfolding process_scheduled
  process_scheduled-IsOverdue n w h =
      let (e, refused) = save-IsOverdue (record n { status = "pending" }) w h in
      rw (refused, process_scheduled) (rw refused refl)

  process_each_scheduled-IsOverdue :
      (l : List EmailNotification) (w : World B)
      → All (λ n. IsOverdue now n) l
      → process_each_scheduled B now l w ≡ w
  unfolding process_each_scheduled
  process_each_scheduled-IsOverdue [] w h = refl
  process_each_scheduled-IsOverdue (n ∷ l) w (h, all) =
      ap (process_each_scheduled B now l) (process_scheduled-IsOverdue n w h)
      ∙ process_each_scheduled-IsOverdue l w all

due-IsOverdue :
    (asked now : ℕ)
    → asked < now
    → (l : List EmailNotification) → All (λ n. is_due_by asked n ≡ true) l
    → All (λ n. IsOverdue now n) l
due-IsOverdue asked now before [] h = tt
due-IsOverdue asked now before (n ∷ l) (h, all) =
    (due n.scheduled_at (ground (arith, h)), due-IsOverdue asked now before l all)
  where
    due : (t : Option ℕ) → not_after asked t ≡ true → is_past now t ≡ true
    due none e = absurd (ground (arith, e))
    due (some t) e = ground (arith, e, before)

-- On a database that returns only what a query asks for: once any time has passed between the query
-- for the due notifications and the calls after it, a batch of scheduled notifications sends no e-mail
-- and changes nothing, whatever the database holds.
pub process_scheduled_notifications-idle :
    (B : Backend)
    → IsLawful B.notification_store
    → (asked now : ℕ) (w : World B) → asked < now
    → (process_scheduled_notifications B asked now w).1 ≡ w
unfolding process_scheduled_notifications get_scheduled find_notifications
process_scheduled_notifications-idle B law asked now w before =
    elim (Option-cases (
      B.notification_store.find (is_due_by asked) (ascending "scheduled_at" ∷ []) 50
        w.notifications)) [
          | inl unread ↦ rw (unread, process_scheduled_notifications) refl
          | inr (l, found) ↦
              rw (found, process_scheduled_notifications)
                (process_each_scheduled-IsOverdue B now l w (
                  due-IsOverdue asked now before l (
                    law.find-passes (is_due_by asked) (ascending "scheduled_at" ∷ []) 50
                      w.notifications l found)))
        ]
