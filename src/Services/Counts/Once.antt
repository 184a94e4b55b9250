-- ===== src/Services/Counts/Once.antt =====
-- How the batches of scheduled and of failed notifications of internal/services/notification_service.go
-- are counted.
use engine_api_workflow.Common.{
  inr, inl, ℕ, ◌+◌, ◌≡◌, refl, List, [], ◌∷◌, arith, Option-cases, Bool-cases,
}
use engine_api_workflow.Models.Notification.{can_retry, EmailNotification}
use engine_api_workflow.Repository.Notifications.{get_scheduled, get_failed_for_retry}
use engine_api_workflow.Services.{Backend, World}
use engine_api_workflow.Services.Sending.{save, send_notification_now}
use engine_api_workflow.Services.Batches.{
  next_attempt, process_scheduled_notifications, process_each_scheduled, process_scheduled,
  retry_failed_notifications, retry_each, retry_failed, retry_once,
}
use engine_api_workflow.Services.Counts.{IsCounting, sent_of, taken_of, send_notification_now-Moved}

module _ (B : Backend) (count : IsCounting B.mailer) where
  -- What the other operations keep.
  record CountsOnce (w w' : World B) : Type 0 where
    once : sent_of B count w' + taken_of B count w ≡ sent_of B count w + taken_of B count w'

  CountsOnce-trans : {u v w : World B} → CountsOnce u v → CountsOnce v w → CountsOnce u w
  CountsOnce-trans f g = record { once = ground (arith, f.once, g.once) }

  send_notification_now-CountsOnce :
      (now : ℕ) (n : EmailNotification) (w : World B)
      → CountsOnce w (send_notification_now B now n w).1.1
  send_notification_now-CountsOnce now n w =
      let m = send_notification_now-Moved B count now n w in
      record { once = ground (arith, m.sent, m.taken) }

  process_scheduled-CountsOnce :
      (now : ℕ) (n : EmailNotification) (w : World B) → CountsOnce w (process_scheduled B now n w)
  unfolding save process_scheduled
  process_scheduled-CountsOnce now n w =
      let n = record n { status = "pending" } in
      let (n', (_, w')) = save B now n w in
      elim (Option-cases (save B now n w).1.0) [
        | inl saved ↦
            rw (saved, process_scheduled)
              (record { once = (send_notification_now-CountsOnce now n' w').once })
        | inr (_, unsaved) ↦ rw (unsaved, process_scheduled) (record { once = refl })
      ]

  retry_once-CountsOnce :
      (now : ℕ) (n : EmailNotification) (w : World B) → CountsOnce w (retry_once B now n w).1
  unfolding save retry_once
  retry_once-CountsOnce now n w =
      let (n', (_, w')) = save B now (next_attempt now n) w in
      elim (Option-cases (save B now (next_attempt now n) w).1.0) [
        | inl saved ↦
            rw (saved, retry_once)
              (record { once = (send_notification_now-CountsOnce now n' w').once })
        | inr (_, unsaved) ↦ rw (unsaved, retry_once) (record { once = refl })
      ]

  process_each_scheduled-CountsOnce :
      (now : ℕ) (l : List EmailNotification) (w : World B)
      → CountsOnce w (process_each_scheduled B now l w)
  unfolding process_each_scheduled
  process_each_scheduled-CountsOnce now [] w = record { once = refl }
  process_each_scheduled-CountsOnce now (n ∷ l) w =
      CountsOnce-trans (process_scheduled-CountsOnce now n w)
        (process_each_scheduled-CountsOnce now l (process_scheduled B now n w))

  retry_failed-CountsOnce :
      (now : ℕ) (n : EmailNotification) (w : World B) → CountsOnce w (retry_failed B now n w).1
  unfolding retry_failed
  retry_failed-CountsOnce now n w = elim (Bool-cases (can_retry now n)) [
    | inl ready ↦ rw (ready, retry_failed) (retry_once-CountsOnce now n w)
    | inr waits ↦ rw (waits, retry_failed) (record { once = refl })
  ]

  retry_each-CountsOnce :
      (now : ℕ) (l : List EmailNotification) (w : World B) → CountsOnce w (retry_each B now l w)
  unfolding retry_each
  retry_each-CountsOnce now [] w = record { once = refl }
  retry_each-CountsOnce now (n ∷ l) w =
      CountsOnce-trans (retry_failed-CountsOnce now n w)
        (retry_each-CountsOnce now l (retry_failed B now n w).1)

  -- On a mail service that can tell how many messages it took: a batch of scheduled notifications
  -- and one of failed notifications raise the statistic of sent e-mails by one for each message
  -- taken in it.
  batches_count :
      (asked now : ℕ) (w : World B)
      → let scheduled = (process_scheduled_notifications B asked now w).1 in
        let retried = (retry_failed_notifications B asked now w).1 in
        (scheduled.stats.emails_sent_today + count.taken w.mail
          ≡ w.stats.emails_sent_today + count.taken scheduled.mail)
        × (retried.stats.emails_sent_today + count.taken w.mail
            ≡ w.stats.emails_sent_today + count.taken retried.mail)
  unfolding process_scheduled_notifications retry_failed_notifications
  batches_count asked now w = (
    elim (Option-cases (get_scheduled B.notification_store asked 50 w.notifications)) [
      | inl unread ↦ rw (unread, process_scheduled_notifications) refl
      | inr (l, read) ↦
          rw (read, process_scheduled_notifications)
            (process_each_scheduled-CountsOnce now l w).once
    ],
    elim (Option-cases (get_failed_for_retry B.notification_store asked 25 w.notifications)) [
      | inl unread ↦ rw (unread, retry_failed_notifications) refl
      | inr (l, read) ↦ rw (read, retry_failed_notifications) (retry_each-CountsOnce now l w).once
    ],
  )
