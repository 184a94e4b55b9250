-- ===== src/Services/Attempts.antt =====
-- The attempts of the notifications that internal/services/notification_service.go stores.
pub mod Burnt
pub mod Loops
pub mod Creation
pub mod Commands
use engine_api_workflow.Common.{
  inl, inr, ℕ, ◌+◌, ◌≤◌, ◌≡◌, refl, ℤ, pos, ◌≤ℤ◌, ltb_ℤ, String, Bool, true, false, not, List, [],
  ◌∷◌, Option, none, some, All, arith, Option-cases, Bool-cases,
}
use engine_api_workflow.Models.Notification.{
  ValidationError, validate, EmailNotification, SendEmailRequest, is_valid_status, can_retry,
}
use engine_api_workflow.Repository.{
  one_matched-state, broken, counted, one_matched, Reply, IsLawful,
}
use engine_api_workflow.Repository.Notifications.{has_id, touched, update, set_document, get_by_id}
use engine_api_workflow.Services.{Backend, World}
use engine_api_workflow.Services.Sending.{
  is_recoverable_error, send_error, appended, Sent, save, handle_send_error, settle_sent,
  settle_unsent, deliver, send_notification_now, message_of, after_error,
}
use engine_api_workflow.Services.Batches.{
  counted_in, ProcessingResult, process_each, process_batch, process_pending_notifications,
  process_scheduled_notifications, process_each_scheduled, process_scheduled,
  retry_failed_notifications, retry_each, retry_failed, retry_once, next_attempt,
}
use engine_api_workflow.Services.Requests.{send_email}
use engine_api_workflow.Services.Upkeep.{
  cancel_notification, resend_notification, cleanup_old_notifications,
}

-- No more attempts than are allowed, one to ten are, and the status is one of the six.
pub record Sound (attempts : ℕ) (max_attempts : ℤ) (status : String) : Type 0 where
  pub within : pos attempts ≤ℤ max_attempts
  pub at_least_one : pos 1 ≤ℤ max_attempts
  pub at_most_ten : max_attempts ≤ℤ pos 10
  pub known : is_valid_status status ≡ true

abbrev pub IsSound : EmailNotification → Type 0
IsSound n = Sound n.attempts n.max_attempts n.status

pub moved_to :
    {a : ℕ} {m : ℤ} {s : String} (s' : String)
    → is_valid_status s' ≡ true
    → Sound a m s
    → Sound a m s'
moved_to s' known h = record {
  within = h.within;
  at_least_one = h.at_least_one;
  at_most_ten = h.at_most_ten;
  known = known;
}

set_document-IsSound : (n old : EmailNotification) → IsSound n → IsSound (set_document n old)
unfolding set_document
set_document-IsSound n old h = h

after_error-IsSound :
    (now : ℕ) (recoverable : Bool) (n : EmailNotification)
    → IsSound n
    → IsSound (after_error now recoverable n)
unfolding after_error
after_error-IsSound now recoverable n h =
    elim (Bool-cases (ltb_ℤ (pos n.attempts) n.max_attempts)) [
      | inr full ↦ rw (full, after_error) (moved_to "failed" refl h)
      | inl left ↦ elim (Bool-cases recoverable) [
        | inl yes' ↦
            rw (left, yes', after_error)
              (record {
                within = ground (arith, left);
                at_least_one = h.at_least_one;
                at_most_ten = h.at_most_ten;
                known = refl;
              })
        | inr no' ↦ rw (left, no', after_error) (moved_to "failed" refl h)
      ]
    ]

pub next_attempt-IsSound :
    (now : ℕ) (n : EmailNotification)
    → can_retry now n ≡ true
    → IsSound n
    → IsSound (next_attempt now n)
unfolding can_retry
next_attempt-IsSound now n ready h = record {
  within = ground (arith, ready);
  at_least_one = h.at_least_one;
  at_most_ten = h.at_most_ten;
  known = h.known;
}

module _ (B : Backend) (law : IsLawful B.notification_store) where
  abbrev pub IsSoundStore : World B → Type 0
  IsSoundStore w = law.Every IsSound w.notifications

  -- The notification that the caller holds, and those that are stored.
  pub record Kept (n : EmailNotification) (w : World B) : Type 0 where
    pub held : IsSound n
    pub stored : IsSoundStore w

  pub save-Kept :
      (now : ℕ) (n : EmailNotification) (w : World B)
      → Kept n w
      → let (n', (_, w')) = save B now n w in Kept n' w'
  unfolding save update
  save-Kept now n w h = record {
    held = h.held;
    stored = elim (Option-cases (validate now (touched now n))) [
      | inr (_, refused) ↦ rw (refused, update) h.stored
      | inl accepted ↦
          rw (accepted, update, one_matched-state)
            (law.update_one-Every IsSound (has_id n.id) (set_document (touched now n))
              w.notifications h.stored
              (λ old sound. set_document-IsSound (touched now n) old h.held))
    ];
  }

  handle_send_error-Kept :
      (now : ℕ) (text : String) (n : EmailNotification) (w : World B)
      → Kept n w
      → let (n', w') = handle_send_error B now text n w in Kept n' w'
  unfolding handle_send_error
  handle_send_error-Kept now text n w h =
      let first =
        save-Kept now (appended (send_error now text) n) w
          (record { held = h.held; stored = h.stored }) in
      let (n, (_, w)) = save B now (appended (send_error now text) n) w in
      let second = save-Kept now (after_error now (is_recoverable_error text) n) w (record {
        held = after_error-IsSound now (is_recoverable_error text) n first.held;
        stored = first.stored;
      }) in
      record { held = second.held; stored = second.stored }

  deliver-Kept :
      (now : ℕ) (n : EmailNotification) (w : World B)
      → Kept n w
      → let (_, (n', w')) = deliver B now n w in Kept n' w'
  unfolding settle_unsent settle_sent deliver
  deliver-Kept now n w h =
      let (_, mail) = B.mailer.send (message_of n) w.mail in
      let w' = record w { mail = mail } in
      elim (Option-cases (B.mailer.send (message_of n) w.mail).0) [
        | inl taken ↦
            let kept =
              save-Kept now (record n { status = "sent" }) w'
                (record { held = moved_to "sent" refl h.held; stored = h.stored }) in
            rw (taken, deliver) (record { held = kept.held; stored = kept.stored })
        | inr (text, refused) ↦
            rw (refused, deliver)
              (handle_send_error-Kept now text n w' (record { held = h.held; stored = h.stored }))
      ]

  pub send_notification_now-Kept :
      (now : ℕ) (n : EmailNotification) (w : World B)
      → Kept n w
      → let (_, (n', w')) = send_notification_now B now n w in Kept n' w'
  unfolding send_notification_now
  send_notification_now-Kept now n w h =
      let n = record n { status = "processing" } in
      let kept =
        save-Kept now n w
          (record { held = moved_to "processing" refl h.held; stored = h.stored }) in
      let (n', (_, w')) = save B now n w in
      elim (Option-cases (save B now n w).1.0) [
        | inl saved ↦ rw (saved, send_notification_now) (deliver-Kept now n' w' kept)
        | inr (_, unsaved) ↦ rw (unsaved, send_notification_now) kept
      ]
