-- ===== src/Services/Attempts/Burnt.antt =====
-- What a retry of internal/services/notification_service.go that fails does to the attempts of the
-- notification.
use engine_api_workflow.Common.{
  sym, ap, subst, ◌∙◌, inr, inl, ℕ, ◌+◌, ◌≡◌, refl, pos, ltb_ℤ, String, Bool, true, none, some,
  Bool-cases, if◌then◌else◌, arith,
}
use engine_api_workflow.Models.Notification.{EmailNotification, validate, can_retry}
use engine_api_workflow.Repository.Notifications.{update, touched}
use engine_api_workflow.Services.{Backend, World, Message, EmailService}
use engine_api_workflow.Services.Sending.{
  send_error, appended, save, send_notification_now, deliver, settle_unsent, handle_send_error,
  after_error, is_recoverable_error, message_of,
}
use engine_api_workflow.Services.Delivery.{FindsHeld, save_works, save_result, save-Held}
use engine_api_workflow.Services.Batches.{retry_failed, retry_once, next_attempt}

-- Every message is refused with this text.
abbrev pub AlwaysRefuses : EmailService → String → Type 0
AlwaysRefuses M text = (m : Message) (s : M.State) → (M.send m s).0 ≡ some text

abbrev pub one_attempt_more : EmailNotification → ℕ
one_attempt_more n = if ltb_ℤ (pos n.attempts) n.max_attempts then n.attempts + 1 else n.attempts

after_error-attempts :
    (now : ℕ) (recoverable : Bool) (n : EmailNotification)
    → recoverable ≡ true
    → (after_error now recoverable n).attempts ≡ one_attempt_more n
unfolding after_error
after_error-attempts now recoverable n h =
    elim (Bool-cases (ltb_ℤ (pos n.attempts) n.max_attempts)) [
      | inl left ↦ rw (left, h) refl
      | inr full ↦ rw full refl
    ]

module _ (B : Backend) (now : ℕ) (text : String) (finds : FindsHeld B.notification_store)
    (refuses : AlwaysRefuses B.mailer text) (recoverable : is_recoverable_error text ≡ true) where
  deliver-attempts :
      (n : EmailNotification) (w : World B) → (deliver B now n w).1.0.attempts ≡ one_attempt_more n
  unfolding deliver settle_unsent handle_send_error save update
  deliver-attempts n w =
      rw (refuses (message_of n) w.mail, deliver)
        (after_error-attempts now (is_recoverable_error text)
          (touched now (appended (send_error now text) n)) recoverable)

  send_notification_now-attempts :
      (n : EmailNotification) (w : World B)
      → finds.Held n.id w.notifications
      → validate now n ≡ none
      → (send_notification_now B now n w).1.0.attempts ≡ one_attempt_more n
  unfolding send_notification_now validate
  send_notification_now-attempts n w held valid =
      let n' = record n { status = "processing" } in
      rw (save_works B now finds n' w held valid, send_notification_now)
        (deliver-attempts (save B now n' w).0 (save B now n' w).1.1
          ∙ ap one_attempt_more (save_result B now finds n' w))

  -- Where an update by an ID finds the document that the collection holds, and the mail service
  -- refuses every message for a reason that is recoverable: a retry of a valid notification that is
  -- held and due raises its attempts by two, or by one if that was the last one allowed.
  pub retry_failed-attempts :
      (n : EmailNotification) (w : World B)
      → finds.Held n.id w.notifications
      → validate now n ≡ none
      → can_retry now n ≡ true
      → (retry_failed B now n w).0.attempts
        ≡ (if ltb_ℤ (pos (n.attempts + 1)) n.max_attempts then n.attempts + 2 else n.attempts + 1)
  unfolding retry_failed retry_once validate save update
  retry_failed-attempts n w held valid ready =
      let n' = next_attempt now n in
      let saved = save B now n' w in
      rw (ready, retry_failed)
        (rw (save_works B now finds n' w held valid, retry_once)
          (send_notification_now-attempts saved.0 saved.1.1 (save-Held B now finds n.id n' w held)
              (subst (λ m. validate now m ≡ none) (sym (save_result B now finds n' w)) valid)
            ∙ ap one_attempt_more (save_result B now finds n' w)
            ∙ (elim (Bool-cases (ltb_ℤ (pos (n.attempts + 1)) n.max_attempts)) [
              | inl left ↦ rw left (omega arith)
              | inr full ↦ rw full refl
            ])))
