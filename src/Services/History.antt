-- ===== src/Services/History.antt =====
-- What ResendNotification of internal/services/notification_service.go does to the stored errors.
use engine_api_workflow.Common.{
  inl, inr, ℕ, ◌≡◌, refl, String, false, List, [], ◌∷◌, is_empty, Option-cases,
}
use engine_api_workflow.Models.Notification.{
  ValidationError, NotificationError, EmailNotification, validate,
}
use engine_api_workflow.Repository.{
  one_matched-state, IsLawful, Found, found, no_documents, unreadable,
}
use engine_api_workflow.Repository.Notifications.{
  update, set_document, get_by_id, has_id, touched, kept_if_empty,
}
use engine_api_workflow.Services.{Backend, World}
use engine_api_workflow.Services.Sending.{
  save, handle_send_error, settle_sent, settle_unsent, deliver, send_notification_now, message_of,
  after_error, appended, send_error, is_recoverable_error,
}
use engine_api_workflow.Services.Upkeep.{resend_found, resend_notification, reset_for_resend}

-- It has an error on record.
abbrev pub HasErrors : EmailNotification → Type 0
HasErrors n = is_empty n.errors ≡ false

set_document-HasErrors :
    (n old : EmailNotification) → HasErrors old → HasErrors (set_document n old)
unfolding set_document
set_document-HasErrors n old h = go n.errors
  where
    go : (l : List NotificationError) → is_empty (kept_if_empty l old.errors) ≡ false
    go [] = h
    go (e ∷ l) = refl

module _ (B : Backend) (law : IsLawful B.notification_store) (now : ℕ) where
  abbrev Recorded : World B → Type 0
  Recorded w = law.Every HasErrors w.notifications

  save-Recorded : (n : EmailNotification) (w : World B) → Recorded w → Recorded (save B now n w).1.1
  unfolding save update
  save-Recorded n w h = elim (Option-cases (validate now (touched now n))) [
    | inr (_, refused) ↦ rw (refused, save, update) h
    | inl accepted ↦
        rw (accepted, save, update)
          (rw
            (one_matched-state ValidationError (
              B.notification_store.update_one (has_id n.id) (set_document (touched now n))
                w.notifications))
            (law.update_one-Every HasErrors (has_id n.id) (set_document (touched now n))
              w.notifications h (set_document-HasErrors (touched now n))))
  ]

  deliver-Recorded :
      (n : EmailNotification) (w : World B) → Recorded w → Recorded (deliver B now n w).1.1
  unfolding settle_unsent settle_sent handle_send_error deliver
  deliver-Recorded n w h =
      let w' = record w { mail = (B.mailer.send (message_of n) w.mail).1 } in
      elim (Option-cases (B.mailer.send (message_of n) w.mail).0) [
        | inl taken ↦ rw (taken, deliver) (save-Recorded (record n { status = "sent" }) w' h)
        | inr (text, refused) ↦
            let first = appended (send_error now text) n in
            let (n', (_, w'')) = save B now first w' in
            rw (refused, deliver)
              (save-Recorded (after_error now (is_recoverable_error text) n') w''
                (save-Recorded first w' h))
      ]

  send_notification_now-Recorded :
      (n : EmailNotification) (w : World B)
      → Recorded w
      → Recorded (send_notification_now B now n w).1.1
  unfolding send_notification_now
  send_notification_now-Recorded n w h =
      let n = record n { status = "processing" } in
      let kept = save-Recorded n w h in
      let (n', (_, w')) = save B now n w in
      elim (Option-cases (save B now n w).1.0) [
        | inl saved ↦ rw (saved, send_notification_now) (deliver-Recorded n' w' kept)
        | inr (_, unsaved) ↦ rw (unsaved, send_notification_now) kept
      ]

  resend_found-Recorded :
      (n : EmailNotification) (w : World B) → Recorded w → Recorded (resend_found B now n w).1
  unfolding resend_found
  resend_found-Recorded n w h =
      let kept = save-Recorded (reset_for_resend now n) w h in
      let (n', (_, w')) = save B now (reset_for_resend now n) w in
      elim (Option-cases (save B now (reset_for_resend now n) w).1.0) [
        | inl saved ↦ rw (saved, resend_found) (send_notification_now-Recorded n' w' kept)
        | inr (_, unsaved) ↦ rw (unsaved, resend_found) kept
      ]

  -- On a database that keeps what it is given, if every stored notification has an error on record,
  -- each still has one after ResendNotification, whatever becomes of the e-mail.
  pub resend_notification-HasErrors :
      (id : String) (w : World B)
      → law.Every HasErrors w.notifications
      → law.Every HasErrors (resend_notification B now id w).1.notifications
  unfolding get_by_id resend_notification
  resend_notification-HasErrors id w h =
      go (B.notification_store.find_one (has_id id) [] w.notifications) refl
    where
      go :
          (r : Found EmailNotification)
          → B.notification_store.find_one (has_id id) [] w.notifications ≡ r
          → Recorded (resend_notification B now id w).1
      go (found n) e = rw (e, resend_notification) (resend_found-Recorded n w h)
      go no_documents e = rw (e, resend_notification) h
      go (unreadable text) e = rw (e, resend_notification) h
