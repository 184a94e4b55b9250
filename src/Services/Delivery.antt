-- ===== src/Services/Delivery.antt =====
-- What internal/services/notification_service.go sends where nothing fails.
use engine_api_workflow.Common.{
  All-map, inr, inl, sym, Option-cases, String, subst, ap, ◌∙◌, ℕ, ◌≡◌, refl, Bool, true, false,
  none, some, List, [], ◌∷◌, All, length,
}
use engine_api_workflow.Models.Notification.{ValidationError, EmailNotification, validate}
use engine_api_workflow.Repository.{
  one_matched-state, ascending, Order, one_matched, Collection, counted,
}
use engine_api_workflow.Repository.Notifications.{
  is_pending_by, find_notifications, set_document, update, has_id, touched, get_pending,
}
use engine_api_workflow.Services.{Backend, World, Message, EmailService}
use engine_api_workflow.Services.Sending.{
  save, send_notification_now, deliver, settle_sent, message_of,
}
use engine_api_workflow.Services.Batches.{
  ProcessingResult, counted_in, empty_result, process_each, process_batch,
  process_pending_notifications,
}

-- The updates by an ID do not fail, and find the document with that ID where the collection holds one.
-- An update that changes no ID leaves the IDs that are held, and what is found is held.
pub record FindsHeld (C : Collection EmailNotification) : Type 1 where
  pub Held : String → C.State → Type 0
  pub update_one-finds :
      (id : String) (f : EmailNotification → EmailNotification) (s : C.State)
      → Held id s
      → (C.update_one (has_id id) f s).0 ≡ counted 1
  pub update_one-Held :
      (id : String) (p : EmailNotification → Bool) (f : EmailNotification → EmailNotification)
      (s : C.State)
      → ((n : EmailNotification) → (f n).id ≡ n.id)
      → Held id s
      → Held id (C.update_one p f s).1
  pub find-Held :
      (p : EmailNotification → Bool) (o : List Order) (limit : ℕ) (s : C.State)
      (l : List EmailNotification)
      → C.find p o limit s ≡ some l
      → All (λ n. Held n.id s) l

-- Every message is taken.
abbrev pub AlwaysAccepts : EmailService → Type 0
AlwaysAccepts M = (m : Message) (s : M.State) → (M.send m s).0 ≡ none

-- The mail service after the e-mails of a list, one after the other.
unfoldable pub after_all : (M : EmailService) → List EmailNotification → M.State → M.State
after_all M [] s = s
after_all M (n ∷ l) s = after_all M l (M.send (message_of n) s).1

module _ (B : Backend) (now : ℕ) (finds : FindsHeld B.notification_store) where
  pub save_works :
      (n : EmailNotification) (w : World B)
      → finds.Held n.id w.notifications
      → validate now (touched now n) ≡ none
      → (save B now n w).1.0 ≡ none
  unfolding save update
  save_works n w held valid =
      rw (valid, save, update)
        (rw
          (
            finds.update_one-finds n.id (set_document (touched now n)) w.notifications held,
            one_matched,
          )
          refl)

  pub save_result : (n : EmailNotification) (w : World B) → (save B now n w).0 ≡ touched now n
  unfolding save update
  save_result n w = refl

  pub save-Held :
      (id : String) (n : EmailNotification) (w : World B)
      → finds.Held id w.notifications
      → finds.Held id (save B now n w).1.1.notifications
  unfolding save update set_document
  save-Held id n w held = elim (Option-cases (validate now (touched now n))) [
    | inl valid ↦
        let C = B.notification_store in
        let r = C.update_one (has_id n.id) (set_document (touched now n)) w.notifications in
        let kept : finds.Held id r.1 =
          finds.update_one-Held id (has_id n.id) (set_document (touched now n)) w.notifications
            (λ m. refl) held in
        rw (valid, save, update)
          (subst (finds.Held id) (sym (one_matched-state ValidationError r)) kept)
    | inr (e, wrong) ↦ rw (wrong, save, update) held
  ]

  module _ (accepts : AlwaysAccepts B.mailer) where
    -- What a sending did: no error, one message, the status in the notification that the caller
    -- has, and no document lost.
    record Delivered (n : EmailNotification) (w : World B) : Type 0 where
      no_error : (send_notification_now B now n w).0 ≡ none
      one_message :
          (send_notification_now B now n w).1.1.mail ≡ (B.mailer.send (message_of n) w.mail).1
      marked : (send_notification_now B now n w).1.0 ≡ touched now (record n { status = "sent" })
      still_held :
          (id : String)
          → finds.Held id w.notifications
          → finds.Held id (send_notification_now B now n w).1.1.notifications

    deliver_taken :
        (n : EmailNotification) (w : World B)
        → deliver B now n w
          ≡ settle_sent B now n (record w { mail = (B.mailer.send (message_of n) w.mail).1 })
    unfolding deliver
    deliver_taken n w = rw (accepts (message_of n) w.mail, deliver) refl

    started :
        (n : EmailNotification) (w : World B)
        → finds.Held n.id w.notifications
        → validate now n ≡ none
        → let (n', (_, w')) = save B now (record n { status = "processing" }) w in
          send_notification_now B now n w ≡ deliver B now n' w'
    unfolding send_notification_now validate
    started n w held valid =
        rw (save_works (record n { status = "processing" }) w held valid, send_notification_now)
          refl

    send_notification_now-Delivered :
        (n : EmailNotification) (w : World B)
        → finds.Held n.id w.notifications
        → validate now n ≡ none
        → Delivered n w
    unfolding save update message_of settle_sent
    send_notification_now-Delivered n w held valid =
        let (n', (_, w')) = save B now (record n { status = "processing" }) w in
        let whole = started n w held valid ∙ deliver_taken n' w' in
        record {
          no_error = ap (λ p. p.0) whole;
          one_message = ap (λ p. p.1.1.mail) whole;
          marked = ap (λ p. p.1.0) whole;
          still_held = λ id h.
              subst (λ p. finds.Held id p.1.1.notifications) (sym whole)
                (save-Held id (record n' { status = "sent" })
                  (record w' { mail = (B.mailer.send (message_of n') w'.mail).1 })
                  (save-Held id (record n { status = "processing" }) w h));
        }

    process_each-sends :
        (l : List EmailNotification) (r : ProcessingResult) (w : World B)
        → All (λ n. validate now n ≡ none) l
        → All (λ n. finds.Held n.id w.notifications) l
        → (process_each B now l r w).1.mail ≡ after_all B.mailer l w.mail
    unfolding process_each after_all
    process_each-sends [] r w all held = refl
    process_each-sends (n ∷ l) r w (valid, all) (held, helds) =
        let d = send_notification_now-Delivered n w held valid in
        let (e, (n', w')) = send_notification_now B now n w in
        process_each-sends l (counted_in n'.id e r) w' all
          (All-map (λ m. d.still_held m.id) l helds)
        ∙ ap (after_all B.mailer l) d.one_message

    -- Where an update by an ID finds the document that the collection holds, and the mail service takes
    -- every message: a batch of pending notifications that starts, and whose notifications are valid
    -- when they are sent, ends without an error, and the mail service has been given the message of
    -- each, once and in their order.
    pub process_pending_notifications-sends :
        (asked finished : ℕ) (l : List EmailNotification) (w : World B)
        → w.is_processing ≡ false
        → get_pending B.notification_store asked 100 w.notifications ≡ some l
        → All (λ n. validate now n ≡ none) l
        → let (e, w') = process_pending_notifications B asked now finished w in
          (e ≡ none) × (w'.mail ≡ after_all B.mailer l w.mail)
    unfolding process_pending_notifications process_batch after_all get_pending find_notifications
    process_pending_notifications-sends asked finished l w free read valid =
        rw (free, process_pending_notifications) (batch l read valid)
      where
        started_world : World B
        started_world = record w { is_processing = true }

        batch :
            (l : List EmailNotification)
            → get_pending B.notification_store asked 100 w.notifications ≡ some l
            → All (λ n. validate now n ≡ none) l
            → let (e, w') = process_batch B asked now finished started_world in
              (e ≡ none) × (w'.mail ≡ after_all B.mailer l w.mail)
        batch [] read valid = rw (read, process_batch) (refl, refl)
        batch (n ∷ l) read valid =
            rw (read, process_batch)
              (
                refl,
                process_each-sends (n ∷ l) (empty_result (length (n ∷ l))) started_world valid (
                    finds.find-Held (is_pending_by asked) (ascending "created_at" ∷ []) 100
                      w.notifications (n ∷ l) read),
              )
