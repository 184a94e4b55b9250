-- ===== src/Services/Counts.antt =====
-- How internal/services/notification_service.go counts the e-mails that the mail service takes.
pub mod Once
use engine_api_workflow.Common.{
  sym, inr, inl, ℕ, ◌+◌, ◌*◌, ◌≤◌, ◌≡◌, refl, String, Bool, true, false, List, [], ◌∷◌, ◌++◌,
  Option, none, some, length, arith, Option-cases, Bool-cases, length-append,
}
use engine_api_workflow.Models.Notification.{can_retry, EmailNotification}
use engine_api_workflow.Repository.Notifications.{get_pending, get_scheduled, get_failed_for_retry}
use engine_api_workflow.Services.{Backend, World, EmailService, Message, SendFailure}
use engine_api_workflow.Services.Sending.{
  notification_status_processing, Sent, save, handle_send_error, settle_sent, settle_unsent,
  deliver, send_notification_now, message_of,
}
use engine_api_workflow.Services.Batches.{
  next_attempt, ProcessingResult, counted_in, process_each, process_batch,
  process_pending_notifications, update_processing_stats, empty_result,
  process_scheduled_notifications, process_each_scheduled, process_scheduled,
  retry_failed_notifications, retry_each, retry_failed, retry_once,
}

-- A mail service that can tell how many messages it took: one more for each sending without an error.
pub record IsCounting (M : EmailService) : Type 0 where
  pub taken : M.State → ℕ
  pub taken-sent :
      (m : Message) (s : M.State) → (M.send m s).0 ≡ none → taken (M.send m s).1 ≡ taken s + 1
  pub taken-refused :
      (m : Message) (s : M.State) (e : String)
      → (M.send m s).0 ≡ some e
      → taken (M.send m s).1 ≡ taken s

module _ (B : Backend) (count : IsCounting B.mailer) where
  abbrev pub sent_of : World B → ℕ
  sent_of w = w.stats.emails_sent_today

  abbrev pub failed_of : World B → ℕ
  failed_of w = w.stats.emails_failed_today

  abbrev pub taken_of : World B → ℕ
  taken_of w = count.taken w.mail

  abbrev pub sent_weight : Option SendFailure → ℕ
  sent_weight none = 1
  sent_weight (some e) = 0

  abbrev pub unsent_weight : Option SendFailure → ℕ
  unsent_weight none = 0
  unsent_weight (some e) = 1

  -- What a sending that ended with `e` did to the counts.
  pub record Moved (e : Option SendFailure) (w w' : World B) : Type 0 where
    pub sent : sent_of w' ≡ sent_of w + sent_weight e
    pub taken : taken_of w' ≡ taken_of w + sent_weight e
    pub unsent : failed_of w' ≤ failed_of w + unsent_weight e

  deliver-Moved :
      (now : ℕ) (n : EmailNotification) (w : World B)
      → let (e, (_, w')) = deliver B now n w in Moved e w w'
  unfolding deliver settle_sent settle_unsent handle_send_error save
  deliver-Moved now n w = elim (Option-cases (B.mailer.send (message_of n) w.mail).0) [
    | inl ok ↦
        rw (ok, deliver)
          (record {
            sent = refl;
            taken = count.taken-sent (message_of n) w.mail ok;
            unsent = ground arith;
          })
    | inr (text, refused) ↦
        rw (refused, deliver)
          (record {
            sent = ground arith;
            taken = ground (arith, count.taken-refused (message_of n) w.mail text refused);
            unsent = ground arith;
          })
  ]

  pub send_notification_now-Moved :
      (now : ℕ) (n : EmailNotification) (w : World B)
      → let (e, (_, w')) = send_notification_now B now n w in Moved e w w'
  unfolding send_notification_now save
  send_notification_now-Moved now n w =
      let n = record n { status = notification_status_processing } in
      elim (Option-cases (save B now n w).1.0) [
        | inl saved ↦
            let moved = deliver-Moved now (save B now n w).0 (save B now n w).1.1 in
            rw (saved, send_notification_now)
              (record { sent = moved.sent; taken = moved.taken; unsent = moved.unsent })
        | inr (_, unsaved) ↦
            rw (unsaved, send_notification_now)
              (record { sent = ground arith; taken = ground arith; unsent = ground arith })
      ]

  -- What a loop that started with the result `r` counts over `k` notifications.
  record Tallied (r : ProcessingResult) (w : World B) (k : ℕ) (r' : ProcessingResult) (w' : World B)
      : Type 0 where
    processed : r'.success_count + r'.error_count ≡ r.success_count + r.error_count + k
    listed : length r'.errors + r.error_count ≡ length r.errors + r'.error_count
    in_stats : sent_of w' + r.success_count ≡ sent_of w + r'.success_count
    by_mail : taken_of w' + r.success_count ≡ taken_of w + r'.success_count
    not_sent : failed_of w' + r.error_count ≤ failed_of w + r'.error_count

  process_each-Tallied :
      (now : ℕ) (l : List EmailNotification) (r : ProcessingResult) (w : World B)
      → let (r', w') = process_each B now l r w in Tallied r w (length l) r' w'
  unfolding process_each
  process_each-Tallied now [] r w = record {
    processed = ground arith;
    listed = refl;
    in_stats = refl;
    by_mail = refl;
    not_sent = ground arith;
  }
  process_each-Tallied now (n ∷ l) r w =
      let (e, (n', w')) = send_notification_now B now n w in
      let (r', w'') = process_each B now l (counted_in n'.id e r) w' in
      step w' n' r' w'' e (send_notification_now-Moved now n w)
        (process_each-Tallied now l (counted_in n'.id e r) w')
    where
      step :
          (w' : World B) (n' : EmailNotification) (r' : ProcessingResult) (w'' : World B)
          (e : Option SendFailure)
          → Moved e w w'
          → Tallied (counted_in n'.id e r) w' (length l) r' w''
          → Tallied r w (length (n ∷ l)) r' w''
      step w' n' r' w'' none m t = record {
        processed = ground (arith, t.processed);
        listed = t.listed;
        in_stats = ground (arith, m.sent, t.in_stats);
        by_mail = ground (arith, m.taken, t.by_mail);
        not_sent = ground (arith, m.unsent, t.not_sent);
      }
      step w' n' r' w'' (some e) m t = record {
        processed = ground (arith, t.processed);
        listed = ground (
          arith,
          t.listed,
          length-append r.errors (record { notification_id = n'.id; failure = e } ∷ []),
        );
        in_stats = ground (arith, m.sent, t.in_stats);
        by_mail = ground (arith, m.taken, t.by_mail);
        not_sent = ground (arith, m.unsent, t.not_sent);
      }

  CountsTwice : World B → World B → Type 0
  CountsTwice w w' = sent_of w' + 2 * taken_of w ≡ sent_of w + 2 * taken_of w'

  process_batch-CountsTwice :
      (asked now finished : ℕ) (w : World B)
      → CountsTwice w (process_batch B asked now finished w).1
  unfolding process_batch CountsTwice update_processing_stats
  process_batch-CountsTwice asked now finished w =
      go (get_pending B.notification_store asked 100 w.notifications) refl
    where
      go :
          (o : Option (List EmailNotification))
          → get_pending B.notification_store asked 100 w.notifications ≡ o
          → CountsTwice w (process_batch B asked now finished w).1
      go none e = rw (e, process_batch) refl
      go (some []) e = rw (e, process_batch) refl
      go (some (n ∷ l)) e =
          let t = process_each-Tallied now (n ∷ l) (empty_result (length (n ∷ l))) w in
          rw (e, process_batch) (ground (arith, t.in_stats, t.by_mail))

  -- On a mail service that can tell how many messages it took: a batch of pending notifications,
  -- whatever becomes of it, raises the statistic of sent e-mails by two for each message taken in
  -- it, and leaves the mark of a batch in progress as it was.
  pub process_pending_notifications-counts :
      (asked now finished : ℕ) (w : World B)
      → let w' = (process_pending_notifications B asked now finished w).1 in
        (w'.stats.emails_sent_today + 2 * count.taken w.mail
          ≡ w.stats.emails_sent_today + 2 * count.taken w'.mail)
        × (w'.is_processing ≡ w.is_processing)
  unfolding process_pending_notifications CountsTwice
  process_pending_notifications-counts asked now finished w =
      let twice =
        process_batch-CountsTwice asked now finished (record w { is_processing = true }) in
      elim (Bool-cases w.is_processing) [
        | inl busy ↦ rw (busy, process_pending_notifications) (refl, refl)
        | inr free ↦ rw (free, process_pending_notifications) (twice, refl)
      ]
