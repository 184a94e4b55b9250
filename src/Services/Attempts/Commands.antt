-- ===== src/Services/Attempts/Commands.antt =====
-- All that is asked of internal/services/notification_service.go, in any order.
use engine_api_workflow.Services.Attempts.Creation.{
  send_email-IsSound, cancel_found-IsSound, resend_found-IsSound,
}
use engine_api_workflow.Common.{
  length, ◌-◌, sym, subst, inl, inr, ℕ, ◌≡◌, refl, String, true, List, [], ◌∷◌, Option, none, some,
  Option-cases, Bool-cases,
}
use engine_api_workflow.Models.Notification.{EmailNotification, SendEmailRequest}
use engine_api_workflow.Repository.{
  Found, no_documents, unreadable, Reply, counted, broken, ascending, unreadable, Found, IsLawful,
  found,
}
use engine_api_workflow.Repository.Notifications.{
  is_pending_by, is_due_by, is_retryable_by, deleted_count, get_failed_for_retry, get_scheduled,
  is_old_by, get_pending, insert_one_of, NotificationFailure, create, stamped, get_by_id, has_id,
}
use engine_api_workflow.Services.{Backend, World}
use engine_api_workflow.Services.Requests.{send_email}
use engine_api_workflow.Services.Batches.{
  empty_result, process_batch, process_pending_notifications, process_scheduled_notifications,
  retry_failed_notifications,
}
use engine_api_workflow.Services.Upkeep.{
  cancel_notification, resend_notification, cleanup_old_notifications,
}
use engine_api_workflow.Services.Attempts.{IsSound, IsSoundStore}
use engine_api_workflow.Services.Attempts.Loops.{
  process_each-IsSound, retry_each-IsSound, process_each_scheduled-IsSound,
}

-- A call of the service, with the times that its calls of time.Now() return.
pub data Command : Type 0 where
  send : String → ℕ → SendEmailRequest → Command
  pending_batch : ℕ → ℕ → ℕ → Command
  scheduled_batch retry_batch : ℕ → ℕ → Command
  cancel resend : ℕ → String → Command
  cleanup : ℕ → ℕ → Command

unfoldable pub run_command : (B : Backend) → Command → World B → World B
run_command B (send new_id now req) w = (send_email B new_id now req w).1
run_command B (pending_batch asked now finished) w =
    (process_pending_notifications B asked now finished w).1
run_command B (scheduled_batch asked now) w = (process_scheduled_notifications B asked now w).1
run_command B (retry_batch asked now) w = (retry_failed_notifications B asked now w).1
run_command B (cancel now id) w = (cancel_notification B now id w).1
run_command B (resend now id) w = (resend_notification B now id w).1
run_command B (cleanup now older_than) w = (cleanup_old_notifications B now older_than w).1

unfoldable pub run_commands : (B : Backend) → List Command → World B → World B
run_commands B [] w = w
run_commands B (c ∷ cs) w = run_commands B cs (run_command B c w)

deleted_count-state : {S : Type 0} (r : Reply × S) → (deleted_count r).1 ≡ r.1
deleted_count-state (counted k, s) = refl
deleted_count-state (broken text, s) = refl

module _ (B : Backend) (law : IsLawful B.notification_store) where
  abbrev Keeps : World B → World B → Type 0
  Keeps w w' = IsSoundStore B law w → IsSoundStore B law w'

  pending-Keeps :
      (asked now finished : ℕ) (w : World B)
      → Keeps w (process_pending_notifications B asked now finished w).1
  unfolding process_batch get_pending
      engine_api_workflow.Repository.Notifications.find_notifications process_pending_notifications
  pending-Keeps asked now finished w stored = elim (Bool-cases w.is_processing) [
    | inl busy ↦ rw (busy, process_pending_notifications) stored
    | inr free ↦
        rw (free, process_pending_notifications)
          (batch (get_pending B.notification_store asked 100 w.notifications) refl)
  ]
    where
      open' : World B
      open' = record w { is_processing = true }

      batch :
          (o : Option (List EmailNotification))
          → get_pending B.notification_store asked 100 w.notifications ≡ o
          → IsSoundStore B law (process_batch B asked now finished open').1
      batch none e = rw (e, process_batch) stored
      batch (some []) e = rw (e, process_batch) stored
      batch (some (n ∷ l)) e =
          rw (e, process_batch)
            (process_each-IsSound B law now (n ∷ l) (empty_result (length (n ∷ l))) open'
              (law.find-Every IsSound (is_pending_by asked) (ascending "created_at" ∷ []) 100
                w.notifications (n ∷ l) stored e)
              stored)

  scheduled-Keeps :
      (asked now : ℕ) (w : World B) → Keeps w (process_scheduled_notifications B asked now w).1
  unfolding process_scheduled_notifications get_scheduled
      engine_api_workflow.Repository.Notifications.find_notifications
  scheduled-Keeps asked now w stored =
      elim (Option-cases (get_scheduled B.notification_store asked 50 w.notifications)) [
        | inl unread ↦ rw (unread, process_scheduled_notifications) stored
        | inr (l, read) ↦
            rw (read, process_scheduled_notifications)
              (process_each_scheduled-IsSound B law now l w
                (law.find-Every IsSound (is_due_by asked) (ascending "scheduled_at" ∷ []) 50
                  w.notifications l stored read)
                stored)
      ]

  retry-Keeps : (asked now : ℕ) (w : World B) → Keeps w (retry_failed_notifications B asked now w).1
  unfolding retry_failed_notifications get_failed_for_retry
      engine_api_workflow.Repository.Notifications.find_notifications
  retry-Keeps asked now w stored =
      elim (Option-cases (get_failed_for_retry B.notification_store asked 25 w.notifications)) [
        | inl unread ↦ rw (unread, retry_failed_notifications) stored
        | inr (l, read) ↦
            rw (read, retry_failed_notifications)
              (retry_each-IsSound B law now l w
                (law.find-Every IsSound (is_retryable_by asked) (ascending "next_retry_at" ∷ []) 25
                  w.notifications l stored read)
                stored)
      ]

  module _ (id : String) (w : World B) where
    abbrev looked_for : Found EmailNotification
    looked_for = B.notification_store.find_one (has_id id) [] w.notifications

    found_one : (n : EmailNotification) → looked_for ≡ found n → IsSoundStore B law w → IsSound n
    found_one n e stored = law.find_one-Every IsSound (has_id id) [] w.notifications n stored e

    cancel-Keeps : (now : ℕ) → Keeps w (cancel_notification B now id w).1
    unfolding get_by_id cancel_notification
    cancel-Keeps now stored = go looked_for refl
      where
        go :
            (r : Found EmailNotification)
            → looked_for ≡ r
            → IsSoundStore B law (cancel_notification B now id w).1
        go (found n) e =
            rw (e, cancel_notification)
              (cancel_found-IsSound B law now n w (found_one n e stored) stored)
        go no_documents e = rw (e, cancel_notification) stored
        go (unreadable text) e = rw (e, cancel_notification) stored

    resend-Keeps : (now : ℕ) → Keeps w (resend_notification B now id w).1
    unfolding get_by_id resend_notification
    resend-Keeps now stored = go looked_for refl
      where
        go :
            (r : Found EmailNotification)
            → looked_for ≡ r
            → IsSoundStore B law (resend_notification B now id w).1
        go (found n) e =
            rw (e, resend_notification)
              (resend_found-IsSound B law now n w (found_one n e stored) stored)
        go no_documents e = rw (e, resend_notification) stored
        go (unreadable text) e = rw (e, resend_notification) stored

  cleanup-Keeps :
      (now older_than : ℕ) (w : World B) → Keeps w (cleanup_old_notifications B now older_than w).1
  unfolding cleanup_old_notifications engine_api_workflow.Repository.Notifications.cleanup_old
  cleanup-Keeps now older_than w stored =
      subst (law.Every IsSound)
        (sym (
          deleted_count-state
            (B.notification_store.delete_many (is_old_by (now - older_than)) w.notifications)))
        (law.delete_many-Every IsSound (is_old_by (now - older_than)) w.notifications stored)

  run_command-Keeps : (c : Command) (w : World B) → Keeps w (run_command B c w)
  unfolding run_command send_email
  run_command-Keeps (send new_id now req) w stored =
      send_email-IsSound B law new_id now req w stored
  run_command-Keeps (pending_batch asked now finished) w stored =
      pending-Keeps asked now finished w stored
  run_command-Keeps (scheduled_batch asked now) w stored = scheduled-Keeps asked now w stored
  run_command-Keeps (retry_batch asked now) w stored = retry-Keeps asked now w stored
  run_command-Keeps (cancel now id) w stored = cancel-Keeps id w now stored
  run_command-Keeps (resend now id) w stored = resend-Keeps id w now stored
  run_command-Keeps (cleanup now older_than) w stored = cleanup-Keeps now older_than w stored

  -- On a database that keeps what it is given, if every stored notification has at most as many attempts
  -- as it is allowed, is allowed one to ten and has one of the six statuses, this still holds after any
  -- sequence of e-mails sent, batches of pending, scheduled and failed notifications, notifications
  -- cancelled and sent again, and clean-ups.
  pub run_commands-IsSound :
      (cs : List Command) (w : World B)
      → law.Every IsSound w.notifications
      → law.Every IsSound (run_commands B cs w).notifications
  unfolding run_commands
  run_commands-IsSound [] w stored = stored
  run_commands-IsSound (c ∷ cs) w stored =
      run_commands-IsSound cs (run_command B c w) (run_command-Keeps c w stored)
