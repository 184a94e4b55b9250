-- ===== src/Services/Attempts/Loops.antt =====
-- The loops of the three batches of internal/services/notification_service.go.
use engine_api_workflow.Common.{inl, inr, ℕ, refl, List, [], ◌∷◌, All, Option-cases, Bool-cases}
use engine_api_workflow.Models.Notification.{EmailNotification, can_retry}
use engine_api_workflow.Repository.{IsLawful}
use engine_api_workflow.Services.{Backend, World}
use engine_api_workflow.Services.Sending.{save, send_notification_now}
use engine_api_workflow.Services.Batches.{
  counted_in, ProcessingResult, process_each, process_each_scheduled, process_scheduled, retry_each,
  retry_failed, retry_once, next_attempt,
}
use engine_api_workflow.Services.Attempts.{
  IsSound, moved_to, next_attempt-IsSound, IsSoundStore, Kept, save-Kept,
  send_notification_now-Kept,
}

module _ (B : Backend) (law : IsLawful B.notification_store) where
  -- A loop starts on sound notifications.
  pub process_each-IsSound :
      (now : ℕ) (l : List EmailNotification) (r : ProcessingResult) (w : World B)
      → All IsSound l
      → IsSoundStore B law w
      → IsSoundStore B law (process_each B now l r w).1
  unfolding process_each
  process_each-IsSound now [] r w all stored = stored
  process_each-IsSound now (n ∷ l) r w (sound, all) stored =
      let (e, (n', w')) = send_notification_now B now n w in
      process_each-IsSound now l (counted_in n'.id e r) w' all
        (send_notification_now-Kept B law now n w (record { held = sound; stored = stored })).stored

  process_scheduled-IsSound :
      (now : ℕ) (n : EmailNotification) (w : World B)
      → IsSound n
      → IsSoundStore B law w
      → IsSoundStore B law (process_scheduled B now n w)
  unfolding process_scheduled
  process_scheduled-IsSound now n w sound stored =
      let n = record n { status = "pending" } in
      let kept =
        save-Kept B law now n w
          (record { held = moved_to "pending" refl sound; stored = stored }) in
      let (n', (_, w')) = save B now n w in
      elim (Option-cases (save B now n w).1.0) [
        | inl saved ↦
            rw (saved, process_scheduled) (send_notification_now-Kept B law now n' w' kept).stored
        | inr (_, unsaved) ↦ rw (unsaved, process_scheduled) kept.stored
      ]

  pub process_each_scheduled-IsSound :
      (now : ℕ) (l : List EmailNotification) (w : World B)
      → All IsSound l
      → IsSoundStore B law w
      → IsSoundStore B law (process_each_scheduled B now l w)
  unfolding process_each_scheduled
  process_each_scheduled-IsSound now [] w all stored = stored
  process_each_scheduled-IsSound now (n ∷ l) w (sound, all) stored =
      process_each_scheduled-IsSound now l (process_scheduled B now n w) all
        (process_scheduled-IsSound now n w sound stored)

  retry_failed-Kept :
      (now : ℕ) (n : EmailNotification) (w : World B)
      → Kept B law n w
      → let (n', w') = retry_failed B now n w in Kept B law n' w'
  unfolding retry_failed retry_once
  retry_failed-Kept now n w h = elim (Bool-cases (can_retry now n)) [
    | inr waits ↦ rw (waits, retry_failed) h
    | inl ready ↦
        let n' = next_attempt now n in
        let kept =
          save-Kept B law now n' w
            (record { held = next_attempt-IsSound now n ready h.held; stored = h.stored }) in
        let (n'', (_, w')) = save B now n' w in
        rw (ready, retry_failed)
          (elim (Option-cases (save B now n' w).1.0) [
            | inl saved ↦ rw (saved, retry_once) (send_notification_now-Kept B law now n'' w' kept)
            | inr (_, unsaved) ↦ rw (unsaved, retry_once) kept
          ])
  ]

  pub retry_each-IsSound :
      (now : ℕ) (l : List EmailNotification) (w : World B)
      → All IsSound l
      → IsSoundStore B law w
      → IsSoundStore B law (retry_each B now l w)
  unfolding retry_each
  retry_each-IsSound now [] w all stored = stored
  retry_each-IsSound now (n ∷ l) w (sound, all) stored =
      retry_each-IsSound now l (retry_failed B now n w).1 all
        (retry_failed-Kept now n w (record { held = sound; stored = stored })).stored
