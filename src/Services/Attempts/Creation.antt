-- ===== src/Services/Attempts/Creation.antt =====
-- The notifications that SendEmail, CancelNotification and ResendNotification of
-- internal/services/notification_service.go store.
use engine_api_workflow.Common.{
  sym, subst, is_some, if◌then◌else◌, inl, inr, ℕ, ◌≡◌, refl, String, Bool, true, false, not, ◌&&◌,
  Option, none, arith, Option-cases, Bool-cases, str_eq,
}
use engine_api_workflow.Models.Value.{Fields}
use engine_api_workflow.Models.Notification.{
  default_max_attempts, EmailNotification, SendEmailRequest, validate, is_valid_status, of_request,
  or_default_attempts, to_email_notification, should_process,
}
use engine_api_workflow.Models.Notification.Validation.{validate_iff}
use engine_api_workflow.Models.Template.{EmailTemplate}
use engine_api_workflow.Repository.{IsLawful}
use engine_api_workflow.Services.Refusals.{prepared-Cached}
use engine_api_workflow.Services.Cache.{get_template_by_name}
use engine_api_workflow.Repository.Notifications.{
  insert_one_of, NotificationFailure, create, stamped,
}
use engine_api_workflow.Services.{Backend, World}
use engine_api_workflow.Services.Sending.{save}
use engine_api_workflow.Services.Templating.{filled_in, process_template, body_of}
use engine_api_workflow.Services.Requests.{
  prepared, sent_if_due, stored_and_sent, send_email, validate_send_email_request,
}
use engine_api_workflow.Services.Upkeep.{cancel_found, resend_found, reset_for_resend}
use engine_api_workflow.Services.Attempts.{
  IsSound, IsSoundStore, Kept, save-Kept, send_notification_now-Kept, moved_to,
}

-- A notification that was made from a request has no attempts and a status of the two, and a template
-- leaves them.
abbrev IsNew : EmailNotification → Type 0
IsNew n = (n.attempts ≡ 0) × (is_valid_status n.status ≡ true)

to_email_notification-IsNew :
    (now : ℕ) (req : SendEmailRequest) → IsNew (to_email_notification now req)
unfolding to_email_notification
to_email_notification-IsNew now req =
    scheduled n (is_some n.scheduled_at) (defaulted (of_request now req) _ (refl, refl))
  where
    n : EmailNotification
    n = or_default_attempts (of_request now req)

    defaulted :
        (n : EmailNotification) (b : Bool)
        → IsNew n
        → IsNew (if b then record n { max_attempts = default_max_attempts } else n)
    defaulted n true h = h
    defaulted n false h = h

    scheduled :
        (n : EmailNotification) (b : Bool)
        → IsNew n
        → IsNew (if b then record n { status = "scheduled" } else n)
    scheduled n true (none_yet, known) = (none_yet, refl)
    scheduled n false h = h

filled_in-IsNew :
    (B : Backend) (t : EmailTemplate) (name : String) (fields : Option Fields)
    (n : EmailNotification)
    → IsNew n
    → IsNew (filled_in B t name fields n).1
unfolding filled_in
filled_in-IsNew B t name fields n h = elim (Option-cases (B.render_text t.subject fields)) [
  | inl bad ↦ rw (bad, filled_in) h
  | inr (s, good) ↦ elim (Option-cases (body_of B t fields)) [
    | inl bad ↦ rw (good, filled_in) (rw bad h)
    | inr (_, fine) ↦ rw (good, filled_in) (rw fine h)
  ]
]

module _ (B : Backend) (law : IsLawful B.notification_store) where
  prepared-IsNew :
      (now : ℕ) (req : SendEmailRequest) (w : World B) → IsNew (prepared B now req w).0.1
  unfolding prepared process_template
  prepared-IsNew now req w =
      let n = to_email_notification now req in
      let (t, w') = get_template_by_name B req.template_name w in
      elim (Bool-cases (str_eq req.template_name "")) [
        | inl plain ↦ rw (plain, prepared) (to_email_notification-IsNew now req)
        | inr templated ↦
            rw (templated, prepared)
              (elim (Option-cases (get_template_by_name B req.template_name w).0.0) [
                | inl missing ↦ rw (missing, process_template) (to_email_notification-IsNew now req)
                | inr (t, there) ↦
                    rw (there, process_template)
                      (filled_in-IsNew B t req.template_name req.template_data n
                        (to_email_notification-IsNew now req))
              ])
      ]

  sent_if_due-IsSound :
      (now : ℕ) (n : EmailNotification) (w : World B)
      → Kept B law n w
      → IsSoundStore B law (sent_if_due B now n w).1
  unfolding sent_if_due
  sent_if_due-IsSound now n w h = elim (Bool-cases (should_process now n)) [
    | inl due ↦ rw (due, sent_if_due) (send_notification_now-Kept B law now n w h).stored
    | inr later ↦ rw (later, sent_if_due) h.stored
  ]

  -- What is created has passed the validation.
  record Created (n : EmailNotification) (e : Option NotificationFailure)
      (s : B.notification_store.State) : Type 0 where
    every : law.Every IsSound s
    sound : e ≡ none → IsSound n

  create-Created :
      (new_id : String) (now : ℕ) (n : EmailNotification) (s : B.notification_store.State)
      → IsNew n
      → law.Every IsSound s
      → let (n', (e, s')) = create B.notification_store new_id now n s in Created n' e s'
  unfolding create
  create-Created new_id now n s fresh stored =
      let n' = stamped new_id now n in
      elim (Option-cases (validate now n')) [
        | inr (_, refused) ↦
            rw (refused, create)
              (record { every = stored; sound = λ h. absurd (ground (arith, h)) })
        | inl accepted ↦
            let (_, _, _, _, _, _, (least, most), _) = (validate_iff now n').0 accepted in
            let sound : IsSound n' = record {
              within = ground (arith, fresh.0, least);
              at_least_one = least;
              at_most_ten = most;
              known = fresh.1;
            } in
            let inserted = law.insert_one-Every IsSound n' s stored sound in
            elim (Option-cases (B.notification_store.insert_one n' s).0) [
              | inr (_, unwritten) ↦
                  rw (accepted, create)
                    (rw (unwritten, insert_one_of)
                      (record { every = inserted; sound = λ h. sound }))
              | inl done' ↦
                  rw (accepted, create)
                    (rw (done', insert_one_of) (record { every = inserted; sound = λ h. sound }))
            ]
      ]

  stored_and_sent-IsSound :
      (new_id : String) (now : ℕ) (n : EmailNotification) (w : World B)
      → IsNew n
      → IsSoundStore B law w
      → IsSoundStore B law (stored_and_sent B new_id now n w).1
  unfolding stored_and_sent
  stored_and_sent-IsSound new_id now n w fresh stored =
      let c = create-Created new_id now n w.notifications fresh stored in
      let (n', (_, s)) = create B.notification_store new_id now n w.notifications in
      let w' = record w { notifications = s } in
      elim (Option-cases (create B.notification_store new_id now n w.notifications).1.0) [
        | inr (_, failed') ↦ rw (failed', stored_and_sent) c.every
        | inl saved ↦
            rw (saved, stored_and_sent)
              (sent_if_due-IsSound now n' w' (record { held = c.sound saved; stored = c.every }))
      ]

  pub send_email-IsSound :
      (new_id : String) (now : ℕ) (req : SendEmailRequest) (w : World B)
      → IsSoundStore B law w
      → IsSoundStore B law (send_email B new_id now req w).1
  unfolding send_email
  send_email-IsSound new_id now req w stored =
      let p = prepared-Cached B now req w in
      elim (Option-cases (validate_send_email_request req)) [
        | inr (_, bad) ↦ rw (bad, send_email) stored
        | inl good ↦
            let untouched = subst (IsSoundStore B law) (sym p.only) stored in
            elim (Option-cases (prepared B now req w).0.0) [
              | inr (_, unfilled) ↦ rw (good, send_email) (rw unfilled untouched)
              | inl filled ↦
                  rw (good, send_email)
                    (rw filled (
                      stored_and_sent-IsSound new_id now (prepared B now req w).0.1
                        (prepared B now req w).1 (prepared-IsNew now req w) untouched))
            ]
      ]

  pub cancel_found-IsSound :
      (now : ℕ) (n : EmailNotification) (w : World B)
      → IsSound n
      → IsSoundStore B law w
      → IsSoundStore B law (cancel_found B now n w).1
  cancel_found-IsSound now n w sound stored =
      let kept =
        save-Kept B law now (record n { status = "cancelled" }) w
          (record { held = moved_to "cancelled" refl sound; stored = stored }) in
      elim (Bool-cases (not (str_eq n.status "pending") && not (str_eq n.status "scheduled"))) [
        | inl wrong ↦ rw wrong stored
        | inr right ↦ rw right kept.stored
      ]

  pub resend_found-IsSound :
      (now : ℕ) (n : EmailNotification) (w : World B)
      → IsSound n
      → IsSoundStore B law w
      → IsSoundStore B law (resend_found B now n w).1
  unfolding resend_found
  resend_found-IsSound now n w sound stored =
      let kept = save-Kept B law now (reset_for_resend now n) w (record {
        held = record {
          within = ground (arith, sound.at_least_one);
          at_least_one = sound.at_least_one;
          at_most_ten = sound.at_most_ten;
          known = refl;
        };
        stored = stored;
      }) in
      let (n', (_, w')) = save B now (reset_for_resend now n) w in
      elim (Option-cases (save B now (reset_for_resend now n) w).1.0) [
        | inl saved ↦
            rw (saved, resend_found) (send_notification_now-Kept B law now n' w' kept).stored
        | inr (_, unsaved) ↦ rw (unsaved, resend_found) kept.stored
      ]
