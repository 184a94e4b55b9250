-- ===== src/Services/Refusals.antt =====
-- What internal/services/notification_service.go leaves behind of a request that it refuses.
use engine_api_workflow.Common.{
  sym, ap, ◌∙◌, subst, ℕ, ◌≡◌, refl, ◌⊎◌, inl, inr, String, Option, none, some, Option-cases,
  Bool-cases, str_eq, arith,
}
use mathlib.Core.Option.{some-injective}
use engine_api_workflow.Models.Value.{Fields}
use engine_api_workflow.Models.Notification.{
  to_email_notification, EmailNotification, SendEmailRequest, validate, should_process,
}
use engine_api_workflow.Models.Template.{EmailTemplate}
use engine_api_workflow.Repository.{failed}
use engine_api_workflow.Repository.Notifications.{
  insert_one_of, NotificationFailure, create, stamped,
}
use engine_api_workflow.Repository.Templates.{TemplateFailure, get_by_name}
use engine_api_workflow.Services.{Backend, World}
use engine_api_workflow.Services.Cache.{
  TemplateCache, get_template_by_name, get_template_from_cache, looked_up,
}
use engine_api_workflow.Services.Templating.{process_template}
use engine_api_workflow.Services.Requests.{
  SendResult, created, refused, SendEmailError, not_saved, prepared, sent_if_due, stored_and_sent,
  send_email, validate_send_email_request,
}

-- The same but for the cache.
pub record Cached {B : Backend} (w w' : World B) : Type 0 where
  pub cache : TemplateCache
  pub only : w' ≡ record w { template_cache = cache }

module _ (B : Backend) where
  get_template_by_name-Cached :
      (name : String) (w : World B) → Cached w (get_template_by_name B name w).1
  unfolding get_template_by_name
  get_template_by_name-Cached name w =
      elim (Option-cases (get_template_from_cache name w.template_cache)) [
        | inr (_, hit) ↦
            rw (hit, get_template_by_name) (record { cache = w.template_cache; only = refl })
        | inl miss ↦
            rw (miss, get_template_by_name)
              (found_or_not
                (get_by_name B.template_store B.parse B.is_duplicate_key name w.templates))
      ]
    where
      found_or_not :
          (r : Option EmailTemplate × Option TemplateFailure) → Cached w (looked_up B r w).1
      found_or_not (some t, e) = record { cache = _; only = refl }
      found_or_not (none, e) = record { cache = w.template_cache; only = refl }

  process_template-Cached :
      (n : EmailNotification) (name : String) (fields : Option Fields) (w : World B)
      → Cached w (process_template B n name fields w).1
  unfolding process_template
  process_template-Cached n name fields w =
      let c = get_template_by_name-Cached name w in
      elim (Option-cases (get_template_by_name B name w).0.0) [
        | inl missing ↦ rw (missing, process_template) c
        | inr (_, there) ↦ rw (there, process_template) c
      ]

  pub prepared-Cached :
      (now : ℕ) (req : SendEmailRequest) (w : World B) → Cached w (prepared B now req w).1
  unfolding prepared
  prepared-Cached now req w = elim (Bool-cases (str_eq req.template_name "")) [
    | inl plain ↦ rw (plain, prepared) (record { cache = w.template_cache; only = refl })
    | inr templated ↦
        rw (templated, prepared)
          (process_template-Cached (to_email_notification now req) req.template_name
            req.template_data w)
  ]

  -- Nothing is sent and no statistic changed, and nothing stored unless the database failed.
  abbrev Untouched : SendEmailError → World B → World B → Type 0
  Untouched e w w' =
      (w'.mail ≡ w.mail)
      × (w'.stats ≡ w.stats)
      × ((w'.notifications ≡ w.notifications) ⊎ ((text : String) × (e ≡ not_saved (failed text))))

  -- What a result says of the state it came with.
  abbrev Explained : SendResult × World B → World B → Type 0
  Explained (created n, w') w = Unit {0}
  Explained (refused e, w') w = Untouched e w w'

  create_explained :
      (new_id : String) (now : ℕ) (n : EmailNotification) (w : World B) (e : NotificationFailure)
      → (create B.notification_store new_id now n w.notifications).1.0 ≡ some e
      → ((create B.notification_store new_id now n w.notifications).1.1 ≡ w.notifications)
        ⊎ ((text : String) × (not_saved e ≡ not_saved (failed text)))
  unfolding create
  create_explained new_id now n w e h =
      let n' = stamped new_id now n in
      elim (Option-cases (validate now n')) [
        | inr (v, bad) ↦ inl (rw (bad, create) refl)
        | inl good ↦ elim (Option-cases (B.notification_store.insert_one n' w.notifications).0) [
          | inl done' ↦
              let saved : (create B.notification_store new_id now n w.notifications).1.0 ≡ none =
                rw (good, create) (rw (done', insert_one_of) refl) in
              absurd (ground (arith, h, saved))
          | inr (text, broken) ↦
              let unsaved : (create B.notification_store new_id now n w.notifications).1.0
                  ≡ some (failed text) =
                rw (good, create) (rw (broken, insert_one_of) refl) in
              inr (text, ap not_saved (some-injective e (failed text) (sym h ∙ unsaved)))
        ]
      ]

  sent_if_due-Explained :
      (now : ℕ) (n : EmailNotification) (w v : World B) → Explained (sent_if_due B now n w) v
  unfolding sent_if_due
  sent_if_due-Explained now n w v = elim (Bool-cases (should_process now n)) [
    | inl due ↦ rw (due, sent_if_due) tt
    | inr later ↦ rw (later, sent_if_due) tt
  ]

  stored_and_sent-Explained :
      (new_id : String) (now : ℕ) (n : EmailNotification) (w : World B)
      → Explained (stored_and_sent B new_id now n w) w
  unfolding stored_and_sent
  stored_and_sent-Explained new_id now n w =
      elim (Option-cases (create B.notification_store new_id now n w.notifications).1.0) [
        | inl saved ↦
            rw (saved, stored_and_sent)
              (sent_if_due-Explained now
                (create B.notification_store new_id now n w.notifications).0
                (record w {
                  notifications = (create B.notification_store new_id now n w.notifications).1.1;
                })
                w)
        | inr (e, unsaved) ↦
            rw (unsaved, stored_and_sent) (refl, refl, create_explained new_id now n w e unsaved)
      ]

  -- The same against a world that differs by its cache.
  Explained-Cached :
      (r : SendResult × World B) (w w' : World B) → Cached w w' → Explained r w' → Explained r w
  Explained-Cached (created n, u) w w' c h = tt
  Explained-Cached (refused e, u) w w' c (mail, stats, stored) = (
    mail ∙ ap (λ v. v.mail) c.only,
    stats ∙ ap (λ v. v.stats) c.only,
    elim stored [
      | inl same ↦ inl (same ∙ ap (λ v. v.notifications) c.only)
      | inr broken ↦ inr broken
    ],
  )

  send_email-Explained :
      (new_id : String) (now : ℕ) (req : SendEmailRequest) (w : World B)
      → Explained (send_email B new_id now req w) w
  unfolding send_email
  send_email-Explained new_id now req w =
      let c = prepared-Cached now req w in
      let ((_, n), w') = prepared B now req w in
      elim (Option-cases (validate_send_email_request req)) [
        | inr (e, bad) ↦ rw (bad, send_email) (refl, refl, inl refl)
        | inl good ↦ elim (Option-cases (prepared B now req w).0.0) [
          | inr (_, unfilled) ↦
              rw (good, send_email)
                (rw unfilled (
                  ap (λ v. v.mail) c.only,
                  ap (λ v. v.stats) c.only,
                  inl (ap (λ v. v.notifications) c.only),
                ))
          | inl filled ↦
              rw (good, send_email)
                (rw filled (
                  Explained-Cached (stored_and_sent B new_id now n w') w w' c
                    (stored_and_sent-Explained new_id now n w')))
        ]
      ]

  -- A request that SendEmail refuses, whether for its own fields, its template or what the repository
  -- says, leaves the mail service and the statistics as they were, and the stored notifications too
  -- unless the driver failed while it inserted the new one.
  pub send_email-refused :
      (new_id : String) (now : ℕ) (req : SendEmailRequest) (w w' : World B) (e : SendEmailError)
      → send_email B new_id now req w ≡ (refused e, w')
      → (w'.mail ≡ w.mail)
        × (w'.stats ≡ w.stats)
        × ((w'.notifications ≡ w.notifications) ⊎ ((text : String) × (e ≡ not_saved (failed text))))
  send_email-refused new_id now req w w' e h =
      subst (λ r. Explained r w) h (send_email-Explained new_id now req w)
