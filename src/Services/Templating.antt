-- ===== src/Services/Templating.antt =====
-- internal/services/notification_service.go: a template is filled in, for a notification or a preview.
use engine_api_workflow.Common.{
  String, Bool, true, false, Option, none, some, str_eq, if◌then◌else◌,
}
use engine_api_workflow.Models.Value.{Fields}
use engine_api_workflow.Models.Notification.{EmailNotification}
use engine_api_workflow.Models.Template.{EmailTemplate}
use engine_api_workflow.Repository.Templates.{TemplateFailure}
use engine_api_workflow.Services.{Backend, World}
use engine_api_workflow.Services.Cache.{get_template_by_name}

pub data RenderError : Type 0 where
  template_not_found : Option TemplateFailure → RenderError
  subject_failed html_failed text_failed : RenderError

-- The text and whether it is HTML.
abbrev pub body_of : Backend → EmailTemplate → Option Fields → Option String
body_of B t fields =
    if str_eq t.body_html ""
    then B.render_text t.body_text fields
    else B.render_html t.body_html fields

abbrev pub is_html_body : EmailTemplate → Bool
is_html_body t = if str_eq t.body_html "" then false else true

abbrev pub body_failed : EmailTemplate → RenderError
body_failed t = if str_eq t.body_html "" then text_failed else html_failed

pub record TemplatePreview : Type 0 where
  pub subject : String
  pub body : String
  pub is_html : Bool
  pub variables : Option Fields

-- What is rendered of a notification stays on it when the body fails.
unfoldable pub filled_in :
    Backend
    → EmailTemplate
    → String
    → Option Fields
    → EmailNotification
    → Option RenderError × EmailNotification
filled_in B t name fields n = elim (B.render_text t.subject fields) [
  | none ↦ (some subject_failed, n)
  | some subject ↦
      let n = record n { subject = subject } in
      elim (body_of B t fields) [
        | none ↦ (some (body_failed t), n)
        | some body ↦ (
          none,
          record n {
            body = body;
            is_html = is_html_body t;
            template_name = name;
            template_data = fields;
          },
        )
      ]
]

module _ (B : Backend) where
  unfoldable pub process_template :
      EmailNotification
      → String
      → Option Fields
      → World B
      → (Option RenderError × EmailNotification) × World B
  process_template n name fields w =
      let ((t, e), w) = get_template_by_name B name w in
      elim t [
        | none ↦ ((some (template_not_found e), n), w)
        | some t ↦ (filled_in B t name fields n, w)
      ]

  abbrev pub preview_of : EmailTemplate → Option Fields → Option RenderError × TemplatePreview
  preview_of t fields = elim (B.render_text t.subject fields) [
    | none ↦ (
      some subject_failed,
      record { subject = ""; body = ""; is_html = false; variables = fields },
    )
    | some subject ↦ elim (body_of B t fields) [
      | none ↦ (
        some (body_failed t),
        record { subject = subject; body = ""; is_html = false; variables = none },
      )
      | some body ↦ (
        none,
        record { subject = subject; body = body; is_html = is_html_body t; variables = fields },
      )
    ]
  ]

  unfoldable pub preview_template :
      String → Option Fields → World B → (Option RenderError × Option TemplatePreview) × World B
  preview_template name fields w =
      let ((t, e), w) = get_template_by_name B name w in
      elim t [
        | none ↦ ((some (template_not_found e), none), w)
        | some t ↦ let (e, p) = preview_of t fields in ((e, some p), w)
      ]
