-- ===== src/Services/Defaults.antt =====
-- internal/services/notification_service.go: the templates that the service creates itself.
use engine_api_workflow.Common.{ℕ, ◌≡◌, refl, pos, String, true, false, List, [], ◌∷◌, none, some}
use engine_api_workflow.Models.Notification.Pattern.{is_blank, byte_length}
use engine_api_workflow.Models.Template.{
  EmailTemplate, validate_template, validate_template_syntax, invalid_subject,
}
use engine_api_workflow.Repository.Templates.{get_by_name}
use engine_api_workflow.Services.{Backend, World}
use engine_api_workflow.Services.Cache.{invalid_template, create_template, create_default_templates}

abbrev pub default_template : String → String → String → String → String → String → EmailTemplate
default_template name kind subject body_text body_html description = record {
  id = "";
  name = name;
  kind = kind;
  language = "en";
  version = pos 0;
  subject = subject;
  body_text = body_text;
  body_html = body_html;
  description = description;
  tags = [];
  variables = [];
  is_active = true;
  is_default = false;
  config = none;
  created_at = 0;
  updated_at = 0;
  created_by = "system";
}

abbrev pub welcome_subject : String
welcome_subject = "Welcome to {{.SystemName | default \"our system\"}}!"

abbrev pub welcome_template : EmailTemplate
welcome_template =
    default_template "welcome" "welcome" welcome_subject
      "Hi {{.UserName}},\n\nWelcome to our system! Your account has been created successfully.\n\nEmail: {{.Email}}\nDate: {{.Date}}\n\nBest regards,\nThe Team"
      "<h1>Welcome {{.UserName}}!</h1><p>Your account has been created successfully.</p><p><strong>Email:</strong> {{.Email}}</p><p><strong>Date:</strong> {{.Date}}</p><p>Best regards,<br>The Team</p>"
      "Welcome email for new users"

abbrev password_reset_template : EmailTemplate
password_reset_template =
    default_template "password-reset" "password_reset" "Password Reset Request"
      "You requested a password reset. Click the following link to reset your password:\n\n{{.ResetURL}}\n\nThis link expires in {{.ExpiresIn}}.\n\nIf you didn't request this, please ignore this email."
      "<h2>Password Reset Request</h2><p>You requested a password reset. Click the link below to reset your password:</p><p><a href=\"{{.ResetURL}}\">Reset Password</a></p><p>This link expires in {{.ExpiresIn}}.</p><p>If you didn't request this, please ignore this email.</p>"
      "Password reset email template"

abbrev system_alert_template : EmailTemplate
system_alert_template =
    default_template "system-alert" "system_alert" "[{{.Level | upper}}] System Alert: {{.Title}}"
      "System Alert\n\nLevel: {{.Level}}\nTitle: {{.Title}}\nMessage: {{.Message}}\n\nTime: {{.Timestamp}}\nServer: {{.Server | default \"Unknown\"}}"
      "<h2>🚨 System Alert</h2><p><strong>Level:</strong> {{.Level}}</p><p><strong>Title:</strong> {{.Title}}</p><p><strong>Message:</strong> {{.Message}}</p><p><strong>Time:</strong> {{.Timestamp}}</p><p><strong>Server:</strong> {{.Server | default \"Unknown\"}}</p>"
      "System alert notification template"

unfoldable pub get_default_templates : List EmailTemplate
get_default_templates = welcome_template ∷ password_reset_template ∷ system_alert_template ∷ []

create_template-refused :
    (B : Backend) (new_id : String) (now : ℕ) (text : String) (w : World B)
    → B.parse welcome_subject ≡ some text
    → create_template B new_id now welcome_template w
      ≡ (some (invalid_template (invalid_subject text)), w)
unfolding create_template validate_template validate_template_syntax is_blank byte_length
create_template-refused B new_id now text w refused = rw (refused, create_template) refl

-- Where text/template refuses the subject of the welcome template, which calls a function that the
-- service does not define, and the database has no such template, CreateDefaultTemplates ends with that
-- error and creates none of the default templates.
pub create_default_templates-none :
    (B : Backend) (new_id : ℕ → String) (now : ℕ) (text : String) (w : World B)
    → B.parse welcome_subject ≡ some text
    → (get_by_name B.template_store B.parse B.is_duplicate_key "welcome" w.templates).0 ≡ none
    → create_default_templates B new_id now get_default_templates w
      ≡ (some (invalid_template (invalid_subject text)), w)
unfolding create_default_templates get_default_templates
create_default_templates-none B new_id now text w refused absent =
    let error = create_template-refused B (new_id 2) now text w refused in
    rw (absent, create_default_templates) (rw error (rw error refl))
