-- ===== src/Models/Template.antt =====
-- internal/models/notification.go: the template of an e-mail, its validation and its names. `parse` is
-- the Parse of text/template, with the error that it returns.
use engine_api_workflow.Common.{
  ℕ, ℤ, ◌&&◌, not, String, Bool, List, Option, none, some, ltb, str_eq, if◌then◌else◌,
}
use engine_api_workflow.Models.Value.{Value, Fields}
use engine_api_workflow.Models.Notification.Pattern.{is_blank, byte_length}

pub record TemplateVariable : Type 0 where
  pub name : String
  pub kind : String
  pub description : String
  pub required : Bool
  pub default_value : Option Value
  pub example_value : Option Value

pub record EmailTemplate : Type 0 where
  pub id : String
  pub name : String
  pub kind : String
  pub language : String
  pub version : ℤ
  pub subject : String
  pub body_text : String
  pub body_html : String
  pub description : String
  pub tags : List String
  pub variables : List TemplateVariable
  pub is_active : Bool
  pub is_default : Bool
  pub config : Option Fields
  pub created_at : ℕ
  pub updated_at : ℕ
  pub created_by : String

pub data TemplateError : Type 0 where
  no_name name_too_long no_template_subject no_content : TemplateError
  invalid_subject invalid_text_body invalid_html_body : String → TemplateError

abbrev pub max_template_name_length : ℕ
max_template_name_length = 100

unfoldable pub has_html_version : EmailTemplate → Bool
has_html_version t = not (str_eq t.body_html "")

abbrev pub or_syntax :
    (String → TemplateError) → Option String → Option TemplateError → Option TemplateError
or_syntax wrap (some e) rest = some (wrap e)
or_syntax wrap none rest = rest

module _ (parse : String → Option String) where
  abbrev pub parse_body :
      (String → TemplateError) → String → Option TemplateError → Option TemplateError
  parse_body wrap body rest = if str_eq body "" then rest else or_syntax wrap (parse body) rest

  unfoldable pub validate_template_syntax : EmailTemplate → Option TemplateError
  validate_template_syntax t =
      or_syntax invalid_subject (parse t.subject)
        (parse_body invalid_text_body t.body_text (parse_body invalid_html_body t.body_html none))

  unfoldable pub validate_template : EmailTemplate → Option TemplateError
  validate_template t =
      if is_blank t.name
      then some no_name
      else if ltb max_template_name_length (byte_length t.name)
      then some name_too_long
      else if is_blank t.subject
      then some no_template_subject
      else if is_blank t.body_text && is_blank t.body_html
      then some no_content
      else validate_template_syntax t
