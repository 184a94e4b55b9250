-- ===== src/Repository/Templates.antt =====
-- internal/repository/template_repository.go: the templates of e-mails, a document for each version.
-- `parse` is the Parse of text/template, `is_duplicate_key` the driver's IsDuplicateKeyError.
use engine_api_workflow.Common.{
  ℕ, ◌+ℤ◌, ℤ, pos, String, Bool, not, ◌&&◌, List, [], ◌∷◌, Option, none, some, str_eq, ltb_ℤ,
  if◌then◌else◌,
}
use engine_api_workflow.Models.Template.{EmailTemplate, TemplateError, validate_template}
use engine_api_workflow.Repository.{
  Collection, Order, ascending, descending, RepositoryError, invalid, failed, one_matched,
  or_not_found,
}
use engine_api_workflow.Repository.Notifications.{kept_if_empty, kept_if_no_fields, kept_if_blank}

abbrev pub TemplateFailure : Type 0
TemplateFailure = RepositoryError TemplateError

abbrev pub is_zero_version : ℤ → Bool
is_zero_version v = not (ltb_ℤ v (pos 0)) && not (ltb_ℤ (pos 0) v)

abbrev pub is_active_named : String → EmailTemplate → Bool
is_active_named name t = str_eq t.name name && t.is_active

-- `$set` with the template as the document.
unfoldable pub set_template : EmailTemplate → EmailTemplate → EmailTemplate
set_template t old = record t {
  id = old.id;
  body_html = kept_if_blank t.body_html old.body_html;
  description = kept_if_blank t.description old.description;
  tags = kept_if_empty t.tags old.tags;
  variables = kept_if_empty t.variables old.variables;
  config = kept_if_no_fields t.config old.config;
}

abbrev pub active_from : ℕ → Bool → EmailTemplate → EmailTemplate
active_from now active t = record t { is_active = active; updated_at = now }

abbrev pub next_version : Option EmailTemplate → EmailTemplate → EmailTemplate
next_version (some existing) t = record t { version = existing.version +ℤ pos 1 }
next_version none t = if is_zero_version t.version then record t { version = pos 1 } else t

abbrev pub in_language : EmailTemplate → EmailTemplate
in_language t = if str_eq t.language "" then record t { language = "en" } else t

abbrev pub stamped_template : String → ℕ → EmailTemplate → EmailTemplate
stamped_template new_id now t = record t {
  id = if str_eq t.id "" then new_id else t.id;
  created_at = now;
  updated_at = now;
}

module _ (C : Collection EmailTemplate) (parse : String → Option String)
    (is_duplicate_key : String → Bool) where
  abbrev pub by_version : List Order
  by_version = descending "version" ∷ []

  unfoldable pub get_template_by_id :
      String → C.State → Option EmailTemplate × Option TemplateFailure
  get_template_by_id id s = or_not_found (C.find_one (λ t. str_eq t.id id) [] s)

  unfoldable pub get_by_name : String → C.State → Option EmailTemplate × Option TemplateFailure
  get_by_name name s = or_not_found (C.find_one (is_active_named name) by_version s)

  unfoldable pub get_latest_version :
      String → C.State → Option EmailTemplate × Option TemplateFailure
  get_latest_version name s = or_not_found (C.find_one (λ t. str_eq t.name name) by_version s)

  abbrev pub insert_template :
      EmailTemplate → C.State → EmailTemplate × (Option TemplateFailure × C.State)
  insert_template t s =
      let (e, s) = C.insert_one t s in
      (t, elim e [ none ↦ (none, s) | some text ↦ (some (failed text), s) ])

  -- The version is raised once if another document has the name and the version.
  abbrev pub insert_version :
      EmailTemplate → C.State → EmailTemplate × (Option TemplateFailure × C.State)
  insert_version t s =
      let (e, s') = C.insert_one t s in
      elim e [
        | none ↦ (t, (none, s'))
        | some text ↦
            if is_duplicate_key text
            then insert_template (record t { version = t.version +ℤ pos 1 }) s'
            else (t, (some (failed text), s'))
      ]

  unfoldable pub create_template_document :
      String → ℕ → EmailTemplate → C.State → EmailTemplate × (Option TemplateFailure × C.State)
  create_template_document new_id now t s =
      let t = stamped_template new_id now t in
      elim (validate_template parse t) [
        | some e ↦ (t, (some (invalid e), s))
        | none ↦ insert_version (in_language (next_version (get_by_name t.name s).0 t)) s
      ]

  unfoldable pub update_template_document :
      ℕ → EmailTemplate → C.State → EmailTemplate × (Option TemplateFailure × C.State)
  update_template_document now t s =
      let t = record t { updated_at = now } in
      (
        t,
        elim (validate_template parse t) [
          | some e ↦ (some (invalid e), s)
          | none ↦ one_matched (C.update_one (λ u. str_eq u.id t.id) (set_template t) s)
        ],
      )

  unfoldable pub delete_template_document : String → C.State → Option TemplateFailure × C.State
  delete_template_document id s = one_matched (C.delete_one (λ t. str_eq t.id id) s)

  unfoldable pub create_version :
      String → ℕ → EmailTemplate → C.State → EmailTemplate × (Option TemplateFailure × C.State)
  create_version new_id now t s = elim (get_latest_version t.name s).0 [
    | none ↦ (t, ((get_latest_version t.name s).1, s))
    | some latest ↦
        let t = record t {
          id = new_id;
          version = latest.version +ℤ pos 1;
          created_at = now;
          updated_at = now;
        } in
        elim (validate_template parse t) [
          | some e ↦ (t, (some (invalid e), s))
          | none ↦ insert_template t s
        ]
  ]

  unfoldable pub set_active : ℕ → String → Bool → C.State → Option TemplateFailure × C.State
  set_active now id active s =
      one_matched (C.update_one (λ t. str_eq t.id id) (active_from now active) s)

  unfoldable pub get_active : C.State → Option (List EmailTemplate)
  get_active s = C.find (λ t. t.is_active) (ascending "name" ∷ descending "version" ∷ []) 0 s
