-- ===== src/Services/Cache.antt =====
-- internal/services/notification_service.go: the cache of templates by their names, a map, and the
-- operations on templates that fill it and take from it.
use engine_api_workflow.Common.{
  ℕ, String, List, [], ◌∷◌, Option, none, some, length, str_eq, if◌then◌else◌, pos,
}
use engine_api_workflow.Models.Template.{EmailTemplate, TemplateError, validate_template}
use engine_api_workflow.Repository.Templates.{
  TemplateFailure, get_by_name, get_template_by_id, create_template_document,
  update_template_document, delete_template_document, get_active, is_zero_version,
}
use engine_api_workflow.Services.{Backend, World, ServiceStats}

abbrev pub TemplateCache : Type 0
TemplateCache = List (String × EmailTemplate)

unfoldable pub get_template_from_cache : String → TemplateCache → Option EmailTemplate
get_template_from_cache name [] = none
get_template_from_cache name ((k, t) ∷ c) =
    let rest = get_template_from_cache name c in if str_eq k name then some t else rest

unfoldable pub invalidate_template_cache : String → TemplateCache → TemplateCache
invalidate_template_cache name [] = []
invalidate_template_cache name ((k, t) ∷ c) =
    let rest = invalidate_template_cache name c in if str_eq k name then rest else (k, t) ∷ rest

unfoldable pub add_template_to_cache : EmailTemplate → TemplateCache → TemplateCache
add_template_to_cache t c = (t.name, t) ∷ invalidate_template_cache t.name c

-- The loop of warmUpTemplateCache over the active templates.
unfoldable pub add_all : List EmailTemplate → TemplateCache → TemplateCache
add_all [] c = c
add_all (t ∷ l) c = add_all l (add_template_to_cache t c)

pub data TemplateServiceError : Type 0 where
  invalid_template : TemplateError → TemplateServiceError
  store_failed : TemplateFailure → TemplateServiceError

abbrev pub or_first_version : EmailTemplate → EmailTemplate
or_first_version t = if is_zero_version t.version then record t { version = pos 1 } else t

module _ (B : Backend) where
  unfoldable pub warm_up_template_cache : World B → World B
  warm_up_template_cache w =
      elim (get_active B.template_store B.parse B.is_duplicate_key w.templates) [
        | none ↦ w
        | some l ↦ record w { template_cache = add_all l w.template_cache }
      ]

  abbrev pub looked_up :
      Option EmailTemplate × Option TemplateFailure
      → World B
      → (Option EmailTemplate × Option TemplateFailure) × World B
  looked_up (some t, e) w =
      ((some t, none), record w { template_cache = add_template_to_cache t w.template_cache })
  looked_up (none, e) w = ((none, e), w)

  unfoldable pub get_template_by_name :
      String → World B → (Option EmailTemplate × Option TemplateFailure) × World B
  get_template_by_name name w = elim (get_template_from_cache name w.template_cache) [
    | some t ↦ ((some t, none), w)
    | none ↦ looked_up (get_by_name B.template_store B.parse B.is_duplicate_key name w.templates) w
  ]

  abbrev pub forgetting :
      String → Option TemplateFailure → World B → Option TemplateServiceError × World B
  forgetting name (some e) w = (some (store_failed e), w)
  forgetting name none w =
      (none, record w { template_cache = invalidate_template_cache name w.template_cache })

  unfoldable pub create_template :
      String → ℕ → EmailTemplate → World B → Option TemplateServiceError × World B
  create_template new_id now t w = elim (validate_template B.parse t) [
    | some e ↦ (some (invalid_template e), w)
    | none ↦
        let t = or_first_version (record t { created_at = now; updated_at = now }) in
        let (t, (e, s)) =
          create_template_document B.template_store B.parse B.is_duplicate_key new_id now t
            w.templates in
        forgetting t.name e (record w { templates = s })
  ]

  unfoldable pub update_template :
      ℕ → EmailTemplate → World B → Option TemplateServiceError × World B
  update_template now t w = elim (validate_template B.parse t) [
    | some e ↦ (some (invalid_template e), w)
    | none ↦
        let (t, (e, s)) =
          update_template_document B.template_store B.parse B.is_duplicate_key now t w.templates in
        forgetting t.name e (record w { templates = s })
  ]

  unfoldable pub delete_template : String → World B → Option TemplateServiceError × World B
  delete_template id w =
      let (t, e) = get_template_by_id B.template_store B.parse B.is_duplicate_key id w.templates in
      elim t [
        | none ↦ (elim e [ none ↦ none | some f ↦ some (store_failed f) ], w)
        | some t ↦
            let (e, s) =
              delete_template_document B.template_store B.parse B.is_duplicate_key id w.templates in
            forgetting t.name e (record w { templates = s })
      ]

  unfoldable pub get_service_stats : World B → ServiceStats
  get_service_stats w = record w.stats { templates_cached = length w.template_cache }

  -- The templates of getDefaultTemplates, or any others, are created one after the other unless they exist.
  unfoldable pub create_default_templates :
      (ℕ → String) → ℕ → List EmailTemplate → World B → Option TemplateServiceError × World B
  create_default_templates new_id now [] w = (none, w)
  create_default_templates new_id now (t ∷ l) w =
      let (e, w') = create_template (new_id (length l)) now t w in
      let skipped = create_default_templates new_id now l w in
      let rest = create_default_templates new_id now l w' in
      elim (get_by_name B.template_store B.parse B.is_duplicate_key t.name w.templates).0 [
        | some existing ↦ skipped
        | none ↦ elim e [ some f ↦ (some f, w') | none ↦ rest ]
      ]
