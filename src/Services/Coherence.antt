-- ===== src/Services/Coherence.antt =====
-- What the cache of templates of internal/services/notification_service.go answers after its operations.
use engine_api_workflow.Common.{
  ◌∙◌, ap, sym, subst, inr, inl, ℕ, ◌≡◌, refl, String, false, [], ◌∷◌, Option, none, some,
  Option-cases, Bool-cases, str_eq, str_eq_iff, str_eq_refl, arith,
}
use engine_api_workflow.Models.Template.{EmailTemplate, validate_template}
use engine_api_workflow.Repository.Templates.{
  TemplateFailure, get_by_name, update_template_document,
}
use engine_api_workflow.Services.{Backend, World}
use engine_api_workflow.Services.Cache.{
  looked_up, store_failed, invalid_template, TemplateCache, get_template_from_cache,
  invalidate_template_cache, add_template_to_cache, get_template_by_name, update_template,
}

invalidate_same :
    (name : String) (c : TemplateCache)
    → get_template_from_cache name (invalidate_template_cache name c) ≡ none
unfolding get_template_from_cache invalidate_template_cache
invalidate_same name [] = refl
invalidate_same name ((k, t) ∷ c) =
    let rest = invalidate_same name c in
    elim (Bool-cases (str_eq k name)) [
      | inl same ↦ rw same rest
      | inr other ↦ rw (other, get_template_from_cache) (rw other rest)
    ]

invalidate_other :
    (name other : String) (c : TemplateCache)
    → str_eq name other ≡ false
    → get_template_from_cache other (invalidate_template_cache name c)
      ≡ get_template_from_cache other c
unfolding get_template_from_cache invalidate_template_cache
invalidate_other name other [] h = refl
invalidate_other name other ((k, t) ∷ c) h =
    let rest = invalidate_other name other c h in
    elim (Bool-cases (str_eq k name)) [
      | inl same ↦
          let apart = subst (λ x. str_eq x other ≡ false) (sym ((str_eq_iff k name).0 same)) h in
          rw same (rw apart rest)
      | inr kept ↦ elim (Bool-cases (str_eq k other)) [
        | inl hit ↦ rw (kept, get_template_from_cache) (rw hit refl)
        | inr miss ↦ rw (kept, get_template_from_cache) (rw miss rest)
      ]
    ]

-- The cache is a map: after a template was put into it, its name gives that template and every other
-- name what it gave before; after a name was invalidated, it gives nothing and every other name what
-- it gave before.
pub cache_lem :
    (t : EmailTemplate) (name other : String) (c : TemplateCache)
    → str_eq t.name other ≡ false
    → str_eq name other ≡ false
    → (get_template_from_cache t.name (add_template_to_cache t c) ≡ some t)
      × (get_template_from_cache other (add_template_to_cache t c)
          ≡ get_template_from_cache other c)
      × (get_template_from_cache name (invalidate_template_cache name c) ≡ none)
      × (get_template_from_cache other (invalidate_template_cache name c)
          ≡ get_template_from_cache other c)
unfolding add_template_to_cache get_template_from_cache
cache_lem t name other c h h' = (
  rw (str_eq_refl t.name) refl,
  rw h (invalidate_other t.name other c h),
  invalidate_same name c,
  invalidate_other name other c h',
)

module _ (B : Backend) (name : String) (w : World B) where
  -- A name that is not in the cache is answered from the database.
  get_template_by_name-missed :
      get_template_from_cache name w.template_cache ≡ none
      → (get_template_by_name B name w).0.0
        ≡ (get_by_name B.template_store B.parse B.is_duplicate_key name w.templates).0
  unfolding get_template_by_name get_by_name
  get_template_by_name-missed h =
      rw (h, get_template_by_name)
        (go (get_by_name B.template_store B.parse B.is_duplicate_key name w.templates))
    where
      go : (r : Option EmailTemplate × Option TemplateFailure) → (looked_up B r w).0.0 ≡ r.0
      go (some t, e) = refl
      go (none, e) = refl

  get_template_by_name-held :
      (u : EmailTemplate)
      → get_template_from_cache name w.template_cache ≡ some u
      → (get_template_by_name B name w).0 ≡ (some u, none)
  unfolding get_template_by_name
  get_template_by_name-held u h = rw (h, get_template_by_name) refl

-- After UpdateTemplate changed a template without an error, its name is answered from the database; any
-- other name that is in the cache is answered with what the cache held, the template's former name
-- included.
pub update_template-cached :
    (B : Backend) (now : ℕ) (t u : EmailTemplate) (other : String) (w w' : World B)
    → update_template B now t w ≡ (none, w')
    → str_eq t.name other ≡ false
    → get_template_from_cache other w.template_cache ≡ some u
    → ((get_template_by_name B t.name w').0.0
        ≡ (get_by_name B.template_store B.parse B.is_duplicate_key t.name w'.templates).0)
      × ((get_template_by_name B other w').0 ≡ (some u, none))
unfolding update_template update_template_document invalidate_template_cache
update_template-cached B now t u other w w' h different held =
    elim (Option-cases (validate_template B.parse t)) [
      | inr (e, bad) ↦
          let refused' : (update_template B now t w).0 ≡ some (invalid_template e) =
            rw (bad, update_template) refl in
          absurd (ground (arith, refused', ap (λ p. p.0) h))
      | inl good ↦ elim (Option-cases stored.1.0) [
        | inr (e, bad) ↦
            let refused' : (update_template B now t w).0 ≡ some (store_failed e) =
              rw (good, update_template) (rw bad refl) in
            absurd (ground (arith, refused', ap (λ p. p.0) h))
        | inl done' ↦
            let result : update_template B now t w ≡ (none, after) =
              rw (good, update_template) (rw done' refl) in
            subst Answers (ap (λ p. p.1) (sym result ∙ h)) (
              get_template_by_name-missed B t.name after (invalidate_same t.name w.template_cache),
              get_template_by_name-held B other after u
                  (invalidate_other t.name other w.template_cache different ∙ held),
            )
      ]
    ]
  where
    stored : EmailTemplate × (Option TemplateFailure × B.template_store.State)
    stored = update_template_document B.template_store B.parse B.is_duplicate_key now t w.templates

    after : World B
    after = record w {
      templates = stored.1.1;
      template_cache = invalidate_template_cache t.name w.template_cache;
    }

    Answers : World B → Type 0
    Answers v =
        ((get_template_by_name B t.name v).0.0
          ≡ (get_by_name B.template_store B.parse B.is_duplicate_key t.name v.templates).0)
        × ((get_template_by_name B other v).0 ≡ (some u, none))
