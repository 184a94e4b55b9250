-- ===== src/Models/Workflow/Tags.antt =====
-- AddTag, RemoveTag and HasTag.
use engine_api_workflow.Common.{
  ◌≡◌, refl, String, List, [], ◌∷◌, ◌++◌, true, false, arith, str_eq, str_eq_iff, if◌then◌else◌,
}
use engine_api_workflow.Models.Workflow.{
  Workflow, contains, has_tag, add_tag, drop_first, remove_tag,
}

-- Every tag stands in the list once.
abbrev pub DistinctTags : List String → Type 0
DistinctTags [] = Unit {0}
DistinctTags (t ∷ ts) = (contains t ts ≡ false) × DistinctTags ts

contains-concat :
    (x tag : String) (ts : List String)
    → contains x (ts ++ tag ∷ []) ≡ (if str_eq tag x then true else contains x ts)
unfolding contains
contains-concat x tag [] = refl
contains-concat x tag (t ∷ ts) = ground (arith, contains-concat x tag ts)

concat-DistinctTags :
    (tag : String) (ts : List String)
    → contains tag ts ≡ false
    → DistinctTags ts
    → DistinctTags (ts ++ tag ∷ [])
unfolding contains
concat-DistinctTags tag [] h d = (refl, tt)
concat-DistinctTags tag (t ∷ ts) h d = ground (
  arith,
  concat-DistinctTags tag ts,
  contains-concat t tag ts,
  str_eq_iff tag t,
  str_eq_iff t tag,
)

contains-drop_first :
    (x tag : String) (ts : List String)
    → DistinctTags ts
    → contains x (drop_first tag ts) ≡ (if str_eq tag x then false else contains x ts)
unfolding contains drop_first
contains-drop_first x tag [] d = ground arith
contains-drop_first x tag (t ∷ ts) d =
    ground
      (arith, contains-drop_first x tag ts d.1, str_eq_iff t tag, str_eq_iff tag x, str_eq_iff t x)

drop_first-DistinctTags :
    (tag : String) (ts : List String) → DistinctTags ts → DistinctTags (drop_first tag ts)
unfolding drop_first
drop_first-DistinctTags tag [] d = tt
drop_first-DistinctTags tag (t ∷ ts) d =
    ground (arith, drop_first-DistinctTags tag ts d.1, contains-drop_first t tag ts d.1)

-- Adding a tag makes exactly that tag present, and removing one makes exactly that tag absent; the
-- tags of a workflow stay distinct under both.
pub tags_lem :
    (w : Workflow) (tag x : String)
    → DistinctTags w.tags
    → (has_tag (add_tag w tag) x ≡ (if str_eq tag x then true else has_tag w x))
      × (has_tag (remove_tag w tag) x ≡ (if str_eq tag x then false else has_tag w x))
      × DistinctTags (add_tag w tag).tags
      × DistinctTags (remove_tag w tag).tags
unfolding has_tag add_tag remove_tag
tags_lem w tag x d = (
  ground (arith, contains-concat x tag w.tags, str_eq_iff tag x),
  contains-drop_first x tag w.tags d,
  ground (arith, concat-DistinctTags tag w.tags),
  drop_first-DistinctTags tag w.tags d,
)
