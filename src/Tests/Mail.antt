-- ===== src/Tests/Mail.antt =====
-- The service of e-mails on collections in memory, with a mail service that refuses one address.
use engine_api_workflow.Common.{
  All-map, str_eq_refl, sym, refl, ◌||◌, String, subst, ℕ, ◌+◌, ◌≡◌, Bool, true, false, List, [],
  ◌∷◌, none, some, All, str_eq, any, arith, if◌then◌else◌, Bool-cases, inl, inr,
}
use engine_api_workflow.Models.Notification.{EmailNotification}
use engine_api_workflow.Models.Template.{EmailTemplate}
use engine_api_workflow.Repository.{Collection, IsLawful, Found, found, no_documents, counted}
use engine_api_workflow.Repository.Notifications.{has_id}
use engine_api_workflow.Services.Delivery.{FindsHeld}
use engine_api_workflow.Services.{Backend, World, EmailService, Message, ServiceStats}

module _ {A : Type 0} where
  abbrev pub first_passing : (A → Bool) → List A → Found A
  first_passing p [] = no_documents
  first_passing p (a ∷ l) = let rest = first_passing p l in if p a then found a else rest

  abbrev pub change_first : (A → Bool) → (A → A) → List A → ℕ × List A
  change_first p f [] = (0, [])
  change_first p f (a ∷ l) =
      let rest = change_first p f l in if p a then (1, f a ∷ l) else (rest.0, a ∷ rest.1)

  abbrev pub delete_first : (A → Bool) → List A → ℕ × List A
  delete_first p [] = (0, [])
  delete_first p (a ∷ l) =
      let rest = delete_first p l in if p a then (1, l) else (rest.0, a ∷ rest.1)

  abbrev pub delete_all : (A → Bool) → List A → ℕ × List A
  delete_all p [] = (0, [])
  delete_all p (a ∷ l) =
      let rest = delete_all p l in if p a then (rest.0 + 1, rest.1) else (rest.0, a ∷ rest.1)

  abbrev pub all_passing : (A → Bool) → List A → List A
  all_passing p [] = []
  all_passing p (a ∷ l) = let rest = all_passing p l in if p a then a ∷ rest else rest

  pub change_first-All :
      (P : A → Type 0) (p : A → Bool) (f : A → A) (l : List A)
      → All P l
      → ((a : A) → P a → P (f a))
      → All P (change_first p f l).1
  change_first-All P p f [] all keep = tt
  change_first-All P p f (a ∷ l) (h, all) keep =
      let rest = change_first-All P p f l all keep in
      elim (Bool-cases (p a)) [ inl yes' ↦ rw yes' (keep a h, all) | inr no' ↦ rw no' (h, rest) ]

  pub delete_first-All :
      (P : A → Type 0) (p : A → Bool) (l : List A) → All P l → All P (delete_first p l).1
  delete_first-All P p [] all = tt
  delete_first-All P p (a ∷ l) (h, all) =
      let rest = delete_first-All P p l all in
      elim (Bool-cases (p a)) [ inl yes' ↦ rw yes' all | inr no' ↦ rw no' (h, rest) ]

  pub delete_all-All :
      (P : A → Type 0) (p : A → Bool) (l : List A) → All P l → All P (delete_all p l).1
  delete_all-All P p [] all = tt
  delete_all-All P p (a ∷ l) (h, all) =
      let rest = delete_all-All P p l all in
      elim (Bool-cases (p a)) [ inl yes' ↦ rw yes' rest | inr no' ↦ rw no' (h, rest) ]

  pub all_passing-All :
      (P : A → Type 0) (p : A → Bool) (l : List A) → All P l → All P (all_passing p l)
  all_passing-All P p [] all = tt
  all_passing-All P p (a ∷ l) (h, all) =
      let rest = all_passing-All P p l all in
      elim (Bool-cases (p a)) [ inl yes' ↦ rw yes' (h, rest) | inr no' ↦ rw no' rest ]

  pub all_passing-passes : (p : A → Bool) (l : List A) → All (λ a. p a ≡ true) (all_passing p l)
  all_passing-passes p [] = tt
  all_passing-passes p (a ∷ l) =
      let rest = all_passing-passes p l in
      elim (Bool-cases (p a)) [ inl yes' ↦ rw yes' (yes', rest) | inr no' ↦ rw no' rest ]

  pub first_passing-All :
      (P : A → Type 0) (p : A → Bool) (l : List A) (a : A)
      → All P l
      → first_passing p l ≡ found a
      → P a
  first_passing-All P p [] a all e = absurd (ground (arith, e))
  first_passing-All P p (b ∷ l) a (h, all) e = elim (Bool-cases (p b)) [
    | inl yes' ↦ subst P (ground (arith, e, yes')) h
    | inr no' ↦ first_passing-All P p l a all (ground (arith, e, no'))
  ]

abbrev pub in_memory : (A : Type 0) → Collection A
in_memory A = record {
  State = List A;
  insert_one = λ a l. (none, a ∷ l);
  find_one = λ p o l. first_passing p l;
  update_one = λ p f l. (counted (change_first p f l).0, (change_first p f l).1);
  delete_one = λ p l. (counted (delete_first p l).0, (delete_first p l).1);
  delete_many = λ p l. (counted (delete_all p l).0, (delete_all p l).1);
  find = λ p o limit l. some (all_passing p l);
}

pub some-inj : {A : Type 0} (a b : A) → some a ≡ some b → a ≡ b
some-inj a b e = ground (arith, e)

abbrev pub in_memory-IsLawful : (A : Type 0) → IsLawful (in_memory A)
in_memory-IsLawful A = record {
  Every = All;
  insert_one-Every = λ P a l all h. (h, all);
  update_one-Every = change_first-All;
  delete_one-Every = delete_first-All;
  delete_many-Every = delete_all-All;
  find_one-Every = λ P p o l a all e. first_passing-All P p l a all e;
  find-Every = λ P p o limit l m all e.
      subst (All P) (some-inj (all_passing p l) m e) (all_passing-All P p l all);
  find-passes = λ p o limit l m e.
      subst (All (λ a. p a ≡ true)) (some-inj (all_passing p l) m e) (all_passing-passes p l);
}

-- A notification with the ID.
abbrev pub HoldsId : String → List EmailNotification → Type 0
HoldsId id l = any (has_id id) l ≡ true

pub change_first-finds :
    (p : EmailNotification → Bool) (f : EmailNotification → EmailNotification)
    (l : List EmailNotification)
    → any p l ≡ true
    → counted (change_first p f l).0 ≡ counted 1
change_first-finds p f [] h = absurd (ground (arith, h))
change_first-finds p f (n ∷ l) h = elim (Bool-cases (p n)) [
  | inl yes' ↦ rw yes' refl
  | inr no' ↦
      let rest : any p l ≡ true = ground (arith, h, no') in rw no' (change_first-finds p f l rest)
]

pub change_first-HoldsId :
    (id : String) (p : EmailNotification → Bool) (f : EmailNotification → EmailNotification)
    (l : List EmailNotification)
    → ((n : EmailNotification) → (f n).id ≡ n.id)
    → HoldsId id l
    → HoldsId id (change_first p f l).1
change_first-HoldsId id p f [] same h = h
change_first-HoldsId id p f (n ∷ l) same h = elim (Bool-cases (p n)) [
  | inl yes' ↦ rw yes' (subst (λ i. (str_eq i id || any (has_id id) l) ≡ true) (sym (same n)) h)
  | inr no' ↦ elim (Bool-cases (str_eq n.id id)) [
    | inl here ↦ rw no' (rw here refl)
    | inr there ↦
        let rest : any (has_id id) l ≡ true = ground (arith, h, there) in
        rw no' (rw there (change_first-HoldsId id p f l same rest))
  ]
]

pub All-HoldsId : (l : List EmailNotification) → All (λ n. HoldsId n.id l) l
All-HoldsId [] = tt
All-HoldsId (n ∷ l) = (
  rw (str_eq_refl n.id) refl,
  All-map (λ m h. or_true (str_eq n.id m.id) (any (has_id m.id) l) h) l (All-HoldsId l),
)
  where
    or_true : (a b : Bool) → b ≡ true → (a || b) ≡ true
    or_true true b h = refl
    or_true false b h = h

abbrev pub in_memory-FindsHeld : FindsHeld (in_memory EmailNotification)
in_memory-FindsHeld = record {
  Held = HoldsId;
  update_one-finds = λ id f l h. change_first-finds (has_id id) f l h;
  update_one-Held = change_first-HoldsId;
  find-Held = λ p o limit l m e.
      subst (All (λ n. HoldsId n.id l)) (some-inj (all_passing p l) m e)
        (all_passing-All (λ n. HoldsId n.id l) p l (All-HoldsId l));
}

-- The messages that were taken. One address cannot be reached.
abbrev pub post_office : EmailService
post_office = record {
  State = List Message;
  send = λ m l.
      if any (λ a. str_eq a "lost@mail.org") m.to
      then (some "dial tcp: i/o timeout", l)
      else (none, m ∷ l);
}

abbrev pub backend : Backend
backend = record {
  notification_store = in_memory EmailNotification;
  template_store = in_memory EmailTemplate;
  mailer = post_office;
  parse = λ s. none;
  is_duplicate_key = λ s. false;
  render_text = λ s fields. some s;
  render_html = λ s fields. some s;
}

abbrev pub no_stats : ServiceStats
no_stats = record {
  emails_sent_today = 0;
  emails_failed_today = 0;
  last_processing_time = 0;
  processing_duration = 0;
  templates_cached = 0;
  active_templates = 0;
}

abbrev pub world_of : List EmailNotification → World backend
world_of l = record {
  notifications = l;
  templates = [];
  mail = [];
  template_cache = [];
  is_processing = false;
  stats = no_stats;
}
