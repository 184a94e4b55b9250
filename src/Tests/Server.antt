-- ===== src/Tests/Server.antt =====
-- A server that keeps the database in memory and never fails.
use engine_api_workflow.Common.{
  ℤ, String, ◌≡◌, refl, sym, subst, ap, ◌∙◌, Bool, true, false, ◌||◌, List, [], ◌∷◌, Option, none,
  some, arith, Bool-cases, inl, inr, str_eq, str_eq_iff,
}
use engine_api_workflow.Queue.Redis.{
  Redis, IsReliable, ok, View, SortedKey, workflow_queue, delayed_queue, SetKey, set_at, sorted_at,
  put_sorted, has, insert, Distinct, in_range, apply_all, Sorted,
}

-- The members of a set as SMEMBERS lists them.
unfoldable pub members : List String → List String
members [] = []
members (m ∷ l) = insert m (members l)

has-insert : (x m : String) (l : List String) → has x (insert m l) ≡ has x (m ∷ l)
unfolding insert has
has-insert x m l = elim (Bool-cases (has m l)) [
  | inl there ↦ elim (Bool-cases (str_eq m x)) [
    | inl same ↦
        let e : m ≡ x = (str_eq_iff m x).0 same in
        let t : has x l ≡ true = rw⁻¹ e there in ground (arith, there, same, t)
    | inr other ↦ ground (arith, there, other)
  ]
  | inr new ↦ ground (arith, new)
]

has-members : (x : String) (l : List String) → has x (members l) ≡ has x l
unfolding members has
has-members x [] = refl
has-members x (m ∷ l) = has-insert x m (members l) ∙ ap (λ b. str_eq m x || b) (has-members x l)

insert-Distinct : (m : String) (l : List String) → Distinct l → Distinct (insert m l)
unfolding insert
insert-Distinct m l d = elim (Bool-cases (has m l)) [
  | inl there ↦ rw there d
  | inr new ↦ rw new (new, d)
]

members-Distinct : (l : List String) → Distinct (members l)
unfolding members
members-Distinct [] = tt
members-Distinct (m ∷ l) = insert-Distinct m (members l) (members-Distinct l)

abbrev pub first_of : Sorted → Option String
first_of [] = none
first_of ((score, m) ∷ l) = some m

abbrev pub rest_of : Sorted → Sorted
rest_of [] = []
rest_of ((score, m) ∷ l) = l

abbrev pub no_order : String → String → Bool
no_order a b = false

put-same : (k : SortedKey) (v : View) → put_sorted k (sorted_at k v) v ≡ v
put-same workflow_queue v = refl
put-same delayed_queue v = refl

pub zpop_none :
    (k : SortedKey) (v : View) (l : Sorted)
    → sorted_at k v ≡ l
    → ok (first_of l) ≡ ok none
    → (sorted_at k v ≡ []) × (put_sorted k (rest_of l) v ≡ v)
zpop_none k v [] e h = (e, ap (λ x. put_sorted k x v) (sym e) ∙ put-same k v)
zpop_none k v ((score, m) ∷ l) e h = absurd (ground (arith, h))

pub zpop_some :
    (k : SortedKey) (v : View) (l : Sorted) (m : String)
    → sorted_at k v ≡ l
    → ok (first_of l) ≡ ok (some m)
    → (score : ℤ) × (rest : Sorted) × (sorted_at k v ≡ (score, m) ∷ rest)
      × (put_sorted k (rest_of l) v ≡ put_sorted k rest v)
zpop_some k v [] m e h = absurd (ground (arith, h))
zpop_some k v ((score, n) ∷ l) m e h =
    let same : n ≡ m = ground (arith, h) in (score, l, e ∙ ap (λ x. (score, x) ∷ l) same, refl)

pub members_answer :
    (k : SetKey) (v : View) (ms : List String)
    → ok (members (set_at k v)) ≡ ok ms
    → Distinct ms × ((m : String) → has m ms ≡ has m (set_at k v)) × (v ≡ v)
members_answer k v ms h =
    let same : members (set_at k v) ≡ ms = ground (arith, h) in
    (
      subst Distinct same (members-Distinct (set_at k v)),
      λ m. ap (has m) (sym same) ∙ has-members m (set_at k v),
      refl,
    )

pub range_answer : (l ms : List String) (v : View) → ok l ≡ ok ms → (ms ≡ l) × (v ≡ v)
range_answer l ms v h = (ground (arith, h), refl)

unfoldable pub memory : Redis
unfolding members
memory = record {
  Store = View;
  view = λ v. v;
  before = no_order;
  exec = λ cs v. (ok tt, apply_all no_order cs v);
  zpop_min = λ k v. (ok (first_of (sorted_at k v)), put_sorted k (rest_of (sorted_at k v)) v);
  zrange_first = λ k v. (ok (first_of (sorted_at k v)), v);
  zrange_by_score = λ k low high v. (ok (in_range low high (sorted_at k v)), v);
  smembers = λ k v. (ok (members (set_at k v)), v);
  exec_effect = λ cs v h. refl;
  zpop_min_none = λ k v h. zpop_none k v (sorted_at k v) refl h;
  zpop_min_some = λ k v m h. zpop_some k v (sorted_at k v) m refl h;
  zrange_first_view = λ k v. refl;
  zrange_by_score_ok = λ k low high v ms h. range_answer (in_range low high (sorted_at k v)) ms v h;
  smembers_ok = λ k v ms h. members_answer k v ms h;
}

pub memory-IsReliable : IsReliable memory
unfolding memory
memory-IsReliable = record {
  exec_answers = λ cs v. refl;
  zpop_min_answers = λ k v. (first_of (sorted_at k v), refl);
  zrange_by_score_answers = λ k low high v. (in_range low high (sorted_at k v), refl);
  smembers_answers = λ k v. (members (set_at k v), refl);
}
