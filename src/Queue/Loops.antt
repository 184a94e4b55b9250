-- ===== src/Queue/Loops.antt =====
-- The loops over the members of a collection keep the invariant: each round finds its member still
-- there.
use engine_api_workflow.Common.{
  ℕ, ◌+◌, ◌≡◌, refl, ap, ◌≤◌, ℤ, String, List, [], ◌∷◌, Bool, true, Option, none, some, arith,
  str_eq, str_eq_iff, if◌then◌else◌, Option-cases, Bool-cases, inl, inr, ltb,
}
use engine_api_workflow.Queue.Redis.{
  Sorted, View, apply_all, discard, remove, has, in_range, Distinct,
}
use engine_api_workflow.Queue.Item.{QueueItem, Codec}
use engine_api_workflow.Queue.Pipelines.{
  release_commands, release_one, release_all, as_released, as_requeued, as_timed_out, expire_one,
  clean_one, clean_all, is_stale,
}
use engine_api_workflow.Queue.Census.{zhas}
use engine_api_workflow.Queue.Balance.{IsBalanced}
use engine_api_workflow.Queue.Balance.Transitions.{
  release_commands-IsBalanced, expire_retry-IsBalanced, expire_fail-IsBalanced,
}
use engine_api_workflow.Queue.Rules.{apply_all-append, apply_all-nil}

abbrev one_if : Bool → ℕ
one_if b = if b then 1 else 0

-- How often a text stands in a list.
pub tally : String → List String → ℕ
tally t [] = 0
tally t (m ∷ l) = one_if (str_eq m t) + tally t l

pub ztally : String → Sorted → ℕ
ztally t [] = 0
ztally t ((s, m) ∷ l) = one_if (str_eq m t) + ztally t l

zhas_of_ztally : (m : String) (l : Sorted) → 1 ≤ ztally m l → zhas m l ≡ true
unfolding ztally zhas
zhas_of_ztally m [] h = absurd (omega arith)
zhas_of_ztally m ((s, n) ∷ l) h = ground (arith, zhas_of_ztally m l)

has_of_tally : (m : String) (l : List String) → 1 ≤ tally m l → has m l ≡ true
unfolding tally has
has_of_tally m [] h = absurd (omega arith)
has_of_tally m (n ∷ l) h = ground (arith, has_of_tally m l)

ztally-discard :
    (t m : String) (l : Sorted) → ztally t l ≤ ztally t (discard m l) + one_if (str_eq m t)
unfolding ztally discard
ztally-discard t m [] = omega arith
ztally-discard t m ((s, n) ∷ l) = ground (arith, ztally-discard t m l, str_eq_iff n m)

tally-remove :
    (t m : String) (l : List String) → tally t l ≤ tally t (remove m l) + one_if (str_eq m t)
unfolding tally remove
tally-remove t m [] = omega arith
tally-remove t m (n ∷ l) = ground (arith, tally-remove t m l, str_eq_iff n m)

pub tally-in_range :
    (t : String) (low high : ℤ) (l : Sorted) → tally t (in_range low high l) ≤ ztally t l
unfolding tally ztally in_range
tally-in_range t low high [] = omega arith
tally-in_range t low high ((s, m) ∷ l) = ground (arith, tally-in_range t low high l)

tally_of_Distinct : (t : String) (ms : List String) → Distinct ms → tally t ms ≤ one_if (has t ms)
unfolding tally has
tally_of_Distinct t [] d = omega arith
tally_of_Distinct t (m ∷ ms) d = ground (arith, tally_of_Distinct t ms d.1, str_eq_iff m t)

tally_of_has : (t : String) (l : List String) → one_if (has t l) ≤ tally t l
unfolding tally has
tally_of_has t [] = omega arith
tally_of_has t (m ∷ l) = ground (arith, tally_of_has t l)

-- Members that are listed once each, all of them in the set, stand there as often.
pub tally-le :
    (t : String) (ms l : List String) → Distinct ms → has t ms ≡ has t l → tally t ms ≤ tally t l
tally-le t ms l d h = omega (arith, tally_of_Distinct t ms d, tally_of_has t l, ap one_if h)

module _ (codec : Codec) (before : String → String → Bool) where
  open codec use {unmarshal, marshal}

  release_one-IsBalanced :
      (m : String) (v : View)
      → zhas m v.later ≡ true
      → IsBalanced codec v
      → IsBalanced codec (apply_all before (release_one codec m) v)
  unfolding apply_all release_one
  release_one-IsBalanced m v here b = go (unmarshal m) refl
    where
      write :
          (i : QueueItem)
          → unmarshal m ≡ some i
          → (o : Option String) → marshal (as_released i) ≡ o
          → IsBalanced codec
              (apply_all before (elim o [ none ↦ [] | some n ↦ release_commands i m n ]) v)
      write i e none w = b
      write i e (some n) w =
          release_commands-IsBalanced codec before m n i (as_released i) v e w refl refl b here

      go :
          (o : Option QueueItem)
          → unmarshal m ≡ o
          → IsBalanced codec (
              apply_all before
                (elim o [
                  | none ↦ []
                  | some i ↦ elim (marshal (as_released i)) [
                    | none ↦ []
                    | some n ↦ release_commands i m n
                  ]
                ])
                v)
      go none e = b
      go (some i) e = write i e (marshal (as_released i)) refl

  release_one-later :
      (t m : String) (v : View)
      → ztally t v.later
        ≤ ztally t (apply_all before (release_one codec m) v).later + one_if (str_eq m t)
  unfolding apply_all release_one
  release_one-later t m v = ground (arith, ztally-discard t m v.later)

  pub release_all-IsBalanced :
      (ms : List String) (v : View)
      → ((t : String) → tally t ms ≤ ztally t v.later)
      → IsBalanced codec v
      → IsBalanced codec (apply_all before (release_all codec ms) v)
  unfolding release_all apply_all tally
  release_all-IsBalanced [] v there b = b
  release_all-IsBalanced (m ∷ ms) v there b =
      let here = zhas_of_ztally m v.later (ground (arith, there m, str_eq_iff m m)) in
      let w = apply_all before (release_one codec m) v in
      rw (apply_all-append before (release_one codec m) (release_all codec ms) v) (
        release_all-IsBalanced ms w (λ t. omega (arith, there t, release_one-later t m v))
          (release_one-IsBalanced m v here b))

  expire_one-IsBalanced :
      (now : ℕ) (i : QueueItem) (m n : String) (v : View)
      → unmarshal m ≡ some i
      → marshal (as_requeued i) ≡ some n
      → has m v.running ≡ true
      → IsBalanced codec v
      → IsBalanced codec (apply_all before (expire_one codec now i m n).0 v)
  expire_one-IsBalanced now i m n v e w here b =
      elim (Bool-cases (ltb (i.retry_count + 1) i.max_retries)) [
        | inl again ↦
            rw again
              (expire_retry-IsBalanced codec before m n i (as_requeued i) v e w refl refl b here)
        | inr over ↦
            let (f, wf) =
              codec.marshal_payload (as_requeued i) (as_timed_out now (as_requeued i)) n refl w in
            rw (over, wf)
              (expire_fail-IsBalanced codec before m f i (as_timed_out now (as_requeued i)) v e wf
                refl refl b here)
      ]

  clean_one-IsBalanced :
      (timeout now : ℕ) (m : String) (v : View)
      → has m v.running ≡ true
      → IsBalanced codec v
      → IsBalanced codec (apply_all before (clean_one codec timeout now m).0 v)
  unfolding clean_one
  clean_one-IsBalanced timeout now m v here b = elim (Option-cases (unmarshal m)) [
    | inl e ↦ rw (e, clean_one) (rw apply_all-nil b)
    | inr (i, e) ↦ elim (Bool-cases (is_stale codec timeout now i)) [
      | inr young ↦ rw (e, clean_one) (rw young (rw apply_all-nil b))
      | inl stale ↦ elim (Option-cases (marshal (as_requeued i))) [
        | inl w ↦ rw (e, clean_one) (rw (stale, w) (rw apply_all-nil b))
        | inr (n, w) ↦
            rw (e, clean_one) (rw (stale, w) (expire_one-IsBalanced now i m n v e w here b))
      ]
    ]
  ]

  clean_one-running :
      (t : String) (timeout now : ℕ) (m : String) (v : View)
      → tally t v.running
        ≤ tally t (apply_all before (clean_one codec timeout now m).0 v).running
          + one_if (str_eq m t)
  unfolding apply_all clean_one
  clean_one-running t timeout now m v = ground (arith, tally-remove t m v.running)

  pub clean_all-IsBalanced :
      (timeout now : ℕ) (ms : List String) (v : View)
      → ((t : String) → tally t ms ≤ tally t v.running)
      → IsBalanced codec v
      → IsBalanced codec (apply_all before (clean_all codec timeout now ms).0 v)
  unfolding clean_all apply_all tally
  clean_all-IsBalanced timeout now [] v there b = b
  clean_all-IsBalanced timeout now (m ∷ ms) v there b =
      let here = has_of_tally m v.running (ground (arith, there m, str_eq_iff m m)) in
      let w = apply_all before (clean_one codec timeout now m).0 v in
      rw
        (apply_all-append before (clean_one codec timeout now m).0
          (clean_all codec timeout now ms).0 v)
        (clean_all-IsBalanced timeout now ms w
          (λ t. omega (arith, there t, clean_one-running t timeout now m v))
          (clean_one-IsBalanced timeout now m v here b))
