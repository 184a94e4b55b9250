-- ===== src/Queue/Named/Delayed.antt =====
-- ProcessDelayedJobs: the jobs that are due, and those that are not.
use engine_api_workflow.Common.{
  ℕ, ℤ, pos, String, ◌≡◌, refl, ap, ◌∙◌, false, ◌&&◌, List, [], ◌∷◌, arith, leb_ℤ, if◌then◌else◌,
  str_eq, str_eq_refl, Bool-cases, inl, inr, str_eq_iff,
}
use engine_api_workflow.Models.Value.{unix}
use engine_api_workflow.Queue.Redis.{ok, Sorted, discard, in_range, has, ◌>>=◌}
use engine_api_workflow.Queue.Named.{
  Keys, update, apply, apply_all, Server, NeverFails, Json, delayed_name, release_jobs, release,
  process_delayed_jobs,
}

-- The entries whose scores lie outside a range.
abbrev pub out_of_range : ℤ → ℤ → Sorted → Sorted
out_of_range low high [] = []
out_of_range low high ((s, m) ∷ l) =
    let rest = out_of_range low high l in
    if leb_ℤ low s && leb_ℤ s high then rest else (s, m) ∷ rest

-- The list after the jobs were pushed one by one.
abbrev pub pushed : List String → List String → List String
pushed [] l = l
pushed (m ∷ ms) l = pushed ms (m ∷ l)

abbrev pub members_of : Sorted → List String
members_of [] = []
members_of ((s, m) ∷ l) = m ∷ members_of l

-- A sorted set has each member once.
abbrev pub DistinctMembers : Sorted → Type 0
DistinctMembers [] = Unit
DistinctMembers ((s, m) ∷ l) = (has m (members_of l) ≡ false) × DistinctMembers l

abbrev discard_all : List String → Sorted → Sorted
discard_all [] z = z
discard_all (m ∷ ms) z = discard_all ms (discard m z)

has-in_range :
    (x : String) (low high : ℤ) (z : Sorted)
    → has x (members_of z) ≡ false
    → has x (in_range low high z) ≡ false
unfolding has in_range
has-in_range x low high [] h = refl
has-in_range x low high ((s, m) ∷ l) h = ground (arith, has-in_range x low high l)

discard_all-keeps :
    (s : ℤ) (x : String) (ms : List String) (z : Sorted)
    → has x ms ≡ false
    → discard_all ms ((s, x) ∷ z) ≡ (s, x) ∷ discard_all ms z
unfolding has discard
discard_all-keeps s x [] z h = refl
discard_all-keeps s x (m ∷ ms) z h =
    let rest : has x ms ≡ false = ground (arith, h) in
    let other : str_eq x m ≡ false = ground (arith, h, str_eq_iff x m, str_eq_iff m x) in
    rw other (discard_all-keeps s x ms (discard m z) rest)

discard_all-in_range :
    (low high : ℤ) (z : Sorted)
    → DistinctMembers z
    → discard_all (in_range low high z) z ≡ out_of_range low high z
unfolding in_range discard
discard_all-in_range low high [] d = refl
discard_all-in_range low high ((s, m) ∷ l) (new, d) =
    let ih = discard_all-in_range low high l d in
    elim (Bool-cases (leb_ℤ low s && leb_ℤ s high)) [
      | inl due ↦
          let self : discard m ((s, m) ∷ l) ≡ l = rw (str_eq_refl m) refl in
          rw due (ap (discard_all (in_range low high l)) self ∙ ih)
      | inr later ↦ rw later (
          discard_all-keeps s m (in_range low high l) l (has-in_range m low high l new)
          ∙ ap (λ r. (s, m) ∷ r) ih)
    ]

module _ (json : Json) (server : Server) where
  open server use {Store, view, before}

  release_jobs-effect :
      (q : String) (ms : List String) (v : Keys)
      → let w = apply_all before (release_jobs json server q ms) v in
        (w.lists q ≡ pushed ms (v.lists q))
        × (w.sorted (delayed_name json server q)
            ≡ discard_all ms (v.sorted (delayed_name json server q)))
  unfolding release_jobs apply_all apply
  release_jobs-effect q [] v = (refl, refl)
  release_jobs-effect q (m ∷ ms) v =
      let d = delayed_name json server q in
      let w : Keys = record {
        lists = update q (m ∷ v.lists q) v.lists;
        sorted = update d (discard m (v.sorted d)) v.sorted;
      } in
      let ih = release_jobs-effect q ms w in
      let list : w.lists q ≡ m ∷ v.lists q = rw (str_eq_refl q) refl in
      let set : w.sorted d ≡ discard m (v.sorted d) = rw (str_eq_refl d) refl in
      (ih.0 ∙ ap (pushed ms) list, ih.1 ∙ ap (discard_all ms) set)

  Moved : String → List String → Keys → Keys → Type 0
  Moved q ms v w =
      (w.lists q ≡ pushed ms (v.lists q))
      × (w.sorted (delayed_name json server q)
          ≡ discard_all ms (v.sorted (delayed_name json server q)))

  release-effect :
      (sure : NeverFails server) (q : String) (ms : List String) (s : Store)
      → let r = release json server q ms s in (r.0 ≡ ok tt) × Moved q ms (view s) (view r.1)
  unfolding release Moved
  release-effect sure q [] s = (refl, (refl, refl))
  release-effect sure q (m ∷ ms) s =
      let jobs = release_jobs json server q (m ∷ ms) in
      let effect = server.exec_effect jobs s (sure.exec_answers jobs s) in
      let (list, set) = release_jobs-effect q (m ∷ ms) (view s) in
      (
        sure.exec_answers jobs s,
        (
          ap (λ v. v.lists q) effect ∙ list,
          ap (λ v. v.sorted (delayed_name json server q)) effect ∙ set,
        ),
      )

  -- On a connection that does not fail, ProcessDelayedJobs takes every job whose time is not past
  -- the present out of the delayed set, leaves the others there, and pushes the jobs it took, the
  -- earliest first, onto the queue.
  pub process_delayed_jobs-moves :
      (sure : NeverFails server) (q : String) (now : ℕ) (s : Store)
      → DistinctMembers ((view s).sorted (delayed_name json server q))
      → let r = process_delayed_jobs json server q now s in
        let z = (view s).sorted (delayed_name json server q) in
        (r.0 ≡ ok tt)
        × ((view r.1).lists q ≡ pushed (in_range (pos 0) (pos (unix now)) z) ((view s).lists q))
        × ((view r.1).sorted (delayed_name json server q) ≡ out_of_range (pos 0) (pos (unix now)) z)
  unfolding process_delayed_jobs ◌>>=◌ Moved
  process_delayed_jobs-moves sure q now s d =
      let k = delayed_name json server q in
      let z = (view s).sorted k in
      let (ms, answers) = sure.zrange_answers k (pos 0) (pos (unix now)) s in
      let (read, kept) = server.zrange_effect k (pos 0) (pos (unix now)) s ms answers in
      let t = (server.zrange_by_score k (pos 0) (pos (unix now)) s).1 in
      let same : process_delayed_jobs json server q now s ≡ release json server q ms t =
        rw answers refl in
      let (returns, (list, set)) = release-effect sure q ms t in
      let due = in_range (pos 0) (pos (unix now)) z in
      (
        ap (λ r. r.0) same ∙ returns,
        ap (λ r. (view r.1).lists q) same
            ∙ list
            ∙ ap (λ v. pushed ms (v.lists q)) kept
            ∙ ap (λ l. pushed l ((view s).lists q)) read,
        ap (λ r. (view r.1).sorted k) same
            ∙ set
            ∙ ap (λ v. discard_all ms (v.sorted k)) kept
            ∙ ap (λ l. discard_all l z) read
            ∙ discard_all-in_range (pos 0) (pos (unix now)) z d,
      )
