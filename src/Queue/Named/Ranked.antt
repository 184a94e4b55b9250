-- ===== src/Queue/Named/Ranked.antt =====
-- PushPriority and PopPriority.
use engine_api_workflow.Common.{
  ℤ, neg, String, ◌≡◌, refl, ap, ◌∙◌, Bool, true, false, ◌||◌, ◌&&◌, [], ◌∷◌, Option, some, arith,
  All, str_eq, str_eq_refl, ltb_ℤ, leb_ℤ, if_true,
}
use engine_api_workflow.Models.Value.{Value}
use engine_api_workflow.Queue.Redis.{ok, Sorted, discard, has, place, zinsert, ◌>>=◌}
use engine_api_workflow.Queue.Named.{
  zadd, apply, apply_all, first_of, rest_of, Server, NeverFails, Json, push_priority, pop_priority,
}
use engine_api_workflow.Queue.Named.Delayed.{members_of}

discard-new : (m : String) (z : Sorted) → has m (members_of z) ≡ false → discard m z ≡ z
unfolding has discard
discard-new m [] h = refl
discard-new m ((s, n) ∷ z) h =
    let other : str_eq n m ≡ false = ground (arith, h) in
    let rest : has m (members_of z) ≡ false = ground (arith, h) in
    rw other (ap (λ l. (s, n) ∷ l) (discard-new m z rest))

-- The scores of a set are above a bound.
abbrev pub AreAbove : ℤ → Sorted → Type 0
AreAbove low z = All (λ e. ltb_ℤ low e.0 ≡ true) z

place-first :
    (before : String → String → Bool) (s : ℤ) (m : String) (z : Sorted)
    → AreAbove s z
    → place before s m z ≡ (s, m) ∷ z
unfolding place
place-first before s m [] h = refl
place-first before s m ((t, n) ∷ z) (h, all) =
    let here : (ltb_ℤ s t || (leb_ℤ s t && before m n)) ≡ true = ground (arith, h) in
    if_true _ _ here

module _ (json : Json) (server : Server) (sure : NeverFails server) where
  open json use {marshal}
  open server use {Store, view, before}

  pop_priority-takes :
      (q m : String) (v : Value) (o : Option String) (u : Store)
      → (server.zpop_min q u).0 ≡ ok o
      → o ≡ some m
      → json.unmarshal m ≡ some v
      → pop_priority json server q u ≡ (ok v, (server.zpop_min q u).1)
  unfolding pop_priority ◌>>=◌
  pop_priority-takes q m v o u answered got read = rw (answered, got, read) refl

  push_priority-sends :
      (q m : String) (v : Value) (priority : ℤ) (s : Store)
      → marshal v ≡ some m
      → push_priority json server q v priority s ≡ server.exec (zadd q (neg priority) m ∷ []) s
  unfolding push_priority ◌>>=◌
  push_priority-sends q m v priority s written = rw written refl

  -- On a connection that does not fail, a value that can be written, that is not in the set yet, and whose
  -- priority is above all of the set, comes back from the next PopPriority, which leaves the set as it was.
  pub pop_priority-push_priority :
      (q m : String) (v : Value) (priority : ℤ) (s : Store)
      → marshal v ≡ some m
      → has m (members_of ((view s).sorted q)) ≡ false
      → AreAbove (neg priority) ((view s).sorted q)
      → let r = pop_priority json server q (push_priority json server q v priority s).1 in
        (r.0 ≡ ok v) × ((view r.1).sorted q ≡ (view s).sorted q)
  unfolding apply_all apply zinsert
  pop_priority-push_priority q m v priority s written new above =
      let z = (view s).sorted q in
      let command = zadd q (neg priority) m ∷ [] in
      let sent = sure.exec_answers command s in
      let u = (server.exec command s).1 in
      let goes = push_priority-sends q m v priority s written in
      let after = server.exec_effect command s sent in
      let here : (view u).sorted q ≡ (neg priority, m) ∷ z =
        ap (λ w. w.sorted q) after
        ∙ rw (str_eq_refl q) (ap (place before (neg priority) m) (discard-new m z new))
        ∙ place-first before (neg priority) m z above in
      let (o, answered) = sure.zpop_min_answers q u in
      let (right, left) = server.zpop_min_effect q u o answered in
      let got : o ≡ some m = right ∙ ap first_of here in
      let rest : (view (server.zpop_min q u).1).sorted q ≡ z =
        ap (λ w. w.sorted q) left ∙ rw (str_eq_refl q) (ap rest_of here) in
      let took = pop_priority-takes q m v o u answered got (json.unmarshal-marshal v m written) in
      rw goes (ap (λ r. r.0) took, ap (λ r. (view r.1).sorted q) took ∙ rest)
