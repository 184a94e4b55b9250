-- ===== src/Queue/Named/Fifo.antt =====
-- The named queues against first-in first-out queues of values.
use engine_api_workflow.Common.{
  str_eq_iff, ◌≢◌, ℕ, suc, String, ◌≡◌, refl, ap, ◌∙◌, subst, List, [], ◌∷◌, ◌++◌, Option, none,
  some, arith, length, str_eq, Bool-cases, Option-cases, inl, inr,
}
use engine_api_workflow.Models.Value.{Value}
use engine_api_workflow.Queue.Redis.{
  Result, ok, err, QueueError, queue_empty, marshal_failed, ◌>>=◌,
}
use engine_api_workflow.Queue.Named.{
  apply, Keys, update, lpush, del, apply_all, unsnoc, cons_fst, pop_first, last_of, Server,
  NeverFails, Json, push, pop, queue_length, peek, clear,
}

pub data Op : Type 0 where
  pushes : String → Value → Op
  pops : String → Op
  measures : String → Op
  peeks : String → Op
  clears : String → Op

pub data Answer : Type 0 where
  done : Answer
  gives : Value → Answer
  counts : ℕ → Answer
  fails : QueueError → Answer

abbrev pub answer : {A : Type 0} → (A → Answer) → Result A → Answer
answer f (ok a) = f a
answer f (err e) = fails e

-- The specification: under every name, the values that wait, the oldest first.
abbrev pub Queues : Type 0
Queues = String → List Value

module _ (json : Json) where
  open json use {marshal, unmarshal}

  abbrev pub first_answer : List Value → Answer
  first_answer [] = fails queue_empty
  first_answer (v ∷ vs) = gives v

  abbrev pub without_first : List Value → List Value
  without_first [] = []
  without_first (v ∷ vs) = vs

  abbrev pub spec_op : Op → Queues → Answer × Queues
  spec_op (pushes k v) q = elim (marshal v) [
    | none ↦ (fails marshal_failed, q)
    | some m ↦ (done, update k (q k ++ v ∷ []) q)
  ]
  spec_op (pops k) q = (first_answer (q k), update k (without_first (q k)) q)
  spec_op (measures k) q = (counts (length (q k)), q)
  spec_op (peeks k) q = (first_answer (q k), q)
  spec_op (clears k) q = (done, update k [] q)

  abbrev pub spec_run : List Op → Queues → List Answer
  spec_run [] q = []
  spec_run (op ∷ ops) q = let (a, r) = spec_op op q in a ∷ spec_run ops r

  -- The texts of the values, the newest at the left.
  abbrev Written : List Value → List String → Type 0
  Written [] l = l ≡ []
  Written (v ∷ vs) l =
      (rest : List String) × (m : String) × (unsnoc l ≡ some (rest, m))
      × (marshal v ≡ some m)
      × Written vs rest

  abbrev pub Represents : Keys → Queues → Type 0
  Represents n q = (k : String) → Written (q k) (n.lists k)

  unsnoc-cons :
      (m x : String) (l rest : List String)
      → unsnoc l ≡ some (rest, x)
      → unsnoc (m ∷ l) ≡ some (m ∷ rest, x)
  unfolding unsnoc
  unsnoc-cons m x l rest h = ap (cons_fst m) h

  Written-snoc :
      (vs : List Value) (l : List String) (v : Value) (m : String)
      → Written vs l
      → marshal v ≡ some m
      → Written (vs ++ v ∷ []) (m ∷ l)
  unfolding unsnoc
  Written-snoc [] l v m h e = ([], m, rw h refl, e, refl)
  Written-snoc (u ∷ us) l v m (rest, x, ends, written, more) e =
      (m ∷ rest, x, unsnoc-cons m x l rest ends, written, Written-snoc us rest v m more e)

  cons_fst-some : (x : String) (o : Option (List String × String)) → cons_fst x o ≢ none
  cons_fst-some x none = λ e. ground (arith, e)
  cons_fst-some x (some (ys, y)) = λ e. ground (arith, e)

  unsnoc-none : (l : List String) → unsnoc l ≡ none → l ≡ []
  unfolding unsnoc
  unsnoc-none [] h = refl
  unsnoc-none (x ∷ l) h = absurd (cons_fst-some x (unsnoc l) h)

  length-unsnoc :
      (l rest : List String) (m : String) → unsnoc l ≡ some (rest, m) → length l ≡ suc (length rest)
  unfolding unsnoc
  length-unsnoc [] rest m h = absurd (ground (arith, h))
  length-unsnoc (x ∷ l) rest m h = elim (Option-cases (unsnoc l)) [
    | inl empty ↦
        let same : [] ≡ rest = ground (arith, h, empty) in
        ap (λ z. suc (length z)) (unsnoc-none l empty) ∙ ap (λ z. suc (length z)) same
    | inr ((r, y), e) ↦
        let same : x ∷ r ≡ rest = ground (arith, h, e) in
        ap suc (length-unsnoc l r y e) ∙ ap (λ z. suc (length z)) same
  ]

  Written-length : (vs : List Value) (l : List String) → Written vs l → length l ≡ length vs
  Written-length [] l h = ap length h
  Written-length (v ∷ vs) l (rest, m, ends, written, more) =
      length-unsnoc l rest m ends ∙ ap suc (Written-length vs rest more)

  last_of-nil : last_of [] ≡ none
  unfolding unsnoc
  last_of-nil = refl

  update-Written :
      (k : String) (vs : List Value) (l : List String) (q : Queues) (f : String → List String)
      → Written vs l
      → ((j : String) → Written (q j) (f j))
      → (j : String) → Written (update k vs q j) (update k l f j)
  update-Written k vs l q f h all j = elim (Bool-cases (str_eq k j)) [
    | inl here ↦ rw here h
    | inr other ↦ rw other (all j)
  ]

  update-Written_same :
      (k : String) (vs : List Value) (q : Queues) (f : String → List String)
      → Written vs (f k)
      → ((j : String) → Written (q j) (f j))
      → (j : String) → Written (update k vs q j) (f j)
  update-Written_same k vs q f h all j = elim (Bool-cases (str_eq k j)) [
    | inl here ↦ rw here (subst (λ i. Written vs (f i)) ((str_eq_iff k j).0 here) h)
    | inr other ↦ rw other (all j)
  ]

  module _ (server : Server) (sure : NeverFails server) where
    open server use {Store, view}

    unfoldable pub run_op : Op → Store → Answer × Store
    unfolding push pop queue_length peek clear
    run_op (pushes k v) s = let (r, t) = push json server k v s in (answer (λ _. done) r, t)
    run_op (pops k) s = let (r, t) = pop json server k s in (answer gives r, t)
    run_op (measures k) s = let (r, t) = queue_length json server k s in (answer counts r, t)
    run_op (peeks k) s = let (r, t) = peek json server k s in (answer gives r, t)
    run_op (clears k) s = let (r, t) = clear json server k s in (answer (λ _. done) r, t)

    abbrev Agrees : Op → Queues → Store → Type 0
    Agrees op q s =
        ((run_op op s).0 ≡ (spec_op op q).0) × Represents (view (run_op op s).1) (spec_op op q).1

    push_refines :
        (k : String) (v : Value) (q : Queues) (s : Store)
        → Represents (view s) q
        → Agrees (pushes k v) q s
    unfolding run_op push ◌>>=◌ apply_all apply
    push_refines k v q s h = elim (Option-cases (marshal v)) [
      | inl unwritten ↦ rw (spec_op, unwritten) (refl, h)
      | inr (m, e) ↦
          let sent = sure.exec_answers (lpush k m ∷ []) s in
          let after = server.exec_effect (lpush k m ∷ []) s sent in
          rw (spec_op, e, sent, after)
            (
              refl,
              update-Written k (q k ++ v ∷ []) (m ∷ (view s).lists k) q (view s).lists
                  (Written-snoc (q k) ((view s).lists k) v m (h k) e) h,
            )
    ]

    pop_refines :
        (k : String) (q : Queues) (s : Store) → Represents (view s) q → Agrees (pops k) q s
    unfolding run_op pop ◌>>=◌ pop_first
    pop_refines k q s h = go (q k) refl (h k)
      where
        answered : (o : Option (String × String)) × ((server.brpop (k ∷ []) s).0 ≡ ok o)
        answered = sure.brpop_answers (k ∷ []) s

        effect :
            (answered.0 ≡ (pop_first (k ∷ []) (view s)).0)
            × (view (server.brpop (k ∷ []) s).1 ≡ (pop_first (k ∷ []) (view s)).1)
        effect = server.brpop_effect (k ∷ []) s answered.0 answered.1

        go : (vs : List Value) → q k ≡ vs → Written vs ((view s).lists k) → Agrees (pops k) q s
        go [] e w =
            let nothing : unsnoc ((view s).lists k) ≡ none = ap unsnoc w in
            let gone : answered.0 ≡ none = effect.0 ∙ rw (pop_first, nothing) refl in
            let still : view (server.brpop (k ∷ []) s).1 ≡ view s =
              effect.1 ∙ rw (pop_first, nothing) refl in
            rw (answered.1, gone, e, still) (refl, update-Written_same k [] q (view s).lists w h)
        go (v ∷ vs) e (rest, m, ends, written, more) =
            let got : answered.0 ≡ some (k, m) = effect.0 ∙ rw (pop_first, ends) refl in
            let left : view (server.brpop (k ∷ []) s).1
                ≡ record (view s) { lists = update k rest (view s).lists } =
              effect.1 ∙ rw (pop_first, ends) refl in
            rw (answered.1, got, e, json.unmarshal-marshal v m written, left)
              (refl, update-Written k vs rest q (view s).lists more h)

    length_refines :
        (k : String) (q : Queues) (s : Store) → Represents (view s) q → Agrees (measures k) q s
    unfolding run_op queue_length
    length_refines k q s h =
        let (n, answered) = sure.llen_answers k s in
        let (same, still) = server.llen_effect k s n answered in
        rw (answered, still) (ap counts (same ∙ Written-length (q k) ((view s).lists k) (h k)), h)

    peek_refines :
        (k : String) (q : Queues) (s : Store) → Represents (view s) q → Agrees (peeks k) q s
    unfolding run_op peek ◌>>=◌
    peek_refines k q s h = go (q k) refl (h k)
      where
        answered : (o : Option String) × ((server.lindex_last k s).0 ≡ ok o)
        answered = sure.lindex_answers k s

        effect :
            (answered.0 ≡ last_of ((view s).lists k)) × (view (server.lindex_last k s).1 ≡ view s)
        effect = server.lindex_effect k s answered.0 answered.1

        go : (vs : List Value) → q k ≡ vs → Written vs ((view s).lists k) → Agrees (peeks k) q s
        go [] e w =
            let nothing : last_of ((view s).lists k) ≡ none = ap last_of w ∙ last_of-nil in
            let gone : answered.0 ≡ none = effect.0 ∙ nothing in
            rw (answered.1, gone, e, effect.1) (refl, h)
        go (v ∷ vs) e (rest, m, ends, written, more) =
            let at : last_of ((view s).lists k) ≡ some m = rw (last_of, ends) refl in
            let got : answered.0 ≡ some m = effect.0 ∙ at in
            rw (answered.1, got, e, json.unmarshal-marshal v m written, effect.1) (refl, h)

    clear_refines :
        (k : String) (q : Queues) (s : Store) → Represents (view s) q → Agrees (clears k) q s
    unfolding run_op clear apply_all apply
    clear_refines k q s h =
        let sent = sure.exec_answers (del k ∷ []) s in
        let after = server.exec_effect (del k ∷ []) s sent in
        rw (sent, after) (refl, update-Written k [] [] q (view s).lists refl h)

    op_refines : (op : Op) (q : Queues) (s : Store) → Represents (view s) q → Agrees op q s
    op_refines (pushes k v) q s h = push_refines k v q s h
    op_refines (pops k) q s h = pop_refines k q s h
    op_refines (measures k) q s h = length_refines k q s h
    op_refines (peeks k) q s h = peek_refines k q s h
    op_refines (clears k) q s h = clear_refines k q s h

    abbrev pub run : List Op → Store → List Answer
    run [] s = []
    run (op ∷ ops) s = let (a, t) = run_op op s in a ∷ run ops t

    -- On a connection that does not fail, and from lists that represent queues of values, the
    -- answers of any sequence of Push, Pop, Length, Peek and Clear, on any names, are those of
    -- first-in first-out queues that hold the values themselves.
    pub run_refines :
        (ops : List Op) (q : Queues) (s : Store)
        → Represents (view s) q
        → run ops s ≡ spec_run ops q
    run_refines [] q s h = refl
    run_refines (op ∷ ops) q s h =
        let (same, kept) = op_refines op q s h in
        let rest = run_refines ops (spec_op op q).1 (run_op op s).1 kept in cc (same, rest)
