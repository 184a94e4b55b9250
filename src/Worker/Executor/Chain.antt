-- ===== src/Worker/Executor/Chain.antt =====
-- A workflow whose steps lead one to the next runs through.
use mathlib.Core.List.{append-nil, append_assoc}
use engine_api_workflow.Common.{
  if◌then◌else◌, subst, leb, List-cases, inl, inr, ℕ, zero, suc, ◌+◌, ◌≡◌, ◌≤◌, ◌<◌, refl, sym, ap,
  ◌∙◌, String, Bool, true, false, none, some, List, [], ◌∷◌, ◌++◌, map, All, arith, length, str_eq,
  pos,
}
use engine_api_workflow.Models.Workflow.{WorkflowStep, Workflow, find_step}
use engine_api_workflow.Worker.Executor.{
  returns, ExecutionContext, Action, WorkflowExecutor, World, get_next_step_id,
}
use engine_api_workflow.Worker.Executor.Actions.{execute_step}
use engine_api_workflow.Worker.Executor.Delays.{max_retries, rounds}
use engine_api_workflow.Worker.Executor.Steps.{
  conclude_last, Run, continues, ExecutionResult, succeeded, attempt_step, check_context,
  record_step, keep_outputs, next_id, conclude, run_step, take_step, run_steps, max_steps,
  check_count, start_run, finish, execute_workflow,
}

abbrev head_id : List WorkflowStep → String
head_id [] = ""
head_id (s ∷ ss) = s.id

map-snoc {ℓ κ} :
    {A : Type ℓ} {B : Type κ} (f : A → B) (xs : List A) (x : A)
    → map f (xs ++ x ∷ []) ≡ map f xs ++ f x ∷ []
map-snoc f [] x = refl
map-snoc f (y ∷ ys) x = ap (λ l. f y ∷ l) (map-snoc f ys x)

when_true {ℓ} : {A : Type ℓ} (x y : A) (b : Bool) → b ≡ true → (if b then x else y) ≡ x
when_true x y b h = rw h refl

-- Each step's next one is the one that follows it, and the last has none.
abbrev pub Chain : List WorkflowStep → Type 0
Chain [] = Unit
Chain (s ∷ ss) = (get_next_step_id s ≡ head_id ss) × Chain ss

module _ (world : World) (e : WorkflowExecutor world.State) (w : Workflow) where
  open world use {State, is_done}

  -- An enabled step, found under its ID, whose action succeeds and leaves the next step open.
  pub record IsReady (step : WorkflowStep) : Type 0 where
    pub enabled : step.is_enabled ≡ true
    pub named : str_eq step.id "" ≡ false
    pub found : find_step step.id w.steps ≡ some step
    pub retries : (n : ℕ) × (max_retries w step ≡ pos n)
    pub acts :
        (ctx : ExecutionContext) (s : State)
        → (a : Action State) × (execute_step world e step ctx s ≡ returns a)
          × (a.failure ≡ none)
          × (a.result.success ≡ true)
          × (a.result.next_step_id ≡ "")

  abbrev executed : Run State → List String
  executed r = map (λ x. x.step_id) r.steps_executed

  abbrev Moves : WorkflowStep → Run State → Run State → Type 0
  Moves step r r' =
      (r'.success ≡ r.success)
      × (executed r' ≡ executed r ++ step.id ∷ [])
      × (r'.current_step_id ≡ get_next_step_id step)
      × (r'.count ≡ suc r.count)

  abbrev moved : WorkflowStep → Action State → Run State → Run State
  moved step a r = record (keep_outputs world e w step a (record_step world e w step 0 a r)) {
    current_step_id = get_next_step_id step;
    count = r.count + 1;
  }

  attempt_step-first :
      (n : ℕ) (step : WorkflowStep) (ctx : ExecutionContext) (s : State) (a : Action State)
      → execute_step world e step ctx s ≡ returns a
      → a.failure ≡ none
      → a.result.success ≡ true
      → attempt_step world e w (suc n) 0 step ctx s ≡ returns (some (0, a))
  unfolding attempt_step
  attempt_step-first n step ctx s a acted fine well =
      let good : succeeded world e w a ≡ true = rw (fine, well) refl in
      rw (attempt_step, acted, good) refl

  conclude-moved :
      (step : WorkflowStep) (a : Action State) (r : Run State)
      → a.failure ≡ none
      → a.result.success ≡ true
      → a.result.next_step_id ≡ ""
      → conclude world e w step 0 a r ≡ continues (moved step a r)
  unfolding conclude keep_outputs record_step next_id
  conclude-moved step a r fine well open_next = rw (fine, well, open_next) refl

  moved-Moves :
      (step : WorkflowStep) (a : Action State) (r : Run State) → Moves step r (moved step a r)
  unfolding keep_outputs record_step
  moved-Moves step a r = (refl, map-snoc (λ x. x.step_id) r.steps_executed _, refl, omega arith)

  take_step-Moves :
      (step : WorkflowStep) (r : Run State)
      → IsReady step
      → r.current_step_id ≡ step.id
      → (r' : Run State) × (take_step world e w r ≡ returns (continues r')) × Moves step r r'
  unfolding take_step run_step conclude_last
  take_step-Moves step r ready at =
      let (n, limit) = ready.retries in
      let (a, acted, fine, well, open_next) = ready.acts r.context r.state in
      let here : find_step r.current_step_id w.steps ≡ some step = rw at ready.found in
      let tried : attempt_step world e w (rounds (max_retries w step)) 0 step r.context r.state
          ≡ returns (some (0, a)) =
        subst
          (λ x. attempt_step world e w (rounds x) 0 step r.context r.state ≡ returns (some (0, a)))
          (sym limit) (attempt_step-first n step r.context r.state a acted fine well) in
      let ran : run_step world e w step r ≡ returns (continues (moved step a r)) =
        rw (run_step, tried, conclude-moved step a r fine well open_next) refl in
      (
        moved step a r,
        rw (take_step, here) (when_true _ _ step.is_enabled ready.enabled ∙ ran),
        moved-Moves step a r,
      )

  -- What a run through `ss` from `r` ends with.
  abbrev Through : List WorkflowStep → Run State → Run State → Type 0
  Through ss r out =
      (out.success ≡ r.success)
      × (executed out ≡ executed r ++ map (λ x. x.id) ss)
      × (out.count ≡ r.count + length ss)

  module _ (open_context : (s : State) → is_done s ≡ false) where
    check_context-open : (r : Run State) → check_context world e w r ≡ r
    unfolding check_context
    check_context-open r = rw (open_context r.state) refl

    run_steps-Through :
        (ss : List WorkflowStep) (k : ℕ) (r : Run State)
        → length ss ≤ k
        → All IsReady ss
        → Chain ss
        → r.current_step_id ≡ head_id ss
        → (out : Run State) × (run_steps world e w k r ≡ returns out) × Through ss r out
    unfolding run_steps
    run_steps-Through [] zero r _ _ _ at =
        (r, refl, (refl, sym (append-nil (executed r)), omega arith))
    run_steps-Through [] (suc k) r _ _ _ at =
        let ends : str_eq r.current_step_id "" ≡ true = rw at refl in
        (r, rw (run_steps, ends) refl, (refl, sym (append-nil (executed r)), omega arith))
    run_steps-Through (step ∷ ss) zero r short _ _ at = absurd (omega arith)
    run_steps-Through (step ∷ ss) (suc k) r short (ready, all_ready) (leads, chain) at =
        let (r', took, (good, one, current, counted)) = take_step-Moves step r ready at in
        let (out, ran, (good', more, counts)) =
          run_steps-Through ss k r' (omega arith) all_ready chain (current ∙ leads) in
        let named : str_eq r.current_step_id "" ≡ false = rw at ready.named in
        let took' : take_step world e w (check_context world e w r) ≡ returns (continues r') =
          ap (take_step world e w) (check_context-open r) ∙ took in
        let all_ids : executed out ≡ executed r ++ step.id ∷ map (λ x. x.id) ss =
          more
          ∙ ap (λ l. l ++ map (λ x. x.id) ss) one
          ∙ append_assoc (executed r) (step.id ∷ []) (map (λ x. x.id) ss) in
        (out, rw (run_steps, named, took') ran, (good' ∙ good, all_ids, omega arith))

    execute_workflow-of :
        (ctx : ExecutionContext) (s : State) (first : WorkflowStep) (rest : List WorkflowStep)
        (out : Run State)
        → w.steps ≡ first ∷ rest
        → run_steps world e w (max_steps world e w) (start_run world e w first.id ctx s)
          ≡ returns out
        → check_count world e w out ≡ out
        → execute_workflow world e w ctx s ≡ returns (inr (finish world e w s out), out.state)
    unfolding execute_workflow
    execute_workflow-of ctx s first rest out full ran room = ground (arith, full, ran, room)

    -- In a context that is never cancelled, a workflow whose steps are enabled, have different IDs
    -- that are not empty and limits of retries that are not negative, lead each to the one that
    -- follows, and act with success and without naming a next step, returns a success, and its
    -- records are of all its steps, each once, in their order.
    pub execute_workflow-Chain :
        (ctx : ExecutionContext) (s : State)
        → 0 < length w.steps
        → All IsReady w.steps
        → Chain w.steps
        → (result : ExecutionResult) × (t : State) × (execute_workflow world e w ctx s
            ≡ returns (inr result, t))
          × (result.success ≡ true)
          × (map (λ x. x.step_id) result.steps_executed ≡ map (λ x. x.id) w.steps)
    unfolding execute_workflow check_count
    execute_workflow-Chain ctx s some_step ready chain = elim (List-cases w.steps) [
      | inl empty ↦ absurd (ground (arith, some_step, empty))
      | inr (first, rest, full) ↦
          let at : first.id ≡ head_id w.steps = rw full refl in
          let (out, ran, (good, ids, counts)) =
            run_steps-Through w.steps (max_steps world e w) (start_run world e w first.id ctx s)
              (omega arith) ready chain at in
          let room : leb (max_steps world e w) out.count ≡ false =
            ground (arith, counts, some_step) in
          (
            finish world e w s out,
            out.state,
            execute_workflow-of ctx s first rest out full ran (rw (check_count, room) refl),
            good,
            ids,
          )
    ]
