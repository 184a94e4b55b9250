-- ===== src/Worker/Executor/Records.antt =====
-- The records that a run leaves, one for each step that it took.
use engine_api_workflow.Common.{
  none, Option, List-cases, ◌&◌, ℕ, zero, suc, ◌+◌, ◌*◌, ◌≡◌, ◌≤◌, ◌<◌, ◌⊎◌, inl, inr, refl, ◌∙◌,
  String, true, false, some, List, [], ◌∷◌, ◌++◌, All, arith, length, length-append, is_some,
  Bool-cases, Option-cases, str_eq, str_eq_iff, leb, subst,
}
use engine_api_workflow.Models.Workflow.{WorkflowStep, Workflow, find_step}
use engine_api_workflow.Worker.Executor.{
  Outcome-cases, returns, ExecutionContext, StepExecution, Action, WorkflowExecutor, World,
  create_step_execution,
}
use engine_api_workflow.Worker.Executor.Delays.{max_retries, rounds}
use engine_api_workflow.Worker.Executor.Steps.{
  conclude_last, finish, start_run, attempt_step, Run, Round, continues, breaks, ExecutionResult,
  check_context, skip_step, record_step, keep_outputs, conclude, run_step, take_step, run_steps,
  max_steps, check_count, execute_workflow,
}

abbrev pub Good : StepExecution → Type 0
Good x = (x.status ≡ "completed") ⊎ (x.status ≡ "skipped")

All-snoc {ℓ κ} :
    {A : Type ℓ} (P : A → Type κ) (xs : List A) (x : A) → All P xs → P x → All P (xs ++ x ∷ [])
All-snoc P [] x _ p = (p, tt)
All-snoc P (y ∷ ys) x (q, qs) p = (q, All-snoc P ys x qs p)

find_step-id :
    (id : String) (ss : List WorkflowStep) (s : WorkflowStep) → find_step id ss ≡ some s → s.id ≡ id
unfolding find_step
find_step-id id [] s h = ground arith
find_step-id id (t ∷ ss) s h = elim (Bool-cases (str_eq t.id id)) [
  | inl same ↦ let named : t.id ≡ id = (str_eq_iff t.id id).0 same in ground (arith, h, same)
  | inr other ↦ find_step-id id ss s (ground (arith, h, other))
]

module _ (world : World) (e : WorkflowExecutor world.State) (w : Workflow) where
  open world use {State}

  -- A record names a step of the workflow.
  abbrev pub Named : StepExecution → Type 0
  Named x = is_some (find_step x.step_id w.steps) ≡ true

  abbrev Sound : Run State → Type 0
  Sound r = All Named r.steps_executed × (r.success ≡ true → All Good r.steps_executed)

  abbrev Counted : Run State → Type 0
  Counted r = Sound r × (length r.steps_executed ≡ r.count)

  After : ℕ → Round State → Type 0
  After n (continues r) = Counted r × (r.count ≡ suc n)
  After n (breaks r) =
      All Named r.steps_executed × (r.success ≡ false) × (length r.steps_executed ≤ suc n)

  names_itself :
      (r : Run State) (step : WorkflowStep)
      → find_step r.current_step_id w.steps ≡ some step
      → is_some (find_step step.id w.steps) ≡ true
  names_itself r step found = rw (find_step-id r.current_step_id w.steps step found, found) refl

  check_context-Counted : (r : Run State) → Counted r → Counted (check_context world e w r)
  unfolding check_context
  check_context-Counted r ((named, good), n) = elim (Bool-cases (world.is_done r.state)) [
    | inl over ↦ rw over ((named, λ h. ground arith), n)
    | inr on ↦ rw on ((named, good), n)
  ]

  check_context-count :
      (r : Run State)
      → ((check_context world e w r).count ≡ r.count)
        × ((check_context world e w r).current_step_id ≡ r.current_step_id)
  unfolding check_context
  check_context-count r = ground arith

  skip_step-After :
      (step : WorkflowStep) (r : Run State)
      → Counted r
      → is_some (find_step step.id w.steps) ≡ true
      → After r.count (continues (skip_step world e w step r))
  unfolding skip_step create_step_execution After
  skip_step-After step r ((named, good), n) there = (
    (
      (
        All-snoc Named r.steps_executed _ named there,
        λ h. All-snoc Good r.steps_executed _ (good h) (inr refl),
      ),
      length-append r.steps_executed _ ∙ omega arith,
    ),
    omega arith,
  )

  conclude-After :
      (step : WorkflowStep) (k : ℕ) (a : Action State) (r : Run State)
      → Counted r
      → is_some (find_step step.id w.steps) ≡ true
      → After r.count (conclude world e w step k a r)
  unfolding conclude record_step keep_outputs create_step_execution After
  conclude-After step k a r ((named, good), n) there = elim (Option-cases a.failure) [
    | inr (cause, failed) ↦ rw failed (
      All-snoc Named r.steps_executed _ named there,
      refl,
      omega (arith, length-append r.steps_executed),
    )
    | inl fine ↦ elim (Bool-cases a.result.success) [
      | inr bad ↦
          rw (fine, bad)
            (
              All-snoc Named r.steps_executed _ named there,
              refl,
              omega (arith, length-append r.steps_executed),
            )
      | inl well ↦
          rw (fine, well)
            (
              (
                (
                  All-snoc Named r.steps_executed _ named there,
                  λ h. All-snoc Good r.steps_executed _ (good h) (inl refl),
                ),
                length-append r.steps_executed _ ∙ omega arith,
              ),
              omega arith,
            )
    ]
  ]

  conclude_last-After :
      (step : WorkflowStep) (last : Option (ℕ × Action State)) (r : Run State) (out : Round State)
      → Counted r
      → is_some (find_step step.id w.steps) ≡ true
      → conclude_last world e w step last r ≡ returns out
      → After r.count out
  unfolding conclude_last
  conclude_last-After step none r out c there h = absurd (ground (arith, h))
  conclude_last-After step (some (k, a)) r out c there h =
      let same : conclude world e w step k a r ≡ out = ground (arith, h) in
      subst (After r.count) same (conclude-After step k a r c there)

  run_step-After :
      (step : WorkflowStep) (r : Run State) (out : Round State)
      → Counted r
      → is_some (find_step step.id w.steps) ≡ true
      → run_step world e w step r ≡ returns out
      → After r.count out
  unfolding run_step
  run_step-After step r out c there h =
      elim (Outcome-cases
        (attempt_step world e w (rounds (max_retries w step)) 0 step r.context r.state)) [
          | inl p ↦ absurd (ground (arith, h, p))
          | inr (last, p) ↦ conclude_last-After step last r out c there (ground (arith, h, p))
        ]

  take_step-After :
      (r : Run State) (out : Round State)
      → Counted r
      → take_step world e w r ≡ returns out
      → After r.count out
  unfolding take_step After
  take_step-After r out c h = elim (Option-cases (find_step r.current_step_id w.steps)) [
    | inl missing ↦
        let ((named, good), n) = c in
        let msg = "Step with ID '" & (r.current_step_id & "' not found") in
        let stopped : breaks (record r { success = false; error_message = msg }) ≡ out =
          ground (arith, h, missing) in
        let here : After r.count (breaks (record r { success = false; error_message = msg })) =
          (named, refl, omega arith) in
        subst (After r.count) stopped here
    | inr (step, found) ↦ elim (Bool-cases step.is_enabled) [
      | inl on ↦
          let ran : run_step world e w step r ≡ returns out = ground (arith, h, found, on) in
          run_step-After step r out c (names_itself r step found) ran
      | inr off ↦
          let skipped : continues (skip_step world e w step r) ≡ out =
            ground (arith, h, found, off) in
          subst (After r.count) skipped (skip_step-After step r c (names_itself r step found))
    ]
  ]

  -- What a run from `r` with `k` rounds left ends with: it failed, or it counted its records and
  -- reached the end or the last round.
  Ended : ℕ → Run State → Type 0
  Ended limit r =
      All Named r.steps_executed
      × (r.success ≡ true → All Good r.steps_executed × (length r.steps_executed ≡ r.count))
      × (length r.steps_executed ≤ limit)

  run_steps-Ended :
      (k : ℕ) (r out : Run State)
      → Counted r
      → run_steps world e w k r ≡ returns out
      → Ended (k + r.count) out
  unfolding run_steps Ended After
  run_steps-Ended zero r out ((named, good), n) h =
      let same : r ≡ out = ground (arith, h) in
      let here : Ended (zero + r.count) r = (named, λ ok. (good ok, n), omega arith) in
      subst (Ended (zero + r.count)) same here
  run_steps-Ended (suc k) r out c h = elim (Bool-cases (str_eq r.current_step_id "")) [
    | inl finished ↦
        let ((named, good), n) = c in
        let same : r ≡ out = ground (arith, h, finished) in
        let here : Ended (suc k + r.count) r = (named, λ ok. (good ok, n), omega arith) in
        subst (Ended (suc k + r.count)) same here
    | inr more ↦
        let q = check_context world e w r in
        let cq = check_context-Counted r c in
        let (counts, _) = check_context-count r in
        elim (Outcome-cases (take_step world e w q)) [
          | inl p ↦ absurd (ground (arith, h, more, p))
          | inr (breaks r', p) ↦
              let same : r' ≡ out = ground (arith, h, more, p) in
              let (named, failed, short) = take_step-After q (breaks r') cq p in
              let here : Ended (suc k + r.count) r' =
                (named, λ ok. ground (arith, ok, failed), omega arith) in
              subst (Ended (suc k + r.count)) same here
          | inr (continues r', p) ↦
              let (c', n') = take_step-After q (continues r') cq p in
              let rest : run_steps world e w k r' ≡ returns out = ground (arith, h, more, p) in
              let here : Ended (k + r'.count) out = run_steps-Ended k r' out c' rest in
              let same : k + r'.count ≡ suc k + r.count = omega arith in
              subst (λ m. Ended m out) same here
        ]
  ]

  check_count-Ended :
      (r : Run State)
      → Ended (max_steps world e w) r
      → All Named (check_count world e w r).steps_executed
        × (length (check_count world e w r).steps_executed ≤ 2 * length w.steps)
        × ((check_count world e w r).success ≡ true
            → All Good (check_count world e w r).steps_executed
              × (length (check_count world e w r).steps_executed < 2 * length w.steps))
  unfolding check_count Ended
  check_count-Ended r (named, ended, short) =
      elim (Bool-cases (leb (max_steps world e w) r.count)) [
        | inl full ↦ rw full (named, omega arith, λ ok. ground (arith, ok))
        | inr room ↦ rw room (
          named,
          omega arith,
          λ ok.
              let (good, n) = ended ok in
              let few : r.count < max_steps world e w = ground (arith, room) in (good, omega arith),
        )
      ]

  -- A result comes from a run of the loop that returned.
  pub execute_workflow-run :
      (ctx : ExecutionContext) (s t : State) (result : ExecutionResult)
      → execute_workflow world e w ctx s ≡ returns (inr result, t)
      → (id : String) × (r : Run State) × (run_steps world e w
            (max_steps world e w)
            (start_run world e w id ctx s)
          ≡ returns r)
        × (finish world e w s (check_count world e w r) ≡ result)
  unfolding execute_workflow
  execute_workflow-run ctx s t result h = elim (List-cases w.steps) [
    | inl empty ↦ absurd (ground (arith, h, empty))
    | inr (first, rest, full) ↦
        elim (Outcome-cases
          (run_steps world e w (max_steps world e w) (start_run world e w first.id ctx s))) [
            | inl p ↦ absurd (ground (arith, h, full, p))
            | inr (r, p) ↦ (first.id, r, p, ground (arith, h, full, p))
          ]
  ]

  -- A run that returns a result leaves at most two records for every step of the workflow, and each
  -- names a step of it. Either the result is no success, or every record is of a completed or a
  -- skipped step and there are fewer than twice as many as steps.
  pub execute_workflow-records :
      (ctx : ExecutionContext) (s t : State) (result : ExecutionResult)
      → execute_workflow world e w ctx s ≡ returns (inr result, t)
      → All Named result.steps_executed
        × (length result.steps_executed ≤ 2 * length w.steps)
        × ((result.success ≡ false)
            ⊎ (All Good result.steps_executed
                × (length result.steps_executed < 2 * length w.steps)))
  execute_workflow-records ctx s t result h =
      let (id, r, ran, same) = execute_workflow-run ctx s t result h in
      let ended =
        run_steps-Ended (max_steps world e w) (start_run world e w id ctx s) r
          ((tt, λ ok. tt), refl) ran in
      let e0 : max_steps world e w + 0 ≡ max_steps world e w = omega arith in
      let (named, few, good) =
        subst
          (λ x.
            All Named x.steps_executed
            × (length x.steps_executed ≤ 2 * length w.steps)
            × (x.success ≡ true
                → All Good x.steps_executed × (length x.steps_executed < 2 * length w.steps)))
          same (check_count-Ended r (subst (λ m. Ended m r) e0 ended)) in
      (named, few, elim (Bool-cases result.success) [ inl ok ↦ inr (good ok) | inr bad ↦ inl bad ])
