-- ===== src/Worker/Pool/Lock.antt =====
-- removeWorker holds workersMutex while recordScalingEvent asks for the average load, which takes the
-- same mutex.
use engine_api_workflow.Common.{
  String, ltb, ℕ, Bool, true, false, List, [], ◌∷◌, ◌≡◌, refl, Option, none, some, if◌then◌else◌,
  arith,
}
use engine_api_workflow.Queue.Named.{Server, Json}
use engine_api_workflow.Worker.Pool.{
  since, QueueTask, Worker, Pool, Call, Ending, ends, hangs, crashes, ◌>>=◌, read_lock, modify,
  pure,
}
use engine_api_workflow.Worker.Pool.Scale.{
  drop_worker, calculate_average_load, evaluate_load, evaluate_and_scale, find_worker,
}
use engine_api_workflow.Worker.Pool.Work.{
  by_activity_lem, skipped, take_next, begin_check, set_worker, dispatch_to_optimal_worker,
  perform_health_check, update_metrics, run_worker, beat, take_task, judge_task, account_task,
  leave_task, delete_doomed,
}
use engine_api_workflow.Worker.Pool.Events.{
  count_dispatch, PoolEvent, scales, checks, measures, dispatches, runs, beats, takes, judges,
  accounts, leaves, deletes, shuffles, step, run_events, with_worker,
}
use engine_api_workflow.Worker.Pool.Rules.{
  weaken, Holds, Triple, if-Triple, bind-Triple, modify-Triple, pure-Triple, get_pool-Triple,
}

module _ (json : Json) (server : Server) where
  open server use {Store}

  abbrev Locked : Pool → Store → Type 0
  Locked p s = p.locked ≡ true

  abbrev Never : {A : Type 0} → A → Pool → Store → Type 0
  Never a p s = ⊥

  -- By the flag's value.
  stuck :
      (b : Bool) (p : Pool) (s : Store)
      → b ≡ true
      → Locked p s
      → Holds Never Locked (if b then (hangs, (p, s)) else (ends (tt {0}), (p, s)))
  stuck true p s h l = l
  stuck false p s h l = absurd (ground (arith, h))

  read_lock-hangs : Triple Locked read_lock Never Locked
  read_lock-hangs = record { holds = λ p s l. stuck p.locked p s l l }

  never :
      {A B : Type 0} {R : B → Pool → Store → Type 0} {I : Pool → Store → Type 0} (a : A)
      (m : Call Store B)
      → Triple (Never a) m R I
  never a m = record { holds = λ p s h. absurd h }

  -- A call that hangs, and one that starts with it.
  after_never :
      {A B : Type 0} {R : B → Pool → Store → Type 0} {m : Call Store A} (f : A → Call Store B)
      → Triple Locked m Never Locked
      → Triple Locked (m >>= f) R Locked
  after_never f h = bind-Triple h λ a. never a (f a)

  average-hangs :
      {A : Type 0} {R : A → Pool → Store → Type 0}
      → (f : _ → Call Store A) → Triple Locked (calculate_average_load json server >>= f) R Locked
  unfolding calculate_average_load
  average-hangs f = after_never f (after_never _ read_lock-hangs)

  abbrev Undone : Bool → Pool → Store → Type 0
  Undone b p s = (b ≡ false) × Locked p s

  abbrev Same : Unit {0} → Pool → Store → Type 0
  Same a = Locked

  then_false :
      {m : Call Store (Unit {0})}
      → Triple Locked m Same Locked
      → Triple Locked (m >>= λ a. pure false) Undone Locked
  then_false h = bind-Triple h λ a. pure-Triple false λ p s l. (refl, l)

  skip : Triple Locked (pure tt) Same Locked
  skip = pure-Triple tt λ p s l. l

  change :
      (f : Pool → Pool)
      → ((p : Pool) → p.locked ≡ true → (f p).locked ≡ true)
      → Triple Locked (modify f) Same Locked
  change f h = modify-Triple f λ p s l. h p l

  change_worker : (w : Worker) → Triple Locked (set_worker json server w) Same Locked
  change_worker w = change _ λ p l. l

  evaluate_load-Locked : (now : ℕ) → Triple Locked (evaluate_load json server now) Same Locked
  unfolding evaluate_load
  evaluate_load-Locked now = average-hangs _

  evaluate_and_scale-Locked :
      (now : ℕ) → Triple Locked (evaluate_and_scale json server now) Same Locked
  unfolding evaluate_and_scale
  evaluate_and_scale-Locked now = bind-Triple get_pool-Triple λ p.
      if-Triple {n = evaluate_load json server now}
        (ltb (since now p.last_scale_time) p.config.max_scaling_frequency)
        (λ h. pure-Triple tt λ q s l. l.1) (λ h. weaken (λ q s l. l.1) (evaluate_load-Locked now))

  with_worker-Locked :
      (id : ℕ) (f : Worker → Call Store (Unit {0}))
      → ((w : Worker) → Triple Locked (f w) Same Locked)
      → Triple Locked (with_worker json server id f) Same Locked
  unfolding with_worker
  with_worker-Locked id f h =
      bind-Triple get_pool-Triple λ p. weaken (λ q s l. l.1) (go (find_worker id p.workers))
    where
      go :
          (o : Option Worker) → Triple Locked (elim o [ none ↦ pure tt | some w ↦ f w ]) Same Locked
      go none = skip
      go (some w) = h w

  abbrev StaysLocked : Call Store (Unit {0}) → Type 0
  StaysLocked m = Triple Locked m Same Locked

  idle : (n : ℕ) → StaysLocked (skipped json server n)
  idle n = skip

  take_next-Locked :
      (now : ℕ) (w : Worker) (l : List QueueTask) → StaysLocked (take_next json server now w l)
  take_next-Locked now w [] = skip
  take_next-Locked now w (task ∷ rest) = change_worker _

  take_task-Locked : (now : ℕ) (w : Worker) → StaysLocked (take_task json server now w)
  unfolding take_task
  take_task-Locked now w =
      by_activity_lem StaysLocked w.activity (λ e. take_next-Locked now w w.waiting)
        (λ t n e. idle n) (λ n e. idle n) (λ e. skip)

  judge_task-Locked :
      (failure : Option String) (now : ℕ) (w : Worker)
      → StaysLocked (judge_task json server failure now w)
  unfolding judge_task
  judge_task-Locked failure now w =
      by_activity_lem StaysLocked w.activity (λ e. skip) (λ t n e. change_worker _) (λ n e. idle n)
        (λ e. skip)

  account_task-Locked : (now : ℕ) (w : Worker) → StaysLocked (account_task json server now w)
  unfolding account_task
  account_task-Locked now w =
      by_activity_lem StaysLocked w.activity (λ e. skip) (λ t n e. idle n) (λ n e. change_worker _)
        (λ e. skip)

  leave_task-Locked : (w : Worker) → StaysLocked (leave_task json server w)
  unfolding leave_task
  leave_task-Locked w =
      by_activity_lem StaysLocked w.activity (λ e. skip) (λ t n e. idle n) (λ n e. idle n)
        (λ e. bind-Triple (change_worker _) λ a. change _ λ p l. l)

  delete_doomed-Locked : Triple Locked (delete_doomed json server) Same Locked
  unfolding delete_doomed
  delete_doomed-Locked = bind-Triple get_pool-Triple λ p. weaken (λ q s l. l.1) (go p.doomed)
    where
      go :
          (l : List ℕ)
          → Triple Locked
              (elim l [
                | [] ↦ pure tt
                | id ∷ rest ↦
                    modify (λ q. record q { workers = drop_worker id q.workers; doomed = rest })
              ])
              Same
              Locked
      go [] = skip
      go (id ∷ rest) = change _ λ p l. l

  step-Locked : (e : PoolEvent) → Triple Locked (step json server e) Undone Locked
  unfolding step perform_health_check update_metrics dispatch_to_optimal_worker run_worker beat
  step-Locked (scales now) = then_false (evaluate_and_scale-Locked now)
  step-Locked (checks now) =
      then_false
        (bind-Triple (change (begin_check now) λ p l. l) λ a. after_never _ read_lock-hangs)
  step-Locked (measures now) = then_false (after_never _ read_lock-hangs)
  step-Locked (dispatches task) = after_never _ read_lock-hangs
  step-Locked (runs id) = then_false (with_worker-Locked id _ λ w. change_worker _)
  step-Locked (beats id now) = then_false (with_worker-Locked id _ λ w. change_worker _)
  step-Locked (takes id now) = then_false (with_worker-Locked id _ (take_task-Locked now))
  step-Locked (judges id failure now) =
      then_false (with_worker-Locked id _ (judge_task-Locked failure now))
  step-Locked (accounts id now) = then_false (with_worker-Locked id _ (account_task-Locked now))
  step-Locked (leaves id) = then_false (with_worker-Locked id _ leave_task-Locked)
  step-Locked deletes = then_false delete_doomed-Locked
  step-Locked (shuffles i) = then_false (change _ λ p l. l)

  count-Undone :
      (r : Ending Bool × (Pool × Store))
      → Holds Undone Locked r
      → (count_dispatch json server r.0 ≡ 0) × (r.1.0.locked ≡ true)
  count-Undone (ends true, (p, s)) (none_done, l) = absurd (ground (arith, none_done))
  count-Undone (ends false, (p, s)) (none_done, l) = (refl, l)
  count-Undone (hangs, (p, s)) l = (refl, l)
  count-Undone (crashes, (p, s)) l = (refl, l)

  pub run_events-Locked :
      (es : List PoolEvent) (p : Pool) (s : Store)
      → p.locked ≡ true
      → (run_events json server es p s).0 ≡ 0
  run_events-Locked [] p s l = refl
  run_events-Locked (e ∷ es) p s l =
      let (none_now, still) = count-Undone (step json server e p s) ((step-Locked e).holds p s l) in
      let r = step json server e p s in
      let later = run_events-Locked es r.1.0 r.1.1 still in omega (arith, none_now, later)
