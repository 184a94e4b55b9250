-- ===== src/Queue/Service/Rounds.antt =====
-- The retries of internal/services/queue_service.go: a worker takes a task from the queue of low
-- priority and fails, again and again.
use engine_api_workflow.Common.{
  sym, if_false, if_true, ℕ, zero, suc, ◌+◌, ◌-◌, ◌≤◌, ◌<◌, ◌==◌, String, ◌≡◌, refl, ap, ◌∙◌, true,
  false, List, [], ◌∷◌, none, some, arith, leb, str_eq,
}
use engine_api_workflow.Queue.Redis.{Exec, Result, ok, ◌>>=◌, ◌>>◌, pure}
use engine_api_workflow.Queue.Named.{Server, NeverFails, update, unsnoc, pop_first}
use engine_api_workflow.Queue.Service.{
  with_max, with_created, with_id, ServiceTask, TaskJson, queue_low, queue_failed, filled, retried,
  enqueue_task, dequeue_task, retry_failed_task,
}
use engine_api_workflow.Queue.Service.Travel.{enqueue_task-pushes, dequeue_task-takes}

-- No field is left for EnqueueTask to fill in.
abbrev pub IsFilled : ServiceTask → Type 0
IsFilled t =
    (str_eq t.id "" ≡ false) × ((t.created_at == 0) ≡ false) × ((t.max_retries == 0) ≡ false)

abbrev pub at_count : ℕ → ServiceTask → ServiceTask
at_count n t = record t { retry_count = n }

retried_last :
    (t : ServiceTask) → leb t.max_retries t.retry_count ≡ true → retried t ≡ (queue_failed, t)
retried_last t h = if_true (queue_failed, t) (queue_low, at_count (suc t.retry_count) t) h

retried_more :
    (t : ServiceTask)
    → leb t.max_retries t.retry_count ≡ false
    → retried t ≡ (queue_low, at_count (suc t.retry_count) t)
retried_more t h = if_false (queue_failed, t) (queue_low, at_count (suc t.retry_count) t) h

module _ (json : TaskJson) (server : Server) where
  open server use {Store}

  unfoldable pub fail_round : ℕ → Exec Store (Unit {0})
  unfolding dequeue_task retry_failed_task
  fail_round now = do
    found ← dequeue_task json server (queue_low ∷ [])
    elim found [ none ↦ pure tt | some task ↦ retry_failed_task json server task now ]

  unfoldable pub fail_rounds : ℕ → ℕ → Exec Store (Unit {0})
  unfolding fail_round
  fail_rounds zero now = pure tt
  fail_rounds (suc n) now = fail_round now >> fail_rounds n now

module _ (json : TaskJson) (server : Server) (sure : NeverFails server) where
  open json use {marshal, unmarshal}
  open server use {Store, view}

  filled_same : (t : ServiceTask) (now : ℕ) → IsFilled t → filled now t ≡ t
  filled_same t now (id, created, max) =
      let a : with_id now t ≡ t = if_false _ t id in
      let b : with_created now t ≡ t = if_false _ t created in
      let c : with_max t ≡ t = if_false _ t max in
      ap (λ x. with_max (with_created now x)) a ∙ ap with_max b ∙ c

  -- What a round does to the one task in the list: it goes to `k` as `u`.
  round-sends :
      (k m n : String) (t u : ServiceTask) (now : ℕ) (s : Store)
      → (view s).lists queue_low ≡ m ∷ []
      → unmarshal m ≡ some t
      → retried t ≡ (k, u)
      → IsFilled u
      → marshal u ≡ some n
      → let r = fail_round json server now s in
        (r.0 ≡ ok tt)
        × ((j : String)
            → (view r.1).lists j
              ≡ update k
                  (n ∷ update queue_low [] (view s).lists k)
                  (update queue_low [] (view s).lists)
                  j)
  unfolding fail_round ◌>>=◌ retry_failed_task unsnoc
  round-sends k m n t u now s here read goes full written =
      let (got, left) =
        dequeue_task-takes json server sure queue_low m [] [] t s (ap unsnoc here) read in
      let x = (dequeue_task json server (queue_low ∷ []) s).1 in
      let fit : marshal (filled now u) ≡ some n = ap marshal (filled_same u now full) ∙ written in
      let (sent, after) = enqueue_task-pushes json server sure k n u now x fit in
      let same : fail_round json server now s ≡ enqueue_task json server k u now x =
        rw (got, goes) refl in
      (
        ap (λ r. r.0) same ∙ sent,
        λ j.
            ap (λ r. (view r.1).lists j) same
            ∙ ap (λ v. v.lists j) after
            ∙ ap (λ v. update k (n ∷ v.lists k) v.lists j) left,
      )

  empty_round :
      (now : ℕ) (s : Store)
      → (view s).lists queue_low ≡ []
      → let r = fail_round json server now s in (r.0 ≡ ok tt) × (view r.1 ≡ view s)
  unfolding fail_round ◌>>=◌ dequeue_task unsnoc pop_first
  empty_round now s here =
      let (o, answered) = sure.brpop_answers (queue_low ∷ []) s in
      let (right, after) = server.brpop_effect (queue_low ∷ []) s o answered in
      let nothing : unsnoc ((view s).lists queue_low) ≡ none = ap unsnoc here in
      let got : o ≡ none = right ∙ rw (pop_first, nothing) refl in
      let still : view (server.brpop (queue_low ∷ []) s).1 ≡ view s =
        after ∙ rw (pop_first, nothing) refl in
      rw (answered, got) (refl, still)

  empty_rounds :
      (n now : ℕ) (s : Store)
      → (view s).lists queue_low ≡ []
      → let r = fail_rounds json server n now s in (r.0 ≡ ok tt) × (view r.1 ≡ view s)
  unfolding fail_rounds ◌>>=◌
  empty_rounds zero now s here = (refl, refl)
  empty_rounds (suc n) now s here =
      let (went, same) = empty_round now s here in
      let (rest, still) =
        empty_rounds n now (fail_round json server now s).1
          (ap (λ v. v.lists queue_low) same ∙ here) in
      rw went (rest, still ∙ same)

  abbrev Ended : ServiceTask → List String → Result (Unit {0}) × Store → Type 0
  Ended t failed r =
      (r.0 ≡ ok tt)
      × ((view r.1).lists queue_low ≡ [])
      × (m : String) × ((view r.1).lists queue_failed ≡ m ∷ failed)
      × (unmarshal m ≡ some (at_count t.max_retries t))

  rounds-Ended :
      (n fuel now : ℕ) (m : String) (t : ServiceTask) (s : Store)
      → ((c : ℕ) → (x : String) × (marshal (at_count c t) ≡ some x))
      → IsFilled t
      → t.max_retries ≡ n + t.retry_count
      → n < fuel
      → (view s).lists queue_low ≡ m ∷ []
      → unmarshal m ≡ some t
      → Ended t ((view s).lists queue_failed) (fail_rounds json server fuel now s)
  unfolding fail_rounds ◌>>=◌
  rounds-Ended n zero now m t s writes full left more here read = absurd (ground (arith, more))
  rounds-Ended zero (suc fuel) now m t s writes full left more here read =
      let goes : retried t ≡ (queue_failed, t) = retried_last t (ground (arith, left)) in
      let (x, written) = writes t.retry_count in
      let (went, lists) = round-sends queue_failed m x t t now s here read goes full written in
      let (rest, still) =
        empty_rounds fuel now (fail_round json server now s).1 (lists queue_low) in
      let exact : t.max_retries ≡ t.retry_count = omega (arith, left) in
      let same : at_count t.max_retries t ≡ t = ap (λ c. at_count c t) exact in
      rw went (
        rest,
        ap (λ v. v.lists queue_low) still ∙ lists queue_low,
        x,
        ap (λ v. v.lists queue_failed) still ∙ lists queue_failed,
        json.unmarshal-marshal t x written ∙ ap some (sym same),
      )
  rounds-Ended (suc n) (suc fuel) now m t s writes full left more here read =
      let u = at_count (suc t.retry_count) t in
      let goes : retried t ≡ (queue_low, u) = retried_more t (ground (arith, left)) in
      let (x, written) = writes (suc t.retry_count) in
      let (went, lists) = round-sends queue_low m x t u now s here read goes full written in
      let (done, low, y, failed, back) =
        rounds-Ended n fuel now x u (fail_round json server now s).1 writes full
          (ground (arith, left)) (ground (arith, more)) (lists queue_low)
          (json.unmarshal-marshal u x written) in
      rw went (done, low, y, failed ∙ ap (λ l. y ∷ l) (lists queue_failed), back)

  -- On a connection that does not fail, a task that is alone in the queue of low priority, that can be
  -- written with any count of retries and has no field left to fill in, and of which no more retries
  -- were made than allowed, is in the queue of the failed tasks with all its retries used after as many
  -- failing rounds as it has retries left and one, or more of them; the queue of low priority is empty.
  pub fail_rounds-ends :
      (fuel now : ℕ) (m : String) (t : ServiceTask) (s : Store)
      → ((c : ℕ) → (x : String) × (marshal (at_count c t) ≡ some x))
      → IsFilled t
      → t.retry_count ≤ t.max_retries
      → t.max_retries - t.retry_count < fuel
      → (view s).lists queue_low ≡ m ∷ []
      → unmarshal m ≡ some t
      → let r = fail_rounds json server fuel now s in
        (r.0 ≡ ok tt)
        × ((view r.1).lists queue_low ≡ [])
        × (n : String) × ((view r.1).lists queue_failed ≡ n ∷ (view s).lists queue_failed)
        × (unmarshal n ≡ some (at_count t.max_retries t))
  fail_rounds-ends fuel now m t s writes full allowed enough here read =
      rounds-Ended (t.max_retries - t.retry_count) fuel now m t s writes full
        (omega (arith, allowed)) enough here read
