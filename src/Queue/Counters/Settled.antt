-- ===== src/Queue/Counters/Settled.antt =====
-- The operations of internal/repository/redis/queue_repository.go that complete, fail, retry, release and
-- change a task keep the counters equal to the sizes of the collections.
use engine_api_workflow.Common.{
  ℕ, ◌+◌, ◌*◌, ◌≡◌, refl, sym, ap, subst, ◌∙◌, ◌≤◌, String, List, [], ◌∷◌, true, Option, none, some,
  Bool-cases, ltb, inl, inr,
}
use engine_api_workflow.Models.Value.{second}
use engine_api_workflow.Queue.Redis.{
  sadd, srem, Redis, IsReliable, Exec, View, apply_all, has, set_at, SetKey, processing_set,
  completed_set, failed_set, marshal_failed, task_not_found,
}
use engine_api_workflow.Queue.Item.{QueueItem, Codec}
use engine_api_workflow.Queue.Pipelines.{
  as_completed, as_failed, as_retry, as_restarted, with_status, find_item, clean_all,
  retry_commands,
}
use engine_api_workflow.Queue.Repository.{
  rewrite_found, mark_completed, move_to_failed, requeue_for_retry, mark_failed,
  cleanup_stale_processing_tasks, requeue_failed_task, update_in, update_task_status,
}
use engine_api_workflow.Queue.Census.{find_item-some}
use engine_api_workflow.Queue.Balance.{IsBalanced}
use engine_api_workflow.Queue.Balance.Transitions.{
  completed_commands-IsBalanced, failed_commands-IsBalanced, restart_commands-IsBalanced,
}
use engine_api_workflow.Queue.Balance.Rewrites.{
  retry_later-IsBalanced, retry_now-IsBalanced, update_processing-IsBalanced,
  update_completed-IsBalanced, update_failed-IsBalanced,
}
use engine_api_workflow.Queue.Rules.{exec_rule, smembers_rule, or_raise_rule, then_rule}
use engine_api_workflow.Queue.Loops.{clean_all-IsBalanced, tally, tally-le}

module _ (codec : Codec) (redis : Redis) (sure : IsReliable redis) where
  open codec use {marshal, unmarshal}
  open redis use {Store, view, before, exec}

  abbrev P : View → Type 0
  P = IsBalanced codec

  -- A fact about the members that a set gives holds of the set.
  found_in :
      (k : SetKey) (id m : String) (i : QueueItem) (ms : List String) (v w : View)
      → w ≡ v
      → ((x : String) → has x ms ≡ has x (set_at k v))
      → find_item codec id ms ≡ some (m, i)
      → (has m (set_at k w) ≡ true) × (unmarshal m ≡ some i) × (i.id ≡ id)
  found_in k id m i ms v w same there found =
      let (listed, decodes, named) = find_item-some codec id m i ms found in
      (ap (λ u. has m (set_at k u)) same ∙ sym (there m) ∙ listed, decodes, named)

  pub mark_completed-IsBalanced :
      (task_id : String) (now : ℕ) (s : Store)
      → P (view s)
      → P (view (mark_completed codec redis task_id now s).1)
  unfolding mark_completed
  mark_completed-IsBalanced task_id now s b =
      smembers_rule redis sure P processing_set _ s λ ms t same _ there.
        let c = subst P (sym same) b in
        or_raise_rule redis sure P _ task_not_found _ t c λ (m, i) found.
          let (here, decodes, _) = found_in processing_set task_id m i ms _ _ same there found in
          or_raise_rule redis sure P _ marshal_failed _ t c λ n w. exec_rule redis sure P _ t (
            completed_commands-IsBalanced codec before m n i (as_completed now i) (view t) decodes w
              refl refl c here)

  move_to_failed-IsBalanced :
      (task_id : String) (now : ℕ) (s : Store)
      → P (view s)
      → P (view (move_to_failed codec redis task_id now s).1)
  unfolding move_to_failed
  move_to_failed-IsBalanced task_id now s b =
      smembers_rule redis sure P processing_set _ s λ ms t same _ there.
        let c = subst P (sym same) b in
        or_raise_rule redis sure P _ task_not_found _ t c λ (m, i) found.
          let (here, decodes, _) = found_in processing_set task_id m i ms _ _ same there found in
          or_raise_rule redis sure P _ marshal_failed _ t c λ n w. exec_rule redis sure P _ t (
            failed_commands-IsBalanced codec before m n i (as_failed now i) (view t) decodes w refl
              refl c here)

  requeue_for_retry-IsBalanced :
      (i : QueueItem) (m msg : String) (now : ℕ) (t : Store)
      → unmarshal m ≡ some i
      → has m (view t).running ≡ true
      → P (view t)
      → P (view (requeue_for_retry codec redis i m msg now t).1)
  unfolding requeue_for_retry
  requeue_for_retry-IsBalanced i m msg now t decodes here c =
      or_raise_rule redis sure P _ marshal_failed _ t c λ n w. exec_rule redis sure P _ t (sent n w)
    where
      delay : ℕ
      delay = (i.retry_count + 1) * (i.retry_count + 1) * second

      sent :
          (n : String)
          → marshal (as_retry msg i) ≡ some n
          → P (apply_all before (retry_commands delay i now m n) (view t))
      sent n w = elim (Bool-cases (ltb 0 delay)) [
        | inl wait ↦ rw wait (
            retry_later-IsBalanced codec before m n i (as_retry msg i) (view t) decodes w refl refl
              c _ here)
        | inr at_once ↦ rw at_once (
            retry_now-IsBalanced codec before m n i (as_retry msg i) (view t) decodes w refl refl c
              here)
      ]

  pub mark_failed-IsBalanced :
      (task_id : String) (cause : Option String) (now : ℕ) (s : Store)
      → P (view s)
      → P (view (mark_failed codec redis task_id cause now s).1)
  unfolding mark_failed
  mark_failed-IsBalanced task_id cause now s b =
      smembers_rule redis sure P processing_set _ s λ ms t same _ there.
        let c = subst P (sym same) b in
        or_raise_rule redis sure P _ task_not_found _ t c λ (m, i) found.
          let (here, decodes, _) = found_in processing_set task_id m i ms _ _ same there found in
          elim (Bool-cases (ltb i.retry_count i.max_retries)) [
            | inl again ↦ rw again (requeue_for_retry-IsBalanced i m _ now t decodes here c)
            | inr over ↦ rw over (move_to_failed-IsBalanced task_id now t c)
          ]

  pub requeue_failed_task-IsBalanced :
      (task_id : String) (s : Store)
      → P (view s)
      → P (view (requeue_failed_task codec redis task_id s).1)
  unfolding requeue_failed_task
  requeue_failed_task-IsBalanced task_id s b =
      smembers_rule redis sure P failed_set _ s λ ms t same _ there.
        let c = subst P (sym same) b in
        or_raise_rule redis sure P _ task_not_found _ t c λ (m, i) found.
          let (here, decodes, _) = found_in failed_set task_id m i ms _ _ same there found in
          or_raise_rule redis sure P _ marshal_failed _ t c λ n w. exec_rule redis sure P _ t (
            restart_commands-IsBalanced codec before m n i (as_restarted i) (view t) decodes w refl
              refl c here)

  pub cleanup_stale_processing_tasks-IsBalanced :
      (timeout now : ℕ) (s : Store)
      → P (view s)
      → P (view (cleanup_stale_processing_tasks codec redis timeout now s).1)
  unfolding cleanup_stale_processing_tasks
  cleanup_stale_processing_tasks-IsBalanced timeout now s b =
      smembers_rule redis sure P processing_set _ s λ ms t same apart there.
        let c = subst P (sym same) b in
        let listed =
          subst (λ v. (x : String) → tally x ms ≤ tally x v.running) (sym same)
            (λ x. tally-le x ms (view s).running apart (there x)) in
        then_rule redis sure P _ _ t
          (elim (Bool-cases (ltb 0 (clean_all codec timeout now ms).1)) [
            | inl some_stale ↦ rw some_stale (
                exec_rule redis sure P _ t
                  (clean_all-IsBalanced codec before timeout now ms (view t) listed c))
            | inr no_stale ↦ rw no_stale c
          ])
          λ _ _ h. h

  -- The round over one set; `put` is the lemma for that set's pipeline.
  update_in-IsBalanced :
      (k : SetKey) (task_id status msg : String) (next : Exec Store (Unit {0})) (s : Store)
      → ((m n : String) (i j : QueueItem) (v : View)
          → unmarshal m ≡ some i
          → marshal j ≡ some n
          → j.id ≡ i.id
          → j.priority ≡ i.priority
          → P v
          → has m (set_at k v) ≡ true
          → P (apply_all before (srem k m ∷ sadd k n ∷ []) v))
      → ((t : Store) → P (view t) → P (view (next t).1))
      → P (view s)
      → P (view (update_in codec redis k task_id status msg next s).1)
  unfolding update_in rewrite_found
  update_in-IsBalanced k task_id status msg next s put on b =
      let (ms, e) = sure.smembers_answers k s in
      let (_, there, same) = redis.smembers_ok k s ms e in
      let c = subst P (sym same) b in
      let t = (redis.smembers k s).1 in
      rw (e, update_in) (rewritten ms t c same there (find_item codec task_id ms) refl)
    where
      rewritten :
          (ms : List String) (t : Store)
          → P (view t)
          → view t ≡ view s
          → ((x : String) → has x ms ≡ has x (set_at k (view s)))
          → (o : Option (String × QueueItem)) → find_item codec task_id ms ≡ o
          → P (view (rewrite_found codec redis k status msg next o t).1)
      rewritten ms t c same there none found = on t c
      rewritten ms t c same there (some (m, i)) found =
          let (here, decodes, _) = found_in k task_id m i ms _ _ same there found in
          or_raise_rule redis sure P _ marshal_failed _ t c λ n w.
            exec_rule redis sure P _ t
              (put m n i (with_status status msg i) (view t) decodes w refl refl c here)

  pub update_task_status-IsBalanced :
      (task_id status msg : String) (s : Store)
      → P (view s)
      → P (view (update_task_status codec redis task_id status msg s).1)
  unfolding update_task_status
  update_task_status-IsBalanced task_id status msg s b =
      update_in-IsBalanced processing_set task_id status msg _ s
        (λ m n i j v u w e p c h. update_processing-IsBalanced codec before m n i j v u w e p c h)
        (λ t c.
          update_in-IsBalanced completed_set task_id status msg _ t
            (λ m n i j v u w e p c h.
              update_completed-IsBalanced codec before m n i j v u w e p c h)
            (λ t c.
              update_in-IsBalanced failed_set task_id status msg _ t
                (λ m n i j v u w e p c h.
                  update_failed-IsBalanced codec before m n i j v u w e p c h)
                (λ t c. c) c)
            c)
        b
