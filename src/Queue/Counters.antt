-- ===== src/Queue/Counters.antt =====
-- The operations of internal/repository/redis/queue_repository.go that enqueue and dequeue keep the
-- counters equal to the sizes of the collections.
pub mod Settled
use engine_api_workflow.Common.{
  ℕ, ◌+◌, ◌*◌, ◌≡◌, refl, sym, ap, subst, ◌∙◌, ◌≤◌, ℤ, pos, String, List, [], ◌∷◌, true, Option,
  none, some, Bool-cases, leb, ltb, inl, inr,
}
use engine_api_workflow.Models.Value.{Fields, unix, second}
use engine_api_workflow.Queue.Redis.{
  sadd, srem, Redis, IsReliable, Exec, View, Sorted, apply_all, has, set_at, SetKey, processing_set,
  completed_set, failed_set, delayed_queue, workflow_queue, marshal_failed, unmarshal_failed,
  task_not_found, queue_empty, in_range, pure,
}
use engine_api_workflow.Queue.Item.{has_underscore-item_id, QueueItem, Codec, item_id}
use engine_api_workflow.Queue.Pipelines.{
  start_commands, as_processing, as_completed, as_failed, as_retry, as_restarted, with_status,
  find_item, clean_all, release_all, retry_commands,
}
use engine_api_workflow.Queue.Repository.{
  rewrite_found, enqueue, enqueue_delayed, enqueue_at, move_delayed_to_queue, start_item, dequeue,
  mark_completed, move_to_failed, requeue_for_retry, mark_failed, cleanup_stale_processing_tasks,
  requeue_failed_task, update_in, update_task_status,
}
use engine_api_workflow.Queue.Census.{first-AllWritten, AllWritten, holders, find_item-some}
use engine_api_workflow.Queue.Balance.{
  IsBalanced, enqueue_commands-IsBalanced, delay_commands-IsBalanced, start_commands-IsBalanced,
}
use engine_api_workflow.Queue.Balance.Transitions.{
  completed_commands-IsBalanced, failed_commands-IsBalanced, restart_commands-IsBalanced,
}
use engine_api_workflow.Queue.Balance.Rewrites.{
  retry_later-IsBalanced, retry_now-IsBalanced, update_processing-IsBalanced,
  update_completed-IsBalanced, update_failed-IsBalanced,
}
use engine_api_workflow.Queue.Rules.{
  or_raise-some_rule, exec_rule, smembers_rule, zrange_by_score_rule, zpop_min_rule, or_raise_rule,
  then_rule,
}
use engine_api_workflow.Queue.Loops.{
  release_all-IsBalanced, clean_all-IsBalanced, tally, ztally, tally-in_range, tally-le,
}

module _ (codec : Codec) (redis : Redis) (sure : IsReliable redis) where
  open codec use {marshal, unmarshal}
  open redis use {Store, view, before, exec}

  abbrev P : View → Type 0
  P = IsBalanced codec

  pub enqueue-IsBalanced :
      (workflow_id execution_id user_id : String) (payload : Fields) (priority : ℤ) (now : ℕ)
      (s : Store)
      → holders codec (item_id execution_id now) (view s) ≡ 0
      → P (view s)
      → P (view (enqueue codec redis workflow_id execution_id user_id payload priority now s).1)
  unfolding enqueue
  enqueue-IsBalanced workflow_id execution_id user_id payload priority now s fresh b =
      or_raise_rule redis sure P _ marshal_failed _ s b λ m w. exec_rule redis sure P _ s (
        enqueue_commands-IsBalanced codec before priority m _ (view s) w refl
          (has_underscore-item_id execution_id now) fresh b)

  pub enqueue_delayed-IsBalanced :
      (workflow_id execution_id user_id : String) (payload : Fields) (priority : ℤ) (delay now : ℕ)
      (s : Store)
      → holders codec (item_id execution_id now) (view s) ≡ 0
      → P (view s)
      → P (
          view
            (enqueue_delayed codec redis workflow_id execution_id user_id payload priority delay now
              s).1)
  unfolding enqueue_delayed
  enqueue_delayed-IsBalanced workflow_id execution_id user_id payload priority delay now s fresh b =
      or_raise_rule redis sure P _ marshal_failed _ s b λ m w. exec_rule redis sure P _ s (
        delay_commands-IsBalanced codec before _ m _ (view s) w
          (has_underscore-item_id execution_id now) fresh b)

  pub move_delayed_to_queue-IsBalanced :
      (now : ℕ) (s : Store) → P (view s) → P (view (move_delayed_to_queue codec redis now s).1)
  unfolding move_delayed_to_queue
  move_delayed_to_queue-IsBalanced now s b =
      zrange_by_score_rule redis sure P delayed_queue _ _ _ s λ t same.
        send (in_range (pos 0) (pos (unix now)) (view s).later) t (subst P (sym same) b) (
          subst
            (λ v.
              (x : String)
              → tally x (in_range (pos 0) (pos (unix now)) (view s).later) ≤ ztally x v.later)
            (sym same) λ x. tally-in_range x (pos 0) (pos (unix now)) (view s).later)
    where
      send :
          (ms : List String) (t : Store)
          → P (view t)
          → ((x : String) → tally x ms ≤ ztally x (view t).later)
          → P (
              view
                ((elim ms as (λ _. Exec Store (Unit {0})) [
                  | [] ↦ pure tt
                  | m ∷ rest ↦ exec (release_all codec (m ∷ rest))
                ])
                  t).1)
      send [] t b there = b
      send (m ∷ rest) t b there =
          exec_rule redis sure P _ t
            (release_all-IsBalanced codec before (m ∷ rest) (view t) there b)

  -- ZPOPMIN has taken the first member out of the view `v`.
  start_item-IsBalanced :
      (new_id : String) (now : ℕ) (m : String) (score : ℤ) (rest : Sorted) (v : View) (t : Store)
      → v.queue ≡ (score, m) ∷ rest
      → view t ≡ record v { queue = rest }
      → P v
      → P (view (start_item codec redis new_id now m t).1)
  unfolding start_item
  start_item-IsBalanced new_id now m score rest v t first same b =
      let (i, w) = first-AllWritten codec score m rest (subst (AllWritten codec) first b.written) in
      let u = codec.unmarshal-marshal i m w in
      let (n, wn) = codec.marshal_payload i (as_processing now i) m refl w in
      or_raise-some_rule redis sure P _ unmarshal_failed _ t i u (
        or_raise-some_rule redis sure P _ marshal_failed _ t n wn (
          then_rule redis sure P _ _ t
            (exec_rule redis sure P _ t (
              subst (λ z. P (apply_all before (start_commands n) z)) (sym same)
                (start_commands-IsBalanced codec before m n i (as_processing now i) score rest v u
                  wn refl first b)))
            λ _ _ h. h))

  pub dequeue-IsBalanced :
      (new_id : String) (now : ℕ) (s : Store)
      → P (view s)
      → P (view (dequeue codec redis new_id now s).1)
  unfolding dequeue
  dequeue-IsBalanced new_id now s b =
      then_rule redis sure P _ _ s (move_delayed_to_queue-IsBalanced now s b) λ _ t c.
        zpop_min_rule redis sure P workflow_queue _ t
          (λ u same.
            or_raise_rule redis sure P none queue_empty _ u (subst P (sym same) c)
              (λ a e. absurd (cc)))
          λ u score m rest first same.
            or_raise-some_rule redis sure P _ queue_empty _ u m refl
              (start_item-IsBalanced new_id now m score rest (view t) u first same c)

  pub enqueue_at-IsBalanced :
      (workflow_id execution_id user_id : String) (payload : Fields) (priority : ℤ)
      (scheduled_at now : ℕ) (s : Store)
      → holders codec (item_id execution_id now) (view s) ≡ 0
      → P (view s)
      → P (
          view
            (enqueue_at codec redis workflow_id execution_id user_id payload priority scheduled_at
              now s).1)
  unfolding enqueue_at
  enqueue_at-IsBalanced workflow_id execution_id user_id payload priority scheduled_at now s fresh
        b =
      elim (Bool-cases (leb scheduled_at now)) [
        | inl due ↦
            rw due
              (enqueue-IsBalanced workflow_id execution_id user_id payload priority now s fresh b)
        | inr later ↦ rw later (
            enqueue_delayed-IsBalanced workflow_id execution_id user_id payload priority _ now s
              fresh b)
      ]
