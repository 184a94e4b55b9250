-- ===== src/Queue/Identity.antt =====
-- Tasks and items are named differently: Dequeue hands out a task under a fresh ObjectID, and the
-- operations that end a task search for an item ID.
use engine_api_workflow.Common.{
  ℕ, ◌≡◌, refl, sym, subst, ◌∙◌, String, List, false, Option, none, arith, has_underscore,
  Option-cases, inl, inr,
}
use engine_api_workflow.Queue.Redis.{
  Redis, IsReliable, err, task_not_found, has, processing_set, ◌>>=◌,
}
use engine_api_workflow.Queue.Item.{Codec}
use engine_api_workflow.Queue.Pipelines.{find_item}
use engine_api_workflow.Queue.Repository.{mark_completed, mark_failed}
use engine_api_workflow.Queue.Census.{
  ids, carries, carries_own, ids-remove, find_item-some, holders,
}
use engine_api_workflow.Queue.Balance.{IsBalanced}
use engine_api_workflow.Queue.History.{Reach, Reach-IsBalanced}

module _ (codec : Codec) (redis : Redis) where
  open codec use {unmarshal}
  open redis use {Store, view}

  -- No member of a list that stands in a set without the ID is found by it.
  find_item-none :
      (id : String) (ms l : List String)
      → ((x : String) → has x ms ≡ has x l)
      → ids codec id l ≡ 0
      → find_item codec id ms ≡ none
  find_item-none id ms l there free = elim (Option-cases (find_item codec id ms)) [
    | inl missing ↦ missing
    | inr ((m, i), found) ↦
        let (listed, decodes, named) = find_item-some codec id m i ms found in
        absurd (
          omega (
            arith,
            ids-remove codec id m l (sym (there m) ∙ listed),
            subst (λ j. carries codec j m ≡ 1) named (carries_own codec m i decodes),
          ))
  ]

  module _ (sure : IsReliable redis) where
    mark_completed_misses :
        (task_id : String) (now : ℕ) (s : Store)
        → ids codec task_id (view s).running ≡ 0
        → ((mark_completed codec redis task_id now s).0 ≡ err task_not_found)
          × (view (mark_completed codec redis task_id now s).1 ≡ view s)
    unfolding mark_completed ◌>>=◌
    mark_completed_misses task_id now s free =
        let (ms, e) = sure.smembers_answers processing_set s in
        let (_, there, same) = redis.smembers_ok processing_set s ms e in
        let missing = find_item-none task_id ms (view s).running there free in
        rw (e, missing) (refl, same)

    mark_failed_misses :
        (task_id : String) (cause : Option String) (now : ℕ) (s : Store)
        → ids codec task_id (view s).running ≡ 0
        → ((mark_failed codec redis task_id cause now s).0 ≡ err task_not_found)
          × (view (mark_failed codec redis task_id cause now s).1 ≡ view s)
    unfolding mark_failed ◌>>=◌
    mark_failed_misses task_id cause now s free =
        let (ms, e) = sure.smembers_answers processing_set s in
        let (_, there, same) = redis.smembers_ok processing_set s ms e in
        let missing = find_item-none task_id ms (view s).running there free in
        rw (e, missing) (refl, same)

    -- After any history from a balanced database, MarkCompleted and MarkFailed answer that the task
    -- is not found, and change nothing, whenever they are called with an identifier that has no
    -- underscore. The hex text of an ObjectID, under which Dequeue hands out every task, has none.
    pub Reach-not_found :
        {s t : Store} (task_id : String) (cause : Option String) (now : ℕ)
        → Reach codec redis s t
        → IsBalanced codec (view s)
        → has_underscore task_id ≡ false
        → ((mark_completed codec redis task_id now t).0 ≡ err task_not_found)
          × (view (mark_completed codec redis task_id now t).1 ≡ view t)
          × ((mark_failed codec redis task_id cause now t).0 ≡ err task_not_found)
          × (view (mark_failed codec redis task_id cause now t).1 ≡ view t)
    unfolding holders
    Reach-not_found {s} {t} task_id cause now r b plain =
        let c = Reach-IsBalanced codec redis sure r b in
        let free : ids codec task_id (view t).running ≡ 0 = omega (arith, c.named task_id plain) in
        let (p, q) = mark_completed_misses task_id now t free in
        let (u, v) = mark_failed_misses task_id cause now t free in (p, q, u, v)
