-- ===== src/Queue/Dequeue.antt =====
-- Dequeue: what it answers, on a connection that does not fail.
use engine_api_workflow.Common.{
  str_eq_iff, arith, ℕ, ◌≡◌, ◌⊎◌, refl, sym, ap, subst, ◌∙◌, inl, inr, ◌≤ℤ◌, String, [], true,
  Option, none, some,
}
use engine_api_workflow.Queue.Redis.{
  Redis, IsReliable, ok, err, queue_empty, View, workflow_queue, ◌>>=◌,
}
use engine_api_workflow.Queue.Item.{QueueItem, Codec, convert_queue_item_to_task}
use engine_api_workflow.Queue.Pipelines.{as_processing, start_commands}
use engine_api_workflow.Queue.Repository.{move_delayed_to_queue, start_item, dequeue}
use engine_api_workflow.Queue.Census.{zhas, first-AllWritten, AllWritten}
use engine_api_workflow.Queue.Order.{IsRanked, first_highest}
use engine_api_workflow.Queue.Balance.{IsBalanced}
use engine_api_workflow.Queue.Counters.{move_delayed_to_queue-IsBalanced}

module _ (codec : Codec) (redis : Redis) (sure : IsReliable redis) where
  open codec use {marshal, unmarshal}
  open redis use {Store, view, zpop_min}

  start_item_ok :
      (new_id : String) (now : ℕ) (m n : String) (i : QueueItem) (t : Store)
      → unmarshal m ≡ some i
      → marshal (as_processing now i) ≡ some n
      → (start_item codec redis new_id now m t).0
        ≡ ok (convert_queue_item_to_task new_id now (as_processing now i))
  unfolding start_item ◌>>=◌
  start_item_ok new_id now m n i t u w = rw (u, w) (rw (sure.exec_answers (start_commands n) t))

  -- The database after the items whose delay is over have been moved to the queue.
  abbrev pub due : ℕ → Store → View
  due now s = view (move_delayed_to_queue codec redis now s).1

  -- An item whose priority no item of the queue exceeds.
  abbrev pub IsHighest : View → QueueItem → Type 0
  IsHighest w i =
      (x : String) (k : QueueItem)
      → zhas x w.queue ≡ true
      → unmarshal x ≡ some k
      → k.priority ≤ℤ i.priority

  -- From a balanced database, Dequeue first moves the items that are due to the queue. If the queue
  -- is then empty it says so and leaves the database at that. If not, it returns the task of an item
  -- of the queue whose priority none exceeds, marked as processing.
  pub dequeue-IsHighest :
      (new_id : String) (now : ℕ) (s : Store)
      → IsBalanced codec (view s)
      → let r = dequeue codec redis new_id now s in
        (((due now s).queue ≡ []) × (r.0 ≡ err queue_empty) × (view r.1 ≡ due now s))
        ⊎ ((m : String) × (i : QueueItem) × (zhas m (due now s).queue ≡ true)
            × (unmarshal m ≡ some i)
            × IsHighest (due now s) i
            × (r.0 ≡ ok (convert_queue_item_to_task new_id now (as_processing now i))))
  unfolding dequeue ◌>>=◌ zhas
  dequeue-IsHighest new_id now s b =
      go (sure.zpop_min_answers workflow_queue t).0 (sure.zpop_min_answers workflow_queue t).1
    where
      t : Store
      t = (move_delayed_to_queue codec redis now s).1

      c : IsBalanced codec (view t)
      c = move_delayed_to_queue-IsBalanced codec redis sure now s b

      go :
          (o : Option String)
          → (zpop_min workflow_queue t).0 ≡ ok o
          → (((due now s).queue ≡ [])
              × ((dequeue codec redis new_id now s).0 ≡ err queue_empty)
              × (view (dequeue codec redis new_id now s).1 ≡ due now s))
            ⊎ ((m : String) × (i : QueueItem) × (zhas m (due now s).queue ≡ true)
                × (unmarshal m ≡ some i)
                × IsHighest (due now s) i
                × ((dequeue codec redis new_id now s).0
                    ≡ ok (convert_queue_item_to_task new_id now (as_processing now i))))
      go none e =
          let (empty, same) = redis.zpop_min_none workflow_queue t e in
          inl (empty, rw e refl, rw e same)
      go (some m) e =
          let (score, rest, first, same) = redis.zpop_min_some workflow_queue t m e in
          let (i, w) =
            first-AllWritten codec score m rest (subst (AllWritten codec) first c.written) in
          let u = codec.unmarshal-marshal i m w in
          let (n, wn) = codec.marshal_payload i (as_processing now i) m refl w in
          let rank = subst (IsRanked codec) first c.ranked in
          inr (
            m,
            i,
            ap (zhas m) first ∙ (ground (arith, str_eq_iff m m)),
            u,
            λ x k there ux.
                first_highest codec score m x rest i k rank u ux (sym (ap (zhas x) first) ∙ there),
            rw e (start_item_ok new_id now m n i _ u wn),
          )
