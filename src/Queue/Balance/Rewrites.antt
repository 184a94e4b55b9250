-- ===== src/Queue/Balance/Rewrites.antt =====
-- The pipelines of internal/repository/redis/queue_repository.go that retry a failed task or write an
-- item anew keep the counters.
use engine_api_workflow.Common.{
  Bool, ℕ, ◌≡◌, pos, neg, String, [], ◌∷◌, true, some, arith, ap, sym, ◌∙◌,
}
use engine_api_workflow.Queue.Redis.{
  View, apply_all, has, srem, sadd, processing_set, completed_set, failed_set,
}
use engine_api_workflow.Queue.Item.{QueueItem, Codec}
use engine_api_workflow.Queue.Pipelines.{retry_later_commands, retry_now_commands}
use engine_api_workflow.Queue.Census.{holders, zinsert-AllWritten}
use engine_api_workflow.Queue.Order.{zinsert-IsRanked}
use engine_api_workflow.Queue.Moves.{move_set_sorted, rewrite_set}
use engine_api_workflow.Queue.Balance.{IsBalanced, up, down}

module _ (codec : Codec) (before : String → String → Bool) where
  open codec use {marshal, unmarshal}

  module _ (m n : String) (i j : QueueItem) (v : View) (um : unmarshal m ≡ some i)
      (wn : marshal j ≡ some n) (same : j.id ≡ i.id) (level : j.priority ≡ i.priority)
      (b : IsBalanced codec v) where
    pub retry_later-IsBalanced :
        (score : ℕ)
        → has m v.running ≡ true
        → IsBalanced codec (apply_all before (retry_later_commands score m n) v)
    unfolding apply_all holders
    retry_later-IsBalanced score here =
        let (left, came, kept) =
          move_set_sorted codec before m n i j um (codec.unmarshal-marshal j n wn) same (pos score)
            v.running v.later here (omega (arith, b.unique i.id)) in
        record {
          queued_count = b.queued_count;
          delayed_count = up v.n_delayed _ _ b.delayed_count came;
          processing_count = down v.n_processing _ _ b.processing_count left;
          completed_count = b.completed_count;
          failed_count = b.failed_count;
          total_count = b.total_count ∙ ap pos (omega (arith, left, came));
          unique = λ id. omega (arith, b.unique id, kept id);
          named = λ id plain. omega (arith, b.named id plain, kept id);
          written = b.written;
          ranked = b.ranked;
        }

    pub retry_now-IsBalanced :
        has m v.running ≡ true → IsBalanced codec (apply_all before (retry_now_commands i m n) v)
    unfolding apply_all holders
    retry_now-IsBalanced here =
        let (left, came, kept) =
          move_set_sorted codec before m n i j um (codec.unmarshal-marshal j n wn) same
            (neg i.priority) v.running v.queue here (omega (arith, b.unique i.id)) in
        record {
          queued_count = up v.n_queued _ _ b.queued_count came;
          delayed_count = b.delayed_count;
          processing_count = down v.n_processing _ _ b.processing_count left;
          completed_count = b.completed_count;
          failed_count = b.failed_count;
          total_count = b.total_count ∙ ap pos (omega (arith, left, came));
          unique = λ id. omega (arith, b.unique id, kept id);
          named = λ id plain. omega (arith, b.named id plain, kept id);
          written = zinsert-AllWritten codec before (neg i.priority) n j v.queue wn b.written;
          ranked =
              zinsert-IsRanked codec before (neg i.priority) n j v.queue wn (ap neg (sym level))
                b.ranked;
        }

    pub update_processing-IsBalanced :
        has m v.running ≡ true
        → IsBalanced codec (apply_all before (srem processing_set m ∷ sadd processing_set n ∷ []) v)
    unfolding apply_all holders
    update_processing-IsBalanced here =
        let (size, kept) =
          rewrite_set codec before m n i j um (codec.unmarshal-marshal j n wn) same v.running here
            (omega (arith, b.unique i.id)) in
        record {
          queued_count = b.queued_count;
          delayed_count = b.delayed_count;
          processing_count = b.processing_count ∙ ap pos (sym size);
          completed_count = b.completed_count;
          failed_count = b.failed_count;
          total_count = b.total_count ∙ ap pos (omega (arith, size));
          unique = λ id. omega (arith, b.unique id, kept id);
          named = λ id plain. omega (arith, b.named id plain, kept id);
          written = b.written;
          ranked = b.ranked;
        }

    pub update_completed-IsBalanced :
        has m v.done ≡ true
        → IsBalanced codec (apply_all before (srem completed_set m ∷ sadd completed_set n ∷ []) v)
    unfolding apply_all holders
    update_completed-IsBalanced here =
        let (size, kept) =
          rewrite_set codec before m n i j um (codec.unmarshal-marshal j n wn) same v.done here
            (omega (arith, b.unique i.id)) in
        record {
          queued_count = b.queued_count;
          delayed_count = b.delayed_count;
          processing_count = b.processing_count;
          completed_count = b.completed_count ∙ ap pos (sym size);
          failed_count = b.failed_count;
          total_count = b.total_count ∙ ap pos (omega (arith, size));
          unique = λ id. omega (arith, b.unique id, kept id);
          named = λ id plain. omega (arith, b.named id plain, kept id);
          written = b.written;
          ranked = b.ranked;
        }

    pub update_failed-IsBalanced :
        has m v.dead ≡ true
        → IsBalanced codec (apply_all before (srem failed_set m ∷ sadd failed_set n ∷ []) v)
    unfolding apply_all holders
    update_failed-IsBalanced here =
        let (size, kept) =
          rewrite_set codec before m n i j um (codec.unmarshal-marshal j n wn) same v.dead here
            (omega (arith, b.unique i.id)) in
        record {
          queued_count = b.queued_count;
          delayed_count = b.delayed_count;
          processing_count = b.processing_count;
          completed_count = b.completed_count;
          failed_count = b.failed_count ∙ ap pos (sym size);
          total_count = b.total_count ∙ ap pos (omega (arith, size));
          unique = λ id. omega (arith, b.unique id, kept id);
          named = λ id plain. omega (arith, b.named id plain, kept id);
          written = b.written;
          ranked = b.ranked;
        }
