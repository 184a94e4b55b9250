-- ===== src/Queue/Balance/Transitions.antt =====
-- The pipelines of internal/repository/redis/queue_repository.go that end, release or restart a task in
-- processing keep the counters.
use engine_api_workflow.Common.{Bool, ◌≡◌, pos, neg, String, true, some, arith, ap, sym, ◌∙◌}
use engine_api_workflow.Queue.Redis.{View, apply_all, has}
use engine_api_workflow.Queue.Item.{QueueItem, Codec}
use engine_api_workflow.Queue.Pipelines.{
  release_commands, completed_commands, failed_commands, restart_commands, expire_retry_commands,
  expire_fail_commands,
}
use engine_api_workflow.Queue.Census.{zhas, holders, zinsert-AllWritten}
use engine_api_workflow.Queue.Order.{zinsert-IsRanked}
use engine_api_workflow.Queue.Moves.{move_set, move_set_sorted, move_sorted}
use engine_api_workflow.Queue.Balance.{IsBalanced, up, down}

module _ (codec : Codec) (before : String → String → Bool) where
  open codec use {marshal, unmarshal}

  module _ (m n : String) (i j : QueueItem) (v : View) (um : unmarshal m ≡ some i)
      (wn : marshal j ≡ some n) (same : j.id ≡ i.id) (level : j.priority ≡ i.priority)
      (b : IsBalanced codec v) where
    pub completed_commands-IsBalanced :
        has m v.running ≡ true → IsBalanced codec (apply_all before (completed_commands m n) v)
    unfolding apply_all holders
    completed_commands-IsBalanced here =
        let (left, came, kept) =
          move_set codec before m n i j um (codec.unmarshal-marshal j n wn) same v.running v.done
            here (omega (arith, b.unique i.id)) in
        record {
          queued_count = b.queued_count;
          delayed_count = b.delayed_count;
          processing_count = down v.n_processing _ _ b.processing_count left;
          completed_count = up v.n_completed _ _ b.completed_count came;
          failed_count = b.failed_count;
          total_count = b.total_count ∙ ap pos (omega (arith, left, came));
          unique = λ id. omega (arith, b.unique id, kept id);
          named = λ id plain. omega (arith, b.named id plain, kept id);
          written = b.written;
          ranked = b.ranked;
        }

    pub failed_commands-IsBalanced :
        has m v.running ≡ true → IsBalanced codec (apply_all before (failed_commands m n) v)
    unfolding apply_all holders
    failed_commands-IsBalanced here =
        let (left, came, kept) =
          move_set codec before m n i j um (codec.unmarshal-marshal j n wn) same v.running v.dead
            here (omega (arith, b.unique i.id)) in
        record {
          queued_count = b.queued_count;
          delayed_count = b.delayed_count;
          processing_count = down v.n_processing _ _ b.processing_count left;
          completed_count = b.completed_count;
          failed_count = up v.n_failed _ _ b.failed_count came;
          total_count = b.total_count ∙ ap pos (omega (arith, left, came));
          unique = λ id. omega (arith, b.unique id, kept id);
          named = λ id plain. omega (arith, b.named id plain, kept id);
          written = b.written;
          ranked = b.ranked;
        }

    pub release_commands-IsBalanced :
        zhas m v.later ≡ true → IsBalanced codec (apply_all before (release_commands i m n) v)
    unfolding apply_all holders
    release_commands-IsBalanced here =
        let (left, came, kept) =
          move_sorted codec before m n i j um (codec.unmarshal-marshal j n wn) same (neg i.priority)
            v.later v.queue here (omega (arith, b.unique i.id)) in
        record {
          queued_count = up v.n_queued _ _ b.queued_count came;
          delayed_count = down v.n_delayed _ _ b.delayed_count left;
          processing_count = b.processing_count;
          completed_count = b.completed_count;
          failed_count = b.failed_count;
          total_count = b.total_count ∙ ap pos (omega (arith, left, came));
          unique = λ id. omega (arith, b.unique id, kept id);
          named = λ id plain. omega (arith, b.named id plain, kept id);
          written = zinsert-AllWritten codec before (neg i.priority) n j v.queue wn b.written;
          ranked =
              zinsert-IsRanked codec before (neg i.priority) n j v.queue wn (ap neg (sym level))
                b.ranked;
        }

    pub restart_commands-IsBalanced :
        has m v.dead ≡ true → IsBalanced codec (apply_all before (restart_commands i m n) v)
    unfolding apply_all holders
    restart_commands-IsBalanced here =
        let (left, came, kept) =
          move_set_sorted codec before m n i j um (codec.unmarshal-marshal j n wn) same
            (neg i.priority) v.dead v.queue here (omega (arith, b.unique i.id)) in
        record {
          queued_count = up v.n_queued _ _ b.queued_count came;
          delayed_count = b.delayed_count;
          processing_count = b.processing_count;
          completed_count = b.completed_count;
          failed_count = down v.n_failed _ _ b.failed_count left;
          total_count = b.total_count ∙ ap pos (omega (arith, left, came));
          unique = λ id. omega (arith, b.unique id, kept id);
          named = λ id plain. omega (arith, b.named id plain, kept id);
          written = zinsert-AllWritten codec before (neg i.priority) n j v.queue wn b.written;
          ranked =
              zinsert-IsRanked codec before (neg i.priority) n j v.queue wn (ap neg (sym level))
                b.ranked;
        }

    pub expire_retry-IsBalanced :
        has m v.running ≡ true → IsBalanced codec (apply_all before (expire_retry_commands i m n) v)
    unfolding apply_all holders
    expire_retry-IsBalanced here =
        let (left, came, kept) =
          move_set_sorted codec before m n i j um (codec.unmarshal-marshal j n wn) same
            (neg i.priority) v.running v.queue here (omega (arith, b.unique i.id)) in
        record {
          queued_count = up v.n_queued _ _ b.queued_count came;
          delayed_count = b.delayed_count;
          processing_count = down v.n_processing _ _ b.processing_count left;
          completed_count = b.completed_count;
          failed_count = b.failed_count;
          total_count = b.total_count ∙ ap pos (omega (arith, left, came));
          unique = λ id. omega (arith, b.unique id, kept id);
          named = λ id plain. omega (arith, b.named id plain, kept id);
          written = zinsert-AllWritten codec before (neg i.priority) n j v.queue wn b.written;
          ranked =
              zinsert-IsRanked codec before (neg i.priority) n j v.queue wn (ap neg (sym level))
                b.ranked;
        }

    pub expire_fail-IsBalanced :
        has m v.running ≡ true → IsBalanced codec (apply_all before (expire_fail_commands m n) v)
    unfolding apply_all holders
    expire_fail-IsBalanced here =
        let (left, came, kept) =
          move_set codec before m n i j um (codec.unmarshal-marshal j n wn) same v.running v.dead
            here (omega (arith, b.unique i.id)) in
        record {
          queued_count = b.queued_count;
          delayed_count = b.delayed_count;
          processing_count = down v.n_processing _ _ b.processing_count left;
          completed_count = b.completed_count;
          failed_count = up v.n_failed _ _ b.failed_count came;
          total_count = b.total_count ∙ ap pos (omega (arith, left, came));
          unique = λ id. omega (arith, b.unique id, kept id);
          named = λ id plain. omega (arith, b.named id plain, kept id);
          written = b.written;
          ranked = b.ranked;
        }
