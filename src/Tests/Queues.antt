-- ===== src/Tests/Queues.antt =====
-- The theorems on the queue at small databases.
use engine_api_workflow.Common.{
  true, String, ◌≡◌, refl, [], none, some, pos, arith, ◌⊎◌, has_underscore,
}
use engine_api_workflow.Models.Value.{end}
use engine_api_workflow.Queue.Redis.{queue_empty, View, err, ok, task_not_found}
use engine_api_workflow.Queue.Item.{convert_queue_item_to_task, QueueItem}
use engine_api_workflow.Queue.Repository.{enqueue, dequeue, mark_completed, mark_failed}
use engine_api_workflow.Queue.Census.{holders, zids, ids, zhas}
use engine_api_workflow.Queue.Balance.{IsBalanced}
use engine_api_workflow.Queue.History.{Reach, here, next, enqueues, dequeues, Reach-IsBalanced}
use engine_api_workflow.Queue.Pipelines.{as_processing}
use engine_api_workflow.Queue.Dequeue.{dequeue-IsHighest, due, IsHighest}
use engine_api_workflow.Queue.Identity.{Reach-not_found}
use engine_api_workflow.Tests.Format.{text_codec}
use engine_api_workflow.Tests.Server.{memory, memory-IsReliable}

abbrev pub empty : View
empty = record {
  queue = [];
  later = [];
  running = [];
  done = [];
  dead = [];
  n_queued = pos 0;
  n_total = pos 0;
  n_delayed = pos 0;
  n_processing = pos 0;
  n_completed = pos 0;
  n_failed = pos 0;
  n_retries = pos 0;
}

pub empty-IsBalanced : IsBalanced text_codec empty
unfolding holders zids ids zhas
empty-IsBalanced = record {
  queued_count = refl;
  delayed_count = refl;
  processing_count = refl;
  completed_count = refl;
  failed_count = refl;
  total_count = refl;
  unique = λ id. omega arith;
  named = λ id h. refl;
  written = λ m h. absurd (ground arith);
  ranked = (tt, tt);
}

unfoldable pub start : memory.Store
unfolding memory
start = empty

pub start-IsBalanced : IsBalanced text_codec (memory.view start)
unfolding memory start
start-IsBalanced = empty-IsBalanced

-- One task waits, and then it runs.
abbrev pub one_waiting : memory.Store
one_waiting = (enqueue text_codec memory "w1" "e1" "u1" end (pos 2) 5 start).1

abbrev pub one_running : memory.Store
one_running = (dequeue text_codec memory "a1" 9 one_waiting).1

waiting_history : Reach text_codec memory start one_waiting
unfolding memory start holders zids ids
waiting_history = next here (enqueues "w1" "e1" "u1" end (pos 2) 5 refl)

pub queue_history : Reach text_codec memory start one_running
queue_history = next waiting_history (dequeues "a1" 9)

Reach-IsBalanced_example : IsBalanced text_codec (memory.view one_running)
Reach-IsBalanced_example =
    Reach-IsBalanced text_codec memory memory-IsReliable queue_history start-IsBalanced

-- The waiting task is the one that is taken.
dequeue-IsHighest_example :
    let r = dequeue text_codec memory "a1" 9 one_waiting in
    (((due text_codec memory memory-IsReliable 9 one_waiting).queue ≡ [])
      × (r.0 ≡ err queue_empty)
      × (memory.view r.1 ≡ due text_codec memory memory-IsReliable 9 one_waiting))
    ⊎ ((m : String) × (i : QueueItem) × (zhas m
            (due text_codec memory memory-IsReliable 9 one_waiting).queue
          ≡ true)
        × (text_codec.unmarshal m ≡ some i)
        × IsHighest text_codec memory memory-IsReliable
            (due text_codec memory memory-IsReliable 9 one_waiting)
            i
        × (r.0 ≡ ok (convert_queue_item_to_task "a1" 9 (as_processing 9 i))))
dequeue-IsHighest_example =
    dequeue-IsHighest text_codec memory memory-IsReliable "a1" 9 one_waiting
      (Reach-IsBalanced text_codec memory memory-IsReliable waiting_history start-IsBalanced)

Reach-not_found_example :
    ((mark_completed text_codec memory "a1" 12 one_running).0 ≡ err task_not_found)
    × (memory.view (mark_completed text_codec memory "a1" 12 one_running).1
        ≡ memory.view one_running)
    × ((mark_failed text_codec memory "a1" none 12 one_running).0 ≡ err task_not_found)
    × (memory.view (mark_failed text_codec memory "a1" none 12 one_running).1
        ≡ memory.view one_running)
unfolding has_underscore
Reach-not_found_example =
    Reach-not_found text_codec memory memory-IsReliable "a1" none 12 queue_history start-IsBalanced
      refl
