-- ===== src/Tests/Services.antt =====
-- The tasks of the queue service on a server in memory, written when they have no payload.
use engine_api_workflow.Common.{
  if◌then◌else◌, ℕ, String, ◌≡◌, refl, sym, ap, ◌∙◌, [], ◌∷◌, Option, none, some, arith, str_eq,
}
use engine_api_workflow.Models.Value.{Fields, end, field}
use engine_api_workflow.Queue.Redis.{ok}
use engine_api_workflow.Queue.Named.{Keys}
use engine_api_workflow.Queue.Service.{
  ServiceTask, TaskJson, filled, queue_low, queue_failed, queue_high, enqueue_task, dequeue_task,
}
use engine_api_workflow.Queue.Service.Travel.{dequeue_task-enqueue_task}
use engine_api_workflow.Queue.Service.Rounds.{fail_rounds, fail_rounds-ends, at_count}
use engine_api_workflow.Tests.Format.{
  write_text, read_text, read_text-write_text, write_nat, read_nat, read_nat-write_nat,
}
use engine_api_workflow.Tests.NamedQueues.{
  named_memory, named_memory-NeverFails, empty_keys, no_sets,
}

abbrev pub written_task : ServiceTask → String
written_task t = write_text t.id (
    write_text t.kind
      (write_nat t.retry_count (write_nat t.max_retries (write_nat t.created_at ""))))

abbrev pub marshal_task_with : Fields → Option ℕ → ServiceTask → Option String
marshal_task_with end none t = some (written_task t)
marshal_task_with end (some n) t = none
marshal_task_with (field k v f) o t = none

abbrev pub marshal_task : ServiceTask → Option String
marshal_task t = marshal_task_with t.payload t.scheduled_at t

abbrev pub then_read {ℓ κ} :
    {A : Type ℓ} {B : Type κ} → (A → String → Option B) → Option (A × String) → Option B
then_read f none = none
then_read f (some (a, s)) = f a s

abbrev pub unmarshal_task : String → Option ServiceTask
unmarshal_task m =
    then_read
      (λ id a.
        then_read
          (λ kind b.
            then_read
              (λ retry_count c.
                then_read
                  (λ max_retries d.
                    then_read
                      (λ created_at e. some (record {
                        id = id;
                        kind = kind;
                        payload = end;
                        retry_count = retry_count;
                        max_retries = max_retries;
                        created_at = created_at;
                        scheduled_at = none;
                      }))
                      (read_nat d))
                  (read_nat c))
              (read_nat b))
          (read_text a))
      (read_text m)

unmarshal_task-written_task :
    (t : ServiceTask)
    → unmarshal_task (written_task t) ≡ some (record t { payload = end; scheduled_at = none })
unmarshal_task-written_task t =
    let tail_c = write_nat t.created_at "" in
    let tail_m = write_nat t.max_retries tail_c in
    let tail_r = write_nat t.retry_count tail_m in
    let tail_k = write_text t.kind tail_r in
    rw
      (
        read_text-write_text t.id tail_k,
        read_text-write_text t.kind tail_r,
        read_nat-write_nat t.retry_count tail_m,
        read_nat-write_nat t.max_retries tail_c,
        read_nat-write_nat t.created_at "",
      )
      refl

unmarshal_task-marshal_task :
    (t : ServiceTask) (m : String) → marshal_task t ≡ some m → unmarshal_task m ≡ some t
unmarshal_task-marshal_task t m h = go t.payload t.scheduled_at refl refl h
  where
    go :
        (f : Fields) (o : Option ℕ)
        → t.payload ≡ f
        → t.scheduled_at ≡ o
        → marshal_task_with f o t ≡ some m
        → unmarshal_task m ≡ some t
    go end none e d k =
        let same : written_task t ≡ m = ground (arith, k) in
        ap unmarshal_task (sym same)
        ∙ unmarshal_task-written_task t
        ∙ ap (λ f. some (record t { payload = f; scheduled_at = none })) (sym e)
        ∙ ap (λ o. some (record t { scheduled_at = o })) (sym d)
    go end (some n) e d k = absurd (ground (arith, k))
    go (field x v f) o e d k = absurd (ground (arith, k))

abbrev task_json : TaskJson
task_json = record {
  marshal = marshal_task;
  unmarshal = unmarshal_task;
  unmarshal-marshal = unmarshal_task-marshal_task;
}

abbrev small_task : ServiceTask
small_task = record {
  id = "a";
  kind = "webhook_call";
  payload = end;
  retry_count = 1;
  max_retries = 3;
  created_at = 5;
  scheduled_at = none;
}

dequeue_task-enqueue_task_example :
    let r =
      dequeue_task task_json named_memory
        (queue_high ∷ queue_low ∷ [])
        (enqueue_task task_json named_memory queue_high small_task 7 empty_keys).1 in
    (r.0 ≡ ok (some (filled 7 small_task))) × (r.1.lists queue_high ≡ [])
dequeue_task-enqueue_task_example =
    dequeue_task-enqueue_task task_json named_memory named_memory-NeverFails queue_high
      (written_task (filled 7 small_task)) (queue_low ∷ []) small_task 7 empty_keys refl refl

abbrev one_task : Keys
one_task = record {
  lists = λ k. if str_eq k queue_low then written_task small_task ∷ [] else [];
  sorted = no_sets;
}

fail_rounds-ends_example :
    let r = fail_rounds task_json named_memory 4 9 one_task in
    (r.0 ≡ ok tt)
    × (r.1.lists queue_low ≡ [])
    × (n : String) × (r.1.lists queue_failed ≡ n ∷ [])
    × (unmarshal_task n ≡ some (at_count 3 small_task))
fail_rounds-ends_example =
    fail_rounds-ends task_json named_memory named_memory-NeverFails 4 9 (written_task small_task)
      small_task one_task (λ c. (written_task (at_count c small_task), refl)) (refl, refl, refl)
      (omega arith) (omega arith) refl (unmarshal_task-written_task small_task)
