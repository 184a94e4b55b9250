-- ===== src/Models/Task/Stamps.antt =====
-- UpdateStatus: the timestamps that a change of status sets.
use engine_api_workflow.Common.{
  inl, inr, ◌≢◌, ◌⊎◌, false, ℕ, ◌≡◌, List, [], ◌∷◌, some, true, arith, is_some,
}
use engine_api_workflow.Models.Task.{
  pending, queued, completed, failed, cancelled, retrying, scheduled, QueueTask, TaskStatus,
  processing, is_completed, update_status,
}

abbrev pub update_all : List (TaskStatus × ℕ) → QueueTask → QueueTask
update_all [] t = t
update_all ((s, now) ∷ us) t = update_all us (update_status s now t)

update_status-completed_at :
    (s : TaskStatus) (now at : ℕ) (t : QueueTask)
    → t.completed_at ≡ some at
    → (update_status s now t).completed_at ≡ some at
unfolding update_status
update_status-completed_at s now at t h = ground arith

-- Whatever statuses a task goes through, its first completion time is kept.
pub update_all-completed_at :
    (us : List (TaskStatus × ℕ)) (at : ℕ) (t : QueueTask)
    → t.completed_at ≡ some at
    → (update_all us t).completed_at ≡ some at
update_all-completed_at [] at t h = h
update_all-completed_at ((s, now) ∷ us) at t h =
    update_all-completed_at us at (update_status s now t) (update_status-completed_at s now at t h)

-- A task takes the status that it is given and the time of the change. If the status is final, the
-- task has a completion time, and if it is processing, both of its start times.
pub update_status-stamps :
    (s : TaskStatus) (now : ℕ) (t : QueueTask)
    → let u = update_status s now t in
      (u.status ≡ s)
      × (u.updated_at ≡ now)
      × ((is_completed s ≡ false) ⊎ (is_some u.completed_at ≡ true))
      × ((s ≢ processing) ⊎ ((is_some u.started_at ≡ true) × (is_some u.processed_at ≡ true)))
unfolding update_status is_completed
update_status-stamps s now t = (ground arith, ground arith, final s, start s)
  where
    final :
        (s : TaskStatus)
        → (is_completed s ≡ false) ⊎ (is_some (update_status s now t).completed_at ≡ true)
    final s = ground arith

    start :
        (s : TaskStatus)
        → (s ≢ processing)
          ⊎ ((is_some (update_status s now t).started_at ≡ true)
              × (is_some (update_status s now t).processed_at ≡ true))
    start processing = inr (ground arith, ground arith)
    start pending = inl (λ e. ground (arith, e))
    start queued = inl (λ e. ground (arith, e))
    start completed = inl (λ e. ground (arith, e))
    start failed = inl (λ e. ground (arith, e))
    start cancelled = inl (λ e. ground (arith, e))
    start retrying = inl (λ e. ground (arith, e))
    start scheduled = inl (λ e. ground (arith, e))
