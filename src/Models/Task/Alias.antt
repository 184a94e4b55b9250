-- ===== src/Models/Task/Alias.antt =====
-- SyncAliasFields: the fields of a task that are aliases of one another.
use engine_api_workflow.Common.{ℕ, ◌≡◌, ◌⊎◌, ◌<◌, String, arith, Option, str_eq_iff}
use engine_api_workflow.Models.Value.{Fields}
use engine_api_workflow.Models.Task.{
  QueueTask, sync_counts, sync_texts, sync_maps, sync_alias_fields,
}

sync_counts_idem : (a b : ℕ) → sync_counts (sync_counts a b).0 (sync_counts a b).1 ≡ sync_counts a b
sync_counts_idem a b = ground arith

sync_texts_idem : (a b : String) → sync_texts (sync_texts a b).0 (sync_texts a b).1 ≡ sync_texts a b
sync_texts_idem a b = ground (arith, str_eq_iff a "", str_eq_iff b "")

sync_maps_idem :
    (a b : Option Fields) → sync_maps (sync_maps a b).0 (sync_maps a b).1 ≡ sync_maps a b
sync_maps_idem a b = ground arith

-- Synchronising the alias fields of a task twice changes no more than once.
pub sync_alias_fields_idem :
    (t : QueueTask) → sync_alias_fields (sync_alias_fields t) ≡ sync_alias_fields t
unfolding sync_alias_fields
sync_alias_fields_idem t = cc (
  sync_counts_idem t.attempts t.retry_count,
  sync_counts_idem t.max_attempts t.max_retries,
  sync_texts_idem t.error_message t.last_error,
  sync_texts_idem t.kind t.task_type,
  sync_maps_idem t.results t.result,
)

-- What one block of the function leaves: equal aliases, or two that were both set before.
sync_counts_agree :
    (a b : ℕ)
    → ((sync_counts a b).0 ≡ (sync_counts a b).1)
      ⊎ ((0 < a) × (0 < b) × ((sync_counts a b).0 ≡ a) × ((sync_counts a b).1 ≡ b))
sync_counts_agree a b = ground arith

-- After synchronising, the two retry counters of a task are equal, and so are its two limits,
-- except where both were set before: those are kept as they were.
pub sync_alias_fields_agree :
    (t : QueueTask)
    → let u = sync_alias_fields t in
      ((u.attempts ≡ u.retry_count)
        ⊎ ((0 < t.attempts)
            × (0 < t.retry_count)
            × (u.attempts ≡ t.attempts)
            × (u.retry_count ≡ t.retry_count)))
      × ((u.max_attempts ≡ u.max_retries)
          ⊎ ((0 < t.max_attempts)
              × (0 < t.max_retries)
              × (u.max_attempts ≡ t.max_attempts)
              × (u.max_retries ≡ t.max_retries)))
unfolding sync_alias_fields
sync_alias_fields_agree t =
    (sync_counts_agree t.attempts t.retry_count, sync_counts_agree t.max_attempts t.max_retries)
