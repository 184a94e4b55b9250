-- ===== src/Models/Workflow/Defaults.antt =====
-- SetDefaults: the values that a workflow gets where it has none.
use engine_api_workflow.Common.{
  ℕ, ◌≡◌, ◌≢◌, ◌<◌, Bool, true, Option, none, some, String, arith, str_eq, str_eq_iff,
  if◌then◌else◌,
}
use engine_api_workflow.Models.Workflow.{
  Workflow, WorkflowStats, or_default, zero_stats, set_defaults,
}

or_default_idem : (n d e : ℕ) → 0 < d → or_default (or_default n d) e ≡ or_default n d
or_default_idem n d e h = ground arith

abbrev default_status : String → String
default_status s = if str_eq s "" then "draft" else s

default_status-ne-empty : (s : String) → default_status s ≢ ""
default_status-ne-empty s = λ e. ground (arith, str_eq_iff s "", str_eq_iff "draft" "")

default_status_idem : (s : String) → default_status (default_status s) ≡ default_status s
default_status_idem s = ground (arith, str_eq_iff s "", str_eq_iff "draft" "")

abbrev default_active : Option Bool → Option Bool
default_active a = elim a [ none ↦ some true | some b ↦ some b ]

default_active_idem : (a : Option Bool) → default_active (default_active a) ≡ default_active a
default_active_idem a = ground arith

abbrev default_stats : Option WorkflowStats → Option WorkflowStats
default_stats s = elim s [ none ↦ some zero_stats | some x ↦ some x ]

default_stats_idem : (s : Option WorkflowStats) → default_stats (default_stats s) ≡ default_stats s
default_stats_idem s = ground arith

-- Setting the defaults a second time changes only the update time, if the clock is past the zero
-- time. After the first, the status is not empty and each defaulted number is positive.
pub set_defaults_idem :
    (w : Workflow) (now later : ℕ)
    → 0 < now
    → (set_defaults (set_defaults w now) later ≡ record (set_defaults w now) { updated_at = later })
      × ((set_defaults w now).status ≢ "")
      × (0 < (set_defaults w now).priority)
      × (0 < (set_defaults w now).timeout_minutes)
      × (0 < (set_defaults w now).retry_attempts)
      × (0 < (set_defaults w now).retry_delay_ms)
      × (0 < (set_defaults w now).max_concurrent)
      × (0 < (set_defaults w now).version)
unfolding set_defaults
set_defaults_idem w now later h = (
  cc (
    or_default_idem w.priority 3 3 (omega arith),
    or_default_idem w.timeout_minutes 30 30 (omega arith),
    or_default_idem w.retry_attempts 3 3 (omega arith),
    or_default_idem w.retry_delay_ms 5000 5000 (omega arith),
    or_default_idem w.max_concurrent 10 10 (omega arith),
    or_default_idem w.version 1 1 (omega arith),
    or_default_idem w.created_at now later h,
    default_status_idem w.status,
    default_active_idem w.active,
    default_stats_idem w.stats,
  ),
  default_status-ne-empty w.status,
  ground arith,
  ground arith,
  ground arith,
  ground arith,
  ground arith,
  ground arith,
)
