-- ===== src/Worker/Retry.antt =====
-- internal/worker/retry.go: the retry manager. Durations are nanoseconds in 64 bits that wrap around;
-- those of a policy are not negative. What the source computes in float64 (the power of the multiplier,
-- the jitter) is a parameter, as the arithmetic of the machine, and the multiplier is its 64 bits.
pub mod Delay
pub mod Search
use Prim.Native.Char.{code}
use Prim.Native.String
use engine_api_workflow.Common.{
  ◌+ℤ◌, mul_int64, ltb_ℤ, pos, add_int64, ℤ, pos_part, ℕ, zero, suc, ◌+◌, ◌-◌, ◌*◌, ◌/◌, ◌%◌, ◌^◌,
  String, ◌≡◌, Bool, true, false, ◌&&◌, ◌||◌, not, Option, none, some, List, [], ◌∷◌, ltb, leb,
  ◌==◌, if◌then◌else◌, str_eq, length, is_some,
}
use engine_api_workflow.Models.Value.{second, minute}
use engine_api_workflow.Models.Task.{QueueTask}
use engine_api_workflow.Models.Workflow.{Workflow}

-- `BackoffStrategy` is a string type; `unknown` stands for any other string.
pub data BackoffStrategy : Type 0 where
  fixed linear exponential custom unknown : BackoffStrategy

pub record RetryPolicy : Type 0 where
  pub max_attempts : ℕ
  pub base_delay : ℕ
  pub max_delay : ℕ
  pub backoff_strategy : BackoffStrategy
  pub retryable_errors : List String
  pub multiplier : ℕ

-- The float64 2.0.
abbrev bits_of_two : ℕ
bits_of_two = 2 ^ 62

unfoldable pub get_default_retry_policy : RetryPolicy
get_default_retry_policy = record {
  max_attempts = 3;
  base_delay = 30 * second;
  max_delay = 10 * minute;
  backoff_strategy = exponential;
  multiplier = bits_of_two;
  retryable_errors =
      "timeout" ∷ "connection_error" ∷ "rate_limit" ∷ "temporary_failure" ∷ "network_error"
      ∷ "service_unavailable" ∷ [];
}

-- `scaled base multiplier n` is `time.Duration(float64(base) * math.Pow(multiplier, float64(n)))`, and
-- `jitter delay nanos` is `time.Duration(float64(delay) * 0.1 * (0.5 - float64(nanos%1000)/1000))`.
pub record Floats : Type 0 where
  pub scaled : ℕ → ℕ → ℕ → ℤ
  pub jitter : ℤ → ℕ → ℤ

-- The policies that were set, by workflow ID or tag, and the machine's floats.
pub record RetryManager : Type 0 where
  pub floats : Floats
  pub policies : List (String × RetryPolicy)
  pub default_policy : RetryPolicy

unfoldable pub find_policy : String → List (String × RetryPolicy) → Option RetryPolicy
find_policy k [] = none
find_policy k ((j, p) ∷ m) = if str_eq j k then some p else find_policy k m

unfoldable pub find_by_tag : List String → List (String × RetryPolicy) → Option RetryPolicy
find_by_tag [] m = none
find_by_tag (t ∷ ts) m = elim (find_policy t m) [ some p ↦ some p | none ↦ find_by_tag ts m ]

unfoldable pub without_policy : String → List (String × RetryPolicy) → List (String × RetryPolicy)
without_policy k [] = []
without_policy k ((j, p) ∷ m) =
    if str_eq j k then without_policy k m else (j, p) ∷ without_policy k m

unfoldable pub set_workflow_policy : RetryManager → String → RetryPolicy → RetryManager
set_workflow_policy r k p = record r { policies = (k, p) ∷ without_policy k r.policies }

unfoldable pub remove_workflow_policy : RetryManager → String → RetryManager
remove_workflow_policy r k = record r { policies = without_policy k r.policies }

-- The defaults as the workflow and then its priority change them.
unfoldable pub adjust_policy : Workflow → RetryPolicy → RetryPolicy
adjust_policy w p =
    let q = record p {
      max_attempts = if ltb 0 w.retry_attempts then w.retry_attempts else p.max_attempts;
      base_delay = if ltb 0 w.retry_delay_ms then w.retry_delay_ms * 1000000 else p.base_delay;
    } in
    if leb 8 w.priority
    then record q { max_attempts = 5; base_delay = 10 * second; max_delay = 5 * minute }
    else if leb 5 w.priority
    then record q { max_attempts = 3; base_delay = 30 * second; max_delay = 10 * minute }
    else q

unfoldable pub get_workflow_retry_policy : RetryManager → Workflow → RetryPolicy
unfolding adjust_policy
get_workflow_retry_policy r w = elim (find_policy w.id r.policies) [
  | some p ↦ p
  | none ↦ elim (find_by_tag w.tags r.policies) [
    | some p ↦ p
    | none ↦ adjust_policy w r.default_policy
  ]
]

-- Fibonacci-like steps: `prev2, prev1` after the rounds of the loop.
unfoldable pub fibonacci_from : ℕ → ℤ → ℤ → ℤ
fibonacci_from zero prev2 prev1 = prev1
fibonacci_from (suc k) prev2 prev1 = fibonacci_from k prev1 (add_int64 prev1 prev2)

unfoldable pub custom_backoff_calculation : ℕ → RetryPolicy → ℤ
unfolding fibonacci_from
custom_backoff_calculation zero p = pos p.base_delay
custom_backoff_calculation (suc zero) p = mul_int64 (pos p.base_delay) (pos 2)
custom_backoff_calculation (suc (suc k)) p =
    fibonacci_from (suc k) (pos p.base_delay) (mul_int64 (pos p.base_delay) (pos 2))

unfoldable pub raw_delay : Floats → BackoffStrategy → ℕ → RetryPolicy → ℤ
unfolding custom_backoff_calculation
raw_delay F fixed n p = pos p.base_delay
raw_delay F linear n p = mul_int64 (pos p.base_delay) (pos (n + 1))
raw_delay F exponential n p = F.scaled p.base_delay p.multiplier n
raw_delay F custom n p = custom_backoff_calculation n p
raw_delay F unknown n p = pos p.base_delay

unfoldable pub calculate_retry_delay : Floats → ℕ → RetryPolicy → ℕ → ℤ
unfolding raw_delay
calculate_retry_delay F n p nanos =
    let raw = raw_delay F p.backoff_strategy n p in
    let delay = add_int64 raw (F.jitter raw nanos) in
    if ltb_ℤ (pos p.max_delay) delay then pos p.max_delay else delay

-- A time before 1970 is taken as its beginning.
unfoldable pub calculate_retry_time : Floats → RetryPolicy → ℕ → ℕ → ℕ
unfolding calculate_retry_delay
calculate_retry_time F p n now = pos_part (pos now +ℤ calculate_retry_delay F n p now)

-- Texts are searched by their bytes; here, by their code points, which finds the same.
abbrev pub codes : String → List ℕ
codes String.[] = []
codes (String.◌∷◌ c s) = code c ∷ codes s

-- `str[i:i+len(substr)] == substr` at the start of what is left.
unfoldable pub starts_with : List ℕ → List ℕ → Bool
starts_with [] str = true
starts_with (p ∷ ps) [] = false
starts_with (p ∷ ps) (c ∷ cs) = p == c && starts_with ps cs

-- The loop over i, by the rounds that are left and the text from i on.
unfoldable pub search_from : ℕ → List ℕ → List ℕ → Bool
unfolding starts_with
search_from zero sub str = false
search_from (suc k) sub [] = starts_with sub []
search_from (suc k) sub (c ∷ cs) = starts_with sub (c ∷ cs) || search_from k sub cs

unfoldable pub simple_contains : List ℕ → List ℕ → Bool
unfolding search_from
simple_contains str sub =
    if ltb (length str) (length sub)
    then false
    else search_from (length str - length sub + 1) sub str

unfoldable pub contains_pattern : String → String → Bool
contains_pattern msg pattern =
    ltb 0 (length (codes msg))
    && (ltb 0 (length (codes pattern)) && simple_contains (codes msg) (codes pattern))

unfoldable pub is_retryable_error : String → List String → Bool
is_retryable_error msg [] = false
is_retryable_error msg (p ∷ ps) = if contains_pattern msg p then true else is_retryable_error msg ps

unfoldable pub should_retry : QueueTask → String → RetryPolicy → Bool
should_retry task msg p =
    if leb p.max_attempts task.retry_count
    then false
    else if not (is_retryable_error msg p.retryable_errors)
    then false
    else true

abbrev pub non_retryable_errors : List String
non_retryable_errors =
    "invalid workflow" ∷ "user not found" ∷ "workflow not found" ∷ "invalid payload"
    ∷ "permission denied" ∷ "unauthorized" ∷ "forbidden" ∷ []

unfoldable pub none_contained : String → List String → Bool
none_contained msg [] = true
none_contained msg (p ∷ ps) =
    if simple_contains (codes msg) (codes p) then false else none_contained msg ps

unfoldable pub should_retry_error : Option String → Bool
unfolding none_contained
should_retry_error none = false
should_retry_error (some msg) = none_contained msg non_retryable_errors
