-- ===== src/Worker/Retry/Delay.antt =====
-- The delay before a retry.
use engine_api_workflow.Common.{
  ℕ, zero, suc, ◌+◌, ◌*◌, ◌%◌, ◌^◌, ◌≡◌, ◌≤◌, ◌<◌, pos, pos_part, neg_part, sym, ap, ◌∙◌, arith,
  to_int64, to_int64_small, mul_int64, add_int64-to_int64,
}
use engine_api_workflow.Worker.Retry.{
  RetryPolicy, Floats, fibonacci_from, custom_backoff_calculation,
}

-- The numbers 1, 2, 3, 5, 8, …
abbrev pub fibonacci : ℕ → ℕ
fibonacci zero = 1
fibonacci (suc zero) = 2
fibonacci (suc (suc n)) = fibonacci (suc n) + fibonacci n

fibonacci_from-eq :
    (k n base : ℕ)
    → fibonacci_from k (to_int64 (base * fibonacci n)) (to_int64 (base * fibonacci (suc n)))
      ≡ to_int64 (base * fibonacci (suc (k + n)))
unfolding fibonacci_from
fibonacci_from-eq zero n base =
    let e : n ≡ zero + n = omega arith in ap (λ m. to_int64 (base * fibonacci (suc m))) e
fibonacci_from-eq (suc k) n base =
    let step : base * fibonacci (suc n) + base * fibonacci n ≡ base * fibonacci (suc (suc n)) =
      grind arith in
    let e : k + suc n ≡ suc k + n = omega arith in
    ap (fibonacci_from k (to_int64 (base * fibonacci (suc n))))
      (add_int64-to_int64 (base * fibonacci (suc n)) (base * fibonacci n) ∙ ap to_int64 step)
    ∙ fibonacci_from-eq k (suc n) base
    ∙ ap (λ m. to_int64 (base * fibonacci (suc m))) e

doubled : (b : ℕ) → b < 2 ^ 63 → mul_int64 (pos b) (pos 2) ≡ to_int64 (b * 2)
unfolding mul_int64
doubled b h = let e : b % 2 ^ 64 ≡ b = omega arith in ap (λ x. to_int64 (x * 2)) e

-- The loop of the custom strategy gives the base delay times a Fibonacci number, as its 64 bits
-- hold it: past 2 ^ 63 it wraps around.
pub custom_backoff_calculation-eq :
    (n : ℕ) (p : RetryPolicy)
    → p.base_delay < 2 ^ 63
    → custom_backoff_calculation n p ≡ to_int64 (p.base_delay * fibonacci n)
unfolding custom_backoff_calculation
custom_backoff_calculation-eq zero p h =
    let e : p.base_delay ≡ p.base_delay * 1 = omega arith in
    sym (to_int64_small p.base_delay h) ∙ ap to_int64 e
custom_backoff_calculation-eq (suc zero) p h = doubled p.base_delay h
custom_backoff_calculation-eq (suc (suc k)) p h =
    let one : p.base_delay ≡ p.base_delay * 1 = omega arith in
    let first : pos p.base_delay ≡ to_int64 (p.base_delay * 1) =
      sym (to_int64_small p.base_delay h) ∙ ap to_int64 one in
    let e : suc k + 0 ≡ suc k = omega arith in
    ap (fibonacci_from (suc k) (pos p.base_delay)) (doubled p.base_delay h)
    ∙ ap (λ b. fibonacci_from (suc k) b (to_int64 (p.base_delay * 2))) first
    ∙ fibonacci_from-eq (suc k) 0 p.base_delay
    ∙ ap (λ m. to_int64 (p.base_delay * fibonacci (suc m))) e

-- The jitter of a delay, which is a twentieth of it before it is rounded, stays within a sixteenth.
abbrev pub IsSmall : Floats → Type 0
IsSmall F =
    (delay nanos : ℕ)
    → delay < 2 ^ 63
    → 16 * (pos_part (F.jitter (pos delay) nanos) + neg_part (F.jitter (pos delay) nanos)) ≤ delay
