-- ===== src/Models/Notification/Backoff.antt =====
-- CalculateNextRetry of internal/models/notification.go.
use engine_api_workflow.Common.{
  sym, ℕ, zero, suc, ◌+◌, ◌*◌, ◌/◌, ◌-◌, ◌^◌, ◌≤◌, ◌≡◌, refl, ap, ◌∙◌, true, inl, inr, arith, ltb,
  ◌==◌, Bool-cases, if◌then◌else◌,
}
use native.Mathlib.Nat.{one-le-pow, pow-succ', mul_assoc, mul-le-mul_left}
use engine_api_workflow.Models.Notification.{
  EmailNotification, double_delay, calculate_next_retry, default_retry_delay, max_retry_delay,
}

abbrev pub at_most_day : ℕ → ℕ
at_most_day n = if ltb max_retry_delay n then max_retry_delay else n

double_delay-eq :
    (n delay : ℕ) → delay ≤ max_retry_delay → double_delay n delay ≡ at_most_day (delay * 2 ^ n)
unfolding double_delay
double_delay-eq zero delay h = ground (arith, h)
double_delay-eq (suc n) delay h =
    let some_power : 1 ≤ 2 ^ n = one-le-pow n 2 (omega arith) in
    let double : 2 ^ suc n ≡ 2 * 2 ^ n = pow-succ' 2 n in
    let twice : delay * 2 ^ suc n ≡ delay * 2 * 2 ^ n =
      ap (λ x. delay * x) double ∙ sym (mul_assoc delay 2 (2 ^ n)) in
    let grows : delay * 2 ≤ delay * 2 * 2 ^ n =
      omega (arith, mul-le-mul_left (delay * 2) some_power) in
    elim (Bool-cases (ltb max_retry_delay (delay * 2))) [
      | inl over ↦
          let all_over : ltb max_retry_delay (delay * 2 ^ suc n) ≡ true =
            ground (arith, over, grows, twice) in
          rw (over, all_over) refl
      | inr fits ↦
          let below : delay * 2 ≤ max_retry_delay = ground (arith, fits) in
          rw fits (double_delay-eq n (delay * 2) below ∙ ap at_most_day (sym twice))
    ]

-- The delay after a number of attempts: five minutes, doubled for each but the first, and not above a
-- day.
abbrev pub delay_after : ℕ → ℕ
delay_after k = at_most_day (default_retry_delay * 2 ^ (k - 1))

-- A tenth more, from the first attempt on.
abbrev pub with_jitter : ℕ → ℕ
with_jitter k = if k == 0 then default_retry_delay else delay_after k + delay_after k / 10

-- Before the first attempt the next one is due in five minutes, and after k attempts in the smaller of
-- five minutes times 2^(k - 1) and a day, and a tenth of it.
pub calculate_next_retry-eq :
    (now : ℕ) (n : EmailNotification) → calculate_next_retry now n ≡ now + with_jitter n.attempts
unfolding calculate_next_retry
calculate_next_retry-eq now n =
    let e = double_delay-eq (n.attempts - 1) default_retry_delay (omega arith) in
    elim (Bool-cases (n.attempts == 0)) [
      | inl first ↦ rw first refl
      | inr later ↦ rw (later, e) refl
    ]

at_most_day_bounds :
    (m k : ℕ)
    → default_retry_delay ≤ m
    → (default_retry_delay ≤ at_most_day m) × (at_most_day m ≤ max_retry_delay)
at_most_day_bounds m k h = ground (arith, h)

-- Whatever its attempts, the next one is due in five minutes at the earliest and in a day and a tenth of
-- a day at the latest.
pub calculate_next_retry_bounds :
    (now : ℕ) (n : EmailNotification)
    → (now + default_retry_delay ≤ calculate_next_retry now n)
      × (calculate_next_retry now n ≤ now + max_retry_delay + max_retry_delay / 10)
calculate_next_retry_bounds now n =
    let some_power : 1 ≤ 2 ^ (n.attempts - 1) = one-le-pow (n.attempts - 1) 2 (omega arith) in
    let least : default_retry_delay ≤ default_retry_delay * 2 ^ (n.attempts - 1) =
      omega (arith, mul-le-mul_left default_retry_delay some_power) in
    let (low, high) = at_most_day_bounds (default_retry_delay * 2 ^ (n.attempts - 1)) 0 least in
    let e = calculate_next_retry-eq now n in
    elim (Bool-cases (n.attempts == 0)) [
      | inl first ↦ rw (e, first) (omega arith, omega arith)
      | inr later ↦ rw (e, later) (omega (arith, low, high), omega (arith, low, high))
    ]
