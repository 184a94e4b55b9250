-- ===== src/Worker/Executor/Backoff.antt =====
-- The pause before an attempt.
use native.Mathlib.Nat.{one-le-pow}
use engine_api_workflow.Common.{
  to_int64_small, bits, mul_int64, zero, suc, inr, inl, Bool-cases, false, str_eq, suc, ℕ, ◌*◌, ◌^◌,
  ◌≡◌, ◌<◌, pos, arith, leb, if◌then◌else◌, ltb_ℤ, String,
}
use engine_api_workflow.Worker.Executor.Delays.{
  shift_one, five_minutes, exponential_delay, calculate_retry_delay,
}

bits_small : (n : ℕ) → n < 2 ^ 63 → bits (pos n) ≡ n
bits_small n h = omega arith

mul_int64_small :
    (a b : ℕ) → a < 2 ^ 63 → b < 2 ^ 63 → a * b < 2 ^ 63 → mul_int64 (pos a) (pos b) ≡ pos (a * b)
unfolding mul_int64
mul_int64_small a b ha hb h = rw (bits_small a ha, bits_small b hb) (to_int64_small (a * b) h)

factor-lt : (a b m : ℕ) → 0 < a → a * b < m → b < m
factor-lt zero b m h k = elim h [ ]
factor-lt (suc a) b m h k = grind arith

capped :
    (n : ℕ)
    → (if ltb_ℤ (pos five_minutes) (pos n) then pos five_minutes else pos n)
      ≡ pos (if leb n five_minutes then n else five_minutes)
capped n = ground arith

-- Under every strategy but the linear and the fixed one, as long as base_delay * 2 ^ attempt fits in
-- 63 bits and the base delay is not zero, the pause is that product, or five minutes if it is longer.
pub calculate_retry_delay-eq :
    (attempt base_delay : ℕ) (strategy : String)
    → str_eq strategy "linear" ≡ false
    → str_eq strategy "fixed" ≡ false
    → 0 < base_delay
    → base_delay * 2 ^ attempt < 2 ^ 63
    → calculate_retry_delay attempt base_delay strategy
      ≡ pos (
          if leb (base_delay * 2 ^ attempt) five_minutes
          then base_delay * 2 ^ attempt
          else five_minutes)
unfolding calculate_retry_delay exponential_delay shift_one
calculate_retry_delay-eq attempt base_delay strategy linear fixed some_delay fits =
    let power : 2 ^ attempt < 2 ^ 63 =
      factor-lt base_delay (2 ^ attempt) (2 ^ 63) some_delay fits in
    let some_power : 0 < 2 ^ attempt = one-le-pow attempt 2 (omega arith) in
    let base : base_delay < 2 ^ 63 =
      factor-lt (2 ^ attempt) base_delay (2 ^ 63) some_power (grind arith) in
    let delay : exponential_delay attempt base_delay
        ≡ pos (
            if leb (base_delay * 2 ^ attempt) five_minutes
            then base_delay * 2 ^ attempt
            else five_minutes) =
      rw
        (
          to_int64_small (2 ^ attempt) power,
          mul_int64_small base_delay (2 ^ attempt) base power fits,
        )
        (capped (base_delay * 2 ^ attempt)) in
    elim (Bool-cases (str_eq strategy "exponential")) [
      | inl same ↦ rw (linear, same, calculate_retry_delay) delay
      | inr other ↦ rw (linear, other, fixed, calculate_retry_delay) delay
    ]
