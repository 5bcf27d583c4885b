-- ===== src/Scenarios/Policies.antt =====
-- The retry policy of internal/notification/retry/retry.go on whole numbers for `float64`.
use Prim.Native.Nat.{max}
use feed_flow.Base.{
  [], arith, inr, leb, ltb, min, refl, some, true, ℕ, ◌*◌, ◌+◌, ◌-◌, ◌^◌, ◌↔◌, ◌∷◌, ◌≡◌, ◌≤◌,
}
use feed_flow.Base.Int.{pos}
use feed_flow.Errors.{ErrorChain, api_error, api_error_retryable, text}
use feed_flow.Retry.{
  Config, Float64, Policy, classified, default_config, double_delay, exponential_delay, hour,
  is_retryable, new_policy, next_delay, retry_delay, second, suggested_delay, with_jitter,
}
use feed_flow.Retry.Backoff.{exponential_delay-eq-min}
use feed_flow.Retry.Decision.{
  IsValidConfig, ShouldRetry, TruncationBound, new_policy_accepts, next_delay_bounds,
  next_delay_exact, next_delay_retries, succeeds,
}

-- Whole numbers in place of `float64`: enough for a policy without jitter.
abbrev pub whole : Float64
whole = record {
  Carrier = ℕ;
  zero_f = 0;
  one_f = 1;
  two_f = 2;
  le_f = leb;
  lt_f = ltb;
  add_f = λ a b. a + b;
  sub_f = λ a b. a - b;
  mul_f = λ a b. a * b;
  of_int = λ n. n;
  to_int = λ n. n;
}

abbrev pub policy : Policy whole
policy = record { attempts_limit = 8; base = second; ceiling = hour; jitter = 0; random = λ n. 0 }

abbrev pub config : Config whole
config = default_config whole 0

-- A provider that asks for three seconds.
abbrev pub rate_limit : ErrorChain
rate_limit =
    text "telegram"
    ∷ api_error (record { http_status = 429; code = 429; retry_after = pos 3_000_000_000 })
    ∷ []

whole_truncation : TruncationBound whole policy
whole_truncation n x h = ground (arith, h)

rate_limit_retryable : is_retryable (some rate_limit) ≡ true
unfolding is_retryable classified api_error_retryable
rate_limit_retryable = refl

policy_decision :
    next_delay whole (some policy) true (pos 2) (some rate_limit) 0 ≡ (3_000_000_000, true)
unfolding next_delay with_jitter exponential_delay double_delay suggested_delay retry_delay
    is_retryable classified api_error_retryable
policy_decision = refl

next_delay_retries_example :
    ((next_delay whole (some policy) true (pos 2) (some rate_limit) 0).1 ≡ true)
    ↔ ShouldRetry whole policy true (pos 2) (some rate_limit)
next_delay_retries_example = next_delay_retries whole policy true (pos 2) (some rate_limit) 0

next_delay_bounds_example :
    (suggested_delay (some rate_limit) ≤ 3_000_000_000)
    × (3_000_000_000 ≤ max policy.ceiling (suggested_delay (some rate_limit)))
next_delay_bounds_example =
    next_delay_bounds whole policy (pos 2) (some rate_limit) 0 3_000_000_000 (omega arith)
      whole_truncation policy_decision

next_delay_exact_example : next_delay whole (some policy) true (pos 2) (some rate_limit) 0 ≡ (
  max (min (policy.base * 2 ^ (2 - 1)) policy.ceiling) (suggested_delay (some rate_limit)),
  true,
)
next_delay_exact_example =
    next_delay_exact whole policy 2 (some rate_limit) 0 (omega arith) refl refl
      (refl, omega arith, omega arith, rate_limit_retryable)

config_accepted : new_policy whole (λ n. 0) config ≡ inr policy
unfolding new_policy default_config
config_accepted = refl

new_policy_accepts_example :
    (succeeds whole (new_policy whole (λ n. 0) config) ≡ true) ↔ IsValidConfig whole config
new_policy_accepts_example = new_policy_accepts whole (λ n. 0) config

exponential_delay-eq-min_example :
    exponential_delay whole policy 20 ≡ min (policy.base * 2 ^ (20 - 1)) policy.ceiling
exponential_delay-eq-min_example = exponential_delay-eq-min whole policy 20 (omega arith)
