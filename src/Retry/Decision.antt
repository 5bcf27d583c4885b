-- ===== src/Retry/Decision.antt =====
-- What `NewPolicy` and `NextDelay` of internal/notification/retry/retry.go decide.
use Prim.Native.Nat.{max}
use feed_flow.Base.{
  Bool, Option, arith, false, inl, inr, min, none, some, suc, true, ℕ, ◌*◌, ◌-◌, ◌<◌, ◌^◌, ◌↔◌, ◌≡◌,
  ◌≤◌, ◌⊎◌,
}
use feed_flow.Base.Int.{pos, pos_part, ℤ, ◌≤ℤ◌}
use feed_flow.Errors.{ErrorChain}
use feed_flow.Retry.{
  Config, ConfigError, Float64, Policy, exponential_delay, is_retryable, jittered, new_policy,
  next_delay, suggested_delay, with_jitter,
}
use feed_flow.Retry.Backoff.{exponential_delay-eq-min}

-- A policy as `NewPolicy` returns it.
pub record IsValidPolicy (fl : Float64) (p : Policy fl) : Type 0 where
  pub some_attempt : 0 < p.attempts_limit
  pub base_positive : 0 < p.base
  pub base_within : p.base ≤ p.ceiling
  pub jitter_not_negative : fl.lt_f p.jitter fl.zero_f ≡ false
  pub jitter_not_above_one : fl.lt_f fl.one_f p.jitter ≡ false

-- What the configuration has to satisfy.
pub record IsValidConfig (fl : Float64) (c : Config fl) : Type 0 where
  pub some_attempt : pos 1 ≤ℤ c.max_attempts
  pub base_positive : pos 1 ≤ℤ c.base_delay
  pub base_within : c.base_delay ≤ℤ c.max_delay
  pub jitter_not_negative : fl.lt_f c.jitter_percent fl.zero_f ≡ false
  pub jitter_not_above_one : fl.lt_f fl.one_f c.jitter_percent ≡ false

abbrev pub succeeds : (fl : Float64) → ConfigError ⊎ Policy fl → Bool
succeeds fl (inl e) = false
succeeds fl (inr p) = true

module _ (fl : Float64) (rand_float64 : ℕ → fl.Carrier) where
  -- A policy that `NewPolicy` returns has a positive limit and base, a base within its ceiling and
  -- a jitter that is neither below zero nor above one.
  pub new_policy-IsValidPolicy :
      (c : Config fl) (p : Policy fl) → new_policy fl rand_float64 c ≡ inr p → IsValidPolicy fl p
  unfolding new_policy
  new_policy-IsValidPolicy c p h = ground arith

  -- `NewPolicy` accepts a configuration exactly when its attempts and its base delay are positive,
  -- the base is within the maximum and the jitter is neither below zero nor above one, which holds
  -- of a NaN too.
  pub new_policy_accepts :
      (c : Config fl) → (succeeds fl (new_policy fl rand_float64 c) ≡ true) ↔ IsValidConfig fl c
  unfolding new_policy
  new_policy_accepts c = (λ h. ground arith, λ v. ground arith)

module _ (fl : Float64) (p : Policy fl) where
  -- A float64 that is not at or above an integer, as a NaN is not either, converts to at most that
  -- integer.
  abbrev pub TruncationBound : Type 0
  TruncationBound = (n : ℕ) (x : fl.Carrier) → fl.le_f (fl.of_int n) x ≡ false → fl.to_int x ≤ n

  with_jitter-le-ceiling :
      (delay draw : ℕ)
      → TruncationBound
      → delay ≤ p.ceiling
      → with_jitter fl p delay draw ≤ p.ceiling
  unfolding with_jitter
  with_jitter-le-ceiling delay draw h l = ground (arith, h p.ceiling (jittered fl p delay draw))

-- When a failed attempt is to be repeated.
abbrev pub ShouldRetry : (fl : Float64) → Policy fl → Bool → ℤ → Option ErrorChain → Type 0
ShouldRetry fl p context_live attempt failure =
    (context_live ≡ true)
    × (pos 1 ≤ℤ attempt)
    × (suc (pos_part attempt) ≤ p.attempts_limit)
    × (is_retryable failure ≡ true)

nil_not_retryable : is_retryable none ≡ true → ⊥
unfolding is_retryable
nil_not_retryable h = cc

-- `NextDelay` asks for a retry exactly when the context is live, the error is retryable and the
-- attempt is positive and below the limit of the policy.
pub next_delay_retries :
    (fl : Float64) (p : Policy fl) (context_live : Bool) (attempt : ℤ) (failure : Option ErrorChain)
    (draw : ℕ)
    → ((next_delay fl (some p) context_live attempt failure draw).1 ≡ true)
      ↔ ShouldRetry fl p context_live attempt failure
unfolding next_delay
next_delay_retries fl p context_live attempt none draw =
    (λ h. cc, λ h. absurd (nil_not_retryable h.3))
next_delay_retries fl p context_live attempt (some failure) draw =
    (λ h. ground arith, λ h. ground arith)

exponential_delay-le-ceiling :
    (fl : Float64) (p : Policy fl) (attempt : ℕ)
    → p.ceiling < 2 ^ 63
    → exponential_delay fl p attempt ≤ p.ceiling
exponential_delay-le-ceiling fl p attempt h = omega (arith, exponential_delay-eq-min fl p attempt h)

-- A retry waits at least as long as the provider asks, and at most for the larger of that and the
-- ceiling of the policy, whatever the jitter. It asks that the ceiling is an int64 and that the
-- conversion of a float64 does not exceed it.
pub next_delay_bounds :
    (fl : Float64) (p : Policy fl) (attempt : ℤ) (failure : Option ErrorChain) (draw d : ℕ)
    → p.ceiling < 2 ^ 63
    → TruncationBound fl p
    → next_delay fl (some p) true attempt failure draw ≡ (d, true)
    → (suggested_delay failure ≤ d) × (d ≤ max p.ceiling (suggested_delay failure))
unfolding next_delay
next_delay_bounds fl p attempt failure draw d small trunc h = ground (
  arith,
  with_jitter-le-ceiling fl p (exponential_delay fl p (pos_part attempt)) draw trunc
      (exponential_delay-le-ceiling fl p (pos_part attempt) small),
)

-- Without jitter the n-th failure that is to be retried waits for the base doubled n - 1 times and
-- cut at the ceiling, or for what the provider asks if that is longer. The ceiling is an int64.
pub next_delay_exact :
    (fl : Float64) (p : Policy fl) (n : ℕ) (failure : Option ErrorChain) (draw : ℕ)
    → p.ceiling < 2 ^ 63
    → fl.le_f p.jitter fl.zero_f ≡ true
    → fl.le_f fl.zero_f p.jitter ≡ true
    → ShouldRetry fl p true (pos n) failure
    → next_delay fl (some p) true (pos n) failure draw
      ≡ (max (min (p.base * 2 ^ (n - 1)) p.ceiling) (suggested_delay failure), true)
unfolding next_delay with_jitter
next_delay_exact fl p n none draw small lo hi s = absurd (nil_not_retryable s.3)
next_delay_exact fl p n (some failure) draw small lo hi s =
    ground (arith, exponential_delay-eq-min fl p n small)
