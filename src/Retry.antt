-- ===== src/Retry.antt =====
-- internal/notification/retry/retry.go: the retry policy of a failed delivery. Durations are
-- nanoseconds, as in Go's `time.Duration`.
pub mod Backoff
pub mod Decision
use feed_flow.Base.{
  Bool, Option, [], false, if◌then◌else◌, inl, inr, is_some, leb, ltb, none, not, some, suc, true,
  zero, ℕ, ◌%◌, ◌&&◌, ◌*◌, ◌-◌, ◌/◌, ◌^◌, ◌||◌, ◌∷◌, ◌⊎◌,
}
use feed_flow.Base.Int.{leb_ℤ, ltb_ℤ, pos, pos_part, ℤ}
use feed_flow.Errors.{
  ErrorChain, api_error, api_error_retryable, is_transient, smtp_error, smtp_error_retryable,
}

-- Go's `float64`, with the operations that the policy uses. The two comparisons are false where a
-- side is a NaN, so that neither is the negation of the other. `to_int` is the conversion to an
-- integer, which drops the fraction.
pub record Float64 : Type 1 where
  pub Carrier : Type 0
  pub zero_f : Carrier
  pub one_f : Carrier
  pub two_f : Carrier
  pub le_f : Carrier → Carrier → Bool
  pub lt_f : Carrier → Carrier → Bool
  pub add_f : Carrier → Carrier → Carrier
  pub sub_f : Carrier → Carrier → Carrier
  pub mul_f : Carrier → Carrier → Carrier
  pub of_int : ℕ → Carrier
  pub to_int : Carrier → ℕ

-- An int64 product; a value from 2 ^ 63 on stands for a negative number.
abbrev pub wrap_int64 : ℕ → ℕ
wrap_int64 n = n % 2 ^ 64

pub data ConfigError : Type 0 where
  bad_max_attempts bad_base_delay bad_max_delay base_exceeds_max bad_jitter : ConfigError

-- `IsRetryable` on a chain that is not nil: the first layer that classifies itself decides.
unfoldable pub classified : ErrorChain → Option Bool
unfolding api_error_retryable smtp_error_retryable
classified [] = none
classified (api_error e ∷ rest) = some (api_error_retryable e)
classified (smtp_error op ∷ rest) = some (smtp_error_retryable rest)
classified (_ ∷ rest) = classified rest

unfoldable pub is_retryable : Option ErrorChain → Bool
unfolding classified is_transient
is_retryable none = false
is_retryable (some failure) = elim (classified failure) [ some b ↦ b | none ↦ is_transient failure ]

-- The delay that the first `retryDelayError` of a chain asks for.
unfoldable pub retry_delay : ErrorChain → Option ℤ
retry_delay [] = none
retry_delay (api_error e ∷ rest) = some e.retry_after
retry_delay (_ ∷ rest) = retry_delay rest

unfoldable pub suggested_delay : Option ErrorChain → ℕ
unfolding retry_delay
suggested_delay none = 0
suggested_delay (some failure) = elim (retry_delay failure) [ none ↦ 0 | some d ↦ pos_part d ]

module _ (fl : Float64) where
  open fl use {Carrier, zero_f, one_f, two_f, le_f, lt_f, add_f, sub_f, mul_f, of_int, to_int}

  -- `random_float64 n` is what the n-th call of the random source returns.
  pub record Config : Type 0 where
    pub max_attempts : ℤ
    pub base_delay : ℤ
    pub max_delay : ℤ
    pub jitter_percent : Carrier
    pub random_float64 : Option (ℕ → Carrier)

  -- The integers of a policy are positive: `new_policy` checks them.
  pub record Policy : Type 0 where
    pub attempts_limit : ℕ
    pub base : ℕ
    pub ceiling : ℕ
    pub jitter : Carrier
    pub random : ℕ → Carrier

  -- `rand_float64` is `rand.Float64`, the source of a configuration that names none.
  unfoldable pub new_policy : (ℕ → Carrier) → Config → ConfigError ⊎ Policy
  new_policy rand_float64 c =
      if leb_ℤ c.max_attempts (pos 0)
      then inl bad_max_attempts
      else if leb_ℤ c.base_delay (pos 0)
      then inl bad_base_delay
      else if leb_ℤ c.max_delay (pos 0)
      then inl bad_max_delay
      else if ltb_ℤ c.max_delay c.base_delay
      then inl base_exceeds_max
      else if lt_f c.jitter_percent zero_f || lt_f one_f c.jitter_percent
      then inl bad_jitter
      else inr (record {
        attempts_limit = pos_part c.max_attempts;
        base = pos_part c.base_delay;
        ceiling = pos_part c.max_delay;
        jitter = c.jitter_percent;
        random = elim c.random_float64 [ none ↦ rand_float64 | some source ↦ source ];
      })

-- The loop of `exponentialDelay`: one doubling for each attempt but the first.
unfoldable pub double_delay : ℕ → ℕ → ℕ → ℕ
double_delay zero limit delay = if ltb limit delay then limit else delay
double_delay (suc rounds) limit delay =
    let rest = double_delay rounds limit (wrap_int64 (delay * 2)) in
    if leb limit delay || ltb (limit / 2) delay then limit else rest

module _ (fl : Float64) where
  open fl use {Carrier, zero_f, one_f, two_f, le_f, lt_f, add_f, sub_f, mul_f, of_int, to_int}

  unfoldable pub exponential_delay : Policy fl → ℕ → ℕ
  unfolding double_delay
  exponential_delay p attempt = double_delay (attempt - 1) p.ceiling p.base

  abbrev pub clamp_unit : Carrier → Carrier
  clamp_unit r = if lt_f r zero_f then zero_f else if lt_f one_f r then one_f else r

  -- The product that `withJitter` cuts; `draw` counts the calls of the random source before it.
  unfoldable pub jittered : Policy fl → ℕ → ℕ → Carrier
  jittered p delay draw =
      let random_value = clamp_unit (p.random draw) in
      let minimum_factor = sub_f one_f p.jitter in
      let factor = add_f minimum_factor (mul_f (mul_f two_f p.jitter) random_value) in
      mul_f (of_int delay) factor

  unfoldable pub with_jitter : Policy fl → ℕ → ℕ → ℕ
  with_jitter p delay draw =
      if le_f p.jitter zero_f && le_f zero_f p.jitter
      then delay
      else if le_f (jittered p delay draw) zero_f
      then 0
      else if le_f (of_int p.ceiling) (jittered p delay draw)
      then p.ceiling
      else to_int (jittered p delay draw)

  -- `context_live` is `ctx != nil && ctx.Err() == nil`.
  unfoldable pub next_delay : Option (Policy fl) → Bool → ℤ → Option ErrorChain → ℕ → ℕ × Bool
  next_delay none context_live attempt failure draw = (0, false)
  next_delay (some p) context_live attempt failure draw =
      if not (is_some failure) || leb_ℤ attempt (pos 0)
      then (0, false)
      else if not context_live
      then (0, false)
      else if leb_ℤ (pos p.attempts_limit) attempt || not (is_retryable failure)
      then (0, false)
      else let delay = with_jitter p (exponential_delay p (pos_part attempt)) draw in
        let suggested = suggested_delay failure in
        (if ltb delay suggested then suggested else delay, true)

-- `DefaultPolicy`.
abbrev pub second : ℕ
second = 1_000_000_000

abbrev pub minute : ℕ
minute = 60 * second

abbrev pub hour : ℕ
hour = 60 * minute

-- `jitter` is the number 0.2.
unfoldable pub default_config : (fl : Float64) → fl.Carrier → Config fl
default_config fl jitter = record {
  max_attempts = pos 8;
  base_delay = pos second;
  max_delay = pos hour;
  jitter_percent = jitter;
  random_float64 = none;
}
