-- ===== src/Retry/Backoff.antt =====
-- The exponential delay of internal/notification/retry/retry.go against its formula.
use native.Mathlib.Nat.{pow-suc}
use feed_flow.Base.{
  Bool-cases, arith, inl, inr, leb, ltb, min, suc, sym, zero, ℕ, ◌*◌, ◌-◌, ◌/◌, ◌<◌, ◌^◌, ◌||◌, ◌≡◌,
  ◌≤◌,
}
use feed_flow.Retry.{Float64, Policy, double_delay, exponential_delay, wrap_int64}

pow-pos : (k : ℕ) → 1 ≤ 2 ^ k
pow-pos zero = omega arith
pow-pos (suc k) = omega (arith, pow-suc 2 k, pow-pos k)

-- One doubling is exact when it stays under the limit.
double_step :
    (limit delay : ℕ) → limit < 2 ^ 63 → delay ≤ limit / 2 → wrap_int64 (delay * 2) ≡ delay * 2
double_step limit delay h g = omega arith

-- Once the limit is reached, more doublings change nothing.
min-saturates :
    (delay power limit : ℕ) → limit ≤ delay → 1 ≤ power → min (delay * power) limit ≡ limit
min-saturates delay power limit h p = grind arith

pub double_delay-eq-min :
    (rounds limit delay : ℕ)
    → limit < 2 ^ 63
    → double_delay rounds limit delay ≡ min (delay * 2 ^ rounds) limit
unfolding double_delay
double_delay-eq-min zero limit delay h = ground arith
double_delay-eq-min (suc k) limit delay h =
    let regroup : delay * 2 ^ suc k ≡ delay * 2 * 2 ^ k = grind (arith, pow-suc 2 k) in
    elim (Bool-cases (leb limit delay || ltb (limit / 2) delay)) [
      | inl stop ↦
          rw (stop, regroup)
            (sym (min-saturates (delay * 2) (2 ^ k) limit (ground arith) (pow-pos k)))
      | inr more ↦
          rw (more, double_step limit delay h (ground arith), regroup)
            (double_delay-eq-min k limit (delay * 2) h)
    ]

-- The delay before attempt n + 1 is the base doubled n - 1 times and cut at the ceiling: no
-- doubling of the loop overflows an int64.
pub exponential_delay-eq-min :
    (fl : Float64) (p : Policy fl) (attempt : ℕ)
    → p.ceiling < 2 ^ 63
    → exponential_delay fl p attempt ≡ min (p.base * 2 ^ (attempt - 1)) p.ceiling
unfolding exponential_delay
exponential_delay-eq-min fl p attempt h = double_delay-eq-min (attempt - 1) p.ceiling p.base h
