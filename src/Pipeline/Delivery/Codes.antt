-- ===== src/Pipeline/Delivery/Codes.antt =====
-- When `Worker.Process` of internal/notification/pipeline/worker.go gives a delivery up.
use feed_flow.Base.{arith, false, inl, inr, some, ℕ, ◌≡◌, ◌≤◌, ◌⊎◌}
use feed_flow.Errors.{ErrorChain}
use feed_flow.Pipeline.Delivery.{failure_delay}
use feed_flow.Retry.{Float64, Policy, is_retryable, next_delay}
use feed_flow.Store.Claim.{Task}

-- An error that is not to be retried, or a number of attempts at the policy's limit, makes the
-- failure final, whatever delay the provider asks for.
failure_delay_final :
    (fl : Float64) (p : Policy fl) (task : Task) (failure : ErrorChain) (draw : ℕ)
    → (p.attempts_limit ≤ task.attempts) ⊎ (is_retryable (some failure) ≡ false)
    → failure_delay fl (some p) task failure draw ≡ 0
unfolding failure_delay next_delay
failure_delay_final fl p task failure draw (inl h) = ground (arith, h)
failure_delay_final fl p task failure draw (inr h) = ground (arith, h)
