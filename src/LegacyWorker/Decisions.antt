-- ===== src/LegacyWorker/Decisions.antt =====
-- What the older worker of internal/notification/worker/worker.go accepts and decides.
use feed_flow.Base.{
  Bool, Option, Option-cases, ap, arith, false, if◌then◌else◌, inl, inr, none, refl, some, subst,
  true, ℕ, ◌+◌, ◌↔◌, ◌≡◌, ◌≤◌,
}
use feed_flow.Base.Int.{pos, ℤ, ◌≤ℤ◌}
use feed_flow.Errors.{ErrorChain}
use feed_flow.LegacyWorker.{
  DeliveryTask, TaskEnd, WorkerConfig, after_send, marks_failed, process_task, schedules,
  validate_config,
}
use feed_flow.Pipeline.Senders.{Registry, Sender, get_sender, not_registered}
use feed_flow.Retry.{Float64, Policy, next_delay, suggested_delay}
use feed_flow.Retry.Decision.{ShouldRetry, next_delay_retries}

-- Every number of the configuration is positive.
pub record IsValidWorkerConfig (c : WorkerConfig) : Type 0 where
  pub polls : pos 1 ≤ℤ c.poll_interval
  pub claims_some : pos 1 ≤ℤ c.batch_size
  pub runs_some : pos 1 ≤ℤ c.concurrency
  pub waits : pos 1 ≤ℤ c.send_timeout
  pub leases : pos 1 ≤ℤ c.lease_timeout
  pub requeues : pos 1 ≤ℤ c.requeue_interval

-- `validateConfig` accepts a configuration exactly when all its numbers are positive.
pub validate_config_accepts :
    (c : WorkerConfig) → (validate_config c ≡ none) ↔ IsValidWorkerConfig c
unfolding validate_config
validate_config_accepts c = (λ h. ground arith, λ v. ground arith)

scheduled :
    (again : Bool) (i now delay at : ℕ) (x failure : ErrorChain)
    → (if again then schedules i (now + delay) x else marks_failed i x) ≡ schedules i at failure
    → (again ≡ true) × (now + delay ≡ at) × (x ≡ failure)
scheduled true i now delay at x failure h = (refl, ap (time_of at) h, ap (cause_of failure) h)
  where
    time_of : ℕ → TaskEnd → ℕ
    time_of other (schedules j t e) = t
    time_of other _ = other

    cause_of : ErrorChain → TaskEnd → ErrorChain
    cause_of other (schedules j t e) = e
    cause_of other _ = other
scheduled false i now delay at x failure h = cc

next_delay-suggested :
    (fl : Float64) (p : Policy fl) (attempt : ℤ) (failure : ErrorChain) (draw : ℕ)
    → (next_delay fl (some p) true attempt (some failure) draw).1 ≡ true
    → suggested_delay (some failure) ≤ (next_delay fl (some p) true attempt (some failure) draw).0
unfolding next_delay
next_delay-suggested fl p attempt failure draw h = ground (arith, h)

after_send_schedules :
    (fl : Float64) (p : Policy fl) (now draw at : ℕ) (task : DeliveryTask)
    (answer : Option ErrorChain) (failure : ErrorChain)
    → after_send fl (some p) false now draw task answer ≡ schedules task.id at failure
    → (answer ≡ some failure)
      × ShouldRetry fl p true task.attempts (some failure)
      × (now + suggested_delay (some failure) ≤ at)
unfolding after_send
after_send_schedules fl p now draw at task none failure h = cc
after_send_schedules fl p now draw at task (some x) failure h =
    let r = next_delay fl (some p) true task.attempts (some x) draw in
    let (again, time, same) = scheduled r.1 task.id now r.0 at x failure h in
    let more = next_delay-suggested fl p task.attempts x draw again in
    (
      ap some same,
      subst (λ e. ShouldRetry fl p true task.attempts (some e)) same
          ((next_delay_retries fl p true task.attempts (some x) draw).0 again),
      subst (λ e. now + suggested_delay (some e) ≤ at) same (omega (arith, time, more)),
    )

sent_schedules :
    (fl : Float64) (p : Policy fl) (ended : Bool) (now draw at : ℕ) (task : DeliveryTask)
    (answer : Option ErrorChain) (failure : ErrorChain)
    → after_send fl (some p) ended now draw task answer ≡ schedules task.id at failure
    → (ended ≡ false)
      × (answer ≡ some failure)
      × ShouldRetry fl p true task.attempts (some failure)
      × (now + suggested_delay (some failure) ≤ at)
unfolding after_send
sent_schedules fl p false now draw at task answer failure h =
    let (same, retried, late) = after_send_schedules fl p now draw at task answer failure h in
    (refl, same, retried, late)
sent_schedules fl p true now draw at task none failure h = cc
sent_schedules fl p true now draw at task (some x) failure h = cc

-- The task's channel has a sender, and this is its answer to the message.
abbrev pub Answered : Registry → DeliveryTask → Option ErrorChain → Type 0
Answered senders task answer =
    (send : Sender) × (get_sender senders task.channel_type ≡ some send)
    × (send task.message ≡ answer)

-- `processTask` schedules a delivery again only if its channel has a sender, the sender reported
-- that very error and the context has not ended; only while the error is retryable and attempts
-- are left; and not before the delay that the provider asks for.
pub process_task_schedules :
    (fl : Float64) (senders : Registry) (p : Policy fl) (ended : Bool) (now draw at : ℕ)
    (task : DeliveryTask) (failure : ErrorChain)
    → process_task fl senders (some p) ended now draw task ≡ schedules task.id at failure
    → Answered senders task (some failure)
      × (ended ≡ false)
      × ShouldRetry fl p true task.attempts (some failure)
      × (now + suggested_delay (some failure) ≤ at)
unfolding process_task
process_task_schedules fl senders p ended now draw at task failure h =
    elim (Option-cases (get_sender senders task.channel_type)) [
      | inl e ↦ absurd (failed_only (rw (e, process_task) at h))
      | inr (send, e) ↦
          let (live, same, retried, late) =
            sent_schedules fl p ended now draw at task (send task.message) failure
              (rw (e, process_task) at h) in
          ((send, e, same), live, retried, late)
    ]
  where
    failed_only : marks_failed task.id not_registered ≡ schedules task.id at failure → ⊥
    failed_only wrong = cc
