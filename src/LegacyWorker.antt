-- ===== src/LegacyWorker.antt =====
-- internal/notification/worker/worker.go: the older delivery worker, which settles a delivery by
-- its UUID alone. The call of its repository that ends a task is a value; Expansion and Deliveries
-- have what the repository does to its Tables, and Batches carries the calls out.
pub mod Decisions
pub mod Tables
pub mod Expansion
pub mod Deliveries
pub mod Batches
pub mod Lifecycle
pub mod Kept
pub mod Runs
use feed_flow.Base.{Bool, Option, String, if◌then◌else◌, none, some, true, ℕ, ◌*◌, ◌+◌, ◌-◌}
use feed_flow.Base.Int.{leb_ℤ, pos, pos_part, ℤ}
use feed_flow.Errors.{ErrorChain}
use feed_flow.Pipeline.Senders.{Registry, get_sender, not_registered}
use feed_flow.Retry.{Float64, Policy, minute, next_delay, second}
use feed_flow.Store.Claim.{Message}

-- `Config`; durations are nanoseconds.
pub record WorkerConfig : Type 0 where
  pub poll_interval : ℤ
  pub batch_size : ℤ
  pub concurrency : ℤ
  pub send_timeout : ℤ
  pub lease_timeout : ℤ
  pub requeue_interval : ℤ

-- `DefaultConfig`.
unfoldable pub default_worker_config : WorkerConfig
default_worker_config = record {
  poll_interval = pos second;
  batch_size = pos 50;
  concurrency = pos 5;
  send_timeout = pos (15 * second);
  lease_timeout = pos (5 * minute);
  requeue_interval = pos minute;
}

pub data WorkerConfigError : Type 0 where
  bad_poll_interval bad_batch_size bad_concurrency : WorkerConfigError
  bad_send_timeout bad_lease_timeout bad_requeue_interval : WorkerConfigError

-- `validateConfig`.
unfoldable pub validate_config : WorkerConfig → Option WorkerConfigError
validate_config c =
    if leb_ℤ c.poll_interval (pos 0)
    then some bad_poll_interval
    else if leb_ℤ c.batch_size (pos 0)
    then some bad_batch_size
    else if leb_ℤ c.concurrency (pos 0)
    then some bad_concurrency
    else if leb_ℤ c.send_timeout (pos 0)
    then some bad_send_timeout
    else if leb_ℤ c.lease_timeout (pos 0)
    then some bad_lease_timeout
    else if leb_ℤ c.requeue_interval (pos 0)
    then some bad_requeue_interval
    else none

-- `DeliveryTask`, with the fields that the worker reads.
pub record DeliveryTask : Type 0 where
  pub id : ℕ
  pub attempts : ℤ
  pub channel_type : String
  pub message : Message

-- The one call of the repository that ends `processTask`, or the error of its context.
pub data TaskEnd : Type 0 where
  marks_sent : ℕ → TaskEnd
  marks_failed : ℕ → ErrorChain → TaskEnd
  schedules : ℕ → ℕ → ErrorChain → TaskEnd
  stops : TaskEnd

module _ (fl : Float64) where
  -- The end after the sender's answer.
  unfoldable pub after_send :
      Option (Policy fl) → Bool → ℕ → ℕ → DeliveryTask → Option ErrorChain → TaskEnd
  after_send policy ended now draw task none = marks_sent task.id
  after_send policy ended now draw task (some failure) =
      let (delay, again) = next_delay fl policy true task.attempts (some failure) draw in
      if ended
      then stops
      else if again
      then schedules task.id (now + delay) failure
      else marks_failed task.id failure

  -- `processTask`; `ended` says whether the context has ended after the `Send`.
  unfoldable pub process_task :
      Registry → Option (Policy fl) → Bool → ℕ → ℕ → DeliveryTask → TaskEnd
  unfolding after_send get_sender
  process_task senders policy ended now draw task = elim (get_sender senders task.channel_type) [
    | none ↦ marks_failed task.id not_registered
    | some send ↦ after_send policy ended now draw task (send task.message)
  ]

-- The instant before which `requeueStale` takes a delivery for lost.
unfoldable pub stale_before : WorkerConfig → ℕ → ℕ
stale_before c now = now - pos_part c.lease_timeout
