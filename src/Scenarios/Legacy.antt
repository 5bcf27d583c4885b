-- ===== src/Scenarios/Legacy.antt =====
-- Decisions of internal/notification/worker/worker.go.
use feed_flow.Base.{List, Option, [], false, none, refl, some, true, ℕ, ◌+◌, ◌∷◌, ◌≡◌, ◌≤◌}
use feed_flow.Base.Int.{pos}
use feed_flow.Errors.{api_error_retryable}
use feed_flow.LegacyWorker.{
  DeliveryTask, after_send, default_worker_config, process_task, schedules,
}
use feed_flow.LegacyWorker.Batches.{TaskRun, Turn, batch, requeue, run_worker}
use feed_flow.LegacyWorker.Decisions.{Answered, process_task_schedules}
use feed_flow.LegacyWorker.Kept.{DistinctRows}
use feed_flow.LegacyWorker.Lifecycle.{Evolves}
use feed_flow.LegacyWorker.Runs.{run_worker-Keeps}
use feed_flow.LegacyWorker.Tables.{LegacyRow, LegacyTables, Moment}
use feed_flow.Pipeline.Senders.{Registry, Sender, get_sender}
use feed_flow.Retry.{
  classified, double_delay, exponential_delay, is_retryable, next_delay, retry_delay,
  suggested_delay, with_jitter,
}
use feed_flow.Retry.Decision.{ShouldRetry}
use feed_flow.Scenarios.{busy_task, channel_row}
use feed_flow.Scenarios.Pages.{shelf}
use feed_flow.Scenarios.Policies.{policy, rate_limit, whole}
use feed_flow.Store.{DbFault, DeliveryStatus, other_fault, pending, sent}

abbrev delivery : DeliveryTask
delivery = record {
  id = 100;
  attempts = pos 1;
  channel_type = "telegram";
  message = busy_task.message;
}

abbrev limits : Sender
limits message = some rate_limit

abbrev limiting : Registry
limiting = ("telegram", some limits) ∷ []

limit_scheduled :
    process_task whole limiting (some policy) false 1000 0 delivery
    ≡ schedules 100 3_000_001_000 rate_limit
unfolding process_task after_send next_delay with_jitter exponential_delay double_delay
    suggested_delay retry_delay is_retryable classified api_error_retryable get_sender
limit_scheduled = refl

process_task_schedules_example :
    Answered limiting delivery (some rate_limit)
    × (false ≡ false)
    × ShouldRetry whole policy true (pos 1) (some rate_limit)
    × (1000 + suggested_delay (some rate_limit) ≤ 3_000_001_000)
process_task_schedules_example =
    process_task_schedules whole limiting policy false 1000 0 3_000_001_000 delivery rate_limit
      limit_scheduled

-- A delivery that waits, one that was sent, and a run that takes the first and fails to settle it.
abbrev legacy_row : ℕ → DeliveryStatus → LegacyRow
legacy_row i status = record {
  id = i;
  user_id = 5;
  post_id = 21;
  channel_id = i;
  status = status;
  attempts = 0;
  available_at = 10;
  sent_at = none;
  last_error = none;
  created_at = 10;
  updated_at = 10;
}

abbrev legacy_tables : LegacyTables
legacy_tables = record {
  source = shelf.tables;
  channels = channel_row ∷ [];
  deliveries = legacy_row 1 pending ∷ legacy_row 2 sent ∷ [];
}

abbrev moment : Option DbFault → Moment
moment fault = record {
  db_now = 1000;
  fault = fault;
  was_done = true;
  locked = λ i. false;
  gen_uuid = λ i. 100 + i;
}

abbrev pool : List DeliveryTask → List (DeliveryTask × TaskRun)
pool [] = []
pool (task ∷ tasks) =
    (task, record { moment = moment (some other_fault); ended = false; now = 1000; draw = 0 })
    ∷ pool tasks

abbrev turns : List Turn
turns =
    batch (record {
      expand_moment = moment none;
      claim_moment = moment none;
      ended = false;
      pool = pool;
      stopped = false;
    })
    ∷ requeue (moment none) 5000
    ∷ []

run_worker-Keeps_example :
    DistinctRows
      (run_worker whole
        (λ e. "")
        []
        (some policy)
        default_worker_config
        turns
        legacy_tables).deliveries
    × Evolves legacy_tables.deliveries
        (run_worker whole
          (λ e. "")
          []
          (some policy)
          default_worker_config
          turns
          legacy_tables).deliveries
run_worker-Keeps_example =
    run_worker-Keeps whole (λ e. "") [] (some policy) default_worker_config turns legacy_tables
      (refl, (refl, tt))
