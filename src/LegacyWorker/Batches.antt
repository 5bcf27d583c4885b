-- ===== src/LegacyWorker/Batches.antt =====
-- internal/notification/worker/worker.go: batches, requeueing and the loop of the older worker.
-- Each task makes one call of the repository, its last, and the pool of goroutines hands tasks out
-- until the context ends; so a batch is the tasks that were handed out, in the order of these
-- calls, each with what it meets.
use feed_flow.Base.{
  Bool, List, Option, String, [], if◌then◌else◌, inl, inr, none, some, ℕ, ◌++◌, ◌∷◌, ◌⊎◌,
}
use feed_flow.Base.Int.{pos_part}
use feed_flow.Errors.{ErrorChain}
use feed_flow.LegacyWorker.{
  DeliveryTask, TaskEnd, WorkerConfig, marks_failed, marks_sent, process_task, schedules,
  stale_before, stops,
}
use feed_flow.LegacyWorker.Deliveries.{
  claim_deliveries, mark_delivery_failed, mark_delivery_sent, requeue_stale_deliveries,
  schedule_delivery_retry,
}
use feed_flow.LegacyWorker.Expansion.{expand_events}
use feed_flow.LegacyWorker.Tables.{LegacyError, LegacyTables, Moment}
use feed_flow.Pipeline.Senders.{Registry}
use feed_flow.Retry.{Float64, Policy}

-- What a task meets: the moment of its call, whether the context has ended after the `Send`, the
-- time of the worker's clock and the random number of the policy.
pub record TaskRun : Type 0 where
  pub moment : Moment
  pub ended : Bool
  pub now : ℕ
  pub draw : ℕ

pub data TaskError : Type 0 where
  context_ended : TaskError
  repository_error : LegacyError → TaskError

abbrev pub task_error : LegacyError ⊎ Unit {0} → Option TaskError
task_error (inl e) = some (repository_error e)
task_error (inr _) = none

-- What a batch meets: the moments of its two calls, whether the context has ended between them,
-- the pool, which says of the claimed tasks which it hands out, in which order and to what, and
-- whether the context has ended when the pool is done.
pub record BatchRun : Type 0 where
  pub expand_moment : Moment
  pub claim_moment : Moment
  pub ended : Bool
  pub pool : List DeliveryTask → List (DeliveryTask × TaskRun)
  pub stopped : Bool

-- A turn of the loop of `Run`.
pub data Turn : Type 0 where
  batch : BatchRun → Turn
  requeue : Moment → ℕ → Turn

module _ (fl : Float64) (error_text : ErrorChain → String) (senders : Registry)
    (policy : Option (Policy fl)) (config : WorkerConfig) where
  unfoldable pub finish_task : Moment → TaskEnd → LegacyTables → Option TaskError × LegacyTables
  finish_task w (marks_sent i) t = let (r, t') = mark_delivery_sent w i t in (task_error r, t')
  finish_task w (marks_failed i e) t =
      let (r, t') = mark_delivery_failed w i (error_text e) t in (task_error r, t')
  finish_task w (schedules i at e) t =
      let (r, t') = schedule_delivery_retry w i at (error_text e) t in (task_error r, t')
  finish_task w stops t = (some context_ended, t)

  -- The tasks of `processTasks` that are handed out; the errors are joined.
  unfoldable pub process_tasks :
      List (DeliveryTask × TaskRun) → LegacyTables → List TaskError × LegacyTables
  unfolding finish_task
  process_tasks [] t = ([], t)
  process_tasks ((task, r) ∷ rest) t =
      let (failure, t') =
        finish_task r.moment (process_task fl senders policy r.ended r.now r.draw task) t in
      let (failures, last) = process_tasks rest t' in
      (elim failure [ none ↦ failures | some e ↦ e ∷ failures ], last)

  -- `processTasks`.
  unfoldable pub process_claimed :
      (List DeliveryTask → List (DeliveryTask × TaskRun))
      → Bool
      → List DeliveryTask
      → LegacyTables
      → List TaskError × LegacyTables
  unfolding process_tasks
  process_claimed pool stopped [] t = ([], t)
  process_claimed pool stopped (task ∷ tasks) t =
      let (failures, last) = process_tasks (pool (task ∷ tasks)) t in
      (if stopped then failures ++ context_ended ∷ [] else failures, last)

  -- `processBatch` once the tasks are claimed.
  unfoldable pub work_on :
      (List DeliveryTask → List (DeliveryTask × TaskRun))
      → Bool
      → (LegacyError ⊎ List DeliveryTask) × LegacyTables
      → List TaskError × LegacyTables
  unfolding process_claimed
  work_on pool stopped (inl e, t) = (repository_error e ∷ [], t)
  work_on pool stopped (inr tasks, t) = process_claimed pool stopped tasks t

  unfoldable pub expand_errors : LegacyError ⊎ ℕ → List TaskError
  expand_errors (inl e) = repository_error e ∷ []
  expand_errors (inr _) = []

  -- `processBatch`; an error of the expansion does not keep it from claiming.
  unfoldable pub process_batch : BatchRun → LegacyTables → List TaskError × LegacyTables
  unfolding work_on expand_errors
  process_batch r t =
      let size = pos_part config.batch_size in
      let (expanded, t') = expand_events r.expand_moment size t in
      let before = expand_errors expanded in
      if r.ended
      then (before ++ context_ended ∷ [], t')
      else let (failures, t'') =
          work_on r.pool r.stopped (claim_deliveries r.claim_moment size t') in
        (before ++ failures, t'')

  -- `requeueStale`, at a time of the worker's clock.
  unfoldable pub requeue_stale : Moment → ℕ → LegacyTables → LegacyTables
  requeue_stale w now t = (requeue_stale_deliveries w (stale_before config now) t).1

  unfoldable pub take_turn : Turn → LegacyTables → LegacyTables
  unfolding process_batch requeue_stale
  take_turn (batch r) t = (process_batch r t).1
  take_turn (requeue w now) t = requeue_stale w now t

  -- `Run`, for as many turns as the tickers give it.
  unfoldable pub run_worker : List Turn → LegacyTables → LegacyTables
  unfolding take_turn
  run_worker [] t = t
  run_worker (turn ∷ turns) t = run_worker turns (take_turn turn t)
