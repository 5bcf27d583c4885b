-- ===== src/LegacyWorker/Runs.antt =====
-- The turns of internal/notification/worker/worker.go, over any run.
use feed_flow.Base.{Bool, Bool-cases, List, Option, String, [], inl, inr, ◌∷◌, ◌⊎◌}
use feed_flow.Base.Int.{pos_part}
use feed_flow.Errors.{ErrorChain}
use feed_flow.LegacyWorker.{
  DeliveryTask, TaskEnd, WorkerConfig, marks_failed, marks_sent, process_task, schedules,
  stale_before, stops,
}
use feed_flow.LegacyWorker.Batches.{
  BatchRun, TaskRun, Turn, batch, finish_task, process_batch, process_claimed, process_tasks,
  requeue, requeue_stale, run_worker, take_turn, work_on,
}
use feed_flow.LegacyWorker.Deliveries.{
  claim_deliveries, done_row, dropped_row, mark_delivery_failed, mark_delivery_sent, postponed_row,
  schedule_delivery_retry, settle_row,
}
use feed_flow.LegacyWorker.Expansion.{expand_events}
use feed_flow.LegacyWorker.Kept.{
  DistinctRows, KeepsTables, done-IsMove, dropped-IsMove, postponed-IsMove, requeue-Keeps,
  settle-Keeps, statement-Keeps, unchanged,
}
use feed_flow.LegacyWorker.Kept.Claimed.{claim_deliveries-Keeps}
use feed_flow.LegacyWorker.Kept.Expanded.{expand_events-Keeps}
use feed_flow.LegacyWorker.Lifecycle.{Evolves, Evolves-trans}
use feed_flow.LegacyWorker.Tables.{LegacyError, LegacyTables, Moment}
use feed_flow.Pipeline.Senders.{Registry}
use feed_flow.Retry.{Float64, Policy}

module _ (fl : Float64) (error_text : ErrorChain → String) (senders : Registry)
    (policy : Option (Policy fl)) (config : WorkerConfig) where
  finish_task-Keeps :
      (w : Moment) (end : TaskEnd) (t : LegacyTables)
      → DistinctRows t.deliveries
      → KeepsTables t (finish_task fl error_text senders policy config w end t).1
  unfolding finish_task mark_delivery_sent mark_delivery_failed schedule_delivery_retry
  finish_task-Keeps w (marks_sent i) t k =
      statement-Keeps w (settle_row (done_row w.db_now) i) t k
        (settle-Keeps (done_row w.db_now) i t (done-IsMove w.db_now) k)
  finish_task-Keeps w (marks_failed i e) t k =
      statement-Keeps w (settle_row (dropped_row w.db_now (error_text e)) i) t k
        (settle-Keeps _ i t (dropped-IsMove w.db_now (error_text e)) k)
  finish_task-Keeps w (schedules i at e) t k =
      statement-Keeps w (settle_row (postponed_row w.db_now at (error_text e)) i) t k
        (settle-Keeps _ i t (postponed-IsMove w.db_now at (error_text e)) k)
  finish_task-Keeps w stops t k = unchanged t k

  then-Keeps :
      (t u v : LegacyTables)
      → KeepsTables t u
      → (DistinctRows u.deliveries → KeepsTables u v)
      → KeepsTables t v
  then-Keeps t u v h k =
      let next = k h.0 in (next.0, Evolves-trans t.deliveries u.deliveries v.deliveries h.1 next.1)

  process_tasks-Keeps :
      (jobs : List (DeliveryTask × TaskRun)) (t : LegacyTables)
      → DistinctRows t.deliveries
      → KeepsTables t (process_tasks fl error_text senders policy config jobs t).1
  unfolding process_tasks
  process_tasks-Keeps [] t k = unchanged t k
  process_tasks-Keeps ((task, r) ∷ jobs) t k =
      let end = process_task fl senders policy r.ended r.now r.draw task in
      let t' = (finish_task fl error_text senders policy config r.moment end t).1 in
      then-Keeps t t' (process_tasks fl error_text senders policy config jobs t').1
        (finish_task-Keeps r.moment end t k) (process_tasks-Keeps jobs t')

  work_on-Keeps :
      (pool : List DeliveryTask → List (DeliveryTask × TaskRun)) (stopped : Bool)
      (answer : (LegacyError ⊎ List DeliveryTask) × LegacyTables)
      → DistinctRows answer.1.deliveries
      → KeepsTables answer.1 (work_on fl error_text senders policy config pool stopped answer).1
  unfolding work_on process_claimed
  work_on-Keeps pool stopped (inl e, t) k = unchanged t k
  work_on-Keeps pool stopped (inr [], t) k = unchanged t k
  work_on-Keeps pool stopped (inr (task ∷ tasks), t) k =
      process_tasks-Keeps (pool (task ∷ tasks)) t k

  batch-Keeps :
      (r : BatchRun) (t : LegacyTables)
      → DistinctRows t.deliveries
      → KeepsTables t (process_batch fl error_text senders policy config r t).1
  unfolding process_batch
  batch-Keeps r t k =
      let size = pos_part config.batch_size in
      let t' = (expand_events r.expand_moment size t).1 in
      let claimed = claim_deliveries r.claim_moment size t' in
      let last = (work_on fl error_text senders policy config r.pool r.stopped claimed).1 in
      let made = expand_events-Keeps r.expand_moment size t k in
      elim (Bool-cases r.ended) [
        | inl e ↦ rw e made
        | inr e ↦ rw e (
            then-Keeps t t' last made (λ k'.
              then-Keeps t' claimed.1 last (claim_deliveries-Keeps r.claim_moment size t' k')
                (work_on-Keeps r.pool r.stopped claimed)))
      ]

  turn-Keeps :
      (turn : Turn) (t : LegacyTables)
      → DistinctRows t.deliveries
      → KeepsTables t (take_turn fl error_text senders policy config turn t)
  unfolding take_turn requeue_stale
  turn-Keeps (batch r) t k = batch-Keeps r t k
  turn-Keeps (requeue w now) t k = requeue-Keeps w (stale_before config now) t k

  -- Whatever the older worker does in a run, with any faults, locks, senders and order of its
  -- goroutines: each delivery stays the same delivery of its user, post and channel, its status
  -- changes only from pending to processing, which counts an attempt, and from processing to sent,
  -- failed or pending; so what is sent or failed stays so; and each new delivery has begun as a
  -- pending one without an attempt. It asks that no two deliveries have one id, and keeps that.
  pub run_worker-Keeps :
      (turns : List Turn) (t : LegacyTables)
      → DistinctRows t.deliveries
      → DistinctRows (run_worker fl error_text senders policy config turns t).deliveries
        × Evolves t.deliveries (run_worker fl error_text senders policy config turns t).deliveries
  unfolding run_worker
  run_worker-Keeps [] t k = unchanged t k
  run_worker-Keeps (turn ∷ turns) t k =
      let t' = take_turn fl error_text senders policy config turn t in
      then-Keeps t t' (run_worker fl error_text senders policy config turns t')
        (turn-Keeps turn t k) (run_worker-Keeps turns t')
