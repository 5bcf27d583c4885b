-- ===== src/Pipeline/Delivery/Outcome.antt =====
-- What `Worker.Process` of internal/notification/pipeline/worker.go makes of a delivery.
use feed_flow.Base.{Bool, Option, false, find, if◌then◌else◌, none, some, true, ℕ, ◌≡◌}
use feed_flow.Contract.{Codec}
use feed_flow.Errors.{ErrorChain}
use feed_flow.Pipeline.Delivery.{failure_delay}
use feed_flow.Pipeline.Delivery.Settled.{Became}
use feed_flow.Retry.{Float64, Policy}
use feed_flow.Store.{
  DeliveryStatus, Result, Session, Tables, calm, cancelled, context_cancelled, err, ok, sent,
}
use feed_flow.Store.Claim.{Task}
use feed_flow.Store.Outcomes.{active_row, failure_status}
use feed_flow.Store.Rows.{has_id}
use feed_flow.Store.Settlement.{IsSettled}

module _ (codec : Codec) (gen_uuid : ℕ → ℕ) (fl : Float64) (policy : Option (Policy fl))
    (db_now clock_now : ℕ) (locked : ℕ → Bool) (task : Task) (t : Tables) (draw : ℕ) where
  -- The status of the row after the sender's answer.
  abbrev pub outcome_status : Option ErrorChain → DeliveryStatus
  outcome_status none = sent
  outcome_status (some failure) =
      if active_row (find (has_id task.id) t.deliveries) t.channels
      then failure_status (failure_delay fl policy task failure draw)
      else cancelled

  -- What a settlement that works has done.
  abbrev pub HasSettled : DeliveryStatus → Result (Unit {0}) × Session → Type 0
  HasSettled status r = (r.0 ≡ ok tt) × IsSettled task r.1.tables × Became task.id status r.1.tables

  -- What `Process` has done, by the sender's answer and whether the context has ended after it.
  abbrev pub IsProcessed : Bool → Option ErrorChain → Result (Unit {0}) × Session → Type 0
  IsProcessed cancelled_after none r = HasSettled sent r
  IsProcessed false (some failure) r = HasSettled (outcome_status (some failure)) r
  IsProcessed true (some failure) r =
      (r.0 ≡ err context_cancelled) × (r.1 ≡ calm t db_now clock_now locked)
