-- ===== src/Pipeline/Delivery/Settled.antt =====
-- `Worker.Process` of internal/notification/pipeline/worker.go settles the task that it is given.
use feed_flow.Base.{
  Bool, Bool-cases, List, String, [], any, arith, count, false, find, if◌then◌else◌, inl, inr, refl,
  true, update, ℕ, ◌&&◌, ◌+◌, ◌==◌, ◌∙◌, ◌∷◌, ◌≡◌,
}
use feed_flow.Contract.{Codec}
use feed_flow.Store.{
  DeliveryRow, DeliveryStatus, Session, Tables, cancelled, exec, failed, ok, pending, processing,
  retry_wait, sent, ◌>>=◌,
}
use feed_flow.Store.Claim.{Task}
use feed_flow.Store.Outcomes.{
  active_row, channel_active, dispatch_payload, failure_kind, failure_status, failure_topic,
  holds_claim, insert_dispatch, mark_failed, mark_sent, one_row, released_row, sent_row,
  settle_failure, short_code, update_deliveries,
}
use feed_flow.Store.Rows.{has_id}
use feed_flow.Store.Runs.{Calm, bind_ok, exec-calm, transaction-calm_ok}

abbrev status_number : DeliveryStatus → ℕ
status_number pending = 0
status_number processing = 1
status_number retry_wait = 2
status_number sent = 3
status_number failed = 4
status_number cancelled = 5

abbrev pub has_status : ℕ → DeliveryStatus → DeliveryRow → Bool
has_status i status d = has_id i d && status_number d.status == status_number status

-- Some row with the UUID has the status.
abbrev pub Became : ℕ → DeliveryStatus → Tables → Type 0
Became i status t = any (has_status i status) t.deliveries ≡ true

any-update :
    (p q : DeliveryRow → Bool) (f : DeliveryRow → DeliveryRow) (ds : List DeliveryRow)
    → count p ds ≡ 1
    → ((d : DeliveryRow) → p d ≡ true → q (f d) ≡ true)
    → any q (update p f ds) ≡ true
any-update p q f [] h changed = cc
any-update p q f (d ∷ ds) h changed = elim (Bool-cases (p d)) [
  | inl e ↦ rw (e, changed d e) refl
  | inr e ↦ rw e (ground (arith, any-update p q f ds (ground arith) changed))
]

module _ (db_now clock_now : ℕ) (locked : ℕ → Bool) (task : Task) (t : Tables)
    (own : count (holds_claim task) t.deliveries ≡ 1) where
  -- The tables after an update of the one row that the task holds.
  abbrev Changed : (DeliveryRow → DeliveryRow) → Tables
  Changed change = record t { deliveries = update (holds_claim task) change t.deliveries }

  update_one :
      (change : Session → DeliveryRow → DeliveryRow)
      → exec
          (λ s. update_deliveries (holds_claim task) (change s) s)
          (Calm db_now clock_now locked t)
        ≡ (ok 1, Calm db_now clock_now locked (Changed (change (Calm db_now clock_now locked t))))
  unfolding update_deliveries
  update_one change =
      exec-calm db_now clock_now locked (λ s. update_deliveries (holds_claim task) (change s) s) t
        (rw own refl)

  pub mark_sent_run :
      mark_sent task (Calm db_now clock_now locked t)
      ≡ (ok tt, Calm db_now clock_now locked (Changed (sent_row db_now)))
  unfolding mark_sent
  mark_sent_run =
      bind_ok (exec (λ s. update_deliveries (holds_claim task) (sent_row s.db_now) s)) one_row
        (update_one (λ s. sent_row s.db_now))

  pub became :
      (status : DeliveryStatus) (change : DeliveryRow → DeliveryRow)
      → ((d : DeliveryRow) → has_id task.id d ≡ true → has_status task.id status (change d) ≡ true)
      → Became task.id status (Changed change)
  became status change h =
      any-update (holds_claim task) (has_status task.id status) change t.deliveries own
        (λ d held. h d (ground arith))

  abbrev is_active : Bool
  is_active = active_row (find (has_id task.id) t.deliveries) t.channels

  -- What a failure makes of the row: nothing is tried again on a channel that is gone or disabled.
  abbrev pub failed_status : ℕ → DeliveryStatus
  failed_status delay = if is_active then failure_status delay else cancelled

  module _ (codec : Codec) (gen_uuid : ℕ → ℕ) (delay : ℕ) where
    abbrev Reported : String → Tables → Tables
    Reported code t' =
        (insert_dispatch gen_uuid task.id task.user_id task.attempts (failure_kind delay)
          (failure_topic delay)
          (dispatch_payload codec task.id task.event_id task.user_id task.attempts code)
          (clock_now + delay) (Calm db_now clock_now locked t')).1

    settle_failure_run :
        (code : String)
        → settle_failure codec gen_uuid task delay code true (Calm db_now clock_now locked t) ≡ (
          ok tt,
          Calm db_now clock_now locked
              (Reported code (Changed (released_row db_now (failure_status delay) code))),
        )
    unfolding settle_failure insert_dispatch
    settle_failure_run code =
        bind_ok
          (exec (λ s.
            update_deliveries (holds_claim task) (released_row s.db_now (failure_status delay) code)
              s))
          (λ n. one_row n >>= λ _. exec (λ s.
            insert_dispatch gen_uuid task.id task.user_id task.attempts (failure_kind delay)
              (failure_topic delay)
              (dispatch_payload codec task.id task.event_id task.user_id task.attempts code)
              (s.clock_now + delay) s))
          (update_one (λ s. released_row s.db_now (failure_status delay) code))
        ∙ exec-calm db_now clock_now locked _ _ refl

    cancel_run :
        (code : String)
        → settle_failure codec gen_uuid task delay code false (Calm db_now clock_now locked t) ≡ (
          ok tt,
          Calm db_now clock_now locked (Changed (released_row db_now cancelled "channel_disabled")),
        )
    unfolding settle_failure
    cancel_run code =
        bind_ok
          (exec (λ s.
            update_deliveries (holds_claim task)
              (released_row s.db_now cancelled "channel_disabled") s))
          one_row (update_one (λ s. released_row s.db_now cancelled "channel_disabled"))

    -- The tables that `MarkFailed` leaves.
    abbrev AfterFailure : String → Bool → Tables
    AfterFailure code true =
        Reported (short_code code)
          (Changed (released_row db_now (failure_status delay) (short_code code)))
    AfterFailure code false = Changed (released_row db_now cancelled "channel_disabled")

    settle_run :
        (code : String) (active : Bool)
        → settle_failure codec gen_uuid task delay
            (short_code code)
            active
            (Calm db_now clock_now locked t)
          ≡ (ok tt, Calm db_now clock_now locked (AfterFailure code active))
    settle_run code true = settle_failure_run (short_code code)
    settle_run code false = cancel_run (short_code code)

    pub mark_failed_run :
        (code : String)
        → mark_failed codec gen_uuid task delay code (Calm db_now clock_now locked t)
          ≡ (ok tt, Calm db_now clock_now locked (AfterFailure code is_active))
    unfolding mark_failed channel_active
    mark_failed_run code =
        transaction-calm_ok db_now clock_now locked _ t (AfterFailure code is_active) (
          bind_ok (exec (channel_active task.id))
            (λ active. settle_failure codec gen_uuid task delay (short_code code) active)
            (exec-calm db_now clock_now locked (channel_active task.id) t refl)
          ∙ settle_run code is_active)

    pub failed-Became :
        (code : String) (active : Bool)
        → Became task.id
            (if active then failure_status delay else cancelled)
            (AfterFailure code active)
    unfolding released_row insert_dispatch
    failed-Became code true =
        became (failure_status delay) (released_row db_now (failure_status delay) (short_code code))
          (λ d h. ground (arith, h))
    failed-Became code false =
        became cancelled (released_row db_now cancelled "channel_disabled")
          (λ d h. ground (arith, h))
