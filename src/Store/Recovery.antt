-- ===== src/Store/Recovery.antt =====
-- internal/notification/postgres/pipeline.go: `RecoverExpired`.
use feed_flow.Base.{
  Bool, List, String, [], if◌then◌else◌, leb, length, ltb, none, not, select, some, sort_by, take,
  ℕ, ◌&&◌, ◌==◌, ◌||◌, ◌∷◌,
}
use feed_flow.Base.Int.{leb_ℤ, pos, pos_part, ℤ}
use feed_flow.Contract.{Codec, dlq_topic_v1}
use feed_flow.Store.{
  DeliveryRow, DeliveryStatus, M, Result, Session, Tables, cancelled, dlq, exec, failed,
  invalid_limit, ok, pending, return, throw, transaction, ◌>>=◌,
}
use feed_flow.Store.Outcomes.{channel_active, dispatch_payload, insert_dispatch, update_deliveries}
use feed_flow.Store.Rows.{has_id, is_before, is_processing, or_zero}

-- `WHERE status = 'processing' AND lease_expires_at < NOW()`, with the locked rows skipped.
unfoldable pub is_expired : Session → DeliveryRow → Bool
is_expired s d =
    is_processing d.status && is_before d.lease_expires_at s.db_now && not (s.locked d.id)

abbrev pub earliest_lease : DeliveryRow → DeliveryRow → Bool
earliest_lease a b =
    let x = or_zero a.lease_expires_at in
    let y = or_zero b.lease_expires_at in ltb x y || (x == y && leb a.id b.id)

unfoldable pub expired_rows : ℕ → Session → Result (List DeliveryRow) × Tables
unfolding is_expired
expired_rows limit s =
    (ok (take limit (sort_by earliest_lease (select (is_expired s) s.tables.deliveries))), s.tables)

abbrev pub recovered_status : Bool → ℕ → ℕ → DeliveryStatus
recovered_status active attempts max_attempts =
    if not active then cancelled else if leb max_attempts attempts then failed else pending

abbrev pub recovered_code : Bool → String
recovered_code active = if active then "lease_expired" else "channel_disabled"

unfoldable pub recovered_row : ℕ → DeliveryStatus → String → DeliveryRow → DeliveryRow
recovered_row db_now status code d = record d {
  status = status;
  claim_token = none;
  lease_expires_at = none;
  available_at = db_now;
  last_error_code = some code;
  updated_at = db_now;
}

module _ (codec : Codec) (gen_uuid : ℕ → ℕ) where
  -- The insertion that follows an update to `failed`.
  unfoldable pub report_expired : DeliveryRow → DeliveryStatus → M (Unit {0})
  unfolding insert_dispatch dispatch_payload
  report_expired d failed = exec (λ s.
      insert_dispatch gen_uuid d.id d.user_id d.attempts dlq dlq_topic_v1
        (dispatch_payload codec d.id d.event_id d.user_id d.attempts "lease_expired") s.db_now s)
  report_expired d _ = return tt

  -- One round of the loop of `RecoverExpired`.
  unfoldable pub recover_one : ℕ → DeliveryRow → M (Unit {0})
  unfolding channel_active update_deliveries recovered_row report_expired
  recover_one max_attempts d = do
    active ← exec (channel_active d.id)
    n ← exec (λ s.
        update_deliveries (has_id d.id)
          (recovered_row s.db_now (recovered_status active d.attempts max_attempts)
            (recovered_code active))
          s)
    report_expired d (recovered_status active d.attempts max_attempts)

  unfoldable pub recover_each : ℕ → List DeliveryRow → M (Unit {0})
  recover_each max_attempts [] = return tt
  recover_each max_attempts (d ∷ ds) = do
    _ ← recover_one max_attempts d
    recover_each max_attempts ds

  -- The transaction of `RecoverExpired`, once its arguments are known to be positive.
  unfoldable pub recovery : ℕ → ℕ → M ℕ
  recovery limit max_attempts = transaction (do
    rows ← exec (expired_rows limit)
    _ ← recover_each max_attempts rows
    return (length rows))

  unfoldable pub recover_expired : ℤ → ℤ → M ℕ
  recover_expired limit max_attempts =
      if leb_ℤ limit (pos 0) || leb_ℤ max_attempts (pos 0)
      then throw invalid_limit
      else recovery (pos_part limit) (pos_part max_attempts)
