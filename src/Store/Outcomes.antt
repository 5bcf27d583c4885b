-- ===== src/Store/Outcomes.antt =====
-- internal/notification/postgres/pipeline.go: `MarkSent` and `MarkFailed`.
use feed_flow.Base.{
  Bool, List, Option, String, count, false, find, if◌then◌else◌, leb, ltb, none, some, true, update,
  ℕ, ◌&&◌, ◌*◌, ◌+◌, ◌==◌,
}
use feed_flow.Base.Int.{pos}
use feed_flow.Base.Text.{byte_len}
use feed_flow.Contract.{
  Codec, dlq_topic_v1, retry_10m_topic_v1, retry_1h_topic_v1, retry_1m_topic_v1,
}
use feed_flow.Retry.{minute}
use feed_flow.Store.{
  ChannelRow, DeliveryRow, DeliveryStatus, DispatchKind, M, Result, Session, Tables, cancelled, dlq,
  exec, failed, ok, retry, retry_wait, return, sent, stale_claim, throw, transaction, ◌>>=◌,
}
use feed_flow.Store.Claim.{Task}
use feed_flow.Store.Rows.{add_dispatch, delivers_to, has_id, is_processing, is_value}

abbrev pub holds_claim : Task → DeliveryRow → Bool
holds_claim task d =
    d.id == task.id && is_value d.claim_token task.claim_token && is_processing d.status

-- Runs an `UPDATE` of the deliveries and counts its rows.
unfoldable pub update_deliveries :
    (DeliveryRow → Bool) → (DeliveryRow → DeliveryRow) → Session → Result ℕ × Tables
update_deliveries test change s =
    let t = s.tables in
    (ok (count test t.deliveries), record t { deliveries = update test change t.deliveries })

unfoldable pub sent_row : ℕ → DeliveryRow → DeliveryRow
sent_row db_now d = record d {
  status = sent;
  sent_at = some db_now;
  claim_token = none;
  lease_expires_at = none;
  last_error_code = none;
  updated_at = db_now;
}

-- `if tag.RowsAffected() != 1 { return ErrStaleClaim }`.
abbrev pub one_row : ℕ → M (Unit {0})
one_row n = if n == 1 then return tt else throw stale_claim

unfoldable pub mark_sent : Task → M (Unit {0})
unfolding update_deliveries sent_row
mark_sent task = do
  n ← exec (λ s. update_deliveries (holds_claim task) (sent_row s.db_now) s)
  one_row n

-- The `enabled` column that the join of `channelActive` finds, or false where it finds no row.
abbrev pub active_row : Option DeliveryRow → List ChannelRow → Bool
active_row none channels = false
active_row (some d) channels = elim (find (delivers_to d) channels) [
  | none ↦ false
  | some c ↦ c.enabled
]

-- `channelActive`: whether the delivery's channel is there and enabled.
unfoldable pub channel_active : ℕ → Session → Result Bool × Tables
channel_active delivery s =
    (ok (active_row (find (has_id delivery) s.tables.deliveries) s.tables.channels), s.tables)

-- A row whose claim has ended without a delivery.
unfoldable pub released_row : ℕ → DeliveryStatus → String → DeliveryRow → DeliveryRow
released_row db_now status code d = record d {
  status = status;
  claim_token = none;
  lease_expires_at = none;
  last_error_code = some code;
  updated_at = db_now;
}

unfoldable pub retry_topic : ℕ → String
retry_topic delay =
    if leb delay minute
    then retry_1m_topic_v1
    else if leb delay (10 * minute)
    then retry_10m_topic_v1
    else retry_1h_topic_v1

-- `dispatchPayload`.
unfoldable pub dispatch_payload : Codec → ℕ → ℕ → ℕ → ℕ → String → String
dispatch_payload codec delivery event user attempts code = codec.marshal_dispatch (record {
  retry_event = record {
    delivery_id = delivery;
    event_id = event;
    user_id = user;
    attempt_no = pos attempts;
  };
  error_code = code;
})

-- `INSERT INTO notification_dispatch_outbox ... ON CONFLICT DO NOTHING`.
unfoldable pub insert_dispatch :
    (ℕ → ℕ) → ℕ → ℕ → ℕ → DispatchKind → String → String → ℕ → Session → Result (Unit {0}) × Tables
insert_dispatch gen_uuid delivery user attempts kind topic payload available_at s =
    let t = s.tables in
    (
      ok tt,
      record t {
        dispatch =
            add_dispatch
              (record {
                id = gen_uuid t.drawn;
                delivery_id = delivery;
                user_id = user;
                attempt_no = attempts;
                kind = kind;
                target_topic = topic;
                payload = payload;
                available_at = available_at;
                published_at = none;
                publish_attempts = 0;
                created_at = s.db_now;
              })
              t.dispatch;
        drawn = t.drawn + 1;
      },
    )

unfoldable pub short_code : String → String
short_code code = if ltb 100 (byte_len code) then "provider_error" else code

-- What a failure of the given delay writes; a delay of 0 is a final failure.
abbrev pub failure_status : ℕ → DeliveryStatus
failure_status delay = if ltb 0 delay then retry_wait else failed

abbrev pub failure_kind : ℕ → DispatchKind
failure_kind delay = if ltb 0 delay then retry else dlq

abbrev pub failure_topic : ℕ → String
failure_topic delay = if ltb 0 delay then retry_topic delay else dlq_topic_v1

module _ (codec : Codec) (gen_uuid : ℕ → ℕ) where
  unfoldable pub settle_failure : Task → ℕ → String → Bool → M (Unit {0})
  unfolding update_deliveries released_row retry_topic dispatch_payload insert_dispatch
  settle_failure task delay code false = do
    n ← exec (λ s.
        update_deliveries (holds_claim task) (released_row s.db_now cancelled "channel_disabled") s)
    one_row n
  settle_failure task delay code true = do
    n ← exec (λ s.
        update_deliveries (holds_claim task) (released_row s.db_now (failure_status delay) code) s)
    _ ← one_row n
    exec (λ s.
        insert_dispatch gen_uuid task.id task.user_id task.attempts (failure_kind delay)
          (failure_topic delay)
          (dispatch_payload codec task.id task.event_id task.user_id task.attempts code)
          (s.clock_now + delay) s)

  unfoldable pub mark_failed : Task → ℕ → String → M (Unit {0})
  unfolding settle_failure channel_active
  mark_failed task delay code = transaction (do
    active ← exec (channel_active task.id)
    settle_failure task delay (short_code code) active)
