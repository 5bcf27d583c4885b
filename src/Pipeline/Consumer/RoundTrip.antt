-- ===== src/Pipeline/Consumer/RoundTrip.antt =====
-- From the outbox of one process to the consumer of another: what internal/notification/postgres
-- and internal/notification/relay write, internal/notification/pipeline/consumer.go reads.
use feed_flow.Base.{
  Bool, Bool-cases, String, [], any, arith, count, false, find, inl, inr, leb, ltb, none, refl,
  some, true, ℕ, ◌*◌, ◌++◌, ◌+◌, ◌<◌, ◌∷◌, ◌≡◌, ◌≢◌,
}
use feed_flow.Base.Int.{pos, ℤ}
use feed_flow.Contract.{Codec, DispatchBody, header, header_or, is_retry_topic}
use feed_flow.Pipeline.Consumer.{KafkaRecord, resume, route}
use feed_flow.Pipeline.Consumer.Routing.{HasRetryHeaders, route_resumes}
use feed_flow.Pipeline.Delivery.Settled.{mark_failed_run}
use feed_flow.Relay.{Record, dispatch_row, event_type_of, record_of}
use feed_flow.Retry.{minute}
use feed_flow.Store.{DispatchRow, Tables, calm, retry}
use feed_flow.Store.Claim.{Task}
use feed_flow.Store.Outcomes.{
  active_row, dispatch_payload, failure_kind, failure_topic, holds_claim, insert_dispatch,
  mark_failed, retry_topic, short_code,
}
use feed_flow.Store.Rows.{has_id, same_dispatch}

-- The record as Kafka hands it out.
abbrev pub received : Record → ℕ → ℕ → KafkaRecord
received out partition offset = record {
  topic = out.topic;
  partition = partition;
  offset = offset;
  key = out.key;
  headers = out.headers;
  value = out.value;
}

-- What the program relies on of the encodings: a UUID is read back from its text, and a dispatch
-- body reads back as its retry event, whose fields it repeats.
pub record IsFaithful (codec : Codec) (int_string : ℤ → String) (id : ℕ) (b : DispatchBody)
    : Type 0 where
  pub uuid_read : codec.uuid_parse (codec.uuid_string id) ≡ some id
  pub retry_read : codec.unmarshal_retry (codec.marshal_dispatch b) ≡ some b.retry_event
  pub one_printed : int_string (pos 1) ≡ "1"

-- The body that `MarkFailed` writes for a task.
abbrev pub body_of : Task → String → DispatchBody
body_of task code = record {
  retry_event = record {
    delivery_id = task.id;
    event_id = task.event_id;
    user_id = task.user_id;
    attempt_no = pos task.attempts;
  };
  error_code = code;
}

-- The row of the dispatch outbox that a failed attempt of the task gets.
abbrev retry_row : Codec → Task → ℕ → String → ℕ → ℕ → ℕ → DispatchRow
retry_row codec task delay code id at now = record {
  id = id;
  delivery_id = task.id;
  user_id = task.user_id;
  attempt_no = task.attempts;
  kind = failure_kind delay;
  target_topic = failure_topic delay;
  payload = dispatch_payload codec task.id task.event_id task.user_id task.attempts code;
  available_at = at;
  published_at = none;
  publish_attempts = 0;
  created_at = now;
}

retry_topic-is_retry_topic : (delay : ℕ) → is_retry_topic (retry_topic delay) ≡ true
unfolding retry_topic is_retry_topic
retry_topic-is_retry_topic delay = elim (Bool-cases (leb delay minute)) [
  | inl e ↦ rw e refl
  | inr e ↦
      rw e (elim (Bool-cases (leb delay (10 * minute))) [ inl l ↦ rw l refl | inr l ↦ rw l refl ])
]

retry_headers :
    (codec : Codec) (int_string : ℤ → String) (id delay : ℕ) (b : DispatchBody)
    → IsFaithful codec int_string id b
    → ltb 0 delay ≡ true
    → HasRetryHeaders codec (
        ("event_id", codec.uuid_string id)
        ∷ ("event_type", event_type_of (failure_kind delay))
        ∷ ("schema_version", int_string (pos 1))
        ∷ ("content-type", "application/json")
        ∷ [])
unfolding header header_or
retry_headers codec int_string id delay b f positive = record {
  event_type = rw positive refl;
  schema_version = f.one_printed;
  content_type = refl;
  identified = rw f.uuid_read refl;
}

row_roundtrip :
    (codec : Codec) (int_string : ℤ → String) (task : Task) (delay : ℕ) (code : String)
    (id at now partition offset : ℕ)
    → IsFaithful codec int_string id (body_of task code)
    → 0 < delay
    → task.id ≢ 0
    → task.event_id ≢ 0
    → task.user_id ≢ 0
    → 0 < task.attempts
    → route codec (
        received
          (record_of codec int_string
            (dispatch_row codec (retry_row codec task delay code id at now)))
          partition
          offset)
      ≡ resume (body_of task code).retry_event
unfolding record_of dispatch_row dispatch_payload
row_roundtrip codec int_string task delay code id at now partition offset f later a b c d =
    let positive : ltb 0 delay ≡ true = ground (arith, later) in
    (route_resumes codec _ _).1 (
      rw positive (retry_topic-is_retry_topic delay),
      retry_headers codec int_string id delay _ f positive,
      record {
        decoded = f.retry_read;
        identified = (a, b);
        for_user = (c, refl);
        attempted = ground arith;
      },
    )

-- The record that the relay makes of a row of the dispatch outbox resumes the task's attempt.
abbrev pub Resumes : Codec → (ℤ → String) → ℕ → ℕ → Task → DispatchRow → Type 0
Resumes codec int_string partition offset task o =
    route codec (received (record_of codec int_string (dispatch_row codec o)) partition offset)
    ≡ resume (record {
      delivery_id = task.id;
      event_id = task.event_id;
      user_id = task.user_id;
      attempt_no = pos task.attempts;
    })

-- Without a fault of the database, `MarkFailed` with a delay, for a task whose claim stands, whose
-- channel is enabled and whose attempt has no retry yet, adds one row to the dispatch outbox; and
-- the record that the relay makes of this row has the consumer resume that very delivery of that
-- very event at that very attempt. It asks that no UUID of the task is nil, that its attempt is
-- positive and that the encodings read back.
pub retry_roundtrip :
    (codec : Codec) (int_string : ℤ → String) (gen_uuid : ℕ → ℕ) (db_now clock_now : ℕ)
    (locked : ℕ → Bool) (task : Task) (t : Tables) (delay : ℕ) (code : String)
    (partition offset : ℕ)
    → count (holds_claim task) t.deliveries ≡ 1
    → active_row (find (has_id task.id) t.deliveries) t.channels ≡ true
    → any (same_dispatch task.id retry task.attempts) t.dispatch ≡ false
    → IsFaithful codec int_string (gen_uuid t.drawn) (body_of task (short_code code))
    → 0 < delay
    → (task.id ≢ 0) × (task.event_id ≢ 0) × (task.user_id ≢ 0)
    → 0 < task.attempts
    → (o : DispatchRow) × ((mark_failed codec gen_uuid task delay code
          (calm t db_now clock_now locked)).1.tables.dispatch
        ≡ t.dispatch ++ o ∷ [])
      × Resumes codec int_string partition offset task o
unfolding insert_dispatch
retry_roundtrip codec int_string gen_uuid db_now clock_now locked task t delay code partition offset
      own active fresh f later named tried =
    let positive : ltb 0 delay ≡ true = ground (arith, later) in
    let id = gen_uuid t.drawn in
    let run = mark_failed_run db_now clock_now locked task t own codec gen_uuid delay code in
    (
      retry_row codec task delay (short_code code) id (clock_now + delay) db_now,
      rw (run, active, positive, fresh) refl,
      row_roundtrip codec int_string task delay (short_code code) id (clock_now + delay) db_now
          partition offset f later named.0 named.1 named.2 tried,
    )
