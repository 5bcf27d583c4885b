-- ===== src/Relay.antt =====
-- internal/notification/relay/relay.go: the relay that publishes the rows of an outbox to Kafka.
-- Both sources are one list of rows with the columns that the relay reads; of `outbox_events`
-- the rows whose `target_topic` is not NULL.
pub mod Order
pub mod Bursts
pub mod Delivery
use feed_flow.Base.{
  Bool, List, Option, String, [], false, if◌then◌else◌, inl, inr, is_some, leb, ltb, min, none, not,
  select, some, sort_by, suc, true, update, zero, ℕ, ◌&&◌, ◌*◌, ◌+◌, ◌==◌, ◌^◌, ◌||◌, ◌∷◌, ◌⊎◌,
}
use feed_flow.Base.Int.{pos, ℤ}
use feed_flow.ChannelApi.{answer}
use feed_flow.Contract.{Codec, Headers}
use feed_flow.Retry.{second}
use feed_flow.Store.{DispatchKind, DispatchRow, dlq, retry}

pub data Source : Type 0 where
  requests dispatches : Source

pub record OutboxRow : Type 0 where
  pub id : ℕ
  pub target_topic : Option String
  pub partition_key : String
  pub payload : String
  pub event_type : String
  pub schema_version : ℤ
  pub attempts : ℕ
  pub available_at : ℕ
  pub created_at : ℕ
  pub published_at : Option ℕ
  pub processed_at : Option ℕ

-- `relay.Record`.
pub record Record : Type 0 where
  pub id : ℕ
  pub topic : String
  pub key : String
  pub value : String
  pub headers : Headers

-- `LIMIT 1` of the query: rows that are due and not published; `locked` are those that other
-- transactions hold.
unfoldable pub is_due : Source → ℕ → (ℕ → Bool) → OutboxRow → Bool
is_due source db_now locked r =
    is_some r.target_topic
    && not (is_some r.published_at)
    && leb r.available_at db_now
    && not (locked r.id)

-- The two `ORDER BY`.
unfoldable pub published_before : Source → OutboxRow → OutboxRow → Bool
published_before requests a b =
    ltb a.created_at b.created_at || (a.created_at == b.created_at && leb a.id b.id)
published_before dispatches a b =
    ltb a.available_at b.available_at
    || (a.available_at == b.available_at
        && (ltb a.created_at b.created_at || (a.created_at == b.created_at && leb a.id b.id)))

abbrev pub first {ℓ} : {A : Type ℓ} → List A → Option A
first [] = none
first (x ∷ xs) = some x

unfoldable pub next_row : Source → ℕ → (ℕ → Bool) → List OutboxRow → Option OutboxRow
unfolding is_due published_before
next_row source db_now locked rows =
    first (sort_by (published_before source) (select (is_due source db_now locked) rows))

abbrev pub topic_of : OutboxRow → String
topic_of r = elim r.target_topic [ none ↦ "" | some topic ↦ topic ]

-- `int_string` is `fmt.Sprint` of an int.
unfoldable pub record_of : Codec → (ℤ → String) → OutboxRow → Record
record_of codec int_string r = record {
  id = r.id;
  topic = topic_of r;
  key = r.partition_key;
  value = r.payload;
  headers =
      ("event_id", codec.uuid_string r.id)
      ∷ ("event_type", r.event_type)
      ∷ ("schema_version", int_string r.schema_version)
      ∷ ("content-type", "application/json")
      ∷ [];
}

-- `time.Duration(1<<min(attempts, 6)) * time.Second`.
unfoldable pub backoff : ℕ → ℕ
backoff attempts = 2 ^ min attempts 6 * second

unfoldable pub deferred_row : ℕ → OutboxRow → OutboxRow
unfolding backoff
deferred_row db_now r = record r {
  attempts = r.attempts + 1;
  available_at = db_now + backoff r.attempts;
}

unfoldable pub published_row : Source → ℕ → OutboxRow → OutboxRow
published_row requests db_now r = record r {
  published_at = some db_now;
  processed_at = some db_now;
  attempts = r.attempts + 1;
}
published_row dispatches db_now r = record r {
  published_at = some db_now;
  attempts = r.attempts + 1;
}

abbrev pub row_id : ℕ → OutboxRow → Bool
row_id i r = r.id == i

-- Which of the database calls of a round fail.
pub record Faults : Type 0 where
  pub begin_fails : Bool
  pub select_fails : Bool
  pub update_fails : Bool
  pub commit_fails : Bool

pub data RelayError : Type 0 where
  begin_error select_error invalid_payload update_error commit_error publish_error : RelayError

-- What `PublishOne` returns, and what it leaves: the rows and the record given to the publisher.
pub record Round : Type 0 where
  pub outcome : RelayError ⊎ Bool
  pub rows : List OutboxRow
  pub offered : Option Record

-- The update after the publisher's answer, and the commit.
unfoldable pub conclude :
    Faults → List OutboxRow → List OutboxRow → Record → RelayError ⊎ Bool → Round
conclude f old new sent_record answer =
    if f.update_fails
    then record { outcome = inl update_error; rows = old; offered = some sent_record }
    else if f.commit_fails
    then record { outcome = inl commit_error; rows = old; offered = some sent_record }
    else record { outcome = answer; rows = new; offered = some sent_record }

module _ (codec : Codec) (int_string : ℤ → String) (publish : Record → Bool) (source : Source)
    (db_now : ℕ) (locked : ℕ → Bool) where
  -- What a round does with the row that it has selected; `publish` says whether Kafka took it.
  unfoldable pub offer : Faults → List OutboxRow → OutboxRow → Round
  unfolding conclude
  offer f rows r =
      if not (codec.json_valid r.payload)
      then record { outcome = inl invalid_payload; rows = rows; offered = none }
      else if publish (record_of codec int_string r)
      then conclude f rows (update (row_id r.id) (published_row source db_now) rows)
          (record_of codec int_string r) (inr true)
      else conclude f rows (update (row_id r.id) (deferred_row db_now) rows)
          (record_of codec int_string r) (inl publish_error)

  unfoldable pub publish_one : Faults → List OutboxRow → Round
  unfolding offer next_row
  publish_one f rows =
      if f.begin_fails
      then record { outcome = inl begin_error; rows = rows; offered = none }
      else if f.select_fails
      then record { outcome = inl select_error; rows = rows; offered = none }
      else elim (next_row source db_now locked rows) [
        | none ↦ record { outcome = inr false; rows = rows; offered = none }
        | some r ↦ offer f rows r
      ]

-- The rounds of `Run` between two waits, at one time of the database: the loop goes on while a
-- round has published. `none` is a loop that needs more rounds than the fuel.
module _ (codec : Codec) (int_string : ℤ → String) (publish : Record → Bool) (source : Source)
    (db_now : ℕ) (locked : ℕ → Bool) (f : Faults) where
  unfoldable pub after_round :
      Option (List OutboxRow) → RelayError ⊎ Bool → List OutboxRow → Option (List OutboxRow)
  after_round more (inl e) rows = some rows
  after_round more (inr true) rows = more
  after_round more (inr false) rows = some rows

  unfoldable pub burst : ℕ → List OutboxRow → Option (List OutboxRow)
  unfolding after_round
  burst zero rows = none
  burst (suc fuel) rows =
      let r = publish_one codec int_string publish source db_now locked f rows in
      let more = burst fuel r.rows in after_round more r.outcome r.rows

-- The rows of `notification_dispatch_outbox` as the relay reads them: `eventType` and `version` are
-- set by the program, the partition key is generated from the user.
abbrev pub event_type_of : DispatchKind → String
event_type_of retry = "notification.retry"
event_type_of dlq = "notification.dlq"

unfoldable pub dispatch_row : Codec → DispatchRow → OutboxRow
dispatch_row codec o = record {
  id = o.id;
  target_topic = some o.target_topic;
  partition_key = codec.uuid_string o.user_id;
  payload = o.payload;
  event_type = event_type_of o.kind;
  schema_version = pos 1;
  attempts = o.publish_attempts;
  available_at = o.available_at;
  created_at = o.created_at;
  published_at = o.published_at;
  processed_at = none;
}
