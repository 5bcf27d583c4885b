-- ===== src/Pipeline/Consumer.antt =====
-- internal/notification/pipeline/consumer.go: what the consumer does with one Kafka record.
pub mod Routing
pub mod DealtWith
pub mod Redelivery
pub mod RoundTrip
use feed_flow.Base.{
  Bool, List, Option, String, [], if◌then◌else◌, inl, inr, is_some, none, not, some, str_eq, ℕ,
  ◌&&◌, ◌+◌, ◌∷◌, ◌⊎◌,
}
use feed_flow.Contract.{
  Codec, Headers, InvalidEvent, Requested, RetryEvent, decode_requested, decode_retry, dlq_topic_v1,
  header, is_retry_topic, requests_topic_v1,
}
use feed_flow.Relay.{Record}
use feed_flow.Store.{Result, Session, err, identity_conflict, nil_record, ok, publish_failed}
use feed_flow.Store.Inbox.{accept_request, resume_retry}

pub record KafkaRecord : Type 0 where
  pub topic : String
  pub partition : ℕ
  pub offset : ℕ
  pub key : String
  pub headers : Headers
  pub value : String

-- What `Process` decides from the record alone.
pub data Verdict : Type 0 where
  accept : Requested → Verdict
  resume : RetryEvent → Verdict
  reject : String → Verdict

unfoldable pub retry_headers_ok : Codec → Headers → Bool
retry_headers_ok codec headers =
    str_eq (header headers "event_type") "notification.retry"
    && str_eq (header headers "schema_version") "1"
    && str_eq (header headers "content-type") "application/json"
    && is_some (codec.uuid_parse (header headers "event_id"))

abbrev pub verdict_of_request : InvalidEvent ⊎ Requested → Verdict
verdict_of_request (inl e) = reject "invalid_request"
verdict_of_request (inr event) = accept event

abbrev pub verdict_of_retry : InvalidEvent ⊎ RetryEvent → Verdict
verdict_of_retry (inl e) = reject "invalid_retry"
verdict_of_retry (inr event) = resume event

unfoldable pub route : Codec → KafkaRecord → Verdict
unfolding retry_headers_ok decode_requested decode_retry is_retry_topic
route codec r =
    if str_eq r.topic requests_topic_v1
    then verdict_of_request (decode_requested codec r.key r.headers r.value)
    else if not (is_retry_topic r.topic)
    then reject "invalid_topic"
    else if not (retry_headers_ok codec r.headers)
    then reject "invalid_retry"
    else verdict_of_retry (decode_retry codec r.key r.value)

-- The UUID and the payload of a dead letter are made by `google/uuid` and `encoding/json`.
pub record DeadLetters : Type 0 where
  pub letter_id : KafkaRecord → ℕ
  pub letter_payload : KafkaRecord → String → String

unfoldable pub dead_letter : Codec → DeadLetters → KafkaRecord → String → Record
dead_letter codec letters r reason =
    let id = letters.letter_id r in
    record {
      id = id;
      topic = dlq_topic_v1;
      key = codec.uuid_string id;
      value = letters.letter_payload r reason;
      headers =
          ("event_id", codec.uuid_string id)
          ∷ ("event_type", "notification.invalid")
          ∷ ("schema_version", "1")
          ∷ ("content-type", "application/json")
          ∷ [];
    }

-- What `Process` returns, with the record that it has given to the publisher.
pub record Handled : Type 0 where
  pub outcome : Result (Unit {0})
  pub letter : Option Record
  pub session : Session

module _ (codec : Codec) (gen_uuid : ℕ → ℕ) (letters : DeadLetters) (publish : Record → Bool) where
  -- `publishInvalid`.
  unfoldable pub publish_invalid : KafkaRecord → String → Session → Handled
  publish_invalid r reason s =
      let letter = dead_letter codec letters r reason in
      record {
        outcome = if publish letter then ok tt else err publish_failed;
        letter = some letter;
        session = s;
      }

  -- The store's answer to a request.
  unfoldable pub answered : KafkaRecord → Result (Unit {0}) × Session → Handled
  unfolding publish_invalid
  answered r (ok _, s) = record { outcome = ok tt; letter = none; session = s }
  answered r (err identity_conflict, s) = publish_invalid r "identity_conflict" s
  answered r (err e, s) = record { outcome = err e; letter = none; session = s }

  abbrev pub resumed : Result (Unit {0}) × Session → Handled
  resumed (r, s) = record { outcome = r; letter = none; session = s }

  unfoldable pub carry_out : KafkaRecord → Verdict → Session → Handled
  unfolding answered publish_invalid
  carry_out r (accept event) s = answered r (accept_request codec gen_uuid event r.value s)
  carry_out r (resume event) s = resumed (resume_retry event s)
  carry_out r (reject reason) s = publish_invalid r reason s

  -- `Consumer.Process`; `none` is a nil record.
  unfoldable pub process_record : Option KafkaRecord → Session → Handled
  unfolding route carry_out
  process_record none s = record { outcome = err nil_record; letter = none; session = s }
  process_record (some r) s = carry_out r (route codec r) s

  -- One fetch of `Run`: records until the first failure, each committed after it was processed.
  -- The commits that reached Kafka are counted.
  unfoldable pub run_fetch :
      List KafkaRecord → (ℕ → Bool) → ℕ → Session → Result (Unit {0}) × ℕ × Session
  unfolding process_record
  run_fetch [] commits n s = (ok tt, n, s)
  run_fetch (r ∷ rs) commits n s =
      let h = process_record (some r) s in
      let rest = run_fetch rs commits (n + 1) h.session in
      elim h.outcome [
        | err e ↦ (err e, n, h.session)
        | ok _ ↦ if commits n then rest else (err publish_failed, n, h.session)
      ]
