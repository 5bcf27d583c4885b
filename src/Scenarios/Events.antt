-- ===== src/Scenarios/Events.antt =====
-- Kafka records of internal/notification/contract and internal/notification/pipeline/consumer.go.
use feed_flow.Base.{[], arith, inr, none, refl, some, true, ◌++◌, ◌↔◌, ◌∷◌, ◌≡◌}
use feed_flow.Base.Text.{byte_len, trim_space}
use feed_flow.Contract.{
  Headers, decode_requested, decode_retry, header, header_or, headers_match, is_complete,
  is_retry_topic, is_web_url, requests_topic_v1, retry_1m_topic_v1, wanted_headers,
}
use feed_flow.Contract.Laws.{
  IsValidRequest, IsValidRetry, decode_requested_accepts, decode_retry_accepts,
}
use feed_flow.Pipeline.Consumer.{
  DeadLetters, KafkaRecord, accept, answered, carry_out, process_record, resume, route,
}
use feed_flow.Pipeline.Consumer.DealtWith.{IsDealtWith, process_record-IsDealtWith}
use feed_flow.Pipeline.Consumer.Redelivery.{redelivered-no_change}
use feed_flow.Pipeline.Consumer.RoundTrip.{IsFaithful, Resumes, body_of, retry_roundtrip}
use feed_flow.Pipeline.Consumer.Routing.{HasRetryHeaders, route_accepts, route_resumes}
use feed_flow.Retry.{minute}
use feed_flow.Scenarios.{
  busy_tables, busy_task, codec, gen_uuid, idle_session, idle_tables, request, retry_event,
  unlocked, user_text,
}
use feed_flow.Store.{
  DispatchRow, Tables, calm, close_transaction, commit_body, exec, ok, transaction,
}
use feed_flow.Store.Inbox.{accept_request, add_deliveries, add_delivery, after_insert, insert_inbox}
use feed_flow.Store.Outcomes.{mark_failed, short_code}

abbrev request_headers : Headers
request_headers = wanted_headers codec request

abbrev request_record : KafkaRecord
request_record = record {
  topic = requests_topic_v1;
  partition = 0;
  offset = 12;
  key = user_text;
  headers = request_headers;
  value = "request";
}

abbrev retry_record : KafkaRecord
retry_record = record {
  topic = retry_1m_topic_v1;
  partition = 0;
  offset = 3;
  key = user_text;
  headers =
      ("event_id", "seven")
      ∷ ("event_type", "notification.retry")
      ∷ ("schema_version", "1")
      ∷ ("content-type", "application/json")
      ∷ [];
  value = "retry";
}

abbrev pub letters : DeadLetters
letters = record { letter_id = λ r. r.offset; letter_payload = λ r reason. reason }

decode_requested_accepts_example :
    (decode_requested codec user_text request_headers "request" ≡ inr request)
    ↔ IsValidRequest codec user_text request_headers "request" request
decode_requested_accepts_example =
    decode_requested_accepts codec user_text request_headers "request" request

decode_retry_accepts_example :
    (decode_retry codec user_text "retry" ≡ inr retry_event)
    ↔ IsValidRetry codec user_text "retry" retry_event
decode_retry_accepts_example = decode_retry_accepts codec user_text "retry" retry_event

route_accepts_example :
    (route codec request_record ≡ accept request)
    ↔ (request_record.topic ≡ requests_topic_v1)
      × IsValidRequest codec user_text request_headers "request" request
route_accepts_example = route_accepts codec request_record request

route_resumes_example :
    (route codec retry_record ≡ resume retry_event)
    ↔ (is_retry_topic retry_1m_topic_v1 ≡ true)
      × HasRetryHeaders codec retry_record.headers
      × IsValidRetry codec user_text "retry" retry_event
route_resumes_example = route_resumes codec retry_record retry_event

request_processed :
    (process_record codec gen_uuid letters (λ out. true) (some request_record) idle_session).outcome
    ≡ ok tt
unfolding process_record route decode_requested is_complete is_web_url headers_match header
    header_or carry_out answered accept_request transaction close_transaction commit_body exec
    insert_inbox after_insert add_deliveries add_delivery trim_space
request_processed = refl

no_letter :
    (process_record codec gen_uuid letters (λ out. true) (some request_record) idle_session).letter
    ≡ none
unfolding process_record route decode_requested is_complete is_web_url headers_match header
    header_or carry_out answered accept_request transaction close_transaction commit_body exec
    insert_inbox after_insert add_deliveries add_delivery trim_space
no_letter = refl

process_record-IsDealtWith_example :
    IsDealtWith codec letters
      (λ out. true)
      request_record
      idle_tables
      (process_record codec gen_uuid letters (λ out. true) (some request_record) idle_session)
process_record-IsDealtWith_example =
    process_record-IsDealtWith codec gen_uuid letters (λ out. true) request_record idle_session
      request_processed

abbrev processed_tables : Tables
processed_tables =
    (process_record codec gen_uuid letters (λ out. true) (some request_record)
      idle_session).session.tables

redelivered-no_change_example :
    (process_record codec gen_uuid letters
      (λ out. true)
      (some request_record)
      (calm processed_tables 5000 5000 unlocked)).session.tables
    ≡ processed_tables
redelivered-no_change_example =
    redelivered-no_change codec gen_uuid letters (λ out. true) request_record idle_session
      (calm processed_tables 5000 5000 unlocked) request_processed no_letter refl

encodings-IsFaithful :
    IsFaithful codec (λ i. "1") 7 (body_of busy_task (short_code "telegram_rejected"))
unfolding short_code byte_len
encodings-IsFaithful = record { uuid_read = refl; retry_read = refl; one_printed = refl }

retry_roundtrip_example :
    (o : DispatchRow) × ((mark_failed codec
        (λ n. 7)
        busy_task
        minute
        "telegram_rejected"
        (calm busy_tables 1000 1000 unlocked)).1.tables.dispatch
      ≡ busy_tables.dispatch ++ o ∷ [])
    × Resumes codec (λ i. "1") 2 40 busy_task o
retry_roundtrip_example =
    retry_roundtrip codec (λ i. "1") (λ n. 7) 1000 1000 unlocked busy_task busy_tables minute
      "telegram_rejected" 2 40 refl refl refl encodings-IsFaithful (omega arith)
      (λ e. omega (arith, e), λ e. omega (arith, e), λ e. omega (arith, e)) (omega arith)
