-- ===== src/Pipeline/Consumer/Routing.antt =====
-- Where the consumer of internal/notification/pipeline/consumer.go sends a record.
use feed_flow.Base.{
  Bool, Bool-cases, String, arith, false, if◌then◌else◌, inl, inr, is_some, not, refl, str_eq,
  str_eq_iff, true, ◌↔◌, ◌≡◌, ◌⊎◌,
}
use feed_flow.Contract.{
  Codec, Headers, InvalidEvent, Requested, RetryEvent, header, is_retry_topic, requests_topic_v1,
}
use feed_flow.Contract.Laws.{
  IsValidRequest, IsValidRetry, decode_requested_accepts, decode_retry_accepts,
}
use feed_flow.Pipeline.Consumer.{
  KafkaRecord, Verdict, accept, reject, resume, retry_headers_ok, route, verdict_of_request,
  verdict_of_retry,
}
use feed_flow.Store.Keeps.Inbox.{is_request}

-- What a retry record's headers must be.
pub record HasRetryHeaders (codec : Codec) (headers : Headers) : Type 0 where
  pub event_type : header headers "event_type" ≡ "notification.retry"
  pub schema_version : header headers "schema_version" ≡ "1"
  pub content_type : header headers "content-type" ≡ "application/json"
  pub identified : is_some (codec.uuid_parse (header headers "event_id")) ≡ true

retry_headers_iff :
    (codec : Codec) (headers : Headers)
    → (retry_headers_ok codec headers ≡ true) ↔ HasRetryHeaders codec headers
unfolding retry_headers_ok
retry_headers_iff codec headers =
    let a = str_eq_iff (header headers "event_type") "notification.retry" in
    let b = str_eq_iff (header headers "schema_version") "1" in
    let c = str_eq_iff (header headers "content-type") "application/json" in
    (
      λ h. record {
        event_type = ground (arith, a);
        schema_version = ground (arith, b);
        content_type = ground (arith, c);
        identified = ground arith;
      },
      λ v. ground (arith, a, b, c, v.event_type, v.schema_version, v.content_type, v.identified),
    )

accepted_request :
    (o : InvalidEvent ⊎ Requested) (event : Requested)
    → verdict_of_request o ≡ accept event
    → o ≡ inr event
accepted_request (inl e) event h = cc
accepted_request (inr x) event h = cc

resumed_retry :
    (o : InvalidEvent ⊎ RetryEvent) (event : RetryEvent)
    → verdict_of_retry o ≡ resume event
    → o ≡ inr event
resumed_retry (inl e) event h = cc
resumed_retry (inr x) event h = cc

not_resumed :
    (o : InvalidEvent ⊎ Requested) (event : RetryEvent) → verdict_of_request o ≡ resume event → ⊥
not_resumed (inl e) event h = cc
not_resumed (inr x) event h = cc

not_accepted :
    (o : InvalidEvent ⊎ RetryEvent) (event : Requested) → verdict_of_retry o ≡ accept event → ⊥
not_accepted (inl e) event h = cc
not_accepted (inr x) event h = cc

-- The tests of `Process`, with the two decodings as given.
routed : Bool → Bool → Bool → InvalidEvent ⊎ Requested → InvalidEvent ⊎ RetryEvent → Verdict
routed is_request is_retry headers_ok request retry_event =
    if is_request
    then verdict_of_request request
    else if not is_retry
    then reject "invalid_topic"
    else if not headers_ok
    then reject "invalid_retry"
    else verdict_of_retry retry_event

routed_accept :
    (q y h : Bool) (request : InvalidEvent ⊎ Requested) (retry_event : InvalidEvent ⊎ RetryEvent)
    (event : Requested)
    → routed q y h request retry_event ≡ accept event
    → (q ≡ true) × (request ≡ inr event)
unfolding routed
routed_accept true y h request retry_event event e = (refl, accepted_request request event e)
routed_accept false false h request retry_event event e = cc
routed_accept false true false request retry_event event e = cc
routed_accept false true true request retry_event event e =
    absurd (not_accepted retry_event event e)

routed_resume :
    (q y h : Bool) (request : InvalidEvent ⊎ Requested) (retry_event : InvalidEvent ⊎ RetryEvent)
    (event : RetryEvent)
    → routed q y h request retry_event ≡ resume event
    → (q ≡ false) × (y ≡ true) × (h ≡ true) × (retry_event ≡ inr event)
unfolding routed
routed_resume true y h request retry_event event e = absurd (not_resumed request event e)
routed_resume false false h request retry_event event e = cc
routed_resume false true false request retry_event event e = cc
routed_resume false true true request retry_event event e =
    (refl, refl, refl, resumed_retry retry_event event e)

-- No topic is both.
retry_not_request :
    (topic : String) → is_retry_topic topic ≡ true → str_eq topic requests_topic_v1 ≡ false
unfolding is_retry_topic
retry_not_request topic h = elim (Bool-cases (str_eq topic requests_topic_v1)) [
  | inl e ↦ cc (rw ((str_eq_iff topic requests_topic_v1).0 e) at h)
  | inr e ↦ e
]

module _ (codec : Codec) (r : KafkaRecord) where
  -- A record is taken as a request exactly when it stands in the topic of the requests and is a
  -- valid request.
  pub route_accepts :
      (event : Requested)
      → (route codec r ≡ accept event)
        ↔ (r.topic ≡ requests_topic_v1) × IsValidRequest codec r.key r.headers r.value event
  unfolding route routed
  route_accepts event = (
    λ h.
        let (q, d) = routed_accept _ _ _ _ _ event h in
        (
          (str_eq_iff r.topic requests_topic_v1).0 q,
          (decode_requested_accepts codec r.key r.headers r.value event).0 d,
        ),
    λ v.
        rw
          (
            (str_eq_iff r.topic requests_topic_v1).1 v.0,
            (decode_requested_accepts codec r.key r.headers r.value event).1 v.1,
          )
          refl,
  )

  -- A record is taken as a retry exactly when it stands in one of the retry topics, has the
  -- headers of a retry and is a valid retry.
  pub route_resumes :
      (event : RetryEvent)
      → (route codec r ≡ resume event)
        ↔ (is_retry_topic r.topic ≡ true)
          × HasRetryHeaders codec r.headers
          × IsValidRetry codec r.key r.value event
  unfolding route routed
  route_resumes event = (
    λ h.
        let (q, y, o, d) = routed_resume _ _ _ _ _ event h in
        (
          y,
          (retry_headers_iff codec r.headers).0 o,
          (decode_retry_accepts codec r.key r.value event).0 d,
        ),
    λ (y, o, d).
        rw
          (
            retry_not_request r.topic y,
            y,
            (retry_headers_iff codec r.headers).1 o,
            (decode_retry_accepts codec r.key r.value event).1 d,
          )
          refl,
  )
