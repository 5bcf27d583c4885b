-- ===== src/Contract.antt =====
-- internal/notification/contract: the Kafka topics, the notification request and the retry event,
-- and the checks that a consumer makes of them.
pub mod Laws
use feed_flow.Base.{
  Bool, List, Option, String, [], false, if◌then◌else◌, inl, inr, none, not, some, str_eq, true, ℕ,
  ◌&&◌, ◌==◌, ◌||◌, ◌∷◌, ◌⊎◌,
}
use feed_flow.Base.Int.{eq_ℤ, leb_ℤ, pos, ℤ}
use feed_flow.Base.Text.{is_empty, trim_space}

abbrev pub requests_topic_v1 : String
requests_topic_v1 = "feedflow.notification.requests.v1"

abbrev pub retry_1m_topic_v1 : String
retry_1m_topic_v1 = "feedflow.notification.retry.1m.v1"

abbrev pub retry_10m_topic_v1 : String
retry_10m_topic_v1 = "feedflow.notification.retry.10m.v1"

abbrev pub retry_1h_topic_v1 : String
retry_1h_topic_v1 = "feedflow.notification.retry.1h.v1"

abbrev pub dlq_topic_v1 : String
dlq_topic_v1 = "feedflow.notification.dlq.v1"

abbrev pub notification_requested : String
notification_requested = "notification.requested"

abbrev pub requested_schema_v1 : ℤ
requested_schema_v1 = pos 1

abbrev pub template_new_post : String
template_new_post = "new_post"

unfoldable pub is_retry_topic : String → Bool
is_retry_topic topic =
    str_eq topic retry_1m_topic_v1
    || str_eq topic retry_10m_topic_v1
    || str_eq topic retry_1h_topic_v1

-- Instants count from Go's zero time, so 0 is the time for which `IsZero` holds.
pub record RequestedData : Type 0 where
  pub post_id : ℕ
  pub feed_id : ℕ
  pub title : String
  pub body : String
  pub url : String
  pub published_at : ℕ

pub record Requested : Type 0 where
  pub event_id : ℕ
  pub event_type : String
  pub schema_version : ℤ
  pub occurred_at : ℕ
  pub producer : String
  pub notification_id : ℕ
  pub user_id : ℕ
  pub template : String
  pub post : RequestedData

pub record RetryEvent : Type 0 where
  pub delivery_id : ℕ
  pub event_id : ℕ
  pub user_id : ℕ
  pub attempt_no : ℤ

-- The anonymous struct that `dispatchPayload` encodes.
pub record DispatchBody : Type 0 where
  pub retry_event : RetryEvent
  pub error_code : String

-- The encodings that the program takes from `encoding/json`, `net/url` and `google/uuid`.
-- `decode_request` gives the first JSON value of a payload, and whether nothing follows it;
-- `parse_url` gives the scheme and the host.
pub record Codec : Type 0 where
  pub uuid_string : ℕ → String
  pub uuid_parse : String → Option ℕ
  pub decode_request : String → Option (Requested × Bool)
  pub unmarshal_request : String → Option Requested
  pub marshal_request : Requested → String
  pub unmarshal_retry : String → Option RetryEvent
  pub marshal_dispatch : DispatchBody → String
  pub json_valid : String → Bool
  pub jsonb_eq : String → String → Bool
  pub parse_url : String → Option (String × String)

-- A Go map of strings: of a key set twice the last value counts, and a missing key reads "".
abbrev pub Headers : Type 0
Headers = List (String × String)

unfoldable pub header_or : String → Headers → String → String
header_or found [] key = found
header_or found ((k, v) ∷ rest) key = header_or (if str_eq k key then v else found) rest key

unfoldable pub header : Headers → String → String
unfolding header_or
header headers key = header_or "" headers key

pub data InvalidEvent : Type 0 where
  invalid_json trailing_json incomplete_request invalid_url invalid_header : InvalidEvent
  invalid_retry : InvalidEvent

unfoldable pub is_complete : Codec → String → Requested → Bool
is_complete codec key event =
    not (event.event_id == 0)
    && event.notification_id == event.event_id
    && not (event.user_id == 0)
    && str_eq event.event_type notification_requested
    && eq_ℤ event.schema_version requested_schema_v1
    && str_eq event.template template_new_post
    && not (event.occurred_at == 0)
    && not (is_empty (trim_space event.producer))
    && not (event.post.post_id == 0)
    && not (event.post.feed_id == 0)
    && not (is_empty (trim_space event.post.title))
    && not (event.post.published_at == 0)
    && str_eq key (codec.uuid_string event.user_id)

unfoldable pub is_web_url : Option (String × String) → Bool
is_web_url none = false
is_web_url (some (scheme, host)) =
    (str_eq scheme "http" || str_eq scheme "https") && not (is_empty host)

-- The headers that a request must carry.
abbrev pub wanted_headers : Codec → Requested → Headers
wanted_headers codec event =
    ("event_id", codec.uuid_string event.event_id)
    ∷ ("event_type", notification_requested)
    ∷ ("schema_version", "1")
    ∷ ("content-type", "application/json")
    ∷ []

unfoldable pub headers_match : Headers → Headers → Bool
headers_match headers [] = true
headers_match headers ((field, want) ∷ rest) =
    str_eq (header headers field) want && headers_match headers rest

-- The checks of a decoded request, in the source's order.
abbrev pub checked_request :
    Codec → String → Headers → Option (Requested × Bool) → InvalidEvent ⊎ Requested
checked_request codec key headers none = inl invalid_json
checked_request codec key headers (some (event, at_end)) =
    if not at_end
    then inl trailing_json
    else if not (is_complete codec key event)
    then inl incomplete_request
    else if not (is_web_url (codec.parse_url event.post.url))
    then inl invalid_url
    else if not (headers_match headers (wanted_headers codec event))
    then inl invalid_header
    else inr event

unfoldable pub decode_requested : Codec → String → Headers → String → InvalidEvent ⊎ Requested
decode_requested codec key headers payload =
    checked_request codec key headers (codec.decode_request payload)

-- The checks of a decoded retry.
abbrev pub checked_retry : Codec → String → Option RetryEvent → InvalidEvent ⊎ RetryEvent
checked_retry codec key none = inl invalid_retry
checked_retry codec key (some event) =
    if event.delivery_id == 0
      || event.event_id == 0
      || event.user_id == 0
      || leb_ℤ event.attempt_no (pos 0)
      || not (str_eq key (codec.uuid_string event.user_id))
    then inl invalid_retry
    else inr event

unfoldable pub decode_retry : Codec → String → String → InvalidEvent ⊎ RetryEvent
decode_retry codec key payload = checked_retry codec key (codec.unmarshal_retry payload)
