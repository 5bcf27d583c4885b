-- ===== src/Scenarios.antt =====
-- Small concrete states and runs of the whole pipeline: one user with one Telegram channel, and
-- encodings that know a handful of values.
mod Notifications
mod Deliveries
mod Events
mod Relays
mod Policies
mod Journeys
mod Legacy
mod Mails
mod Telegrams
mod Requests
mod Newsfeeds
mod Pages
mod Credentials
use feed_flow.Base.{
  Bool, String, [], arith, false, if◌then◌else◌, none, refl, some, str_eq, true, ℕ, ◌+◌, ◌==◌, ◌∷◌,
}
use feed_flow.Base.Int.{pos}
use feed_flow.Contract.{
  Codec, Requested, RequestedData, RetryEvent, notification_requested, template_new_post,
}
use feed_flow.Store.{ChannelRow, DeliveryRow, InboxRow, Session, Tables, calm, processing}
use feed_flow.Store.Claim.{Task}
use feed_flow.Store.Invariant.{Inv}
use feed_flow.Store.Tokens.{DrawsApart}

-- Encodings: the user is 5, one request and one retry event can be read.
abbrev pub user_text : String
user_text = "00000000-0000-0000-0000-000000000005"

abbrev pub uuid_text : ℕ → String
uuid_text i = if i == 5 then user_text else if i == 7 then "seven" else "other"

abbrev pub post : RequestedData
post = record {
  post_id = 21;
  feed_id = 22;
  title = "A title";
  body = "A body";
  url = "https://example.org/a";
  published_at = 40;
}

abbrev pub request : Requested
request = record {
  event_id = 7;
  event_type = notification_requested;
  schema_version = pos 1;
  occurred_at = 50;
  producer = "feedflow";
  notification_id = 7;
  user_id = 5;
  template = template_new_post;
  post = post;
}

abbrev pub retry_event : RetryEvent
retry_event = record { delivery_id = 100; event_id = 7; user_id = 5; attempt_no = pos 1 }

abbrev pub codec : Codec
codec = record {
  uuid_string = uuid_text;
  uuid_parse = λ s. if str_eq s "seven" then some 7 else none;
  decode_request = λ s. if str_eq s "request" then some (request, true) else none;
  unmarshal_request = λ s. if str_eq s "request" then some request else none;
  marshal_request = λ e. "request";
  unmarshal_retry = λ s. if str_eq s "retry" then some retry_event else none;
  marshal_dispatch = λ b. "retry";
  json_valid = λ s. true;
  jsonb_eq = λ a b. str_eq a b;
  parse_url = λ s. some ("https", "example.org");
}

abbrev pub gen_uuid : ℕ → ℕ
gen_uuid n = n + 100

pub gen_uuid-DrawsApart : DrawsApart gen_uuid
gen_uuid-DrawsApart m n h = omega (arith, h)

-- The database.
abbrev pub channel_row : ChannelRow
channel_row = record {
  id = 1;
  user_id = 5;
  channel_type = "telegram";
  destination = "chat";
  enabled = true;
  created_at = 10;
}

abbrev pub idle_tables : Tables
idle_tables = record {
  channels = channel_row ∷ [];
  inbox = [];
  deliveries = [];
  dispatch = [];
  drawn = 0;
}

pub idle_tables-Inv : Inv idle_tables
idle_tables-Inv = record { rows = tt; unique_ids = tt; unique_targets = tt }

abbrev pub unlocked : ℕ → Bool
unlocked i = false

abbrev pub idle_session : Session
idle_session = calm idle_tables 1000 1000 unlocked

-- The same with the request's delivery in the hands of a worker.
abbrev pub inbox_entry : InboxRow
inbox_entry = record {
  event_id = 7;
  user_id = 5;
  event_type = notification_requested;
  schema_version = pos 1;
  template = template_new_post;
  payload = "request";
  occurred_at = 50;
}

abbrev pub busy_row : DeliveryRow
busy_row = record {
  id = 100;
  event_id = 7;
  user_id = 5;
  channel_id = 1;
  status = processing;
  attempts = 1;
  available_at = 1000;
  claim_token = some 101;
  lease_expires_at = some 2000;
  sent_at = none;
  last_error_code = none;
  created_at = 1000;
  updated_at = 1000;
}

abbrev pub busy_tables : Tables
busy_tables = record {
  channels = channel_row ∷ [];
  inbox = inbox_entry ∷ [];
  deliveries = busy_row ∷ [];
  dispatch = [];
  drawn = 2;
}

abbrev pub busy_session : Session
busy_session = calm busy_tables 1000 1000 unlocked

abbrev pub busy_task : Task
busy_task = record {
  id = 100;
  event_id = 7;
  user_id = 5;
  claim_token = 101;
  attempts = 1;
  channel_type = "telegram";
  message = record { recipient = "chat"; title = "A title"; body = "A body"; url = post.url };
}

pub busy_tables-Inv : Inv busy_tables
busy_tables-Inv = record {
  rows = (
    record {
      consistent = record {
        token_while_processing = refl;
        lease_while_processing = refl;
        time_when_sent = refl;
      };
      reported = record { retry_reported = λ h. cc; failure_reported = λ h. cc };
      deliverable = λ h. cc;
      requested = refl;
    },
    tt,
  );
  unique_ids = (refl, tt);
  unique_targets = (refl, tt);
}
