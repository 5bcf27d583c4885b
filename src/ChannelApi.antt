-- ===== src/ChannelApi.antt =====
-- internal/notification/httpapi/handler.go: the handlers of a user's notification channels. The
-- user is that of the request's context, the channel the UUID of its path, where they are there;
-- `ready` says whether the handler has a storage.
pub mod Isolation
pub mod Replies
use feed_flow.Base.{
  Bool, List, Option, String, false, if◌then◌else◌, inl, inr, leb, map, none, not, some, str_eq, ℕ,
  ◌&&◌, ◌==◌, ◌||◌, ◌⊎◌,
}
use feed_flow.Base.Text.{byte_len, is_empty, trim_space}
use feed_flow.Http.{
  DecodeError, Reply, RequestBody, decode_error_reply, decode_json, empty_reply, error_reply,
  status_of, value_reply,
}
use feed_flow.Store.{
  Result, Session, StoreError, channel_conflict, channel_not_found, err, ok, unavailable,
}
use feed_flow.Store.Channels.{
  Channel, create_channel, delete_channel, get_channels, set_channel_enabled,
}

pub record ChannelResponse : Type 0 where
  pub id : ℕ
  pub channel_type : String
  pub destination : String
  pub enabled : Bool

unfoldable pub response_for : Channel → ChannelResponse
response_for c = record {
  id = c.id;
  channel_type = c.channel_type;
  destination = c.destination;
  enabled = c.enabled;
}

unfoldable pub unauthorized : {A : Type 0} → Reply A
unauthorized = error_reply 401 "unauthorized" "Bearer access token is required"

-- `requestChannelID`: the nil UUID is no channel.
unfoldable pub request_channel_id : Option ℕ → Option ℕ
request_channel_id none = none
request_channel_id (some id) = if id == 0 then none else some id

unfoldable pub invalid_channel_id : {A : Type 0} → Reply A
invalid_channel_id = error_reply 400 "invalid_request" "invalid channel ID"

unfoldable pub storage_unavailable : {A : Type 0} → Reply A
storage_unavailable = error_reply 503 "service_unavailable" "notification storage unavailable"

-- `writeStorageError`.
unfoldable pub storage_error_reply : {A : Type 0} → StoreError → Reply A
unfolding storage_unavailable
storage_error_reply channel_not_found =
    error_reply 404 "channel_not_found" "notification channel not found"
storage_error_reply channel_conflict =
    error_reply 409 "channel_conflict" "notification channel already exists"
storage_error_reply unavailable = storage_unavailable
storage_error_reply _ = error_reply 500 "internal_error" "internal server error"

-- What a handler makes of the storage's answer.
abbrev pub answer {ℓ} :
    {B : Type ℓ} {A : Type 0} → (B → Reply A) → Result B × Session → Reply A × Session
answer reply (ok b, s) = (reply b, s)
answer reply (err e, s) = (storage_error_reply e, s)

pub record NewChannel : Type 0 where
  pub channel_type : String
  pub destination : String

unfoldable pub is_channel_type : String → Bool
is_channel_type kind = str_eq kind "telegram" || str_eq kind "email"

unfoldable pub is_destination : String → Bool
is_destination content = not (is_empty content) && leb (byte_len content) 512

-- `PostChannel` once the body is read; `new_id` is the UUID that the handler makes.
unfoldable pub create_from :
    ℕ → Bool → ℕ → DecodeError ⊎ NewChannel → Session → Reply ChannelResponse × Session
unfolding is_channel_type is_destination
create_from user ready new_id (inl e) s = (decode_error_reply e, s)
create_from user ready new_id (inr request) s =
    let destination = trim_space request.destination in
    if not (is_channel_type request.channel_type)
    then (error_reply 400 "invalid_request" "unsupported notification channel type", s)
    else if not (is_destination destination)
    then (error_reply 400 "invalid_request" "destination must contain between 1 and 512 bytes", s)
    else if not ready
    then (storage_unavailable, s)
    else answer (λ c. value_reply 201 (response_for c))
        (create_channel
          (record {
            id = new_id;
            user_id = user;
            channel_type = request.channel_type;
            destination = destination;
            enabled = false;
          })
          s)

unfoldable pub post_channel :
    (String → Option (NewChannel × Bool))
    → Option ℕ
    → Bool
    → ℕ
    → RequestBody
    → Session
    → Reply ChannelResponse × Session
unfolding create_from
post_channel decode none ready new_id body s = (unauthorized, s)
post_channel decode (some user) ready new_id body s =
    create_from user ready new_id (decode_json decode body) s

unfoldable pub list_channels : Option ℕ → Bool → Session → Reply (List ChannelResponse) × Session
list_channels none ready s = (unauthorized, s)
list_channels (some user) ready s =
    if not ready
    then (storage_unavailable, s)
    else answer (λ cs. value_reply 200 (map response_for cs)) (get_channels user s)

-- `PatchChannel` once the body is read: its field `enabled` may be missing.
unfoldable pub switch_from :
    ℕ → ℕ → Bool → DecodeError ⊎ Option Bool → Session → Reply ChannelResponse × Session
switch_from user channel ready (inl e) s = (decode_error_reply e, s)
switch_from user channel ready (inr none) s =
    (error_reply 400 "invalid_request" "enabled field is required", s)
switch_from user channel ready (inr (some enabled)) s =
    if not ready
    then (storage_unavailable, s)
    else answer (λ c. value_reply 200 (response_for c)) (set_channel_enabled user channel enabled s)

abbrev pub for_channel :
    {A : Type 0} → Option ℕ → (ℕ → Session → Reply A × Session) → Session → Reply A × Session
for_channel none handle s = (invalid_channel_id, s)
for_channel (some channel) handle s = handle channel s

unfoldable pub patch_channel :
    (String → Option (Option Bool × Bool))
    → Option ℕ
    → Option ℕ
    → Bool
    → RequestBody
    → Session
    → Reply ChannelResponse × Session
unfolding switch_from
patch_channel decode none path_id ready body s = (unauthorized, s)
patch_channel decode (some user) path_id ready body s =
    for_channel (request_channel_id path_id)
      (λ channel. switch_from user channel ready (decode_json decode body)) s

unfoldable pub remove_from : ℕ → Bool → ℕ → Session → Reply (Unit {0}) × Session
remove_from user ready channel s =
    if not ready
    then (storage_unavailable, s)
    else answer (λ _. empty_reply 204) (delete_channel user channel s)

unfoldable pub delete_channel_handler :
    Option ℕ → Option ℕ → Bool → Session → Reply (Unit {0}) × Session
unfolding remove_from
delete_channel_handler none path_id ready s = (unauthorized, s)
delete_channel_handler (some user) path_id ready s =
    for_channel (request_channel_id path_id) (remove_from user ready) s

-- The requests that `RegisterRoutes` routes to the handlers.
pub data ChannelCall : Type 0 where
  posts : RequestBody → ℕ → ChannelCall
  lists : ChannelCall
  patches : Option ℕ → RequestBody → ChannelCall
  removes : Option ℕ → ChannelCall

-- The status of the reply, and the session after the request.
abbrev pub outcome_of : {A : Type 0} → Reply A × Session → ℕ × Session
outcome_of (reply, s) = (status_of reply, s)

unfoldable pub serve :
    (String → Option (NewChannel × Bool))
    → (String → Option (Option Bool × Bool))
    → Option ℕ
    → Bool
    → ChannelCall
    → Session
    → ℕ × Session
unfolding post_channel list_channels patch_channel delete_channel_handler
serve decode_new decode_switch user ready (posts body new_id) s =
    outcome_of (post_channel decode_new user ready new_id body s)
serve decode_new decode_switch user ready lists s = outcome_of (list_channels user ready s)
serve decode_new decode_switch user ready (patches path_id body) s =
    outcome_of (patch_channel decode_switch user path_id ready body s)
serve decode_new decode_switch user ready (removes path_id) s =
    outcome_of (delete_channel_handler user path_id ready s)
