-- ===== src/Scenarios/Requests.antt =====
-- Requests to internal/notification/httpapi/handler.go on concrete tables.
use feed_flow.Base.{
  Bool, Option, String, arith, false, if◌then◌else◌, inl, inr, none, refl, some, str_eq, true, ◌≡◌,
}
use feed_flow.Base.Text.{byte_len, trim_space}
use feed_flow.ChannelApi.{
  ChannelCall, NewChannel, create_from, delete_channel_handler, posts, remove_from, removes,
  request_channel_id, serve,
}
use feed_flow.ChannelApi.Isolation.{SparesOthers}
use feed_flow.ChannelApi.Isolation.Requests.{serve-SparesOthers}
use feed_flow.ChannelApi.Replies.{removes-Removed}
use feed_flow.Http.{decode_json, invalid_body, sent_text}
use feed_flow.Scenarios.{busy_session, busy_tables, busy_tables-Inv}
use feed_flow.Store.{close_transaction, commit_body, exec, transaction}
use feed_flow.Store.Channels.{
  cancel_deliveries, classified_call, create_channel, delete_channel, insert_channel,
  remove_channel, store_channel,
}
use feed_flow.Store.Keeps.Deleted.{Removed}

abbrev decode_new : String → Option (NewChannel × Bool)
decode_new content =
    if str_eq content "{\"type\":\"email\"}"
    then some (record { channel_type = "email"; destination = "a@example.org" }, true)
    else none

abbrev decode_switch : String → Option (Option Bool × Bool)
decode_switch content = some (some false, true)

abbrev new_request : ChannelCall
new_request = posts (sent_text " {\"type\":\"email\"} ") 77

-- A JSON object is read, and a body that is none is not.
object_read :
    decode_json decode_new (sent_text " {\"type\":\"email\"} ")
    ≡ inr (record { channel_type = "email"; destination = "a@example.org" })
unfolding decode_json trim_space
object_read = refl

array_refused : decode_json decode_new (sent_text "[1]") ≡ inl invalid_body
unfolding decode_json trim_space
array_refused = refl

empty_refused : decode_json decode_new (sent_text "") ≡ inl invalid_body
unfolding decode_json trim_space
empty_refused = refl

channel_created : (serve decode_new decode_switch (some 6) true new_request busy_session).0 ≡ 201
unfolding serve create_from create_channel classified_call insert_channel store_channel exec
    decode_json trim_space byte_len
channel_created = refl

serve-SparesOthers_example :
    SparesOthers 6 busy_tables
      (serve decode_new decode_switch (some 6) true new_request busy_session).1.tables
serve-SparesOthers_example =
    serve-SparesOthers decode_new decode_switch 6 true new_request busy_session

removal_answered :
    (serve decode_new decode_switch (some 5) true (removes (some 1)) busy_session).0 ≡ 204
unfolding serve delete_channel_handler request_channel_id remove_from delete_channel classified_call
    transaction close_transaction commit_body exec cancel_deliveries remove_channel
removal_answered = refl

removes-Removed_example :
    Removed 5 1
      (serve decode_new decode_switch (some 5) true (removes (some 1)) busy_session).1.tables
removes-Removed_example =
    removes-Removed decode_new decode_switch 5 1 true busy_session busy_tables-Inv
      (λ e. omega (arith, e)) removal_answered
