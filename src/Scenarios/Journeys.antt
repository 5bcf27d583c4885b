-- ===== src/Scenarios/Journeys.antt =====
-- The post of Newsfeeds on its way to the channel of a follower.
use feed_flow.Base.{Any, arith, refl, some, true, ◌≡◌}
use feed_flow.Base.Text.{trim_space}
use feed_flow.Contract.{decode_requested, header, header_or, headers_match, is_complete, is_web_url}
use feed_flow.Feeds.Posts.{intent_row, request_for, save_post}
use feed_flow.Feeds.Served.{IsClean, follower_event, follower_record, follower_row, saved-AllServed}
use feed_flow.Pipeline.Consumer.{Handled, answered, carry_out, process_record, route}
use feed_flow.Relay.{record_of}
use feed_flow.Scenarios.{gen_uuid, idle_session}
use feed_flow.Scenarios.Events.{letters}
use feed_flow.Scenarios.Newsfeeds.{
  announceable, event_codec, feed_db, follow_row, jsonb, marks, new_row, outside, post_saved,
  read_marks, read_request,
}
use feed_flow.Store.{close_transaction, commit_body, exec, transaction}
use feed_flow.Store.FanOut.Accepted.{AllServed}
use feed_flow.Store.Inbox.{accept_request, add_deliveries, add_delivery, after_insert, insert_inbox}

abbrev delivered : Handled
delivered =
    process_record event_codec gen_uuid letters (λ out. true)
      (some (
        follower_record event_codec jsonb outside new_row feed_db (λ i. "1") 0 7 0
          (follow_row 1 5)))
      idle_session

delivered-IsClean : IsClean delivered
unfolding IsClean process_record route decode_requested is_complete is_web_url headers_match header
    header_or carry_out answered accept_request transaction close_transaction commit_body exec
    insert_inbox after_insert add_deliveries add_delivery trim_space intent_row request_for jsonb
    marks read_marks read_request record_of
delivered-IsClean = (refl, refl)

saved-AllServed_example :
    Any
      (λ e. e ≡ follower_row event_codec jsonb outside new_row feed_db 0 (follow_row 1 5))
      (save_post event_codec jsonb outside new_row feed_db).1.tables.events
    × AllServed
        (follower_event event_codec jsonb outside new_row feed_db 0 (follow_row 1 5))
        delivered.session.tables
saved-AllServed_example =
    saved-AllServed event_codec jsonb (λ i. "1") outside new_row feed_db 0 7 gen_uuid letters
      (λ out. true) 0 (follow_row 1 5) idle_session announceable post_saved refl (omega arith) refl
      delivered-IsClean
