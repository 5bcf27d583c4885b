-- ===== src/Scenarios/Notifications.antt =====
-- Runs of internal/notification/postgres on concrete tables.
use feed_flow.Base.{
  All, List, [], arith, false, if◌then◌else◌, refl, str_eq, true, ℕ, ◌&&◌, ◌<◌, ◌==◌, ◌∷◌, ◌≡◌, ◌≢◌,
}
use feed_flow.Base.Int.{pos}
use feed_flow.Retry.{minute}
use feed_flow.Scenarios.{
  busy_session, busy_tables, busy_tables-Inv, busy_task, codec, gen_uuid, gen_uuid-DrawsApart,
  idle_session, idle_tables, idle_tables-Inv, inbox_entry, request, retry_event, unlocked,
}
use feed_flow.Store.{
  Tables, calm, close_transaction, commit_body, err, exec, identity_conflict, ok, transaction,
}
use feed_flow.Store.Channels.{cancel_deliveries, classified_call, delete_channel, remove_channel}
use feed_flow.Store.Claim.{claim}
use feed_flow.Store.FanOut.{is_served}
use feed_flow.Store.FanOut.Accepted.{accepted-is_served}
use feed_flow.Store.History.{
  Call, Env, World, accepts, claims, deletes, fails, recovers, resumes, run_history, sends,
  switches,
}
use feed_flow.Store.History.Settled.{settled_for_good}
use feed_flow.Store.History.Sound.{IsSound, run_history-IsSound}
use feed_flow.Store.Inbox.{accept_request, add_deliveries, add_delivery, after_insert, insert_inbox}
use feed_flow.Store.Keeps.Deleted.{Removed, deleted-Removed}
use feed_flow.Store.Keeps.Owners.{IsOwner, TasksMeet, claim-IsOwner}
use feed_flow.Store.Outcomes.{mark_sent, sent_row, update_deliveries}
use feed_flow.Store.Redelivery.{is_received, redelivered-same_tables, redelivered_answer}
use feed_flow.Store.Settlement.{IsSettled, as_failed, as_sent, settle_with, settled-refuses}

abbrev env : Env
env = record { db_now = 1000; clock_now = 1000; locked = unlocked; faults = []; lost = λ n. true }

-- A request arrives, its delivery is tried, fails, is resumed and sent; then the channel goes.
abbrev calls : List (Env × Call)
calls =
    (env, accepts request "request")
    ∷ (env, claims (pos 1) (pos minute) ("telegram" ∷ []))
    ∷ (env, fails 0 minute "telegram_rate_limited")
    ∷ (env, resumes retry_event)
    ∷ (env, claims (pos 1) (pos minute) ("telegram" ∷ []))
    ∷ (env, sends 0)
    ∷ (env, sends 1)
    ∷ (env, recovers (pos 100) (pos 8))
    ∷ (env, switches 5 1 false)
    ∷ (env, deletes 5 1)
    ∷ []

abbrev idle_world : World
idle_world = record { tables = idle_tables; tasks = [] }

abbrev busy_world : World
busy_world = record { tables = busy_tables; tasks = busy_task ∷ [] }

run_history-IsSound_example : IsSound codec gen_uuid (run_history codec gen_uuid calls idle_world)
run_history-IsSound_example =
    run_history-IsSound codec gen_uuid gen_uuid-DrawsApart calls idle_world
      (record { tables_Inv = idle_tables-Inv; tasks_known = tt })

abbrev sent_tables : Tables
sent_tables = (settle_with codec gen_uuid as_sent busy_task busy_session).1.tables

sent_works : (settle_with codec gen_uuid as_sent busy_task busy_session).0 ≡ ok tt
unfolding settle_with mark_sent update_deliveries exec
sent_works = refl

drawn_token : (k : ℕ) × (k < sent_tables.drawn) × (101 ≡ gen_uuid k)
unfolding settle_with mark_sent update_deliveries exec
drawn_token = (1, omega arith, refl)

abbrev sent_world : World
sent_world = record { tables = sent_tables; tasks = [] }

settled_for_good_example :
    ((settle_with codec gen_uuid
        (as_failed minute "late")
        busy_task
        (calm (run_history codec gen_uuid calls sent_world).tables 3000 3000 unlocked)).0
      ≢ ok tt)
    × ((settle_with codec gen_uuid
          (as_failed minute "late")
          busy_task
          (calm (run_history codec gen_uuid calls sent_world).tables 3000 3000 unlocked)).1.tables
        ≡ (run_history codec gen_uuid calls sent_world).tables)
settled_for_good_example =
    settled_for_good codec gen_uuid as_sent (as_failed minute "late") busy_task busy_session
      (calm (run_history codec gen_uuid calls sent_world).tables 3000 3000 unlocked) calls
      sent_world gen_uuid-DrawsApart drawn_token sent_works refl refl

IsSettled-busy : IsSettled busy_task sent_tables
unfolding settle_with mark_sent update_deliveries exec sent_row
IsSettled-busy = refl

settled-refuses_example :
    ((settle_with codec gen_uuid as_sent busy_task (calm sent_tables 3000 3000 unlocked)).0 ≢ ok tt)
    × ((settle_with codec gen_uuid as_sent busy_task (calm sent_tables 3000 3000 unlocked)).1.tables
        ≡ sent_tables)
settled-refuses_example =
    settled-refuses codec gen_uuid as_sent busy_task (calm sent_tables 3000 3000 unlocked)
      IsSettled-busy

request_accepted : (accept_request codec gen_uuid request "request" idle_session).0 ≡ ok tt
unfolding accept_request transaction close_transaction commit_body exec insert_inbox after_insert
    add_deliveries add_delivery
request_accepted = refl

accepted-is_served_example :
    (is_received request (accept_request codec gen_uuid request "request" idle_session).1.tables
      ≡ true)
    × All
        (λ c.
          is_served request
            (accept_request codec gen_uuid request "request" idle_session).1.tables
            c
          ≡ true)
        (accept_request codec gen_uuid request "request" idle_session).1.tables.channels
accepted-is_served_example =
    accepted-is_served codec gen_uuid request "request" idle_session refl request_accepted

redelivered-same_tables_example :
    (accept_request codec gen_uuid request "other" busy_session).1.tables ≡ busy_tables
redelivered-same_tables_example =
    redelivered-same_tables codec gen_uuid request "other" busy_session refl

redelivered_answer_example :
    (accept_request codec gen_uuid request "other" busy_session).0
    ≡ (if 5 == 5 && str_eq "request" "other" then ok tt else err identity_conflict)
redelivered_answer_example =
    redelivered_answer codec gen_uuid request "other" 1000 1000 unlocked busy_tables inbox_entry
      refl

claim-IsOwner_example :
    TasksMeet
      (IsOwner (claim codec gen_uuid (pos 1) (pos minute) ("telegram" ∷ []) busy_session).1.tables)
      (claim codec gen_uuid (pos 1) (pos minute) ("telegram" ∷ []) busy_session).0
claim-IsOwner_example =
    claim-IsOwner codec gen_uuid (pos 1) (pos minute) ("telegram" ∷ []) busy_session busy_tables-Inv

delete_works : (delete_channel 5 1 busy_session).0 ≡ ok tt
unfolding delete_channel classified_call transaction close_transaction commit_body exec
    remove_channel cancel_deliveries
delete_works = refl

deleted-Removed_example : Removed 5 1 (delete_channel 5 1 busy_session).1.tables
deleted-Removed_example = deleted-Removed 5 1 busy_session busy_tables-Inv delete_works
