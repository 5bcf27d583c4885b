-- ===== src/Store/Invariant.antt =====
-- What holds of the notification tables between two transactions
-- (internal/notification/postgres and the constraints of internal/notification/migrations/sql).
use feed_flow.Base.{
  All, All-update, Bool, Distinct, Distinct-update, List, any, is_some, true, update, ◌&&◌, ◌==◌,
  ◌≡◌,
}
use feed_flow.Store.{ChannelRow, DeliveryRow, DispatchRow, InboxRow, Tables, dlq, retry}
use feed_flow.Store.Rows.{
  has_dispatch, has_live_channel, is_failed, is_processing, is_retry_wait, is_sent, is_waiting,
}

abbrev pub clash_id : DeliveryRow → DeliveryRow → Bool
clash_id x y = y.id == x.id

abbrev pub clash_target : DeliveryRow → DeliveryRow → Bool
clash_target x y = y.event_id == x.event_id && y.channel_id == x.channel_id

abbrev pub has_inbox : List InboxRow → DeliveryRow → Bool
has_inbox inbox d = any (λ i. i.event_id == d.event_id && i.user_id == d.user_id) inbox

-- The columns of one row agree with its status: a claim token and a lease exactly while it is
-- processed, a time of sending exactly once it is sent.
pub record IsConsistent (d : DeliveryRow) : Type 0 where
  pub token_while_processing : is_processing d.status ≡ is_some d.claim_token
  pub lease_while_processing : is_processing d.status ≡ is_some d.lease_expires_at
  pub time_when_sent : is_sent d.status ≡ is_some d.sent_at

-- A row that waits for a retry has a retry event in the outbox, and one that has failed a
-- dead letter, each for its own number of attempts.
pub record IsReported (dispatch : List DispatchRow) (d : DeliveryRow) : Type 0 where
  pub retry_reported : is_retry_wait d.status ≡ true → has_dispatch dispatch retry d ≡ true
  pub failure_reported : is_failed d.status ≡ true → has_dispatch dispatch dlq d ≡ true

-- A row that waits to be sent goes to an enabled channel of its user.
abbrev pub IsDeliverable : List ChannelRow → DeliveryRow → Type 0
IsDeliverable channels d = is_waiting d.status ≡ true → has_live_channel channels d ≡ true

pub record RowOk (channels : List ChannelRow) (inbox : List InboxRow) (dispatch : List DispatchRow)
    (d : DeliveryRow) : Type 0 where
  pub consistent : IsConsistent d
  pub reported : IsReported dispatch d
  pub deliverable : IsDeliverable channels d
  pub requested : has_inbox inbox d ≡ true

pub record Inv (t : Tables) : Type 0 where
  pub rows : All (RowOk t.channels t.inbox t.dispatch) t.deliveries
  pub unique_ids : Distinct clash_id t.deliveries
  pub unique_targets : Distinct clash_target t.deliveries

-- A change of a row that keeps its keys.
pub record KeepsKeys (change : DeliveryRow → DeliveryRow) : Type 0 where
  pub keeps_id : (d : DeliveryRow) → (change d).id ≡ d.id
  pub keeps_event : (d : DeliveryRow) → (change d).event_id ≡ d.event_id
  pub keeps_channel : (d : DeliveryRow) → (change d).channel_id ≡ d.channel_id

module _ (test : DeliveryRow → Bool) (change : DeliveryRow → DeliveryRow)
    (k : KeepsKeys change) where
  pub unique_ids-update :
      (ds : List DeliveryRow) → Distinct clash_id ds → Distinct clash_id (update test change ds)
  unique_ids-update ds h =
      Distinct-update clash_id test change ds (λ x y. rw (k.keeps_id y)) (λ x y. rw (k.keeps_id x))
        h

  pub unique_targets-update :
      (ds : List DeliveryRow)
      → Distinct clash_target ds
      → Distinct clash_target (update test change ds)
  unique_targets-update ds h =
      Distinct-update clash_target test change ds (λ x y. rw (k.keeps_event y, k.keeps_channel y))
        (λ x y. rw (k.keeps_event x, k.keeps_channel x)) h

  -- An update keeps the invariant if each row that it changes stays right.
  pub update-Inv :
      (t : Tables)
      → ((d : DeliveryRow)
          → RowOk t.channels t.inbox t.dispatch d
          → test d ≡ true
          → RowOk t.channels t.inbox t.dispatch (change d))
      → Inv t
      → Inv (record t { deliveries = update test change t.deliveries })
  update-Inv t right v = record {
    rows = All-update _ _ test change t.deliveries right (λ d r _. r) v.rows;
    unique_ids = unique_ids-update t.deliveries v.unique_ids;
    unique_targets = unique_targets-update t.deliveries v.unique_targets;
  }
