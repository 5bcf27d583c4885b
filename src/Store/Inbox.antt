-- ===== src/Store/Inbox.antt =====
-- internal/notification/postgres/pipeline.go: `AcceptRequest` and `ResumeRetry`.
use feed_flow.Base.{
  Bool, List, String, [], any, false, find, if◌then◌else◌, none, not, some, true, update, ℕ, ◌&&◌,
  ◌++◌, ◌+◌, ◌==◌, ◌||◌, ◌∷◌,
}
use feed_flow.Base.Int.{eq_ℤ, pos}
use feed_flow.Contract.{Codec, Requested, RetryEvent}
use feed_flow.Store.{
  ChannelRow, DeliveryRow, InboxRow, M, Result, Session, Tables, driver, err, exec,
  identity_conflict, ok, other_fault, pending, return, throw, transaction, ◌>>=◌,
}
use feed_flow.Store.Rows.{has_id, has_live_channel, is_retry_wait, same_target, unique_violation}

abbrev pub inbox_row : Requested → String → InboxRow
inbox_row event payload = record {
  event_id = event.event_id;
  user_id = event.user_id;
  event_type = event.event_type;
  schema_version = event.schema_version;
  template = event.template;
  payload = payload;
  occurred_at = event.occurred_at;
}

-- `INSERT INTO notification_inbox ... ON CONFLICT (event_id) DO NOTHING`; whether a row was added.
unfoldable pub insert_inbox : Requested → String → Session → Result Bool × Tables
insert_inbox event payload s =
    let t = s.tables in
    if any (λ i. i.event_id == event.event_id) t.inbox
    then (ok false, t)
    else (ok true, record t { inbox = t.inbox ++ inbox_row event payload ∷ [] })

-- `SELECT user_id = $2 AND payload = $3::jsonb FROM notification_inbox WHERE event_id = $1`.
unfoldable pub same_request : Codec → Requested → String → Session → Result Bool × Tables
same_request codec event payload s = (
  elim (find (λ i. i.event_id == event.event_id) s.tables.inbox) [
    | none ↦ err (driver other_fault)
    | some i ↦ ok (i.user_id == event.user_id && codec.jsonb_eq i.payload payload)
  ],
  s.tables,
)

unfoldable pub new_delivery : (ℕ → ℕ) → ℕ → Requested → ChannelRow → ℕ → DeliveryRow
new_delivery gen_uuid db_now event c drawn = record {
  id = gen_uuid drawn;
  event_id = event.event_id;
  user_id = event.user_id;
  channel_id = c.id;
  status = pending;
  attempts = 0;
  available_at = db_now;
  claim_token = none;
  lease_expires_at = none;
  sent_at = none;
  last_error_code = none;
  created_at = db_now;
  updated_at = db_now;
}

-- One row of `INSERT INTO notification_deliveries ... SELECT`: none for a channel of another user
-- or a disabled one, or where the pair of event and channel is there already.
unfoldable pub add_delivery :
    (ℕ → ℕ) → ℕ → Requested → ChannelRow → Tables → Result (Unit {0}) × Tables
unfolding new_delivery
add_delivery gen_uuid db_now event c t =
    if not (c.user_id == event.user_id && c.enabled)
      || any (same_target event.event_id c.id) t.deliveries
    then (ok tt, t)
    else if any (has_id (gen_uuid t.drawn)) t.deliveries
    then (err (driver (unique_violation "notification_deliveries_pkey")), t)
    else (
      ok tt,
      record t {
        deliveries = t.deliveries ++ new_delivery gen_uuid db_now event c t.drawn ∷ [];
        drawn = t.drawn + 1;
      },
    )

unfoldable pub add_deliveries :
    (ℕ → ℕ) → ℕ → Requested → List ChannelRow → Tables → Result (Unit {0}) × Tables
add_deliveries gen_uuid db_now event [] t = (ok tt, t)
add_deliveries gen_uuid db_now event (c ∷ cs) t =
    let (r, t') = add_delivery gen_uuid db_now event c t in
    elim r [ ok _ ↦ add_deliveries gen_uuid db_now event cs t' | err e ↦ (err e, t') ]

module _ (codec : Codec) (gen_uuid : ℕ → ℕ) where
  abbrev pub create_deliveries : Requested → Session → Result (Unit {0}) × Tables
  create_deliveries event s = add_deliveries gen_uuid s.db_now event s.tables.channels s.tables

  -- The two ways on from the insertion of the inbox row.
  unfoldable pub after_insert : Requested → String → Bool → M (Unit {0})
  after_insert event payload true = exec (create_deliveries event)
  after_insert event payload false = do
    same ← exec (same_request codec event payload)
    (if same then return tt else throw identity_conflict)

  unfoldable pub accept_request : Requested → String → M (Unit {0})
  accept_request event payload =
      transaction (do added ← exec (insert_inbox event payload); after_insert event payload added)

-- The rows that `ResumeRetry` updates.
unfoldable pub awaits_resume : List ChannelRow → RetryEvent → DeliveryRow → Bool
awaits_resume channels event d =
    d.id == event.delivery_id
    && d.event_id == event.event_id
    && d.user_id == event.user_id
    && eq_ℤ (pos d.attempts) event.attempt_no
    && is_retry_wait d.status
    && has_live_channel channels d

unfoldable pub resumed_row : ℕ → DeliveryRow → DeliveryRow
resumed_row db_now d = record d { status = pending; available_at = db_now; updated_at = db_now }

unfoldable pub resume_rows : RetryEvent → Session → Result (Unit {0}) × Tables
unfolding awaits_resume resumed_row
resume_rows event s =
    let t = s.tables in
    (
      ok tt,
      record t {
        deliveries = update (awaits_resume t.channels event) (resumed_row s.db_now) t.deliveries;
      },
    )

unfoldable pub resume_retry : RetryEvent → M (Unit {0})
resume_retry event = exec (resume_rows event)
