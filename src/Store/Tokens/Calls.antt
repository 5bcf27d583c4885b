-- ===== src/Store/Tokens/Calls.antt =====
-- The calls of internal/notification/postgres leave a task known.
use feed_flow.Base.{
  Bool, Bool-cases, Option, String, any, arith, false, find, inl, inr, none, refl, some, true,
  update, ℕ, ◌+◌, ◌==◌, ◌∙◌, ◌≡◌,
}
use feed_flow.Contract.{Codec, Requested, RetryEvent}
use feed_flow.Store.{
  ChannelRow, DeliveryRow, DeliveryStatus, DispatchKind, InboxRow, Result, Session, Tables,
  cancelled, channel_not_found, err, exec, identity_conflict, ok, return, throw,
}
use feed_flow.Store.Channels.{
  Channel, cancel_deliveries, cancelled_row, create_channel, delete_channel, insert_channel, owns,
  remove_channel, scan_channel, set_channel_enabled, store_channel, update_enabled, waits_on,
}
use feed_flow.Store.Claim.{Task}
use feed_flow.Store.Inbox.{
  accept_request, after_insert, insert_inbox, resume_retry, resume_rows, resumed_row, same_request,
}
use feed_flow.Store.Keeps.Channels.{triple_classified, with_enabled}
use feed_flow.Store.Outcomes.{
  channel_active, failure_kind, failure_status, failure_topic, holds_claim, insert_dispatch,
  mark_failed, mark_sent, released_row, sent_row, settle_failure, short_code, update_deliveries,
}
use feed_flow.Store.Recovery.{recovered_row}
use feed_flow.Store.Rows.{is_processing}
use feed_flow.Store.Tokens.{
  IsKnown, Stable, Stable-bind, Stable-exec, Stable-if, Stable-one_row, Stable-return, Stable-throw,
  Stable-transaction,
}
use feed_flow.Store.Tokens.Statements.{IsKnown-update, add_deliveries-IsKnown}

released_idle :
    (now : ℕ) (status : DeliveryStatus) (code : String) (d : DeliveryRow)
    → is_processing (released_row now status code d).status ≡ is_processing status
unfolding released_row
released_idle now status code d = refl

pub recovered_idle :
    (now : ℕ) (status : DeliveryStatus) (code : String) (d : DeliveryRow)
    → is_processing (recovered_row now status code d).status ≡ is_processing status
unfolding recovered_row
recovered_idle now status code d = refl

module _ (gen_uuid : ℕ → ℕ) (task : Task) where
  pub Stable-update :
      (test : DeliveryRow → Bool) (change : Session → DeliveryRow → DeliveryRow)
      → ((s : Session) (d : DeliveryRow) → is_processing (change s d).status ≡ false)
      → Stable gen_uuid task (exec (λ s. update_deliveries test (change s) s))
  unfolding update_deliveries
  Stable-update test change idle =
      Stable-exec gen_uuid task _
        (λ s k. IsKnown-update gen_uuid task test (change s) s.tables (idle s) k)

  pub mark_sent-Stable : (other : Task) → Stable gen_uuid task (mark_sent other)
  unfolding mark_sent sent_row
  mark_sent-Stable other =
      Stable-bind gen_uuid task _ _
        (Stable-update (holds_claim other) (λ s. sent_row s.db_now) (λ s d. refl))
        (λ n. Stable-one_row gen_uuid task n)

  pub resume_retry-Stable : (event : RetryEvent) → Stable gen_uuid task (resume_retry event)
  unfolding resume_retry resume_rows resumed_row
  resume_retry-Stable event =
      Stable-exec gen_uuid task _
        (λ s k. IsKnown-update gen_uuid task _ (resumed_row s.db_now) s.tables (λ d. refl) k)

  pub create_channel-Stable : (c : Channel) → Stable gen_uuid task (create_channel c)
  unfolding create_channel insert_channel store_channel
  create_channel-Stable c =
      triple_classified _ _ (Stable-exec gen_uuid task _ (λ s k. ground (arith, k)))

  cancel-Stable : (user channel : ℕ) → Stable gen_uuid task (exec (cancel_deliveries user channel))
  unfolding cancel_deliveries cancelled_row
  cancel-Stable user channel = Stable-exec gen_uuid task _ (λ s k.
      IsKnown-update gen_uuid task (waits_on user channel) (cancelled_row s.db_now) s.tables
        (λ d. refl) k)

  pub set_channel_enabled-Stable :
      (user channel : ℕ) (b : Bool) → Stable gen_uuid task (set_channel_enabled user channel b)
  unfolding set_channel_enabled update_enabled
  set_channel_enabled-Stable user channel b = triple_classified _ _ (
      Stable-transaction gen_uuid task _ (
        Stable-bind gen_uuid task _ _
          (Stable-exec gen_uuid task (update_enabled user channel b)
            (λ s k. found s k (find (owns user channel) s.tables.channels)))
          (λ c.
            Stable-bind gen_uuid task _ _
              (Stable-if gen_uuid task b (return tt) (exec (cancel_deliveries user channel))
                (Stable-return gen_uuid task tt) (cancel-Stable user channel))
              (λ _. Stable-return gen_uuid task c))))
    where
      found :
          (s : Session)
          → IsKnown gen_uuid task s.tables
          → (o : Option ChannelRow)
          → IsKnown gen_uuid task (
              let r : Result Channel × Tables = elim o [
                | none ↦ (err channel_not_found, s.tables)
                | some c ↦ (
                  ok (scan_channel (with_enabled b c)),
                  record s.tables {
                    channels = update (owns user channel) (with_enabled b) s.tables.channels;
                  },
                )
              ] in
              r.1)
      found s k none = k
      found s k (some c) = k

  pub delete_channel-Stable :
      (user channel : ℕ) → Stable gen_uuid task (delete_channel user channel)
  unfolding delete_channel remove_channel
  delete_channel-Stable user channel = triple_classified _ _ (
      Stable-transaction gen_uuid task _ (
        Stable-bind gen_uuid task _ _ (cancel-Stable user channel) (λ _.
          Stable-bind gen_uuid task _ _ (Stable-exec gen_uuid task _ (λ s k. k)) (λ n.
            Stable-if gen_uuid task (n == 1) (return tt) (throw channel_not_found)
              (Stable-return gen_uuid task tt) (Stable-throw gen_uuid task channel_not_found)))))

module _ (codec : Codec) (gen_uuid : ℕ → ℕ) (task : Task) where
  pub accept_request-Stable :
      (event : Requested) (payload : String)
      → Stable gen_uuid task (accept_request codec gen_uuid event payload)
  unfolding accept_request
  accept_request-Stable event payload = Stable-transaction gen_uuid task _ (
      Stable-bind gen_uuid task _ _
        (Stable-exec gen_uuid task (insert_inbox event payload) (λ s k. inserted s k))
        (λ added. after added))
    where
      inserted :
          (s : Session)
          → IsKnown gen_uuid task s.tables
          → IsKnown gen_uuid task (insert_inbox event payload s).1
      inserted s k =
          unfold insert_inbox in
          (elim (Bool-cases (any (λ (i : InboxRow). i.event_id == event.event_id) s.tables.inbox)) [
            | inl e ↦ rw e k
            | inr e ↦ rw e k
          ])

      after :
          (added : Bool) → Stable gen_uuid task (after_insert codec gen_uuid event payload added)
      after true =
          unfold after_insert in
          Stable-exec gen_uuid task _ (λ s k.
            add_deliveries-IsKnown gen_uuid task s.db_now event s.tables.channels s.tables k)
      after false =
          unfold after_insert same_request in
          Stable-bind gen_uuid task _ _ (Stable-exec gen_uuid task _ (λ s k. k)) (λ same.
            Stable-if gen_uuid task same (return tt) (throw identity_conflict)
              (Stable-return gen_uuid task tt) (Stable-throw gen_uuid task identity_conflict))

  pub channel_active-Stable : (i : ℕ) → Stable gen_uuid task (exec (channel_active i))
  unfolding channel_active
  channel_active-Stable i = Stable-exec gen_uuid task _ (λ s k. k)

  pub insert_dispatch-Stable :
      (i user n : ℕ) (kind : DispatchKind) (topic payload : String) (at : Session → ℕ)
      → Stable gen_uuid task
          (exec (λ s. insert_dispatch gen_uuid i user n kind topic payload (at s) s))
  unfolding insert_dispatch
  insert_dispatch-Stable i user n kind topic payload at =
      Stable-exec gen_uuid task _ (λ s (genuine, (n, below, own)). (genuine, (n, omega arith, own)))

  failure_status_idle : (delay : ℕ) → is_processing (failure_status delay) ≡ false
  failure_status_idle delay = ground arith

  settle_failure-Stable :
      (other : Task) (delay : ℕ) (code : String) (active : Bool)
      → Stable gen_uuid task (settle_failure codec gen_uuid other delay code active)
  unfolding settle_failure
  settle_failure-Stable other delay code false =
      Stable-bind gen_uuid task _ _
        (Stable-update gen_uuid task (holds_claim other)
          (λ s. released_row s.db_now cancelled "channel_disabled")
          (λ s d. released_idle s.db_now cancelled "channel_disabled" d))
        (λ n. Stable-one_row gen_uuid task n)
  settle_failure-Stable other delay code true =
      Stable-bind gen_uuid task _ _
        (Stable-update gen_uuid task (holds_claim other)
          (λ s. released_row s.db_now (failure_status delay) code)
          (λ s d. released_idle s.db_now (failure_status delay) code d ∙ failure_status_idle delay))
        (λ n. Stable-bind gen_uuid task _ _ (Stable-one_row gen_uuid task n) (λ _.
          insert_dispatch-Stable other.id other.user_id other.attempts (failure_kind delay)
            (failure_topic delay) _ (λ s. s.clock_now + delay)))

  pub mark_failed-Stable :
      (other : Task) (delay : ℕ) (code : String)
      → Stable gen_uuid task (mark_failed codec gen_uuid other delay code)
  unfolding mark_failed
  mark_failed-Stable other delay code = Stable-transaction gen_uuid task _ (
      Stable-bind gen_uuid task _ _ (channel_active-Stable other.id)
        (λ active. settle_failure-Stable other delay (short_code code) active))
