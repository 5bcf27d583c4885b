-- ===== src/Store/Keeps/Failed.antt =====
-- `MarkFailed` of internal/notification/postgres/pipeline.go.
use feed_flow.Base.{
  All, All-update, Bool, Bool-cases, List, String, [], arith, false, inl, inr, ltb, refl, true,
  update, ℕ, ◌∷◌, ◌≡◌,
}
use feed_flow.Contract.{Codec}
use feed_flow.Store.{
  ChannelRow, DeliveryRow, DeliveryStatus, DispatchRow, InboxRow, Session, Tables, cancelled, dlq,
  failed, retry, retry_wait,
}
use feed_flow.Store.Claim.{Task}
use feed_flow.Store.Invariant.{
  Inv, KeepsKeys, RowOk, unique_ids-update, unique_targets-update, update-Inv,
}
use feed_flow.Store.Keeps.{Outcome-Inv, one_row_triple}
use feed_flow.Store.Keeps.Lookups.{Answers, IsActive, channel_active_triple}
use feed_flow.Store.Keeps.Owed.{
  IsOwed, Owed, insert_dispatch-Inv, longer_dispatch-RowOk, own_dispatch,
}
use feed_flow.Store.Outcomes.{
  failure_kind, failure_status, holds_claim, mark_failed, released_row, settle_failure, short_code,
}
use feed_flow.Store.Rows.{has_dispatch, has_id, has_live_channel}
use feed_flow.Store.Triples.{
  Always, Triple, run_triple, triple_bind, triple_exec, triple_transaction,
}

-- The rows that a task's claim still holds have the task's number of attempts.
abbrev pub IsGenuine : Task → Tables → Type 0
IsGenuine task t = All (λ d. holds_claim task d ≡ true → d.attempts ≡ task.attempts) t.deliveries

abbrev pub Genuine : Task → Tables → Type 0
Genuine task t = Inv t × IsGenuine task t

released_row-KeepsKeys :
    (now : ℕ) (status : DeliveryStatus) (code : String) → KeepsKeys (released_row now status code)
unfolding released_row
released_row-KeepsKeys now status code = record {
  keeps_id = λ d. refl;
  keeps_event = λ d. refl;
  keeps_channel = λ d. refl;
}

-- Giving a claim up for good.
cancelled-RowOk :
    (task : Task) (now : ℕ) (code : String) (channels : List ChannelRow) (inbox : List InboxRow)
    (dispatch : List DispatchRow) (d : DeliveryRow)
    → RowOk channels inbox dispatch d
    → holds_claim task d ≡ true
    → RowOk channels inbox dispatch (released_row now cancelled code d)
unfolding released_row
cancelled-RowOk task now code channels inbox dispatch d r h = ground arith

failed_retry-RowOk :
    (task : Task) (now : ℕ) (code : String) (channels : List ChannelRow) (inbox : List InboxRow)
    (old dispatch : List DispatchRow) (d : DeliveryRow)
    → RowOk channels inbox old d
    → holds_claim task d ≡ true
    → has_live_channel channels d ≡ true
    → has_dispatch dispatch retry d ≡ true
    → RowOk channels inbox dispatch (released_row now retry_wait code d)
unfolding released_row
failed_retry-RowOk task now code channels inbox old dispatch d r h live paid = record {
  consistent = ground arith;
  reported = record { retry_reported = λ _. paid; failure_reported = λ w. cc };
  deliverable = λ _. live;
  requested = r.requested;
}

failed_finally-RowOk :
    (task : Task) (now : ℕ) (code : String) (channels : List ChannelRow) (inbox : List InboxRow)
    (old dispatch : List DispatchRow) (d : DeliveryRow)
    → RowOk channels inbox old d
    → holds_claim task d ≡ true
    → has_dispatch dispatch dlq d ≡ true
    → RowOk channels inbox dispatch (released_row now failed code d)
unfolding released_row
failed_finally-RowOk task now code channels inbox old dispatch d r h paid = record {
  consistent = ground arith;
  reported = record { retry_reported = λ w. cc; failure_reported = λ _. paid };
  deliverable = λ w. cc;
  requested = r.requested;
}

-- The row of a failed attempt owes its event.
failed-IsOwed :
    (task : Task) (delay now : ℕ) (code : String) (t : Tables) (d : DeliveryRow)
    → RowOk t.channels t.inbox t.dispatch d
    → holds_claim task d ≡ true
    → d.attempts ≡ task.attempts
    → has_live_channel t.channels d ≡ true
    → IsOwed task.id
        (failure_kind delay)
        task.attempts
        t
        (released_row now (failure_status delay) code d)
failed-IsOwed task delay now code t d r h n live dispatch more paid =
    let paid_row : has_dispatch dispatch (failure_kind delay) d ≡ true =
      own_dispatch d task.id task.attempts (failure_kind delay) dispatch (ground arith) n paid in
    elim (Bool-cases (ltb 0 delay)) [
      | inl e ↦ rw e (
          failed_retry-RowOk task now code t.channels t.inbox t.dispatch dispatch d r h live
            (rw e at paid_row))
      | inr e ↦ rw e (
          failed_finally-RowOk task now code t.channels t.inbox t.dispatch dispatch d r h
            (rw e at paid_row))
    ]

-- What is known of a row when the update of `MarkFailed` meets it.
abbrev Facts : Task → Tables → DeliveryRow → Type 0
Facts task t d =
    RowOk t.channels t.inbox t.dispatch d
    × (holds_claim task d ≡ true → d.attempts ≡ task.attempts)
    × (has_id task.id d ≡ true → has_live_channel t.channels d ≡ true)

All-Facts :
    (task : Task) (t : Tables) (ds : List DeliveryRow)
    → All (RowOk t.channels t.inbox t.dispatch) ds
    → All (λ d. holds_claim task d ≡ true → d.attempts ≡ task.attempts) ds
    → All (λ d. has_id task.id d ≡ true → has_live_channel t.channels d ≡ true) ds
    → All (Facts task t) ds
All-Facts task t [] r n live = tt
All-Facts task t (d ∷ ds) r n live = ((r.0, n.0, live.0), All-Facts task t ds r.1 n.1 live.1)

-- The update of a failed attempt leaves the tables owing one dispatch row.
update-Owed :
    (task : Task) (delay now : ℕ) (code : String) (t : Tables)
    → Genuine task t
    → IsActive task.id t
    → Owed task.id (failure_kind delay) task.attempts (record t {
      deliveries =
          update (holds_claim task) (released_row now (failure_status delay) code) t.deliveries;
    })
update-Owed task delay now code t (v, genuine) active =
    let change = released_row now (failure_status delay) code in
    let keys = released_row-KeepsKeys now (failure_status delay) code in
    (
      All-update (Facts task t) _ (holds_claim task) change t.deliveries
          (λ d f h. failed-IsOwed task delay now code t d f.0 h (f.1 h) (f.2 (ground arith)))
          (λ d f h dispatch more paid.
            longer_dispatch-RowOk t.channels t.inbox t.dispatch dispatch d more f.0)
          (All-Facts task t t.deliveries v.rows genuine active),
      unique_ids-update (holds_claim task) change keys t.deliveries v.unique_ids,
      unique_targets-update (holds_claim task) change keys t.deliveries v.unique_targets,
    )

module _ (codec : Codec) (gen_uuid : ℕ → ℕ) where
  settle_failure_triple :
      (task : Task) (delay : ℕ) (code : String) (active : Bool)
      → Triple
          (λ t. Genuine task t × Answers task.id active t)
          (settle_failure codec gen_uuid task delay code active)
          (λ _ t. Inv t)
          Always
  unfolding settle_failure
  settle_failure_triple task delay code true =
      triple_bind (λ _. Owed task.id (failure_kind delay) task.attempts)
        (triple_exec _ _ _ Always (λ s p. update-Owed task delay s.db_now code s.tables p.0 p.1)
          (λ t p. tt))
        (λ n.
          triple_bind (λ _. Owed task.id (failure_kind delay) task.attempts)
            (one_row_triple _ n _ Always (λ t o. o) (λ t o. tt))
            (λ _.
              triple_exec _ _ _ Always
                (λ s o. insert_dispatch-Inv gen_uuid task.id task.user_id task.attempts _ _ _ _ s o)
                (λ t o. tt)))
  settle_failure_triple task delay code false =
      triple_bind (λ _ t. Inv t)
        (triple_exec _ _ _ Always
          (λ s p.
            update-Inv (holds_claim task) (released_row s.db_now cancelled "channel_disabled")
              (released_row-KeepsKeys s.db_now cancelled "channel_disabled") s.tables
              (λ d r h. cancelled-RowOk task s.db_now "channel_disabled" _ _ _ d r h) p.0.0)
          (λ t p. tt))
        (λ n. one_row_triple Inv n (λ _ t. Inv t) Always (λ t v. v) (λ t v. tt))

  mark_failed_triple :
      (task : Task) (delay : ℕ) (code : String)
      → Triple (Genuine task) (mark_failed codec gen_uuid task delay code) (λ _ t. Inv t) Inv
  unfolding mark_failed
  mark_failed_triple task delay code =
      triple_transaction (Genuine task) _ _ Inv (λ t v. v.0) (λ _ t v. v)
        (triple_bind (λ active t. Genuine task t × Answers task.id active t)
          (channel_active_triple task.id (Genuine task) (λ t p. p.0.unique_ids))
          (λ active. settle_failure_triple task delay (short_code code) active))

  -- `MarkFailed` keeps the invariant, for a task whose number of attempts is that of its row.
  pub mark_failed-Inv :
      (task : Task) (delay : ℕ) (code : String) (s : Session)
      → Inv s.tables
      → IsGenuine task s.tables
      → Inv (mark_failed codec gen_uuid task delay code s).1.tables
  mark_failed-Inv task delay code s v g =
      Outcome-Inv _ (run_triple (mark_failed_triple task delay code) s (v, g))
