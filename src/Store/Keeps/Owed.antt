-- ===== src/Store/Keeps/Owed.antt =====
-- The debt of a row of internal/notification/postgres/pipeline.go that waits for its dispatch row.
use feed_flow.Base.{All, All-mono, Bool, Distinct, List, String, any, true, ℕ, ◌≡◌}
use feed_flow.Store.{
  ChannelRow, DeliveryRow, DispatchKind, DispatchRow, InboxRow, Session, Tables, dlq, retry,
}
use feed_flow.Store.Invariant.{Inv, RowOk, clash_id, clash_target}
use feed_flow.Store.Keeps.Lookups.{add_dispatch-has, add_dispatch_mono}
use feed_flow.Store.Outcomes.{insert_dispatch}
use feed_flow.Store.Rows.{has_dispatch, same_dispatch}
use feed_flow.Store.Triples.{Always, StatementMeets}

-- What the dispatch rows of a table show, a longer list shows.
abbrev pub Extends : List DispatchRow → List DispatchRow → Type 0
Extends old new = (p : DispatchRow → Bool) → any p old ≡ true → any p new ≡ true

pub longer_dispatch-RowOk :
    (channels : List ChannelRow) (inbox : List InboxRow) (old new : List DispatchRow)
    (d : DeliveryRow)
    → Extends old new
    → RowOk channels inbox old d
    → RowOk channels inbox new d
longer_dispatch-RowOk channels inbox old new d more r = record {
  consistent = r.consistent;
  reported = record {
    retry_reported = λ w. more (same_dispatch d.id retry d.attempts) (r.reported.retry_reported w);
    failure_reported =
        λ w. more (same_dispatch d.id dlq d.attempts) (r.reported.failure_reported w);
  };
  deliverable = r.deliverable;
  requested = r.requested;
}

-- A row that is right once the outbox has a row of the given key.
abbrev pub IsOwed : ℕ → DispatchKind → ℕ → Tables → DeliveryRow → Type 0
IsOwed i kind n t d =
    (dispatch : List DispatchRow)
    → Extends t.dispatch dispatch
    → any (same_dispatch i kind n) dispatch ≡ true
    → RowOk t.channels t.inbox dispatch d

abbrev pub Owed : ℕ → DispatchKind → ℕ → Tables → Type 0
Owed i kind n t =
    All (IsOwed i kind n t) t.deliveries
    × Distinct clash_id t.deliveries
    × Distinct clash_target t.deliveries

-- The dispatch row pays what is owed.
pub insert_dispatch-Inv :
    (gen_uuid : ℕ → ℕ) (i user n : ℕ) (kind : DispatchKind) (topic payload : String) (at : ℕ)
    (s : Session)
    → Owed i kind n s.tables
    → StatementMeets
        (λ _ t. Inv t)
        Always
        (insert_dispatch gen_uuid i user n kind topic payload at s)
unfolding insert_dispatch
insert_dispatch-Inv gen_uuid i user n kind topic payload at s (rows, ids, targets) = record {
  rows =
      All-mono _ _ s.tables.deliveries
        (λ d owed.
          owed _ (λ p h. add_dispatch_mono p _ s.tables.dispatch h)
            (add_dispatch-has _ s.tables.dispatch))
        rows;
  unique_ids = ids;
  unique_targets = targets;
}

-- The row's own key is the one that the outbox has.
pub own_dispatch :
    (d : DeliveryRow) (i n : ℕ) (kind : DispatchKind) (dispatch : List DispatchRow)
    → d.id ≡ i
    → d.attempts ≡ n
    → any (same_dispatch i kind n) dispatch ≡ true
    → has_dispatch dispatch kind d ≡ true
own_dispatch d i n kind dispatch p q h = rw (p, q) h
