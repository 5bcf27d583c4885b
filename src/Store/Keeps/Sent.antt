-- ===== src/Store/Keeps/Sent.antt =====
-- `MarkSent` and `ResumeRetry` of internal/notification/postgres/pipeline.go.
use feed_flow.Base.{List, arith, refl, true, ℕ, ◌≡◌}
use feed_flow.Contract.{RetryEvent}
use feed_flow.Store.{ChannelRow, DeliveryRow, DispatchRow, InboxRow, Session}
use feed_flow.Store.Claim.{Task}
use feed_flow.Store.Inbox.{awaits_resume, resume_retry, resume_rows, resumed_row}
use feed_flow.Store.Invariant.{Inv, KeepsKeys, RowOk, update-Inv}
use feed_flow.Store.Keeps.{Keeps, exec_update-Keeps, one_row_triple}
use feed_flow.Store.Outcomes.{holds_claim, mark_sent, sent_row}
use feed_flow.Store.Triples.{StatementMeets, triple_bind, triple_exec}

sent_row-KeepsKeys : (now : ℕ) → KeepsKeys (sent_row now)
unfolding sent_row
sent_row-KeepsKeys now = record {
  keeps_id = λ d. refl;
  keeps_event = λ d. refl;
  keeps_channel = λ d. refl;
}

sent_row-RowOk :
    (now : ℕ) (channels : List ChannelRow) (inbox : List InboxRow) (dispatch : List DispatchRow)
    (d : DeliveryRow)
    → RowOk channels inbox dispatch d
    → RowOk channels inbox dispatch (sent_row now d)
unfolding sent_row
sent_row-RowOk now channels inbox dispatch d r = ground arith

pub mark_sent-Keeps : (task : Task) → Keeps (mark_sent task)
unfolding mark_sent
mark_sent-Keeps task =
    triple_bind (λ _ t. Inv t)
      (exec_update-Keeps (holds_claim task) (λ s. sent_row s.db_now)
        (λ s. sent_row-KeepsKeys s.db_now) (λ s d r _. sent_row-RowOk s.db_now _ _ _ d r))
      (λ n. one_row_triple Inv n _ Inv (λ t v. v) (λ t v. v))

resumed_row-KeepsKeys : (now : ℕ) → KeepsKeys (resumed_row now)
unfolding resumed_row
resumed_row-KeepsKeys now = record {
  keeps_id = λ d. refl;
  keeps_event = λ d. refl;
  keeps_channel = λ d. refl;
}

resumed_row-RowOk :
    (event : RetryEvent) (now : ℕ) (channels : List ChannelRow) (inbox : List InboxRow)
    (dispatch : List DispatchRow) (d : DeliveryRow)
    → RowOk channels inbox dispatch d
    → awaits_resume channels event d ≡ true
    → RowOk channels inbox dispatch (resumed_row now d)
unfolding resumed_row awaits_resume
resumed_row-RowOk event now channels inbox dispatch d r h = ground arith

pub resume_retry-Keeps : (event : RetryEvent) → Keeps (resume_retry event)
unfolding resume_retry
resume_retry-Keeps event = triple_exec Inv _ _ Inv keeps (λ t v. v)
  where
    keeps : (s : Session) → Inv s.tables → StatementMeets (λ _ t. Inv t) Inv (resume_rows event s)
    keeps s v =
        unfold resume_rows in
        update-Inv (awaits_resume s.tables.channels event) (resumed_row s.db_now)
          (resumed_row-KeepsKeys s.db_now) s.tables
          (λ d r h. resumed_row-RowOk event s.db_now _ _ _ d r h) v
