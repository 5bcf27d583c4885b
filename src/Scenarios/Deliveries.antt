-- ===== src/Scenarios/Deliveries.antt =====
-- Deliveries of internal/notification/pipeline/worker.go on concrete tables.
use feed_flow.Base.{[], false, some, true, ◌∷◌}
use feed_flow.Errors.{net_error, text, transport_error}
use feed_flow.Pipeline.Delivery.{work_round}
use feed_flow.Pipeline.Delivery.Rounds.{work_round-Inv}
use feed_flow.Pipeline.Senders.{Registry, Sender}
use feed_flow.Scenarios.{busy_session, busy_tables-Inv, codec, gen_uuid}
use feed_flow.Scenarios.Policies.{policy, whole}
use feed_flow.Store.Invariant.{Inv}

abbrev refuses : Sender
refuses message = some (text "telegram" ∷ transport_error ∷ net_error ∷ [])

abbrev senders : Registry
senders = ("telegram", some refuses) ∷ []

work_round-Inv_example :
    Inv
      (work_round codec gen_uuid whole senders
        (some policy)
        ("telegram" ∷ [])
        true
        (λ k. false)
        busy_session).0.tables
work_round-Inv_example =
    work_round-Inv codec gen_uuid whole senders (some policy) ("telegram" ∷ []) true (λ k. false)
      busy_session busy_tables-Inv
