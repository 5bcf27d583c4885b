-- ===== src/Scenarios/Relays.antt =====
-- Rounds of internal/notification/relay/relay.go on two outbox rows.
use feed_flow.Base.{
  List, [], arith, count, false, inl, none, refl, some, sort_by, true, ℕ, ◌∷◌, ◌≡◌,
}
use feed_flow.Base.Int.{pos}
use feed_flow.Contract.{notification_requested, requests_topic_v1}
use feed_flow.Relay.{Faults, OutboxRow, burst, is_due, next_row, published_before, requests}
use feed_flow.Relay.Bursts.{Empties, IsCalm, burst-Empties}
use feed_flow.Relay.Order.{ComesFirst, MayBeTaken, next_row-IsFirst}
use feed_flow.Scenarios.{codec, unlocked, user_text}

abbrev outbox_row : ℕ → ℕ → OutboxRow
outbox_row i at = record {
  id = i;
  target_topic = some requests_topic_v1;
  partition_key = user_text;
  payload = "request";
  event_type = notification_requested;
  schema_version = pos 1;
  attempts = 0;
  available_at = at;
  created_at = at;
  published_at = none;
  processed_at = none;
}

abbrev outbox : List OutboxRow
outbox = outbox_row 31 900 ∷ outbox_row 32 800 ∷ outbox_row 33 2000 ∷ []

abbrev faults : Faults
faults = record {
  begin_fails = false;
  select_fails = false;
  update_fails = false;
  commit_fails = false;
}

first_due : next_row requests 1000 unlocked outbox ≡ some (outbox_row 32 800)
unfolding next_row sort_by is_due published_before
first_due = refl

next_row-IsFirst_example :
    MayBeTaken 1000 unlocked (outbox_row 32 800)
    × ComesFirst requests (outbox_row 32 800) (outbox_row 31 900)
next_row-IsFirst_example =
    next_row-IsFirst requests 1000 unlocked outbox (outbox_row 32 800) (outbox_row 31 900) first_due
      (inl refl)
      (record { unpublished = refl; has_topic = refl; time_come = omega arith; is_free = refl })

calm_faults : IsCalm faults
calm_faults = record { begins = refl; selects = refl; updates = refl; commits = refl }

two_due : count (is_due requests 1000 unlocked) outbox ≡ 2
unfolding is_due
two_due = refl

burst-Empties_example :
    Empties codec
      (λ i. "1")
      (λ out. true)
      requests
      1000
      unlocked
      faults
      calm_faults
      (λ out. refl)
      outbox
      (burst codec (λ i. "1") (λ out. true) requests 1000 unlocked faults 4 outbox)
burst-Empties_example =
    burst-Empties codec (λ i. "1") (λ out. true) requests 1000 unlocked faults calm_faults
      (λ out. refl) 4 outbox (refl, (refl, (refl, tt))) (omega (arith, two_due))
