-- ===== src/LegacyWorker/Deliveries.antt =====
-- internal/notification/postgres/deliveries.go: how the older worker claims, settles and requeues
-- deliveries.
use feed_flow.Base.{
  Bool, List, Option, String, [], any, count, find, if◌then◌else◌, inl, inr, leb, ltb, none, not,
  select, some, sort_by, take, update, ℕ, ◌&&◌, ◌+◌, ◌==◌, ◌||◌, ◌∷◌, ◌⊎◌,
}
use feed_flow.Base.Int.{pos}
use feed_flow.Feeds.Posts.{text_or_empty}
use feed_flow.LegacyWorker.{DeliveryTask}
use feed_flow.LegacyWorker.Tables.{
  LegacyError, LegacyRow, LegacyTables, Moment, bad_limit, is_row, not_processing, run_statement,
}
use feed_flow.Store.{ChannelRow, failed, pending, processing, sent}
use feed_flow.Store.Rows.{is_pending, is_processing}
use feed_flow.Telegram.{take_runes}

unfoldable pub is_ready : Moment → List ChannelRow → LegacyRow → Bool
is_ready w channels d =
    is_pending d.status
    && leb d.available_at w.db_now
    && any (λ c. c.id == d.channel_id && c.enabled) channels
    && not (w.locked d.id)

abbrev pub ready_before : LegacyRow → LegacyRow → Bool
ready_before a b =
    ltb a.available_at b.available_at
    || (a.available_at == b.available_at
        && (ltb a.created_at b.created_at || (a.created_at == b.created_at && leb a.id b.id)))

unfoldable pub taken_row : ℕ → LegacyRow → LegacyRow
taken_row db_now d = record d {
  status = processing;
  attempts = d.attempts + 1;
  updated_at = db_now;
}

abbrev pub is_row_in : List LegacyRow → LegacyRow → Bool
is_row_in rows d = any (is_row d.id) rows

-- The task of a claimed row, where its channel and its post are there.
unfoldable pub legacy_task : LegacyTables → LegacyRow → Option DeliveryTask
legacy_task t d = elim (find (λ c. c.id == d.channel_id) t.channels) [
  | none ↦ none
  | some c ↦ elim (find (λ p. p.id == d.post_id) t.source.posts) [
    | none ↦ none
    | some p ↦ some (record {
      id = d.id;
      attempts = pos d.attempts;
      channel_type = c.channel_type;
      message = record {
        recipient = c.destination;
        title = p.title;
        body = text_or_empty p.description;
        url = p.url;
      };
    })
  ]
]

unfoldable pub legacy_tasks : LegacyTables → List LegacyRow → List DeliveryTask
unfolding legacy_task
legacy_tasks t [] = []
legacy_tasks t (d ∷ ds) =
    let rest = legacy_tasks t ds in elim (legacy_task t d) [ none ↦ rest | some task ↦ task ∷ rest ]

-- The statement of `ClaimDeliveries`; the tasks come in the order of their ids.
unfoldable pub claim_ready :
    Moment → ℕ → LegacyTables → (LegacyError ⊎ List DeliveryTask) × LegacyTables
unfolding is_ready taken_row legacy_tasks
claim_ready w limit t =
    let ready = take limit (sort_by ready_before (select (is_ready w t.channels) t.deliveries)) in
    let rows = update (is_row_in ready) (taken_row w.db_now) t.deliveries in
    let new = record t { deliveries = rows } in
    (inr (legacy_tasks t (sort_by (λ a b. leb a.id b.id) (select (is_row_in ready) rows))), new)

-- `ClaimDeliveries`.
unfoldable pub claim_deliveries :
    Moment → ℕ → LegacyTables → (LegacyError ⊎ List DeliveryTask) × LegacyTables
unfolding claim_ready
claim_deliveries w limit t =
    if limit == 0 then (inl bad_limit, t) else run_statement w (claim_ready w limit) t

abbrev pub is_in_work : ℕ → LegacyRow → Bool
is_in_work i d = d.id == i && is_processing d.status

-- An update of the row with this id that is processed, which must be one row.
unfoldable pub settle_row :
    (LegacyRow → LegacyRow) → ℕ → LegacyTables → (LegacyError ⊎ Unit {0}) × LegacyTables
settle_row change i t = (
  if count (is_in_work i) t.deliveries == 1 then inr tt else inl not_processing,
  record t { deliveries = update (is_in_work i) change t.deliveries },
)

unfoldable pub done_row : ℕ → LegacyRow → LegacyRow
done_row db_now d = record d {
  status = sent;
  sent_at = some db_now;
  last_error = none;
  updated_at = db_now;
}

unfoldable pub mark_delivery_sent :
    Moment → ℕ → LegacyTables → (LegacyError ⊎ Unit {0}) × LegacyTables
unfolding settle_row done_row
mark_delivery_sent w i t = run_statement w (settle_row (done_row w.db_now) i) t

-- `LEFT(reason, 2000)`.
abbrev pub short_reason : String → String
short_reason reason = take_runes 2000 reason

unfoldable pub dropped_row : ℕ → String → LegacyRow → LegacyRow
dropped_row db_now reason d = record d {
  status = failed;
  last_error = some (short_reason reason);
  updated_at = db_now;
}

unfoldable pub mark_delivery_failed :
    Moment → ℕ → String → LegacyTables → (LegacyError ⊎ Unit {0}) × LegacyTables
unfolding settle_row dropped_row
mark_delivery_failed w i reason t = run_statement w (settle_row (dropped_row w.db_now reason) i) t

unfoldable pub postponed_row : ℕ → ℕ → String → LegacyRow → LegacyRow
postponed_row db_now at reason d = record d {
  status = pending;
  available_at = at;
  last_error = some (short_reason reason);
  updated_at = db_now;
}

unfoldable pub schedule_delivery_retry :
    Moment → ℕ → ℕ → String → LegacyTables → (LegacyError ⊎ Unit {0}) × LegacyTables
unfolding settle_row postponed_row
schedule_delivery_retry w i at reason t =
    run_statement w (settle_row (postponed_row w.db_now at reason) i) t

abbrev pub is_stale : ℕ → LegacyRow → Bool
is_stale before d = is_processing d.status && ltb d.updated_at before

unfoldable pub requeued_row : ℕ → LegacyRow → LegacyRow
requeued_row db_now d = record d {
  status = pending;
  available_at = db_now;
  last_error = some "processing lease expired";
  updated_at = db_now;
}

unfoldable pub requeue_rows : Moment → ℕ → LegacyTables → (LegacyError ⊎ ℕ) × LegacyTables
unfolding requeued_row
requeue_rows w before t = (
  inr (count (is_stale before) t.deliveries),
  record t { deliveries = update (is_stale before) (requeued_row w.db_now) t.deliveries },
)

-- `RequeueStaleDeliveries`.
unfoldable pub requeue_stale_deliveries :
    Moment → ℕ → LegacyTables → (LegacyError ⊎ ℕ) × LegacyTables
unfolding requeue_rows
requeue_stale_deliveries w before t = run_statement w (requeue_rows w before) t
