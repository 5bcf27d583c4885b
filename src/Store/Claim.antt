-- ===== src/Store/Claim.antt =====
-- internal/notification/postgres/pipeline.go: `Claim`.
use feed_flow.Base.{
  Bool, List, Option, String, [], any, find, if◌then◌else◌, leb, ltb, none, not, select, some,
  sort_by, str_eq, take, ℕ, ◌&&◌, ◌*◌, ◌+◌, ◌/◌, ◌==◌, ◌||◌, ◌∷◌,
}
use feed_flow.Base.Int.{leb_ℤ, pos, pos_part, ℤ}
use feed_flow.Contract.{Codec, Requested}
use feed_flow.Store.{
  ChannelRow, DeliveryRow, InboxRow, M, Result, Session, Tables, bad_payload, err, exec,
  invalid_limit, ok, processing, throw, ◌>>=◌,
}
use feed_flow.Store.Rows.{has_id, is_pending, serves}

-- `pipeline.Task` with the `notification.Message` that it carries.
pub record Message : Type 0 where
  pub recipient : String
  pub title : String
  pub body : String
  pub url : String

pub record Task : Type 0 where
  pub id : ℕ
  pub event_id : ℕ
  pub user_id : ℕ
  pub claim_token : ℕ
  pub attempts : ℕ
  pub channel_type : String
  pub message : Message

abbrev pub is_one_of : String → List String → Bool
is_one_of name names = any (str_eq name) names

-- The rows that the statement selects: due, pending, not locked, on an enabled channel of a kind
-- that has a sender.
unfoldable pub is_claimable : Session → List String → DeliveryRow → Bool
is_claimable s kinds d =
    is_pending d.status
    && leb d.available_at s.db_now
    && any (λ c. serves d c && is_one_of c.channel_type kinds && not (s.locked c.id))
        s.tables.channels
    && not (s.locked d.id)

-- `ORDER BY available_at, created_at, id`.
abbrev pub due_before : DeliveryRow → DeliveryRow → Bool
due_before a b =
    ltb a.available_at b.available_at
    || (a.available_at == b.available_at
        && (ltb a.created_at b.created_at || (a.created_at == b.created_at && leb a.id b.id)))

unfoldable pub selected : Session → List String → ℕ → List DeliveryRow
unfolding is_claimable
selected s kinds limit =
    take limit (sort_by due_before (select (is_claimable s kinds) s.tables.deliveries))

abbrev pub is_selected : List DeliveryRow → DeliveryRow → Bool
is_selected rows d = any (has_id d.id) rows

unfoldable pub claimed_row : ℕ → ℕ → ℕ → DeliveryRow → DeliveryRow
claimed_row db_now lease token d = record d {
  status = processing;
  attempts = d.attempts + 1;
  claim_token = some token;
  lease_expires_at = some (db_now + lease);
  updated_at = db_now;
}

-- The rows after the `UPDATE`, and those that it returns; each draws a token of its own.
unfoldable pub claim_rows :
    (ℕ → ℕ)
    → ℕ
    → ℕ
    → List DeliveryRow
    → ℕ
    → List DeliveryRow
    → List DeliveryRow × List DeliveryRow × ℕ
unfolding claimed_row
claim_rows gen_uuid db_now lease rows drawn [] = ([], [], drawn)
claim_rows gen_uuid db_now lease rows drawn (d ∷ ds) =
    let hit = is_selected rows d in
    let (after, claimed, last) =
      claim_rows gen_uuid db_now lease rows (if hit then drawn + 1 else drawn) ds in
    let d' = claimed_row db_now lease (gen_uuid drawn) d in
    (if hit then d' ∷ after else d ∷ after, if hit then d' ∷ claimed else claimed, last)

-- A claimed row joined to its channel and its inbox row; a row with no partner is dropped.
pub record ClaimedRow : Type 0 where
  pub delivery : DeliveryRow
  pub token : ℕ
  pub channel : ChannelRow
  pub payload : String

abbrev pub join_row :
    DeliveryRow → Option ℕ → Option ChannelRow → Option InboxRow → List ClaimedRow → List ClaimedRow
join_row d (some token) (some c) (some i) rest =
    record { delivery = d; token = token; channel = c; payload = i.payload } ∷ rest
join_row d _ _ _ rest = rest

unfoldable pub join_claimed : Tables → List DeliveryRow → List ClaimedRow
join_claimed t [] = []
join_claimed t (d ∷ ds) =
    join_row d d.claim_token (find (λ c. c.id == d.channel_id) t.channels)
      (find (λ i. i.event_id == d.event_id) t.inbox) (join_claimed t ds)

unfoldable pub claim_statement :
    (ℕ → ℕ) → ℕ → ℕ → List String → Session → Result (List ClaimedRow) × Tables
unfolding selected claim_rows join_claimed
claim_statement gen_uuid limit lease kinds s =
    let t = s.tables in
    let (after, claimed, last) =
      claim_rows gen_uuid s.db_now lease (selected s kinds limit) t.drawn t.deliveries in
    (ok (join_claimed t claimed), record t { deliveries = after; drawn = last })

abbrev pub task_of : ClaimedRow → Requested → Task
task_of r event = record {
  id = r.delivery.id;
  event_id = r.delivery.event_id;
  user_id = r.delivery.user_id;
  claim_token = r.token;
  attempts = r.delivery.attempts;
  channel_type = r.channel.channel_type;
  message = record {
    recipient = r.channel.destination;
    title = event.post.title;
    body = event.post.body;
    url = event.post.url;
  };
}

abbrev pub add_task : ClaimedRow → Option Requested → Result (List Task) → Result (List Task)
add_task r none rest = err bad_payload
add_task r (some event) (err e) = err e
add_task r (some event) (ok tasks) = ok (task_of r event ∷ tasks)

-- The loop over the returned rows: the first payload that does not decode ends it.
unfoldable pub read_tasks : Codec → List ClaimedRow → Result (List Task)
read_tasks codec [] = ok []
read_tasks codec (r ∷ rs) = add_task r (codec.unmarshal_request r.payload) (read_tasks codec rs)

abbrev pub lift {ℓ} : {A : Type ℓ} → Result A → M A
lift r s = (r, s)

-- `limit` and `lease` are positive, or nothing is asked of the database; the lease is counted in
-- whole milliseconds.
unfoldable pub claim : Codec → (ℕ → ℕ) → ℤ → ℤ → List String → M (List Task)
unfolding claim_statement read_tasks
claim codec gen_uuid limit lease kinds =
    if leb_ℤ limit (pos 0) || leb_ℤ lease (pos 0) then throw invalid_limit else (do
      rows ←
          exec (
            claim_statement gen_uuid (pos_part limit) (pos_part lease / 1_000_000 * 1_000_000)
              kinds)
      lift (read_tasks codec rows))
