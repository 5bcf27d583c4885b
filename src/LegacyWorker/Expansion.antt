-- ===== src/LegacyWorker/Expansion.antt =====
-- `ExpandPostCreatedEvents` of internal/notification/postgres/outbox.go.
use feed_flow.Base.{
  Bool, List, String, [], any, count, if◌then◌else◌, inl, inr, is_some, leb, ltb, none, not, select,
  some, sort_by, str_eq, suc, take, update, ℕ, ◌&&◌, ◌++◌, ◌+◌, ◌==◌, ◌||◌, ◌∷◌, ◌⊎◌,
}
use feed_flow.Feeds.{EventRow, FollowRow, PostRow}
use feed_flow.LegacyWorker.Tables.{
  LegacyError, LegacyRow, LegacyTables, Moment, bad_limit, database_error, is_row, run_statement,
}
use feed_flow.Store.{ChannelRow, pending, pg_error}

abbrev pub event_post_created : String
event_post_created = "post.created"

-- `claimed` of `ExpandPostCreatedEvents`.
unfoldable pub is_unexpanded : Moment → EventRow → Bool
is_unexpanded w e =
    not (is_some e.outbox.processed_at)
    && leb e.outbox.available_at w.db_now
    && str_eq e.outbox.event_type event_post_created
    && not (w.locked e.outbox.id)

abbrev pub made_before : EventRow → EventRow → Bool
made_before a b =
    ltb a.outbox.created_at b.outbox.created_at
    || (a.outbox.created_at == b.outbox.created_at && leb a.outbox.id b.outbox.id)

unfoldable pub unexpanded : Moment → ℕ → List EventRow → List EventRow
unfolding is_unexpanded
unexpanded w limit events = take limit (sort_by made_before (select (is_unexpanded w) events))

-- A delivery that is wanted: its user, post and channel.
pub record Target : Type 0 where
  pub user_id : ℕ
  pub post_id : ℕ
  pub channel_id : ℕ

module _ (t : LegacyTables) where
  unfoldable pub channel_targets : ℕ → ℕ → List ChannelRow → List Target
  channel_targets post user [] = []
  channel_targets post user (c ∷ cs) =
      if c.user_id == user && c.enabled
      then record { user_id = user; post_id = post; channel_id = c.id }
        ∷ channel_targets post user cs
      else channel_targets post user cs

  unfoldable pub follow_targets : PostRow → List FollowRow → List Target
  unfolding channel_targets
  follow_targets p [] = []
  follow_targets p (f ∷ fs) =
      if f.feed_id == p.feed_id
      then channel_targets p.id f.user_id t.channels ++ follow_targets p fs
      else follow_targets p fs

  unfoldable pub post_targets : EventRow → List PostRow → List Target
  unfolding follow_targets
  post_targets e [] = []
  post_targets e (p ∷ ps) =
      if p.id == e.aggregate_id
      then follow_targets p t.source.follows ++ post_targets e ps
      else post_targets e ps

  -- The rows of the joins, for the events that were claimed.
  unfoldable pub event_targets : List EventRow → List Target
  unfolding post_targets
  event_targets [] = []
  event_targets (e ∷ es) = post_targets e t.source.posts ++ event_targets es

abbrev pub is_target : Target → LegacyRow → Bool
is_target a d = d.user_id == a.user_id && d.post_id == a.post_id && d.channel_id == a.channel_id

unfoldable pub pending_row : ℕ → ℕ → Target → LegacyRow
pending_row db_now id a = record {
  id = id;
  user_id = a.user_id;
  post_id = a.post_id;
  channel_id = a.channel_id;
  status = pending;
  attempts = 0;
  available_at = db_now;
  sent_at = none;
  last_error = none;
  created_at = db_now;
  updated_at = db_now;
}

-- `INSERT ... ON CONFLICT (user_id, post_id, channel_id) DO NOTHING`, row by row; an id that is
-- there breaks the primary key.
unfoldable pub add_pending :
    Moment → ℕ → List Target → List LegacyRow → LegacyError ⊎ List LegacyRow
unfolding pending_row
add_pending w i [] rows = inr rows
add_pending w i (a ∷ targets) rows =
    let known = add_pending w (suc i) targets rows in
    let added =
      add_pending w (suc i) targets (rows ++ pending_row w.db_now (w.gen_uuid i) a ∷ []) in
    if any (is_target a) rows
    then known
    else if any (is_row (w.gen_uuid i)) rows
    then inl (database_error (pg_error "23505" "notification_deliveries_pkey"))
    else added

abbrev pub is_event_in : List EventRow → EventRow → Bool
is_event_in es e = any (λ x. x.outbox.id == e.outbox.id) es

unfoldable pub expanded_event : ℕ → EventRow → EventRow
expanded_event db_now e = record e {
  outbox = record e.outbox { processed_at = some db_now; attempts = e.outbox.attempts + 1 };
}

-- What is left of the statement once the deliveries are inserted.
unfoldable pub with_deliveries :
    Moment
    → List EventRow
    → LegacyTables
    → LegacyError ⊎ List LegacyRow
    → (LegacyError ⊎ ℕ) × LegacyTables
unfolding expanded_event
with_deliveries w claimed t (inl e) = (inl e, t)
with_deliveries w claimed t (inr rows) = (
  inr (count (is_event_in claimed) t.source.events),
  record t {
    deliveries = rows;
    source = record t.source {
      events = update (is_event_in claimed) (expanded_event w.db_now) t.source.events;
    };
  },
)

unfoldable pub expand_statement : Moment → ℕ → LegacyTables → (LegacyError ⊎ ℕ) × LegacyTables
unfolding unexpanded add_pending event_targets with_deliveries
expand_statement w limit t =
    let claimed = unexpanded w limit t.source.events in
    with_deliveries w claimed t (add_pending w 0 (event_targets t claimed) t.deliveries)

-- `ExpandPostCreatedEvents`: a transaction of one statement, of which the first call that fails
-- leaves the tables alone. A limit of 0 stands for one that is not positive.
unfoldable pub expand_events : Moment → ℕ → LegacyTables → (LegacyError ⊎ ℕ) × LegacyTables
unfolding expand_statement
expand_events w limit t =
    if limit == 0 then (inl bad_limit, t) else run_statement w (expand_statement w limit) t
