-- ===== src/Feeds/Posts.antt =====
-- internal/database/storage/save_post.go: a post is saved together with one outbox event for each
-- user who follows its feed. `jsonb` is `jsonb_build_object` at the arguments of the statement. The
-- check of an event's route always holds, since topic, key and version are set.
use feed_flow.Base.{
  Bool, List, Option, String, [], any, false, if◌then◌else◌, inl, inr, none, not, select, some,
  str_eq, suc, true, ℕ, ◌&&◌, ◌++◌, ◌==◌, ◌||◌, ◌∷◌, ◌⊎◌,
}
use feed_flow.Contract.{
  Codec, Requested, notification_requested, requested_schema_v1, requests_topic_v1,
  template_new_post,
}
use feed_flow.Feeds.{
  EventRow, FeedDb, FeedTables, FollowRow, Outside, PostRow, StorageError, call_db,
  foreign_key_violation, key_violation,
}
use feed_flow.Feeds.Accounts.{is_feed}

abbrev pub notification_producer : String
notification_producer = "feedflow-monolith"

abbrev pub text_or_empty : Option String → String
text_or_empty none = ""
text_or_empty (some s) = s

-- The request that the statement puts together for one follower.
unfoldable pub request_for : ℕ → ℕ → PostRow → ℕ → Requested
request_for now event p user = record {
  event_id = event;
  event_type = notification_requested;
  schema_version = requested_schema_v1;
  occurred_at = now;
  producer = notification_producer;
  notification_id = event;
  user_id = user;
  template = template_new_post;
  post = record {
    post_id = p.id;
    feed_id = p.feed_id;
    title = p.title;
    body = text_or_empty p.description;
    url = p.url;
    published_at = p.published_at;
  };
}

-- What is left of the statement once the post is in its table.
unfoldable pub with_events :
    FeedTables → StorageError ⊎ List EventRow → StorageError ⊎ (Bool × FeedTables)
with_events t (inl e) = inl e
with_events t (inr events) = inr (true, record t { events = events })

module _ (codec : Codec) (jsonb : Requested → String) where
  -- The row of `inserted_intents` for one follower.
  unfoldable pub intent_row : ℕ → ℕ → PostRow → ℕ → EventRow
  unfolding request_for
  intent_row now event p user = record {
    aggregate_id = p.id;
    outbox = record {
      id = event;
      target_topic = some requests_topic_v1;
      partition_key = codec.uuid_string user;
      payload = jsonb (request_for now event p user);
      event_type = notification_requested;
      schema_version = requested_schema_v1;
      attempts = 0;
      available_at = now;
      created_at = now;
      published_at = none;
      processed_at = none;
    };
  }

  -- The primary key, and the unique index on (aggregate_id, partition_key).
  unfoldable pub same_event : EventRow → EventRow → Bool
  same_event a b =
      a.outbox.id == b.outbox.id
      || (a.aggregate_id == b.aggregate_id
          && str_eq a.outbox.partition_key b.outbox.partition_key
          && str_eq b.outbox.event_type notification_requested)

  -- The inserts of `inserted_intents`, in the order of the follow rows; `gen` is
  -- `gen_random_uuid()` for the rows of the statement.
  unfoldable pub add_intents :
      (ℕ → ℕ) → ℕ → PostRow → ℕ → List FollowRow → List EventRow → StorageError ⊎ List EventRow
  unfolding intent_row same_event
  add_intents gen now p i [] events = inr events
  add_intents gen now p i (f ∷ fs) events =
      let row = intent_row now (gen i) p f.user_id in
      let rest = add_intents gen now p (suc i) fs (events ++ row ∷ []) in
      if any (same_event row) events then inl (key_violation "outbox_events") else rest

  unfoldable pub insert_post :
      (ℕ → ℕ) → ℕ → PostRow → FeedTables → StorageError ⊎ (Bool × FeedTables)
  unfolding add_intents with_events
  insert_post gen now p t =
      if any (λ q. str_eq q.url p.url) t.posts
      then inr (false, t)
      else if any (λ q. q.id == p.id) t.posts
      then inl (key_violation "posts_pkey")
      else if not (any (is_feed p.feed_id) t.feeds)
      then inl (foreign_key_violation "posts_feed_id_fkey")
      else with_events (record t { posts = t.posts ++ p ∷ [] })
          (add_intents gen now p 0 (select (λ f. f.feed_id == p.feed_id) t.follows) t.events)

  -- `SavePost`; the caller's post has no times, both columns get `now`.
  unfoldable pub save_post : Outside → PostRow → FeedDb → (StorageError ⊎ Bool) × FeedDb
  unfolding insert_post
  save_post o p db =
      let now = o.clock db.calls in
      call_db o
        (insert_post (o.gen_uuid db.calls) now (record p { created_at = now; updated_at = now })) db
