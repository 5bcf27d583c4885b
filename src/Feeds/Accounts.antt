-- ===== src/Feeds/Accounts.antt =====
-- internal/database/storage: users, their API keys, feeds and follows.
use feed_flow.Base.{
  Bool, Option, String, [], any, find, if◌then◌else◌, inl, inr, none, not, some, str_eq, ℕ, ◌&&◌,
  ◌++◌, ◌==◌, ◌∷◌, ◌⊎◌,
}
use feed_flow.Feeds.{
  FeedDb, FeedRow, FeedTables, FollowRow, Outside, StorageError, UserRow, call_db,
  foreign_key_violation, key_violation, no_rows,
}

abbrev pub has_api_key : String → UserRow → Bool
has_api_key key u = str_eq u.api_key key

abbrev pub is_user : ℕ → UserRow → Bool
is_user i u = u.id == i

abbrev pub is_feed : ℕ → FeedRow → Bool
is_feed i f = f.id == i

-- `SaveUser`, its INSERT.
unfoldable pub insert_user : UserRow → FeedTables → StorageError ⊎ (UserRow × FeedTables)
insert_user u t =
    if any (is_user u.id) t.users
    then inl (key_violation "users_pkey")
    else if any (has_api_key u.api_key) t.users
    then inl (key_violation "users_api_key_key")
    else inr (u, record t { users = t.users ++ u ∷ [] })

-- The source reads the clock twice; both readings are the clock of the call.
unfoldable pub save_user :
    Outside → ℕ → String → String → FeedDb → (StorageError ⊎ UserRow) × FeedDb
unfolding insert_user
save_user o id name api_key db =
    let now = o.clock db.calls in
    call_db o
      (insert_user
        (record { id = id; created_at = now; updated_at = now; name = name; api_key = api_key }))
      db

abbrev pub row_or_none {ℓ} : {A : Type ℓ} → FeedTables → Option A → StorageError ⊎ (A × FeedTables)
row_or_none t none = inl no_rows
row_or_none t (some a) = inr (a, t)

unfoldable pub get_user_by_api_key : Outside → String → FeedDb → (StorageError ⊎ UserRow) × FeedDb
get_user_by_api_key o api_key db =
    call_db o (λ t. row_or_none t (find (has_api_key api_key) t.users)) db

-- `AddFeed`, its INSERT.
unfoldable pub insert_feed : FeedRow → FeedTables → StorageError ⊎ (FeedRow × FeedTables)
insert_feed f t =
    if any (is_feed f.id) t.feeds
    then inl (key_violation "feeds_pkey")
    else if any (λ g. str_eq g.url f.url) t.feeds
    then inl (key_violation "feeds_url_key")
    else inr (f, record t { feeds = t.feeds ++ f ∷ [] })

unfoldable pub add_feed : Outside → ℕ → String → String → FeedDb → (StorageError ⊎ FeedRow) × FeedDb
unfolding insert_feed
add_feed o id name url db =
    let now = o.clock db.calls in
    call_db o
      (insert_feed (record {
        id = id;
        created_at = now;
        updated_at = now;
        name = name;
        url = url;
        last_fetched_at = none;
      }))
      db

abbrev pub follows_feed : ℕ → ℕ → FollowRow → Bool
follows_feed user feed f = f.user_id == user && f.feed_id == feed

-- `FollowFeed`, its INSERT.
unfoldable pub insert_follow : FollowRow → FeedTables → StorageError ⊎ (Unit {0} × FeedTables)
insert_follow f t =
    if any (λ g. g.id == f.id) t.follows
    then inl (key_violation "feed_follows_pkey")
    else if any (follows_feed f.user_id f.feed_id) t.follows
    then inl (key_violation "feed_follows_user_id_feed_id_key")
    else if not (any (is_user f.user_id) t.users)
    then inl (foreign_key_violation "feed_follows_user_id_fkey")
    else if not (any (is_feed f.feed_id) t.feeds)
    then inl (foreign_key_violation "feed_follows_feed_id_fkey")
    else inr (tt, record t { follows = t.follows ++ f ∷ [] })

unfoldable pub follow_feed : Outside → ℕ → ℕ → FeedDb → (StorageError ⊎ Unit {0}) × FeedDb
unfolding insert_follow
follow_feed o user feed db =
    let now = o.clock db.calls in
    call_db o
      (insert_follow (record {
        id = o.new_uuid db.calls;
        created_at = now;
        updated_at = now;
        user_id = user;
        feed_id = feed;
      }))
      db
