-- ===== src/FeedApi/Router.antt =====
-- internal/handler/handler.go: the routes of the API. A request has its Authorization headers;
-- the handlers behind the middleware get the user of its token.
use feed_flow.Auth.{AccessToken, AuthError}
use feed_flow.Auth.Middleware.{
  authorization_credential, middleware, middleware-IsGuarded, refused, served,
}
use feed_flow.Base.{Bool, List, Option, String, false, inl, inr, leb, some, true, ℕ, ◌≡◌, ◌≢◌, ◌⊎◌}
use feed_flow.Base.Int.{ℤ}
use feed_flow.ChannelApi.{answer}
use feed_flow.FeedApi.{get_all_feeds}
use feed_flow.FeedApi.Followed.{PostsPage, get_posts_handler}
use feed_flow.FeedApi.Writes.{Decoder, NewFeed, post_feed, post_follow_feed, post_token, post_user}
use feed_flow.Feeds.{FeedDb, FeedRow, Outside, PostRow}
use feed_flow.Http.{Reply, RequestBody, status_of}

pub data ApiCall : Type 0 where
  adds_user : RequestBody → Option String → ℕ → ApiCall
  asks_token : ApiCall
  adds_feed : RequestBody → ℕ → ApiCall
  lists_feeds : String → String → ApiCall
  follows_one : RequestBody → ApiCall
  lists_posts : String → String → ApiCall

-- The status of the reply, and the database after the request.
abbrev pub status_and_db : {A : Type 0} → Reply A × FeedDb → ℕ × FeedDb
status_and_db (reply, db) = (status_of reply, db)

module _ (atoi : String → Option ℤ) (uuid_parse : String → Option ℕ) (read_name : Decoder String)
    (read_feed : Decoder NewFeed) (read_id : Decoder ℕ)
    (issuer : Option (ℕ → AuthError ⊎ AccessToken)) (verifier : Option (String → Option ℕ))
    (o : Outside) (feeds_cache : Option (List FeedRow))
    (posts_cache : ℕ → ℕ → ℕ → Option (List PostRow)) where
  -- A handler without what it gives to the cache.
  unfoldable pub feed_as : RequestBody → ℕ → ℕ → FeedDb → Reply FeedRow × FeedDb
  feed_as body id user db = let (answer, db') = post_feed read_feed o id body db in (answer.0, db')

  unfoldable pub posts_as : String → String → ℕ → FeedDb → Reply PostsPage × FeedDb
  posts_as limit offset user db =
      let (answer, db') = get_posts_handler atoi o posts_cache (some user) limit offset db in
      (answer.0, db')

  -- `InitRouter`.
  unfoldable pub serve_api : List String → ApiCall → FeedDb → ℕ × FeedDb
  unfolding feed_as posts_as
  serve_api headers (adds_user body random id) db =
      status_and_db (post_user read_name o random id body db)
  serve_api headers asks_token db = status_and_db (post_token o issuer headers db)
  serve_api headers (adds_feed body id) db =
      status_and_db (middleware verifier (feed_as body id) headers db)
  serve_api headers (lists_feeds limit after) db =
      let (answer, db') = get_all_feeds atoi uuid_parse o feeds_cache limit after db in
      (status_of answer.0, db')
  serve_api headers (follows_one body) db =
      status_and_db
        (middleware verifier (λ user. post_follow_feed read_id o (some user) body) headers db)
  serve_api headers (lists_posts limit offset) db =
      status_and_db (middleware verifier (posts_as limit offset) headers db)

  abbrev pub is_protected : ApiCall → Bool
  is_protected (adds_feed body id) = true
  is_protected (follows_one body) = true
  is_protected (lists_posts limit offset) = true
  is_protected _ = false

  -- The verifier names a user for the one Bearer credential of the request.
  abbrev pub HasToken : List String → Type 0
  HasToken headers =
      (check : String → Option ℕ) × (value : String) × (user : ℕ) × (verifier ≡ some check)
      × (authorization_credential headers "Bearer" ≡ some value)
      × (check value ≡ some user)
      × (user ≢ 0)

  -- A request that changed nothing and was refused.
  abbrev pub IsRefused : FeedDb → ℕ × FeedDb → Type 0
  IsRefused db r = (r.1 ≡ db) × (leb 400 r.0 ≡ true)

  guarded :
      {A : Type 0} (next : ℕ → FeedDb → Reply A × FeedDb) (headers : List String) (db : FeedDb)
      → HasToken headers ⊎ IsRefused db (status_and_db (middleware verifier next headers db))
  guarded next headers db = elim (middleware-IsGuarded next verifier headers db) [
    | served check value user a b c d e ↦ inl (check, value, user, a, b, c, d)
    | refused kept status ↦ inr (kept, status)
  ]

  -- A request to a protected route (adding a feed, following one, listing posts) carries one
  -- Bearer credential for which the verifier names a user who is not nil, or it changes nothing in
  -- the database and gets an error status.
  pub serve_api-IsGuarded :
      (headers : List String) (call : ApiCall) (db : FeedDb)
      → is_protected call ≡ true
      → HasToken headers ⊎ IsRefused db (serve_api headers call db)
  unfolding serve_api
  serve_api-IsGuarded headers (adds_user body random id) db h = cc
  serve_api-IsGuarded headers asks_token db h = cc
  serve_api-IsGuarded headers (adds_feed body id) db h = guarded (feed_as body id) headers db
  serve_api-IsGuarded headers (lists_feeds limit after) db h = cc
  serve_api-IsGuarded headers (follows_one body) db h =
      guarded (λ user. post_follow_feed read_id o (some user) body) headers db
  serve_api-IsGuarded headers (lists_posts limit offset) db h =
      guarded (posts_as limit offset) headers db
