-- ===== src/FeedApi/Writes.antt =====
-- internal/handler: the handlers that write, and the one that gives a token for an API key. The
-- body of a request is read by `DecodeJSON`; `Decoder` stands for its JSON decoder.
use feed_flow.Auth.{AccessToken, AuthError}
use feed_flow.Auth.Middleware.{authorization_credential}
use feed_flow.Base.{
  Bool, List, Option, String, false, if◌then◌else◌, inl, inr, none, some, true, ℕ, ◌==◌, ◌⊎◌,
}
use feed_flow.Feeds.{
  FeedDb, FeedRow, Outside, StorageError, UserRow, driver_fault, no_rows, page_limit,
}
use feed_flow.Feeds.Accounts.{add_feed, follow_feed, get_user_by_api_key, save_user}
use feed_flow.Http.{
  DecodeError, Reply, RequestBody, decode_error_reply, decode_json, empty_reply, error_reply,
  value_reply,
}
use feed_flow.Telegram.{joined}

abbrev pub Decoder : Type 0 → Type 0
Decoder B = String → Option (B × Bool)

-- `generateAPIKey`; `random` is what `rand.Read` gives, in its base64 text.
unfoldable pub generate_api_key : Option String → Option String
generate_api_key none = none
generate_api_key (some random) = some (joined "na_" random)

-- `PostUser` once the body is read.
unfoldable pub user_reply : (StorageError ⊎ UserRow) × FeedDb → Reply UserRow × FeedDb
user_reply (inl e, db) = (error_reply 500 "internal_error" "failed to create user", db)
user_reply (inr u, db) = (value_reply 201 u, db)

unfoldable pub user_from :
    Outside → Option String → ℕ → DecodeError ⊎ String → FeedDb → Reply UserRow × FeedDb
unfolding user_reply generate_api_key
user_from o random id (inl e) db = (decode_error_reply e, db)
user_from o random id (inr name) db = elim (generate_api_key random) [
  | none ↦ (error_reply 500 "internal_error" "failed to generate API key", db)
  | some key ↦ user_reply (save_user o id name key db)
]

-- `PostUser`; `id` is the UUID of `idGenerator`.
unfoldable pub post_user :
    Decoder String → Outside → Option String → ℕ → RequestBody → FeedDb → Reply UserRow × FeedDb
unfolding user_from
post_user decode o random id body db = user_from o random id (decode_json decode body) db

pub record NewFeed : Type 0 where
  pub name : String
  pub url : String

-- The reply of `PostFeed`, and whether it deletes the first page from the cache.
unfoldable pub feed_reply : (StorageError ⊎ FeedRow) × FeedDb → (Reply FeedRow × Bool) × FeedDb
feed_reply (inl e, db) = ((error_reply 500 "internal_error" "failed to create feed", false), db)
feed_reply (inr f, db) = ((value_reply 200 f, true), db)

unfoldable pub feed_from :
    Outside → ℕ → DecodeError ⊎ NewFeed → FeedDb → (Reply FeedRow × Bool) × FeedDb
unfolding feed_reply
feed_from o id (inl e) db = ((decode_error_reply e, false), db)
feed_from o id (inr f) db = feed_reply (add_feed o id f.name f.url db)

-- `PostFeed`, behind the middleware.
unfoldable pub post_feed :
    Decoder NewFeed → Outside → ℕ → RequestBody → FeedDb → (Reply FeedRow × Bool) × FeedDb
unfolding feed_from
post_feed decode o id body db = feed_from o id (decode_json decode body) db

-- `auth.UserIDFromContext`: the user of the context, unless it is nil.
unfoldable pub user_id_from_context : Option ℕ → Option ℕ
user_id_from_context none = none
user_id_from_context (some user) = if user == 0 then none else some user

abbrev pub needs_token : {A : Type 0} → Reply A
needs_token = error_reply 401 "unauthorized" "Bearer access token is required"

unfoldable pub follow_reply : (StorageError ⊎ Unit {0}) × FeedDb → Reply (Unit {0}) × FeedDb
follow_reply (inl e, db) = (error_reply 500 "internal_error" "failed to follow feed", db)
follow_reply (inr _, db) = (empty_reply 201, db)

unfoldable pub follow_from : Outside → ℕ → DecodeError ⊎ ℕ → FeedDb → Reply (Unit {0}) × FeedDb
unfolding follow_reply
follow_from o user (inl e) db = (decode_error_reply e, db)
follow_from o user (inr feed) db =
    if feed == 0
    then (error_reply 400 "invalid_request" "feedId must be a non-zero UUID", db)
    else follow_reply (follow_feed o user feed db)

unfoldable pub follow_as :
    Decoder ℕ → Outside → Option ℕ → RequestBody → FeedDb → Reply (Unit {0}) × FeedDb
unfolding follow_from
follow_as decode o none body db = (needs_token, db)
follow_as decode o (some user) body db = follow_from o user (decode_json decode body) db

-- `PostFollowFeed`; the user is that of the context.
unfoldable pub post_follow_feed :
    Decoder ℕ → Outside → Option ℕ → RequestBody → FeedDb → Reply (Unit {0}) × FeedDb
unfolding user_id_from_context follow_as
post_follow_feed decode o user body db = follow_as decode o (user_id_from_context user) body db

abbrev pub invalid_api_key : {A : Type 0} → Reply A
invalid_api_key = error_reply 401 "invalid_api_key" "invalid API key"

abbrev pub auth_unavailable : {A : Type 0} → Reply A
auth_unavailable = error_reply 503 "authentication_unavailable" "authentication unavailable"

unfoldable pub token_reply : AuthError ⊎ AccessToken → Reply AccessToken
token_reply (inl e) = error_reply 500 "internal_error" "could not issue access token"
token_reply (inr token) = value_reply 200 token

-- `PostToken`, once the storage has answered for the API key.
unfoldable pub token_for :
    (ℕ → AuthError ⊎ AccessToken) → (StorageError ⊎ UserRow) × FeedDb → Reply AccessToken × FeedDb
unfolding token_reply
token_for issuer (inl no_rows, db) = (invalid_api_key, db)
token_for issuer (inl (driver_fault f), db) = (auth_unavailable, db)
token_for issuer (inl page_limit, db) = (auth_unavailable, db)
token_for issuer (inr u, db) =
    if u.id == 0 then (invalid_api_key, db) else (token_reply (issuer u.id), db)

unfoldable pub token_with :
    Outside
    → Option (ℕ → AuthError ⊎ AccessToken)
    → Option String
    → FeedDb
    → Reply AccessToken × FeedDb
unfolding token_for
token_with o issuer none db = (error_reply 401 "unauthorized" "API key is required", db)
token_with o none (some key) db = (auth_unavailable, db)
token_with o (some issuer) (some key) db = token_for issuer (get_user_by_api_key o key db)

-- `PostToken`; `issuer` is `Issue`, where there is an issuer, `headers` are those of Authorization.
unfoldable pub post_token :
    Outside
    → Option (ℕ → AuthError ⊎ AccessToken)
    → List String
    → FeedDb
    → Reply AccessToken × FeedDb
unfolding token_with
post_token o issuer headers db = token_with o issuer (authorization_credential headers "ApiKey") db
