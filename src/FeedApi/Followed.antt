-- ===== src/FeedApi/Followed.antt =====
-- internal/handler/get_posts.go: the posts of the feeds that a user follows.
use feed_flow.Base.{List, Option, String, if◌then◌else◌, inl, inr, ltb, none, some, ℕ, ◌⊎◌}
use feed_flow.Base.Int.{negsuc, pos, ℤ}
use feed_flow.Base.Text.{is_empty}
use feed_flow.FeedApi.{CacheStatus, hit, miss}
use feed_flow.FeedApi.Writes.{needs_token, user_id_from_context}
use feed_flow.Feeds.{FeedDb, Outside, PostRow, StorageError}
use feed_flow.Feeds.Reading.{get_posts}
use feed_flow.Http.{Reply, error_reply, value_reply}

-- What is sent: the posts, and `X-Cache`.
pub record PostsPage : Type 0 where
  pub rows : List PostRow
  pub cache_status : CacheStatus

-- A number of the query, at least `least`; `none` where it is refused.
unfoldable pub query_number : (String → Option ℤ) → ℕ → ℕ → String → Option ℕ
query_number atoi default least value = if is_empty value then some default else elim (atoi value) [
  | none ↦ none
  | some (negsuc n) ↦ none
  | some (pos n) ↦ if ltb n least then none else some n
]

-- The reply, and the posts that go into the cache.
abbrev pub PostsAnswer : Type 0
PostsAnswer = Reply PostsPage × Option (List PostRow)

unfoldable pub stored_posts : (StorageError ⊎ List PostRow) × FeedDb → PostsAnswer × FeedDb
stored_posts (inl e, db) = ((error_reply 500 "internal_error" "failed to get posts", none), db)
stored_posts (inr found, db) =
    ((value_reply 200 (record { rows = found; cache_status = miss }), some found), db)

-- `cached` is what the cache holds for the user, the limit and the offset.
unfoldable pub posts_page :
    Outside → (ℕ → ℕ → ℕ → Option (List PostRow)) → ℕ → ℕ → ℕ → FeedDb → PostsAnswer × FeedDb
unfolding stored_posts
posts_page o cached user limit offset db = elim (cached user limit offset) [
  | none ↦ stored_posts (get_posts o user limit offset db)
  | some found ↦ ((value_reply 200 (record { rows = found; cache_status = hit }), none), db)
]

unfoldable pub posts_from :
    Outside
    → (ℕ → ℕ → ℕ → Option (List PostRow))
    → ℕ
    → Option ℕ
    → Option ℕ
    → FeedDb
    → PostsAnswer × FeedDb
unfolding posts_page
posts_from o cached user none offset db =
    ((error_reply 400 "invalid_request" "limit must be a positive integer", none), db)
posts_from o cached user (some limit) none db =
    ((error_reply 400 "invalid_request" "offset must be a non-negative integer", none), db)
posts_from o cached user (some limit) (some offset) db = posts_page o cached user limit offset db

-- `GetPosts`, with the user of the context.
unfoldable pub get_posts_handler :
    (String → Option ℤ)
    → Outside
    → (ℕ → ℕ → ℕ → Option (List PostRow))
    → Option ℕ
    → String
    → String
    → FeedDb
    → PostsAnswer × FeedDb
unfolding query_number posts_from
get_posts_handler atoi o cached user limit_value offset_value db =
    elim (user_id_from_context user) [
      | none ↦ ((needs_token, none), db)
      | some u ↦
          posts_from o cached u (query_number atoi 10 1 limit_value)
            (query_number atoi 0 0 offset_value) db
    ]
