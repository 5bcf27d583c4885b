-- ===== src/FeedApi.antt =====
-- internal/handler: the HTTP handlers of users, tokens, feeds, follows and posts. The cache is what
-- it answers to the handler's question, `none` for a miss or an error; what a handler gives to the
-- cache in the background is part of what it returns. Query values are texts, "" where they are
-- missing; the user is that of the request's context.
pub mod Paging
pub mod Writes
pub mod Followed
pub mod Router
use feed_flow.Base.{
  Bool, List, Option, String, [], if◌then◌else◌, inl, inr, is_some, length, ltb, none, not, some,
  take, ℕ, ◌&&◌, ◌+◌, ◌==◌, ◌||◌, ◌∷◌, ◌⊎◌,
}
use feed_flow.Base.Int.{negsuc, pos, ℤ}
use feed_flow.Base.Text.{is_empty}
use feed_flow.Feeds.{FeedDb, FeedRow, Outside, StorageError}
use feed_flow.Feeds.Reading.{get_feeds_page}
use feed_flow.Http.{Reply, error_reply, value_reply}

abbrev pub default_feeds_page_size : ℕ
default_feeds_page_size = 50

abbrev pub max_feeds_page_size : ℕ
max_feeds_page_size = 100

-- `X-Cache`.
pub data CacheStatus : Type 0 where
  hit miss : CacheStatus

-- A page of feeds: the feeds, `X-Next-Cursor` where it is set, and `X-Cache`.
pub record FeedsPage : Type 0 where
  pub feeds : List FeedRow
  pub next_cursor : Option ℕ
  pub cache_status : CacheStatus

unfoldable pub last_id : List FeedRow → ℕ
last_id [] = 0
last_id (f ∷ []) = f.id
last_id (f ∷ g ∷ fs) = last_id (g ∷ fs)

-- `writeFeedsPage`; the limit is positive.
unfoldable pub write_feeds_page : List FeedRow → ℕ → CacheStatus → FeedsPage
unfolding last_id
write_feeds_page feeds limit cache_status =
    if ltb limit (length feeds)
    then record {
      feeds = take limit feeds;
      next_cursor = some (last_id (take limit feeds));
      cache_status = cache_status;
    }
    else record { feeds = feeds; next_cursor = none; cache_status = cache_status }

-- `strconv.Atoi`, from `atoi`, gives `none` for an error; the limit where it lies in the range.
unfoldable pub feeds_limit : (String → Option ℤ) → String → Option ℕ
feeds_limit atoi value =
    if is_empty value then some default_feeds_page_size else elim (atoi value) [
      | none ↦ none
      | some (negsuc n) ↦ none
      | some (pos n) ↦ if ltb n 1 || ltb max_feeds_page_size n then none else some n
    ]

-- The cursor: none given, one that is no UUID, or a UUID.
pub data Cursor : Type 0 where
  absent malformed : Cursor
  after_id : ℕ → Cursor

unfoldable pub feeds_cursor : (String → Option ℕ) → String → Cursor
feeds_cursor uuid_parse value =
    if is_empty value
    then absent
    else elim (uuid_parse value) [ none ↦ malformed | some c ↦ after_id c ]

-- The reply, and the page that goes into the cache.
abbrev pub FeedsAnswer : Type 0
FeedsAnswer = Reply FeedsPage × Option (List FeedRow)

-- What the storage's answer means for the reply; `cacheable` says whether it is the first page.
unfoldable pub stored_page :
    Bool → ℕ → (StorageError ⊎ List FeedRow) × FeedDb → FeedsAnswer × FeedDb
unfolding write_feeds_page
stored_page cacheable limit (inl e, db) =
    ((error_reply 500 "internal_error" "failed to get feeds", none), db)
stored_page cacheable limit (inr feeds, db) = (
  (value_reply 200 (write_feeds_page feeds limit miss), if cacheable then some feeds else none),
  db,
)

-- The page in the cache, if there is one; else what the storage answers.
unfoldable pub cached_page :
    Option (List FeedRow) → ℕ → FeedDb → FeedsAnswer × FeedDb → FeedsAnswer × FeedDb
unfolding write_feeds_page
cached_page none limit db asked = asked
cached_page (some feeds) limit db asked =
    ((value_reply 200 (write_feeds_page feeds limit hit), none), db)

-- `GetAllFeeds` with its limit and cursor; `cached` is the page in the cache.
unfoldable pub feeds_page :
    Outside → Option (List FeedRow) → Option ℕ → ℕ → FeedDb → FeedsAnswer × FeedDb
unfolding stored_page cached_page
feeds_page o cached after limit db =
    let cacheable = not (is_some after) && limit == default_feeds_page_size in
    let asked = stored_page cacheable limit (get_feeds_page o after (limit + 1) db) in
    if cacheable then cached_page cached limit db asked else asked

-- `GetAllFeeds` once the limit is read.
unfoldable pub feeds_from :
    Outside → Option (List FeedRow) → ℕ → Cursor → FeedDb → FeedsAnswer × FeedDb
unfolding feeds_page
feeds_from o cached limit absent db = feeds_page o cached none limit db
feeds_from o cached limit malformed db =
    ((error_reply 400 "invalid_request" "after must be a UUID", none), db)
feeds_from o cached limit (after_id c) db = feeds_page o cached (some c) limit db

unfoldable pub get_all_feeds :
    (String → Option ℤ)
    → (String → Option ℕ)
    → Outside
    → Option (List FeedRow)
    → String
    → String
    → FeedDb
    → FeedsAnswer × FeedDb
unfolding feeds_limit feeds_cursor feeds_from
get_all_feeds atoi uuid_parse o cached limit_value after_value db =
    elim (feeds_limit atoi limit_value) [
      | none ↦ ((error_reply 400 "invalid_request" "limit must be between 1 and 100", none), db)
      | some limit ↦ feeds_from o cached limit (feeds_cursor uuid_parse after_value) db
    ]
