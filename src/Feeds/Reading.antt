-- ===== src/Feeds/Reading.antt =====
-- internal/database/storage: the queries that list feeds and posts, and the time of a fetch.
use feed_flow.Base.{
  Bool, List, Option, [], false, if◌then◌else◌, inl, inr, leb, ltb, map, none, select, some,
  sort_by, suc, take, true, update, zero, ℕ, ◌&&◌, ◌++◌, ◌==◌, ◌||◌, ◌∷◌, ◌⊎◌,
}
use feed_flow.Feeds.{
  FeedDb, FeedRow, FollowRow, Outside, PostRow, StorageError, call_db, page_limit,
}
use feed_flow.Feeds.Accounts.{follows_feed, is_feed}

abbrev pub drop {ℓ} : {A : Type ℓ} → ℕ → List A → List A
drop zero xs = xs
drop (suc n) [] = []
drop (suc n) (x ∷ xs) = drop n xs

-- `ORDER BY id ASC`.
abbrev pub feed_le : FeedRow → FeedRow → Bool
feed_le f g = leb f.id g.id

-- `WHERE id > $1`, where a cursor is given.
unfoldable pub is_after : Option ℕ → FeedRow → Bool
is_after none f = true
is_after (some c) f = ltb c f.id

unfoldable pub page_of : Option ℕ → ℕ → List FeedRow → List FeedRow
unfolding is_after
page_of after limit feeds = take limit (sort_by feed_le (select (is_after after) feeds))

-- `GetFeedsPage`; a limit below 1 is 0.
unfoldable pub get_feeds_page :
    Outside → Option ℕ → ℕ → FeedDb → (StorageError ⊎ List FeedRow) × FeedDb
unfolding page_of
get_feeds_page o after limit db =
    if ltb limit 1 || ltb 101 limit
    then (inl page_limit, db)
    else call_db o (λ t. inr (page_of after limit t.feeds, t)) db

-- `ORDER BY last_fetched_at ASC NULLS FIRST, id ASC`.
unfoldable pub fetched_before : FeedRow → FeedRow → Bool
fetched_before f g =
    let tie = leb f.id g.id in
    elim f.last_fetched_at [
      | none ↦ elim g.last_fetched_at [ none ↦ tie | some v ↦ true ]
      | some u ↦ elim g.last_fetched_at [ none ↦ false | some v ↦ ltb u v || (u == v && tie) ]
    ]

-- `GetNextFeedsToFetch`.
unfoldable pub get_next_feeds : Outside → ℕ → FeedDb → (StorageError ⊎ List FeedRow) × FeedDb
unfolding fetched_before
get_next_feeds o limit db = call_db o (λ t. inr (take limit (sort_by fetched_before t.feeds), t)) db

unfoldable pub mark_feed_fetched : Outside → ℕ → FeedDb → (StorageError ⊎ Unit {0}) × FeedDb
mark_feed_fetched o feed db =
    let now = o.clock db.calls in
    call_db o
      (λ t. inr (
        tt,
        record t {
          feeds = update (is_feed feed) (λ f. record f { last_fetched_at = some now }) t.feeds;
        },
      ))
      db

-- `JOIN feed_follows ... WHERE feed_follows.user_id = $1`: a post once for each follow row.
unfoldable pub posts_followed : ℕ → List FollowRow → List PostRow → List PostRow
posts_followed user follows [] = []
posts_followed user follows (p ∷ ps) =
    map (λ _. p) (select (follows_feed user p.feed_id) follows) ++ posts_followed user follows ps

-- `ORDER BY posts.published_at DESC`; rows of one instant stay in the order of the table.
abbrev pub newer_first : PostRow → PostRow → Bool
newer_first p q = leb q.published_at p.published_at

-- `GetPosts`.
unfoldable pub get_posts : Outside → ℕ → ℕ → ℕ → FeedDb → (StorageError ⊎ List PostRow) × FeedDb
unfolding posts_followed
get_posts o user limit offset db =
    call_db o
      (λ t.
        inr (
          take limit (drop offset (sort_by newer_first (posts_followed user t.follows t.posts))),
          t,
        ))
      db
