-- ===== src/Scraper/Repeated.antt =====
-- A feed that is scraped twice, of internal/worker/worker.go: the second scrape announces nothing.
use feed_flow.Base.{
  Bool, List, Option, String, [], any, false, inl, inr, none, refl, some, true, update, ℕ, ◌∙◌, ◌∷◌,
  ◌≡◌, ◌≢◌, ◌⊎◌,
}
use feed_flow.Base.Text.{trim_space}
use feed_flow.Contract.{Codec, Requested}
use feed_flow.Feeds.{FeedDb, Outside, PostRow, StorageError}
use feed_flow.Feeds.Accounts.{is_feed}
use feed_flow.Feeds.Calls.{call_db-tables}
use feed_flow.Feeds.Posts.{save_post}
use feed_flow.Feeds.Reading.{mark_feed_fetched}
use feed_flow.Feeds.Saved.{has_url, save_post-known, save_post_cases}
use feed_flow.Scraper.{
  Download, FeedParser, RssItem, ScrapeError, after_mark, after_save, post_of_item, read_feed,
  scrape_feed, scrape_item, scrape_items, scrape_read,
}
use feed_flow.Scraper.Complete.{HasAll, scraped-IsComplete}
use feed_flow.Scraper.Usable.{post_of_item_cases}

module _ (parser : FeedParser) (codec : Codec) (jsonb : Requested → String) (o : Outside)
    (feed : ℕ) where
  -- No post, no event and no new post in the count.
  record IsQuiet (n : ℕ) (db : FeedDb) (r : (ℕ × Option ScrapeError) × FeedDb) : Type 0 where
    counted : r.0.0 ≡ n
    posts_kept : r.1.tables.posts ≡ db.tables.posts
    events_kept : r.1.tables.events ≡ db.tables.events

  SameNews : FeedDb → FeedDb → Type 0
  SameNews db db' = (db'.tables.posts ≡ db.tables.posts) × (db'.tables.events ≡ db.tables.events)

  mark_feed-SameNews : (db : FeedDb) → SameNews db (mark_feed_fetched o feed db).1
  unfolding mark_feed_fetched SameNews
  mark_feed-SameNews db =
      call_db-tables o _ db (λ t. (t.posts ≡ db.tables.posts) × (t.events ≡ db.tables.events))
        (refl, refl)
        (λ _ t e.
          let left : t ≡ record db.tables {
            feeds =
                update (is_feed feed) (λ f. record f { last_fetched_at = some (o.clock db.calls) })
                  db.tables.feeds;
          } =
            cc in
          rw left (refl, refl))

  marked-IsQuiet :
      (n : ℕ) (db : FeedDb) (answer : (StorageError ⊎ Unit {0}) × FeedDb)
      → SameNews db answer.1
      → IsQuiet n db (after_mark parser codec jsonb o feed n answer)
  unfolding after_mark SameNews
  marked-IsQuiet n db (inl e, db') k = record {
    counted = refl;
    posts_kept = k.0;
    events_kept = k.1;
  }
  marked-IsQuiet n db (inr _, db') k = record {
    counted = refl;
    posts_kept = k.0;
    events_kept = k.1;
  }

  module _ (items : List RssItem) (rest : ℕ → FeedDb → (ℕ × Option ScrapeError) × FeedDb)
      (rest_lem : (n : ℕ) (db : FeedDb)
        → HasAll parser codec jsonb o feed items db.tables.posts
        → IsQuiet n db (rest n db)) where
    saved-IsQuiet :
        (n : ℕ) (db : FeedDb) (answer : (StorageError ⊎ Bool) × FeedDb)
        → HasAll parser codec jsonb o feed items db.tables.posts
        → (answer.0 ≢ inr true)
        → SameNews db answer.1
        → IsQuiet n db (after_save parser codec jsonb o feed rest n answer)
    unfolding after_save SameNews
    saved-IsQuiet n db (inl e, db') all old k = record {
      counted = refl;
      posts_kept = k.0;
      events_kept = k.1;
    }
    saved-IsQuiet n db (inr true, db') all old k = absurd (old refl)
    saved-IsQuiet n db (inr false, db') all old k =
        let q = rest_lem n db' (rw k.0 all) in
        record {
          counted = q.counted;
          posts_kept = q.posts_kept ∙ k.0;
          events_kept = q.events_kept ∙ k.1;
        }

    saved_again :
        (item : RssItem) (p : PostRow) (n : ℕ) (db : FeedDb)
        → p.url ≡ trim_space item.link
        → any (has_url (trim_space item.link)) db.tables.posts ≡ true
        → HasAll parser codec jsonb o feed items db.tables.posts
        → IsQuiet n db (after_save parser codec jsonb o feed rest n (save_post codec jsonb o p db))
    unfolding SameNews
    saved_again item p n db linked found all =
        let known : any (has_url p.url) db.tables.posts ≡ true = rw linked found in
        saved-IsQuiet n db (save_post codec jsonb o p db) all
          (λ h. elim (save_post_cases codec jsonb o p db true h) [
            | inl (_, fresh, _) ↦ cc
            | inr (wrong, _, _) ↦ cc
          ])
          (rw (save_post-known codec jsonb o p db known) (refl, refl))

    item_again :
        (item : RssItem) (stop : Bool) (id n : ℕ) (db : FeedDb)
        → HasAll parser codec jsonb o feed (item ∷ items) db.tables.posts
        → IsQuiet n db (
            scrape_item parser codec jsonb o feed rest stop (post_of_item parser feed id item) n db)
    unfolding scrape_item
    item_again item true id n db all = record {
      counted = refl;
      posts_kept = refl;
      events_kept = refl;
    }
    item_again item false id n db all = elim (post_of_item_cases parser feed id item) [
      | inl (e, _) ↦ rw e (rest_lem n db all.1)
      | inr (p, e, usable, linked) ↦ rw e (saved_again item p n db linked (all.0 usable) all.1)
    ]

  items_again :
      (items : List RssItem) (n : ℕ) (db : FeedDb)
      → HasAll parser codec jsonb o feed items db.tables.posts
      → IsQuiet n db (scrape_items parser codec jsonb o feed items n db)
  unfolding scrape_items
  items_again [] n db all =
      marked-IsQuiet n db (mark_feed_fetched o feed db) (mark_feed-SameNews db)
  items_again (item ∷ items) n db all =
      item_again items _ (items_again items) item (o.cancelled db.calls) (o.new_uuid db.calls) n db
        all

  read_again :
      (answer : ScrapeError ⊎ List RssItem) (db : FeedDb)
      → ((items : List RssItem)
          → answer ≡ inr items
          → HasAll parser codec jsonb o feed items db.tables.posts)
      → IsQuiet 0 db (scrape_read parser codec jsonb o feed answer db)
  unfolding scrape_read
  read_again (inl e) db all = record { counted = refl; posts_kept = refl; events_kept = refl }
  read_again (inr items) db all = items_again items 0 db (all items refl)

-- Once a scrape has reported no error, a scrape of the same download adds no post and no outbox
-- event and reports no new post, whatever faults it meets, also where it fails.
pub scraped_again-no_news :
    (parser : FeedParser) (codec : Codec) (jsonb : Requested → String) (o o' : Outside) (feed : ℕ)
    (download : Download) (db db' : FeedDb)
    → (scrape_feed parser codec jsonb o feed download db).0.1 ≡ none
    → db'.tables ≡ (scrape_feed parser codec jsonb o feed download db).1.tables
    → ((scrape_feed parser codec jsonb o' feed download db').0.0 ≡ 0)
      × ((scrape_feed parser codec jsonb o' feed download db').1.tables.posts ≡ db'.tables.posts)
      × ((scrape_feed parser codec jsonb o' feed download db').1.tables.events ≡ db'.tables.events)
unfolding scrape_feed
scraped_again-no_news parser codec jsonb o o' feed download db db' h same =
    let q : IsQuiet parser codec jsonb o' feed 0 db'
        (scrape_feed parser codec jsonb o' feed download db') =
      read_again parser codec jsonb o' feed (read_feed parser download) db' (λ items e.
        rw same (scraped-IsComplete parser codec jsonb o feed download items db e h).0) in
    (q.counted, q.posts_kept, q.events_kept)
