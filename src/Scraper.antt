-- ===== src/Scraper.antt =====
-- internal/worker: a feed is downloaded, its items are checked and saved as posts, and the feed is
-- marked as fetched. `encoding/xml` and `time.Parse` are the fields of FeedParser.
pub mod Usable
pub mod Complete
pub mod Repeated
use feed_flow.Base.{
  Bool, List, Option, String, [], false, if◌then◌else◌, inl, inr, leb, ltb, none, some, suc, true,
  ℕ, ◌*◌, ◌^◌, ◌||◌, ◌∷◌, ◌⊎◌,
}
use feed_flow.Base.Text.{byte_len, is_empty, trim_space}
use feed_flow.Contract.{Codec, Requested}
use feed_flow.Feeds.{FeedDb, Outside, PostRow, StorageError}
use feed_flow.Feeds.Posts.{save_post}
use feed_flow.Feeds.Reading.{mark_feed_fetched}

pub record RssItem : Type 0 where
  pub title : String
  pub link : String
  pub description : String
  pub pub_date : String

-- The items of the channel, and an instant read by a layout.
pub record FeedParser : Type 0 where
  pub unmarshal_rss : String → Option (List RssItem)
  pub parse_time : String → String → Option ℕ

-- What becomes of the request: it cannot be made, the client fails, or there is a response with
-- its status and the body, where it can be read as far as the limit.
pub data Download : Type 0 where
  bad_request failed_request : Download
  response : ℕ → Option String → Download

pub data ScrapeError : Type 0 where
  request_error download_error unexpected_status read_error feed_too_large xml_error : ScrapeError
  context_error : ScrapeError
  save_error mark_error : StorageError → ScrapeError

abbrev pub max_feed_size : ℕ
max_feed_size = 5 * 2 ^ 20

-- The layouts of `parsePublishedAt`, in its order.
abbrev pub layouts : List String
layouts =
    "Mon, 02 Jan 2006 15:04:05 -0700" ∷ "Mon, 02 Jan 2006 15:04:05 MST" ∷ "02 Jan 06 15:04 -0700"
    ∷ "02 Jan 06 15:04 MST" ∷ "Monday, 02-Jan-06 15:04:05 MST" ∷ "2006-01-02T15:04:05Z07:00" ∷ []

module _ (parser : FeedParser) where
  unfoldable pub first_parsed : List String → String → Option ℕ
  first_parsed [] value = none
  first_parsed (layout ∷ rest) value =
      let later = first_parsed rest value in
      elim (parser.parse_time layout value) [ none ↦ later | some t ↦ some t ]

  unfoldable pub parse_published_at : String → Option ℕ
  unfolding first_parsed
  parse_published_at raw =
      let value = trim_space raw in if is_empty value then none else first_parsed layouts value

  abbrev pub description_of : String → Option String
  description_of raw =
      let description = trim_space raw in if is_empty description then none else some description

  -- The post of an item that has a title and a link, at its date.
  unfoldable pub dated_post : ℕ → ℕ → RssItem → Option ℕ → Option PostRow
  dated_post feed id item none = none
  dated_post feed id item (some published_at) = some (record {
    id = id;
    created_at = 0;
    updated_at = 0;
    title = trim_space item.title;
    description = description_of item.description;
    published_at = published_at;
    url = trim_space item.link;
    feed_id = feed;
  })

  -- The post that an item is saved as; `none` where the item is skipped. Its times are set when it
  -- is saved.
  unfoldable pub post_of_item : ℕ → ℕ → RssItem → Option PostRow
  unfolding dated_post
  post_of_item feed id item =
      if is_empty (trim_space item.title) || is_empty (trim_space item.link)
      then none
      else dated_post feed id item (parse_published_at item.pub_date)

  -- The body of the response, after the checks of its status and size.
  unfoldable pub read_feed : Download → ScrapeError ⊎ List RssItem
  read_feed bad_request = inl request_error
  read_feed failed_request = inl download_error
  read_feed (response status body) =
      if ltb status 200 || leb 300 status then inl unexpected_status else elim body [
        | none ↦ inl read_error
        | some content ↦
            if ltb max_feed_size (byte_len content)
            then inl feed_too_large
            else elim (parser.unmarshal_rss content) [
              | none ↦ inl xml_error
              | some items ↦ inr items
            ]
      ]

  module _ (codec : Codec) (jsonb : Requested → String) (o : Outside) (feed : ℕ) where
    -- What `MarkFeedFetched` means for the scrape.
    unfoldable pub after_mark :
        ℕ → (StorageError ⊎ Unit {0}) × FeedDb → (ℕ × Option ScrapeError) × FeedDb
    after_mark inserted (inl e, db) = ((inserted, some (mark_error e)), db)
    after_mark inserted (inr _, db) = ((inserted, none), db)

    -- What `SavePost` means for the loop; `rest` is the loop over the items left.
    unfoldable pub after_save :
        (ℕ → FeedDb → (ℕ × Option ScrapeError) × FeedDb)
        → ℕ
        → (StorageError ⊎ Bool) × FeedDb
        → (ℕ × Option ScrapeError) × FeedDb
    after_save rest inserted (inl e, db) = ((inserted, some (save_error e)), db)
    after_save rest inserted (inr new, db) = rest (if new then suc inserted else inserted) db

    -- One item: `ctx.Err()`, then the post that it gives, if it gives one.
    unfoldable pub scrape_item :
        (ℕ → FeedDb → (ℕ × Option ScrapeError) × FeedDb)
        → Bool
        → Option PostRow
        → ℕ
        → FeedDb
        → (ℕ × Option ScrapeError) × FeedDb
    unfolding after_save
    scrape_item rest true post inserted db = ((inserted, some context_error), db)
    scrape_item rest false none inserted db = rest inserted db
    scrape_item rest false (some p) inserted db =
        after_save rest inserted (save_post codec jsonb o p db)

    -- The loop over the items; `inserted` counts the posts that were new.
    unfoldable pub scrape_items : List RssItem → ℕ → FeedDb → (ℕ × Option ScrapeError) × FeedDb
    unfolding after_mark scrape_item
    scrape_items [] inserted db = after_mark inserted (mark_feed_fetched o feed db)
    scrape_items (item ∷ items) inserted db =
        scrape_item (scrape_items items) (o.cancelled db.calls)
          (post_of_item feed (o.new_uuid db.calls) item) inserted db

    unfoldable pub scrape_read :
        ScrapeError ⊎ List RssItem → FeedDb → (ℕ × Option ScrapeError) × FeedDb
    unfolding scrape_items
    scrape_read (inl e) db = ((0, some e), db)
    scrape_read (inr items) db = scrape_items items 0 db

    -- `scrapeFeed`: the number of new posts and the error, if there is one.
    unfoldable pub scrape_feed : Download → FeedDb → (ℕ × Option ScrapeError) × FeedDb
    unfolding read_feed scrape_read
    scrape_feed download db = scrape_read (read_feed download) db
