-- ===== src/Scenarios/Newsfeeds.antt =====
-- A feed with two followers, and a scrape of one item, of internal/worker/worker.go.
use Prim.Native.Char.{code}
use feed_flow.Base.{
  All, Any, Bool, List, Option, String, [], arith, false, if◌then◌else◌, inr, length, none, refl,
  some, suc, true, zero, ℕ, ◌+◌, ◌==◌, ◌∷◌, ◌≡◌,
}
use feed_flow.Base.Text.{byte_len, trim_space}
use feed_flow.Contract.{Codec, Requested, is_web_url}
use feed_flow.Feeds.{FeedDb, FeedRow, FollowRow, Outside, PostRow, call_db}
use feed_flow.Feeds.Announced.{Announces, IsAnnounceable, saved-IsAnnounced}
use feed_flow.Feeds.Posts.{request_for, save_post}
use feed_flow.Feeds.Reading.{mark_feed_fetched}
use feed_flow.Scenarios.{codec}
use feed_flow.Scraper.{
  Download, FeedParser, RssItem, ScrapeError, parse_published_at, post_of_item, read_feed, response,
  scrape_feed,
}
use feed_flow.Scraper.Complete.{HasAll, IsMarked, scraped-IsComplete}
use feed_flow.Scraper.Repeated.{scraped_again-no_news}
use feed_flow.Store.{other_fault}

-- A number as a run of marks and a stop, before the rest of a text.
unfoldable pub marks : ℕ → String → String
marks zero rest = String.◌∷◌ "." rest
marks (suc n) rest = String.◌∷◌ "|" (marks n rest)

-- The number at the head of a text, and the rest.
unfoldable pub read_marks : String → ℕ × String
read_marks String.[] = (0, String.[])
read_marks (String.◌∷◌ c s) =
    let (n, rest) = read_marks s in if code c == 124 then (suc n, rest) else (0, s)

pub read-marks : (n : ℕ) (rest : String) → read_marks (marks n rest) ≡ (n, rest)
unfolding marks read_marks
read-marks zero rest = refl
read-marks (suc n) rest = rw (read-marks n rest, read_marks) refl

abbrev pub new_row : PostRow
new_row = record {
  id = 21;
  created_at = 0;
  updated_at = 0;
  title = "A title";
  description = some "A body";
  published_at = 40;
  url = "https://example.org/a";
  feed_id = 22;
}

-- The events of this post, by their UUID and user.
unfoldable pub jsonb : Requested → String
unfolding marks
jsonb r = marks r.event_id (marks r.user_id "")

unfoldable pub read_request : String → Option (Requested × Bool)
unfolding read_marks
read_request s =
    let (event, rest) = read_marks s in
    let (user, _) = read_marks rest in some (request_for 50 event new_row user, true)

read-jsonb :
    (event user : ℕ)
    → read_request (jsonb (request_for 50 event new_row user))
      ≡ some (request_for 50 event new_row user, true)
unfolding read_request jsonb request_for
read-jsonb event user = rw (read-marks event (marks user ""), read-marks user "", read_request) refl

abbrev pub event_codec : Codec
event_codec = record codec { decode_request = read_request; parse_url = λ s. some ("https", s) }

abbrev pub outside : Outside
outside = record {
  fault = λ n. none;
  was_done = λ n. false;
  clock = λ n. 50;
  cancelled = λ n. false;
  new_uuid = λ n. 21 + n;
  gen_uuid = λ n i. suc i;
}

abbrev pub feed_row : ℕ → FeedRow
feed_row i = record {
  id = i;
  created_at = 1;
  updated_at = 1;
  name = "A feed";
  url = "https://example.org/feed";
  last_fetched_at = none;
}

abbrev pub follow_row : ℕ → ℕ → FollowRow
follow_row i user = record { id = i; created_at = 1; updated_at = 1; user_id = user; feed_id = 22 }

abbrev pub feed_db : FeedDb
feed_db = record {
  tables = record {
    users = [];
    feeds = feed_row 22 ∷ [];
    follows = follow_row 1 5 ∷ follow_row 2 6 ∷ [];
    posts = [];
    events = [];
  };
  calls = 0;
}

pub announceable :
    IsAnnounceable event_codec jsonb (λ i. "1") (outside.gen_uuid 0) (outside.clock 0) new_row
unfolding trim_space is_web_url
announceable = record {
  identified = (omega arith, omega arith);
  dated = (omega arith, omega arith);
  titled = refl;
  linked = refl;
  drawn = λ i. omega arith;
  request_read = λ i user. read-jsonb (suc i) user;
  one_printed = refl;
}

pub post_saved : (save_post event_codec jsonb outside new_row feed_db).0 ≡ inr true
unfolding save_post call_db jsonb
post_saved = refl

saved-IsAnnounced_example :
    (length (save_post event_codec jsonb outside new_row feed_db).1.tables.events ≡ 2)
    × All
        (λ f.
          Any
            (Announces event_codec jsonb
              (λ i. "1")
              (outside.gen_uuid 0)
              (outside.clock 0)
              new_row
              0
              7
              f)
            (save_post event_codec jsonb outside new_row feed_db).1.tables.events)
        (follow_row 1 5 ∷ follow_row 2 6 ∷ [])
saved-IsAnnounced_example =
    saved-IsAnnounced event_codec jsonb (λ i. "1") outside new_row feed_db 0 7 announceable
      (omega arith, (omega arith, tt)) post_saved

-- The feed has this one item, and dates read as 40.
abbrev parser : FeedParser
parser = record {
  unmarshal_rss = λ s. some (
      record {
        title = " A title ";
        link = "https://example.org/a";
        description = "A body";
        pub_date = "today";
      }
      ∷ []);
  parse_time = λ layout s. some 40;
}

abbrev download : Download
download = response 200 (some "<rss/>")

abbrev the_items : List RssItem
the_items =
    record {
      title = " A title ";
      link = "https://example.org/a";
      description = "A body";
      pub_date = "today";
    }
    ∷ []

abbrev scraped : (ℕ × Option ScrapeError) × FeedDb
scraped = scrape_feed parser event_codec jsonb outside 22 download feed_db

feed_read : read_feed parser download ≡ inr the_items
unfolding read_feed byte_len
feed_read = refl

scraped_well : scraped.0.1 ≡ none
unfolding scrape_feed byte_len trim_space post_of_item parse_published_at save_post call_db
    mark_feed_fetched jsonb
scraped_well = refl

scraped-IsComplete_example :
    HasAll parser event_codec jsonb outside 22 the_items scraped.1.tables.posts
    × (length scraped.1.tables.posts ≡ length feed_db.tables.posts + scraped.0.0)
    × IsMarked parser event_codec jsonb outside 22 scraped.1.tables.feeds
scraped-IsComplete_example =
    scraped-IsComplete parser event_codec jsonb outside 22 download the_items feed_db feed_read
      scraped_well

-- The second time the first call reports a fault, although it was carried out.
abbrev failing : Outside
failing = record outside {
  fault = λ n. if n == 9 then some other_fault else none;
  was_done = λ n. true;
}

abbrev later_db : FeedDb
later_db = record { tables = scraped.1.tables; calls = 9 }

scraped_again-no_news_example :
    ((scrape_feed parser event_codec jsonb failing 22 download later_db).0.0 ≡ 0)
    × ((scrape_feed parser event_codec jsonb failing 22 download later_db).1.tables.posts
        ≡ scraped.1.tables.posts)
    × ((scrape_feed parser event_codec jsonb failing 22 download later_db).1.tables.events
        ≡ scraped.1.tables.events)
scraped_again-no_news_example =
    scraped_again-no_news parser event_codec jsonb outside failing 22 download feed_db later_db
      scraped_well refl
