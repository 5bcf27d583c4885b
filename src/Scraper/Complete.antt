-- ===== src/Scraper/Complete.antt =====
-- What a scrape without an error leaves, of internal/worker/worker.go.
use feed_flow.Base.{
  All, All-pointwise, All-update, Bool, List, Option, String, [], any, any-append, ap, arith, false,
  inl, inr, is_some, length, length-append, none, refl, some, str_eq_iff, suc, true, update, ℕ,
  ◌++◌, ◌+◌, ◌∷◌, ◌≡◌, ◌⊎◌,
}
use feed_flow.Base.Text.{trim_space}
use feed_flow.Contract.{Codec, Requested}
use feed_flow.Feeds.{FeedDb, FeedRow, Outside, PostRow, StorageError}
use feed_flow.Feeds.Accounts.{is_feed}
use feed_flow.Feeds.Calls.{call_db-inr}
use feed_flow.Feeds.Posts.{save_post}
use feed_flow.Feeds.Reading.{mark_feed_fetched}
use feed_flow.Feeds.Saved.{has_url, save_post_cases, stamped}
use feed_flow.Scraper.{
  Download, FeedParser, RssItem, ScrapeError, after_mark, after_save, post_of_item, read_feed,
  scrape_feed, scrape_item, scrape_items, scrape_read,
}
use feed_flow.Scraper.Usable.{is_usable, post_of_item_cases}

module _ (parser : FeedParser) (codec : Codec) (jsonb : Requested → String) (o : Outside)
    (feed : ℕ) where
  -- The posts hold the link of each usable item.
  abbrev pub HasAll : List RssItem → List PostRow → Type 0
  HasAll items ps =
      All (λ item. is_usable parser item ≡ true → any (has_url (trim_space item.link)) ps ≡ true)
        items

  abbrev pub IsMarked : List FeedRow → Type 0
  IsMarked = All (λ f. is_feed feed f ≡ true → is_some f.last_fetched_at ≡ true)

  -- What a loop without an error has done.
  pub record Scraped (items : List RssItem) (inserted : ℕ) (db : FeedDb)
      (r : (ℕ × Option ScrapeError) × FeedDb) : Type 0 where
    pub present : HasAll items r.1.tables.posts
    pub kept :
        (url : String)
        → any (has_url url) db.tables.posts ≡ true
        → any (has_url url) r.1.tables.posts ≡ true
    pub counted : length r.1.tables.posts + inserted ≡ length db.tables.posts + r.0.0
    pub marked : IsMarked r.1.tables.feeds

  mark_feed-IsMarked :
      (db : FeedDb)
      → (mark_feed_fetched o feed db).0 ≡ inr tt
      → ((mark_feed_fetched o feed db).1.tables.posts ≡ db.tables.posts)
        × IsMarked (mark_feed_fetched o feed db).1.tables.feeds
  unfolding mark_feed_fetched
  mark_feed-IsMarked db h =
      let marked =
        update (is_feed feed) (λ f. record f { last_fetched_at = some (o.clock db.calls) })
          db.tables.feeds in
      let (t, e, same) = call_db-inr o _ db h in
      let left : t ≡ record db.tables { feeds = marked } = cc in
      rw (same, left)
        (
          refl,
          All-update (λ _. Unit {0}) _ (is_feed feed) _ db.tables.feeds (λ f _ _ _. refl)
              (λ f _ other same_feed. absurd (ground arith))
              (All-pointwise _ db.tables.feeds (λ f. tt)),
        )

  marked_all :
      (inserted : ℕ) (db : FeedDb) (answer : (StorageError ⊎ Unit {0}) × FeedDb)
      → (answer.0 ≡ inr tt
          → (answer.1.tables.posts ≡ db.tables.posts) × IsMarked answer.1.tables.feeds)
      → (after_mark parser codec jsonb o feed inserted answer).0.1 ≡ none
      → Scraped [] inserted db (after_mark parser codec jsonb o feed inserted answer)
  unfolding after_mark
  marked_all inserted db (inl e, db') facts h = cc
  marked_all inserted db (inr _, db') facts h = record {
    present = tt;
    kept = λ url found. rw (facts refl).0 found;
    counted = rw (facts refl).0 refl;
    marked = (facts refl).1;
  }

  module _ (items : List RssItem) (rest : ℕ → FeedDb → (ℕ × Option ScrapeError) × FeedDb)
      (rest_lem : (n : ℕ) (db : FeedDb)
        → (rest n db).0.1 ≡ none
        → Scraped items n db (rest n db)) where
    -- What is asked of the answer of `SavePost`.
    abbrev IsSaveAnswer : RssItem → FeedDb → (StorageError ⊎ Bool) × FeedDb → Type 0
    IsSaveAnswer item db answer =
        (b : Bool)
        → answer.0 ≡ inr b
        → ((b ≡ true)
            × (p : PostRow) × (p.url ≡ trim_space item.link)
            × (answer.1.tables.posts ≡ db.tables.posts ++ p ∷ []))
          ⊎ ((b ≡ false)
              × (any (has_url (trim_space item.link)) db.tables.posts ≡ true)
              × (answer.1.tables.posts ≡ db.tables.posts))

    new_post :
        (item : RssItem) (p : PostRow) (n : ℕ) (db db' : FeedDb)
        → p.url ≡ trim_space item.link
        → db'.tables.posts ≡ db.tables.posts ++ p ∷ []
        → (rest (suc n) db').0.1 ≡ none
        → Scraped (item ∷ items) n db (rest (suc n) db')
    new_post item p n db db' linked same h =
        let r = rest_lem (suc n) db' h in
        let u = trim_space item.link in
        record {
          present = (
            λ _. r.kept u (
                rw same (
                  ground
                    (arith, any-append (has_url u) db.tables.posts (p ∷ []), str_eq_iff p.url u))),
            r.present,
          );
          kept = λ url found.
              r.kept url
                (rw same (ground (arith, any-append (has_url url) db.tables.posts (p ∷ []))));
          counted =
              omega (arith, r.counted, ap length same, length-append {0} db.tables.posts (p ∷ []));
          marked = r.marked;
        }

    known_post :
        (item : RssItem) (n : ℕ) (db db' : FeedDb)
        → any (has_url (trim_space item.link)) db.tables.posts ≡ true
        → db'.tables.posts ≡ db.tables.posts
        → (rest n db').0.1 ≡ none
        → Scraped (item ∷ items) n db (rest n db')
    known_post item n db db' found same h =
        let r = rest_lem n db' h in
        record {
          present = (λ _. r.kept _ (rw same found), r.present);
          kept = λ url k. r.kept url (rw same k);
          counted = rw (← same) r.counted;
          marked = r.marked;
        }

    answered_item :
        (item : RssItem) (n : ℕ) (db : FeedDb) (answer : (StorageError ⊎ Bool) × FeedDb)
        → IsSaveAnswer item db answer
        → (after_save parser codec jsonb o feed rest n answer).0.1 ≡ none
        → Scraped (item ∷ items) n db (after_save parser codec jsonb o feed rest n answer)
    unfolding after_save
    answered_item item n db (inl e, db') facts h = cc
    answered_item item n db (inr true, db') facts h = elim (facts true refl) [
      | inl (_, p, linked, same) ↦ new_post item p n db db' linked same h
      | inr (wrong, _, _) ↦ cc
    ]
    answered_item item n db (inr false, db') facts h = elim (facts false refl) [
      | inl (wrong, _, _, _) ↦ cc
      | inr (_, found, same) ↦ known_post item n db db' found same h
    ]

    saved_item :
        (item : RssItem) (p : PostRow) (n : ℕ) (db : FeedDb)
        → p.url ≡ trim_space item.link
        → (after_save parser codec jsonb o feed rest n (save_post codec jsonb o p db)).0.1 ≡ none
        → Scraped
            (item ∷ items)
            n
            db
            (after_save parser codec jsonb o feed rest n (save_post codec jsonb o p db))
    saved_item item p n db e h =
        answered_item item n db (save_post codec jsonb o p db)
          (λ b answered. elim (save_post_cases codec jsonb o p db b answered) [
            | inl (new, _, same) ↦ inl (new, stamped codec jsonb o p db, e, rw same refl)
            | inr (old, found, same) ↦ inr (old, rw e at found, rw same refl)
          ])
          h

    item-Scraped :
        (item : RssItem) (stop : Bool) (id n : ℕ) (db : FeedDb)
        → (scrape_item parser codec jsonb o feed rest stop
            (post_of_item parser feed id item)
            n
            db).0.1
          ≡ none
        → Scraped (item ∷ items) n db (
            scrape_item parser codec jsonb o feed rest stop (post_of_item parser feed id item) n db)
    unfolding scrape_item
    item-Scraped item true id n db h = cc
    item-Scraped item false id n db h = elim (post_of_item_cases parser feed id item) [
      | inl (e, unusable) ↦
          let r = rest_lem n db (rw e at h) in
          rw e (record {
            present = (λ usable. absurd (ground arith), r.present);
            kept = r.kept;
            counted = r.counted;
            marked = r.marked;
          })
      | inr (p, e, _, linked) ↦ rw e (saved_item item p n db linked (rw e at h))
    ]

  pub items-Scraped :
      (items : List RssItem) (n : ℕ) (db : FeedDb)
      → (scrape_items parser codec jsonb o feed items n db).0.1 ≡ none
      → Scraped items n db (scrape_items parser codec jsonb o feed items n db)
  unfolding scrape_items
  items-Scraped [] n db h = marked_all n db (mark_feed_fetched o feed db) (mark_feed-IsMarked db) h
  items-Scraped (item ∷ items) n db h =
      item-Scraped items _ (items-Scraped items) item (o.cancelled db.calls) (o.new_uuid db.calls) n
        db h

  -- When a scrape reports no error, each item of the feed that has a title, a link and a readable
  -- date is there as a post with its link, the number that it reports is the number of posts that
  -- it has added, and the feed is marked as fetched.
  pub scraped-IsComplete :
      (download : Download) (items : List RssItem) (db : FeedDb)
      → read_feed parser download ≡ inr items
      → (scrape_feed parser codec jsonb o feed download db).0.1 ≡ none
      → HasAll items (scrape_feed parser codec jsonb o feed download db).1.tables.posts
        × (length (scrape_feed parser codec jsonb o feed download db).1.tables.posts
            ≡ length db.tables.posts + (scrape_feed parser codec jsonb o feed download db).0.0)
        × IsMarked (scrape_feed parser codec jsonb o feed download db).1.tables.feeds
  unfolding scrape_feed scrape_read
  scraped-IsComplete download items db e h = rw e (
      let s = items-Scraped items 0 db (rw e at h) in
      (s.present, omega (arith, s.counted), s.marked))
