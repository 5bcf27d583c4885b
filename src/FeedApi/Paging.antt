-- ===== src/FeedApi/Paging.antt =====
-- A client that reads the feeds of internal/handler/get_all_feeds.go page by page.
use feed_flow.Base.{
  ==_iff, Bool, Bool-cases, List, Option, String, ap, arith, false, inl, inr, length,
  length-sort_by, ltb, ltb→lt, none, refl, select, some, sort_by, suc, take, true, zero, ℕ, ◌++◌,
  ◌+◌, ◌<◌, ◌==◌, ◌||◌, ◌∙◌, ◌≡◌, ◌≤◌, ◌⊎◌,
}
use feed_flow.Base.Int.{pos, ℤ}
use feed_flow.Base.Text.{is_empty}
use feed_flow.FeedApi.{
  CacheStatus, FeedsAnswer, FeedsPage, cached_page, feeds_cursor, feeds_limit, feeds_page,
  get_all_feeds, hit, last_id, miss, stored_page, write_feeds_page,
}
use feed_flow.Feeds.{FeedDb, FeedRow, FeedTables, Outside, answer_call, call_db, settle_call}
use feed_flow.Feeds.Order.{DistinctIds, after_page, select-none, sort-Ascending, sort-select}
use feed_flow.Feeds.Reading.{drop, feed_le, get_feeds_page, is_after, page_of}
use feed_flow.Feeds.Slices.{length-drop-lt, ltb-length-take, take-append-drop, take-take, take_all}
use feed_flow.Http.{Reply, empty_reply, error_reply, value_reply}

module _ (atoi : String → Option ℤ) (uuid_parse : String → Option ℕ) (uuid_string : ℕ → String)
    (o : Outside) (cached : Option (List FeedRow)) (limit_value : String) where
  unfoldable pub prepend : List FeedRow → Option (List FeedRow) → Option (List FeedRow)
  prepend feeds none = none
  prepend feeds (some later) = some (feeds ++ later)

  -- A page and what the client reads behind its cursor.
  unfoldable pub read_page :
      (ℕ → Option (List FeedRow)) → List FeedRow → Option ℕ → Option (List FeedRow)
  unfolding prepend
  read_page rest feeds none = some feeds
  read_page rest feeds (some c) = prepend feeds (rest c)

  unfoldable pub read_answer : (ℕ → Option (List FeedRow)) → Reply FeedsPage → Option (List FeedRow)
  unfolding read_page
  read_answer rest (error_reply status code message) = none
  read_answer rest (empty_reply status) = none
  read_answer rest (value_reply status page) = read_page rest page.feeds page.next_cursor

  -- The client asks for a page, and goes on at its cursor until a page has none; `none` where the
  -- fuel runs out or a page is refused. The text of the cursor is sent as it came.
  unfoldable pub walk : ℕ → String → FeedDb → Option (List FeedRow)
  unfolding read_answer
  walk zero after db = none
  walk (suc fuel) after db =
      let answer = get_all_feeds atoi uuid_parse o cached limit_value after db in
      read_answer (λ c. walk fuel (uuid_string c) answer.1) answer.0.0

  -- The texts of the client: the limit reads as a number in the range, and the UUIDs read back.
  pub record IsReadable (limit : ℕ) : Type 0 where
    pub limit_sent : is_empty limit_value ≡ false
    pub limit_read : atoi limit_value ≡ some (pos limit)
    pub in_range : (1 ≤ limit) × (limit ≤ 100)
    pub cursor_sent : (c : ℕ) → is_empty (uuid_string c) ≡ false
    pub cursor_read : (c : ℕ) → uuid_parse (uuid_string c) ≡ some c

  after_text : Option ℕ → String
  after_text none = ""
  after_text (some c) = uuid_string c

  -- The feeds that a cursor leaves.
  abbrev pub left_after : Option ℕ → FeedDb → List FeedRow
  left_after after db = select (is_after after) (sort_by feed_le db.tables.feeds)

  module _ (limit : ℕ) (readable : IsReadable limit) (calm : (n : ℕ) → o.fault n ≡ none) where
    -- A page without a fault: the feeds, and the tables as before.
    stored :
        (after : Option ℕ) (db : FeedDb)
        → DistinctIds db.tables.feeds
        → get_feeds_page o after (limit + 1) db
          ≡ (inr (take (suc limit) (left_after after db)), record db { calls = db.calls + 1 })
    unfolding get_feeds_page call_db answer_call settle_call page_of
    stored after db apart =
        let next : limit + 1 ≡ suc limit = omega arith in
        let within : (ltb (suc limit) 1 || ltb 101 (suc limit)) ≡ false =
          ground (arith, readable.in_range) in
        rw (next, within, calm db.calls, sort-select (is_after after) db.tables.feeds apart) refl

    limit_lem : feeds_limit atoi limit_value ≡ some limit
    unfolding feeds_limit
    limit_lem =
        rw (readable.limit_sent, readable.limit_read, feeds_limit)
          (ground (arith, readable.in_range))

    from_lem :
        (after : Option ℕ) (db : FeedDb)
        → get_all_feeds atoi uuid_parse o cached limit_value (after_text after) db
          ≡ feeds_page o cached after limit db
    unfolding get_all_feeds after_text
    from_lem none db = rw (limit_lem, get_all_feeds) refl
    from_lem (some c) db =
        rw (limit_lem, readable.cursor_sent c, readable.cursor_read c, get_all_feeds, feeds_cursor)
          refl

    -- The cache holds nothing, or the first page of the feeds as they are.
    abbrev pub IsFresh : FeedDb → Type 0
    IsFresh db = (cached ≡ none) ⊎ (cached ≡ some (take 51 (left_after none db)))

    -- A page is answered with the next feeds, from the storage or from the cache.
    record IsAnswered (after : Option ℕ) (db : FeedDb) (r : FeedsAnswer × FeedDb) : Type 0 where
      status : CacheStatus
      page :
          r.0.0
          ≡ value_reply 200 (write_feeds_page (take (suc limit) (left_after after db)) limit status)
      kept : r.1.tables ≡ db.tables

    asked_lem :
        (cacheable : Bool) (after : Option ℕ) (db : FeedDb)
        → DistinctIds db.tables.feeds
        → IsAnswered after db (stored_page cacheable limit (get_feeds_page o after (limit + 1) db))
    unfolding stored_page
    asked_lem cacheable after db apart =
        rw (stored after db apart) (record { status = miss; page = refl; kept = refl })

    cached_lem :
        (db : FeedDb) (asked : FeedsAnswer × FeedDb) (store : Option (List FeedRow))
        → limit ≡ 50
        → IsAnswered none db asked
        → (store ≡ none) ⊎ (store ≡ some (take 51 (left_after none db)))
        → IsAnswered none db (cached_page store limit db asked)
    unfolding cached_page
    cached_lem db asked none size found fresh = found
    cached_lem db asked (some feeds) size found (inl wrong) = cc
    cached_lem db asked (some feeds) size found (inr same) =
        let same_feeds : feeds ≡ take 51 (left_after none db) = cc in
        record { status = hit; page = rw (same_feeds, size) refl; kept = refl }

    page_lem :
        (after : Option ℕ) (db : FeedDb)
        → DistinctIds db.tables.feeds
        → IsFresh db
        → IsAnswered after db (feeds_page o cached after limit db)
    unfolding feeds_page
    page_lem (some c) db apart fresh = asked_lem false (some c) db apart
    page_lem none db apart fresh = elim (Bool-cases (limit == 50)) [
      | inl e ↦
          rw e (cached_lem db _ cached ((==_iff limit 50).0 e) (asked_lem true none db apart) fresh)
      | inr e ↦ rw e (asked_lem false none db apart)
    ]

    -- A page that is read gives all that is left, if what is behind its cursor does.
    read_page_lem :
        (after : Option ℕ) (db : FeedDb) (status : CacheStatus) (rest : ℕ → Option (List FeedRow))
        → DistinctIds db.tables.feeds
        → ((c : ℕ)
            → limit < length (left_after after db)
            → select (is_after (some c)) (sort_by feed_le db.tables.feeds)
              ≡ drop limit (left_after after db)
            → rest c ≡ some (drop limit (left_after after db)))
        → read_answer rest (
            value_reply 200
              (write_feeds_page (take (suc limit) (left_after after db)) limit status))
          ≡ some (left_after after db)
    unfolding read_answer write_feeds_page
    read_page_lem after db status rest apart rest_lem =
        let left = left_after after db in
        elim (Bool-cases (ltb limit (length left))) [
          | inl e ↦
              let c = last_id (take limit left) in
              let onward = rest_lem c (ltb→lt limit (length left) e) (
                after_page after limit (sort_by feed_le db.tables.feeds)
                  (omega (arith, readable.in_range)) (ltb→lt limit (length left) e)
                  (sort-Ascending db.tables.feeds apart)) in
              rw (ltb-length-take limit left, e, take-take limit left, write_feeds_page)
                (rw onward (ap some (take-append-drop limit left)))
          | inr e ↦ rw (take_all limit left e, e, write_feeds_page) refl
        ]

    walk_lem :
        (fuel : ℕ) (after : Option ℕ) (db : FeedDb)
        → DistinctIds db.tables.feeds
        → IsFresh db
        → length (left_after after db) < fuel
        → walk fuel (after_text after) db ≡ some (left_after after db)
    unfolding walk after_text
    walk_lem zero after db apart fresh h = absurd (omega arith)
    walk_lem (suc fuel) after db apart fresh h =
        let a = page_lem after db apart fresh in
        let db' = (feeds_page o cached after limit db).1 in
        rw (from_lem after db, a.page)
          (read_page_lem after db a.status (λ c. walk fuel (uuid_string c) db') apart
            (λ c longer onward.
              let left = left_after after db in
              let below : left_after (some c) db' ≡ drop limit left =
                ap (λ (t : FeedTables). select (is_after (some c)) (sort_by feed_le t.feeds)) a.kept
                ∙ onward in
              walk_lem fuel (some c) db' (rw a.kept apart) (rw a.kept fresh) (
                rw below (
                  omega
                    (arith, length-drop-lt limit left (omega (arith, readable.in_range)) longer)))
              ∙ ap some below))

    -- A client that asks for the feeds without a cursor and then follows the cursors comes to an
    -- end after at most one page more than there are feeds, and has read every feed once, in the
    -- order of the ids. It asks that no call of the database fails, that no two feeds have one id,
    -- that the cache holds nothing or the first page as it is, and that the limit is sent as a
    -- number from 1 to 100 and UUIDs read back from their texts.
    pub walk-reads_all :
        (fuel : ℕ) (db : FeedDb)
        → DistinctIds db.tables.feeds
        → IsFresh db
        → length db.tables.feeds < fuel
        → walk fuel "" db ≡ some (sort_by feed_le db.tables.feeds)
    unfolding after_text
    walk-reads_all fuel db apart fresh enough =
        let whole = select-none (sort_by feed_le db.tables.feeds) in
        let sorted = length-sort_by feed_le db.tables.feeds in
        walk_lem fuel none db apart fresh (rw whole (omega (arith, sorted, enough))) ∙ ap some whole
