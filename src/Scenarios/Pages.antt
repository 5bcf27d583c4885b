-- ===== src/Scenarios/Pages.antt =====
-- Three feeds, read two to a page through internal/handler/get_all_feeds.go.
use feed_flow.Base.{
  Option, String, [], ap, arith, false, inl, none, refl, some, sort_by, suc, zero, ℕ, ◌∷◌, ◌≡◌,
}
use feed_flow.Base.Int.{pos, ℤ}
use feed_flow.Base.Text.{is_empty}
use feed_flow.FeedApi.Paging.{IsReadable, walk, walk-reads_all}
use feed_flow.Feeds.{FeedDb}
use feed_flow.Feeds.Reading.{feed_le}
use feed_flow.Scenarios.Newsfeeds.{feed_row, marks, outside, read-marks, read_marks}

abbrev pub shelf : FeedDb
shelf = record {
  tables = record {
    users = [];
    feeds = feed_row 7 ∷ feed_row 3 ∷ feed_row 5 ∷ [];
    follows = [];
    posts = [];
    events = [];
  };
  calls = 0;
}

-- The text of a cursor is the cursor in marks.
abbrev cursor_text : ℕ → String
cursor_text c = marks c ""

abbrev pub cursor_of : String → Option ℕ
cursor_of s = some (read_marks s).0

pub cursor-read : (c : ℕ) → cursor_of (cursor_text c) ≡ some c
cursor-read c = ap (λ r. some r.0) (read-marks c "")

cursor_sent : (c : ℕ) → is_empty (cursor_text c) ≡ false
unfolding marks
cursor_sent zero = refl
cursor_sent (suc c) = refl

abbrev pub two : String → Option ℤ
two s = some (pos 2)

readable : IsReadable two cursor_of cursor_text outside none "2" 2
readable = record {
  limit_sent = refl;
  limit_read = refl;
  in_range = (omega arith, omega arith);
  cursor_sent = cursor_sent;
  cursor_read = cursor-read;
}

walk-reads_all_example :
    walk two cursor_of cursor_text outside none "2" 4 "" shelf
    ≡ some (sort_by feed_le shelf.tables.feeds)
walk-reads_all_example =
    walk-reads_all two cursor_of cursor_text outside none "2" 2 readable (λ n. refl) 4 shelf
      (refl, (refl, (refl, tt))) (inl refl) (omega arith)
