-- ===== src/Scraper/Usable.antt =====
-- Which items of a feed become posts, of internal/worker/worker.go.
use feed_flow.Base.{
  Bool, Bool-cases, Option-cases, false, inl, inr, is_some, none, not, refl, some, true, ℕ, ◌&&◌,
  ◌≡◌, ◌⊎◌,
}
use feed_flow.Base.Text.{is_empty, trim_space}
use feed_flow.Feeds.{PostRow}
use feed_flow.Scraper.{FeedParser, RssItem, parse_published_at, post_of_item}

module _ (parser : FeedParser) where
  -- Whether an item has a title, a link and a readable date.
  unfoldable pub is_usable : RssItem → Bool
  is_usable item =
      not (is_empty (trim_space item.title))
      && not (is_empty (trim_space item.link))
      && is_some (parse_published_at parser item.pub_date)

  -- An item is skipped exactly where it is not usable; else its post has its link.
  pub post_of_item_cases :
      (feed id : ℕ) (item : RssItem)
      → ((post_of_item parser feed id item ≡ none) × (is_usable item ≡ false))
        ⊎ ((p : PostRow) × (post_of_item parser feed id item ≡ some p)
            × (is_usable item ≡ true)
            × (p.url ≡ trim_space item.link))
  unfolding post_of_item is_usable
  post_of_item_cases feed id item = elim (Bool-cases (is_empty (trim_space item.title))) [
    | inl e ↦ rw e (inl (refl, refl))
    | inr e ↦ elim (Bool-cases (is_empty (trim_space item.link))) [
      | inl f ↦ rw (e, f) (inl (refl, refl))
      | inr f ↦ elim (Option-cases (parse_published_at parser item.pub_date)) [
        | inl g ↦ rw (e, f, g) (inl (refl, refl))
        | inr (at, g) ↦ rw (e, f, g) (inr (_, refl, refl, refl))
      ]
    ]
  ]
