-- ===== src/Feeds/Saved.antt =====
-- What internal/database/storage/save_post.go leaves in the tables.
use mathlib.Core.List.{append-nil, append_assoc}
use feed_flow.Base.{
  Bool, Bool-cases, List, String, [], any, ap, arith, false, inl, inr, refl, select, str_eq, suc,
  true, ℕ, ◌++◌, ◌==◌, ◌∙◌, ◌∷◌, ◌≡◌, ◌⊎◌,
}
use feed_flow.Contract.{Codec, Requested}
use feed_flow.Feeds.{EventRow, FeedDb, FeedTables, FollowRow, Outside, PostRow, StorageError}
use feed_flow.Feeds.Accounts.{is_feed}
use feed_flow.Feeds.Calls.{call_db-inr, call_db-tables}
use feed_flow.Feeds.Posts.{add_intents, insert_post, intent_row, same_event, save_post, with_events}

-- Whether a post has this URL.
abbrev pub has_url : String → PostRow → Bool
has_url url q = str_eq q.url url

abbrev pub followers_of : ℕ → FeedTables → List FollowRow
followers_of feed t = select (λ f. f.feed_id == feed) t.follows

with_events_lem :
    (t t' : FeedTables) (r : StorageError ⊎ List EventRow) {b : Bool}
    → with_events t r ≡ inr (b, t')
    → (events : List EventRow) × (r ≡ inr events) × (b ≡ true) × (t' ≡ record t { events = events })
unfolding with_events
with_events_lem t t' (inl e) h = cc
with_events_lem t t' (inr events) h = (events, refl, cc, cc)

module _ (codec : Codec) (jsonb : Requested → String) (gen : ℕ → ℕ) (now : ℕ) (p : PostRow) where
  -- The events of a post: one for each follow row, with the UUIDs of the statement in turn.
  unfoldable pub intents : ℕ → List FollowRow → List EventRow
  unfolding intent_row
  intents i [] = []
  intents i (f ∷ fs) = intent_row codec jsonb now (gen i) p f.user_id ∷ intents (suc i) fs

  add_intents_lem :
      (i : ℕ) (fs : List FollowRow) (events : List EventRow) {r : List EventRow}
      → add_intents codec jsonb gen now p i fs events ≡ inr r
      → r ≡ events ++ intents i fs
  unfolding add_intents intents
  add_intents_lem i [] events h = rw append-nil (cc)
  add_intents_lem i (f ∷ fs) events h =
      let row = intent_row codec jsonb now (gen i) p f.user_id in
      elim (Bool-cases (any (same_event codec jsonb row) events)) [
        | inl e ↦ ground arith
        | inr e ↦
            add_intents_lem (suc i) fs (events ++ row ∷ []) (rw e at h)
            ∙ append_assoc events (row ∷ []) _
      ]

  -- The tables once the post is new, and its events are written.
  abbrev pub with_post : FeedTables → FeedTables
  with_post t = record t {
    posts = t.posts ++ p ∷ [];
    events = t.events ++ intents 0 (followers_of p.feed_id t);
  }

  -- The post is new and is saved with its events, or its URL is known and nothing changes.
  pub insert_post_cases :
      (t t' : FeedTables) (b : Bool)
      → insert_post codec jsonb gen now p t ≡ inr (b, t')
      → ((b ≡ true) × (any (has_url p.url) t.posts ≡ false) × (t' ≡ with_post t))
        ⊎ ((b ≡ false) × (any (has_url p.url) t.posts ≡ true) × (t' ≡ t))
  unfolding insert_post
  insert_post_cases t t' b h = elim (Bool-cases (any (has_url p.url) t.posts)) [
    | inl e ↦ inr (ground arith, e, ground arith)
    | inr e ↦ elim (Bool-cases (any (λ q. q.id == p.id) t.posts)) [
      | inl d ↦ ground arith
      | inr d ↦ elim (Bool-cases (any (is_feed p.feed_id) t.feeds)) [
        | inr g ↦ ground arith
        | inl g ↦
            let new = record t { posts = t.posts ++ p ∷ [] } in
            let (events, r, saved, same) =
              with_events_lem new t'
                (add_intents codec jsonb gen now p 0 (followers_of p.feed_id t) t.events)
                (rw (e, d, g) at h) in
            inl (
              saved,
              e,
              same
                  ∙ ap (λ es. record new { events = es })
                      (add_intents_lem 0 (followers_of p.feed_id t) t.events r),
            )
      ]
    ]
  ]

  insert_post-known :
      (t t' : FeedTables) (b : Bool)
      → any (has_url p.url) t.posts ≡ true
      → insert_post codec jsonb gen now p t ≡ inr (b, t')
      → t' ≡ t
  insert_post-known t t' b found h = elim (insert_post_cases t t' b h) [
    | inl (_, fresh, _) ↦ cc
    | inr (_, _, same) ↦ same
  ]

module _ (codec : Codec) (jsonb : Requested → String) (o : Outside) (p : PostRow)
    (db : FeedDb) where
  -- The post with the times of its columns.
  abbrev pub stamped : PostRow
  stamped = record p { created_at = o.clock db.calls; updated_at = o.clock db.calls }

  -- The tables that a new post leaves.
  abbrev pub tables_with_post : FeedTables
  tables_with_post =
      with_post codec jsonb (o.gen_uuid db.calls) (o.clock db.calls) stamped db.tables

  -- What an answer of `SavePost` means for the tables.
  pub save_post_cases :
      (b : Bool)
      → (save_post codec jsonb o p db).0 ≡ inr b
      → ((b ≡ true)
          × (any (has_url p.url) db.tables.posts ≡ false)
          × ((save_post codec jsonb o p db).1.tables ≡ tables_with_post))
        ⊎ ((b ≡ false)
            × (any (has_url p.url) db.tables.posts ≡ true)
            × ((save_post codec jsonb o p db).1.tables ≡ db.tables))
  unfolding save_post
  save_post_cases b h =
      let (t, e, same) = call_db-inr o _ db h in
      rw same (
        insert_post_cases codec jsonb (o.gen_uuid db.calls) (o.clock db.calls) stamped db.tables t b
          e)

  -- A post whose URL is known changes nothing, whatever fault the call meets.
  pub save_post-known :
      any (has_url p.url) db.tables.posts ≡ true
      → (save_post codec jsonb o p db).1.tables ≡ db.tables
  unfolding save_post
  save_post-known found =
      call_db-tables o _ db (λ t. t ≡ db.tables) refl
        (λ b t e.
          insert_post-known codec jsonb (o.gen_uuid db.calls) (o.clock db.calls) stamped db.tables t
            b found e)
