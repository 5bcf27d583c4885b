-- ===== src/Feeds/Announced.antt =====
-- From internal/database/storage/save_post.go over internal/notification/relay to the consumer of
-- internal/notification/pipeline: the events of a post reach its followers.
use feed_flow.Base.{
  All, All-mono, Any, Any-append_right, List, String, [], ap, arith, false, inl, inr, length,
  length-append, refl, some, suc, true, ℕ, ◌+◌, ◌∷◌, ◌≡◌, ◌≢◌,
}
use feed_flow.Base.Int.{pos, ℤ}
use feed_flow.Base.Text.{is_empty, trim_space}
use feed_flow.Contract.{Codec, Requested, header, header_or, is_web_url}
use feed_flow.Feeds.{EventRow, FeedDb, FollowRow, Outside, PostRow}
use feed_flow.Feeds.Posts.{intent_row, notification_producer, request_for, save_post}
use feed_flow.Feeds.Saved.{followers_of, intents, save_post_cases, stamped}
use feed_flow.Pipeline.Consumer.{accept, route}
use feed_flow.Pipeline.Consumer.RoundTrip.{received}
use feed_flow.Pipeline.Consumer.Routing.{route_accepts}
use feed_flow.Relay.{record_of}

-- What the pipeline asks of a post, and what the program relies on of its encodings: a request
-- reads back from what the database builds for it.
pub record IsAnnounceable (codec : Codec) (jsonb : Requested → String) (int_string : ℤ → String)
    (gen : ℕ → ℕ) (now : ℕ) (p : PostRow) : Type 0 where
  pub identified : (p.id ≢ 0) × (p.feed_id ≢ 0)
  pub dated : (now ≢ 0) × (p.published_at ≢ 0)
  pub titled : is_empty (trim_space p.title) ≡ false
  pub linked : is_web_url (codec.parse_url p.url) ≡ true
  pub drawn : (i : ℕ) → gen i ≢ 0
  pub request_read :
      (i user : ℕ)
      → codec.decode_request (jsonb (request_for now (gen i) p user))
        ≡ some (request_for now (gen i) p user, true)
  pub one_printed : int_string (pos 1) ≡ "1"

producer_named : is_empty (trim_space notification_producer) ≡ false
unfolding trim_space
producer_named = refl

module _ (codec : Codec) (jsonb : Requested → String) (int_string : ℤ → String) (gen : ℕ → ℕ)
    (now : ℕ) (p : PostRow) (partition offset : ℕ) where
  -- The relayed event is accepted by the consumer as the request for this follower.
  abbrev pub Announces : FollowRow → EventRow → Type 0
  Announces f e =
      route codec (received (record_of codec int_string e.outbox) partition offset)
      ≡ accept (request_for now e.outbox.id p f.user_id)

  module _ (fit : IsAnnounceable codec jsonb int_string gen now p) where
    pub intent-Announces :
        (i : ℕ) (f : FollowRow)
        → f.user_id ≢ 0
        → Announces f (intent_row codec jsonb now (gen i) p f.user_id)
    unfolding intent_row request_for record_of header header_or
    intent-Announces i f named = (route_accepts codec _ _).1 (
      refl,
      record {
        decoded = fit.request_read i f.user_id;
        identified = (fit.drawn i, refl);
        for_user = (named, refl);
        of_type = (refl, refl);
        of_version = refl;
        dated = fit.dated;
        of_post = fit.identified;
        named = (producer_named, fit.titled);
        linked = fit.linked;
        headed = (refl, refl, fit.one_printed, refl);
      },
    )

    intents_announce :
        (i : ℕ) (fs : List FollowRow)
        → All (λ f. f.user_id ≢ 0) fs
        → All (λ f. Any (Announces f) (intents codec jsonb gen now p i fs)) fs
    unfolding intents
    intents_announce i [] h = tt
    intents_announce i (f ∷ fs) h = (
      inl (intent-Announces i f h.0),
      All-mono _ _ fs (λ g found. inr found) (intents_announce (suc i) fs h.1),
    )

length-intents :
    (codec : Codec) (jsonb : Requested → String) (gen : ℕ → ℕ) (now : ℕ) (p : PostRow) (i : ℕ)
    (fs : List FollowRow)
    → length (intents codec jsonb gen now p i fs) ≡ length fs
unfolding intents
length-intents codec jsonb gen now p i [] = refl
length-intents codec jsonb gen now p i (f ∷ fs) =
    ap suc (length-intents codec jsonb gen now p (suc i) fs)

module _ (codec : Codec) (jsonb : Requested → String) (int_string : ℤ → String) (o : Outside)
    (p : PostRow) (db : FeedDb) (partition offset : ℕ) where
  -- When SavePost reports a new post, the outbox has one more event for each follow row of its
  -- feed, and for each of them an event that the relay turns into a record which the consumer
  -- accepts as the request of this follower for this post. It asks that the post has what the
  -- contract wants (UUIDs and times that are not zero, a title, a web URL), that no UUID is nil and
  -- that the requests read back from the JSON that the database builds.
  pub saved-IsAnnounced :
      IsAnnounceable codec jsonb int_string (o.gen_uuid db.calls) (o.clock db.calls) p
      → All (λ f. f.user_id ≢ 0) (followers_of p.feed_id db.tables)
      → (save_post codec jsonb o p db).0 ≡ inr true
      → (length (save_post codec jsonb o p db).1.tables.events
          ≡ length db.tables.events + length (followers_of p.feed_id db.tables))
        × All
            (λ f.
              Any
                (Announces codec jsonb int_string
                  (o.gen_uuid db.calls)
                  (o.clock db.calls)
                  p
                  partition
                  offset
                  f)
                (save_post codec jsonb o p db).1.tables.events)
            (followers_of p.feed_id db.tables)
  unfolding request_for
  saved-IsAnnounced fit named h = elim (save_post_cases codec jsonb o p db true h) [
    | inr (wrong, _, _) ↦ cc
    | inl (_, _, same) ↦
        let fs = followers_of p.feed_id db.tables in
        let post = stamped codec jsonb o p db in
        let gen = o.gen_uuid db.calls in
        let now = o.clock db.calls in
        let fit' : IsAnnounceable codec jsonb int_string gen now post = record {
          identified = fit.identified;
          dated = fit.dated;
          titled = fit.titled;
          linked = fit.linked;
          drawn = fit.drawn;
          request_read = fit.request_read;
          one_printed = fit.one_printed;
        } in
        rw same (
          omega (
            arith,
            length-append {0} db.tables.events (intents codec jsonb gen now post 0 fs),
            length-intents codec jsonb gen now post 0 fs,
          ),
          All-mono _ _ fs (λ f found. Any-append_right _ db.tables.events _ found)
              (intents_announce codec jsonb int_string gen now post partition offset fit' 0 fs
                named),
        )
  ]
